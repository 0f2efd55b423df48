-- ===== src/Tests/Backups.antt =====
-- The check of a backup at concrete inputs.
use casino_bot.Prelude.{
  pos, ◌≡◌, refl, ◌↔◌, true, str_eq, select, none, some, List, inr, if◌then◌else◌,
}
use casino_bot.Python.{ok}
use casino_bot.Python.Text.{lower, strip}
use casino_bot.Python.Documents.{
  Value, numeral, string, boolean, object, end, field, lookup, is_true,
}
use casino_bot.Backups.{
  Host, load_manifest, fields_of, check_schema_version, check_required_fields, is_missing,
  is_well_formed, check_required_fields_strict,
}
use casino_bot.Backups.Artifact.{check_sha256, check_sidecar_sha, word}
use casino_bot.Backups.Report.{Args, Printed, resolve_manifest_path, required_names, main}
use casino_bot.Backups.Manifest.{IsSealed}
use casino_bot.Backups.Exit.{main_zero_iff}

abbrev manifest : Value → Value
manifest version = object (
    field "schema_version" version (
      field "created_at_utc" (string "2026-01-01T00:00:00Z") (
        field "tool" (string "age") (
          field "recipient" (string "age1") (
            field "plaintext_basename" (string "db.dump") (
              field "encrypted_basename" (string "db.dump.age") (
                field "plaintext_size_bytes" (numeral (pos 10)) (
                  field "encrypted_size_bytes" (numeral (pos 12)) (
                    field "sha256" (string "AB12") (
                      field "compose_file" (string "docker-compose.yml") (
                        field "env_file" (string ".env")
                          (field "postgres_service" (string "postgres") end))))))))))))

abbrev host : Value → Host
host version = record {
  file = λ path.
      if str_eq path "db.meta.json"
      then some "{}"
      else if str_eq path "db.dump.age"
      then some "cipher"
      else if str_eq path "db.dump.age.sha256"
      then some "ab12  db.dump.age"
      else none;
  loads = λ text. inr (manifest version);
  sha256 = λ content. "ab12";
  repr = λ v. "";
  str_of = λ v. "1";
  repr_texts = λ ks. "";
  beside = λ path name. name;
  suffix = λ path. ".json";
}

abbrev args : Args
args = record { manifest = "db.meta.json"; require_fields = "tool, recipient"; json = true }

-- The manifest passes, and so does one whose version is the Boolean `true`.
passes : (printed : List Printed) × (main (host (numeral (pos 1))) args ≡ ok (0, printed))
unfolding main load_manifest fields_of check_schema_version lookup check_required_fields select
    is_missing is_well_formed check_sha256 lower check_sidecar_sha strip word
    check_required_fields_strict is_true
passes = (_, refl)

passes_boolean : (printed : List Printed) × (main (host (boolean true)) args ≡ ok (0, printed))
unfolding main load_manifest fields_of check_schema_version lookup check_required_fields select
    is_missing is_well_formed check_sha256 lower check_sidecar_sha strip word
    check_required_fields_strict is_true
passes_boolean = (_, refl)

main_zero_iff_example :
    ((printed : List Printed) × (main (host (numeral (pos 1))) args ≡ ok (0, printed)))
    ↔ IsSealed
        (host (numeral (pos 1)))
        (resolve_manifest_path (host (numeral (pos 1))) "db.meta.json")
        (required_names "tool, recipient")
main_zero_iff_example = main_zero_iff (host (numeral (pos 1))) args
