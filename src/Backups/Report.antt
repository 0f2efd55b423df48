-- ===== src/Backups/Report.antt =====
-- What the check of a backup reports, and its exit code (scripts/ops/verify_backup_manifest.py).
use Prim.Native.Char.{code}
use Prim.Native.String.{String, ◌++◌, [] as empty, ◌∷◌ as str_cons}
use casino_bot.Prelude.{
  ℕ, Bool, not, ◌==◌, ◌≡◌, refl, str_eq, none, some, List, [], ◌∷◌, ◌++◌ as append, map, select,
  if◌then◌else◌,
}
use casino_bot.Python.{Result, ok, err}
use casino_bot.Python.Text.{strip}
use casino_bot.Python.Documents.{Value, string, Fields, lookup, or_default, is_true}
use casino_bot.Backups.{
  Host, Checked, checked, verify_error, raised, and_then, load_manifest, fields_of,
  check_schema_version, check_required_fields, check_required_fields_strict,
}
use casino_bot.Backups.Artifact.{check_sha256, check_sidecar_sha}

pub record Report : Type 0 where
  pub manifest_path : String
  pub encrypted_path : String
  pub schema_version : Value
  pub sha256_verified : String
  pub git_sha : Value
  pub git_describe : Value
  pub postgres_version : Value
  pub alembic_revision : Value
  pub encryption : Value

abbrev pub text_or_empty : Fields → String → Value
text_or_empty manifest k = or_default (string "") (lookup k manifest)

abbrev pub report_of : String → Fields → Value → String × String → Report
report_of path manifest sv (actual, encrypted) = record {
  manifest_path = path;
  encrypted_path = encrypted;
  schema_version = sv;
  sha256_verified = actual;
  git_sha = text_or_empty manifest "git_sha";
  git_describe = text_or_empty manifest "git_describe";
  postgres_version = text_or_empty manifest "postgres_version";
  alembic_revision = text_or_empty manifest "alembic_revision";
  encryption = or_default (text_or_empty manifest "tool") (lookup "encryption" manifest);
}

-- The checks of a manifest that has been read.
unfoldable pub verify_fields : Host → String → List String → Fields → Checked Report
unfolding and_then
verify_fields host path require_fields manifest =
    and_then (check_schema_version host manifest) λ version.
      and_then (check_required_fields host manifest version.1) λ u.
        and_then (check_sha256 host manifest path) λ sha.
          and_then (check_sidecar_sha host manifest path) λ v.
            and_then (check_required_fields_strict host manifest require_fields)
              λ w. checked (report_of path manifest version.0 sha)

unfoldable pub verify : Host → String → List String → Checked Report
unfolding and_then verify_fields
verify host path require_fields =
    and_then (load_manifest host path)
      λ document. and_then (fields_of document) (verify_fields host path require_fields)

-- The arguments, as `argparse` reads them.
pub record Args : Type 0 where
  pub manifest : String
  pub require_fields : String
  pub json : Bool

-- A path with the suffix ".json" (which one that ends in ".meta.json" has) is the manifest's own.
unfoldable pub resolve_manifest_path : Host → String → String
resolve_manifest_path host arg =
    if str_eq (host.suffix arg) ".json"
    then arg
    else elim (host.file (arg ++ ".meta.json")) [ none ↦ arg | some content ↦ arg ++ ".meta.json" ]

-- `text.split(",")`.
abbrev cons_word : String → List String → List String
cons_word c [] = c ∷ []
cons_word c (w ∷ ws) = (c ++ w) ∷ ws

split_commas : String → List String
split_commas empty = "" ∷ []
split_commas (str_cons c s) =
    let rest = split_commas s in
    if code c == 44 then "" ∷ rest else cons_word (str_cons c empty) rest

unfoldable pub required_names : String → List String
unfolding split_commas
required_names s = select (λ f. not (str_eq f "")) (map strip (split_commas s))

required_names_run : required_names " git_sha,, tool " ≡ "git_sha" ∷ "tool" ∷ []
unfolding required_names strip select
required_names_run = refl

-- What is printed: a line, the report or a failure as JSON, or a line on the error stream.
pub data Printed : Type 0 where
  line : String → Printed
  report_json : Report → Printed
  failure_json : String → String → Printed
  problem : String → Printed

abbrev pub shown_if : Host → String → Value → List Printed → List Printed
shown_if host key value rest =
    if is_true value then line ("  " ++ key ++ ": " ++ host.str_of value) ∷ rest else rest

unfoldable pub report_lines : Host → Report → List Printed
report_lines host report =
    line ("PASS: " ++ report.manifest_path)
    ∷ (shown_if host "schema_version" report.schema_version (
        shown_if host "encryption" report.encryption (
          shown_if host "git_sha" report.git_sha (
            shown_if host "git_describe" report.git_describe (
              shown_if host "postgres_version" report.postgres_version
                (shown_if host "alembic_revision" report.alembic_revision []))))))

-- The exit code with what is printed; an exception that `main` does not catch ends the script.
unfoldable pub exit_of : Host → Bool → String → Checked Report → Result (ℕ × List Printed)
unfolding report_lines
exit_of host json path (checked report) =
    ok (0, if json then report_json report ∷ [] else report_lines host report)
exit_of host json path (verify_error code reason) = ok (
  code,
  append (if json then failure_json path reason ∷ [] else []) (problem ("FAIL: " ++ reason) ∷ []),
)
exit_of host json path (raised e) = err e

unfoldable pub main : Host → Args → Result (ℕ × List Printed)
unfolding verify exit_of resolve_manifest_path required_names
main host args =
    let path = resolve_manifest_path host args.manifest in
    exit_of host args.json path (verify host path (required_names args.require_fields))
