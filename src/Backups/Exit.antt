-- ===== src/Backups/Exit.antt =====
-- When the check of a backup ends with exit code zero (scripts/ops/verify_backup_manifest.py).
use Prim.Native.String.{String, ◌++◌}
use casino_bot.Prelude.{
  ◌<◌, ◌≡◌, refl, ◌∙◌, ap, Bool, true, false, not, str_eq, Option, none, some, List, [], ◌∷◌, map,
  select, ◌⊎◌, ◌↔◌, inl, inr, arith, Option-cases, if◌then◌else◌,
}
use casino_bot.Python.{ok, ok-injective}
use casino_bot.Python.Text.{lower, strip}
use casino_bot.Python.Documents.{
  Value, nothing, numeral, string, boolean, array, object, Fields, is_true,
}
use casino_bot.Backups.{
  Host, Checked, checked, verify_error, raised, and_then, load_manifest, loaded, document_of,
  fields_of, Schema, version_of, required_of, is_missing, is_well_formed, field_value, bad_fields,
  bad_entry, basename_of, digest_of, unless_empty, check_schema_version, check_required_fields,
  check_required_fields_strict,
}
use casino_bot.Backups.Artifact.{
  word, check_sha256, artifact_matches, check_sidecar_sha, sidecar_matches,
}
use casino_bot.Backups.Report.{
  Report, report_of, verify_fields, verify, Args, Printed, resolve_manifest_path, required_names,
  exit_of, main,
}
use casino_bot.Backups.Checks.{selects_none, all_not}
use casino_bot.Backups.Sealed.{HasPassed, verify-HasPassed}
use casino_bot.Backups.Manifest.{IsSealed, passed-IsSealed, sealed-HasPassed}

-- A `VerifyError` has a code that is not zero.
abbrev FailsLoudly : {A : Type 0} → Checked A → Type 0
FailsLoudly (checked a) = Unit
FailsLoudly (verify_error code reason) = 0 < code
FailsLoudly (raised e) = Unit

and_then-FailsLoudly :
    {A B : Type 0} (m : Checked A) (f : A → Checked B)
    → FailsLoudly m
    → ((a : A) → FailsLoudly (f a))
    → FailsLoudly (and_then m f)
unfolding and_then
and_then-FailsLoudly (checked a) f h k = k a
and_then-FailsLoudly (verify_error code reason) f h k = h
and_then-FailsLoudly (raised e) f h k = tt

loaded-FailsLoudly : (r : String ⊎ Value) → FailsLoudly (loaded r)
loaded-FailsLoudly (inl problem) = omega arith
loaded-FailsLoudly (inr v) = tt

document-FailsLoudly :
    (host : Host) (path : String) (f : Option String) → FailsLoudly (document_of host path f)
document-FailsLoudly host path none = omega arith
document-FailsLoudly host path (some content) = loaded-FailsLoudly (host.loads content)

fields-FailsLoudly : (v : Value) → FailsLoudly (fields_of v)
unfolding fields_of
fields-FailsLoudly (object fs) = tt
fields-FailsLoudly nothing = tt
fields-FailsLoudly (numeral n) = tt
fields-FailsLoudly (string s) = tt
fields-FailsLoudly (boolean b) = tt
fields-FailsLoudly (array xs) = tt

version-FailsLoudly :
    (host : Host) (sv : Value) (s : Option Schema) → FailsLoudly (version_of host sv s)
version-FailsLoudly host sv none = omega arith
version-FailsLoudly host sv (some s) = tt

unless_empty-FailsLoudly :
    (host : Host) (reason : String) (ks : List String) → FailsLoudly (unless_empty host reason ks)
unfolding unless_empty
unless_empty-FailsLoudly host reason [] = tt
unless_empty-FailsLoudly host reason (k ∷ ks) = omega arith

if-FailsLoudly :
    {A : Type 0} (b : Bool) (m n : Checked A)
    → FailsLoudly m
    → FailsLoudly n
    → FailsLoudly (if b then m else n)
if-FailsLoudly true m n h k = h
if-FailsLoudly false m n h k = k

artifact-FailsLoudly :
    (host : Host) (manifest : Fields) (path : String) (f : Option String)
    → FailsLoudly (artifact_matches host manifest path f)
artifact-FailsLoudly host manifest path none = omega arith
artifact-FailsLoudly host manifest path (some content) =
    if-FailsLoudly (str_eq (lower (host.sha256 content)) (lower (digest_of manifest))) _ _ tt
      (omega arith)

sidecar-FailsLoudly :
    (host : Host) (manifest : Fields) (path : String) (f : Option String)
    → FailsLoudly (sidecar_matches host manifest path f)
sidecar-FailsLoudly host manifest path none = tt
sidecar-FailsLoudly host manifest path (some content) =
    if-FailsLoudly (str_eq (strip content) "") _ _ (omega arith) (
      if-FailsLoudly (str_eq (lower (word (strip content))) (lower (digest_of manifest))) _ _ tt
        (omega arith))

required-FailsLoudly :
    (host : Host) (manifest : Fields) (schema : Schema)
    → FailsLoudly (check_required_fields host manifest schema)
unfolding check_required_fields
required-FailsLoudly host manifest schema =
    let missing = select (is_missing manifest) (required_of schema) in
    let bad = map (bad_entry host manifest) (bad_fields schema manifest) in
    and_then-FailsLoudly (unless_empty host "manifest missing required fields: " missing)
      (λ t. unless_empty host "invalid manifest fields: " bad)
      (unless_empty-FailsLoudly host "manifest missing required fields: " missing)
      λ t. unless_empty-FailsLoudly host "invalid manifest fields: " bad

verify-FailsLoudly :
    (host : Host) (path : String) (names : List String) → FailsLoudly (verify host path names)
unfolding verify verify_fields load_manifest check_schema_version check_sha256 check_sidecar_sha
    check_required_fields_strict
verify-FailsLoudly host path names =
    and_then-FailsLoudly (load_manifest host path) _
      (document-FailsLoudly host path (host.file path))
      λ v. and_then-FailsLoudly (fields_of v) _ (fields-FailsLoudly v) λ manifest.
        and_then-FailsLoudly (check_schema_version host manifest) _ (version-FailsLoudly host _ _)
          λ version.
            and_then-FailsLoudly (check_required_fields host manifest version.1) _
              (required-FailsLoudly host manifest version.1)
              λ u.
                and_then-FailsLoudly (check_sha256 host manifest path) _
                  (artifact-FailsLoudly host manifest _ _)
                  λ sha.
                    and_then-FailsLoudly (check_sidecar_sha host manifest path) _
                      (sidecar-FailsLoudly host manifest _ _)
                      λ w.
                        and_then-FailsLoudly (check_required_fields_strict host manifest names) _
                          (unless_empty-FailsLoudly host _ _) λ x. tt

-- The checks of what is sealed pass one after the other.
module _ (host : Host) (path : String) (names : List String) (s : HasPassed host path names) where
  abbrev place : String
  place = host.beside path (basename_of s.manifest)

  abbrev aside : String
  aside = host.beside path (basename_of s.manifest ++ ".sha256")

  required_pass : check_required_fields host s.manifest s.schema ≡ checked tt
  unfolding check_required_fields and_then unless_empty
  required_pass =
      rw
        (
          selects_none (is_missing s.manifest) (required_of s.schema) s.complete,
          selects_none (λ k. not (is_well_formed s.schema k (field_value s.manifest k)))
              (required_of s.schema)
              (all_not (λ k. is_well_formed s.schema k (field_value s.manifest k))
                (required_of s.schema) s.well_formed),
        )
        refl

  sha_passes : check_sha256 host s.manifest path ≡ checked (host.sha256 s.artifact, place)
  unfolding check_sha256
  sha_passes = rw (s.encrypted, s.intact) refl

  sidecar_passes : check_sidecar_sha host s.manifest path ≡ checked tt
  unfolding check_sidecar_sha
  sidecar_passes = elim (Option-cases (host.file aside)) [
    | inl e ↦ rw e refl
    | inr (text, e) ↦ let (given, agrees) = s.sidecar text e in rw (e, given, agrees) refl
  ]

  demanded_pass : check_required_fields_strict host s.manifest names ≡ checked tt
  unfolding check_required_fields_strict unless_empty
  demanded_pass =
      rw
        (selects_none (λ k. not (is_true (field_value s.manifest k))) names
          (all_not (λ k. is_true (field_value s.manifest k)) names s.demanded))
        refl

  verify_passes :
      verify host path names
      ≡ checked (
          report_of path s.manifest
            (field_value s.manifest "schema_version")
            (host.sha256 s.artifact, place))
  unfolding verify verify_fields and_then load_manifest fields_of check_schema_version
  verify_passes =
      rw (s.stored, s.parsed, s.versioned, required_pass, sha_passes, sidecar_passes, demanded_pass)
        refl

exit_zero-checked :
    (host : Host) (json : Bool) (path : String) (r : Checked Report) {printed : List Printed}
    → FailsLoudly r
    → exit_of host json path r ≡ ok (0, printed)
    → (report : Report) × (r ≡ checked report)
unfolding exit_of
exit_zero-checked host json path (checked report) loud h = (report, refl)
exit_zero-checked host json path (verify_error code reason) loud h =
    let zero : code ≡ 0 = ap (λ z. z.0) (ok-injective h) in absurd (omega (arith, loud, zero))
exit_zero-checked host json path (raised e) loud h = absurd cc

-- The script ends with exit code zero exactly for a sealed manifest: the file is there and is JSON
-- of an object of schema version 1 or 2 (a Boolean `true` counts as 1), with each field of that
-- version of its kind (of the sizes, Booleans pass too) and those asked for given; the encrypted
-- file beside it has the digest that it names, and a sidecar, where there is one, agrees.
pub main_zero_iff :
    (host : Host) (args : Args)
    → ((printed : List Printed) × (main host args ≡ ok (0, printed)))
      ↔ IsSealed host
          (resolve_manifest_path host args.manifest)
          (required_names args.require_fields)
unfolding main
main_zero_iff host args =
    let path = resolve_manifest_path host args.manifest in
    let names = required_names args.require_fields in
    (
      λ (printed, h).
          let (report, e) =
            exit_zero-checked host args.json path (verify host path names)
              (verify-FailsLoudly host path names) h in
          passed-IsSealed host path names (verify-HasPassed host path names e),
      λ sealed.
          let passed = sealed-HasPassed host path names sealed in
          (_, ap (exit_of host args.json path) (verify_passes host path names passed) ∙ refl),
    )
