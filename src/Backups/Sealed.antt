-- ===== src/Backups/Sealed.antt =====
-- What a backup that passes every check has (scripts/ops/verify_backup_manifest.py).
use Prim.Native.String.{String, ◌++◌}
use casino_bot.Prelude.{◌≡◌, ◌∙◌, ap, true, false, str_eq, some, List, select, All, inr}
use casino_bot.Python.Text.{lower, strip}
use casino_bot.Python.Documents.{object, Fields, is_true}
use casino_bot.Backups.{
  Host, checked, load_manifest, fields_of, Schema, whole_of, schema_of, required_of, is_missing,
  is_well_formed, field_value, bad_entry, basename_of, digest_of, unless_empty,
  check_schema_version, check_required_fields, check_required_fields_strict,
}
use casino_bot.Backups.Artifact.{word, check_sha256, check_sidecar_sha}
use casino_bot.Backups.Checks.{
  and_then-checked, unless_empty-checked, none_selected, map_empty, not_all, version_lem,
  loaded_lem, object_lem, sha_lem, sidecar_lem,
}
use casino_bot.Backups.Report.{Report, verify_fields, verify}

-- What the checks have found, in their own terms.
pub record HasPassed (host : Host) (path : String) (names : List String) : Type 0 where
  pub content : String
  pub manifest : Fields
  pub schema : Schema
  pub artifact : String
  pub stored : host.file path ≡ some content
  pub parsed : host.loads content ≡ inr (object manifest)
  pub versioned : schema_of (whole_of (field_value manifest "schema_version")) ≡ some schema
  pub complete : All (λ k. is_missing manifest k ≡ false) (required_of schema)
  pub well_formed :
      All (λ k. is_well_formed schema k (field_value manifest k) ≡ true) (required_of schema)
  pub encrypted : host.file (host.beside path (basename_of manifest)) ≡ some artifact
  pub intact : str_eq (lower (host.sha256 artifact)) (lower (digest_of manifest)) ≡ true
  pub sidecar :
      (text : String)
      → host.file (host.beside path (basename_of manifest ++ ".sha256")) ≡ some text
      → (str_eq (strip text) "" ≡ false)
        × (str_eq (lower (word (strip text))) (lower (digest_of manifest)) ≡ true)
  pub demanded : All (λ k. is_true (field_value manifest k) ≡ true) names

module _ (host : Host) (path : String) (names : List String) where
  fields-HasPassed :
      (content : String) (manifest : Fields) {report : Report}
      → host.file path ≡ some content
      → host.loads content ≡ inr (object manifest)
      → verify_fields host path names manifest ≡ checked report
      → HasPassed host path names
  unfolding verify_fields check_required_fields check_required_fields_strict
  fields-HasPassed content manifest stored parsed h =
      let (version, e1, h1) = and_then-checked (check_schema_version host manifest) _ h in
      let schema = version.1 in
      let (u, e2, h2) = and_then-checked (check_required_fields host manifest schema) _ h1 in
      let (sha, e3, h3) = and_then-checked (check_sha256 host manifest path) _ h2 in
      let (v, e4, h4) = and_then-checked (check_sidecar_sha host manifest path) _ h3 in
      let (w, e5, h5) = and_then-checked (check_required_fields_strict host manifest names) _ h4 in
      let (t, e6, h6) =
        and_then-checked
          (unless_empty host "manifest missing required fields: "
            (select (is_missing manifest) (required_of schema)))
          _ e2 in
      let (artifact, encrypted, intact) = sha_lem host manifest path e3 in
      record {
        content = content;
        manifest = manifest;
        schema = schema;
        artifact = artifact;
        stored = stored;
        parsed = parsed;
        versioned = version_lem host manifest e1;
        complete =
            none_selected (is_missing manifest) (required_of schema)
              (unless_empty-checked host _ _ e6);
        well_formed =
            not_all (λ k. is_well_formed schema k (field_value manifest k)) (required_of schema)
              (none_selected _ (required_of schema)
                (map_empty (bad_entry host manifest) _ (unless_empty-checked host _ _ h6)));
        encrypted = encrypted;
        intact = intact;
        sidecar = sidecar_lem host manifest path e4;
        demanded =
            not_all (λ k. is_true (field_value manifest k)) names
              (none_selected _ names (unless_empty-checked host _ _ e5));
      }

  pub verify-HasPassed :
      {report : Report} → verify host path names ≡ checked report → HasPassed host path names
  unfolding verify
  verify-HasPassed h =
      let (document, e1, h1) = and_then-checked (load_manifest host path) _ h in
      let (manifest, e2, h2) = and_then-checked (fields_of document) _ h1 in
      let (content, stored, parsed) = loaded_lem host path e1 in
      fields-HasPassed content manifest stored (parsed ∙ ap (λ v. inr v) (object_lem document e2))
        h2
