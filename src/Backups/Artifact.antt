-- ===== src/Backups/Artifact.antt =====
-- The file that a manifest names, and its sidecar (scripts/ops/verify_backup_manifest.py).
use Prim.Native.String.{String, ◌++◌, [] as empty, ◌∷◌ as str_cons}
use casino_bot.Prelude.{str_eq, Option, none, some, if◌then◌else◌}
use casino_bot.Python.Text.{is_space, lower, strip}
use casino_bot.Python.Documents.{Fields}
use casino_bot.Backups.{Host, Checked, checked, verify_error, basename_of, digest_of}

abbrev pub digest_matches : Host → Fields → String → String → Checked (String × String)
digest_matches host manifest path content =
    let actual = host.sha256 content in
    if str_eq (lower actual) (lower (digest_of manifest))
    then checked (actual, path)
    else verify_error 3 (
        "sha256 mismatch for "
        ++ basename_of manifest
        ++ ": expected="
        ++ digest_of manifest
        ++ " actual="
        ++ actual)

abbrev pub artifact_matches : Host → Fields → String → Option String → Checked (String × String)
artifact_matches host manifest path none =
    verify_error 2 ("encrypted artifact not found next to manifest: " ++ path)
artifact_matches host manifest path (some content) = digest_matches host manifest path content

unfoldable pub check_sha256 : Host → Fields → String → Checked (String × String)
check_sha256 host manifest manifest_path =
    let path = host.beside manifest_path (basename_of manifest) in
    artifact_matches host manifest path (host.file path)

-- The first word of a text that begins with no space: `line.strip().split()[0]`.
unfoldable pub word : String → String
unfolding is_space
word empty = empty
word (str_cons c s) = let rest = word s in if is_space c then empty else str_cons c rest

abbrev pub sidecar_matches : Host → Fields → String → Option String → Checked (Unit {0})
sidecar_matches host manifest path none = checked tt
sidecar_matches host manifest path (some content) =
    let line = strip content in
    if str_eq line ""
    then verify_error 3 ("sha256 sidecar is empty: " ++ path)
    else if str_eq (lower (word line)) (lower (digest_of manifest))
    then checked tt
    else verify_error 3 (
        "sha256 sidecar disagrees with manifest: sidecar="
        ++ lower (word line)
        ++ " manifest="
        ++ digest_of manifest)

unfoldable pub check_sidecar_sha : Host → Fields → String → Checked (Unit {0})
check_sidecar_sha host manifest manifest_path =
    let path = host.beside manifest_path (basename_of manifest ++ ".sha256") in
    sidecar_matches host manifest path (host.file path)
