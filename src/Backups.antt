-- ===== src/Backups.antt =====
-- The check of a backup before it is trusted (scripts/ops/verify_backup_manifest.py).

pub mod Artifact
pub mod Report
pub mod Checks
pub mod Sealed
pub mod Kinds
pub mod Manifest
pub mod Exit
use Prim.Native.String.{String, ◌++◌, [] as empty, ◌∷◌ as str_cons}
use casino_bot.Prelude.{
  ℕ, ℤ, pos, leb_ℤ, Bool, true, false, ◌&&◌, ◌||◌, not, str_eq, Option, none, some, List, [], ◌∷◌,
  map, select, if◌then◌else◌, ◌⊎◌, inl, inr,
}
use casino_bot.Python.{Error, exception}
use casino_bot.Python.Text.{is_space, lower, strip}
use casino_bot.Python.Documents.{
  Value, nothing, numeral, string, boolean, object, Fields, lookup, or_nothing, or_default, is_true,
}

-- What the script takes from Python and the disk: the text of the file at a path, where there is
-- one, what `json.loads` makes of a text, `hashlib.sha256` of a file's content in hexadecimal
-- digits, the printing of values, and the paths of `pathlib`.
pub record Host : Type 0 where
  pub file : String → Option String
  pub loads : String → String ⊎ Value
  pub sha256 : String → String
  pub repr : Value → String
  pub str_of : Value → String
  pub repr_texts : List String → String
  pub beside : String → String → String
  pub suffix : String → String

-- A check passes, raises a `VerifyError` with its code and reason, or raises something else.
pub data Checked (A : Type 0) : Type 0 where
  checked : A → Checked A
  verify_error : ℕ → String → Checked A
  raised : Error → Checked A

unfoldable pub and_then : {A B : Type 0} → Checked A → (A → Checked B) → Checked B
and_then (checked a) f = f a
and_then (verify_error code reason) f = verify_error code reason
and_then (raised e) f = raised e

abbrev pub is_in : String → List String → Bool
is_in k [] = false
is_in k (j ∷ ks) = str_eq k j || is_in k ks

abbrev pub required_v1 : List String
required_v1 =
    "schema_version" ∷ "created_at_utc" ∷ "tool" ∷ "recipient" ∷ "plaintext_basename"
    ∷ "encrypted_basename" ∷ "plaintext_size_bytes" ∷ "encrypted_size_bytes" ∷ "sha256"
    ∷ "compose_file" ∷ "env_file" ∷ "postgres_service" ∷ []

abbrev pub required_v2 : List String
required_v2 =
    "schema_version" ∷ "created_at_utc" ∷ "tool" ∷ "encryption" ∷ "recipient" ∷ "plaintext_basename"
    ∷ "encrypted_basename" ∷ "plaintext_size_bytes" ∷ "encrypted_size_bytes" ∷ "sha256"
    ∷ "compose_file" ∷ "env_file" ∷ "postgres_service" ∷ "git_sha" ∷ "git_describe"
    ∷ "postgres_version" ∷ "alembic_revision" ∷ []

abbrev pub v2_allowed_empty : List String
v2_allowed_empty = "git_sha" ∷ "git_describe" ∷ "postgres_version" ∷ "alembic_revision" ∷ []

abbrev pub loaded : String ⊎ Value → Checked Value
loaded (inl problem) = verify_error 3 ("manifest is not valid JSON: " ++ problem)
loaded (inr v) = checked v

abbrev pub document_of : Host → String → Option String → Checked Value
document_of host path none = verify_error 2 ("manifest not found: " ++ path)
document_of host path (some content) = loaded (host.loads content)

unfoldable pub load_manifest : Host → String → Checked Value
load_manifest host path = document_of host path (host.file path)

-- `manifest.get`: what is no dictionary has none.
unfoldable pub fields_of : Value → Checked Fields
fields_of (object fs) = checked fs
fields_of _ = raised (exception "AttributeError" "object has no attribute 'get'")

-- `isinstance(v, int)` and its number; a Boolean is an integer.
unfoldable pub whole_of : Value → Option ℤ
whole_of (numeral n) = some n
whole_of (boolean b) = some (if b then pos 1 else pos 0)
whole_of _ = none

pub data Schema : Type 0 where
  v1 v2 : Schema

unfoldable pub schema_of : Option ℤ → Option Schema
schema_of none = none
schema_of (some n) =
    if leb_ℤ (pos 1) n && leb_ℤ n (pos 2)
    then if leb_ℤ n (pos 1) then some v1 else some v2
    else none

abbrev pub version_of : Host → Value → Option Schema → Checked (Value × Schema)
version_of host sv none =
    verify_error 3 ("unsupported schema_version=" ++ host.repr sv ++ "; expected one of (1, 2)")
version_of host sv (some schema) = checked (sv, schema)

unfoldable pub check_schema_version : Host → Fields → Checked (Value × Schema)
unfolding schema_of whole_of
check_schema_version host manifest =
    let sv = or_nothing (lookup "schema_version" manifest) in
    version_of host sv (schema_of (whole_of sv))

abbrev pub required_of : Schema → List String
required_of v1 = required_v1
required_of v2 = required_v2

abbrev pub is_v2 : Schema → Bool
is_v2 v1 = false
is_v2 v2 = true

unfoldable pub is_missing : Fields → String → Bool
is_missing manifest k = elim (lookup k manifest) [ none ↦ true | some v ↦ false ]

abbrev pub is_size : String → Bool
is_size k = is_in k ("plaintext_size_bytes" ∷ "encrypted_size_bytes" ∷ "schema_version" ∷ [])

abbrev is_natural : Option ℤ → Bool
is_natural none = false
is_natural (some n) = leb_ℤ (pos 0) n

abbrev pub is_full_text : Value → Bool
is_full_text (string s) = not (str_eq s "")
is_full_text _ = false

abbrev is_empty_text : Value → Bool
is_empty_text (string s) = str_eq s ""
is_empty_text _ = false

-- A field that the manifest may have with this value.
unfoldable pub is_well_formed : Schema → String → Value → Bool
unfolding whole_of
is_well_formed schema k v =
    if is_size k
    then is_natural (whole_of v)
    else if is_v2 schema && is_in k v2_allowed_empty && is_empty_text v
    then true
    else is_full_text v

abbrev pub field_value : Fields → String → Value
field_value manifest k = or_nothing (lookup k manifest)

abbrev pub bad_entry : Host → Fields → String → String
bad_entry host manifest k =
    k
    ++ "="
    ++ host.repr (field_value manifest k)
    ++ (if is_size k then " (expected non-negative int)" else " (expected non-empty str)")

abbrev pub bad_fields : Schema → Fields → List String
bad_fields schema manifest =
    select (λ k. not (is_well_formed schema k (field_value manifest k))) (required_of schema)

-- An exception that names what it complains of, where there is anything.
unfoldable pub unless_empty : Host → String → List String → Checked (Unit {0})
unless_empty host reason [] = checked tt
unless_empty host reason (k ∷ ks) = verify_error 3 (reason ++ host.repr_texts (k ∷ ks))

unfoldable pub check_required_fields : Host → Fields → Schema → Checked (Unit {0})
unfolding and_then unless_empty
check_required_fields host manifest schema =
    and_then
      (unless_empty host "manifest missing required fields: "
        (select (is_missing manifest) (required_of schema)))
      λ u.
        unless_empty host "invalid manifest fields: "
          (map (bad_entry host manifest) (bad_fields schema manifest))

-- A required field that has been checked is a text.
abbrev pub text_in : Value → String
text_in (string s) = s
text_in _ = ""

abbrev pub basename_of : Fields → String
basename_of manifest = text_in (field_value manifest "encrypted_basename")

abbrev pub digest_of : Fields → String
digest_of manifest = text_in (field_value manifest "sha256")

unfoldable pub check_required_fields_strict : Host → Fields → List String → Checked (Unit {0})
unfolding unless_empty
check_required_fields_strict host manifest required =
    unless_empty host "--require-fields: empty/missing fields: "
      (select (λ k. not (is_true (field_value manifest k))) required)
