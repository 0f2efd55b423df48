-- ===== src/Backups/Checks.antt =====
-- What each check of a backup that passes has found (scripts/ops/verify_backup_manifest.py).
use Prim.Native.String.{String, ◌++◌}
use casino_bot.Prelude.{
  ◌≡◌, refl, sym, ◌∙◌, ap, Bool, true, false, not, str_eq, some, List, [], ◌∷◌, map, select, All,
  ◌⊎◌, inl, inr, arith, Bool-cases, Option-cases,
}
use casino_bot.Python.Text.{lower, strip}
use casino_bot.Python.Documents.{Value, nothing, numeral, string, boolean, array, object, Fields}
use casino_bot.Backups.{
  Host, Checked, checked, verify_error, raised, and_then, load_manifest, loaded, document_of,
  fields_of, Schema, whole_of, schema_of, version_of, field_value, basename_of, digest_of,
  unless_empty, check_schema_version,
}
use casino_bot.Backups.Artifact.{
  artifact_matches, word, check_sha256, digest_matches, check_sidecar_sha, sidecar_matches,
}

-- What passes has passed each check.
pub and_then-checked :
    {A B : Type 0} (m : Checked A) (f : A → Checked B) {b : B}
    → and_then m f ≡ checked b
    → (a : A) × (m ≡ checked a) × (f a ≡ checked b)
unfolding and_then
and_then-checked (checked a) f h = (a, refl, h)
and_then-checked (verify_error code reason) f h = absurd cc
and_then-checked (raised e) f h = absurd cc

pub unless_empty-checked :
    (host : Host) (reason : String) (ks : List String) {u : Unit {0}}
    → unless_empty host reason ks ≡ checked u
    → ks ≡ []
unfolding unless_empty
unless_empty-checked host reason [] h = refl
unless_empty-checked host reason (k ∷ ks) h = absurd cc

module _ (p : String → Bool) where
  pub none_selected : (ks : List String) → select p ks ≡ [] → All (λ k. p k ≡ false) ks
  unfolding select
  none_selected [] h = tt
  none_selected (k ∷ ks) h = elim (Bool-cases (p k)) [
    | inl e ↦ absurd (ground (arith, e, h))
    | inr e ↦ let rest : select p ks ≡ [] = ground (arith, e, h) in (e, none_selected ks rest)
  ]

  pub selects_none : (ks : List String) → All (λ k. p k ≡ false) ks → select p ks ≡ []
  unfolding select
  selects_none [] h = refl
  selects_none (k ∷ ks) (e, h) = rw e (selects_none ks h)

pub map_empty : (f : String → String) (ks : List String) → map f ks ≡ [] → ks ≡ []
map_empty f [] h = refl
map_empty f (k ∷ ks) h = absurd cc

pub not_all :
    (p : String → Bool) (ks : List String)
    → All (λ k. not (p k) ≡ false) ks
    → All (λ k. p k ≡ true) ks
not_all p [] h = tt
not_all p (k ∷ ks) (e, h) = (ground (arith, e), not_all p ks h)

pub all_not :
    (p : String → Bool) (ks : List String)
    → All (λ k. p k ≡ true) ks
    → All (λ k. not (p k) ≡ false) ks
all_not p [] h = tt
all_not p (k ∷ ks) (e, h) = (ground (arith, e), all_not p ks h)

checked-injective : {A : Type 0} {a b : A} → checked a ≡ checked b → a ≡ b
checked-injective h = cc

pub version_lem :
    (host : Host) (manifest : Fields) {sv : Value} {schema : Schema}
    → check_schema_version host manifest ≡ checked (sv, schema)
    → schema_of (whole_of (field_value manifest "schema_version")) ≡ some schema
unfolding check_schema_version
version_lem host manifest h =
    elim (Option-cases (schema_of (whole_of (field_value manifest "schema_version")))) [
      | inl e ↦
          absurd (
            let bad = ap (version_of host (field_value manifest "schema_version")) (sym e) ∙ h in
            cc)
      | inr (s, e) ↦
          let good = ap (version_of host (field_value manifest "schema_version")) (sym e) ∙ h in
          e ∙ ap (λ z. some z) (ap (λ z. z.1) (checked-injective good))
    ]

parsed_lem : (r : String ⊎ Value) {v : Value} → loaded r ≡ checked v → r ≡ inr v
parsed_lem (inl problem) h = absurd cc
parsed_lem (inr v) h = ap (λ z. inr z) (checked-injective h)

pub loaded_lem :
    (host : Host) (path : String) {v : Value}
    → load_manifest host path ≡ checked v
    → (content : String) × (host.file path ≡ some content) × (host.loads content ≡ inr v)
unfolding load_manifest
loaded_lem host path h = elim (Option-cases (host.file path)) [
  | inl e ↦ let bad = ap (document_of host path) (sym e) ∙ h in absurd cc
  | inr (content, e) ↦
      (content, e, parsed_lem (host.loads content) (ap (document_of host path) (sym e) ∙ h))
]

pub object_lem : (v : Value) {fs : Fields} → fields_of v ≡ checked fs → v ≡ object fs
unfolding fields_of
object_lem (object fs) h = cc
object_lem nothing h = absurd cc
object_lem (numeral n) h = absurd cc
object_lem (string s) h = absurd cc
object_lem (boolean b) h = absurd cc
object_lem (array xs) h = absurd cc

digest_lem :
    (host : Host) (manifest : Fields) (path artifact : String) {r : String × String}
    → digest_matches host manifest path artifact ≡ checked r
    → str_eq (lower (host.sha256 artifact)) (lower (digest_of manifest)) ≡ true
digest_lem host manifest path artifact h =
    elim (Bool-cases (str_eq (lower (host.sha256 artifact)) (lower (digest_of manifest)))) [
      | inl e ↦ e
      | inr e ↦ absurd (ground (arith, e, h))
    ]

pub sha_lem :
    (host : Host) (manifest : Fields) (path : String) {r : String × String}
    → check_sha256 host manifest path ≡ checked r
    → (artifact : String) × (host.file (host.beside path (basename_of manifest)) ≡ some artifact)
      × (str_eq (lower (host.sha256 artifact)) (lower (digest_of manifest)) ≡ true)
unfolding check_sha256
sha_lem host manifest path h =
    let place = host.beside path (basename_of manifest) in
    elim (Option-cases (host.file place)) [
      | inl e ↦ let bad = ap (artifact_matches host manifest place) (sym e) ∙ h in absurd cc
      | inr (artifact, e) ↦ (
        artifact,
        e,
        digest_lem host manifest place artifact
            (ap (artifact_matches host manifest place) (sym e) ∙ h),
      )
    ]

agrees_lem :
    (host : Host) (manifest : Fields) (path text : String) {u : Unit {0}}
    → sidecar_matches host manifest path (some text) ≡ checked u
    → (str_eq (strip text) "" ≡ false)
      × (str_eq (lower (word (strip text))) (lower (digest_of manifest)) ≡ true)
agrees_lem host manifest path text h = elim (Bool-cases (str_eq (strip text) "")) [
  | inl e ↦ absurd (ground (arith, e, h))
  | inr e ↦ elim (Bool-cases (str_eq (lower (word (strip text))) (lower (digest_of manifest)))) [
    | inl f ↦ (e, f)
    | inr f ↦ absurd (ground (arith, e, f, h))
  ]
]

pub sidecar_lem :
    (host : Host) (manifest : Fields) (path : String) {u : Unit {0}}
    → check_sidecar_sha host manifest path ≡ checked u
    → (text : String) → host.file (host.beside path (basename_of manifest ++ ".sha256")) ≡ some text
    → (str_eq (strip text) "" ≡ false)
      × (str_eq (lower (word (strip text))) (lower (digest_of manifest)) ≡ true)
unfolding check_sidecar_sha
sidecar_lem host manifest path h text e =
    let place = host.beside path (basename_of manifest ++ ".sha256") in
    agrees_lem host manifest place text (ap (sidecar_matches host manifest place) (sym e) ∙ h)
