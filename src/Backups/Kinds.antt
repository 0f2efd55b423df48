-- ===== src/Backups/Kinds.antt =====
-- The fields of a manifest and their kinds, as the header of scripts/ops/verify_backup_manifest.py
-- describes them, and that the script's checks are these.
use Prim.Native.String.{String}
use casino_bot.Prelude.{
  ℕ, pos, negsuc, ◌≡◌, refl, sym, ◌∙◌, ap, Bool, true, false, ◌&&◌, str_eq, none, some, List, [],
  ◌∷◌, All, ◌⊎◌, inl, inr, arith, Option-cases,
}
use casino_bot.Python.Documents.{
  Value, nothing, numeral, string, boolean, array, object, Fields, lookup, or_nothing,
}
use casino_bot.Backups.{
  Schema, v1, v2, whole_of, schema_of, required_of, is_v2, is_in, v2_allowed_empty, is_size,
  is_missing, is_well_formed, field_value,
}

-- What a field has to be: a number that is not negative, a text that is not empty, or any text.
pub data Kind : Type 0 where
  count full_text any_text : Kind

-- A Boolean is a number of Python's.
abbrev pub IsCount : Value → Type 0
IsCount v = ((n : ℕ) × (v ≡ numeral (pos n))) ⊎ ((b : Bool) × (v ≡ boolean b))

abbrev pub IsOf : Kind → Value → Type 0
IsOf count v = IsCount v
IsOf full_text v = (s : String) × (v ≡ string s) × (str_eq s "" ≡ false)
IsOf any_text v = (s : String) × (v ≡ string s)

abbrev pub Has : Fields → String × Kind → Type 0
Has manifest (k, kind) = (v : Value) × (lookup k manifest ≡ some v) × IsOf kind v

abbrev pub kinds_v1 : List (String × Kind)
kinds_v1 =
    ("schema_version", count)
    ∷ ("created_at_utc", full_text)
    ∷ ("tool", full_text)
    ∷ ("recipient", full_text)
    ∷ ("plaintext_basename", full_text)
    ∷ ("encrypted_basename", full_text)
    ∷ ("plaintext_size_bytes", count)
    ∷ ("encrypted_size_bytes", count)
    ∷ ("sha256", full_text)
    ∷ ("compose_file", full_text)
    ∷ ("env_file", full_text)
    ∷ ("postgres_service", full_text)
    ∷ []

abbrev pub kinds_v2 : List (String × Kind)
kinds_v2 =
    ("schema_version", count)
    ∷ ("created_at_utc", full_text)
    ∷ ("tool", full_text)
    ∷ ("encryption", full_text)
    ∷ ("recipient", full_text)
    ∷ ("plaintext_basename", full_text)
    ∷ ("encrypted_basename", full_text)
    ∷ ("plaintext_size_bytes", count)
    ∷ ("encrypted_size_bytes", count)
    ∷ ("sha256", full_text)
    ∷ ("compose_file", full_text)
    ∷ ("env_file", full_text)
    ∷ ("postgres_service", full_text)
    ∷ ("git_sha", any_text)
    ∷ ("git_describe", any_text)
    ∷ ("postgres_version", any_text)
    ∷ ("alembic_revision", any_text)
    ∷ []

-- The version of a manifest, with its fields.
abbrev pub IsComplete : Fields → Type 0
IsComplete manifest =
    (((lookup "schema_version" manifest ≡ some (numeral (pos 1)))
        ⊎ (lookup "schema_version" manifest ≡ some (boolean true)))
      × All (Has manifest) kinds_v1)
    ⊎ ((lookup "schema_version" manifest ≡ some (numeral (pos 2))) × All (Has manifest) kinds_v2)

-- What the check does with a field, by its kind.
abbrev may_be_empty : Schema → String → Bool
may_be_empty schema k = is_v2 schema && is_in k v2_allowed_empty

abbrev Agrees : Schema → String × Kind → Type 0
Agrees schema (k, count) = is_size k ≡ true
Agrees schema (k, full_text) = (is_size k ≡ false) × (may_be_empty schema k ≡ false)
Agrees schema (k, any_text) = (is_size k ≡ false) × (may_be_empty schema k ≡ true)

value-IsOf :
    (schema : Schema) (k : String) (kind : Kind) (v : Value)
    → Agrees schema (k, kind)
    → is_well_formed schema k v ≡ true
    → IsOf kind v
unfolding is_well_formed whole_of
value-IsOf schema k count (numeral (pos n)) a h = inl (n, refl)
value-IsOf schema k count (numeral (negsuc n)) a h = absurd (ground (arith, a, h))
value-IsOf schema k count (boolean b) a h = inr (b, refl)
value-IsOf schema k count nothing a h = absurd (ground (arith, a, h))
value-IsOf schema k count (string s) a h = absurd (ground (arith, a, h))
value-IsOf schema k count (array xs) a h = absurd (ground (arith, a, h))
value-IsOf schema k count (object fs) a h = absurd (ground (arith, a, h))
value-IsOf schema k full_text (string s) (a, b) h = (s, refl, ground (arith, a, b, h))
value-IsOf schema k full_text (numeral n) (a, b) h = absurd (ground (arith, a, b, h))
value-IsOf schema k full_text (boolean c) (a, b) h = absurd (ground (arith, a, b, h))
value-IsOf schema k full_text nothing (a, b) h = absurd (ground (arith, a, b, h))
value-IsOf schema k full_text (array xs) (a, b) h = absurd (ground (arith, a, b, h))
value-IsOf schema k full_text (object fs) (a, b) h = absurd (ground (arith, a, b, h))
value-IsOf schema k any_text (string s) (a, b) h = (s, refl)
value-IsOf schema k any_text (numeral n) (a, b) h = absurd (ground (arith, a, b, h))
value-IsOf schema k any_text (boolean c) (a, b) h = absurd (ground (arith, a, b, h))
value-IsOf schema k any_text nothing (a, b) h = absurd (ground (arith, a, b, h))
value-IsOf schema k any_text (array xs) (a, b) h = absurd (ground (arith, a, b, h))
value-IsOf schema k any_text (object fs) (a, b) h = absurd (ground (arith, a, b, h))

kind_passes :
    (schema : Schema) (k : String) (kind : Kind) (v : Value)
    → Agrees schema (k, kind)
    → IsOf kind v
    → is_well_formed schema k v ≡ true
unfolding is_well_formed whole_of
kind_passes schema k count v a (inl (n, e)) = rw e (ground (arith, a))
kind_passes schema k count v a (inr (true, e)) = rw e (ground (arith, a))
kind_passes schema k count v a (inr (false, e)) = rw e (ground (arith, a))
kind_passes schema k full_text v (a, b) (s, e, h) = rw e (ground (arith, a, b, h))
kind_passes schema k any_text v (a, b) (s, e) = rw e (ground (arith, a, b))

field-Has :
    (schema : Schema) (manifest : Fields) (k : String) (kind : Kind)
    → Agrees schema (k, kind)
    → is_missing manifest k ≡ false
    → is_well_formed schema k (field_value manifest k) ≡ true
    → Has manifest (k, kind)
unfolding is_missing
field-Has schema manifest k kind a there h = elim (Option-cases (lookup k manifest)) [
  | inl e ↦ absurd (ground (arith, e, there))
  | inr (v, e) ↦ (
    v,
    e,
    value-IsOf schema k kind v a (ap (λ o. is_well_formed schema k (or_nothing o)) (sym e) ∙ h),
  )
]

abbrev keys : List (String × Kind) → List String
keys [] = []
keys ((k, kind) ∷ fields) = k ∷ keys fields

module _ (schema : Schema) (manifest : Fields) where
  fields_have :
      (fields : List (String × Kind))
      → All (Agrees schema) fields
      → All (λ k. is_missing manifest k ≡ false) (keys fields)
      → All (λ k. is_well_formed schema k (field_value manifest k) ≡ true) (keys fields)
      → All (Has manifest) fields
  fields_have [] a there h = tt
  fields_have ((k, kind) ∷ fields) (a, as_) (t, there) (h, hs) =
      (field-Has schema manifest k kind a t h, fields_have fields as_ there hs)

  Has-there : (k : String) (kind : Kind) → Has manifest (k, kind) → is_missing manifest k ≡ false
  unfolding is_missing
  Has-there k kind (v, e, h) = ap (λ o. elim o [ none ↦ true | some w ↦ false ]) e

  fields_there :
      (fields : List (String × Kind))
      → All (Has manifest) fields
      → All (λ k. is_missing manifest k ≡ false) (keys fields)
  fields_there [] h = tt
  fields_there ((k, kind) ∷ fields) (h, hs) = (Has-there k kind h, fields_there fields hs)

  fields_pass :
      (fields : List (String × Kind))
      → All (Agrees schema) fields
      → All (Has manifest) fields
      → All (λ k. is_well_formed schema k (field_value manifest k) ≡ true) (keys fields)
  fields_pass [] a h = tt
  fields_pass ((k, kind) ∷ fields) (a, as_) ((v, e, h), hs) = (
    ap (λ o. is_well_formed schema k (or_nothing o)) e ∙ kind_passes schema k kind v a h,
    fields_pass fields as_ hs,
  )

v1-Agrees : All (Agrees v1) kinds_v1
v1-Agrees = (
  refl,
  (
    (refl, refl),
    (
      (refl, refl),
      (
        (refl, refl),
        (
          (refl, refl),
          (
            (refl, refl),
            (refl, (refl, ((refl, refl), ((refl, refl), ((refl, refl), ((refl, refl), tt)))))),
          ),
        ),
      ),
    ),
  ),
)

v2-Agrees : All (Agrees v2) kinds_v2
v2-Agrees = (
  refl,
  (
    (refl, refl),
    (
      (refl, refl),
      (
        (refl, refl),
        (
          (refl, refl),
          (
            (refl, refl),
            (
              (refl, refl),
              (
                refl,
                (
                  refl,
                  (
                    (refl, refl),
                    (
                      (refl, refl),
                      (
                        (refl, refl),
                        (
                          (refl, refl),
                          ((refl, refl), ((refl, refl), ((refl, refl), ((refl, refl), tt)))),
                        ),
                      ),
                    ),
                  ),
                ),
              ),
            ),
          ),
        ),
      ),
    ),
  ),
)

version_one :
    (v : Value) → schema_of (whole_of v) ≡ some v1 → (v ≡ numeral (pos 1)) ⊎ (v ≡ boolean true)
unfolding schema_of whole_of
version_one (numeral (pos n)) h =
    let one : n ≡ 1 = ground (arith, h) in inl (ap (λ k. numeral (pos k)) one)
version_one (numeral (negsuc n)) h = absurd (ground (arith, h))
version_one (boolean true) h = inr refl
version_one (boolean false) h = absurd (ground (arith, h))
version_one nothing h = absurd cc
version_one (string s) h = absurd cc
version_one (array xs) h = absurd cc
version_one (object fs) h = absurd cc

version_two : (v : Value) → schema_of (whole_of v) ≡ some v2 → v ≡ numeral (pos 2)
unfolding schema_of whole_of
version_two (numeral (pos n)) h =
    let two : n ≡ 2 = ground (arith, h) in ap (λ k. numeral (pos k)) two
version_two (numeral (negsuc n)) h = absurd (ground (arith, h))
version_two (boolean true) h = absurd (ground (arith, h))
version_two (boolean false) h = absurd (ground (arith, h))
version_two nothing h = absurd cc
version_two (string s) h = absurd cc
version_two (array xs) h = absurd cc
version_two (object fs) h = absurd cc

-- The version and the checks of its fields, together.
pub checked-IsComplete :
    (schema : Schema) (manifest : Fields)
    → schema_of (whole_of (field_value manifest "schema_version")) ≡ some schema
    → All (λ k. is_missing manifest k ≡ false) (required_of schema)
    → All (λ k. is_well_formed schema k (field_value manifest k) ≡ true) (required_of schema)
    → IsComplete manifest
checked-IsComplete v1 manifest h there good =
    let fields = fields_have v1 manifest kinds_v1 v1-Agrees there good in
    let (v, e, is_count) = fields.0 in
    inl (
      elim (version_one v (ap (λ o. schema_of (whole_of (or_nothing o))) (sym e) ∙ h)) [
        | inl one ↦ inl (e ∙ ap (λ w. some w) one)
        | inr one ↦ inr (e ∙ ap (λ w. some w) one)
      ],
      fields,
    )
checked-IsComplete v2 manifest h there good =
    let fields = fields_have v2 manifest kinds_v2 v2-Agrees there good in
    let (v, e, is_count) = fields.0 in
    let two = version_two v (ap (λ o. schema_of (whole_of (or_nothing o))) (sym e) ∙ h) in
    inr (e ∙ ap (λ w. some w) two, fields)

-- What the checks of the version and of its fields find in a complete manifest.
pub record AreChecked (manifest : Fields) : Type 0 where
  pub schema : Schema
  pub versioned : schema_of (whole_of (field_value manifest "schema_version")) ≡ some schema
  pub there : All (λ k. is_missing manifest k ≡ false) (required_of schema)
  pub good : All (λ k. is_well_formed schema k (field_value manifest k) ≡ true) (required_of schema)

of_version_one :
    (manifest : Fields)
    → schema_of (whole_of (field_value manifest "schema_version")) ≡ some v1
    → All (Has manifest) kinds_v1
    → AreChecked manifest
of_version_one manifest h fields = record {
  schema = v1;
  versioned = h;
  there = fields_there v1 manifest kinds_v1 fields;
  good = fields_pass v1 manifest kinds_v1 v1-Agrees fields;
}

pub complete-AreChecked : (manifest : Fields) → IsComplete manifest → AreChecked manifest
unfolding schema_of whole_of
complete-AreChecked manifest (inl (inl e, fields)) =
    of_version_one manifest (ap (λ o. schema_of (whole_of (or_nothing o))) e) fields
complete-AreChecked manifest (inl (inr e, fields)) =
    of_version_one manifest (ap (λ o. schema_of (whole_of (or_nothing o))) e) fields
complete-AreChecked manifest (inr (e, fields)) = record {
  schema = v2;
  versioned = ap (λ o. schema_of (whole_of (or_nothing o))) e;
  there = fields_there v2 manifest kinds_v2 fields;
  good = fields_pass v2 manifest kinds_v2 v2-Agrees fields;
}
