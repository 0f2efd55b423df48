-- ===== src/Backups/Manifest.antt =====
-- What a sealed backup has (scripts/ops/verify_backup_manifest.py), and that the script's checks find
-- just this.
use Prim.Native.String.{String, ◌++◌}
use casino_bot.Prelude.{
  ◌≡◌, sym, ◌∙◌, ap, true, false, str_eq, eq_iff, some, List, [], ◌∷◌, All, inl, inr, arith,
  Option-cases,
}
use casino_bot.Python.Text.{lower, strip}
use casino_bot.Python.Documents.{Value, string, object, Fields, lookup, or_nothing, is_true}
use casino_bot.Backups.{Host, field_value, text_in}
use casino_bot.Backups.Artifact.{word}
use casino_bot.Backups.Sealed.{HasPassed}
use casino_bot.Backups.Kinds.{full_text, Has, IsComplete, checked-IsComplete, complete-AreChecked}

-- The file is there and is JSON of a complete manifest, the file that it names is beside it with
-- the digest that it names, a sidecar agrees, and the fields asked for have a value.
pub record IsSealed (host : Host) (path : String) (names : List String) : Type 0 where
  pub content : String
  pub manifest : Fields
  pub stored : host.file path ≡ some content
  pub parsed : host.loads content ≡ inr (object manifest)
  pub fields : IsComplete manifest
  pub basename : String
  pub named : lookup "encrypted_basename" manifest ≡ some (string basename)
  pub digest : String
  pub digested : lookup "sha256" manifest ≡ some (string digest)
  pub artifact : String
  pub encrypted : host.file (host.beside path basename) ≡ some artifact
  pub intact : lower (host.sha256 artifact) ≡ lower digest
  pub sidecar :
      (text : String)
      → host.file (host.beside path (basename ++ ".sha256")) ≡ some text
      → (str_eq (strip text) "" ≡ false) × (lower (word (strip text)) ≡ lower digest)
  pub demanded : All (λ k. (v : Value) × (lookup k manifest ≡ some v) × (is_true v ≡ true)) names

abbrev IsText : Fields → String → Type 0
IsText manifest k = (s : String) × (lookup k manifest ≡ some (string s))

given-IsText : (manifest : Fields) (k : String) → Has manifest (k, full_text) → IsText manifest k
given-IsText manifest k (v, e, (s, is_text, given)) = (s, e ∙ ap (λ w. some w) is_text)

texts :
    (manifest : Fields)
    → IsComplete manifest
    → IsText manifest "encrypted_basename" × IsText manifest "sha256"
texts manifest (inl (version, fields)) = (
  given-IsText manifest "encrypted_basename" fields.1.1.1.1.1.0,
  given-IsText manifest "sha256" fields.1.1.1.1.1.1.1.1.0,
)
texts manifest (inr (version, fields)) = (
  given-IsText manifest "encrypted_basename" fields.1.1.1.1.1.1.0,
  given-IsText manifest "sha256" fields.1.1.1.1.1.1.1.1.1.0,
)

text_lem :
    (manifest : Fields) (k s : String)
    → lookup k manifest ≡ some (string s)
    → text_in (field_value manifest k) ≡ s
text_lem manifest k s e = ap (λ o. text_in (or_nothing o)) e

given :
    (manifest : Fields) (names : List String)
    → All (λ k. is_true (field_value manifest k) ≡ true) names
    → All (λ k. (v : Value) × (lookup k manifest ≡ some v) × (is_true v ≡ true)) names
unfolding is_true
given manifest [] all = tt
given manifest (k ∷ names) (h, all) = (
  elim (Option-cases (lookup k manifest)) [
    | inl e ↦ absurd (ground (arith, e, h))
    | inr (v, e) ↦ (v, e, ap (λ o. is_true (or_nothing o)) (sym e) ∙ h)
  ],
  given manifest names all,
)

asked :
    (manifest : Fields) (names : List String)
    → All (λ k. (v : Value) × (lookup k manifest ≡ some v) × (is_true v ≡ true)) names
    → All (λ k. is_true (field_value manifest k) ≡ true) names
asked manifest [] all = tt
asked manifest (k ∷ names) ((v, e, h), all) =
    (ap (λ o. is_true (or_nothing o)) e ∙ h, asked manifest names all)

module _ (host : Host) (path : String) (names : List String) where
  pub passed-IsSealed : HasPassed host path names → IsSealed host path names
  passed-IsSealed p =
      let complete = checked-IsComplete p.schema p.manifest p.versioned p.complete p.well_formed in
      let ((basename, named), (digest, digested)) = texts p.manifest complete in
      let base = text_lem p.manifest "encrypted_basename" basename named in
      let hex = text_lem p.manifest "sha256" digest digested in
      record {
        content = p.content;
        manifest = p.manifest;
        stored = p.stored;
        parsed = p.parsed;
        fields = complete;
        basename = basename;
        named = named;
        digest = digest;
        digested = digested;
        artifact = p.artifact;
        encrypted = ap (λ b. host.file (host.beside path b)) (sym base) ∙ p.encrypted;
        intact = (eq_iff _ _).0 p.intact ∙ ap lower hex;
        sidecar = λ text e.
            let (full, agrees) =
              p.sidecar text (ap (λ b. host.file (host.beside path (b ++ ".sha256"))) base ∙ e) in
            (full, (eq_iff _ _).0 agrees ∙ ap lower hex);
        demanded = given p.manifest names p.demanded;
      }

  pub sealed-HasPassed : IsSealed host path names → HasPassed host path names
  sealed-HasPassed s =
      let are_checked = complete-AreChecked s.manifest s.fields in
      let base = text_lem s.manifest "encrypted_basename" s.basename s.named in
      let hex = text_lem s.manifest "sha256" s.digest s.digested in
      record {
        content = s.content;
        manifest = s.manifest;
        schema = are_checked.schema;
        artifact = s.artifact;
        stored = s.stored;
        parsed = s.parsed;
        versioned = are_checked.versioned;
        complete = are_checked.there;
        well_formed = are_checked.good;
        encrypted = ap (λ b. host.file (host.beside path b)) base ∙ s.encrypted;
        intact = (eq_iff _ _).1 (s.intact ∙ ap lower (sym hex));
        sidecar = λ text e.
            let (full, agrees) =
              s.sidecar text
                (ap (λ b. host.file (host.beside path (b ++ ".sha256"))) (sym base) ∙ e) in
            (full, (eq_iff _ _).1 (agrees ∙ ap lower (sym hex)));
        demanded = asked s.manifest names s.demanded;
      }
