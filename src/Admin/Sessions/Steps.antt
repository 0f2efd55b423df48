-- ===== src/Admin/Sessions/Steps.antt =====
-- The steps of an exchange in src/casino_bot/admin/security_service.py, each with its ways to end.
use Prim.Native.String.{String}
use casino_bot.Prelude.{
  ℕ, ℤ, ◌≡◌, refl, ◌||◌, Option, none, some, [], ◌∷◌, ◌++◌, first, arith, Bool-cases, Option-cases,
  inl, inr, ◌⊎◌, str_eq, leb_ℤ,
}
use casino_bot.Python.{Error, ok, err, integrity_error, Dict, get}
use casino_bot.Settings.{Settings}
use casino_bot.Database.{AdminUser, AdminSession, Session, begin_work, is_found}
use casino_bot.Admin.Security.{Crypto, decode_token_of_type, of_type, claim_text}
use casino_bot.Admin.Sessions.{
  AdminWorld, IssuedTokens, has_session_id, insert_session, violates_session_constraints,
  session_row, issued_tokens, create_session_and_tokens, get_refresh_session, decoded_or_401,
  valid_session,
}

-- The session identifier that a decoded token claims.
abbrev pub claimed : Dict → String
claimed payload = claim_text (get "sid" payload)

pub valid_session-cases :
    (refresh_hash : String) (now : ℤ) (row : AdminSession)
    → ((e : Error) × (valid_session refresh_hash now (some row) ≡ err e))
      ⊎ (valid_session refresh_hash now (some row) ≡ ok row)
unfolding valid_session
valid_session-cases refresh_hash now row =
    elim (Bool-cases (str_eq row.refresh_token_hash refresh_hash)) [
      | inl same ↦ elim (Bool-cases (is_found row.revoked_at || leb_ℤ row.expires_at now)) [
        | inl dead ↦ inl (rw (same, dead) (_, refl))
        | inr live ↦ inr (rw (same, live) refl)
      ]
      | inr other ↦ inl (rw other (_, refl))
    ]

-- A token that is accepted names a session that is there.
pub record Accepted (crypto : Crypto) (world : AdminWorld) (token : String) (s : Session)
    : Type 0 where
  pub payload : Dict
  pub row : AdminSession
  pub decoded : decode_token_of_type crypto world.decoded_at token "refresh" ≡ some payload
  pub found : first (has_session_id (claimed payload)) s.work.admin_sessions ≡ some row
  pub answer : get_refresh_session crypto world token s ≡ (ok (payload, row), begin_work s s.work)

pub get_refresh_session-cases :
    (crypto : Crypto) (world : AdminWorld) (token : String) (s : Session)
    → ((e : Error) × (s' : Session) × (get_refresh_session crypto world token s ≡ (err e, s')))
      ⊎ Accepted crypto world token s
unfolding get_refresh_session decoded_or_401
get_refresh_session-cases crypto world token s =
    elim (Option-cases (decode_token_of_type crypto world.decoded_at token "refresh")) [
      | inl missing ↦ inl (rw missing (_, _, refl))
      | inr (p, e) ↦
          elim (Option-cases (first (has_session_id (claimed p)) s.work.admin_sessions)) [
            | inl absent ↦ inl (rw (e, absent) (_, _, refl))
            | inr (r, there) ↦ elim (valid_session-cases (crypto.digest token) (world.clock 0) r) [
              | inl (bad, refused) ↦ inl (rw (e, there, refused) (_, _, refl))
              | inr fine ↦ inr (record {
                payload = p;
                row = r;
                decoded = e;
                found = there;
                answer = rw (e, there, fine) refl;
              })
            ]
          ]
    ]

pub insert-cases :
    (row : AdminSession) (s : Session)
    → ((s' : Session) × (insert_session row s ≡ (err (integrity_error "admin_sessions"), s')))
      ⊎ (insert_session row s ≡ (
        ok tt,
        begin_work s (record s.work { admin_sessions = s.work.admin_sessions ++ row ∷ [] }),
      ))
unfolding insert_session
insert-cases row s = elim (Bool-cases (violates_session_constraints row s.work)) [
  | inl taken ↦ inl (rw taken (_, refl))
  | inr free ↦ inr (rw free refl)
]

-- A creation fails, or adds a row at the end.
pub create-cases :
    (settings : Settings) (crypto : Crypto) (world : AdminWorld) (i : ℕ) (user : AdminUser)
    (ip_address user_agent rotated_from : Option String) (s : Session)
    → (let call =
          create_session_and_tokens settings crypto world i user ip_address user_agent rotated_from
            s in
        ((e : Error) × (s' : Session) × (call ≡ (err e, s')))
        ⊎ ((issued : IssuedTokens) × (new : AdminSession) × (call ≡ (
          ok issued,
          begin_work s (record s.work { admin_sessions = s.work.admin_sessions ++ new ∷ [] }),
        ))))
unfolding create_session_and_tokens
create-cases settings crypto world i user ip_address user_agent rotated_from s =
    let row = session_row settings crypto world i user ip_address user_agent rotated_from in
    elim (insert-cases row s) [
      | inl (s', taken) ↦ inl (integrity_error "admin_sessions", s', ground (arith, taken))
      | inr made ↦ inr (issued_tokens settings crypto world i user, row, ground (arith, made))
    ]

of_type-holds :
    (kind : String) (o : Option Dict) {payload : Dict}
    → of_type kind o ≡ some payload
    → o ≡ some payload
unfolding of_type
of_type-holds kind none h = absurd (ground (arith, h))
of_type-holds kind (some p) h = ground (arith, h)

pub decode_token_of_type-decodes :
    (crypto : Crypto) (now : ℤ) (token kind : String) {payload : Dict}
    → decode_token_of_type crypto now token kind ≡ some payload
    → crypto.decode now token ≡ some payload
unfolding decode_token_of_type
decode_token_of_type-decodes crypto now token kind h =
    of_type-holds kind (crypto.decode now token) h
