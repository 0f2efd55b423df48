-- ===== src/Admin/Sessions/Rotation.antt =====
-- What rotation and revocation in src/casino_bot/admin/security_service.py promise: a refresh token
-- that was exchanged, and a session that was ended, work no more.
use Prim.Native.String.{String}
use casino_bot.Prelude.{
  ℤ, ◌≡◌, refl, subst, true, Option, some, List, [], ◌∷◌, ◌++◌, first, update_first, arith,
  Bool-cases, Option-cases, inl, inr, str_eq, first-append_one, first-holds, eq_iff,
}
use casino_bot.Python.{Result, ok, err, http_exception, Dict}
use casino_bot.Settings.{Settings}
use casino_bot.Database.{AdminSession, Session, is_found, audit_log}
use casino_bot.Admin.Security.{Crypto, decode_token_of_type}
use casino_bot.Admin.Sessions.{
  AdminWorld, IssuedTokens, has_session_id, has_admin_id, get_refresh_session, decoded_or_401,
  valid_session, active_or_401, revoke_row, revoke_session, refresh_admin_session,
}
use casino_bot.Admin.Sessions.Steps.{
  claimed, Accepted, get_refresh_session-cases, create-cases, decode_token_of_type-decodes,
}

-- The session that an identifier finds is revoked.
pub record IsRevoked (session_id : String) (rows : List AdminSession) : Type 0 where
  pub row : AdminSession
  pub found : first (has_session_id session_id) rows ≡ some row
  pub revoked : is_found row.revoked_at ≡ true

update_first-IsRevoked :
    (session_id : String) (t t' : ℤ) (rows : List AdminSession) (row : AdminSession)
    → first (has_session_id session_id) rows ≡ some row
    → IsRevoked session_id (update_first (has_session_id session_id) (revoke_row t t') rows)
unfolding first update_first revoke_row
update_first-IsRevoked session_id t t' [] row found = absurd (ground arith)
update_first-IsRevoked session_id t t' (r ∷ rows) row found =
    elim (Bool-cases (has_session_id session_id r)) [
      | inl here ↦
          rw here (record { row = revoke_row t t' r; found = rw here refl; revoked = refl })
      | inr there ↦
          let next =
            update_first-IsRevoked session_id t t' rows row (ground (arith, found, there)) in
          rw there
            (record { row = next.row; found = rw (there, next.found) refl; revoked = next.revoked })
    ]

-- A new row does not hide it.
append-IsRevoked :
    {session_id : String} {rows : List AdminSession} (new : AdminSession)
    → IsRevoked session_id rows
    → IsRevoked session_id (rows ++ new ∷ [])
append-IsRevoked {session_id} {rows} new r = record {
  row = r.row;
  found = rw (first-append_one, r.found) refl;
  revoked = r.revoked;
}

-- The answer to a token whose session is revoked.
pub record Is401 {A : Type 0} (r : Result A) : Type 0 where
  pub detail : String
  pub refused : r ≡ err (http_exception 401 detail)

valid_session_refuses :
    (refresh_hash : String) (now : ℤ) (row : AdminSession)
    → is_found row.revoked_at ≡ true
    → (detail : String) × (valid_session refresh_hash now (some row)
        ≡ err (http_exception 401 detail))
unfolding valid_session
valid_session_refuses refresh_hash now row revoked =
    elim (Bool-cases (str_eq row.refresh_token_hash refresh_hash)) [
      | inl same ↦ rw (same, revoked) (_, refl)
      | inr other ↦ rw other (_, refl)
    ]

get_refresh_session_refuses :
    (crypto : Crypto) (world : AdminWorld) (token : String) (s : Session)
    → ((payload : Dict)
        → decode_token_of_type crypto world.decoded_at token "refresh" ≡ some payload
        → IsRevoked (claimed payload) s.work.admin_sessions)
    → (detail : String) × (s' : Session) × (get_refresh_session crypto world token s
        ≡ (err (http_exception 401 detail), s'))
      × (s'.work ≡ s.work)
unfolding get_refresh_session decoded_or_401
get_refresh_session_refuses crypto world token s dead =
    elim (Option-cases (decode_token_of_type crypto world.decoded_at token "refresh")) [
      | inl missing ↦ rw missing (_, _, refl, refl)
      | inr (payload, e) ↦
          let r = dead payload e in
          let (detail, refused) =
            valid_session_refuses (crypto.digest token) (world.clock 0) r.row r.revoked in
          rw (e, r.found, refused) (_, _, refl, refl)
    ]

module _ (settings : Settings) (crypto : Crypto) (world : AdminWorld) (token : String)
    (ip_address user_agent : Option String) (s : Session) where
  abbrev refreshed : Result IssuedTokens × Session
  refreshed = refresh_admin_session settings crypto world token ip_address user_agent s

  refreshed_revokes :
      {issued : IssuedTokens} (a : Accepted crypto world token s)
      → refreshed.0 ≡ ok issued
      → IsRevoked (claimed a.payload) refreshed.1.work.admin_sessions
  unfolding refresh_admin_session active_or_401 audit_log revoke_session
  refreshed_revokes {issued} a done =
      let id : a.row.id ≡ claimed a.payload =
        (eq_iff _ _).0
          (first-holds (has_session_id (claimed a.payload)) s.work.admin_sessions a.row a.found) in
      elim (Option-cases (first (has_admin_id a.row.admin_user_id) s.work.admin_users)) [
        | inl nobody ↦ absurd (ground (arith, done, a.answer, nobody))
        | inr (u, known) ↦ elim (Bool-cases u.is_active) [
          | inr idle ↦ absurd (ground (arith, done, a.answer, known, idle))
          | inl active ↦
              elim (create-cases settings crypto world 3 u ip_address user_agent (some a.row.id)
                revoking) [
                  | inl (e, s', failed) ↦
                      absurd (ground (arith, done, a.answer, known, active, failed))
                  | inr (i, new, made) ↦
                      let rows : refreshed.1.work.admin_sessions
                          ≡ revoking.work.admin_sessions ++ new ∷ [] =
                        ground (arith, a.answer, known, active, made) in
                      rw rows (
                        append-IsRevoked new (
                          rw id (
                            update_first-IsRevoked (claimed a.payload) (world.clock 1)
                              (world.clock 2) s.work.admin_sessions a.row a.found)))
                ]
        ]
      ]
    where
      revoking : Session
      revoking = record s {
        work = revoke_session a.row.id (world.clock 1) (world.clock 2) s.work;
        in_transaction = true;
      }

-- A refresh token is good for one exchange: where decoding gives the same claims whenever it
-- succeeds, a second exchange of a token that was exchanged is refused with status 401, whatever its
-- time and its client, and changes no table.
pub refresh_once :
    (settings : Settings) (crypto : Crypto) (world later : AdminWorld) (token : String)
    (ip_address user_agent ip_address' user_agent' : Option String) (s : Session)
    {issued : IssuedTokens}
    → ((now now' : ℤ) (claims claims' : Dict)
        → crypto.decode now token ≡ some claims
        → crypto.decode now' token ≡ some claims'
        → claims ≡ claims')
    → (refresh_admin_session settings crypto world token ip_address user_agent s).0 ≡ ok issued
    → (let s1 = (refresh_admin_session settings crypto world token ip_address user_agent s).1 in
        (detail : String) × (s2 : Session) × (refresh_admin_session settings crypto later token
            ip_address' user_agent' s1
          ≡ (err (http_exception 401 detail), s2))
        × (s2.work ≡ s1.work))
unfolding refresh_admin_session
refresh_once settings crypto world later token ip_address user_agent ip_address' user_agent' s
      {issued} stable done =
    elim (get_refresh_session-cases crypto world token s) [
      | inl (e, s', bad) ↦ absurd (ground (arith, done, bad))
      | inr a ↦
          let s1 = (refresh_admin_session settings crypto world token ip_address user_agent s).1 in
          let revoked =
            refreshed_revokes settings crypto world token ip_address user_agent s a done in
          let dead : (payload : Dict)
              → decode_token_of_type crypto later.decoded_at token "refresh" ≡ some payload
              → IsRevoked (claimed payload) s1.work.admin_sessions =
            λ payload e.
              subst (λ p. IsRevoked (claimed p) s1.work.admin_sessions)
                (stable world.decoded_at later.decoded_at a.payload payload
                  (decode_token_of_type-decodes crypto world.decoded_at token "refresh" a.decoded)
                  (decode_token_of_type-decodes crypto later.decoded_at token "refresh" e))
                revoked in
          let (detail, s2, refused, kept) =
            get_refresh_session_refuses crypto later token s1 dead in
          (detail, s2, ground (arith, refused), kept)
    ]
