-- ===== src/Tests/Admin.antt =====
-- Sessions of administrators at concrete inputs.
use Prim.Native.String.{String}
use casino_bot.Prelude.{
  ℤ, pos, ◌≡◌, refl, str_eq, none, some, [], ◌∷◌, if◌then◌else◌, length, first, select,
  update_first, arith, ◌+ℤ◌, ◌*ℤ◌,
}
use casino_bot.Python.{ok, err, http_exception, text, Dict, get}
use casino_bot.Database.{AdminSession, Session, audit_log}
use casino_bot.Admin.Security.{
  Crypto, create_refresh_token, decode_token_of_type, of_type, is_text, claim_text,
}
use casino_bot.Admin.Sessions.{
  AdminWorld, refresh_admin_session, get_refresh_session, valid_session, decoded_or_401,
  active_or_401, create_session_and_tokens, session_row, issued_tokens, insert_session,
  violates_session_constraints, revoke_session, revoke_row, revoke_all_sessions, is_live,
}
use casino_bot.Admin.Sessions.Rotation.{refresh_once}
use casino_bot.Admin.Sessions.Revocation.{revoke_all_ends, is_of_other}
use casino_bot.Tests.Data.{settings, session, tables, admin}

abbrev pub claims : Dict
claims = ("sub", text "root@example.org") ∷ ("sid", text "s1") ∷ ("type", text "refresh") ∷ []

abbrev pub crypto : Crypto
crypto = record {
  verify = λ password hashed. str_eq password "secret";
  encode = λ payload. "token2";
  decode = λ now token. if str_eq token "token1" then some claims else none;
  digest = λ token. token;
}

abbrev live : AdminSession
live = record {
  id = "s1";
  admin_user_id = 1;
  refresh_token_hash = "token1";
  user_agent = none;
  ip_address = none;
  expires_at = pos 90000000;
  revoked_at = none;
  last_used_at = none;
  rotated_from_session_id = none;
}

abbrev logged_in : Session
logged_in = record session { work = record tables { admin_sessions = live ∷ [] } }

abbrev pub admin_world : AdminWorld
admin_world = record {
  session_id = "s2";
  jti = "j";
  decoded_at = pos 1000000;
  clock = λ i. pos (2000000);
}

first_exchange :
    (refresh_admin_session settings crypto admin_world "token1" none none logged_in).0
    ≡ ok (issued_tokens settings crypto admin_world 3 admin)
unfolding refresh_admin_session get_refresh_session valid_session decoded_or_401 active_or_401
    create_session_and_tokens insert_session violates_session_constraints session_row
    decode_token_of_type of_type is_text claim_text get first update_first revoke_session revoke_row
    create_refresh_token ◌+ℤ◌ ◌*ℤ◌ audit_log
first_exchange = refl

refresh_once_example :
    let s1 = (refresh_admin_session settings crypto admin_world "token1" none none logged_in).1 in
    (detail : String) × (s2 : Session) × (refresh_admin_session settings crypto admin_world "token1"
        none none s1
      ≡ (err (http_exception 401 detail), s2))
    × (s2.work ≡ s1.work)
refresh_once_example =
    refresh_once settings crypto admin_world admin_world "token1" none none none none logged_in
      decoding_is_stable first_exchange
  where
    decoding_is_stable :
        (now now' : ℤ) (c c' : Dict)
        → crypto.decode now "token1" ≡ some c
        → crypto.decode now' "token1" ≡ some c'
        → c ≡ c'
    decoding_is_stable now now' c c' h k = ground (arith, h, k)

revoke_all_ends_example :
    let out = revoke_all_sessions admin_world 1 "root@example.org" logged_in in
    (out.0 ≡ ok (length (select (is_live 1 (pos 2000000)) (live ∷ []))))
    × (select (is_live 1 (pos 3000000)) out.1.committed.admin_sessions ≡ [])
    × (select (is_of_other 1) out.1.committed.admin_sessions ≡ select (is_of_other 1) (live ∷ []))
    × (out.1.work ≡ out.1.committed)
revoke_all_ends_example =
    revoke_all_ends admin_world 1 "root@example.org" logged_in (pos 3000000) (omega arith)
