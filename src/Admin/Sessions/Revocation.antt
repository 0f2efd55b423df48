-- ===== src/Admin/Sessions/Revocation.antt =====
-- What ending sessions in src/casino_bot/admin/security_service.py promises.
use Prim.Native.String.{String}
use casino_bot.Prelude.{
  ℕ, ℤ, ◌≡◌, refl, ◌≤ℤ◌, Bool, not, ◌==◌, List, [], ◌∷◌, length, select, update_all, arith,
}
use casino_bot.Python.{ok}
use casino_bot.Database.{AdminSession, Session, audit_log}
use casino_bot.Admin.Sessions.{AdminWorld, revoke_row, revoke_all_sessions, is_live}

abbrev pub is_of_other : ℕ → AdminSession → Bool
is_of_other admin_user_id row = not (row.admin_user_id == admin_user_id)

live_gone :
    (id : ℕ) (now later : ℤ) (rows : List AdminSession)
    → now ≤ℤ later
    → select (is_live id later) (update_all (is_live id now) (revoke_row now now) rows) ≡ []
unfolding select update_all revoke_row
live_gone id now later [] h = refl
live_gone id now later (r ∷ rows) h = ground (arith, live_gone id now later rows h)

others_kept :
    (id : ℕ) (now : ℤ) (rows : List AdminSession)
    → select (is_of_other id) (update_all (is_live id now) (revoke_row now now) rows)
      ≡ select (is_of_other id) rows
unfolding select update_all revoke_row
others_kept id now [] = refl
others_kept id now (r ∷ rows) = ground (arith, others_kept id now rows)

-- Ending all sessions of an administrator: the call returns how many were live, commits, and leaves
-- none of them live at any later time; the sessions of the other administrators are as before.
pub revoke_all_ends :
    (world : AdminWorld) (id : ℕ) (actor : String) (s : Session) (later : ℤ)
    → world.clock 0 ≤ℤ later
    → (let out = revoke_all_sessions world id actor s in
        (out.0 ≡ ok (length (select (is_live id (world.clock 0)) s.work.admin_sessions)))
        × (select (is_live id later) out.1.committed.admin_sessions ≡ [])
        × (select (is_of_other id) out.1.committed.admin_sessions
            ≡ select (is_of_other id) s.work.admin_sessions)
        × (out.1.work ≡ out.1.committed))
unfolding revoke_all_sessions audit_log
revoke_all_ends world id actor s later h = (
  refl,
  live_gone id (world.clock 0) later s.work.admin_sessions h,
  others_kept id (world.clock 0) s.work.admin_sessions,
  refl,
)
