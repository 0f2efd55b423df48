-- ===== src/Admin/Locked.antt =====
-- What the deactivation of an administrator (src/casino_bot/admin/api_v1/admins.py) does to logins
-- (src/casino_bot/admin/security_service.py).
use Prim.Native.String.{String}
use casino_bot.Prelude.{
  ℕ, ◌≡◌, refl, eq_iff, Bool, true, false, Option, none, some, List, [], ◌∷◌, first, first-holds,
  first-update_first, update_first, arith, Bool-cases, inl, inr,
}
use casino_bot.Python.{Dict, ok}
use casino_bot.Settings.{Settings}
use casino_bot.Database.{AdminUser, Session, audit_log}
use casino_bot.Admin.Security.{Crypto}
use casino_bot.Admin.Sessions.{has_admin_id, IssuedTokens}
use casino_bot.Admin.Login.{LoginWorld, has_email, perform_admin_login}
use casino_bot.Admin.Login.Guarded.{login_authenticates}
use casino_bot.Admin.Accounts.{changed_or_none, set_admin_active, get_admin_by_id}
use casino_bot.Admin.Staff.{api_patch_admin, active_if_given, role_if_given, admin_or_404}

-- An update of a row that two queries find leaves it to both.
update_first-other :
    {A : Type 0} (p q : A → Bool) (y : A) (xs : List A) {x : A}
    → first q xs ≡ some x
    → first p xs ≡ some x
    → p y ≡ true
    → first p (update_first q (λ _. y) xs) ≡ some y
unfolding first update_first
update_first-other p q y [] h k e = absurd (ground (arith, h))
update_first-other p q y (z ∷ xs) {x} h k e =
    let held = first-holds q (z ∷ xs) x h in
    elim (Bool-cases (q z)) [
      | inl t ↦ ground (arith, t, e)
      | inr f ↦ elim (Bool-cases (p z)) [
        | inl g ↦ let same : z ≡ x = ground (arith, g, k) in absurd (ground (arith, f, held, same))
        | inr g ↦
            let later : first q xs ≡ some x = ground (arith, f, h) in
            let later' : first p xs ≡ some x = ground (arith, g, k) in
            ground (arith, f, g, update_first-other p q y xs {x = x} later later' e)
      ]
    ]

module _ (admin : Dict) (admin_id : ℕ) (s : Session) {u : AdminUser}
    (found : first (has_admin_id admin_id) s.work.admin_users ≡ some u)
    (unique : first (has_email u.email) s.work.admin_users ≡ some u) where
  idle :
      first
        (has_email u.email)
        (api_patch_admin admin admin_id none (some false) s).1.work.admin_users
      ≡ some (record u { is_active = false })
  unfolding api_patch_admin active_if_given role_if_given admin_or_404 set_admin_active
      get_admin_by_id changed_or_none audit_log
  idle =
      let row : AdminUser = record u { is_active = false } in
      let own : has_email u.email row ≡ true = (eq_iff u.email u.email).1 refl in
      let after =
        update_first-other (has_email u.email) (has_admin_id admin_id) row s.work.admin_users
          {x = u} found unique own in
      let number : u.id ≡ admin_id =
        ground (arith, first-holds (has_admin_id admin_id) s.work.admin_users u found) in
      let there =
        first-update_first (has_admin_id admin_id) row s.work.admin_users {x = u}
          (ground (arith, number)) found in
      ground (arith, found, number, after, there)

  -- Once the route has deactivated an administrator whose mail address is no other's, no login
  -- with that address succeeds, whatever its password, its address and its time.
  pub deactivated_locked_out :
      (settings : Settings) (crypto : Crypto) (world : LoginWorld) (password : String)
      (ip_address user_agent : Option String) (issued : IssuedTokens)
      → ¬ (
          (perform_admin_login settings crypto world u.email password ip_address user_agent
            (api_patch_admin admin admin_id none (some false) s).1).0
          ≡ ok issued)
  deactivated_locked_out settings crypto world password ip_address user_agent issued done =
      let row =
        login_authenticates settings crypto world u.email password ip_address user_agent
          (api_patch_admin admin admin_id none (some false) s).1 done in
      ground (arith, row.1, row.2, idle)
