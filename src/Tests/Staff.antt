-- ===== src/Tests/Staff.antt =====
-- Routes of administrators, and the users of the bot, at concrete inputs.
use casino_bot.Prelude.{
  pos, negsuc, ◌≡◌, refl, false, some, none, [], ◌∷◌, first, ◌==◌, str_eq, arith,
}
use casino_bot.Python.{Dict, text, get, ok, err, http_coded}
use casino_bot.Database.{begin_work}
use casino_bot.Rounds.Solvency.{IsSound}
use casino_bot.Entitlements.{activate_internal_test_plan, deactivate_internal_test_plan}
use casino_bot.Admin.Security.{is_text}
use casino_bot.Admin.Sessions.{issued_tokens}
use casino_bot.Admin.Guards.{has_role}
use casino_bot.Admin.Login.{perform_admin_login}
use casino_bot.Admin.Staff.{api_patch_admin}
use casino_bot.Admin.Users.{api_adjust_tokens}
use casino_bot.Admin.Books.{adjust_route-IsSound, deactivated_refuses}
use casino_bot.Admin.Locked.{deactivated_locked_out}
use casino_bot.Tests.Data.{settings, session, session-IsSound, admin}
use casino_bot.Tests.Admin.{crypto, admin_world}
use casino_bot.Tests.Login.{login_world}

abbrev claims : Dict
claims = ("role", text "admin") ∷ ("sub", text "ops@example.org") ∷ []

is_plain : has_role "superadmin" claims ≡ false
unfolding has_role is_text get
is_plain = refl

adjust_route-IsSound_example :
    IsSound (api_adjust_tokens settings (pos 5) claims 1 (negsuc 99) "fee" session).1
adjust_route-IsSound_example =
    adjust_route-IsSound settings (omega arith) (pos 5) claims 1 (negsuc 99) "fee" session
      session-IsSound

deactivated_refuses_example :
    let active =
      (activate_internal_test_plan (pos 0) (pos 0) 1 "test_plan" "root" (pos 30) session).1 in
    let s' = (deactivate_internal_test_plan (pos 5) 1 "root" active).1 in
    api_adjust_tokens settings (pos 6) claims 1 (negsuc 99) "fee" s' ≡ (
      err (http_coded 402 "ENTITLEMENT_REQUIRED" "Active subscription required"),
      begin_work s' s'.work,
    )
deactivated_refuses_example =
    deactivated_refuses settings (pos 5) (pos 6) claims 1 (negsuc 99) "root" "fee"
      (activate_internal_test_plan (pos 0) (pos 0) 1 "test_plan" "root" (pos 30) session).1 refl
      is_plain

first-admin : first (λ u. u.id == 1) session.work.admin_users ≡ some admin
unfolding first
first-admin = refl

first_email : first (λ u. str_eq u.email "root@example.org") session.work.admin_users ≡ some admin
unfolding first
first_email = refl

deactivated_locked_out_example : ¬ (
    (perform_admin_login settings crypto login_world "root@example.org" "secret"
      (some "10.0.0.1")
      none
      (api_patch_admin claims 1 none (some false) session).1).0
    ≡ ok (issued_tokens settings crypto admin_world 0 admin))
deactivated_locked_out_example =
    deactivated_locked_out claims 1 session first-admin first_email settings crypto login_world
      "secret" (some "10.0.0.1") none (issued_tokens settings crypto admin_world 0 admin)
