-- ===== src/Tests/Entitlements.antt =====
-- The gate of paid operations at a concrete user.
use casino_bot.Prelude.{pos, ◌+ℤ◌, ◌*ℤ◌, ◌≡◌, refl, true, first, arith}
use casino_bot.Python.{ok}
use casino_bot.Entitlements.{activate_internal_test_plan, user_has_active_subscription}
use casino_bot.Entitlements.Gate.{activate_opens}
use casino_bot.Tests.Data.{settings, session}

activate_opens_example :
    let s' =
      (activate_internal_test_plan (pos 0) (pos 0) 1 "test_plan" "root" (pos 30) session).1 in
    (user_has_active_subscription settings (pos 1000) 1 s').0 ≡ ok true
unfolding first ◌+ℤ◌ ◌*ℤ◌
activate_opens_example =
    activate_opens settings (pos 0) (pos 0) 1 "test_plan" "root" (pos 30) (pos 1000) session refl
      (omega arith) (omega arith)
