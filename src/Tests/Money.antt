-- ===== src/Tests/Money.antt =====
-- The token ledger at concrete inputs.
use casino_bot.Prelude.{pos, negsuc, false, none, some, arith}
use casino_bot.Economy.{create_user}
use casino_bot.Economy.Adjust.{Adjusts, adjusted, adjust-Adjusts}
use casino_bot.Economy.Conservation.{IsConserved, adjust-IsConserved, create_user-IsConserved}
use casino_bot.Tests.Data.{settings, session, tables-IsConserved}

adjust-Adjusts_example :
    Adjusts 1
      (negsuc 99)
      session
      (adjusted settings 1 (negsuc 99) "fee" "admin" false false session)
adjust-Adjusts_example =
    adjust-Adjusts settings 1 (negsuc 99) "fee" "admin" false false session (omega arith)

adjust-IsConserved_example :
    IsConserved (adjusted settings 2 (negsuc 99) "fee" "admin" false false session).1.work
adjust-IsConserved_example =
    adjust-IsConserved settings (omega arith) 2 (negsuc 99) "fee" "admin" false false session
      tables-IsConserved

create_user-IsConserved_example :
    IsConserved (create_user "admin" none (some (pos 7)) none none session).1.work
create_user-IsConserved_example =
    create_user-IsConserved "admin" none (some (pos 7)) none none session tables-IsConserved
