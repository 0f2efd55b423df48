-- ===== src/Tests/Http.antt =====
-- The rate limit of logins at concrete attempts.
use Prim.Native.String.{String}
use casino_bot.Prelude.{
  ℕ, ℤ, pos, ◌+ℤ◌, ◌-ℤ◌, ◌≤ℤ◌, ◌≡◌, refl, inl, inr, Option, some, none, List, [], ◌∷◌, All, arith,
}
use casino_bot.Http.{
  is_login_path, get_limit, dispatch, keyed, limited, admit, finish, prune, counted_queue,
}
use casino_bot.Http.Throttle.{
  Attempt, IsWithin, IsLoginFrom, failures, passes, failed_logins, failed_logins_bounded,
}
use casino_bot.Tests.Data.{settings}

abbrev attempt : String → Option String → ℤ → ℕ → Attempt
attempt path authorization at status = record {
  request = record {
    path = path;
    method = "POST";
    client_host = some "10.0.0.1";
    authorization = authorization;
    x_user_id = none;
  };
  at = at;
  status = status;
}

-- Both paths, with other headers.
abbrev attempts : List Attempt
attempts =
    attempt "/admin/login" none (pos 10) 401
    ∷ attempt "/api/v1/admin/login" (some "Bearer a") (pos 20) 401
    ∷ attempt "/admin/login" (some "Bearer b") (pos 20) 200
    ∷ []

within : (now : ℤ) → pos 0 ≤ℤ now → now ≤ℤ pos 60000000 → IsWithin (pos 0) now
unfolding ◌+ℤ◌
within now began soon = record { began = began; ends = ground (arith, soon) }

attempts-IsLoginFrom : All (IsLoginFrom "10.0.0.1" (pos 0)) attempts
attempts-IsLoginFrom = (
  record { address = refl; path = inr refl; within = within (pos 10) (omega arith) (omega arith) },
  (
    record {
      address = refl;
      path = inl refl;
      within = within (pos 20) (omega arith) (omega arith);
    },
    (
      record {
        address = refl;
        path = inr refl;
        within = within (pos 20) (omega arith) (omega arith);
      },
      tt,
    ),
  ),
)

failed_logins_bounded_example :
    pos (failed_logins settings attempts (λ key. [])) ≤ℤ settings.login_rate_limit_per_minute
failed_logins_bounded_example =
    failed_logins_bounded settings "10.0.0.1" (pos 0) attempts (λ key. []) (omega arith)
      attempts-IsLoginFrom refl

-- Two of the three have failed.
two_failed : failed_logins settings attempts (λ key. []) ≡ 2
unfolding failed_logins failures passes dispatch get_limit is_login_path keyed limited admit finish
    prune counted_queue ◌-ℤ◌
two_failed = refl
