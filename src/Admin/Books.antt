-- ===== src/Admin/Books.antt =====
-- The token ledger behind the routes of src/casino_bot/admin/api_v1/users.py.
use Prim.Native.String.{String}
use casino_bot.Prelude.{ℕ, ℤ, pos, ◌≤ℤ◌, ◌≡◌, refl, ap, ◌∙◌, str_eq, Bool, true, false}
use casino_bot.Python.{
  Dict, Result, ok, err, bind-keeps, lift, ◌>>◌, type_error, value_error, key_error,
  compliance_violation, integrity_error, operational_error, engine_rejected, http_exception,
  http_coded, exception,
}
use casino_bot.Settings.{Settings}
use casino_bot.Database.{TokenAccount, Session, begin_work}
use casino_bot.Economy.{adjust_user_tokens}
use casino_bot.Economy.Adjust.{adjust-Adjusts, Adjusts-committed}
use casino_bot.Economy.Conservation.{adjust-IsConserved}
use casino_bot.Rounds.Solvency.{IsSound}
use casino_bot.Entitlements.{
  deactivate_internal_test_plan, enforce_if_required, require_active_entitlement,
  user_has_active_subscription, entitlement_required, is_paywalled,
}
use casino_bot.Entitlements.Gate.{deactivate_closes}
use casino_bot.Admin.Guards.{has_role, actor_or_unknown}
use casino_bot.Admin.Users.{api_adjust_tokens, adjust_or_404, commit_or_404, unless, gate}

asked-IsSound :
    (settings : Settings) (now : ℤ) (user_id : ℕ) (s : Session)
    → IsSound s
    → IsSound (user_has_active_subscription settings now user_id s).1
unfolding user_has_active_subscription
asked-IsSound settings now user_id s h = record { working = h.working; stored = h.stored }

unless-IsSound :
    (settings : Settings) (now : ℤ) (skipped : Bool) (user_id : ℕ) (s : Session)
    → IsSound s
    → IsSound (unless skipped (enforce_if_required settings now "user.tokens.adjust" user_id) s).1
unfolding unless enforce_if_required is_paywalled require_active_entitlement
unless-IsSound settings now true user_id s h = h
unless-IsSound settings now false user_id s h =
    bind-keeps IsSound (user_has_active_subscription settings now user_id)
      (λ active. lift (entitlement_required settings active)) s
      (asked-IsSound settings now user_id s h) λ active s' h'. h'

gate-IsSound :
    (settings : Settings) (now : ℤ) (admin : Dict) (user_id : ℕ) (s : Session)
    → IsSound s
    → IsSound (gate settings now admin user_id s).1
unfolding gate
gate-IsSound settings now admin user_id s h =
    unless-IsSound settings now (has_role "superadmin" admin) user_id s h

commit-IsSound : (r : Result TokenAccount) (s : Session) → IsSound s → IsSound (commit_or_404 r s).1
unfolding commit_or_404
commit-IsSound (ok a) s h = record { working = h.working; stored = h.working }
commit-IsSound (err (value_error m)) s h = record { working = h.stored; stored = h.stored }
commit-IsSound (err (type_error m)) s h = h
commit-IsSound (err (key_error m)) s h = h
commit-IsSound (err (compliance_violation m)) s h = h
commit-IsSound (err (integrity_error m)) s h = h
commit-IsSound (err (operational_error m)) s h = h
commit-IsSound (err (http_exception n m)) s h = h
commit-IsSound (err (engine_rejected c m o)) s h = h
commit-IsSound (err (http_coded n c m)) s h = h
commit-IsSound (err (exception c m)) s h = h

module _ (settings : Settings) (scale : pos 1 ≤ℤ settings.token_unit_scale) where
  route-IsSound :
      (admin : Dict) (user_id : ℕ) (delta_units : ℤ) (reason : String) (s : Session)
      → IsSound s
      → IsSound (adjust_or_404 settings admin user_id delta_units reason s).1
  unfolding adjust_or_404
  route-IsSound admin user_id delta_units reason s h =
      let out =
        adjust_user_tokens settings user_id delta_units reason (actor_or_unknown admin) false false
          s in
      let kept = Adjusts-committed user_id delta_units s out.1 out.0 (
        adjust-Adjusts settings user_id delta_units reason (actor_or_unknown admin) false false s
          scale) in
      commit-IsSound out.0 out.1 (record {
        working =
            adjust-IsConserved settings scale user_id delta_units reason (actor_or_unknown admin)
              false false s h.working;
        stored = rw kept h.stored;
      })

  -- For a scale of at least one, whoever calls it and however the route that adjusts tokens ends:
  -- the balances that the transaction sees and those that are committed are the sums of their
  -- ledger entries, and none is negative, if that held of both before.
  pub adjust_route-IsSound :
      (now : ℤ) (admin : Dict) (user_id : ℕ) (delta_units : ℤ) (reason : String) (s : Session)
      → IsSound s
      → IsSound (api_adjust_tokens settings now admin user_id delta_units reason s).1
  unfolding api_adjust_tokens
  adjust_route-IsSound now admin user_id delta_units reason s h =
      bind-keeps IsSound (gate settings now admin user_id)
        (λ _. adjust_or_404 settings admin user_id delta_units reason) s
        (gate-IsSound settings now admin user_id s h)
        λ _ s' h'. route-IsSound admin user_id delta_units reason s' h'

gate_asks :
    (settings : Settings) (now : ℤ) (admin : Dict) (user_id : ℕ) (s : Session)
    → has_role "superadmin" admin ≡ false
    → gate settings now admin user_id s
      ≡ enforce_if_required settings now "user.tokens.adjust" user_id s
unfolding gate unless
gate_asks settings now admin user_id s plain = rw plain refl

-- Once the plans of a user have been deactivated, an administrator who is no superadmin cannot
-- adjust the user's tokens at any time, unless the settings enforce the gate softly: the route
-- answers with status 402, and no table changes.
pub deactivated_refuses :
    (settings : Settings) (now later : ℤ) (admin : Dict) (user_id : ℕ) (delta_units : ℤ)
    (actor reason : String) (s : Session)
    → str_eq settings.billing.entitlement_enforcement_mode "soft" ≡ false
    → has_role "superadmin" admin ≡ false
    → (let s' = (deactivate_internal_test_plan now user_id actor s).1 in
        api_adjust_tokens settings later admin user_id delta_units reason s' ≡ (
          err (http_coded 402 "ENTITLEMENT_REQUIRED" "Active subscription required"),
          begin_work s' s'.work,
        ))
unfolding api_adjust_tokens
deactivated_refuses settings now later admin user_id delta_units actor reason s hard plain =
    let s' = (deactivate_internal_test_plan now user_id actor s).1 in
    let refused =
      gate_asks settings later admin user_id s' plain
      ∙ deactivate_closes settings now later user_id actor s hard in
    ap (λ p. ((λ _. p) >> adjust_or_404 settings admin user_id delta_units reason) s') refused
