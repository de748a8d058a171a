-- ===== src/Helper/Agreement.antt =====
-- The engine and the reconnect monitor of internal/helper never contradict one another.
use wireguide_plus.Common.{
  ◌≡◌, refl, sym, ap, ◌∙◌, List, [], ◌∷◌, String, true, false, ◌||◌, not, str_eq_iff, is_empty,
  arith, ℕ,
}
use wireguide_plus.Wifi.Model.{Action, Rule, NetworkContext, Platform, DesiredState}
use wireguide_plus.Wifi.Evaluate.{evaluate_policy, or_default}
use wireguide_plus.Wifi.FirstMatch.{evaluate-nil}
use wireguide_plus.Helper.Decision.{Verdict, DecisionEnv, decision_connect_allowed}
use wireguide_plus.Helper.Gates.{wanted, connect_iff, disconnect_iff, decision_said}
use wireguide_plus.Helper.State.{
  Helper, Settings, Reads, decide, decision_env, reconnect_blocked, is_unset, rules_for,
  default_for,
}
use wireguide_plus.Common.{◌≢◌}
use wireguide_plus.Helper.Gates.{decision_desired}

default_is_set :
    (def : Action)
    → or_default DesiredState.unmanaged def ≡ DesiredState.disconnect
    → not (is_unset def) ≡ true
unfolding or_default
default_is_set Action.disconnect e = refl
default_is_set def e = cc

-- A policy that wants a tunnel down has rules or a Default State.
policy_is_set :
    (p : Platform) (rules : List Rule) (def : Action) (ctx : NetworkContext)
    → evaluate_policy p rules def ctx ≡ DesiredState.disconnect
    → not (is_empty rules) || not (is_unset def) ≡ true
unfolding evaluate_policy
policy_is_set p [] def ctx h =
    default_is_set def (sym (ap (λ st. or_default st def) (evaluate-nil p ctx)) ∙ h)
policy_is_set p (r ∷ rules) def ctx h = refl

env_has_policy :
    (p : Platform) (rd : Reads) (h : Helper) (name : String) (s : Settings) (ctx : NetworkContext)
    (now : ℕ)
    → wanted p (decision_env rd h name s ctx now) ≡ DesiredState.disconnect
    → (decision_env rd h name s ctx now).has_policy ≡ true
unfolding decision_env
env_has_policy p rd h name s ctx now e =
    policy_is_set p (rules_for s.automation name) (default_for s.automation name) ctx e

module _ (p : Platform) (rd : Reads) (h : Helper) (name : String) (s : Settings)
    (ctx : NetworkContext) (now : ℕ) where
  abbrev env : DecisionEnv
  env = decision_env rd h name s ctx now

  -- A tunnel that the engine connects is one that the reconnect monitor may put back up.
  pub connect_not_blocked :
      (decide p rd h name s ctx now).action ≡ Verdict.connect
      → reconnect_blocked p rd h name s ctx now ≡ false
  unfolding decide reconnect_blocked decision_connect_allowed
  connect_not_blocked e =
      let g = (connect_iff p env).0 e in
      let want = decision_desired p env g.0 ∙ g.1 in ground (arith, decision_said p env, want, g)

  -- A tunnel that the engine takes down, the reconnect monitor does not put back up.
  pub disconnect_blocked :
      name ≢ ""
      → (decide p rd h name s ctx now).action ≡ Verdict.disconnect
      → reconnect_blocked p rd h name s ctx now ≡ true
  unfolding decide reconnect_blocked decision_connect_allowed
  disconnect_blocked ne e =
      let g = (disconnect_iff p env).0 e in
      let want = decision_desired p env g.0 ∙ g.1 in
      ground (
        arith,
        decision_said p env,
        want,
        g,
        env_has_policy p rd h name s ctx now g.1,
        str_eq_iff name "",
      )
