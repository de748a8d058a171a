-- ===== src/Wifi/SsidIndependence.antt =====
-- Which rules an unknown SSID can mislead: RulesReferenceSSID in internal/wifi/automation.go.
use wireguide_plus.Common.{
  ◌≡◌, refl, ap, List, [], ◌∷◌, String, Bool, true, false, arith, any, all, is_empty, if◌then◌else◌,
}
use wireguide_plus.Wifi.Model.{
  Action, CondType, Condition, Rule, NetworkContext, Platform, DesiredState,
}
use wireguide_plus.Wifi.Conditions.{
  depends_on_ssid, rules_reference_ssid, kind_matches, rule_matches_cond, rule_matches,
  action_state,
}
use wireguide_plus.Wifi.Evaluate.{evaluate_from, evaluate, or_default, evaluate_policy}

module _ (p : Platform) (ctx : NetworkContext) (s : String) where
  abbrev renamed : NetworkContext
  renamed = record ctx { ssid = s }

  kind_same :
      (k : CondType) (c : Condition)
      → depends_on_ssid k ≡ false
      → kind_matches p k c renamed ≡ kind_matches p k c ctx
  unfolding kind_matches
  kind_same CondType.ssid c h = cc
  kind_same CondType.wifi c h = cc
  kind_same _ c h = refl

  cond_same :
      (c : Condition)
      → depends_on_ssid c.kind ≡ false
      → rule_matches_cond p c renamed ≡ rule_matches_cond p c ctx
  unfolding rule_matches_cond
  cond_same c h = rw (kind_same c.kind c h)

  all_same :
      (cs : List Condition)
      → any (λ c. depends_on_ssid c.kind) cs ≡ false
      → all (λ c. rule_matches_cond p c renamed) cs ≡ all (λ c. rule_matches_cond p c ctx) cs
  all_same [] h = refl
  all_same (c ∷ cs) h = ground (arith, cond_same c, all_same cs)

  rule_same :
      (r : Rule)
      → any (λ c. depends_on_ssid c.kind) r.when ≡ false
      → rule_matches p r renamed ≡ rule_matches p r ctx
  unfolding rule_matches
  rule_same r h = ap (λ b. if is_empty r.when then false else b) (all_same r.when h)

  from_same :
      (state : DesiredState) (selected : Bool) (rules : List Rule)
      → any (λ r. any (λ c. depends_on_ssid c.kind) r.when) rules ≡ false
      → evaluate_from p state selected rules renamed ≡ evaluate_from p state selected rules ctx
  unfolding evaluate_from
  from_same state selected [] h = refl
  from_same state selected (r ∷ rules) h = ground (
    arith,
    rule_same r,
    from_same state selected rules,
    from_same (action_state r.action).0 true rules,
  )

  -- Rules that name neither an SSID nor Wi-Fi decide the same whatever SSID is reported, with any
  -- Default State.
  pub evaluate_policy_any_ssid :
      (rules : List Rule) (def : Action)
      → rules_reference_ssid rules ≡ false
      → evaluate_policy p rules def renamed ≡ evaluate_policy p rules def ctx
  unfolding evaluate_policy evaluate rules_reference_ssid
  evaluate_policy_any_ssid rules def h =
      ap (λ st. or_default st def) (from_same DesiredState.unmanaged false rules h)
