-- ===== src/Helper/Gates.antt =====
-- What the decision layer of internal/helper/decision.go lets through.
use wireguide_plus.Common.{
  ◌≡◌, ◌↔◌, refl, sym, ap, ◌∙◌, List, [], ◌∷◌, ◌++◌, map, none, some, Bool, true, false, ◌&&◌, not,
  str_eq_iff, arith, inl, inr, ◌⊎◌, All, Bool-cases,
}
use mathlib.Core.Path.{ap₂}
use wireguide_plus.Wifi.Model.{Action, Rule, NetworkContext, Platform, DesiredState}
use wireguide_plus.Wifi.Evaluate.{evaluate_policy, evaluate_policy_detail, detail_of, or_default}
use wireguide_plus.Wifi.FirstMatch.{fires, Silent}
use wireguide_plus.Wifi.Conditions.{action_state}
use wireguide_plus.Common.{if◌then◌else◌, ◌++◌, List, ◌∷◌}
use wireguide_plus.Wifi.FirstMatch.{evaluate_policy-fires}
use wireguide_plus.Wifi.Marking.{reports, state_agrees, detail_of-matched}
use wireguide_plus.Helper.Decision.{
  Verdict, TunnelDecision, DecisionEnv, apply_verdict, judge, first_matched,
  evaluate_tunnel_decision,
}
use wireguide_plus.Wifi.Evaluate.{is_unmanaged}
use wireguide_plus.Helper.Decision.{reconcile_action}
use wireguide_plus.Helper.Decision.{start}

policy_detail-state :
    (p : Platform) (rules : List Rule) (def : Action) (ctx : NetworkContext)
    → (evaluate_policy_detail p rules def ctx).0 ≡ evaluate_policy p rules def ctx
unfolding evaluate_policy_detail evaluate_policy
policy_detail-state p rules def ctx = ap (λ st. or_default st def) (state_agrees p ctx rules)

apply_verdict-desired :
    (v : Verdict) (env : DecisionEnv) (d : TunnelDecision)
    → (apply_verdict v env d).desired ≡ d.desired
unfolding apply_verdict
apply_verdict-desired Verdict.connect env d = ground arith
apply_verdict-desired _ env d = refl

-- The verdict leaves what the decision says about the tunnel.
apply_verdict-context :
    (v : Verdict) (env : DecisionEnv) (d : TunnelDecision)
    → ((apply_verdict v env d).matched_rule ≡ d.matched_rule)
      × ((apply_verdict v env d).has_policy ≡ d.has_policy)
      × ((apply_verdict v env d).manual_on ≡ d.manual_on)
      × ((apply_verdict v env d).exempted ≡ d.exempted)
      × ((apply_verdict v env d).paused ≡ d.paused)
      × ((apply_verdict v env d).network_known ≡ d.network_known)
      × ((apply_verdict v env d).ssid_blind ≡ d.ssid_blind)
unfolding apply_verdict
apply_verdict-context Verdict.connect env d = ground arith
apply_verdict-context _ env d = (refl, refl, refl, refl, refl, refl, refl)

policy_detail-reports :
    (p : Platform) (rules : List Rule) (def : Action) (ctx : NetworkContext)
    → (evaluate_policy_detail p rules def ctx).1 ≡ map (λ r. detail_of p r ctx) rules
unfolding evaluate_policy_detail
policy_detail-reports p rules def ctx = reports p ctx rules

known_managed :
    (a : Action) (st : DesiredState) → action_state a ≡ (st, true) → is_unmanaged st ≡ false
unfolding action_state
known_managed a st h = ground arith

module _ (p : Platform) (env : DecisionEnv) where
  -- The context can be judged and automation may touch the tunnel.
  abbrev pub passes : Bool
  passes = env.network_known && not env.exempted && not env.paused && not env.ssid_blind

  abbrev pub wanted : DesiredState
  wanted = evaluate_policy p env.rules env.default env.ctx

  judge_state : (evaluate_policy_detail p env.rules env.default env.ctx).0 ≡ wanted
  judge_state = policy_detail-state p env.rules env.default env.ctx

  decision_passes : passes ≡ true → evaluate_tunnel_decision p env ≡ judge p env
  unfolding evaluate_tunnel_decision
  decision_passes h = ground arith

  judge-desired : (judge p env).desired ≡ wanted
  unfolding judge
  judge-desired = apply_verdict-desired _ env _ ∙ judge_state

  judge-connect : ((judge p env).action ≡ Verdict.connect) ↔ (
      (wanted ≡ DesiredState.connect)
      × (env.manual_off ≡ false)
      × (env.active ≡ false)
      × (env.policy_block ≡ "")
      × (env.dns_block ≡ false)
      × (env.backing_off ≡ false))
  unfolding judge
  judge-connect = (
    λ h. ground (arith, judge_state, str_eq_iff env.policy_block ""),
    λ h. ground (arith, judge_state, str_eq_iff env.policy_block ""),
  )

  judge-disconnect :
      ((judge p env).action ≡ Verdict.disconnect)
      ↔ ((wanted ≡ DesiredState.disconnect) × (env.manual_on ≡ false) × (env.active ≡ true))
  unfolding judge
  judge-disconnect = (λ h. ground (arith, judge_state), λ h. ground (arith, judge_state))

  decision_held :
      passes ≡ false
      → ((evaluate_tunnel_decision p env).action ≡ Verdict.leave)
        ⊎ ((evaluate_tunnel_decision p env).action ≡ Verdict.unresolved)
  unfolding evaluate_tunnel_decision
  decision_held h = ground arith

  -- The decision is to connect exactly when every gate is open: the network is identified, the
  -- tunnel is neither exempted nor paused, its SSID conditions can be judged, the policy wants it
  -- connected, the user has not switched it off, it is down, no policy and no DNS path blocks it,
  -- and it is not backing off.
  pub connect_iff : ((evaluate_tunnel_decision p env).action ≡ Verdict.connect) ↔ (
      (passes ≡ true)
      × (wanted ≡ DesiredState.connect)
      × (env.manual_off ≡ false)
      × (env.active ≡ false)
      × (env.policy_block ≡ "")
      × (env.dns_block ≡ false)
      × (env.backing_off ≡ false))
  connect_iff = elim (Bool-cases passes) [
    | inl h ↦ (
      λ e.
          let k = judge-connect.0 (sym (ap (λ d. d.action) (decision_passes h)) ∙ e) in
          (h, k.0, k.1, k.2, k.3, k.4, k.5),
      λ g. ap (λ d. d.action) (decision_passes h) ∙ judge-connect.1 (g.1, g.2, g.3, g.4, g.5, g.6),
    )
    | inr h ↦ (λ e. absurd (ground (arith, decision_held h)), λ g. absurd (ground arith))
  ]

  -- The decision is to disconnect exactly when the context can be judged, automation may touch the
  -- tunnel, the policy wants it down, the user has not switched it on, and it is up. Blocks and
  -- back-off do not hold a disconnect.
  pub disconnect_iff : ((evaluate_tunnel_decision p env).action ≡ Verdict.disconnect) ↔ (
      (passes ≡ true)
      × (wanted ≡ DesiredState.disconnect)
      × (env.manual_on ≡ false)
      × (env.active ≡ true))
  disconnect_iff = elim (Bool-cases passes) [
    | inl h ↦ (
      λ e.
          let k = judge-disconnect.0 (sym (ap (λ d. d.action) (decision_passes h)) ∙ e) in
          (h, k.0, k.1, k.2),
      λ g. ap (λ d. d.action) (decision_passes h) ∙ judge-disconnect.1 (g.1, g.2, g.3),
    )
    | inr h ↦ (λ e. absurd (ground (arith, decision_held h)), λ g. absurd (ground arith))
  ]

  first_matched-first :
      (pre post : List Rule) (r : Rule)
      → All (Silent p env.ctx) pre
      → fires p env.ctx r ≡ true
      → first_matched (map (λ q. detail_of p q env.ctx) (pre ++ r ∷ post)) (pre ++ r ∷ post)
        ≡ some r
  unfolding first_matched
  first_matched-first [] post r h f = ground (arith, detail_of-matched p env.ctx r)
  first_matched-first (q ∷ pre) post r h f =
      ground (arith, detail_of-matched p env.ctx q, first_matched-first pre post r h.1 f)

  first_matched-Silent :
      (rules : List Rule)
      → All (Silent p env.ctx) rules
      → first_matched (map (λ q. detail_of p q env.ctx) rules) rules ≡ none
  unfolding first_matched
  first_matched-Silent [] h = refl
  first_matched-Silent (r ∷ rules) h =
      ground (arith, detail_of-matched p env.ctx r, first_matched-Silent rules h.1)

  judge-matched_rule : (judge p env).matched_rule ≡ (
      if is_unmanaged wanted
      then none
      else first_matched (map (λ q. detail_of p q env.ctx) env.rules) env.rules)
  unfolding judge
  judge-matched_rule =
      (apply_verdict-context _ env _).0
      ∙ ap₂ (λ st ds. if is_unmanaged st then none else first_matched ds env.rules) judge_state
          details
    where
      details :
          (evaluate_policy_detail p env.rules env.default env.ctx).1
          ≡ map (λ q. detail_of p q env.ctx) env.rules
      details = policy_detail-reports p env.rules env.default env.ctx

  -- Once the context can be judged, the rule that the decision names is the first one that is
  -- well-formed and matches, and the desired state is that rule's action, whatever the Default State.
  pub matched_rule_decides :
      (pre post : List Rule) (r : Rule)
      → passes ≡ true
      → env.rules ≡ pre ++ r ∷ post
      → All (Silent p env.ctx) pre
      → fires p env.ctx r ≡ true
      → ((evaluate_tunnel_decision p env).matched_rule ≡ some r)
        × (action_state r.action ≡ ((evaluate_tunnel_decision p env).desired, true))
  matched_rule_decides pre post r h e hs f =
      let decided = evaluate_policy-fires p env.ctx pre post r env.default hs f in
      rw (decision_passes h, judge-matched_rule, judge-desired)
        (rw e
          (rw (known_managed r.action _ decided) (first_matched-first pre post r hs f), decided))

  -- What the decision says about the tunnel is what its environment says.
  pub decision_said :
      ((evaluate_tunnel_decision p env).has_policy ≡ env.has_policy)
      × ((evaluate_tunnel_decision p env).manual_on ≡ env.manual_on)
      × ((evaluate_tunnel_decision p env).exempted ≡ env.exempted)
      × ((evaluate_tunnel_decision p env).paused ≡ env.paused)
      × ((evaluate_tunnel_decision p env).network_known ≡ env.network_known)
      × ((evaluate_tunnel_decision p env).ssid_blind ≡ env.ssid_blind)
  unfolding evaluate_tunnel_decision judge
  decision_said =
      let told =
        apply_verdict-context
          (reconcile_action (evaluate_policy_detail p env.rules env.default env.ctx).0 env.active
            env.manual_off env.manual_on)
          env
          (record (start env) {
            desired = (evaluate_policy_detail p env.rules env.default env.ctx).0;
            matched_rule =
                if is_unmanaged (evaluate_policy_detail p env.rules env.default env.ctx).0
                then none
                else first_matched (evaluate_policy_detail p env.rules env.default env.ctx).1
                    env.rules;
          }) in
      ground (arith, told)

  pub decision_desired : passes ≡ true → (evaluate_tunnel_decision p env).desired ≡ wanted
  decision_desired h = ap (λ d. d.desired) (decision_passes h) ∙ judge-desired
