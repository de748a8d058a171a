-- ===== src/Wifi/Marking.antt =====
-- The marking path of internal/wifi/automation.go against the control path.
use mathlib.Core.List.{append_assoc, append-nil, map-map}
use wireguide_plus.Common.{
  ◌≡◌, refl, sym, ap, ◌∙◌, inl, inr, List, [], ◌∷◌, ◌++◌, map, Bool, true, false, arith, Bool-cases,
}
use wireguide_plus.Wifi.Model.{Rule, NetworkContext, Platform, DesiredState}
use wireguide_plus.Wifi.Conditions.{action_state}
use wireguide_plus.Wifi.Evaluate.{
  evaluate_from, evaluate, RuleDetail, detail_of, detail_from, is_unmanaged, settle,
  evaluate_detail,
}
use wireguide_plus.Wifi.FirstMatch.{fires, evaluate_from-fires, evaluate_from-Silent, valid_action}

module _ (p : Platform) (ctx : NetworkContext) where
  -- The marker that the editor shows for a rule.
  pub detail_of-matched : (r : Rule) → (detail_of p r ctx).matched ≡ fires p ctx r
  unfolding detail_of
  detail_of-matched r = ground arith

  detail_from-details :
      (state : DesiredState) (ds : List RuleDetail) (rules : List Rule)
      → (detail_from p state ds rules ctx).1 ≡ ds ++ map (λ r. detail_of p r ctx) rules
  unfolding detail_from
  detail_from-details state ds [] = sym (append-nil ds)
  detail_from-details state ds (r ∷ rules) =
      detail_from-details (settle state (detail_of p r ctx).matched (action_state r.action))
        (ds ++ detail_of p r ctx ∷ []) rules
      ∙ append_assoc ds (detail_of p r ctx ∷ []) _

  settle-decided :
      (state : DesiredState) (matched : Bool) (a : DesiredState × Bool)
      → is_unmanaged state ≡ false
      → settle state matched a ≡ state
  unfolding settle
  settle-decided state matched a h = ground arith

  -- A state already decided stays.
  detail_from_decided :
      (state : DesiredState) (ds : List RuleDetail) (rules : List Rule)
      → is_unmanaged state ≡ false
      → (detail_from p state ds rules ctx).0 ≡ state
  unfolding detail_from
  detail_from_decided state ds [] h = refl
  detail_from_decided state ds (r ∷ rules) h =
      rw (settle-decided state (detail_of p r ctx).matched (action_state r.action) h, detail_from)
        (detail_from_decided state (ds ++ detail_of p r ctx ∷ []) rules h)

  settle-fires :
      (r : Rule)
      → fires p ctx r ≡ true
      → (settle DesiredState.unmanaged (detail_of p r ctx).matched (action_state r.action)
          ≡ (action_state r.action).0)
        × (is_unmanaged (action_state r.action).0 ≡ false)
  unfolding settle action_state
  settle-fires r h = ground (arith, detail_of-matched r, valid_action p r)

  settle-Silent :
      (r : Rule)
      → fires p ctx r ≡ false
      → settle DesiredState.unmanaged (detail_of p r ctx).matched (action_state r.action)
        ≡ DesiredState.unmanaged
  unfolding settle
  settle-Silent r h = ground (arith, detail_of-matched r)

  fired :
      (r : Rule) (rules : List Rule) (ds : List RuleDetail)
      → fires p ctx r ≡ true
      → (detail_from p DesiredState.unmanaged ds (r ∷ rules) ctx).0 ≡ (action_state r.action).0
  unfolding detail_from
  fired r rules ds h =
      let (e, decided) = settle-fires r h in
      rw (e, detail_from)
        (detail_from_decided (action_state r.action).0 (ds ++ detail_of p r ctx ∷ []) rules decided)

  passed :
      (r : Rule) (rules : List Rule) (ds : List RuleDetail)
      → fires p ctx r ≡ false
      → (detail_from p DesiredState.unmanaged ds (r ∷ rules) ctx).0
        ≡ (detail_from p DesiredState.unmanaged (ds ++ detail_of p r ctx ∷ []) rules ctx).0
  unfolding detail_from
  passed r rules ds h = rw (settle-Silent r h, detail_from)

  detail_from-state :
      (ds : List RuleDetail) (rules : List Rule)
      → (detail_from p DesiredState.unmanaged ds rules ctx).0
        ≡ evaluate_from p DesiredState.unmanaged false rules ctx
  detail_from-state ds [] = unfold detail_from evaluate_from in refl
  detail_from-state ds (r ∷ rules) = elim (Bool-cases (fires p ctx r)) [
    | inl h ↦ fired r rules ds h ∙ sym (evaluate_from-fires p ctx r rules h)
    | inr h ↦
        passed r rules ds h
        ∙ detail_from-state (ds ++ detail_of p r ctx ∷ []) rules
        ∙ sym (evaluate_from-Silent p ctx (r ∷ []) rules (h, tt))
  ]

  pub state_agrees : (rules : List Rule) → (evaluate_detail p rules ctx).0 ≡ evaluate p rules ctx
  unfolding evaluate_detail evaluate
  state_agrees rules = detail_from-state [] rules

  pub reports :
      (rules : List Rule) → (evaluate_detail p rules ctx).1 ≡ map (λ r. detail_of p r ctx) rules
  unfolding evaluate_detail
  reports rules = detail_from-details DesiredState.unmanaged [] rules

  -- EvaluateDetail returns the state that Evaluate decides, and one report for each rule, in order.
  -- The report says that the rule matched exactly when the rule is well-formed and all its
  -- conditions match, also behind the rule that decided.
  pub evaluate_detail_agrees :
      (rules : List Rule)
      → ((evaluate_detail p rules ctx).0 ≡ evaluate p rules ctx)
        × (map (λ d. d.matched) (evaluate_detail p rules ctx).1 ≡ map (fires p ctx) rules)
  evaluate_detail_agrees rules = (
    state_agrees rules,
    ap (map (λ d. d.matched)) (reports rules) ∙ simp (map-map, detail_of-matched),
  )
