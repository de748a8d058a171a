-- ===== src/Wifi/FirstMatch.antt =====
-- Which rule decides: the laws of Evaluate and EvaluatePolicy in internal/wifi/automation.go.
use wireguide_plus.Common.{
  ◌≡◌, refl, sym, ap, ◌∙◌, ◌↔◌, inl, inr, List, [], ◌∷◌, ◌++◌, Bool, true, false, ◌&&◌, arith, All,
  Bool-cases, is_none,
}
use mathlib.Core.Path.{subst}
use mathlib.Core.List.{append-nil}
use wireguide_plus.Wifi.Model.{Rule, NetworkContext, Platform, DesiredState}
use wireguide_plus.Wifi.Conditions.{action_state, validate_rule, rule_matches}
use wireguide_plus.Wifi.Evaluate.{or_default, evaluate_policy, evaluate_from, evaluate}
use wireguide_plus.Wifi.Model.{Action}

pub valid_action :
    (p : Platform) (r : Rule)
    → is_none (validate_rule p r) ≡ true
    → action_state r.action ≡ ((action_state r.action).0, true)
unfolding validate_rule
valid_action p r h = ground arith

managed :
    (r : Rule) (def : Action)
    → action_state r.action ≡ ((action_state r.action).0, true)
    → action_state r.action ≡ (or_default (action_state r.action).0 def, true)
unfolding action_state or_default
managed r def h = ground arith

module _ (p : Platform) (ctx : NetworkContext) where
  -- A rule fires if it is well-formed and all its conditions match.
  abbrev pub fires : Rule → Bool
  fires r = is_none (validate_rule p r) && rule_matches p r ctx

  abbrev pub Silent : Rule → Type 0
  Silent r = fires r ≡ false

  -- The outcome that an ordered list of rules decides, said without running the loop: the action of
  -- the first rule that fires, with nothing asked of the rules behind it.
  pub data Decides (rules : List Rule) (state : DesiredState) : Type 0 where
    no_match : All Silent rules → state ≡ DesiredState.unmanaged → Decides rules state
    first :
        (pre post : List Rule) (r : Rule)
        → rules ≡ pre ++ r ∷ post
        → All Silent pre
        → fires r ≡ true
        → action_state r.action ≡ (state, true)
        → Decides rules state

  pub evaluate_from-selected :
      (state : DesiredState) (rules : List Rule) → evaluate_from p state true rules ctx ≡ state
  unfolding evaluate_from
  evaluate_from-selected state [] = refl
  evaluate_from-selected state (r ∷ rules) = ground (arith, evaluate_from-selected state rules)

  pub evaluate_from-Silent :
      (pre rules : List Rule)
      → All Silent pre
      → evaluate_from p DesiredState.unmanaged false (pre ++ rules) ctx
        ≡ evaluate_from p DesiredState.unmanaged false rules ctx
  unfolding evaluate_from
  evaluate_from-Silent [] rules h = refl
  evaluate_from-Silent (r ∷ pre) rules h = ground (arith, evaluate_from-Silent pre rules h.1)

  pub evaluate_from-fires :
      (r : Rule) (rules : List Rule)
      → fires r ≡ true
      → evaluate_from p DesiredState.unmanaged false (r ∷ rules) ctx ≡ (action_state r.action).0
  unfolding evaluate_from
  evaluate_from-fires r rules h =
      ground (arith, evaluate_from-selected (action_state r.action).0 rules)

  -- One rule at the head of the list.
  pub evaluate-nil : evaluate p [] ctx ≡ DesiredState.unmanaged
  unfolding evaluate
  evaluate-nil = refl

  pub evaluate-fires :
      (r : Rule) (rules : List Rule)
      → fires r ≡ true
      → evaluate p (r ∷ rules) ctx ≡ (action_state r.action).0
  unfolding evaluate
  evaluate-fires r rules h = evaluate_from-fires r rules h

  pub evaluate-Silent :
      (r : Rule) (rules : List Rule)
      → fires r ≡ false
      → evaluate p (r ∷ rules) ctx ≡ evaluate p rules ctx
  unfolding evaluate
  evaluate-Silent r rules h = evaluate_from-Silent (r ∷ []) rules (h, tt)

  Decides-cons :
      (r : Rule) (rules : List Rule) {state : DesiredState}
      → Silent r
      → Decides rules state
      → Decides (r ∷ rules) state
  Decides-cons r rules h (no_match hs e) = no_match (h, hs) e
  Decides-cons r rules h (first pre post q e hs f a) =
      first (r ∷ pre) post q (ap (λ t. r ∷ t) e) (h, hs) f a

  Decides-from :
      (rules : List Rule) → Decides rules (evaluate_from p DesiredState.unmanaged false rules ctx)
  Decides-from [] = no_match tt (unfold evaluate_from in refl)
  Decides-from (r ∷ rules) = elim (Bool-cases (fires r)) [
    | inl h ↦
        rw (evaluate_from-fires r rules h)
          (first [] rules r refl tt h (valid_action p r (ground arith)))
    | inr h ↦
        rw (evaluate_from-Silent (r ∷ []) rules (h, tt))
          (Decides-cons r rules h (Decides-from rules))
  ]

  from_of_Decides :
      (rules : List Rule) (state : DesiredState)
      → Decides rules state
      → evaluate_from p DesiredState.unmanaged false rules ctx ≡ state
  from_of_Decides rules state (no_match hs e) =
      rw (← append-nil rules) (evaluate_from-Silent rules [] hs ∙ unfold evaluate_from in sym e)
  from_of_Decides rules state (first pre post r e hs f a) = rw e (
      evaluate_from-Silent pre (r ∷ post) hs
      ∙ evaluate_from-fires r post f
      ∙ ap (λ (x : DesiredState × Bool). x.0) a)

  -- Evaluate returns a state exactly when the ordered rules decide it: the action of the first
  -- well-formed rule whose conditions all match, or Unmanaged if there is none.
  pub evaluate-Decides :
      (rules : List Rule) (state : DesiredState)
      → (evaluate p rules ctx ≡ state) ↔ Decides rules state
  unfolding evaluate
  evaluate-Decides rules state =
      (λ e. subst (Decides rules) e (Decides-from rules), from_of_Decides rules state)

  -- With a rule that fires, the Default State is not consulted.
  pub evaluate_policy-fires :
      (pre post : List Rule) (r : Rule) (def : Action)
      → All Silent pre
      → fires r ≡ true
      → action_state r.action ≡ (evaluate_policy p (pre ++ r ∷ post) def ctx, true)
  unfolding evaluate_policy
  evaluate_policy-fires pre post r def hs f =
      let decided = evaluate-Decides (pre ++ r ∷ post) (action_state r.action).0 in
      rw (decided.1 (first pre post r refl hs f (valid_action p r (ground arith))))
        (managed r def (valid_action p r (ground arith)))
