-- ===== src/Wifi/Migration.antt =====
-- The laws of Normalize in internal/wifi/automation.go.
use wireguide_plus.Common.{
  ◌≡◌, refl, ap, ◌⊎◌, List, [], ◌∷◌, Option, none, some, String, Bool, true, false, ◌&&◌, is_none,
  is_some, if◌then◌else◌, any, str_eq, str_eq_iff, arith, inl, inr, Bool-cases, Option-cases, All,
}
use wireguide_plus.Common.Maps.{lookup, lookup-put}
use wireguide_plus.Wifi.Model.{
  Action, Condition, Rule, Automation, NetworkContext, Platform, DesiredState,
}
use wireguide_plus.Wifi.Conditions.{validate_rule, action_state, rule_matches, rule_matches_cond}
use wireguide_plus.Wifi.Evaluate.{evaluate, evaluate_policy, or_default}
use wireguide_plus.Wifi.FirstMatch.{
  fires, valid_action, evaluate-nil, evaluate-fires, evaluate-Silent,
}
use wireguide_plus.Wifi.Normalize.{
  is_otherwise, default_of, cut_rules, add_default, normalize_from, normalize,
}

module _ (p : Platform) where
  -- A well-formed rule whose one condition is none_match.
  abbrev pub is_fallback : Rule → Bool
  is_fallback r = is_none (validate_rule p r) && is_otherwise r.when

  -- Cutting a second time cuts nothing.
  cut_idem : (rules : List Rule) → cut_rules p (cut_rules p rules).0 ≡ ((cut_rules p rules).0, none)
  unfolding cut_rules
  cut_idem [] = refl
  cut_idem (r ∷ rules) = ground (arith, cut_idem rules)

  -- Nothing that is left is a fallback.
  pub cut-no_fallback : (rules : List Rule) → any is_fallback (cut_rules p rules).0 ≡ false
  unfolding cut_rules
  cut-no_fallback [] = refl
  cut-no_fallback (r ∷ rules) = ground (arith, cut-no_fallback rules)

  otherwise_matches :
      (cs : List Condition) (a : Action) (m : String) (ctx : NetworkContext)
      → is_otherwise cs ≡ true
      → rule_matches p (record { when = cs; match = m; action = a }) ctx ≡ true
  unfolding rule_matches rule_matches_cond
  otherwise_matches [] a m ctx h = cc
  otherwise_matches (c ∷ []) a m ctx h = ground arith
  otherwise_matches (c ∷ d ∷ cs) a m ctx h = cc

  fallback_fires : (r : Rule) (ctx : NetworkContext) → is_fallback r ≡ true → fires p ctx r ≡ true
  fallback_fires r ctx h = ground (arith, otherwise_matches r.when r.action r.match ctx)

  cut-fallback :
      (r : Rule) (rules : List Rule)
      → is_fallback r ≡ true
      → cut_rules p (r ∷ rules) ≡ ([], some r.action)
  unfolding cut_rules
  cut-fallback r rules h = rw h

  cut-kept :
      (r : Rule) (rules : List Rule)
      → is_fallback r ≡ false
      → cut_rules p (r ∷ rules) ≡ (r ∷ (cut_rules p rules).0, (cut_rules p rules).1)
  unfolding cut_rules
  cut-kept r rules h = rw h

  default_of_valid :
      (r : Rule)
      → is_fallback r ≡ true
      → or_default DesiredState.unmanaged (default_of (some r.action)) ≡ (action_state r.action).0
  unfolding or_default action_state
  default_of_valid r h = ground (arith, valid_action p r)

  or_default-fires :
      (r : Rule) (def : Action) (ctx : NetworkContext)
      → fires p ctx r ≡ true
      → or_default (action_state r.action).0 def ≡ (action_state r.action).0
  unfolding or_default action_state
  or_default-fires r def ctx h = ground (arith, valid_action p r)

  -- The rules that are kept, with the cut rule's action as the Default State, decide as the whole
  -- list did.
  pub cut_decides :
      (rules : List Rule) (ctx : NetworkContext)
      → any is_fallback rules ≡ true
      → evaluate_policy p (cut_rules p rules).0 (default_of (cut_rules p rules).1) ctx
        ≡ evaluate p rules ctx
  unfolding evaluate_policy
  cut_decides [] ctx h = cc
  cut_decides (r ∷ rules) ctx h = elim (Bool-cases (is_fallback r)) [
    | inl e ↦
        rw
          (
            cut-fallback r rules e,
            evaluate-nil p ctx,
            evaluate-fires p ctx r rules (fallback_fires r ctx e),
          )
          (default_of_valid r e)
    | inr e ↦ elim (Bool-cases (fires p ctx r)) [
      | inl f ↦
          rw (cut-kept r rules e, evaluate-fires p ctx r _ f, evaluate-fires p ctx r rules f)
            (or_default-fires r (default_of (cut_rules p rules).1) ctx f)
      | inr f ↦
          rw (cut-kept r rules e, evaluate-Silent p ctx r _ f, evaluate-Silent p ctx r rules f)
            (cut_decides rules ctx (ground arith))
    ]
  ]

  -- What a tunnel's entry becomes.
  abbrev Entries : Type 0
  Entries = List (String × List Rule)

  add_default-lookup :
      (k j : String) (def : Option Action) (ds : List (String × Action))
      → lookup j (add_default p k def ds) ≡ (
          if is_some (lookup k ds)
          then lookup j ds
          else if str_eq k j
          then some (default_of def)
          else lookup j ds)
  add_default-lookup k j def ds = ground (arith, lookup-put k j (default_of def) ds)

  add_default-keeps :
      (k j : String) (def : Option Action) (ds : List (String × Action)) (a : Action)
      → lookup j ds ≡ some a
      → lookup j (add_default p k def ds) ≡ some a
  add_default-keeps k j def ds a h = ground (arith, add_default-lookup k j def ds, str_eq_iff k j)

  add_default-other :
      (k j : String) (def : Option Action) (ds : List (String × Action))
      → str_eq k j ≡ false
      → lookup j (add_default p k def ds) ≡ lookup j ds
  add_default-other k j def ds h = ground (arith, add_default-lookup k j def ds)

  add_default-new :
      (k : String) (def : Option Action) (ds : List (String × Action))
      → lookup k ds ≡ none
      → lookup k (add_default p k def ds) ≡ some (default_of def)
  add_default-new k def ds h = ground (arith, add_default-lookup k k def ds, str_eq_iff k k)

  defaults_kept :
      (es : Entries) (ds : List (String × Action)) (k : String) (a : Action)
      → lookup k ds ≡ some a
      → lookup k (normalize_from p es ds).1 ≡ some a
  unfolding normalize_from
  defaults_kept [] ds k a h = h
  defaults_kept ((name, []) ∷ es) ds k a h = defaults_kept es ds k a h
  defaults_kept ((name, r ∷ rules) ∷ es) ds k a h =
      defaults_kept es (add_default p name (cut_rules p (r ∷ rules)).1 ds) k a
        (add_default-keeps name k (cut_rules p (r ∷ rules)).1 ds a h)

  migrated :
      (es : Entries) (ds : List (String × Action)) (name : String) (rules : List Rule)
      → lookup name es ≡ some rules
      → lookup name ds ≡ none
      → any is_fallback rules ≡ true
      → (lookup name (normalize_from p es ds).0 ≡ some (cut_rules p rules).0)
        × (lookup name (normalize_from p es ds).1 ≡ some (default_of (cut_rules p rules).1))
  unfolding normalize_from lookup
  migrated [] ds name rules e f h = cc
  migrated ((k, []) ∷ es) ds name rules e f h = ground (arith, migrated es ds name rules)
  migrated ((k, r ∷ rs) ∷ es) ds name rules e f h =
      let def = (cut_rules p (r ∷ rs)).1 in
      let added = add_default p k def ds in
      (
        ground (arith, migrated es added name rules, add_default-other k name def ds),
        ground (
          arith,
          migrated es added name rules,
          add_default-other k name def ds,
          str_eq_iff k name,
          add_default-new k def ds,
          defaults_kept es added name (default_of def),
        ),
      )

  StableEntry : List (String × Action) → String × List Rule → Type 0
  StableEntry ds (name, rules) =
      (cut_rules p rules ≡ (rules, none)) × ((rules ≡ []) ⊎ (is_some (lookup name ds) ≡ true))

  stable_fixed :
      (es : Entries) (ds : List (String × Action))
      → All (StableEntry ds) es
      → normalize_from p es ds ≡ (es, ds)
  unfolding normalize_from StableEntry
  stable_fixed [] ds h = refl
  stable_fixed ((k, []) ∷ es) ds (h, hs) = ground (arith, stable_fixed es ds hs)
  stable_fixed ((k, r ∷ rs) ∷ es) ds (h, hs) = ground (arith, stable_fixed es ds hs)

  defaults_present :
      (es : Entries) (ds : List (String × Action)) (k : String)
      → is_some (lookup k ds) ≡ true
      → is_some (lookup k (normalize_from p es ds).1) ≡ true
  defaults_present es ds k h = elim (Option-cases (lookup k ds)) [
    | inl e ↦ ground arith
    | inr (a, e) ↦ rw (defaults_kept es ds k a e)
  ]

  add_default-present :
      (k : String) (def : Option Action) (ds : List (String × Action))
      → is_some (lookup k (add_default p k def ds)) ≡ true
  add_default-present k def ds = ground (arith, add_default-lookup k k def ds, str_eq_iff k k)

  normalize_from-stable :
      (es : Entries) (ds : List (String × Action))
      → All (StableEntry (normalize_from p es ds).1) (normalize_from p es ds).0
  unfolding normalize_from StableEntry
  normalize_from-stable [] ds = tt
  normalize_from-stable ((k, []) ∷ es) ds =
      ((unfold cut_rules in refl, inl refl), normalize_from-stable es ds)
  normalize_from-stable ((k, r ∷ rs) ∷ es) ds =
      let added = add_default p k (cut_rules p (r ∷ rs)).1 ds in
      (
        (cut_idem (r ∷ rs), inr (defaults_present es added k (add_default-present k _ ds))),
        normalize_from-stable es added,
      )

  -- Normalize is idempotent: a second run changes neither map.
  pub normalize_idem : (a : Automation) → normalize p (normalize p a) ≡ normalize p a
  unfolding normalize
  normalize_idem a =
      ap (λ (x : Entries × List (String × Action)). record { defaults = x.1; per_tunnel = x.0 })
        (stable_fixed _ _ (normalize_from-stable a.per_tunnel a.defaults))

  -- A Default State that was set before the migration is the same after it.
  pub normalize-defaults :
      (a : Automation) (name : String) (def : Action)
      → lookup name a.defaults ≡ some def
      → lookup name (normalize p a).defaults ≡ some def
  unfolding normalize
  normalize-defaults a name def h = defaults_kept a.per_tunnel a.defaults name def h

  -- A tunnel whose list has a well-formed "Otherwise" rule and which has no Default State keeps its
  -- behaviour: on every network, its migrated rules with its new Default State decide what its old
  -- rules decided; and no such rule is left in its list.
  pub normalize_preserves :
      (a : Automation) (name : String) (rules : List Rule)
      → lookup name a.per_tunnel ≡ some rules
      → lookup name a.defaults ≡ none
      → any is_fallback rules ≡ true
      → (kept : List Rule) × (def : Action) × (lookup name (normalize p a).per_tunnel ≡ some kept)
        × (lookup name (normalize p a).defaults ≡ some def)
        × (any is_fallback kept ≡ false)
        × ((ctx : NetworkContext) → evaluate_policy p kept def ctx ≡ evaluate p rules ctx)
  unfolding normalize
  normalize_preserves a name rules e f h =
      let (kept, def) = migrated a.per_tunnel a.defaults name rules e f h in
      (
        (cut_rules p rules).0,
        default_of (cut_rules p rules).1,
        kept,
        def,
        cut-no_fallback rules,
        λ ctx. cut_decides rules ctx h,
      )
