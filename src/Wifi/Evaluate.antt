-- ===== src/Wifi/Evaluate.antt =====
-- internal/wifi/automation.go: the control path (Evaluate, EvaluatePolicy) and the marking path
-- (EvaluateDetail, EvaluatePolicyDetail) over an ordered rule list.
use Prim.Native.String
use wireguide_plus.Common.{
  List, [], ◌∷◌, ◌++◌, map, String, Bool, true, false, ◌&&◌, not, str_eq, if◌then◌else◌, is_none,
}
use wireguide_plus.Wifi.Model.{
  Action, CondType, Condition, Rule, NetworkContext, Platform, DesiredState,
}
use wireguide_plus.Wifi.Conditions.{action_state, validate_rule, rule_matches_cond, rule_matches}

abbrev pub is_unmanaged : DesiredState → Bool
is_unmanaged DesiredState.unmanaged = true
is_unmanaged _ = false

-- The no-match outcome, resolved through the tunnel's Default State.
unfoldable pub or_default : DesiredState → Action → DesiredState
or_default DesiredState.unmanaged Action.connect = DesiredState.connect
or_default DesiredState.unmanaged Action.disconnect = DesiredState.disconnect
or_default state def = state

pub record ConditionDetail : Type 0 where
  pub kind : CondType
  pub value : String
  pub matched : Bool

pub record RuleDetail : Type 0 where
  pub action : Action
  pub match_all : Bool
  pub matched : Bool
  pub conditions : List ConditionDetail

time_value : String → String → String
time_value start end =
    if str_eq start "" && str_eq end ""
    then "day-of-week"
    else if str_eq start ""
    then String.◌++◌ "≤ " end
    else if str_eq end ""
    then String.◌++◌ start " ≤"
    else String.◌++◌ start (String.◌++◌ "–" end)

value_of : CondType → Condition → String
unfolding time_value
value_of CondType.ssid c = c.ssid
value_of CondType.subnet c = c.subnet
value_of CondType.network c = c.gateway_mac
value_of CondType.gateway_ip c = c.gateway_ip
value_of CondType.interface c = c.interface_name
value_of CondType.time c = time_value c.start c.end
value_of _ c = ""

-- conditionValue
unfoldable pub condition_value : Condition → String
unfolding value_of
condition_value c = value_of c.kind c

-- A rule's action is taken if the rule matched, no earlier rule decided and the action is known.
unfoldable pub settle : DesiredState → Bool → DesiredState × Bool → DesiredState
settle state matched (st, known) = if matched && is_unmanaged state && known then st else state

module _ (p : Platform) where
  -- The loop of Evaluate over its variables `state` and `selected`.
  unfoldable pub evaluate_from : DesiredState → Bool → List Rule → NetworkContext → DesiredState
  evaluate_from state selected [] ctx = state
  evaluate_from state selected (r ∷ rules) ctx =
      let skip = evaluate_from state selected rules ctx in
      let take = evaluate_from (action_state r.action).0 true rules ctx in
      if not (is_none (validate_rule p r))
      then skip
      else if not selected && rule_matches p r ctx
      then take
      else skip

  unfoldable pub evaluate : List Rule → NetworkContext → DesiredState
  unfolding evaluate_from
  evaluate rules ctx = evaluate_from DesiredState.unmanaged false rules ctx

  unfoldable pub evaluate_policy : List Rule → Action → NetworkContext → DesiredState
  evaluate_policy rules def ctx = or_default (evaluate rules ctx) def

  unfoldable pub detail_of : Rule → NetworkContext → RuleDetail
  unfolding condition_value
  detail_of r ctx =
      if is_none (validate_rule p r)
      then record {
        action = r.action;
        match_all = true;
        matched = rule_matches p r ctx;
        conditions =
            map
              (λ c. record {
                kind = c.kind;
                value = condition_value c;
                matched = rule_matches_cond p c ctx;
              })
              r.when;
      }
      else record { action = r.action; match_all = true; matched = false; conditions = [] }

  -- The loop of EvaluateDetail over its variables `state` and `details`.
  unfoldable pub detail_from :
      DesiredState → List RuleDetail → List Rule → NetworkContext → DesiredState × List RuleDetail
  detail_from state details [] ctx = (state, details)
  detail_from state details (r ∷ rules) ctx =
      let d = detail_of r ctx in
      detail_from (settle state d.matched (action_state r.action)) (details ++ d ∷ []) rules ctx

  unfoldable pub evaluate_detail : List Rule → NetworkContext → DesiredState × List RuleDetail
  unfolding detail_from detail_of settle
  evaluate_detail rules ctx = detail_from DesiredState.unmanaged [] rules ctx

  unfoldable pub evaluate_policy_detail :
      List Rule → Action → NetworkContext → DesiredState × List RuleDetail
  evaluate_policy_detail rules def ctx =
      let (state, details) = evaluate_detail rules ctx in (or_default state def, details)
