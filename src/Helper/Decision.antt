-- ===== src/Helper/Decision.antt =====
-- internal/helper/decision.go: the decision layer of the automation engine, and reconcileAction and
-- ssidBlind of automation_rules.go. The strings of Action and Reason are data types.
use wireguide_plus.Common.{
  List, [], ◌∷◌, Option, none, some, String, Bool, true, false, ◌&&◌, ◌||◌, not, str_eq,
  if◌then◌else◌,
}
use wireguide_plus.Wifi.Model.{Action, Rule, NetworkContext, Platform, DesiredState}
use wireguide_plus.Wifi.Conditions.{ssid_undecidable, rules_reference_ssid}
use wireguide_plus.Wifi.Evaluate.{RuleDetail, evaluate_policy_detail, is_unmanaged}

-- TunnelDecision.Action; `leave` is the empty string.
pub data Verdict : Type 0 where
  leave connect disconnect skip_manual_off skip_manual_on blocked deferred unresolved : Verdict

pub data Reason : Type 0 where
  unstated network_unidentified automation_disabled address_conflict_paused : Reason
  ssid_blind back_off manual_off manual_on : Reason

pub record TunnelDecision : Type 0 where
  pub name : String
  pub has_policy : Bool
  pub desired : DesiredState
  pub action : Verdict
  pub reason : Reason
  pub blocked : Bool
  pub block_reason : String
  pub matched_rule : Option Rule
  pub manual_off : Bool
  pub manual_on : Bool
  pub exempted : Bool
  pub paused : Bool
  pub ssid_blind : Bool
  pub network_known : Bool
  pub backing_off : Bool

pub record DecisionEnv : Type 0 where
  pub name : String
  pub has_policy : Bool
  pub rules : List Rule
  pub default : Action
  pub ctx : NetworkContext
  pub network_known : Bool
  pub ssid_blind : Bool
  pub exempted : Bool
  pub paused : Bool
  pub manual_off : Bool
  pub manual_on : Bool
  pub active : Bool
  pub backing_off : Bool
  pub policy_block : String
  pub dns_block : Bool

unfoldable pub reconcile_action : DesiredState → Bool → Bool → Bool → Verdict
reconcile_action DesiredState.connect active off on =
    if off then skip_manual_off else if not active then connect else leave
reconcile_action DesiredState.disconnect active off on =
    if on then skip_manual_on else if active then disconnect else leave
reconcile_action DesiredState.unmanaged active off on = leave

unfoldable pub is_ssid_blind : List Rule → NetworkContext → Bool
is_ssid_blind rules ctx = ssid_undecidable ctx && rules_reference_ssid rules

-- The decision before any gate.
abbrev pub start : DecisionEnv → TunnelDecision
start env = record {
  name = env.name;
  has_policy = env.has_policy;
  desired = DesiredState.unmanaged;
  action = leave;
  reason = unstated;
  blocked = false;
  block_reason = "";
  matched_rule = none;
  manual_off = env.manual_off;
  manual_on = env.manual_on;
  exempted = env.exempted;
  paused = env.paused;
  ssid_blind = env.ssid_blind;
  network_known = env.network_known;
  backing_off = env.backing_off;
}

-- The rule at the first index whose report says that it matched.
unfoldable pub first_matched : List RuleDetail → List Rule → Option Rule
first_matched [] rules = none
first_matched (d ∷ ds) [] = none
first_matched (d ∷ ds) (r ∷ rules) = if d.matched then some r else first_matched ds rules

-- The gates in front of a wanted connect.
abbrev gate_connect : DecisionEnv → TunnelDecision → TunnelDecision
gate_connect env d =
    if not (str_eq env.policy_block "")
    then record d { action = Verdict.blocked; blocked = true; block_reason = env.policy_block }
    else if env.dns_block
    then record d { action = Verdict.blocked; blocked = true; block_reason = "dns" }
    else if env.backing_off
    then record d { action = deferred; reason = back_off }
    else record d { action = connect }

-- The switch on what reconcileAction wants.
unfoldable pub apply_verdict : Verdict → DecisionEnv → TunnelDecision → TunnelDecision
apply_verdict connect env d = gate_connect env d
apply_verdict disconnect env d = record d { action = disconnect }
apply_verdict skip_manual_off env d = record d { action = skip_manual_off; reason = manual_off }
apply_verdict skip_manual_on env d = record d { action = skip_manual_on; reason = manual_on }
apply_verdict _ env d = record d { action = leave }

-- What the policy wants, once the context can be judged.
unfoldable pub judge : Platform → DecisionEnv → TunnelDecision
unfolding apply_verdict first_matched reconcile_action
judge p env =
    let (state, details) = evaluate_policy_detail p env.rules env.default env.ctx in
    let d : TunnelDecision = record (start env) {
      desired = state;
      matched_rule = if is_unmanaged state then none else first_matched details env.rules;
    } in
    apply_verdict (reconcile_action state env.active env.manual_off env.manual_on) env d

unfoldable pub evaluate_tunnel_decision : Platform → DecisionEnv → TunnelDecision
evaluate_tunnel_decision p env =
    if not env.network_known
    then record (start env) { action = unresolved; reason = network_unidentified }
    else if env.exempted
    then record (start env) { action = leave; reason = automation_disabled }
    else if env.paused
    then record (start env) { action = leave; reason = address_conflict_paused }
    else if env.ssid_blind
    then record (start env) { action = unresolved; reason = Reason.ssid_blind }
    else judge p env

abbrev pub is_disconnect : DesiredState → Bool
is_disconnect DesiredState.disconnect = true
is_disconnect _ = false

-- DecisionConnectAllowed, the reconnect monitor's question.
unfoldable pub decision_connect_allowed : TunnelDecision → Bool
decision_connect_allowed d =
    if d.paused || d.exempted
    then false
    else if not d.has_policy || d.manual_on
    then true
    else if not d.network_known || d.ssid_blind
    then false
    else not (is_disconnect d.desired)

-- The decision word that handleAutomationPreview reports.
pub data Preview : Type 0 where
  unmanaged disabled blocked ssid_blind network_unidentified : Preview
  manual_off manual_on connect disconnect backoff : Preview

unfoldable pub preview_word : TunnelDecision → Preview
preview_word d = if d.exempted then Preview.disabled else word d.action
  where
    word : Verdict → Preview
    word Verdict.blocked = Preview.blocked
    word Verdict.unresolved =
        if d.ssid_blind then Preview.ssid_blind else Preview.network_unidentified
    word Verdict.connect = if d.manual_off then Preview.manual_off else Preview.connect
    word Verdict.disconnect = if d.manual_on then Preview.manual_on else Preview.disconnect
    word Verdict.skip_manual_off = Preview.manual_off
    word Verdict.skip_manual_on = Preview.manual_on
    word Verdict.deferred = Preview.backoff
    word Verdict.leave = Preview.unmanaged
