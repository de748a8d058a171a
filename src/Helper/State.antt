-- ===== src/Helper/State.antt =====
-- internal/helper: the runtime state that the automation engine reads and writes
-- (conflict_pause.go, automation_rules.go), and EvaluateTunnelDecision of decision.go.
-- Times are seconds. What the engine reads from other components is the record `Reads`.
use wireguide_plus.Common.{
  ℕ, ◌+◌, List, [], ◌∷◌, Option, none, some, String, Bool, true, false, ◌&&◌, ◌||◌, not, str_eq,
  if◌then◌else◌, is_empty, is_some, any, ltb, leb, ◌==◌,
}
use wireguide_plus.Common.Maps.{lookup, put, remove}
use wireguide_plus.Wifi.Model.{Action, Rule, Automation, NetworkContext, Platform}
use wireguide_plus.Helper.Decision.{
  DecisionEnv, TunnelDecision, is_ssid_blind, evaluate_tunnel_decision, decision_connect_allowed,
}

-- ipc.AddressConflictPayload, without the guess at the other software's name.
pub record Conflict : Type 0 where
  pub tunnel : String
  pub address : String
  pub adapter : String
  pub state : String

-- autoConnectBackoff
pub record Backoff : Type 0 where
  pub failures : ℕ
  pub next_retry : ℕ

pub record Helper : Type 0 where
  pub conflict_paused : List (String × Conflict)
  pub backoffs : List (String × Backoff)
  pub active : List String
  pub auto_connected_by : List (String × String)

pub record Settings : Type 0 where
  pub automation : Option Automation
  pub manual_off_tunnels : List String
  pub manual_on_tunnels : List String

-- The sidecar flag of a tunnel, the reason of policyBlockFor ("" if there is none), the DNS path
-- check of tunnelClaimsDNSPath and dnsPathBlockers, and stripCIDR.
pub record Reads : Type 0 where
  pub automation_disabled : String → Bool
  pub policy_block_for : String → String
  pub dns_path_blocked : String → Bool
  pub strip_cidr : String → String

-- automationBackoffDelay
unfoldable pub backoff_delay : ℕ → ℕ
backoff_delay failures =
    if leb failures 1 then 30 else if failures == 2 then 60 else if failures == 3 then 120 else 300

abbrev retry_after : Option Backoff → ℕ → Bool
retry_after none now = false
retry_after (some b) now = ltb now b.next_retry

-- autoConnectBackingOff
unfoldable pub backing_off : Helper → String → ℕ → Bool
backing_off h name now = retry_after (lookup name h.backoffs) now

-- A missing entry is the zero value.
abbrev failures_of : Option Backoff → ℕ
failures_of none = 0
failures_of (some b) = b.failures

-- recordAutoConnectFailure
unfoldable pub record_failure : Helper → String → ℕ → Helper
unfolding backoff_delay
record_failure h name now =
    let n = failures_of (lookup name h.backoffs) + 1 in
    record h {
      backoffs = put name (record { failures = n; next_retry = now + backoff_delay n }) h.backoffs;
    }

-- clearAutoConnectBackoff
unfoldable pub clear_backoff : Helper → String → Helper
clear_backoff h name =
    if is_some (lookup name h.backoffs) then record h { backoffs = remove name h.backoffs } else h

-- isAutoConnectPaused
unfoldable pub is_paused : Helper → String → Bool
is_paused h name = is_some (lookup name h.conflict_paused)

-- pauseForAddressConflict: the helper, and whether this call made a new pause (and announced it).
unfoldable pub pause_for_conflict :
    Reads → Helper → String → String → String → String → Helper × Bool
unfolding is_paused
pause_for_conflict rd h tunnel cidr holder state = if is_paused h tunnel then (h, false) else (
  record h {
    conflict_paused =
        put tunnel
          (record {
            tunnel = tunnel;
            address = rd.strip_cidr cidr;
            adapter = holder;
            state = state;
          })
          h.conflict_paused;
  },
  true,
)

-- resumeAutoConnect: the helper, and whether a pause was lifted.
unfoldable pub resume : Helper → String → Helper × Bool
unfolding is_paused clear_backoff
resume h tunnel =
    let lifted = record h { conflict_paused = remove tunnel h.conflict_paused } in
    if is_paused h tunnel then (clear_backoff lifted tunnel, true) else (lifted, false)

-- The conflicts of tunnels whose automation is still on.
unfoldable pub undecided : Reads → List (String × Conflict) → List Conflict
undecided rd [] = []
undecided rd ((k, c) ∷ m) =
    if rd.automation_disabled c.tunnel then undecided rd m else c ∷ undecided rd m

-- pendingAddressConflicts
unfoldable pub pending_conflicts : Reads → Helper → List Conflict
unfolding undecided
pending_conflicts rd h = undecided rd h.conflict_paused

-- automationBlockedForReconnect
unfoldable pub blocked_for_reconnect : Reads → Helper → String → Bool
unfolding is_paused
blocked_for_reconnect rd h tunnel = rd.automation_disabled tunnel || is_paused h tunnel

abbrev pub rules_for : Option Automation → String → List Rule
rules_for none name = []
rules_for (some a) name = elim (lookup name a.per_tunnel) [ none ↦ [] | some rules ↦ rules ]

abbrev pub default_for : Option Automation → String → Action
default_for none name = Action.other ""
default_for (some a) name = elim (lookup name a.defaults) [ none ↦ Action.other "" | some d ↦ d ]

abbrev pub is_unset : Action → Bool
is_unset (Action.other s) = str_eq s ""
is_unset _ = false

-- The environment that EvaluateTunnelDecision gathers.
unfoldable pub decision_env : Reads → Helper → String → Settings → NetworkContext → ℕ → DecisionEnv
unfolding is_paused backing_off is_ssid_blind
decision_env rd h name s ctx now =
    let rules = rules_for s.automation name in
    let def = default_for s.automation name in
    let has_policy = not (is_empty rules) || not (is_unset def) in
    record {
      name = name;
      has_policy = has_policy;
      rules = rules;
      default = def;
      ctx = ctx;
      network_known = not (str_eq ctx.ssid "") || not (is_empty ctx.physical_ips);
      ssid_blind = has_policy && is_ssid_blind rules ctx;
      exempted = rd.automation_disabled name;
      paused = is_paused h name;
      manual_off = any (str_eq name) s.manual_off_tunnels;
      manual_on = any (str_eq name) s.manual_on_tunnels;
      active = any (str_eq name) h.active;
      backing_off = backing_off h name now;
      policy_block = rd.policy_block_for name;
      dns_block = rd.dns_path_blocked name;
    }

unfoldable pub decide :
    Platform → Reads → Helper → String → Settings → NetworkContext → ℕ → TunnelDecision
unfolding decision_env
decide p rd h name s ctx now = evaluate_tunnel_decision p (decision_env rd h name s ctx now)

-- reconnectPolicyBlocked with readable settings.
unfoldable pub reconnect_blocked :
    Platform → Reads → Helper → String → Settings → NetworkContext → ℕ → Bool
reconnect_blocked p rd h name s ctx now =
    if str_eq name "" then false else not (decision_connect_allowed (decide p rd h name s ctx now))
