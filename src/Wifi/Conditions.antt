-- ===== src/Wifi/Conditions.antt =====
-- internal/wifi/automation.go: what makes a condition or a rule well-formed, and when it matches.
use wireguide_plus.Common.{
  List, [], ◌∷◌, Option, none, some, String, Bool, true, false, ◌&&◌, ◌||◌, not, str_eq,
  if◌then◌else◌, is_empty, is_some, any, all, ◌==◌,
}
use wireguide_plus.Common.Text.{Text, codes, trim}
use wireguide_plus.Wifi.Model.{
  Action, CondType, Condition, Rule, Ip, IpNet, contains_ip, NetworkContext, Platform, DesiredState,
}
use wireguide_plus.Wifi.Mac.{canonical_mac}
use wireguide_plus.Wifi.Clock.{TimeError, validate_time_window, time_matches}

unfoldable pub ssid_undecidable : NetworkContext → Bool
ssid_undecidable ctx =
    if str_eq ctx.ssid "" then any (λ inf. inf.is_wifi && inf.active) ctx.interfaces else false

abbrev pub depends_on_ssid : CondType → Bool
depends_on_ssid CondType.ssid = true
depends_on_ssid CondType.wifi = true
depends_on_ssid _ = false

unfoldable pub rules_reference_ssid : List Rule → Bool
rules_reference_ssid rules = any (λ r. any (λ c. depends_on_ssid c.kind) r.when) rules

-- The state and the `ok` of actionState.
unfoldable pub action_state : Action → DesiredState × Bool
action_state Action.connect = (DesiredState.connect, true)
action_state Action.disconnect = (DesiredState.disconnect, true)
action_state (Action.other s) = (DesiredState.unmanaged, false)

pub data CondError : Type 0 where
  empty_ssid bad_subnet bad_mac bad_gateway_ip empty_interface : CondError
  bad_time : TimeError → CondError
  unknown_type : String → CondError

pub data RuleError : Type 0 where
  unknown_action : RuleError
  unknown_match : RuleError
  no_conditions : RuleError
  condition : CondError → RuleError

abbrev require : Bool → CondError → Option CondError
require true e = none
require false e = some e

abbrev time_error : Option TimeError → Option CondError
time_error none = none
time_error (some e) = some (CondError.bad_time e)

abbrev pub same_text : Text → Text → Bool
same_text [] [] = true
same_text (a ∷ s) (b ∷ t) = (a == b) && same_text s t
same_text _ _ = false

abbrev same_ip : Option Ip → Option Ip → Bool
same_ip (some a) (some b) = (a.width == b.width) && (a.addr == b.addr)
same_ip _ _ = false

abbrev in_network : Option IpNet → List Ip → Bool
in_network none ips = false
in_network (some n) ips = any (contains_ip n) ips

abbrev pub is_none_match : CondType → Bool
is_none_match CondType.none_match = true
is_none_match _ = false

module _ (p : Platform) where
  open p use {parse_cidr, parse_ip, equal_fold, wall_clock}

  -- The switch of Condition.Validate.
  validate_kind : CondType → Condition → Option CondError
  validate_kind CondType.ssid c =
      require (not (is_empty (trim (codes c.ssid)))) CondError.empty_ssid
  validate_kind CondType.wifi c = none
  validate_kind CondType.subnet c =
      require (is_some (parse_cidr (trim (codes c.subnet)))) CondError.bad_subnet
  validate_kind CondType.network c =
      require (not (is_empty (canonical_mac (codes c.gateway_mac)))) CondError.bad_mac
  validate_kind CondType.gateway_ip c =
      require (is_some (parse_ip (trim (codes c.gateway_ip)))) CondError.bad_gateway_ip
  validate_kind CondType.interface c =
      require (not (is_empty (trim (codes c.interface_name)))) CondError.empty_interface
  validate_kind CondType.ethernet c = none
  validate_kind CondType.time c = time_error (validate_time_window c)
  validate_kind CondType.none_match c = none
  validate_kind (CondType.unknown t) c = some (CondError.unknown_type t)

  unfoldable pub validate_condition : Condition → Option CondError
  unfolding validate_kind
  validate_condition c = validate_kind c.kind c

  validate_all : List Condition → Option RuleError
  unfolding validate_condition
  validate_all [] = none
  validate_all (c ∷ cs) = elim (validate_condition c) [
    | none ↦ validate_all cs
    | some e ↦ some (RuleError.condition e)
  ]

  -- Rule.Validate
  unfoldable pub validate_rule : Rule → Option RuleError
  unfolding action_state validate_all
  validate_rule r =
      if not (action_state r.action).1
      then some RuleError.unknown_action
      else if not (str_eq r.match "" || str_eq r.match "all")
      then some RuleError.unknown_match
      else if is_empty r.when
      then some RuleError.no_conditions
      else validate_all r.when

  -- The switch of conditionMatches.
  unfoldable pub kind_matches : CondType → Condition → NetworkContext → Bool
  unfolding contains_ip
  kind_matches CondType.ssid c ctx = not (str_eq ctx.ssid "") && str_eq c.ssid ctx.ssid
  kind_matches CondType.wifi c ctx = not (str_eq ctx.ssid "")
  kind_matches CondType.subnet c ctx =
      in_network (parse_cidr (trim (codes c.subnet))) ctx.physical_ips
  kind_matches CondType.network c ctx =
      not (is_empty (canonical_mac (codes c.gateway_mac)))
      && same_text (canonical_mac (codes c.gateway_mac)) (canonical_mac (codes ctx.gateway_mac))
  kind_matches CondType.gateway_ip c ctx =
      same_ip (parse_ip (trim (codes c.gateway_ip))) (parse_ip (codes ctx.gateway_ip))
  kind_matches CondType.interface c ctx =
      if is_empty (trim (codes c.interface_name))
      then false
      else any (λ inf. equal_fold (codes inf.name) (trim (codes c.interface_name))) ctx.interfaces
  kind_matches CondType.ethernet c ctx = any (λ inf. not inf.is_wifi) ctx.interfaces
  kind_matches CondType.time c ctx = time_matches wall_clock c ctx.now
  kind_matches CondType.none_match c ctx = false
  kind_matches (CondType.unknown t) c ctx = false

  unfoldable pub condition_matches : Condition → NetworkContext → Bool
  unfolding kind_matches
  condition_matches c ctx = kind_matches c.kind c ctx

  unfoldable pub rule_matches_cond : Condition → NetworkContext → Bool
  unfolding condition_matches
  rule_matches_cond c ctx = if is_none_match c.kind then true else condition_matches c ctx

  -- Rule.matches
  unfoldable pub rule_matches : Rule → NetworkContext → Bool
  unfolding rule_matches_cond
  rule_matches r ctx = if is_empty r.when then false else all (λ c. rule_matches_cond c ctx) r.when
