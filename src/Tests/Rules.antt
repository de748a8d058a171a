-- ===== src/Tests/Rules.antt =====
-- Tests of the automation rules (internal/wifi), and each law at a concrete input.
use wireguide_plus.Common.{
  ◌+◌, ◌-◌, ◌%◌, ◌<◌, ◌≡◌, ◌↔◌, refl, List, [], ◌∷◌, ◌++◌, map, some, String, true, false, any,
  arith,
}
use wireguide_plus.Common.Text.{Text, codes, trim, atoi, split_pair, is_space}
use wireguide_plus.Common.Maps.{lookup, put}
use wireguide_plus.Common.Order.{sort}
use wireguide_plus.Wifi.Model.{
  Action, CondType, Condition, Rule, Automation, Moment, NetworkContext, Platform, DesiredState,
}
use wireguide_plus.Wifi.Clock.{at, parse_clock, day_listed, time_matches}
use wireguide_plus.Wifi.Mac.{canonical_mac}
use wireguide_plus.Wifi.Conditions.{
  same_text, validate_rule, rule_matches, rules_reference_ssid, ssid_undecidable,
}
use wireguide_plus.Wifi.Evaluate.{
  evaluate, evaluate_policy, evaluate_detail, evaluate_policy_detail, or_default,
}
use wireguide_plus.Wifi.Normalize.{normalize, policy_tunnel_names}
use wireguide_plus.Wifi.FirstMatch.{Decides, evaluate-Decides, fires}
use wireguide_plus.Wifi.Marking.{evaluate_detail_agrees}
use wireguide_plus.Wifi.Migration.{is_fallback, normalize_preserves}
use wireguide_plus.Wifi.Window.{time_matches_elapsed}

abbrev pub noon : Moment
noon = record { weekday = 3; hour = 12; minute = 0 }

-- Every CIDR reads as 10.0.0.0/8 and every address as 10.0.0.1.
abbrev pub sample : Platform
sample = record {
  parse_cidr = λ t. some (record { width = 32; addr = 0x0a000000; bits = 8 });
  parse_ip = λ t. some (record { width = 32; addr = 0x0a000001 });
  equal_fold = same_text;
  wall_clock = noon;
}

abbrev pub cond : CondType → String → Condition
cond kind ssid = record {
  kind = kind;
  ssid = ssid;
  subnet = "10.0.0.0/8";
  gateway_mac = "";
  gateway_ip = "";
  interface_name = "";
  start = "22:00";
  end = "06:00";
  days = [];
  label = "";
}

abbrev pub rule : Condition → Action → Rule
rule c a = record { when = c ∷ []; match = ""; action = a }

-- Down on the office network, up everywhere else.
abbrev pub office : List Rule
office =
    rule (cond CondType.ssid "corp") Action.disconnect
    ∷ rule (cond CondType.none_match "") Action.connect
    ∷ []

abbrev pub on_ssid : String → NetworkContext
on_ssid name = record {
  ssid = name;
  physical_ips = record { width = 32; addr = 0x0a000005 } ∷ [];
  gateway_mac = "";
  gateway_ip = "";
  interfaces = [];
  now = some noon;
}

abbrev pub stored : Automation
stored = record { defaults = ("home", Action.connect) ∷ []; per_tunnel = ("work", office) ∷ [] }

unfoldable pub rules : Unit {0}
unfolding or_default evaluate_policy_detail ssid_undecidable put sort evaluate evaluate_detail
    validate_rule rule_matches normalize policy_tunnel_names parse_clock trim is_space split_pair
    atoi canonical_mac time_matches lookup rules_reference_ssid evaluate_policy
rules = tt

office_evaluates : evaluate sample office (on_ssid "corp") ≡ DesiredState.disconnect
unfolding rules
office_evaluates = refl

evaluate_elsewhere : evaluate sample office (on_ssid "cafe") ≡ DesiredState.connect
unfolding rules
evaluate_elsewhere = refl

-- The Default State is in force for a tunnel with no rules.
default_without_rules :
    evaluate_policy sample [] Action.connect (on_ssid "cafe") ≡ DesiredState.connect
unfolding rules
default_without_rules = refl

clock_of_text : parse_clock " 06:30 " ≡ at 390
unfolding rules
clock_of_text = refl

evaluate-Decides_example :
    (evaluate sample office (on_ssid "corp") ≡ DesiredState.disconnect)
    ↔ Decides sample (on_ssid "corp") office DesiredState.disconnect
evaluate-Decides_example = evaluate-Decides sample (on_ssid "corp") office DesiredState.disconnect

evaluate_detail_agrees_example :
    ((evaluate_detail sample office (on_ssid "corp")).0 ≡ evaluate sample office (on_ssid "corp"))
    × (map (λ d. d.matched) (evaluate_detail sample office (on_ssid "corp")).1
        ≡ map (fires sample (on_ssid "corp")) office)
evaluate_detail_agrees_example = evaluate_detail_agrees sample (on_ssid "corp") office

abbrev by_subnet : List Rule
by_subnet = rule (cond CondType.subnet "") Action.connect ∷ []

normalize_preserves_example :
    (kept : List Rule) × (def : Action) × (lookup "work" (normalize sample stored).per_tunnel
      ≡ some kept)
    × (lookup "work" (normalize sample stored).defaults ≡ some def)
    × (any (is_fallback sample) kept ≡ false)
    × ((ctx : NetworkContext) → evaluate_policy sample kept def ctx ≡ evaluate sample office ctx)
unfolding rules
normalize_preserves_example = normalize_preserves sample stored "work" office refl refl refl

abbrev night : Moment
night = record { weekday = 6; hour = 23; minute = 30 }

time_matches_elapsed_example :
    (time_matches noon (cond CondType.time "") (some night) ≡ true)
    ↔ ((day_listed [] 6 ≡ true) × ((1410 + 1440 - 1320) % 1440 < (360 + 1440 - 1320) % 1440))
unfolding rules
time_matches_elapsed_example =
    time_matches_elapsed noon (cond CondType.time "") night refl refl (omega arith) (omega arith)

abbrev mac : Text
mac = codes "b038" ++ codes "6caabbcc"
