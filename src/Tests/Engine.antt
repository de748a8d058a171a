-- ===== src/Tests/Engine.antt =====
-- Tests of the automation engine (internal/helper), and each law at a concrete input.
use wireguide_plus.Common.{
  ◌≡◌, ◌↔◌, refl, List, [], ◌∷◌, some, String, true, false, str_eq, arith, str_eq_iff, ◌≢◌,
}
use wireguide_plus.Wifi.Model.{Action, CondType, Rule, DesiredState}
use wireguide_plus.Tests.Rules.{rules, sample, office, on_ssid, stored, rule, cond}
use wireguide_plus.Helper.Decision.{Verdict, DecisionEnv, evaluate_tunnel_decision, judge}
use wireguide_plus.Helper.Gates.{passes, wanted, connect_iff, disconnect_iff}
use wireguide_plus.Helper.State.{
  Helper, Settings, Reads, decide, decision_env, reconnect_blocked, is_paused, clear_backoff,
}
use wireguide_plus.Helper.Engine.{
  World, Outcome, reevaluate, engine_run, engine_step, act, settle_backoff, automation_connect,
  after_connect, add_name,
}
use wireguide_plus.Helper.Latches.{is_up, manual_off_stays_down, held_untouched}

abbrev free : Reads
free = record {
  automation_disabled = λ n. str_eq n "exempt";
  policy_block_for = λ n. "";
  dns_path_blocked = λ n. false;
  strip_cidr = λ a. a;
}

abbrev idle : Helper
idle = record { conflict_paused = []; backoffs = []; active = []; auto_connected_by = [] }

abbrev up : Helper
up = record idle { active = "work" ∷ [] }

abbrev settings : Settings
settings = record {
  automation = some stored;
  manual_off_tunnels = "home" ∷ [];
  manual_on_tunnels = [];
}

abbrev all_connect : World
all_connect = record { connect = λ n. Outcome.connected; disconnect_succeeds = λ n. true }

abbrev env : DecisionEnv
env = record {
  name = "work";
  has_policy = true;
  rules = office;
  default = Action.other "";
  ctx = on_ssid "cafe";
  network_known = true;
  ssid_blind = false;
  exempted = false;
  paused = false;
  manual_off = false;
  manual_on = false;
  active = false;
  backing_off = false;
  policy_block = "";
  dns_block = false;
}

engine : Unit {0}
unfolding rules evaluate_tunnel_decision judge decide decision_env reevaluate engine_run engine_step
    act reconnect_blocked settle_backoff clear_backoff automation_connect after_connect add_name
engine = tt

elsewhere_decides :
    (decide sample free idle "work" settings (on_ssid "cafe") 0).action ≡ Verdict.connect
unfolding engine
elsewhere_decides = refl

office_decides :
    (decide sample free up "work" settings (on_ssid "corp") 0).action ≡ Verdict.disconnect
unfolding engine
office_decides = refl

connect_iff_example : ((evaluate_tunnel_decision sample env).action ≡ Verdict.connect) ↔ (
    (passes sample env ≡ true)
    × (wanted sample env ≡ DesiredState.connect)
    × (env.manual_off ≡ false)
    × (env.active ≡ false)
    × (env.policy_block ≡ "")
    × (env.dns_block ≡ false)
    × (env.backing_off ≡ false))
connect_iff_example = connect_iff sample env

disconnect_iff_example : ((evaluate_tunnel_decision sample env).action ≡ Verdict.disconnect) ↔ (
    (passes sample env ≡ true)
    × (wanted sample env ≡ DesiredState.disconnect)
    × (env.manual_on ≡ false)
    × (env.active ≡ true))
disconnect_iff_example = disconnect_iff sample env

abbrev at_office : Rule
at_office = rule (cond CondType.ssid "corp") Action.disconnect

abbrev elsewhere : List Rule
elsewhere = rule (cond CondType.none_match "") Action.connect ∷ []

work_named : ◌≢◌ {A = String} "work" ""
work_named = ground (arith, str_eq_iff "work" "")

manual_off_stays_down_example :
    is_up (reevaluate sample free all_connect settings (on_ssid "cafe") 0 false idle) "home" ≡ false
manual_off_stays_down_example =
    manual_off_stays_down sample free all_connect settings (on_ssid "cafe") 0 false idle "home" refl
      refl

held_untouched_example :
    is_up (reevaluate sample free all_connect settings (on_ssid "cafe") 0 false idle) "exempt"
    ≡ is_up idle "exempt"
unfolding is_paused
held_untouched_example =
    held_untouched sample free all_connect settings (on_ssid "cafe") 0 false idle "exempt" refl

-- Elsewhere the engine brings the tunnel up.
work_goes_up :
    is_up (reevaluate sample free all_connect settings (on_ssid "cafe") 0 false idle) "work" ≡ true
unfolding engine
work_goes_up = refl
