-- ===== src/Helper/Engine.antt =====
-- internal/helper/automation_rules.go: reevaluateAutomation, automationConnect and
-- disconnectAutoManaged. What an attempt to connect comes to is an argument, `World`.
use wireguide_plus.Common.{
  ℕ, List, [], ◌∷◌, none, some, String, Bool, ◌&&◌, ◌||◌, not, str_eq, if◌then◌else◌, is_empty, any,
}
use wireguide_plus.Common.Maps.{put, remove}
use wireguide_plus.Wifi.Model.{Automation, NetworkContext, Platform}
use wireguide_plus.Wifi.Normalize.{normalize, policy_tunnel_names}
use wireguide_plus.Helper.Decision.{Verdict}
use wireguide_plus.Helper.State.{
  Helper, Settings, Reads, is_paused, clear_backoff, record_failure, pause_for_conflict, decide,
}

-- How doConnectHeld ends: an address conflict carries the address and its holder.
pub data Outcome : Type 0 where
  no_config connected failed : Outcome
  conflict : String → String → Outcome

pub record World : Type 0 where
  pub connect : String → Outcome
  pub disconnect_succeeds : String → Bool

unfoldable pub add_name : String → List String → List String
add_name name names = if any (str_eq name) names then names else name ∷ names

unfoldable pub drop_name : String → List String → List String
drop_name name [] = []
drop_name name (n ∷ names) =
    if str_eq name n then drop_name name names else n ∷ drop_name name names

-- The end of automationConnect, after doConnectHeld.
unfoldable pub after_connect : Reads → Outcome → Helper → String → String → ℕ → Helper
after_connect rd no_config h name ssid now = h
after_connect rd failed h name ssid now = record_failure h name now
after_connect rd (conflict cidr holder) h name ssid now =
    (pause_for_conflict rd h name cidr holder "down").0
after_connect rd connected h name ssid now =
    let up = clear_backoff (record h { active = add_name name h.active }) name in
    record up { auto_connected_by = put name ssid up.auto_connected_by }

unfoldable pub automation_connect : Reads → World → Helper → String → String → ℕ → Helper
automation_connect rd w h name ssid now =
    if not (str_eq (rd.policy_block_for name) "")
    then h
    else if rd.dns_path_blocked name
    then h
    else after_connect rd (w.connect name) h name ssid now

unfoldable pub disconnect_auto_managed : World → Helper → String → Helper
disconnect_auto_managed w h name = record h {
  active = if w.disconnect_succeeds name then drop_name name h.active else h.active;
  auto_connected_by = remove name h.auto_connected_by;
}

-- The switch on the decision's action.
unfoldable pub act : Reads → World → Verdict → Helper → String → String → ℕ → Helper
act rd w Verdict.connect h name ssid now = automation_connect rd w h name ssid now
act rd w Verdict.disconnect h name ssid now = disconnect_auto_managed w h name
act rd w _ h name ssid now = h

module _ (p : Platform) (rd : Reads) (w : World) (s : Settings) (ctx : NetworkContext) (now : ℕ)
    (ssid_changed : Bool) (was_active : List String) where
  -- A back-off is over once the tunnel is up, the user has taken over or the SSID changed.
  unfoldable pub settle_backoff : Helper → String → Helper
  settle_backoff h name =
      if any (str_eq name) was_active
        || any (str_eq name) s.manual_off_tunnels
        || any (str_eq name) s.manual_on_tunnels
        || ssid_changed
      then clear_backoff h name
      else h

  -- One round of the loop over the tunnels.
  unfoldable pub engine_step : Helper → String → Helper
  engine_step h name =
      if rd.automation_disabled name
      then h
      else if is_paused h name
      then h
      else let h' = settle_backoff h name in
        act rd w (decide p rd h' name s ctx now).action h' name ctx.ssid now

  unfoldable pub engine_run : Helper → List String → Helper
  engine_run h [] = h
  engine_run h (name ∷ names) = engine_run (engine_step h name) names

-- EnsureAutomation: an absent rule set is an empty one.
abbrev pub ensure_automation : Platform → Settings → Automation
ensure_automation p s = elim s.automation [
  | none ↦ normalize p (record { defaults = []; per_tunnel = [] })
  | some a ↦ normalize p a
]

-- reevaluateAutomation with readable settings. On an unidentified network nothing is evaluated.
unfoldable pub reevaluate :
    Platform → Reads → World → Settings → NetworkContext → ℕ → Bool → Helper → Helper
reevaluate p rd w s ctx now ssid_changed h =
    let a = ensure_automation p s in
    if is_empty a.per_tunnel && is_empty a.defaults
    then h
    else if str_eq ctx.ssid "" && is_empty ctx.physical_ips
    then h
    else engine_run p rd w (record s { automation = some a }) ctx now ssid_changed h.active h
        (policy_tunnel_names a)
