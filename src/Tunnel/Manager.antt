-- ===== src/Tunnel/Manager.antt =====
-- The tunnels of a Manager (internal/tunnel/manager.go): what a connect
-- and a disconnect do under its lock, before and after their phases, which run without it.
use wireguide_plus.Common.{
  ℕ, ◌+◌, ◌-◌, List, [], ◌∷◌, ◌++◌, Option, none, some, Bool, true, false, ◌&&◌, ◌||◌, not, ltb,
  leb, String, str_eq, any, if◌then◌else◌,
}
use wireguide_plus.Common.Text.{Text, text_eq}
use wireguide_plus.Common.Maps.{lookup, put, remove}
use wireguide_plus.Config.Model.{WireGuardConfig}
use wireguide_plus.Config.Accessors.{is_full_tunnel_config}
pub mod Threads
pub mod Agreement
pub mod Races
pub mod Shrinks
pub mod Exclusive

pub data TunnelState : Type 0 where
  disconnected connecting connected disconnecting error : TunnelState

-- An engine is a number.
pub record TunnelEntry : Type 0 where
  pub state : TunnelState
  pub engine : Option ℕ
  pub cfg : Option WireGuardConfig
  -- The time that it was up, the last time that was counted, and whether the count is frozen.
  pub healthy_accum : ℕ
  pub last_tick : Option ℕ
  pub paused : Bool
  -- Whether the loop watchdog and the monitor of the bound sockets run.
  pub watched : Bool

abbrev pub Tunnels : Type 0
Tunnels = List (String × TunnelEntry)

pub data ManagerError : Type 0 where
  cancelled already_connected transition_in_progress full_tunnel_conflict not_connected
        state_corrupt timeout phases_failed :
      ManagerError

abbrev pub new_entry : TunnelEntry
new_entry = record {
  state = TunnelState.disconnected;
  engine = none;
  cfg = none;
  healthy_accum = 0;
  last_tick = none;
  paused = false;
  watched = false;
}

abbrev pub entry_or_new : Option TunnelEntry → TunnelEntry
entry_or_new none = new_entry
entry_or_new (some e) = e

abbrev pub is_connected : TunnelState → Bool
is_connected TunnelState.connected = true
is_connected _ = false

abbrev pub is_connecting : TunnelState → Bool
is_connecting TunnelState.connecting = true
is_connecting _ = false

abbrev pub is_disconnecting : TunnelState → Bool
is_disconnecting TunnelState.disconnecting = true
is_disconnecting _ = false

-- The answer of an entry to a new connect, none if it may go on.
abbrev pub refusal : Option TunnelEntry → Option ManagerError
refusal none = none
refusal (some e) =
    if is_connected e.state
    then some ManagerError.already_connected
    else if is_connecting e.state || is_disconnecting e.state
    then some ManagerError.transition_in_progress
    else none

-- What the second part of a connect does: it goes on, or it cleans up after a state that changed.
pub data Connected : Type 0 where
  established : Connected
  aborted : ManagerError → Connected

-- What the first part of a disconnect does.
pub data Leaving : Type 0 where
  begun : Leaving
  waits : Leaving
  -- The tunnel went away while the call waited for it.
  gone : Leaving
  refused : ManagerError → Leaving

module _ (parse_cidr : Text → Option (ℕ × ℕ)) where
  abbrev pub is_full : Option WireGuardConfig → Bool
  is_full none = false
  is_full (some c) = is_full_tunnel_config parse_cidr c

  -- Another connected tunnel that routes all traffic.
  abbrev pub is_rival : String → String × TunnelEntry → Bool
  is_rival name t = not (str_eq t.0 name) && (is_connected t.1.state && is_full t.1.cfg)

  -- The entry that is connecting, unless the connect is refused or a full tunnel has a rival.
  abbrev pub connect_if :
      Option ManagerError → String → WireGuardConfig → Tunnels → Tunnels × Option ManagerError
  connect_if (some e) name c m = (m, some e)
  connect_if none name c m =
      if is_full (some c) && any (is_rival name) m
      then (m, some ManagerError.full_tunnel_conflict)
      else let e = entry_or_new (lookup name m) in
        (put name (record e { cfg = some c; state = TunnelState.connecting }) m, none)

  -- The first locked part of ConnectWithContext: an error, or the entry that is connecting.
  unfoldable pub connect_begin : String → WireGuardConfig → Tunnels → Tunnels × Option ManagerError
  connect_begin name c m = connect_if (refusal (lookup name m)) name c m

  -- The second locked part: `made` is the engine of connectPhases, none if it failed.
  abbrev pub establish : TunnelEntry → String → WireGuardConfig → ℕ → Tunnels → Tunnels × Connected
  establish e name c engine m =
      if not (is_connecting e.state)
      then (remove name m, Connected.aborted ManagerError.state_corrupt)
      else (
        put name
            (record e {
              engine = some engine;
              state = TunnelState.connected;
              healthy_accum = 0;
              last_tick = none;
              paused = false;
              watched = is_full (some c);
            })
            m,
        Connected.established,
      )

  unfoldable pub connect_end : String → WireGuardConfig → Option ℕ → Tunnels → Tunnels × Connected
  connect_end name c none m = (remove name m, Connected.aborted ManagerError.phases_failed)
  connect_end name c (some engine) m = establish (entry_or_new (lookup name m)) name c engine m

-- A connect whose context is cancelled before the phases.
unfoldable pub connect_cancelled : String → Tunnels → Tunnels
connect_cancelled name m = remove name m

abbrev pub leave_if : Option ℕ → String → TunnelEntry → Tunnels → Tunnels × Leaving
leave_if none name e m = (remove name m, Leaving.refused ManagerError.state_corrupt)
leave_if (some engine) name e m =
    (put name (record e { state = TunnelState.disconnecting; watched = false }) m, Leaving.begun)

-- `waited` says whether the call has waited before, and `late` whether its ten seconds are over.
abbrev pub disconnect_if : Bool → Bool → Option TunnelEntry → String → Tunnels → Tunnels × Leaving
disconnect_if true late none name m = (m, Leaving.gone)
disconnect_if false late none name m = (m, Leaving.refused ManagerError.not_connected)
disconnect_if waited late (some e) name m =
    if is_connecting e.state || is_disconnecting e.state
    then (m, if late then Leaving.refused ManagerError.timeout else Leaving.waits)
    else if not (is_connected e.state)
    then (m, Leaving.refused ManagerError.not_connected)
    else leave_if e.engine name e m

-- The first part of DisconnectTunnel, which waits while the tunnel is in a transition.
unfoldable pub disconnect_begin : Bool → Bool → String → Tunnels → Tunnels × Leaving
disconnect_begin waited late name m = disconnect_if waited late (lookup name m) name m

-- The second part, after disconnectPhases.
unfoldable pub disconnect_end : String → Tunnels → Tunnels
disconnect_end name m = remove name m
