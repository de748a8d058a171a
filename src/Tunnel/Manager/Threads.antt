-- ===== src/Tunnel/Manager/Threads.antt =====
-- Connects and disconnects of a Manager (internal/tunnel/manager.go) that run at the same time.
use wireguide_plus.Common.{ℕ, List, [], ◌∷◌, Option, none, some, Bool, String, ◌≡◌}
use wireguide_plus.Common.Text.{Text}
use wireguide_plus.Common.Maps.{lookup, put, remove}
use wireguide_plus.Config.Model.{WireGuardConfig}
use wireguide_plus.Tunnel.Manager.{
  TunnelState, TunnelEntry, Tunnels, ManagerError, Leaving, connect_begin, connect_end,
  connect_cancelled, disconnect_begin, disconnect_end,
}

-- A call that has released the lock to run its phases.
pub data Thread : Type 0 where
  connects : WireGuardConfig → Thread
  disconnects : Thread

pub record System : Type 0 where
  pub tunnels : Tunnels
  pub threads : List (String × Thread)

abbrev pub no_tunnels : System
no_tunnels = record { tunnels = []; threads = [] }

-- One of the locked parts of a connect or a disconnect of a tunnel.
pub data Event : Type 0 where
  begin_connect : String → WireGuardConfig → Event
  cancel_connect : String → Event
  end_connect : String → Option ℕ → Event
  begin_disconnect : Bool → Bool → String → Event
  end_disconnect : String → Event

abbrev pub begun_connect :
    String → WireGuardConfig → Option ManagerError → List (String × Thread) → List (String × Thread)
begun_connect name c none ts = put name (Thread.connects c) ts
begun_connect name c (some e) ts = ts

abbrev pub begun_disconnect : String → Leaving → List (String × Thread) → List (String × Thread)
begun_disconnect name Leaving.begun ts = put name Thread.disconnects ts
begun_disconnect name _ ts = ts

-- Only a call whose first part has run goes on.
abbrev pub cancelled : Option Thread → String → System → System
cancelled (some (Thread.connects c)) name s = record {
  tunnels = connect_cancelled name s.tunnels;
  threads = remove name s.threads;
}
cancelled _ name s = s

abbrev pub left : Option Thread → String → System → System
left (some Thread.disconnects) name s = record {
  tunnels = disconnect_end name s.tunnels;
  threads = remove name s.threads;
}
left _ name s = s

module _ (parse_cidr : Text → Option (ℕ × ℕ)) where
  abbrev pub made : Option Thread → String → Option ℕ → System → System
  made (some (Thread.connects c)) name engine s = record {
    tunnels = (connect_end parse_cidr name c engine s.tunnels).0;
    threads = remove name s.threads;
  }
  made _ name engine s = s

  unfoldable pub step : Event → System → System
  unfolding connect_begin connect_end connect_cancelled disconnect_begin disconnect_end
  step (Event.begin_connect name c) s =
      let r = connect_begin parse_cidr name c s.tunnels in
      record { tunnels = r.0; threads = begun_connect name c r.1 s.threads }
  step (Event.cancel_connect name) s = cancelled (lookup name s.threads) name s
  step (Event.end_connect name engine) s = made (lookup name s.threads) name engine s
  step (Event.begin_disconnect waited late name) s =
      let r = disconnect_begin waited late name s.tunnels in
      record { tunnels = r.0; threads = begun_disconnect name r.1 s.threads }
  step (Event.end_disconnect name) s = left (lookup name s.threads) name s

  -- After some events, the last one first.
  unfoldable pub run : List Event → System → System
  unfolding step
  run [] s = s
  run (e ∷ es) s = step e (run es s)

-- What the entry of a tunnel and the calls that run for it have to do with each other.
pub data Agrees : Option TunnelEntry → Option Thread → Type 0 where
  idle : Agrees none none
  up :
      {e : TunnelEntry} (engine : ℕ)
      → e.state ≡ TunnelState.connected
      → e.engine ≡ some engine
      → Agrees (some e) none
  coming :
      {e : TunnelEntry} {c : WireGuardConfig}
      → e.state ≡ TunnelState.connecting
      → e.cfg ≡ some c
      → Agrees (some e) (some (Thread.connects c))
  going :
      {e : TunnelEntry}
      → e.state ≡ TunnelState.disconnecting
      → Agrees (some e) (some Thread.disconnects)

unfoldable pub Consistent : System → Type 0
Consistent s = (n : String) → Agrees (lookup n s.tunnels) (lookup n s.threads)
