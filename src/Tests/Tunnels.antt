-- ===== src/Tests/Tunnels.antt =====
-- Tests of the tunnel manager (internal/tunnel), and each law at a concrete input.
use wireguide_plus.Common.{
  ℕ, ◌≡◌, refl, List, [], ◌∷◌, Option, some, String, true, false, if◌then◌else◌,
}
use wireguide_plus.Common.Int.{pos}
use wireguide_plus.Common.Text.{Text, codes, text_eq}
use wireguide_plus.Common.Maps.{lookup, put, remove}
use wireguide_plus.Config.Model.{WireGuardConfig, empty_interface, empty_peer, empty_config}
use wireguide_plus.Config.Accessors.{is_full_tunnel_config, all_allowed_ips}
use wireguide_plus.Tunnel.Trace.{ErrorKind, Call, Log, finished, failed, after}
use wireguide_plus.Tunnel.Phases.{World, connect_phases, disconnect_phases}
use wireguide_plus.Tunnel.Plan.{Connected, connect_phases-Connected}
use wireguide_plus.Tunnel.Release.{held, no_hold}
use wireguide_plus.Tunnel.Rollback.{failed_connect_releases}
use wireguide_plus.Tunnel.Disconnect.{disconnect_releases}
use wireguide_plus.Tunnel.Manager.{
  ManagerError, Leaving, Connected as Established, connect_begin, connect_end, disconnect_begin,
}
use wireguide_plus.Tunnel.Manager.Threads.{Event, run, no_tunnels}
use wireguide_plus.Tunnel.Manager.Races.{race_unreachable}
use wireguide_plus.Tunnel.Manager.Exclusive.{one_full_tunnel, is_serial}

abbrev working : World
working = record {
  creates = true;
  sets_mtu = true;
  assigns_address = true;
  brings_up = true;
  protects = true;
  starts = true;
  adds_routes = true;
  sets_dns = true;
  removes_routes = true;
  disables_protection = true;
  cleans_up = true;
  saves_checkpoint = true;
  saves_state = true;
  clears_state = true;
  cancelled_at = λ n. false;
  has_protector = true;
  binds_interface = false;
  has_snapshot = true;
}

-- SetDNS fails, and RemoveRoutes in the rollback.
abbrev no_dns : World
no_dns = record working { sets_dns = false; removes_routes = false }

abbrev config : WireGuardConfig
config = record empty_config {
  interface = record empty_interface { dns = codes "1.1.1.1" ∷ []; mtu = pos 1420 };
  peers = record empty_peer { allowed_ips = codes "0.0.0.0/0" ∷ [] } ∷ [];
}

-- The calls up to the routes, the last one first.
abbrev routed : Log
routed =
    Call.add_routes (codes "0.0.0.0/0" ∷ []) true [] []
    ∷ Call.start_engine
    ∷ Call.enable_protection
    ∷ Call.bring_up
    ∷ Call.assign_address []
    ∷ Call.set_mtu (pos 1420)
    ∷ Call.create_engine
    ∷ []

-- With the DNS settings.
abbrev connected : Log
connected =
    Call.save_state
    ∷ Call.capture_snapshot
    ∷ Call.set_dns (codes "1.1.1.1" ∷ [])
    ∷ Call.save_checkpoint
    ∷ routed

abbrev rolled_back : Log
rolled_back =
    Call.close_engine
    ∷ Call.cleanup
    ∷ Call.disable_protection
    ∷ Call.remove_routes (codes "0.0.0.0/0" ∷ []) true
    ∷ Call.set_dns (codes "1.1.1.1" ∷ [])
    ∷ Call.save_checkpoint
    ∷ routed

connect_succeeds : connect_phases working config true [] [] ≡ finished connected
unfolding connect_phases all_allowed_ips
connect_succeeds = refl

dns_fails : connect_phases no_dns config true [] [] ≡ failed ErrorKind.network rolled_back
unfolding connect_phases all_allowed_ips
dns_fails = refl

connect_phases-Connected_example :
    Connected working config true [] (connect_phases working config true [] [])
connect_phases-Connected_example = connect_phases-Connected working config true []

-- The routes and the file for the recovery stay behind.
failed_connect_releases_example :
    held no_dns rolled_back ≡ record no_hold { routes = true; file = true }
failed_connect_releases_example =
    failed_connect_releases no_dns config true [] ErrorKind.network rolled_back dns_fails

-- The network state stays behind while another tunnel has DNS servers.
disconnect_releases_example :
    held working (
      after
        (disconnect_phases working config true [] true (codes "9.9.9.9" ∷ []) true true)
        connected)
    ≡ record no_hold { network = true }
disconnect_releases_example =
    disconnect_releases working config true [] connected true (codes "9.9.9.9" ∷ []) true true
      connect_succeeds

abbrev parse_cidr : Text → Option (ℕ × ℕ)
parse_cidr s = if text_eq s (codes "0.0.0.0/0") then some (0, 32) else some (24, 32)

-- One tunnel has connected and another one is on its way.
abbrev events : List Event
events =
    Event.begin_connect "b" empty_config
    ∷ Event.end_connect "a" (some 1)
    ∷ Event.begin_connect "a" config
    ∷ []

rival_refused :
    (connect_begin parse_cidr "c" config (run parse_cidr events no_tunnels).tunnels).1
    ≡ some ManagerError.full_tunnel_conflict
unfolding connect_begin run lookup put remove is_full_tunnel_config
rival_refused = refl

race_unreachable_example :
    ((connect_end parse_cidr "b" empty_config (some 2) (run parse_cidr events no_tunnels).tunnels).1
      ≡ Established.established)
    × ((disconnect_begin true true "b" (run parse_cidr events no_tunnels).tunnels).1
        ≡ Leaving.refused ManagerError.timeout)
unfolding run lookup put remove is_full_tunnel_config
race_unreachable_example = race_unreachable parse_cidr events true true "b" empty_config 2 refl

one_full_tunnel_example : ◌≡◌ {A = String} "a" "a"
unfolding run lookup put remove is_full_tunnel_config is_serial
one_full_tunnel_example = one_full_tunnel parse_cidr events "a" "a" refl refl refl
