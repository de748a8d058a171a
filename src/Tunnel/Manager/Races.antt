-- ===== src/Tunnel/Manager/Races.antt =====
-- What connects and disconnects that run at the same time (internal/tunnel/manager.go) can meet.
use mathlib.Core.Path.{subst}
use wireguide_plus.Common.{
  ℕ, List, Option, none, some, Bool, true, false, String, ◌≡◌, ◌≢◌, refl, if◌then◌else◌,
}
use wireguide_plus.Common.Text.{Text}
use wireguide_plus.Common.Maps.{lookup}
use wireguide_plus.Config.Model.{WireGuardConfig}
use wireguide_plus.Tunnel.Manager.{
  TunnelEntry, Tunnels, ManagerError, entry_or_new, Connected, Leaving, establish, connect_end,
  disconnect_if, disconnect_begin,
}
use wireguide_plus.Tunnel.Manager.Threads.{
  Thread, no_tunnels, Event, run, Agrees, idle, up, coming, going, Consistent,
}
use wireguide_plus.Tunnel.Manager.Agreement.{run-Consistent}

module _ (parse_cidr : Text → Option (ℕ × ℕ)) where
  coming-established :
      (waited late : Bool) (o : Option TunnelEntry) (name : String) (c : WireGuardConfig)
      (engine : ℕ) (m : Tunnels)
      → Agrees o (some (Thread.connects c))
      → ((establish parse_cidr (entry_or_new o) name c engine m).1 ≡ Connected.established)
        × ((disconnect_if waited late o name m).1
            ≡ (if late then Leaving.refused ManagerError.timeout else Leaving.waits))
  coming-established waited late none name c engine m a = elim a [ ]
  coming-established waited true (some e) name c engine m (coming p q) = rw p (refl, refl)
  coming-established waited false (some e) name c engine m (coming p q) = rw p (refl, refl)

  -- Whatever connects and disconnects run at the same time: a connect whose phases succeed always
  -- establishes its tunnel, the branch for a state that changed in the meantime is never taken; and a
  -- disconnect of the tunnel waits for it, or gives up with a timeout when it has waited too long.
  pub race_unreachable :
      (es : List Event) (waited late : Bool) (name : String) (c : WireGuardConfig) (engine : ℕ)
      → lookup name (run parse_cidr es no_tunnels).threads ≡ some (Thread.connects c)
      → ((connect_end parse_cidr name c (some engine) (run parse_cidr es no_tunnels).tunnels).1
          ≡ Connected.established)
        × ((disconnect_begin waited late name (run parse_cidr es no_tunnels).tunnels).1
            ≡ (if late then Leaving.refused ManagerError.timeout else Leaving.waits))
  unfolding connect_end disconnect_begin Consistent
  race_unreachable es waited late name c engine h =
      let s = run parse_cidr es no_tunnels in
      coming-established waited late (lookup name s.tunnels) name c engine s.tunnels
        (subst (Agrees (lookup name s.tunnels)) h (run-Consistent parse_cidr es name))

  agrees-leaving :
      (waited late : Bool) (o : Option TunnelEntry) (t : Option Thread) (name : String)
      (m : Tunnels)
      → Agrees o t
      → (disconnect_if waited late o name m).1 ≢ Leaving.refused ManagerError.state_corrupt
  agrees-leaving true late none none name m idle = λ h. cc
  agrees-leaving false late none none name m idle = λ h. cc
  agrees-leaving waited late none (some t) name m a = elim a [ ]
  agrees-leaving waited late (some e) none name m (up engine p q) = rw (p, q) (λ h. cc)
  agrees-leaving waited true (some e) (some (Thread.connects c)) name m (coming p q) =
      rw p (λ h. cc)
  agrees-leaving waited false (some e) (some (Thread.connects c)) name m (coming p q) =
      rw p (λ h. cc)
  agrees-leaving waited true (some e) (some Thread.disconnects) name m (going p) = rw p (λ h. cc)
  agrees-leaving waited false (some e) (some Thread.disconnects) name m (going p) = rw p (λ h. cc)

  -- A disconnect never finds a connected tunnel without an engine.
  pub disconnect_finds_engine :
      (es : List Event) (waited late : Bool) (name : String)
      → (disconnect_begin waited late name (run parse_cidr es no_tunnels).tunnels).1
        ≢ Leaving.refused ManagerError.state_corrupt
  unfolding disconnect_begin Consistent
  disconnect_finds_engine es waited late name =
      let s = run parse_cidr es no_tunnels in
      agrees-leaving waited late (lookup name s.tunnels) (lookup name s.threads) name s.tunnels
        (run-Consistent parse_cidr es name)
