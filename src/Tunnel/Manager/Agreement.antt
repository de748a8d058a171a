-- ===== src/Tunnel/Manager/Agreement.antt =====
-- The entries of a Manager (internal/tunnel/manager.go) beside the calls that run, one locked part after
-- the other.
use wireguide_plus.Common.{
  ℕ, List, [], ◌∷◌, Option, none, some, Bool, true, false, ◌&&◌, String, str_eq, any, if◌then◌else◌,
  ◌≡◌, refl, Bool-cases, inl, inr,
}
use wireguide_plus.Common.Text.{Text}
use wireguide_plus.Common.Maps.{lookup, put, remove, lookup-put, lookup-remove}
use wireguide_plus.Config.Model.{WireGuardConfig}
use wireguide_plus.Tunnel.Manager.{
  TunnelEntry, ManagerError, entry_or_new, refusal, is_full, is_rival, connect_if, establish,
  connect_begin, connect_end, connect_cancelled, disconnect_if, disconnect_begin, disconnect_end,
}
use wireguide_plus.Tunnel.Manager.Threads.{
  Thread, System, no_tunnels, Event, begun_connect, begun_disconnect, cancelled, left, made, step,
  run, Agrees, idle, up, coming, going, Consistent,
}

-- A system that differs from another one at one tunnel only.
record Differs (name : String) (o : Option TunnelEntry) (t : Option Thread) (s r : System)
    : Type 0 where
  tunnel : (j : String) → lookup j r.tunnels ≡ (if str_eq name j then o else lookup j s.tunnels)
  thread : (j : String) → lookup j r.threads ≡ (if str_eq name j then t else lookup j s.threads)

Differs-Consistent :
    (name : String) (o : Option TunnelEntry) (t : Option Thread) (s : System) {r : System}
    → Differs name o t s r
    → Agrees o t
    → Consistent s
    → Consistent r
unfolding Consistent
Differs-Consistent name o t s d a h n =
    rw (d.tunnel n, d.thread n)
      (elim (Bool-cases (str_eq name n)) [ inl e ↦ rw e a | inr e ↦ rw e (h n) ])

removed-Consistent :
    (name : String) (s : System)
    → Consistent s
    → Consistent (record { tunnels = remove name s.tunnels; threads = remove name s.threads })
removed-Consistent name s h =
    Differs-Consistent name none none s
      (record {
        tunnel = λ j. lookup-remove name j s.tunnels;
        thread = λ j. lookup-remove name j s.threads;
      })
      idle h

put-Consistent :
    (name : String) (e : TunnelEntry) (t : Thread) (s : System)
    → Agrees (some e) (some t)
    → Consistent s
    → Consistent (record { tunnels = put name e s.tunnels; threads = put name t s.threads })
put-Consistent name e t s a h =
    Differs-Consistent name (some e) (some t) s
      (record {
        tunnel = λ j. lookup-put name j e s.tunnels;
        thread = λ j. lookup-put name j t s.threads;
      })
      a h

landed-Consistent :
    (name : String) (e : TunnelEntry) (s : System)
    → Agrees (some e) none
    → Consistent s
    → Consistent (record { tunnels = put name e s.tunnels; threads = remove name s.threads })
landed-Consistent name e s a h =
    Differs-Consistent name (some e) none s
      (record {
        tunnel = λ j. lookup-put name j e s.tunnels;
        thread = λ j. lookup-remove name j s.threads;
      })
      a h

cancelled-Consistent :
    (t : Option Thread) (name : String) (s : System)
    → Consistent s
    → Consistent (cancelled t name s)
unfolding connect_cancelled
cancelled-Consistent (some (Thread.connects c)) name s h = removed-Consistent name s h
cancelled-Consistent (some Thread.disconnects) name s h = h
cancelled-Consistent none name s h = h

left-Consistent :
    (t : Option Thread) (name : String) (s : System) → Consistent s → Consistent (left t name s)
unfolding disconnect_end
left-Consistent (some Thread.disconnects) name s h = removed-Consistent name s h
left-Consistent (some (Thread.connects c)) name s h = h
left-Consistent none name s h = h

leaving-Consistent :
    (waited late : Bool) (o : Option TunnelEntry) (t : Option Thread) (name : String) (s : System)
    → Agrees o t
    → Consistent s
    → Consistent (record {
      tunnels = (disconnect_if waited late o name s.tunnels).0;
      threads = begun_disconnect name (disconnect_if waited late o name s.tunnels).1 s.threads;
    })
leaving-Consistent true late none none name s idle h = h
leaving-Consistent false late none none name s idle h = h
leaving-Consistent waited late none (some t) name s a h = elim a [ ]
leaving-Consistent waited late (some e) none name s (up engine p q) h =
    rw (p, q) (put-Consistent name _ Thread.disconnects s (going refl) h)
leaving-Consistent waited true (some e) (some (Thread.connects c)) name s (coming p q) h = rw p h
leaving-Consistent waited false (some e) (some (Thread.connects c)) name s (coming p q) h = rw p h
leaving-Consistent waited true (some e) (some Thread.disconnects) name s (going p) h = rw p h
leaving-Consistent waited false (some e) (some Thread.disconnects) name s (going p) h = rw p h

module _ (parse_cidr : Text → Option (ℕ × ℕ)) where
  begun-Consistent :
      (x : Option ManagerError) (name : String) (c : WireGuardConfig) (s : System)
      → Consistent s
      → Consistent (record {
        tunnels = (connect_if parse_cidr x name c s.tunnels).0;
        threads = begun_connect name c (connect_if parse_cidr x name c s.tunnels).1 s.threads;
      })
  begun-Consistent (some x) name c s h = h
  begun-Consistent none name c s h =
      elim (Bool-cases (is_full parse_cidr (some c) && any (is_rival parse_cidr name) s.tunnels)) [
        | inl f ↦ rw f h
        | inr f ↦ rw f (put-Consistent name _ (Thread.connects c) s (coming refl refl) h)
      ]

  established-Consistent :
      (o : Option TunnelEntry) (name : String) (c : WireGuardConfig) (engine : ℕ) (s : System)
      → Agrees o (some (Thread.connects c))
      → Consistent s
      → Consistent (record {
        tunnels = (establish parse_cidr (entry_or_new o) name c engine s.tunnels).0;
        threads = remove name s.threads;
      })
  established-Consistent none name c engine s a h = elim a [ ]
  established-Consistent (some e) name c engine s (coming p q) h =
      rw p (landed-Consistent name _ s (up engine refl refl) h)

  made-Consistent :
      (t : Option Thread) (name : String) (engine : Option ℕ) (s : System)
      → Agrees (lookup name s.tunnels) t
      → Consistent s
      → Consistent (made parse_cidr t name engine s)
  unfolding connect_end
  made-Consistent (some (Thread.connects c)) name none s a h = removed-Consistent name s h
  made-Consistent (some (Thread.connects c)) name (some engine) s a h =
      established-Consistent (lookup name s.tunnels) name c engine s a h
  made-Consistent (some Thread.disconnects) name engine s a h = h
  made-Consistent none name engine s a h = h

  pub step-Consistent : (e : Event) (s : System) → Consistent s → Consistent (step parse_cidr e s)
  unfolding step connect_begin disconnect_begin Consistent
  step-Consistent (Event.begin_connect name c) s h =
      begun-Consistent (refusal (lookup name s.tunnels)) name c s h
  step-Consistent (Event.cancel_connect name) s h =
      cancelled-Consistent (lookup name s.threads) name s h
  step-Consistent (Event.end_connect name engine) s h =
      made-Consistent (lookup name s.threads) name engine s (h name) h
  step-Consistent (Event.begin_disconnect waited late name) s h =
      leaving-Consistent waited late (lookup name s.tunnels) (lookup name s.threads) name s (h name)
        h
  step-Consistent (Event.end_disconnect name) s h = left-Consistent (lookup name s.threads) name s h

  pub run-Consistent : (es : List Event) → Consistent (run parse_cidr es no_tunnels)
  unfolding run Consistent lookup
  run-Consistent [] n = idle
  run-Consistent (e ∷ es) n = step-Consistent e (run parse_cidr es no_tunnels) (run-Consistent es) n
