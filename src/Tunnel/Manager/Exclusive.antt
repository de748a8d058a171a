-- ===== src/Tunnel/Manager/Exclusive.antt =====
-- The check of ConnectWithContext (internal/tunnel/manager.go) for other full tunnels, under the lock of the
-- helper for connects (connectMu in internal/helper).
use mathlib.Core.Path.{ap₂}
use wireguide_plus.Common.{
  ℕ, List, [], ◌∷◌, Option, none, some, Bool, true, false, ◌&&◌, not, String, str_eq, str_eq_iff,
  any, if◌then◌else◌, ◌≡◌, refl, sym, ap, ◌∙◌, Bool-cases, inl, inr, arith,
}
use wireguide_plus.Common.Text.{Text}
use wireguide_plus.Common.Maps.{lookup, put, lookup-put}
use wireguide_plus.Config.Model.{WireGuardConfig}
use wireguide_plus.Tunnel.Manager.{
  TunnelEntry, ManagerError, is_connected, is_connecting, refusal, is_full, is_rival, connect_if,
  connect_begin, disconnect_begin,
}
use wireguide_plus.Tunnel.Manager.Threads.{
  Thread, System, no_tunnels, Event, step, run, Agrees, Consistent, idle, up, coming, going,
}
use wireguide_plus.Tunnel.Manager.Shrinks.{
  is_full_active, IsExclusive, Shrinks-IsExclusive, put-Shrinks, cancelled-Shrinks, left-Shrinks,
  leaving-Shrinks, made-Shrinks,
}
use wireguide_plus.Tunnel.Manager.Agreement.{run-Consistent}

lookup-any :
    {V : Type 0} (p : String × V → Bool) (k : String) (v : V) (m : List (String × V))
    → lookup k m ≡ some v
    → p (k, v) ≡ true
    → any p m ≡ true
unfolding lookup
lookup-any p k v [] h q = cc
lookup-any p k v ((j, w) ∷ m) h q = elim (Bool-cases (str_eq j k)) [
  | inl e ↦
      let d : w ≡ v = ground (arith, e, h) in
      rw (ap₂ (λ a b. p (a, b)) ((str_eq_iff j k).0 e) d ∙ q) refl
  | inr e ↦ ground (arith, lookup-any p k v m (ground (arith, e, h)) q)
]

abbrev pub is_connects : String × Thread → Bool
is_connects (n, Thread.connects c) = true
is_connects (n, Thread.disconnects) = false

module _ (parse_cidr : Text → Option (ℕ × ℕ)) where
  -- No connect begins while another one runs.
  unfoldable pub is_serial : List Event → Bool
  is_serial [] = true
  is_serial (Event.begin_connect name c ∷ es) =
      not (any is_connects (run parse_cidr es no_tunnels).threads) && is_serial es
  is_serial (e ∷ es) = is_serial es

  -- Without a rival and without a connect that runs, no other full tunnel is active.
  no_other_full :
      (n name : String) (o : Option TunnelEntry) (t : Option Thread) (s : System)
      → lookup n s.tunnels ≡ o
      → lookup n s.threads ≡ t
      → Agrees o t
      → any is_connects s.threads ≡ false
      → any (is_rival parse_cidr name) s.tunnels ≡ false
      → is_full_active parse_cidr o ≡ true
      → n ≡ name
  no_other_full n name none none s l k idle f g h = cc
  no_other_full n name (some e) none s l k (up engine p q) f g h =
      let z = ap is_connected p in
      elim (Bool-cases (str_eq n name)) [
        | inl d ↦ (str_eq_iff n name).0 d
        | inr d ↦ ground (
          arith,
          g,
          lookup-any (is_rival parse_cidr name) n e s.tunnels l (ground (arith, d, z, h)),
        )
      ]
  no_other_full n name (some e) (some (Thread.connects c)) s l k (coming p q) f g h =
      ground (arith, f, lookup-any is_connects n (Thread.connects c) s.threads k refl)
  no_other_full n name (some e) (some Thread.disconnects) s l k (going p) f g h =
      let z = ap is_connected p in let y = ap is_connecting p in ground (arith, h, z, y)
  no_other_full n name none (some t) s l k a f g h = elim a [ ]

  none_active : IsExclusive parse_cidr no_tunnels
  unfolding IsExclusive lookup
  none_active n m p q = cc

  only_one :
      (name : String) (e : TunnelEntry) (s : System) (n : String)
      → Consistent s
      → any is_connects s.threads ≡ false
      → any (is_rival parse_cidr name) s.tunnels ≡ false
      → is_full_active parse_cidr (lookup n (put name e s.tunnels)) ≡ true
      → n ≡ name
  unfolding Consistent
  only_one name e s n a f g p = elim (Bool-cases (str_eq name n)) [
    | inl d ↦ sym ((str_eq_iff name n).0 d)
    | inr d ↦ no_other_full n name (lookup n s.tunnels) (lookup n s.threads) s refl refl (a n) f g (
        ap (λ b. is_full_active parse_cidr (if b then some e else lookup n s.tunnels)) (sym d)
        ∙ ap (is_full_active parse_cidr) (sym (lookup-put name n e s.tunnels))
        ∙ p)
  ]

  begun-IsExclusive :
      (x : Option ManagerError) (name : String) (c : WireGuardConfig) (s : System)
      (ts : List (String × Thread))
      → Consistent s
      → any is_connects s.threads ≡ false
      → IsExclusive parse_cidr s
      → IsExclusive parse_cidr
          (record { tunnels = (connect_if parse_cidr x name c s.tunnels).0; threads = ts })
  unfolding IsExclusive Consistent
  begun-IsExclusive (some x) name c s ts a f h = h
  begun-IsExclusive none name c s ts a f h = elim (Bool-cases (is_full parse_cidr (some c))) [
    | inl b ↦ elim (Bool-cases (any (is_rival parse_cidr name) s.tunnels)) [
      | inl g ↦ rw (b, g) h
      | inr g ↦
          rw (b, g) (λ n m p q. only_one name _ s n a f g p ∙ sym (only_one name _ s m a f g q))
    ]
    | inr b ↦ rw b (
        Shrinks-IsExclusive parse_cidr
          (put-Shrinks parse_cidr name _ s ts (λ k. ground (arith, b, k))) h)
  ]

  run-IsExclusive :
      (es : List Event)
      → is_serial es ≡ true
      → IsExclusive parse_cidr (run parse_cidr es no_tunnels)
  unfolding run step is_serial connect_begin disconnect_begin Consistent
  run-IsExclusive [] h = none_active
  run-IsExclusive (Event.begin_connect name c ∷ es) h =
      let s = run parse_cidr es no_tunnels in
      begun-IsExclusive (refusal (lookup name s.tunnels)) name c s _ (run-Consistent parse_cidr es)
        (ground (arith, h)) (run-IsExclusive es (ground (arith, h)))
  run-IsExclusive (Event.cancel_connect name ∷ es) h =
      let s = run parse_cidr es no_tunnels in
      Shrinks-IsExclusive parse_cidr (cancelled-Shrinks parse_cidr (lookup name s.threads) name s)
        (run-IsExclusive es h)
  run-IsExclusive (Event.end_connect name engine ∷ es) h =
      let s = run parse_cidr es no_tunnels in
      Shrinks-IsExclusive parse_cidr
        (made-Shrinks parse_cidr (lookup name s.threads) name engine s
          (run-Consistent parse_cidr es name))
        (run-IsExclusive es h)
  run-IsExclusive (Event.begin_disconnect waited late name ∷ es) h =
      let s = run parse_cidr es no_tunnels in
      Shrinks-IsExclusive parse_cidr
        (leaving-Shrinks parse_cidr waited late (lookup name s.tunnels) name s _)
        (run-IsExclusive es h)
  run-IsExclusive (Event.end_disconnect name ∷ es) h =
      let s = run parse_cidr es no_tunnels in
      Shrinks-IsExclusive parse_cidr (left-Shrinks parse_cidr (lookup name s.threads) name s)
        (run-IsExclusive es h)

  -- If no connect begins while another one runs, at most one full tunnel is connected or connecting, with
  -- any disconnects at any time.
  pub one_full_tunnel :
      (es : List Event) (n m : String)
      → is_serial es ≡ true
      → is_full_active parse_cidr (lookup n (run parse_cidr es no_tunnels).tunnels) ≡ true
      → is_full_active parse_cidr (lookup m (run parse_cidr es no_tunnels).tunnels) ≡ true
      → n ≡ m
  unfolding IsExclusive
  one_full_tunnel es n m h p q = run-IsExclusive es h n m p q
