-- ===== src/Tunnel/Manager/Shrinks.antt =====
-- The active full tunnels of a Manager (internal/tunnel/manager.go) after the parts of a connect or a
-- disconnect.
use wireguide_plus.Common.{
  ℕ, List, Option, none, some, Bool, true, false, ◌&&◌, ◌||◌, String, str_eq, str_eq_iff,
  if◌then◌else◌, ◌≡◌, refl, sym, ap, ◌∙◌, Bool-cases, Option-cases, inl, inr,
}
use wireguide_plus.Common.Text.{Text}
use wireguide_plus.Common.Maps.{lookup, put, remove, lookup-put, lookup-remove}
use wireguide_plus.Config.Model.{WireGuardConfig}
use wireguide_plus.Tunnel.Manager.{
  TunnelEntry, entry_or_new, is_connected, is_connecting, is_disconnecting, is_full, establish,
  connect_end, connect_cancelled, disconnect_if, disconnect_end,
}
use wireguide_plus.Tunnel.Manager.Threads.{Thread, System, Agrees, cancelled, left, made, coming}

module _ (parse_cidr : Text → Option (ℕ × ℕ)) where
  -- A tunnel that is connected or connecting and routes all traffic.
  abbrev pub is_full_active : Option TunnelEntry → Bool
  is_full_active none = false
  is_full_active (some e) =
      (is_connected e.state || is_connecting e.state) && is_full parse_cidr e.cfg

  unfoldable pub IsExclusive : System → Type 0
  IsExclusive s =
      (n m : String)
      → is_full_active (lookup n s.tunnels) ≡ true
      → is_full_active (lookup m s.tunnels) ≡ true
      → n ≡ m

  -- Every full tunnel that is active was so before.
  pub record Shrinks (s r : System) : Type 0 where
    active :
        (n : String)
        → is_full_active (lookup n r.tunnels) ≡ true
        → is_full_active (lookup n s.tunnels) ≡ true

  pub Shrinks-IsExclusive : {s r : System} → Shrinks s r → IsExclusive s → IsExclusive r
  unfolding IsExclusive
  Shrinks-IsExclusive k h n m p q = h n m (k.active n p) (k.active m q)

  outside :
      (b : Bool) (o : Option TunnelEntry)
      → is_full_active (if b then none else o) ≡ true
      → is_full_active o ≡ true
  outside true o h = cc
  outside false o h = h

  pub removed-Shrinks :
      (name : String) (s : System) (ts : List (String × Thread))
      → Shrinks s (record { tunnels = remove name s.tunnels; threads = ts })
  removed-Shrinks name s ts = record {
    active = λ n h.
        outside (str_eq name n) (lookup n s.tunnels)
          (ap is_full_active (sym (lookup-remove name n s.tunnels)) ∙ h);
  }

  pub put-Shrinks :
      (name : String) (e : TunnelEntry) (s : System) (ts : List (String × Thread))
      → (is_full_active (some e) ≡ true → is_full_active (lookup name s.tunnels) ≡ true)
      → Shrinks s (record { tunnels = put name e s.tunnels; threads = ts })
  put-Shrinks name e s ts k = record {
    active = λ n h.
        let g = ap is_full_active (sym (lookup-put name n e s.tunnels)) ∙ h in
        elim (Bool-cases (str_eq name n)) [
          | inl d ↦
              ap (λ j. is_full_active (lookup j s.tunnels)) (sym ((str_eq_iff name n).0 d))
              ∙ k (ap (λ b. is_full_active (if b then some e else lookup n s.tunnels)) (sym d) ∙ g)
          | inr d ↦ ap (λ b. is_full_active (if b then some e else lookup n s.tunnels)) (sym d) ∙ g
        ];
  }

  same-Shrinks :
      (s : System) (ts : List (String × Thread))
      → Shrinks s (record { tunnels = s.tunnels; threads = ts })
  same-Shrinks s ts = record { active = λ n h. h }

  pub cancelled-Shrinks :
      (t : Option Thread) (name : String) (s : System) → Shrinks s (cancelled t name s)
  unfolding connect_cancelled
  cancelled-Shrinks (some (Thread.connects c)) name s = removed-Shrinks name s _
  cancelled-Shrinks (some Thread.disconnects) name s = same-Shrinks s s.threads
  cancelled-Shrinks none name s = same-Shrinks s s.threads

  pub left-Shrinks : (t : Option Thread) (name : String) (s : System) → Shrinks s (left t name s)
  unfolding disconnect_end
  left-Shrinks (some Thread.disconnects) name s = removed-Shrinks name s _
  left-Shrinks (some (Thread.connects c)) name s = same-Shrinks s s.threads
  left-Shrinks none name s = same-Shrinks s s.threads

  pub leaving-Shrinks :
      (waited late : Bool) (o : Option TunnelEntry) (name : String) (s : System)
      (ts : List (String × Thread))
      → Shrinks s
          (record { tunnels = (disconnect_if waited late o name s.tunnels).0; threads = ts })
  leaving-Shrinks true late none name s ts = same-Shrinks s ts
  leaving-Shrinks false late none name s ts = same-Shrinks s ts
  leaving-Shrinks waited late (some e) name s ts =
      elim (Bool-cases (is_connecting e.state || is_disconnecting e.state)) [
        | inl a ↦ rw a (same-Shrinks s ts)
        | inr a ↦ elim (Bool-cases (is_connected e.state)) [
          | inl b ↦ elim (Option-cases e.engine) [
            | inl c ↦ rw (a, b, c) (removed-Shrinks name s ts)
            | inr (x, c) ↦ rw (a, b, c) (put-Shrinks name _ s ts (λ h. cc))
          ]
          | inr b ↦ rw (a, b) (same-Shrinks s ts)
        ]
      ]

  established-Shrinks :
      (o : Option TunnelEntry) (name : String) (c : WireGuardConfig) (engine : ℕ) (s : System)
      (ts : List (String × Thread))
      → lookup name s.tunnels ≡ o
      → Agrees o (some (Thread.connects c))
      → Shrinks s (record {
        tunnels = (establish parse_cidr (entry_or_new o) name c engine s.tunnels).0;
        threads = ts;
      })
  established-Shrinks none name c engine s ts l a = elim a [ ]
  established-Shrinks (some e) name c engine s ts l (coming p q) =
      rw p (put-Shrinks name _ s ts (λ h. rw (l, p, q) (ap (is_full parse_cidr) (sym q) ∙ h)))

  pub made-Shrinks :
      (t : Option Thread) (name : String) (engine : Option ℕ) (s : System)
      → Agrees (lookup name s.tunnels) t
      → Shrinks s (made parse_cidr t name engine s)
  unfolding connect_end
  made-Shrinks (some (Thread.connects c)) name none s a = removed-Shrinks name s _
  made-Shrinks (some (Thread.connects c)) name (some engine) s a =
      established-Shrinks (lookup name s.tunnels) name c engine s _ refl a
  made-Shrinks (some Thread.disconnects) name engine s a = same-Shrinks s s.threads
  made-Shrinks none name engine s a = same-Shrinks s s.threads
