-- ===== src/Tunnel/Disconnect.antt =====
-- A connect and the disconnect after it (internal/tunnel/connect_phases.go).
use mathlib.Core.List.{append-nil}
use wireguide_plus.Common.{
  ◌≡◌, refl, ap, sym, ◌∙◌, any, List, [], ◌∷◌, ◌++◌, Bool, true, false, ◌&&◌, not, is_empty, all,
  Bool-cases, inl, inr, if◌then◌else◌, arith,
}
use wireguide_plus.Common.Text.{Text}
use wireguide_plus.Config.Model.{WireGuardConfig}
use wireguide_plus.Config.Accessors.{Hook, all_allowed_ips}
use wireguide_plus.Tunnel.Trace.{Call, Log, Outcome, finished, after}
use wireguide_plus.Tunnel.Phases.{
  World, connect_phases, disconnect_phases, release_network, hook_call,
}
use wireguide_plus.Tunnel.Release.{
  Held, held, apply, opens, opened, enables, saves, adds, made, made-adds, made-configures,
  held-opened,
}
use wireguide_plus.Tunnel.Rollback.{after-opens, no_protection, and_false, finished-inj}
use wireguide_plus.Tunnel.Plan.{
  plan, Connected, no_engine, all_made, rolled_back, connect_phases-Connected,
}

kept : (a b : Bool) → b ≡ true → a && b ≡ a
kept true b h = h
kept false b h = refl

-- What is held after more calls, in order.
runs : World → Log → Held → Held
runs w [] h = h
runs w (c ∷ cs) h = runs w cs (apply w c h)

held-after : (w : World) (cs l : Log) → held w (after cs l) ≡ runs w cs (held w l)
unfolding runs held
held-after w [] l = refl
held-after w (c ∷ cs) l = held-after w cs (c ∷ l)

module _ (w : World) (c : WireGuardConfig) (full : Bool) (existing : List Text) where
  hook-runs :
      (hk : Hook) (t : Text) (ys : Log) (h : Held)
      → runs w (hook_call w c full existing hk t ++ ys) h ≡ runs w ys h
  unfolding runs apply hook_call
  hook-runs hk t ys h = elim (Bool-cases (c.enable_scripts && not (is_empty t))) [
    | inl e ↦ rw e refl
    | inr e ↦ rw e refl
  ]

  network-runs :
      (remaining : List Text) (captured other : Bool) (ys : Log) (h : Held)
      → h.network ≡ true
      → runs w (release_network w c full existing remaining captured other ++ ys) h
        ≡ runs w ys (record h { network = not (is_empty remaining && w.cleans_up) })
  unfolding runs apply release_network
  network-runs [] captured other ys h e =
      let last : runs w ys (record h { network = not w.cleans_up && h.network })
          ≡ runs w ys (record h { network = not w.cleans_up }) =
        ap (λ b. runs w ys (record h { network = b })) (kept (not w.cleans_up) h.network e) in
      elim (Bool-cases captured) [ inl y ↦ rw y last | inr y ↦ rw y last ]
  network-runs (d ∷ ds) captured other ys h e = elim (Bool-cases other) [
    | inl y ↦ rw y refl
    | inr y ↦ rw y (ap (λ b. runs w ys (record h { network = b })) e)
  ]

  abbrev closing : Bool → List Text → Bool → Bool → Log
  closing pre_closes remaining captured other =
      release_network w c full existing remaining captured other
      ++ (Call.clear_state ∷ hook_call w c full existing Hook.post_down c.interface.post_down)

  -- From the routes to the engine.
  middle-runs :
      (pre_closes : Bool) (ys : Log) (h : Held)
      → (w.has_protector ≡ false → h.protection ≡ false)
      → runs w
          (Call.remove_routes (all_allowed_ips c.peers) full
            ∷ ((if w.has_protector then Call.disable_protection ∷ [] else [])
                ++ ((if pre_closes then Call.pre_close ∷ [] else []) ++ (Call.close_engine ∷ ys))))
          h
        ≡ runs w ys (record h {
          engine = false;
          protection = not w.disables_protection && h.protection;
          routes = not w.removes_routes && h.routes;
        })
  unfolding runs apply
  middle-runs pre_closes ys h k = elim (Bool-cases w.has_protector) [
    | inl e ↦ rw e (elim (Bool-cases pre_closes) [ inl d ↦ rw d refl | inr d ↦ rw d refl ])
    | inr e ↦
        rw (e, k e, and_false (not w.disables_protection))
          (elim (Bool-cases pre_closes) [ inl d ↦ rw d refl | inr d ↦ rw d refl ])
  ]

  last-runs :
      (h : Held)
      → runs w
          (Call.clear_state ∷ hook_call w c full existing Hook.post_down c.interface.post_down)
          h
        ≡ record h { file = not w.clears_state && h.file }
  unfolding runs apply hook_call
  last-runs h = elim (Bool-cases (c.enable_scripts && not (is_empty c.interface.post_down))) [
    | inl e ↦ rw e refl
    | inr e ↦ rw e refl
  ]

  finished-made :
      (r : Outcome) (l : Log)
      → Connected w c full existing r
      → r ≡ finished l
      → made w c full existing ≡ l
  finished-made r l (no_engine d q) h = ground (arith, q, h)
  finished-made r l (all_made d q) h = finished-inj (sym q ∙ h)
  finished-made r l (rolled_back first rest f d split q) h = ground (arith, q, h)

  -- What a disconnect leaves of what is held.
  abbrev rest_after : List Text → Held → Held
  rest_after remaining h = record {
    engine = false;
    protection = not w.disables_protection && h.protection;
    routes = not w.removes_routes && h.routes;
    network = not (is_empty remaining && w.cleans_up);
    file = not w.clears_state && h.file;
  }

  disconnect-runs :
      (pre_closes : Bool) (remaining : List Text) (captured other : Bool) (h : Held)
      → h.network ≡ true
      → (w.has_protector ≡ false → h.protection ≡ false)
      → runs w (disconnect_phases w c full existing pre_closes remaining captured other) h
        ≡ rest_after remaining h
  unfolding disconnect_phases runs apply
  disconnect-runs pre_closes remaining captured other h e k =
      let g : Held = record h {
        engine = false;
        protection = not w.disables_protection && h.protection;
        routes = not w.removes_routes && h.routes;
      } in
      hook-runs Hook.pre_down c.interface.pre_down
        (Call.remove_routes (all_allowed_ips c.peers) full
          ∷ ((if w.has_protector then Call.disable_protection ∷ [] else [])
              ++ ((if pre_closes then Call.pre_close ∷ [] else [])
                  ++ (Call.close_engine ∷ closing pre_closes remaining captured other))))
        h
      ∙ middle-runs pre_closes (closing pre_closes remaining captured other) h k
      ∙ network-runs remaining captured other
          (Call.clear_state ∷ hook_call w c full existing Hook.post_down c.interface.post_down) g e
      ∙ last-runs (record g { network = not (is_empty remaining && w.cleans_up) })

  made-opens : all (opens w.has_protector) (made w c full existing) ≡ true
  made-opens =
      after-opens w c full existing (plan w c full existing) []
        (sym (append-nil (plan w c full existing)))

  disconnect-made :
      (pre_closes : Bool) (remaining : List Text) (captured other : Bool)
      → held w (
          after
            (disconnect_phases w c full existing pre_closes remaining captured other)
            (made w c full existing))
        ≡ rest_after remaining (opened w (made w c full existing))
  disconnect-made pre_closes remaining captured other =
      let l = made w c full existing in
      let cs = disconnect_phases w c full existing pre_closes remaining captured other in
      held-after w cs l
      ∙ ap (runs w cs) (held-opened w w.has_protector l made-opens)
      ∙ disconnect-runs pre_closes remaining captured other (opened w l)
          (made-configures w c full existing) (no_protection w c full existing l made-opens)

-- After a connect that succeeds and the disconnect of the same tunnel, the engine is closed. The
-- protection that the connect enabled, the routes, and the file for the recovery after a crash stay
-- exactly if the call that releases each of them fails; the settings of the network interface stay
-- exactly if Cleanup fails, or is not called because another tunnel has DNS servers.
pub disconnect_releases :
    (w : World) (c : WireGuardConfig) (full : Bool) (existing : List Text) (l : Log)
    (pre_closes : Bool) (remaining : List Text) (captured other : Bool)
    → connect_phases w c full existing [] ≡ finished l
    → held w (after (disconnect_phases w c full existing pre_closes remaining captured other) l)
      ≡ record {
        engine = false;
        protection = not w.disables_protection && any enables l;
        routes = not w.removes_routes;
        network = not (is_empty remaining && w.cleans_up);
        file = not w.clears_state && any (saves w) l;
      }
disconnect_releases w c full existing l pre_closes remaining captured other h =
    let e =
      finished-made w c full existing (connect_phases w c full existing []) l
        (connect_phases-Connected w c full existing) h in
    ap
      (λ t.
        held w (after (disconnect_phases w c full existing pre_closes remaining captured other) t))
      (sym e)
    ∙ disconnect-made w c full existing pre_closes remaining captured other
    ∙ ap (λ t. rest_after w c full existing remaining (opened w t)) e
    ∙ ap
        (λ b. record {
          engine = false;
          protection = not w.disables_protection && any enables l;
          routes = b;
          network = not (is_empty remaining && w.cleans_up);
          file = not w.clears_state && any (saves w) l;
        })
        (kept (not w.removes_routes) (any adds l)
          (ap (any adds) (sym e) ∙ made-adds w c full existing))
