-- ===== src/Tunnel/Release.antt =====
-- What of the system a connect and a disconnect of internal/tunnel/connect_phases.go leave behind.
use wireguide_plus.Common.{
  ◌≡◌, refl, List, [], ◌∷◌, ◌++◌, Bool, true, false, ◌&&◌, ◌||◌, not, is_empty, all, any, arith,
  any-append, ap, ◌∙◌,
}
use wireguide_plus.Common.Text.{Text}
use wireguide_plus.Config.Model.{WireGuardConfig}
use wireguide_plus.Config.Accessors.{Hook, all_allowed_ips}
use wireguide_plus.Tunnel.Trace.{Call, Log, after}
use wireguide_plus.Tunnel.Phases.{World}
use wireguide_plus.Tunnel.Follows.{only}
use wireguide_plus.Tunnel.Plan.{plan, device_calls, route_calls, dns_calls, hook_calls}

-- What a tunnel holds of the system. `network` is the interface's state, which Cleanup ends, with
-- the DNS settings; which servers it restores is not modelled. `file` is the file for the recovery
-- after a crash.
pub record Held : Type 0 where
  pub engine : Bool
  pub protection : Bool
  pub routes : Bool
  pub network : Bool
  pub file : Bool

abbrev pub no_hold : Held
no_hold = record {
  engine = false;
  protection = false;
  routes = false;
  network = false;
  file = false;
}

-- A release that fails changes nothing, and a file is there if it could be written. Nothing is held
-- before the call that opens it; that call may have failed halfway, and counts then too.
module _ (w : World) where
  unfoldable pub apply : Call → Held → Held
  apply Call.create_engine h = record h { engine = true }
  apply Call.close_engine h = record h { engine = false }
  apply Call.enable_protection h = record h { protection = true }
  apply Call.disable_protection h = record h {
    protection = not w.disables_protection && h.protection;
  }
  apply (Call.add_routes ips full table mark) h = record h { routes = true }
  apply (Call.remove_routes ips full) h = record h { routes = not w.removes_routes && h.routes }
  apply Call.bring_up h = record h { network = true }
  apply (Call.set_mtu n) h = record h { network = true }
  apply (Call.assign_address ips) h = record h { network = true }
  apply (Call.set_bind_interface i) h = record h { network = true }
  apply (Call.set_dns servers) h = record h { network = true }
  apply Call.cleanup h = record h { network = not w.cleans_up && h.network }
  apply Call.save_checkpoint h = record h { file = w.saves_checkpoint || h.file }
  apply Call.save_state h = record h { file = w.saves_state || h.file }
  apply Call.clear_state h = record h { file = not w.clears_state && h.file }
  apply _ h = h

  -- After the calls of a log, the last one first.
  unfoldable pub held : Log → Held
  unfolding apply
  held [] = no_hold
  held (c ∷ l) = apply c (held l)

  -- Which calls write the file, if they can.
  abbrev pub saves : Call → Bool
  saves Call.save_checkpoint = w.saves_checkpoint
  saves Call.save_state = w.saves_state
  saves _ = false

abbrev pub creates_engine : Call → Bool
creates_engine Call.create_engine = true
creates_engine _ = false

abbrev pub enables : Call → Bool
enables Call.enable_protection = true
enables _ = false

abbrev pub adds : Call → Bool
adds (Call.add_routes ips full table mark) = true
adds _ = false

abbrev pub configures : Call → Bool
configures Call.bring_up = true
configures (Call.set_mtu n) = true
configures (Call.assign_address ips) = true
configures (Call.set_bind_interface i) = true
configures (Call.set_dns servers) = true
configures _ = false

-- What every call of the plan is: it opens things, and protection is only enabled by a protector.
abbrev pub opens : Bool → Call → Bool
opens p Call.clear_state = false
opens p Call.cleanup = false
opens p Call.close_engine = false
opens p Call.disable_protection = false
opens p (Call.remove_routes ips full) = false
opens p Call.enable_protection = p
opens p _ = true

all-append : (p : Call → Bool) (xs ys : Log) → all p (xs ++ ys) ≡ all p xs && all p ys
all-append p [] ys = refl
all-append p (x ∷ xs) ys = ground (arith, all-append p xs ys)

pub all-after : (p : Call → Bool) (cs l : Log) → all p (after cs l) ≡ all p cs && all p l
all-after p [] l = refl
all-after p (c ∷ cs) l = ground (arith, all-after p cs (c ∷ l))

pub all-first : (p : Call → Bool) (xs ys : Log) → all p (xs ++ ys) ≡ true → all p xs ≡ true
all-first p [] ys h = refl
all-first p (x ∷ xs) ys h = ground (arith, all-first p xs ys)

all-both :
    (p : Call → Bool) (xs ys : Log) → all p xs ≡ true → all p ys ≡ true → all p (xs ++ ys) ≡ true
all-both p xs ys h k = rw (all-append p xs ys, h) k

all-only :
    (p : Call → Bool) (b : Bool) (cs : Log)
    → (b ≡ true → all p cs ≡ true)
    → all p (only b cs) ≡ true
all-only p true cs h = h refl
all-only p false cs h = refl

and-first : (a b : Bool) → a && b ≡ true → a ≡ true
and-first true b h = refl
and-first false b h = cc

module _ (w : World) (c : WireGuardConfig) (full : Bool) (existing : List Text) where
  hook_calls-opens :
      (h : Hook) (t : Text) → all (opens w.has_protector) (hook_calls w c full existing h t) ≡ true
  hook_calls-opens h t =
      all-only (opens w.has_protector) (c.enable_scripts && not (is_empty t))
        (Call.run_script h t ∷ []) (λ e. refl)

  device_calls-opens : all (opens w.has_protector) (device_calls w c full existing) ≡ true
  device_calls-opens =
      let p = opens w.has_protector in
      let pre = hook_calls w c full existing Hook.pre_up c.interface.pre_up in
      let post = hook_calls w c full existing Hook.post_up c.interface.post_up in
      let guard = only (w.has_protector && full) (Call.enable_protection ∷ []) in
      let g : all p guard ≡ true =
        all-only p (w.has_protector && full) (Call.enable_protection ∷ [])
          (λ e. ground (arith, e)) in
      rw
        (
          all-append p pre (guard ++ (Call.start_engine ∷ post)),
          hook_calls-opens Hook.pre_up c.interface.pre_up,
          all-append p guard (Call.start_engine ∷ post),
          g,
          hook_calls-opens Hook.post_up c.interface.post_up,
        )
        refl

  pub plan-opens : all (opens w.has_protector) (plan w c full existing) ≡ true
  plan-opens =
      let p = opens w.has_protector in
      let bind = not (is_empty c.bind_if_name) && w.binds_interface in
      let b = all-only p bind (Call.set_bind_interface c.bind_if_name ∷ []) (λ e. refl) in
      let d = all-only p w.has_snapshot (Call.capture_snapshot ∷ []) (λ e. refl) in
      let bound = only bind (Call.set_bind_interface c.bind_if_name ∷ []) in
      let routes =
        all-both p bound
          (Call.add_routes (all_allowed_ips c.peers) full c.interface.table c.interface.fw_mark
            ∷ [])
          b refl in
      let snapshot =
        all-both p (only w.has_snapshot (Call.capture_snapshot ∷ [])) (Call.save_state ∷ []) d
          refl in
      all-both p (device_calls w c full existing)
        (route_calls w c full existing ++ dns_calls w c full existing) device_calls-opens
        (all-both p (route_calls w c full existing) (dns_calls w c full existing) routes snapshot)

-- What calls open that release nothing.
abbrev pub opened : World → Log → Held
opened w l = record {
  engine = any creates_engine l;
  protection = any enables l;
  routes = any adds l;
  network = any configures l;
  file = any (saves w) l;
}

opened_step :
    (w : World) (p : Bool) (c : Call) (l : Log)
    → opens p c ≡ true
    → apply w c (opened w l) ≡ opened w (c ∷ l)
unfolding apply
opened_step w p Call.clear_state l h = cc
opened_step w p Call.cleanup l h = cc
opened_step w p Call.close_engine l h = cc
opened_step w p Call.disable_protection l h = cc
opened_step w p (Call.remove_routes ips full) l h = cc
opened_step w p c l h = refl

pub held-opened : (w : World) (p : Bool) (l : Log) → all (opens p) l ≡ true → held w l ≡ opened w l
unfolding held
held-opened w p [] h = refl
held-opened w p (c ∷ l) h =
    ap (apply w c) (held-opened w p l (ground (arith, h))) ∙ opened_step w p c l (ground (arith, h))

unprotected_step : (c : Call) → opens false c ≡ true → enables c ≡ false
unprotected_step Call.enable_protection h = cc
unprotected_step c h = refl

pub unprotected : (l : Log) → all (opens false) l ≡ true → any enables l ≡ false
unprotected [] h = refl
unprotected (c ∷ l) h =
    ground (arith, unprotected_step c (ground (arith, h)), unprotected l (ground (arith, h)))

any-after : (p : Call → Bool) (cs l : Log) → any p (after cs l) ≡ any p cs || any p l
any-after p [] l = refl
any-after p (c ∷ cs) l = ground (arith, any-after p cs (c ∷ l))

module _ (w : World) (c : WireGuardConfig) (full : Bool) (existing : List Text) where
  -- The calls of a connect that succeeds.
  abbrev pub made : Log
  made = after (Call.create_engine ∷ plan w c full existing) []

  pub made-adds : any adds made ≡ true
  made-adds =
      let devices = device_calls w c full existing in
      let bound =
        only (not (is_empty c.bind_if_name) && w.binds_interface)
          (Call.set_bind_interface c.bind_if_name ∷ []) in
      ground (
        arith,
        any-after adds (plan w c full existing) (Call.create_engine ∷ []),
        any-append adds devices (route_calls w c full existing ++ dns_calls w c full existing),
        any-append adds (route_calls w c full existing) (dns_calls w c full existing),
        any-append adds bound (
            Call.add_routes (all_allowed_ips c.peers) full c.interface.table c.interface.fw_mark
            ∷ []),
      )

  pub made-configures : any configures made ≡ true
  made-configures =
      ground (arith, any-after configures (plan w c full existing) (Call.create_engine ∷ []))
