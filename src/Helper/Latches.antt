-- ===== src/Helper/Latches.antt =====
-- Which tunnels a round of the engine in internal/helper/automation_rules.go leaves alone.
use wireguide_plus.Common.{
  ℕ, ◌≡◌, ◌≢◌, refl, sym, ap, ◌∙◌, List, [], ◌∷◌, some, String, Bool, true, false, ◌&&◌, ◌||◌, not,
  str_eq, str_eq_iff, any, arith, Bool-cases, inl, inr,
}
use mathlib.Core.Path.{subst}
use wireguide_plus.Common.Maps.{lookup-put}
use wireguide_plus.Wifi.Model.{NetworkContext, Platform}
use wireguide_plus.Wifi.Normalize.{policy_tunnel_names}
use wireguide_plus.Helper.Decision.{Verdict}
use wireguide_plus.Helper.Gates.{connect_iff}
use wireguide_plus.Helper.State.{
  Helper, Settings, Reads, is_paused, clear_backoff, record_failure, pause_for_conflict, decide,
  decision_env,
}
use wireguide_plus.Helper.Engine.{
  World, Outcome, connected, failed, conflict, no_config, add_name, drop_name, after_connect,
  automation_connect, disconnect_auto_managed, act, settle_backoff, engine_step, engine_run,
  reevaluate, ensure_automation,
}

-- The tunnel is up.
abbrev pub is_up : Helper → String → Bool
is_up h n = any (str_eq n) h.active

any-add_name :
    (n m : String) (l : List String)
    → any (str_eq n) (add_name m l) ≡ str_eq n m || any (str_eq n) l
unfolding add_name
any-add_name n m l = ground (arith, str_eq_iff n m)

any-drop_name :
    (n m : String) (l : List String)
    → any (str_eq n) (drop_name m l) ≡ not (str_eq m n) && any (str_eq n) l
unfolding drop_name
any-drop_name n m [] = ground arith
any-drop_name n m (x ∷ l) =
    ground (arith, any-drop_name n m l, str_eq_iff m x, str_eq_iff n x, str_eq_iff m n)

clear_backoff-active : (h : Helper) (m : String) → (clear_backoff h m).active ≡ h.active
unfolding clear_backoff
clear_backoff-active h m = ground arith

clear_backoff-conflicts :
    (h : Helper) (m : String) → (clear_backoff h m).conflict_paused ≡ h.conflict_paused
unfolding clear_backoff
clear_backoff-conflicts h m = ground arith

paused_of_conflicts :
    (h k : Helper) (n : String)
    → h.conflict_paused ≡ k.conflict_paused
    → is_paused h n ≡ true
    → is_paused k n ≡ true
unfolding is_paused
paused_of_conflicts h k n e p = rw (← e) p

pause-active :
    (rd : Reads) (h : Helper) (m c o st : String)
    → (pause_for_conflict rd h m c o st).0.active ≡ h.active
unfolding pause_for_conflict
pause-active rd h m c o st = ground arith

pause-keeps :
    (rd : Reads) (h : Helper) (m c o st n : String)
    → is_paused h n ≡ true
    → is_paused (pause_for_conflict rd h m c o st).0 n ≡ true
unfolding pause_for_conflict is_paused
pause-keeps rd h m c o st n e = ground (
  arith,
  lookup-put m n (record { tunnel = m; address = rd.strip_cidr c; adapter = o; state = st })
      h.conflict_paused,
)

record_failure-active :
    (h : Helper) (m : String) (now : ℕ) → (record_failure h m now).active ≡ h.active
unfolding record_failure
record_failure-active h m now = refl

record_failure-paused :
    (h : Helper) (m n : String) (now : ℕ) → is_paused (record_failure h m now) n ≡ is_paused h n
unfolding record_failure is_paused
record_failure-paused h m n now = refl

-- The helper with one more tunnel up.
abbrev raised : Helper → String → Helper
raised h m = record h { active = add_name m h.active }

module _ (rd : Reads) (w : World) (ssid : String) (now : ℕ) where
  after_connect-other :
      (h : Helper) (m n : String) (o : Outcome)
      → str_eq n m ≡ false
      → is_up (after_connect rd o h m ssid now) n ≡ is_up h n
  unfolding after_connect
  after_connect-other h m n no_config e = refl
  after_connect-other h m n connected e =
      ap (any (str_eq n)) (clear_backoff-active (raised h m) m) ∙ any-add_name n m h.active ∙ rw e
  after_connect-other h m n failed e = ap (any (str_eq n)) (record_failure-active h m now)
  after_connect-other h m n (conflict c o) e = ap (any (str_eq n)) (pause-active rd h m c o "down")

  after_connect-paused :
      (h : Helper) (m n : String) (o : Outcome)
      → is_paused h n ≡ true
      → is_paused (after_connect rd o h m ssid now) n ≡ true
  unfolding after_connect
  after_connect-paused h m n no_config e = e
  after_connect-paused h m n connected e =
      paused_of_conflicts h _ n (sym (clear_backoff-conflicts (raised h m) m)) e
  after_connect-paused h m n failed e = record_failure-paused h m n now ∙ e
  after_connect-paused h m n (conflict c o) e = pause-keeps rd h m c o "down" n e

  act-other :
      (v : Verdict) (h : Helper) (m n : String)
      → str_eq n m ≡ false
      → is_up (act rd w v h m ssid now) n ≡ is_up h n
  unfolding act automation_connect disconnect_auto_managed
  act-other Verdict.connect h m n e = ground (arith, after_connect-other h m n (w.connect m) e)
  act-other Verdict.disconnect h m n e =
      ground (arith, any-drop_name n m h.active, str_eq_iff m n, str_eq_iff n m)
  act-other _ h m n e = refl

  -- Only a connect brings a tunnel up.
  act-down :
      (v : Verdict) (h : Helper) (m n : String)
      → v ≢ Verdict.connect
      → is_up h n ≡ false
      → is_up (act rd w v h m ssid now) n ≡ false
  unfolding act disconnect_auto_managed
  act-down Verdict.connect h m n ne e = absurd (ne refl)
  act-down Verdict.disconnect h m n ne e = ground (arith, any-drop_name n m h.active)
  act-down _ h m n ne e = e

  act-paused :
      (v : Verdict) (h : Helper) (m n : String)
      → is_paused h n ≡ true
      → is_paused (act rd w v h m ssid now) n ≡ true
  unfolding act automation_connect disconnect_auto_managed
  act-paused Verdict.connect h m n e = ground (arith, after_connect-paused h m n (w.connect m) e)
  act-paused Verdict.disconnect h m n e = paused_of_conflicts h _ n refl e
  act-paused _ h m n e = e

module _ (p : Platform) (rd : Reads) (w : World) (s : Settings) (ctx : NetworkContext) (now : ℕ)
    (changed : Bool) (was : List String) where
  abbrev step : Helper → String → Helper
  step h m = engine_step p rd w s ctx now changed was h m

  abbrev settled : Helper → String → Helper
  settled h m = settle_backoff p rd w s ctx now changed was h m

  settled-active : (h : Helper) (m : String) → (settled h m).active ≡ h.active
  unfolding settle_backoff
  settled-active h m = ground (arith, clear_backoff-active h m)

  settled-conflicts : (h : Helper) (m : String) → (settled h m).conflict_paused ≡ h.conflict_paused
  unfolding settle_backoff
  settled-conflicts h m = ground (arith, clear_backoff-conflicts h m)

  abbrev verdict : Helper → String → Verdict
  verdict h m = (decide p rd (settled h m) m s ctx now).action

  step-paused : (h : Helper) (m n : String) → is_paused h n ≡ true → is_paused (step h m) n ≡ true
  unfolding engine_step
  step-paused h m n e = ground (
    arith,
    act-paused rd w ctx.ssid now (verdict h m) (settled h m) m n,
    paused_of_conflicts h (settled h m) n (sym (settled-conflicts h m)) e,
  )

  step-other : (h : Helper) (m n : String) → str_eq n m ≡ false → is_up (step h m) n ≡ is_up h n
  unfolding engine_step
  step-other h m n e = ground (
    arith,
    act-other rd w ctx.ssid now (verdict h m) (settled h m) m n e,
    ap (any (str_eq n)) (settled-active h m),
  )

  -- A held tunnel is passed over.
  abbrev is_held : Helper → String → Bool
  is_held h n = rd.automation_disabled n || is_paused h n

  step-held : (h : Helper) (m n : String) → is_held h n ≡ true → is_up (step h m) n ≡ is_up h n
  unfolding engine_step
  step-held h m n e = elim (Bool-cases (str_eq n m)) [
    | inl same ↦
        let q : n ≡ m = (str_eq_iff n m).0 same in
        ap (λ k. is_up k n) (held_same h m (subst (λ x. is_held h x ≡ true) q e))
    | inr other ↦ step-other h m n other
  ]
    where
      held_same : (h : Helper) (m : String) → is_held h m ≡ true → step h m ≡ h
      held_same h m e = ground arith

  connect-not_latched :
      (h : Helper) (n : String)
      → any (str_eq n) s.manual_off_tunnels ≡ true
      → (decide p rd h n s ctx now).action ≢ Verdict.connect
  unfolding decide decision_env
  connect-not_latched h n off e =
      let g = (connect_iff p (decision_env rd h n s ctx now)).0 e in cc (sym off ∙ g.2)

  own_latched :
      (h : Helper) (n : String)
      → any (str_eq n) s.manual_off_tunnels ≡ true
      → is_up h n ≡ false
      → is_up (step h n) n ≡ false
  unfolding engine_step
  own_latched h n off down = ground (
    arith,
    act-down rd w ctx.ssid now (verdict h n) (settled h n) n n
        (connect-not_latched (settled h n) n off) (ap (any (str_eq n)) (settled-active h n) ∙ down),
  )

  step-latched :
      (h : Helper) (m n : String)
      → any (str_eq n) s.manual_off_tunnels ≡ true
      → is_up h n ≡ false
      → is_up (step h m) n ≡ false
  step-latched h m n off down = elim (Bool-cases (str_eq n m)) [
    | inl same ↦
        subst (λ x. is_up (step h x) n ≡ false) ((str_eq_iff n m).0 same) (own_latched h n off down)
    | inr other ↦ step-other h m n other ∙ down
  ]

  run-latched :
      (names : List String) (h : Helper) (n : String)
      → any (str_eq n) s.manual_off_tunnels ≡ true
      → is_up h n ≡ false
      → is_up (engine_run p rd w s ctx now changed was h names) n ≡ false
  unfolding engine_run
  run-latched [] h n off down = down
  run-latched (m ∷ names) h n off down =
      run-latched names (step h m) n off (step-latched h m n off down)

  step-is_held : (h : Helper) (m n : String) → is_held h n ≡ true → is_held (step h m) n ≡ true
  step-is_held h m n e = ground (arith, step-paused h m n)

  run-held :
      (names : List String) (h : Helper) (n : String)
      → is_held h n ≡ true
      → is_up (engine_run p rd w s ctx now changed was h names) n ≡ is_up h n
  unfolding engine_run
  run-held [] h n e = refl
  run-held (m ∷ names) h n e =
      run-held names (step h m) n (step-is_held h m n e) ∙ step-held h m n e

module _ (p : Platform) (rd : Reads) (w : World) (s : Settings) (ctx : NetworkContext) (now : ℕ)
    (changed : Bool) (h : Helper) (n : String) where
  -- A tunnel that is down and that the user has switched off by hand is down after any evaluation
  -- of the automation rules, whatever the rules, the network and the outcome of other connects.
  pub manual_off_stays_down :
      any (str_eq n) s.manual_off_tunnels ≡ true
      → is_up h n ≡ false
      → is_up (reevaluate p rd w s ctx now changed h) n ≡ false
  unfolding reevaluate
  manual_off_stays_down off down =
      let a = ensure_automation p s in
      ground (
        arith,
        run-latched p rd w (record s { automation = some a }) ctx now changed h.active
            (policy_tunnel_names a) h n off down,
      )

  -- An evaluation neither connects nor disconnects a tunnel that is exempted from automation or
  -- paused on an address conflict.
  pub held_untouched :
      rd.automation_disabled n || is_paused h n ≡ true
      → is_up (reevaluate p rd w s ctx now changed h) n ≡ is_up h n
  unfolding reevaluate
  held_untouched held =
      let a = ensure_automation p s in
      ground (
        arith,
        run-held p rd w (record s { automation = some a }) ctx now changed h.active
            (policy_tunnel_names a) h n held,
      )

  -- On a network with no SSID and no address an evaluation changes nothing at all.
  pub unidentified_untouched :
      ctx.ssid ≡ "" → ctx.physical_ips ≡ [] → reevaluate p rd w s ctx now changed h ≡ h
  unfolding reevaluate
  unidentified_untouched e f = ground (arith, str_eq_iff ctx.ssid "")
