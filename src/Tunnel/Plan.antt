-- ===== src/Tunnel/Plan.antt =====
-- Which calls a connect of internal/tunnel/connect_phases.go makes, in which order.
use wireguide_plus.Tunnel.Follows.{
  only, Follows, need-Follows, check_ctx-Follows, seq-Follows, try-Follows, when-Follows,
  checked-Follows,
}
use wireguide_plus.Common.{
  ◌≡◌, refl, List, [], ◌∷◌, ◌++◌, Bool, ◌&&◌, ◌||◌, not, is_empty, inl, inr,
}
use wireguide_plus.Common.Text.{Text}
use wireguide_plus.Config.Model.{WireGuardConfig}
use wireguide_plus.Config.Accessors.{Hook, all_allowed_ips}
use wireguide_plus.Tunnel.Trace.{ErrorKind, Call, Log, Outcome, finished, failed, Phase, after}
use wireguide_plus.Tunnel.Phases.{
  World, merged_dns, undo, hook, prepare, start_device, install_routes, apply_dns, configure,
  connect_phases,
}
use wireguide_plus.Common.{false}
use wireguide_plus.Common.{true}
use wireguide_plus.Common.{if◌then◌else◌}

module _ (w : World) (c : WireGuardConfig) (full : Bool) (existing : List Text) where
  abbrev Runs : Log → Phase → Type 0
  Runs es m = Follows w c full existing es m

  abbrev pub hook_calls : Hook → Text → Log
  hook_calls h command =
      only (c.enable_scripts && not (is_empty command)) (Call.run_script h command ∷ [])

  hook-Follows :
      (h : Hook) (command : Text) → Runs (hook_calls h command) (hook w c full existing h command)
  unfolding hook
  hook-Follows h command =
      when-Follows (c.enable_scripts && not (is_empty command))
        (try-Follows (Call.run_script h command))

  prepare-Follows :
      Runs
        (Call.set_mtu c.interface.mtu
          ∷ Call.assign_address c.interface.address
          ∷ Call.bring_up
          ∷ [])
        (prepare w c full existing)
  unfolding prepare
  prepare-Follows = seq-Follows (check_ctx-Follows 0) (
      seq-Follows (need-Follows w.sets_mtu ErrorKind.network (Call.set_mtu c.interface.mtu)) (
        seq-Follows (check_ctx-Follows 1) (
          seq-Follows
            (need-Follows w.assigns_address ErrorKind.network
              (Call.assign_address c.interface.address))
            (seq-Follows (check_ctx-Follows 2) (
              seq-Follows (need-Follows w.brings_up ErrorKind.network Call.bring_up)
                (check_ctx-Follows 3))))))

  abbrev pub device_calls : Log
  device_calls =
      hook_calls Hook.pre_up c.interface.pre_up
      ++ (only (w.has_protector && full) (Call.enable_protection ∷ [])
          ++ (Call.start_engine ∷ hook_calls Hook.post_up c.interface.post_up))

  start_device-Follows : Runs device_calls (start_device w c full existing)
  unfolding start_device
  start_device-Follows = seq-Follows (hook-Follows Hook.pre_up c.interface.pre_up) (
      seq-Follows (check_ctx-Follows 4) (
        seq-Follows
          (when-Follows (w.has_protector && full)
            (need-Follows w.protects ErrorKind.network Call.enable_protection))
          (seq-Follows (check_ctx-Follows 5) (
            seq-Follows (need-Follows w.starts ErrorKind.engine_creation Call.start_engine) (
              seq-Follows (check_ctx-Follows 6)
                (checked-Follows 7 (hook-Follows Hook.post_up c.interface.post_up)))))))

  abbrev pub route_calls : Log
  route_calls =
      only (not (is_empty c.bind_if_name) && w.binds_interface)
        (Call.set_bind_interface c.bind_if_name ∷ [])
      ++ Call.add_routes (all_allowed_ips c.peers) full c.interface.table c.interface.fw_mark ∷ []

  install_routes-Follows : Runs route_calls (install_routes w c full existing)
  unfolding install_routes
  install_routes-Follows =
      seq-Follows
        (when-Follows (not (is_empty c.bind_if_name) && w.binds_interface)
          (try-Follows (Call.set_bind_interface c.bind_if_name)))
        (checked-Follows 8 (
          need-Follows w.adds_routes ErrorKind.network
            (Call.add_routes (all_allowed_ips c.peers) full c.interface.table c.interface.fw_mark)))

  abbrev pub dns_calls : Log
  dns_calls =
      Call.save_checkpoint
      ∷ Call.set_dns (merged_dns c.interface.dns existing)
      ∷ (only w.has_snapshot (Call.capture_snapshot ∷ []) ++ Call.save_state ∷ [])

  apply_dns-Follows : Runs dns_calls (apply_dns w c full existing)
  unfolding apply_dns
  apply_dns-Follows = seq-Follows (try-Follows Call.save_checkpoint) (
      seq-Follows
        (need-Follows (w.sets_dns || is_empty c.interface.dns) ErrorKind.network
          (Call.set_dns (merged_dns c.interface.dns existing)))
        (seq-Follows (when-Follows w.has_snapshot (try-Follows Call.capture_snapshot))
          (try-Follows Call.save_state)))

  -- The calls of a connect after the engine is there, if all goes well.
  abbrev pub plan : Log
  plan =
      Call.set_mtu c.interface.mtu
      ∷ Call.assign_address c.interface.address
      ∷ Call.bring_up
      ∷ (device_calls ++ (route_calls ++ dns_calls))

  configure-Follows : Runs plan (configure w c full existing)
  unfolding configure
  configure-Follows =
      seq-Follows prepare-Follows
        (seq-Follows start_device-Follows (seq-Follows install_routes-Follows apply_dns-Follows))

  -- What becomes of a connect.
  pub data Connected : Outcome → Type 0 where
    no_engine :
        {r : Outcome} → w.creates ≡ false → r ≡ failed ErrorKind.engine_creation [] → Connected r
    all_made :
        {r : Outcome}
        → w.creates ≡ true
        → r ≡ finished (after (Call.create_engine ∷ plan) [])
        → Connected r
    rolled_back :
        {r : Outcome} (made rest : Log) (e : ErrorKind)
        → w.creates ≡ true
        → plan ≡ made ++ rest
        → r ≡ failed e (undo w c full existing ++ after (Call.create_engine ∷ made) [])
        → Connected r

  created-Connected :
      (b : Bool)
      → w.creates ≡ b
      → Connected (
          if b
          then configure w c full existing (Call.create_engine ∷ [])
          else failed ErrorKind.engine_creation [])
  created-Connected false e = no_engine e refl
  created-Connected true e = elim (configure-Follows.follows (Call.create_engine ∷ [])) [
    | inl h ↦ all_made e h
    | inr x ↦ rolled_back x.made x.rest x.error e x.split x.result
  ]

  -- A connect calls nothing if the factory gives no engine. Otherwise it makes the calls of the plan
  -- in order: all of them, or the first ones of them and then the rollback.
  pub connect_phases-Connected : Connected (connect_phases w c full existing [])
  unfolding connect_phases
  connect_phases-Connected = created-Connected w.creates refl
