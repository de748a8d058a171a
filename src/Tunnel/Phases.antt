-- ===== src/Tunnel/Phases.antt =====
-- connectPhases and disconnectPhases of internal/tunnel/connect_phases.go. How each call ends, and
-- when the context is cancelled, is a `World`.
use wireguide_plus.Common.{
  ℕ, List, [], ◌∷◌, ◌++◌, Bool, true, false, ◌&&◌, ◌||◌, not, any, is_empty, if◌then◌else◌,
}
use wireguide_plus.Common.Text.{Text, text_eq}
use wireguide_plus.Config.Model.{WireGuardConfig}
use wireguide_plus.Config.Accessors.{Hook, all_allowed_ips}
use wireguide_plus.Tunnel.Trace.{ErrorKind, Call, Log, finished, failed, Phase, ◌>>◌}

pub record World : Type 0 where
  -- Whether each call succeeds whose failure ends the connect.
  pub creates : Bool
  pub sets_mtu : Bool
  pub assigns_address : Bool
  pub brings_up : Bool
  pub protects : Bool
  pub starts : Bool
  pub adds_routes : Bool
  pub sets_dns : Bool
  -- Whether each call succeeds whose failure is only logged.
  pub removes_routes : Bool
  pub disables_protection : Bool
  pub cleans_up : Bool
  pub saves_checkpoint : Bool
  pub saves_state : Bool
  pub clears_state : Bool
  -- Whether ctx.Err() is set at the n-th check.
  pub cancelled_at : ℕ → Bool
  -- What the platform has: an endpoint protector, SetBindInterface, a DNS snapshot.
  pub has_protector : Bool
  pub binds_interface : Bool
  pub has_snapshot : Bool

-- The union of two lists of DNS servers without duplicates, in order.
unfoldable pub add_distinct : List Text → List Text → List Text
add_distinct seen [] = seen
add_distinct seen (d ∷ ds) = add_distinct (if any (text_eq d) seen then seen else seen ++ d ∷ []) ds

-- The servers that SetDNS is given: those of this tunnel, merged with those that are in use.
unfoldable pub merged_dns : List Text → List Text → List Text
unfolding add_distinct
merged_dns own existing =
    if is_empty own
    then own
    else if is_empty existing
    then own
    else add_distinct (add_distinct [] own) existing

-- A connect: its config, whether that is a full tunnel, and the DNS servers of the other tunnels.
module _ (w : World) (c : WireGuardConfig) (full : Bool) (existing : List Text) where
  -- The calls of `rollback`, the last one first. Each of them may fail, which is only logged and stops
  -- nothing: Tunnel.Release reads in `w` whether they succeed.
  unfoldable pub undo : Log
  undo =
      Call.close_engine
        ∷ Call.cleanup
        ∷ (if w.has_protector then Call.disable_protection ∷ [] else [])
      ++ Call.remove_routes (all_allowed_ips c.peers) full ∷ []

  unfoldable pub rollback : ErrorKind → Phase
  unfolding undo
  rollback e l = failed e (undo ++ l)

  -- A call that has to succeed.
  unfoldable pub need : Bool → ErrorKind → Call → Phase
  unfolding rollback
  need done e call l = if done then finished (call ∷ l) else rollback e (call ∷ l)

  -- A call whose failure is only logged.
  unfoldable pub try : Call → Phase
  try call l = finished (call ∷ l)

  abbrev pub skip : Phase
  skip l = finished l

  abbrev pub when : Bool → Phase → Phase
  when true m = m
  when false m = skip

  -- checkCtx
  unfoldable pub check_ctx : ℕ → Phase
  unfolding rollback
  check_ctx n l = if w.cancelled_at n then rollback ErrorKind.cancelled l else finished l

  unfoldable pub hook : Hook → Text → Phase
  unfolding try
  hook h command =
      when (c.enable_scripts && not (is_empty command)) (try (Call.run_script h command))

  -- From the MTU to the interface that is up.
  unfoldable pub prepare : Phase
  unfolding need check_ctx
  prepare = do
    check_ctx 0
    need w.sets_mtu ErrorKind.network (Call.set_mtu c.interface.mtu)
    check_ctx 1
    need w.assigns_address ErrorKind.network (Call.assign_address c.interface.address)
    check_ctx 2
    need w.brings_up ErrorKind.network Call.bring_up
    check_ctx 3

  -- From the PreUp hook to the PostUp hook.
  unfoldable pub start_device : Phase
  unfolding need check_ctx hook
  start_device = do
    hook Hook.pre_up c.interface.pre_up
    check_ctx 4
    when (w.has_protector && full) (need w.protects ErrorKind.network Call.enable_protection)
    check_ctx 5
    need w.starts ErrorKind.engine_creation Call.start_engine
    check_ctx 6
    hook Hook.post_up c.interface.post_up
    check_ctx 7

  unfoldable pub install_routes : Phase
  unfolding need check_ctx try
  install_routes = do
    when (not (is_empty c.bind_if_name) && w.binds_interface)
        (try (Call.set_bind_interface c.bind_if_name))
    need w.adds_routes ErrorKind.network
        (Call.add_routes (all_allowed_ips c.peers) full c.interface.table c.interface.fw_mark)
    check_ctx 8

  -- SetDNS has to succeed if the config names a server.
  unfoldable pub apply_dns : Phase
  unfolding need try merged_dns
  apply_dns = do
    try Call.save_checkpoint
    need (w.sets_dns || is_empty c.interface.dns) ErrorKind.network
        (Call.set_dns (merged_dns c.interface.dns existing))
    when w.has_snapshot (try Call.capture_snapshot)
    try Call.save_state

  unfoldable pub configure : Phase
  unfolding prepare start_device install_routes apply_dns
  configure = do prepare; start_device; install_routes; apply_dns

  -- connectPhases
  unfoldable pub connect_phases : Phase
  unfolding configure
  connect_phases l =
      if w.creates then configure (Call.create_engine ∷ l) else failed ErrorKind.engine_creation l

  -- The last steps of a disconnect's network cleanup: `remaining` are the DNS servers of the other
  -- tunnels, and `captured` says whether a snapshot of the DNS was captured and can be restored.
  unfoldable pub release_network : List Text → Bool → Bool → Log
  release_network remaining captured other =
      if is_empty remaining
      then (if captured then Call.restore_snapshot ∷ [] else [])
        ++ Call.cleanup ∷ Call.clear_snapshot ∷ []
      else if other
      then Call.set_dns remaining ∷ []
      else []

  unfoldable pub hook_call : Hook → Text → Log
  hook_call h command =
      if c.enable_scripts && not (is_empty command) then Call.run_script h command ∷ [] else []

  -- disconnectPhases of a tunnel with a network manager: its calls in order, none of which can stop
  -- it if it fails. `pre_closes` says whether the platform has PreCloseAdapterCleanup, and `other` whether
  -- another connected tunnel has an interface.
  unfoldable pub disconnect_phases : Bool → List Text → Bool → Bool → Log
  unfolding release_network hook_call
  disconnect_phases pre_closes remaining captured other =
      hook_call Hook.pre_down c.interface.pre_down
      ++ (Call.remove_routes (all_allowed_ips c.peers) full
          ∷ ((if w.has_protector then Call.disable_protection ∷ [] else [])
              ++ ((if pre_closes then Call.pre_close ∷ [] else [])
                  ++ (Call.close_engine
                      ∷ (release_network remaining captured other
                          ++ (Call.clear_state
                              ∷ hook_call Hook.post_down c.interface.post_down))))))
