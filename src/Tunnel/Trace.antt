-- ===== src/Tunnel/Trace.antt =====
-- What the phases of internal/tunnel/connect_phases.go do to the system, as a log of calls with the
-- last one first, and how the phases follow one another.
use wireguide_plus.Common.{List, [], ◌∷◌, Bool}
use wireguide_plus.Common.Text.{Text}
use wireguide_plus.Common.Int.{ℤ}
use wireguide_plus.Config.Accessors.{Hook}

-- ErrorKind of internal/tunnel/errors.go
pub data ErrorKind : Type 0 where
  already_connected transition_in_progress not_connected engine_creation network resolution config
        state_corrupt timeout full_tunnel_conflict cancelled :
      ErrorKind

-- The calls of the engine, the network manager, the protector and the file of the active state.
pub data Call : Type 0 where
  create_engine bring_up start_engine enable_protection disable_protection : Call
  close_engine cleanup pre_close restore_snapshot clear_snapshot capture_snapshot : Call
  save_checkpoint save_state clear_state : Call
  set_mtu : ℤ → Call
  assign_address : List Text → Call
  run_script : Hook → Text → Call
  set_bind_interface : Text → Call
  add_routes : List Text → Bool → Text → Text → Call
  remove_routes : List Text → Bool → Call
  set_dns : List Text → Call

abbrev pub Log : Type 0
Log = List Call

pub data Outcome : Type 0 where
  finished : Log → Outcome
  failed : ErrorKind → Log → Outcome

-- A phase, over the log so far.
abbrev pub Phase : Type 0
Phase = Log → Outcome

abbrev pub continue : Outcome → Phase → Outcome
continue (finished l) k = k l
continue (failed e l) k = failed e l

infixl 5 ◌>>◌
abbrev pub ◌>>◌ : Phase → Phase → Phase
◌>>◌ m k l = continue (m l) k

-- The calls that a rollback makes, in reverse.
abbrev pub after : Log → Log → Log
after [] l = l
after (c ∷ cs) l = after cs (c ∷ l)
