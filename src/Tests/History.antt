-- ===== src/Tests/History.antt =====
-- Tests of the session log (internal/storage/history.go), and each law at a concrete input.
use wireguide_plus.Common.{◌≡◌, refl, List, [], ◌∷◌, some, true, false, arith}
use wireguide_plus.Storage.History.{
  Session, Closing, Stored, Op, new_session, new_history_store, contents, trim_sessions,
  close_session,
}
use wireguide_plus.Storage.History.Contents.{effect}
use wireguide_plus.Storage.History.Durable.{run, effects, flush_is_durable}
use wireguide_plus.Storage.History.Sessions.{open_ids, track, open_sessions_tracked}

abbrev closing : Closing
closing = record { id = "a"; rx = 10; tx = 20; reason = "user"; now = 5000000000 }

-- Two connects and a disconnect, the last one first; the timer of the first write fails.
abbrev ops : List Op
ops =
    Op.record_disconnect closing
    ∷ Op.record_connect "b" "office" 4000000000
    ∷ Op.flush_timer_fires false
    ∷ Op.record_connect "a" "home" 1000000000
    ∷ []

abbrev sessions : List Session
sessions =
    record (new_session "a" "home" 1000000000) {
      end_time = some 5000000000;
      duration_sec = 4;
      rx_bytes = 10;
      tx_bytes = 20;
      disconnect_reason = "user";
    }
    ∷ new_session "b" "office" 4000000000
    ∷ []

ops_effect : effects ops [] ≡ sessions
unfolding effects effect close_session trim_sessions
ops_effect = refl

-- A session that moved no byte in less than a second is dropped.
phantom_dropped :
    close_session
      (record closing { now = 1500000000; rx = 0; tx = 0 })
      (new_session "a" "home" 1000000000 ∷ [])
    ≡ some []
unfolding close_session
phantom_dropped = refl

-- A corrupt file counts as empty.
flush_is_durable_example :
    contents ((run true (Op.flush true ∷ ops) (new_history_store Stored.corrupt)).file) ≡ sessions
unfolding effects effect close_session trim_sessions
flush_is_durable_example = flush_is_durable true ops Stored.corrupt refl

open_sessions_tracked_example :
    open_ids (
      effect
        (Op.record_disconnect closing)
        (new_session "a" "home" 0 ∷ new_session "b" "office" 0 ∷ []))
    ≡ "b" ∷ []
unfolding track open_ids
open_sessions_tracked_example =
    open_sessions_tracked (Op.record_disconnect closing)
      (new_session "a" "home" 0 ∷ new_session "b" "office" 0 ∷ []) (omega arith)
