-- ===== src/Helper/Mailbox.antt =====
-- internal/helper/automation_eval.go: the mailbox with one slot, and the loop that empties it. The
-- posts, the shutdown and the steps of the loop come in any order; `Run` is a sequence of them.
use wireguide_plus.Common.{◌≡◌, List, [], ◌∷◌, Bool, true, false, String}

-- Where coalesceEvalLoop stands: at the outer select, behind the receive, in eval, or returned.
pub data Phase : Type 0 where
  waiting popped evaluating stopped : Phase

pub record Mailbox : Type 0 where
  -- Whether the slot of evalRequests is full.
  pub queued : Bool
  -- evalReason
  pub reason : String
  pub phase : Phase
  -- Whether `done` is closed.
  pub done : Bool

pub data Event : Type 0 where
  -- requestAutomationEval
  request : String → Event
  shutdown : Event
  -- case <-requests
  pop : Event
  -- The call of eval, with the reason that it loads.
  begin : String → Event
  finish : Event
  -- case <-done
  leave : Event

abbrev pub empty_mailbox : Mailbox
empty_mailbox = record { queued = false; reason = ""; phase = Phase.waiting; done = false }

-- The reason is stored, and a full slot stays full.
unfoldable pub post : String → Mailbox → Mailbox
post reason m = record m { reason = reason; queued = true }

pub data Step : Mailbox → Event → Mailbox → Type 0 where
  requested : {m : Mailbox} (reason : String) → Step m (Event.request reason) (post reason m)
  closed : {m : Mailbox} → Step m Event.shutdown (record m { done = true })
  received :
      {m : Mailbox}
      → m.phase ≡ Phase.waiting
      → m.queued ≡ true
      → Step m Event.pop (record m { queued = false; phase = Phase.popped })
  began :
      {m : Mailbox}
      → m.phase ≡ Phase.popped
      → m.done ≡ false
      → Step m (Event.begin m.reason) (record m { phase = Phase.evaluating })
  finished :
      {m : Mailbox}
      → m.phase ≡ Phase.evaluating
      → Step m Event.finish (record m { phase = Phase.waiting })
  left_waiting :
      {m : Mailbox}
      → m.phase ≡ Phase.waiting
      → m.done ≡ true
      → Step m Event.leave (record m { phase = Phase.stopped })
  left_popped :
      {m : Mailbox}
      → m.phase ≡ Phase.popped
      → m.done ≡ true
      → Step m Event.leave (record m { phase = Phase.stopped })

-- The events so far, the last one first.
pub data Run : List Event → Mailbox → Type 0 where
  start : Run [] empty_mailbox
  more : {es : List Event} {m n : Mailbox} {e : Event} → Run es m → Step m e n → Run (e ∷ es) n
