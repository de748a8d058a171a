-- ===== src/Reconnect/Slots.antt =====
-- The retry slots of internal/reconnect/monitor.go: triggerReconnectTunnel, CancelRetry,
-- CancelRetryFor, GetState, and how a goroutine of reconnectWithBackoff clears its slot. A retryState
-- is known by a number; `live` are the retries whose context is not cancelled and which have not returned,
-- from the creation of the context on, and `waiting` the old ones that triggers in progress have yet
-- to cancel, which they do outside the lock, one after another.
use wireguide_plus.Common.{
  ℕ, suc, List, [], ◌∷◌, ◌++◌, any, Option, some, none, String, Bool, true, false, ◌&&◌, not,
  str_eq, ltb, ◌==◌, if◌then◌else◌,
}
use wireguide_plus.Common.Maps.{lookup, put, remove}

pub record Entry : Type 0 where
  pub id : ℕ
  pub attempt : ℕ

pub record Slots : Type 0 where
  pub retries : List (String × Entry)
  pub live : List (String × ℕ)
  pub waiting : List ℕ
  pub next_id : ℕ

-- cancel: the goroutine of the entry is no longer live.
unfoldable pub cancel : ℕ → List (String × ℕ) → List (String × ℕ)
cancel id [] = []
cancel id (g ∷ gs) = if g.1 == id then cancel id gs else g ∷ cancel id gs

abbrev pub cancel_entry : Option Entry → List (String × ℕ) → List (String × ℕ)
cancel_entry none gs = gs
cancel_entry (some e) gs = cancel e.id gs

unfoldable pub cancel_entries : List (String × Entry) → List (String × ℕ) → List (String × ℕ)
unfolding cancel
cancel_entries [] gs = gs
cancel_entries ((k, e) ∷ m) gs = cancel_entries m (cancel e.id gs)

unfoldable pub ids : List (String × Entry) → List ℕ
ids [] = []
ids ((k, e) ∷ m) = e.id ∷ ids m

abbrev pub id_of : Option Entry → List ℕ
id_of none = []
id_of (some e) = e.id ∷ []

-- The locked part of triggerReconnectTunnel: the old entries are taken out of their slots, but not
-- yet cancelled.
unfoldable pub trigger : (String → Bool) → String → Slots → Slots
unfolding lookup put remove ids
trigger automation_disabled name m =
    if not (str_eq name "") && automation_disabled name
    then m
    else if str_eq name ""
    then record {
      retries = (name, record { id = m.next_id; attempt = 0 }) ∷ [];
      live = (name, m.next_id) ∷ m.live;
      waiting = m.waiting ++ ids m.retries;
      next_id = suc m.next_id;
    }
    else record {
      retries = put name (record { id = m.next_id; attempt = 0 }) (remove name m.retries);
      live = (name, m.next_id) ∷ m.live;
      waiting = m.waiting ++ id_of (lookup name m.retries);
      next_id = suc m.next_id;
    }

unfoldable pub without : ℕ → List ℕ → List ℕ
without id [] = []
without id (i ∷ is) = if i == id then without id is else i ∷ without id is

-- old.cancel() in the loop of a trigger in progress, after any wait for the one before it.
unfoldable pub cancel_old : ℕ → Slots → Slots
unfolding cancel without
cancel_old id m =
    if any (λ i. i == id) m.waiting
    then record m { live = cancel id m.live; waiting = without id m.waiting }
    else m

-- CancelRetry
unfoldable pub cancel_retry : Slots → Slots
unfolding cancel_entries
cancel_retry m = record m { retries = []; live = cancel_entries m.retries m.live }

-- CancelRetryFor
unfoldable pub cancel_retry_for : String → Slots → Slots
unfolding lookup remove cancel
cancel_retry_for name m = record m {
  retries = remove name m.retries;
  live = cancel_entry (lookup name m.retries) m.live;
}

abbrev pub same_entry : Option Entry → ℕ → Bool
same_entry none id = false
same_entry (some e) id = e.id == id

-- if cur, ok := m.retries[name]; ok && cur == entry
unfoldable pub clear_slot : String → ℕ → Slots → Slots
unfolding lookup remove
clear_slot name id m =
    if same_entry (lookup name m.retries) id
    then record m { retries = remove name m.retries }
    else m

-- A goroutine returns, after it has cleared its slot.
unfoldable pub finish_retry : String → ℕ → Slots → Slots
unfolding clear_slot cancel
finish_retry name id m = record (clear_slot name id m) { live = cancel id m.live }

-- GetState: whether a retry is under way, and the largest attempt.
unfoldable pub get_state : List (String × Entry) → Bool × ℕ
get_state [] = (false, 0)
get_state ((k, e) ∷ m) =
    let rest = get_state m in
    (if ltb 0 e.attempt then true else rest.0, if ltb rest.1 e.attempt then e.attempt else rest.1)

pub data Op : Type 0 where
  trigger_tunnel : String → Op
  cancels_old : ℕ → Op
  cancel_all : Op
  cancel_tunnel : String → Op
  returns : String → ℕ → Op

unfoldable pub apply : (String → Bool) → Op → Slots → Slots
unfolding trigger cancel_old cancel_retry cancel_retry_for finish_retry
apply disabled (Op.trigger_tunnel name) m = trigger disabled name m
apply disabled (Op.cancels_old id) m = cancel_old id m
apply disabled Op.cancel_all m = cancel_retry m
apply disabled (Op.cancel_tunnel name) m = cancel_retry_for name m
apply disabled (Op.returns name id) m = finish_retry name id m

unfoldable pub run : (String → Bool) → List Op → Slots → Slots
unfolding apply
run disabled [] m = m
run disabled (o ∷ os) m = run disabled os (apply disabled o m)

abbrev pub no_slots : Slots
no_slots = record { retries = []; live = []; waiting = []; next_id = 0 }
