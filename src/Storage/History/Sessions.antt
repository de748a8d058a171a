-- ===== src/Storage/History/Sessions.antt =====
-- Which sessions of internal/storage/history.go are open, and which ones GetAll shows.
use wireguide_plus.Common.{
  ℕ, suc, zero, ◌-◌, ◌<◌, ◌≤◌, ◌≡◌, refl, ap, ◌∙◌, List, [], ◌∷◌, ◌++◌, Bool, true, false, not,
  ◌==◌, all, length, length-append, String, str_eq, if◌then◌else◌, Bool-cases, Option-cases, inl,
  inr, arith, leb, le→leb,
}
use wireguide_plus.Storage.History.{
  Session, Stored, contents, Op, Closing, new_history_store, close_session, close_open, trim_old,
  trim_sessions, slice_from, new_session, is_open, is_phantom, newest_first, get_all,
}
use wireguide_plus.Storage.History.Contents.{effect, or_same}
use wireguide_plus.Storage.History.Visible.{visible, load-cache}
use wireguide_plus.Storage.History.Durable.{run, effects, run-visible}

-- The identifiers of the open sessions, in order.
unfoldable pub open_ids : List Session → List String
open_ids [] = []
open_ids (s ∷ ss) = let rest = open_ids ss in if is_open s then s.id ∷ rest else rest

unfoldable pub remove_first : String → List String → List String
remove_first i [] = []
remove_first i (j ∷ js) = let rest = remove_first i js in if str_eq j i then js else j ∷ rest

-- What an operation does to the identifiers of the open sessions.
unfoldable pub track : Op → List String → List String
unfolding remove_first
track (Op.record_connect id name now) ids = ids ++ id ∷ []
track (Op.record_disconnect c) ids = if str_eq c.id "" then ids else remove_first c.id ids
track (Op.close_open_sessions reason now) ids = []
track (Op.clear removes) ids = []
track op ids = ids

open_ids-append : (xs ys : List Session) → open_ids (xs ++ ys) ≡ open_ids xs ++ open_ids ys
unfolding open_ids
open_ids-append [] ys = refl
open_ids-append (x ∷ xs) ys = ground (arith, open_ids-append xs ys)

open_ids-close_session :
    (c : Closing) (ss : List Session)
    → open_ids (or_same ss (close_session c ss)) ≡ remove_first c.id (open_ids ss)
unfolding open_ids close_session remove_first
open_ids-close_session c [] = refl
open_ids-close_session c (s ∷ ss) = elim (Option-cases (close_session c ss)) [
  | inl e ↦ rw e (ground (arith, ap (or_same ss) e, open_ids-close_session c ss))
  | inr (ts, e) ↦ rw e (ground (arith, ap (or_same ss) e, open_ids-close_session c ss))
]

open_ids-close_open :
    (reason : String) (now : ℕ) (ss : List Session) → open_ids (close_open reason now ss).0 ≡ []
unfolding open_ids close_open
open_ids-close_open reason now [] = refl
open_ids-close_open reason now (s ∷ ss) = ground (arith, open_ids-close_open reason now ss)

open_ids-trim_old :
    (max_age now : ℕ) (ss : List Session) → open_ids (trim_old max_age now ss).0 ≡ open_ids ss
unfolding open_ids trim_old
open_ids-trim_old max_age now [] = refl
open_ids-trim_old max_age now (s ∷ ss) = elim (Option-cases s.end_time) [
  | inl e ↦ rw e (ground (arith, open_ids-trim_old max_age now ss))
  | inr (t, e) ↦ rw e (ground (arith, open_ids-trim_old max_age now ss))
]

trim_sessions-same : (ss : List Session) → length ss ≤ 200 → trim_sessions ss ≡ ss
unfolding trim_sessions
trim_sessions-same ss h = rw (le→leb (length ss) 200 h) refl

-- While the log is not full, RecordConnect opens its session, RecordDisconnect closes the first open one
-- of its identifier, CloseOpenSessions and Clear leave none open, and nothing else opens or closes one;
-- the pruning by age never removes an open session.
pub open_sessions_tracked :
    (op : Op) (ss : List Session)
    → length ss < 200
    → open_ids (effect op ss) ≡ track op (open_ids ss)
unfolding effect track open_ids
open_sessions_tracked (Op.record_connect id name now) ss h =
    let e : length (ss ++ new_session id name now ∷ []) ≤ 200 =
      omega (arith, h, length-append ss (new_session id name now ∷ [])) in
    ap open_ids (trim_sessions-same (ss ++ new_session id name now ∷ []) e)
    ∙ open_ids-append ss (new_session id name now ∷ [])
open_sessions_tracked (Op.record_disconnect c) ss h = elim (Bool-cases (str_eq c.id "")) [
  | inl e ↦ rw e refl
  | inr e ↦ rw e (open_ids-close_session c ss)
]
open_sessions_tracked (Op.close_open_sessions reason now) ss h = open_ids-close_open reason now ss
open_sessions_tracked (Op.trim_by_age max_age now) ss h = elim (Bool-cases (max_age == 0)) [
  | inl e ↦ rw e refl
  | inr e ↦ rw e (open_ids-trim_old max_age now ss)
]
open_sessions_tracked (Op.clear removes) ss h = refl
open_sessions_tracked Op.read ss h = refl
open_sessions_tracked (Op.flush saves) ss h = refl
open_sessions_tracked (Op.flush_timer_fires saves) ss h = refl

-- No row is a phantom.
unfoldable pub all_real : List Session → Bool
unfolding is_phantom
all_real ss = all (λ s. not (is_phantom s)) ss

all_real-append :
    (xs : List Session) (s : Session)
    → all_real xs ≡ true
    → is_phantom s ≡ false
    → all_real (xs ++ s ∷ []) ≡ true
unfolding all_real
all_real-append [] s h k = rw k refl
all_real-append (x ∷ xs) s h k = ground (arith, all_real-append xs s, h, k)

all_real-slice_from :
    (n : ℕ) (ss : List Session) → all_real ss ≡ true → all_real (slice_from n ss) ≡ true
unfolding all_real slice_from
all_real-slice_from zero ss h = h
all_real-slice_from (suc n) [] h = refl
all_real-slice_from (suc n) (s ∷ ss) h = all_real-slice_from n ss (ground (arith, h))

all_real-close_session :
    (c : Closing) (ss : List Session)
    → all_real ss ≡ true
    → all_real (or_same ss (close_session c ss)) ≡ true
unfolding all_real close_session is_phantom
all_real-close_session c [] h = refl
all_real-close_session c (s ∷ ss) h = elim (Option-cases (close_session c ss)) [
  | inl e ↦ rw e (ground (arith, h, ap (or_same ss) e, all_real-close_session c ss))
  | inr (ts, e) ↦ rw e (ground (arith, h, ap (or_same ss) e, all_real-close_session c ss))
]

all_real-close_open :
    (reason : String) (now : ℕ) (ss : List Session)
    → all_real ss ≡ true
    → all_real (close_open reason now ss).0 ≡ true
unfolding all_real close_open is_phantom
all_real-close_open reason now [] h = refl
all_real-close_open reason now (s ∷ ss) h = ground (arith, h, all_real-close_open reason now ss)

all_real-trim_old :
    (max_age now : ℕ) (ss : List Session)
    → all_real ss ≡ true
    → all_real (trim_old max_age now ss).0 ≡ true
unfolding all_real trim_old
all_real-trim_old max_age now [] h = refl
all_real-trim_old max_age now (s ∷ ss) h = ground (arith, h, all_real-trim_old max_age now ss)

all_real-trim_sessions :
    (ss : List Session) → all_real ss ≡ true → all_real (trim_sessions ss) ≡ true
unfolding trim_sessions
all_real-trim_sessions ss h = elim (Bool-cases (leb (length ss) 200)) [
  | inl e ↦ rw e h
  | inr e ↦ rw e (all_real-slice_from (length ss - 200) ss h)
]

all_real-effect :
    (op : Op) (ss : List Session) → all_real ss ≡ true → all_real (effect op ss) ≡ true
unfolding effect is_phantom all_real
all_real-effect (Op.record_connect id name now) ss h =
    all_real-trim_sessions _ (all_real-append ss (new_session id name now) h refl)
all_real-effect (Op.record_disconnect c) ss h = elim (Bool-cases (str_eq c.id "")) [
  | inl e ↦ rw e h
  | inr e ↦ rw e (all_real-close_session c ss h)
]
all_real-effect (Op.close_open_sessions reason now) ss h = all_real-close_open reason now ss h
all_real-effect (Op.trim_by_age max_age now) ss h = elim (Bool-cases (max_age == 0)) [
  | inl e ↦ rw e h
  | inr e ↦ rw e (all_real-trim_old max_age now ss h)
]
all_real-effect (Op.clear removes) ss h = refl
all_real-effect Op.read ss h = h
all_real-effect (Op.flush saves) ss h = h
all_real-effect (Op.flush_timer_fires saves) ss h = h

all_real-effects :
    (ops : List Op) (ss : List Session) → all_real ss ≡ true → all_real (effects ops ss) ≡ true
unfolding effects
all_real-effects [] ss h = h
all_real-effects (op ∷ ops) ss h = all_real-effect op (effects ops ss) (all_real-effects ops ss h)

unfoldable pub reversed : List Session → List Session
reversed [] = []
reversed (s ∷ ss) = reversed ss ++ s ∷ []

newest_first-reversed : (ss : List Session) → all_real ss ≡ true → newest_first ss ≡ reversed ss
unfolding newest_first reversed all_real
newest_first-reversed [] h = refl
newest_first-reversed (s ∷ ss) h = ground (arith, h, newest_first-reversed ss)

-- The operations write no row that GetAll hides: from a file without phantom rows it shows the whole log,
-- the newest session first.
pub history_shows_all :
    (b : Bool) (ops : List Op) (f : Stored)
    → all_real (contents f) ≡ true
    → get_all b (run b ops (new_history_store f)) ≡ reversed (effects ops (contents f))
unfolding get_all visible
history_shows_all b ops f h =
    rw (load-cache b (run b ops (new_history_store f)), run-visible b ops (new_history_store f))
      (newest_first-reversed (effects ops (contents f)) (all_real-effects ops (contents f) h))
