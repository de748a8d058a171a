-- ===== src/Storage/History/Contents.antt =====
-- What the operations of the session log of internal/storage/history.go do to the list of sessions.
use wireguide_plus.Common.{
  ℕ, zero, suc, ◌+◌, ◌-◌, ◌≤◌, ◌≡◌, refl, ap, List, [], ◌∷◌, ◌++◌, Option, none, some, false, ◌==◌,
  leb, String, str_eq, length, if◌then◌else◌, Bool-cases, Option-cases, inl, inr, arith,
}
use wireguide_plus.Storage.History.{
  Session, Closing, Op, new_session, slice_from, trim_sessions, close_session, close_open, trim_old,
}
use wireguide_plus.Common.{leb→le}

-- What the closing of a session leaves: nothing else changes if it is not found.
abbrev pub or_same : List Session → Option (List Session) → List Session
or_same ss none = ss
or_same ss (some ts) = ts

-- The list of sessions after an operation.
unfoldable pub effect : Op → List Session → List Session
effect (Op.record_connect id name now) ss = trim_sessions (ss ++ new_session id name now ∷ [])
effect (Op.record_disconnect c) ss = if str_eq c.id "" then ss else or_same ss (close_session c ss)
effect (Op.close_open_sessions reason now) ss = (close_open reason now ss).0
effect (Op.trim_by_age max_age now) ss = if max_age == 0 then ss else (trim_old max_age now ss).0
effect (Op.clear removes) ss = []
effect op ss = ss

length-slice_from :
    (n : ℕ) (ss : List Session) → n ≤ length ss → length (slice_from n ss) ≡ length ss - n
unfolding slice_from
length-slice_from zero ss h = omega arith
length-slice_from (suc n) [] h = omega (arith, h)
length-slice_from (suc n) (s ∷ ss) h = omega (arith, length-slice_from n ss (omega (arith, h)))

length-trim_sessions : (ss : List Session) → length (trim_sessions ss) ≤ 200
unfolding trim_sessions
length-trim_sessions ss = elim (Bool-cases (leb (length ss) 200)) [
  | inl e ↦ rw e (omega (arith, leb→le (length ss) 200 e))
  | inr e ↦ rw e (ground (arith, length-slice_from (length ss - 200) ss))
]

length-close_session :
    (c : Closing) (ss : List Session) → length (or_same ss (close_session c ss)) ≤ length ss
unfolding close_session
length-close_session c [] = omega arith
length-close_session c (s ∷ ss) = elim (Option-cases (close_session c ss)) [
  | inl e ↦ rw e (ground arith)
  | inr (ts, e) ↦ rw e (ground (arith, ap (or_same ss) e, length-close_session c ss))
]

length-close_open :
    (reason : String) (now : ℕ) (ss : List Session)
    → length (close_open reason now ss).0 ≤ length ss
unfolding close_open
length-close_open reason now [] = omega arith
length-close_open reason now (s ∷ ss) = ground (arith, length-close_open reason now ss)

length-trim_old :
    (max_age now : ℕ) (ss : List Session)
    → length (trim_old max_age now ss).0 + (trim_old max_age now ss).1 ≡ length ss
unfolding trim_old
length-trim_old max_age now [] = refl
length-trim_old max_age now (s ∷ ss) = ground (arith, length-trim_old max_age now ss)

-- Nothing changes unless a loop says so.
pub close_open-same :
    (reason : String) (now : ℕ) (ss : List Session)
    → (close_open reason now ss).1 ≡ false
    → (close_open reason now ss).0 ≡ ss
unfolding close_open
close_open-same reason now [] h = refl
close_open-same reason now (s ∷ ss) h = ground (arith, h, close_open-same reason now ss)

pub trim_old-same :
    (max_age now : ℕ) (ss : List Session)
    → (trim_old max_age now ss).1 ≡ 0
    → (trim_old max_age now ss).0 ≡ ss
unfolding trim_old
trim_old-same max_age now [] h = refl
trim_old-same max_age now (s ∷ ss) h = ground (arith, h, trim_old-same max_age now ss)

-- The log has at most 200 sessions after an operation if it had before.
pub effect_bounded : (op : Op) (ss : List Session) → length ss ≤ 200 → length (effect op ss) ≤ 200
unfolding effect
effect_bounded (Op.record_connect id name now) ss h =
    length-trim_sessions (ss ++ new_session id name now ∷ [])
effect_bounded (Op.record_disconnect c) ss h = elim (Bool-cases (str_eq c.id "")) [
  | inl e ↦ rw e h
  | inr e ↦ rw e (omega (arith, h, length-close_session c ss))
]
effect_bounded (Op.close_open_sessions reason now) ss h =
    omega (arith, h, length-close_open reason now ss)
effect_bounded (Op.trim_by_age max_age now) ss h = ground (arith, h, length-trim_old max_age now ss)
effect_bounded (Op.clear removes) ss h = omega arith
effect_bounded Op.read ss h = h
effect_bounded (Op.flush saves) ss h = h
effect_bounded (Op.flush_timer_fires saves) ss h = h
