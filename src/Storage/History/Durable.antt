-- ===== src/Storage/History/Durable.antt =====
-- What the file of internal/storage/history.go holds, and what its log contains, after any operations.
use wireguide_plus.Common.{
  ◌≤◌, ◌≡◌, refl, ap, ◌∙◌, List, [], ◌∷◌, ◌++◌, Option, none, some, Bool, true, false, ◌||◌, not,
  ◌==◌, all, length, str_eq, if◌then◌else◌, Bool-cases, inl, inr, arith,
}
use wireguide_plus.Storage.History.{
  new_session, Session, Stored, contents, set_aside, HistoryStore, Op, step, load, save, commit,
  commit_if, new_history_store, close_open, trim_old, trim_sessions,
}
use wireguide_plus.Storage.History.Contents.{effect, effect_bounded}
use wireguide_plus.Storage.History.Visible.{visible, step-visible}

-- A store without changes to write has what the file has.
IsSaved : HistoryStore → Type 0
IsSaved h = h.cache_valid ≡ true → h.dirty ≡ false → contents h.file ≡ h.cache

contents-set_aside : (b : Bool) (f : Stored) → contents (set_aside b f) ≡ contents f
contents-set_aside true Stored.corrupt = refl
contents-set_aside true Stored.missing = refl
contents-set_aside true Stored.unreadable = refl
contents-set_aside true (Stored.holds ss) = refl
contents-set_aside false f = refl

load-IsSaved : (b : Bool) (h : HistoryStore) → IsSaved h → IsSaved (load b h)
unfolding IsSaved load
load-IsSaved b h k = elim (Bool-cases h.cache_valid) [
  | inl e ↦ rw e (λ v d. k e d)
  | inr e ↦ rw e (λ v d. contents-set_aside b h.file)
]

commit-IsSaved : (ss : List Session) (h : HistoryStore) → IsSaved (commit ss h)
unfolding IsSaved commit
commit-IsSaved ss h v d = ground (arith, d)

commit_if-IsSaved :
    (ss : Option (List Session)) (h : HistoryStore) → IsSaved h → IsSaved (commit_if ss h)
commit_if-IsSaved none h k = k
commit_if-IsSaved (some ss) h k = commit-IsSaved ss h

if-IsSaved : (b : Bool) (g h : HistoryStore) → IsSaved g → IsSaved h → IsSaved (if b then g else h)
if-IsSaved true g h k l = k
if-IsSaved false g h k l = l

save-IsSaved : (b : Bool) (h : HistoryStore) → IsSaved h → IsSaved (save b h)
unfolding IsSaved save
save-IsSaved true h k v d = refl
save-IsSaved false h k v d = k v d

timer-IsSaved : (h : HistoryStore) → IsSaved h → IsSaved (record h { flush_timer = false })
unfolding IsSaved
timer-IsSaved h k = k

clear-IsSaved : IsSaved (record (new_history_store Stored.missing) { cache_valid = true })
unfolding IsSaved
clear-IsSaved v d = refl

-- Not a Clear that leaves the file.
abbrev pub is_kept : Op → Bool
is_kept (Op.clear removes) = removes
is_kept op = true

step-IsSaved :
    (b : Bool) (op : Op) (h : HistoryStore) → is_kept op ≡ true → IsSaved h → IsSaved (step b op h)
unfolding step
step-IsSaved b (Op.record_connect id name now) h e k =
    commit-IsSaved (trim_sessions ((load b h).cache ++ new_session id name now ∷ [])) (load b h)
step-IsSaved b (Op.record_disconnect c) h e k =
    if-IsSaved (str_eq c.id "") _ _ k (commit_if-IsSaved _ _ (load-IsSaved b h k))
step-IsSaved b (Op.close_open_sessions reason now) h e k =
    let r = close_open reason now (load b h).cache in
    if-IsSaved r.1 _ _ (commit-IsSaved r.0 (load b h)) (load-IsSaved b h k)
step-IsSaved b (Op.trim_by_age max_age now) h e k =
    let r = trim_old max_age now (load b h).cache in
    if-IsSaved (max_age == 0) _ _ k
      (if-IsSaved (r.1 == 0) _ _ (load-IsSaved b h k) (commit-IsSaved r.0 (load b h)))
step-IsSaved b Op.read h e k = load-IsSaved b h k
step-IsSaved b (Op.clear true) h e k = clear-IsSaved
step-IsSaved b (Op.clear false) h e k = cc
step-IsSaved b (Op.flush saves) h e k =
    if-IsSaved (not h.dirty || not h.cache_valid) _ _ k (save-IsSaved saves _ (timer-IsSaved h k))
step-IsSaved b (Op.flush_timer_fires saves) h e k =
    if-IsSaved (not h.dirty || not h.cache_valid) _ _ (timer-IsSaved h k)
      (save-IsSaved saves _ (timer-IsSaved h k))

-- The store after some operations, the last one first.
unfoldable pub run : Bool → List Op → HistoryStore → HistoryStore
run b [] h = h
run b (op ∷ ops) h = step b op (run b ops h)

-- The list of sessions after the same operations.
unfoldable pub effects : List Op → List Session → List Session
effects [] ss = ss
effects (op ∷ ops) ss = effect op (effects ops ss)

pub run-visible :
    (b : Bool) (ops : List Op) (h : HistoryStore) → visible (run b ops h) ≡ effects ops (visible h)
unfolding run effects
run-visible b [] h = refl
run-visible b (op ∷ ops) h = step-visible b op (run b ops h) ∙ ap (effect op) (run-visible b ops h)

run-IsSaved :
    (b : Bool) (ops : List Op) (h : HistoryStore)
    → all is_kept ops ≡ true
    → IsSaved h
    → IsSaved (run b ops h)
unfolding run
run-IsSaved b [] h e k = k
run-IsSaved b (op ∷ ops) h e k =
    step-IsSaved b op (run b ops h) (ground (arith, e)) (run-IsSaved b ops h (ground (arith, e)) k)

flushed :
    (b : Bool) (h : HistoryStore)
    → IsSaved h
    → contents ((step b (Op.flush true) h).file) ≡ visible h
unfolding step IsSaved visible save
flushed b h k = elim (Bool-cases h.cache_valid) [
  | inl e ↦ elim (Bool-cases h.dirty) [ inl d ↦ rw (e, d) refl | inr d ↦ rw (e, d) (k e d) ]
  | inr e ↦ rw e (ground arith)
]

new-IsSaved : (f : Stored) → IsSaved (new_history_store f)
unfolding IsSaved
new-IsSaved f v d = ground (arith, v)

-- After any operations and a Flush that succeeds the file holds what the operations do to the list of
-- sessions that it held at the start, whatever writes failed in between; no Clear may have failed to
-- remove the file. A file that could not be read counts as empty.
pub flush_is_durable :
    (b : Bool) (ops : List Op) (f : Stored)
    → all is_kept ops ≡ true
    → contents ((run b (Op.flush true ∷ ops) (new_history_store f)).file) ≡ effects ops (contents f)
unfolding run visible
flush_is_durable b ops f e =
    flushed b (run b ops (new_history_store f))
      (run-IsSaved b ops (new_history_store f) e (new-IsSaved f))
    ∙ run-visible b ops (new_history_store f)

effects_bounded :
    (ops : List Op) (ss : List Session) → length ss ≤ 200 → length (effects ops ss) ≤ 200
unfolding effects
effects_bounded [] ss h = h
effects_bounded (op ∷ ops) ss h = effect_bounded op (effects ops ss) (effects_bounded ops ss h)

-- A log of at most 200 sessions stays one.
pub history_bounded :
    (b : Bool) (ops : List Op) (f : Stored)
    → length (contents f) ≤ 200
    → length (visible (run b ops (new_history_store f))) ≤ 200
unfolding visible
history_bounded b ops f h =
    rw (run-visible b ops (new_history_store f)) (effects_bounded ops (contents f) h)
