-- ===== src/Update/Unchanged.antt =====
-- What the scheduler of internal/update/scheduler.go announces while the feed does not change.
use mathlib.Core.Path.{ap₂, subst}
use wireguide_plus.Common.{
  ℕ, ◌≡◌, refl, sym, ap, All, ◌⊎◌, if◌then◌else◌, ◌∙◌, List, [], ◌∷◌, ◌++◌, Option, none, some,
  Bool, true, false, String, str_eq, arith, Bool-cases, inl, inr,
}
use wireguide_plus.Update.Scheduler.{
  UpdateInfo, Response, check_for_update, read_response, Feed, or_else, State, Scheduler, dismiss,
  count_error, count_success, record_result, is_new, maybe_notify, notify_result, check_now, kick,
}
use wireguide_plus.Update.Persistence.{
  Program, save_store, Event, check, step, run, OnDisk, Both, save-OnDisk, load-OnDisk,
}

-- What the feed answers while it has not changed since the answer with this ETag: 304 with the same
-- ETag or with none, or an error.
abbrev pub Calm : String → Response → Type 0
Calm etag Response.unreachable = Unit
Calm etag (Response.refused new modified) = Unit
Calm etag (Response.not_modified new modified) = (new ≡ etag) ⊎ (new ≡ "")
Calm etag (Response.answered new modified none) = Unit
Calm etag (Response.answered new modified (some i)) = ⊥

-- The feed has not changed for who sends this ETag, and a new start can read the file.
abbrev pub Stays : String → Event → Type 0
Stays etag (Event.checked now feed succeeds) = (modified : String) → Calm etag (feed etag modified)
Stays etag (Event.restarted succeeds) = succeeds ≡ true
Stays etag _ = Unit

abbrev Tagged : String → State → Type 0
Tagged etag st = st.etag ≡ etag

same-either : (b : Bool) (new old : String) → new ≡ old → (if b then old else new) ≡ old
same-either true new old e = refl
same-either false new old e = e

or_else-same : (new old : String) → (new ≡ old) ⊎ (new ≡ "") → or_else new old ≡ old
or_else-same new old (inl e) = same-either (str_eq new "") new old e
or_else-same new old (inr e) = ap (λ t. or_else t old) e

quiet-check :
    (etag : String) (now : ℕ) (r : Response) (s : Scheduler)
    → Calm etag r
    → s.store.etag ≡ etag
    → ((check_now now (read_response r) s).0.store.etag ≡ etag)
      × ((check_now now (read_response r) s).1 ≡ [])
unfolding check_now read_response record_result notify_result maybe_notify count_error count_success
quiet-check etag now Response.unreachable s q h = (h, refl)
quiet-check etag now (Response.refused new modified) s q h = (h, refl)
quiet-check etag now (Response.not_modified new modified) s q h =
    (ap (or_else new) h ∙ or_else-same new etag q, refl)
quiet-check etag now (Response.answered new modified none) s q h = (h, refl)
quiet-check etag now (Response.answered new modified (some i)) s q h = elim q [ ]

check-quiet :
    (etag : String) (now : ℕ) (feed : Feed) (s : Scheduler)
    → ((modified : String) → Calm etag (feed etag modified))
    → s.store.etag ≡ etag
    → ((check now feed s).0.store.etag ≡ etag) × ((check now feed s).1 ≡ [])
unfolding check check_for_update
check-quiet etag now feed s q h =
    quiet-check etag now (feed s.store.etag s.store.last_modified) s
      (subst (λ t. Calm etag (feed t s.store.last_modified)) (sym h) (q s.store.last_modified)) h

etag-dismiss : (v : String) (st : State) → (dismiss v st).etag ≡ st.etag
unfolding dismiss
etag-dismiss v st = ground arith

quiet_step :
    (etag : String) (e : Event) (p : Program)
    → Stays etag e
    → Both (Tagged etag) p
    → Both (Tagged etag) (step e p).0 × ((step e p).1 ≡ [])
unfolding step kick
quiet_step etag (Event.checked now feed succeeds) p q h =
    let k = check-quiet etag now feed p.scheduler q h.0 in
    (
      (k.0, save-OnDisk (Tagged etag) succeeds (check now feed p.scheduler).0.store p.disk k.0 h.1),
      k.1,
    )
quiet_step etag Event.disabled_round p q h = (h, refl)
quiet_step etag (Event.dismissed w succeeds) p q h =
    let k = etag-dismiss w p.scheduler.store ∙ h.0 in ((k, file (str_eq w "") k), refl)
  where
    file :
        (b : Bool)
        → Tagged etag (dismiss w p.scheduler.store)
        → OnDisk
            (Tagged etag)
            (if b then p.disk else save_store succeeds (dismiss w p.scheduler.store) p.disk)
    file true k = h.1
    file false k = save-OnDisk (Tagged etag) succeeds (dismiss w p.scheduler.store) p.disk k h.1
quiet_step etag (Event.kicked force now) p q h = ((ground (arith, h.0), h.1), refl)
quiet_step etag (Event.restarted true) p q h = ((load-OnDisk (Tagged etag) p.disk h.1, h.1), refl)
quiet_step etag (Event.restarted false) p q h = cc

run-quiet :
    (etag : String) (es : List Event) (p : Program)
    → All (Stays etag) es
    → Both (Tagged etag) p
    → Both (Tagged etag) (run es p).0 × ((run es p).1 ≡ [])
unfolding run
run-quiet etag [] p q h = (h, refl)
run-quiet etag (e ∷ es) p q h =
    let k = run-quiet etag es p q.1 h in
    let t = quiet_step etag e (run es p).0 q.0 k.0 in (t.0, ap₂ (λ xs ys. xs ++ ys) t.1 k.1)

store-maybe_notify : (i : Option UpdateInfo) (s : Scheduler) → (maybe_notify i s).0.store ≡ s.store
unfolding maybe_notify
store-maybe_notify none s = refl
store-maybe_notify (some i) s = elim (Bool-cases (is_new i s)) [
  | inl e ↦ rw e refl
  | inr e ↦ rw e refl
]

answered-etag :
    (etag modified : String) (i : UpdateInfo) (now : ℕ) (feed : Feed) (s : Scheduler)
    → str_eq etag "" ≡ false
    → feed s.store.etag s.store.last_modified ≡ Response.answered etag modified (some i)
    → (check now feed s).0.store.etag ≡ etag
unfolding check check_now check_for_update read_response record_result notify_result maybe_notify
    count_success
answered-etag etag modified i now feed s h e = rw e (
    ap (λ t. t.etag)
      (store-maybe_notify (some i)
        (record_result now (read_response (Response.answered etag modified (some i))) s))
    ∙ ap (λ b. if b then s.store.etag else etag) h)

-- After a check that got a release with an ETag, and that could be saved, nothing is announced while
-- the feed has not changed: it answers 304 to who sends that ETag, or fails. So it is after a new start
-- of the program that can read the file: a release that it knew of before is not announced again.
pub unchanged_feed_is_silent :
    (etag modified : String) (i : UpdateInfo) (now : ℕ) (feed : Feed) (es : List Event)
    (p : Program)
    → str_eq etag "" ≡ false
    → feed p.scheduler.store.etag p.scheduler.store.last_modified
      ≡ Response.answered etag modified (some i)
    → All (Stays etag) es
    → (run es (step (Event.checked now feed true) p).0).1 ≡ []
unchanged_feed_is_silent etag modified i now feed es p h e q =
    let k = answered-etag etag modified i now feed p.scheduler h e in
    (run-quiet etag es (step (Event.checked now feed true) p).0 q
      (unfold step save_store in (k, ((check now feed p.scheduler).0.store, refl, k)))).1
