-- ===== src/Update/Announced.antt =====
-- Which releases the scheduler of internal/update/scheduler.go announces.
use wireguide_plus.Common.{
  ℕ, ◌≡◌, refl, ap, if◌then◌else◌, ◌∙◌, List, [], ◌∷◌, ◌++◌, Option, none, some, Bool, true, false,
  ◌&&◌, not, String, str_eq, str_eq_iff, str_eq_refl, any, all, any-append, arith, Bool-cases, inl,
  inr,
}
use wireguide_plus.Update.Scheduler.{
  UpdateInfo, Checked, check_for_update, Feed, State, Scheduler, is_dismissed, dismiss, count_error,
  count_success, record_result, is_new, maybe_notify, notify_result, check_now, kick,
}
use wireguide_plus.Update.Persistence.{
  Program, save_store, Event, check, step, run, reads, OnDisk, Both, save-OnDisk, load-OnDisk,
}

abbrev has : String → List String → Bool
has v vs = any (str_eq v) vs

dismissed-record_result :
    (v : String) (now : ℕ) (c : Checked) (s : Scheduler)
    → is_dismissed v (record_result now c s).store ≡ is_dismissed v s.store
unfolding record_result is_dismissed count_error count_success
dismissed-record_result v now (Checked.failed r) s = refl
dismissed-record_result v now (Checked.done r) s = refl

dismissed-maybe_notify :
    (v : String) (i : Option UpdateInfo) (s : Scheduler)
    → is_dismissed v (maybe_notify i s).0.store ≡ is_dismissed v s.store
unfolding maybe_notify is_dismissed
dismissed-maybe_notify v none s = refl
dismissed-maybe_notify v (some i) s = elim (Bool-cases (is_new i s)) [
  | inl e ↦ rw e refl
  | inr e ↦ rw e refl
]

dismissed-notify_result :
    (v : String) (c : Checked) (s : Scheduler)
    → is_dismissed v (notify_result c s).0.store ≡ is_dismissed v s.store
unfolding notify_result
dismissed-notify_result v (Checked.failed r) s = refl
dismissed-notify_result v (Checked.done r) s = dismissed-maybe_notify v r.info s

dismissed-dismiss :
    (v w : String) (st : State) → is_dismissed v st ≡ true → is_dismissed v (dismiss w st) ≡ true
unfolding is_dismissed dismiss
dismissed-dismiss v w st h = ground (arith, h, any-append (str_eq v) st.dismissed_versions (w ∷ []))

same-dismissed :
    (v w : String) (st : State) → str_eq v w ≡ true → is_dismissed v st ≡ is_dismissed w st
same-dismissed v w st h = ap (λ t. is_dismissed t st) ((str_eq_iff v w).0 h)

undismissed-maybe_notify :
    (v : String) (i : Option UpdateInfo) (s : Scheduler)
    → is_dismissed v s.store ≡ true
    → has v (maybe_notify i s).1 ≡ false
unfolding maybe_notify is_new
undismissed-maybe_notify v none s h = refl
undismissed-maybe_notify v (some i) s h = ground (arith, h, same-dismissed v i.version s.store)

-- What is announced was not dismissed.
notified-undismissed :
    (v : String) (c : Checked) (s : Scheduler)
    → is_dismissed v s.store ≡ true
    → has v (notify_result c s).1 ≡ false
unfolding notify_result
notified-undismissed v (Checked.failed r) s h = refl
notified-undismissed v (Checked.done r) s h = undismissed-maybe_notify v r.info s h

check-dismissed :
    (v : String) (now : ℕ) (feed : Feed) (s : Scheduler)
    → is_dismissed v s.store ≡ true
    → (is_dismissed v (check now feed s).0.store ≡ true) × (has v (check now feed s).1 ≡ false)
unfolding check check_now
check-dismissed v now feed s h =
    let c = check_for_update feed s.store.etag s.store.last_modified in
    let k = dismissed-record_result v now c s ∙ h in
    (
      dismissed-notify_result v c (record_result now c s) ∙ k,
      notified-undismissed v c (record_result now c s) k,
    )

abbrev Knows : String → State → Type 0
Knows v st = is_dismissed v st ≡ true

step-dismissed :
    (v : String) (e : Event) (p : Program)
    → reads e ≡ true
    → Both (Knows v) p
    → Both (Knows v) (step e p).0 × (has v (step e p).1 ≡ false)
unfolding step kick
step-dismissed v (Event.checked now feed succeeds) p r h =
    let k = check-dismissed v now feed p.scheduler h.0 in
    ((k.0, save-OnDisk (Knows v) succeeds (check now feed p.scheduler).0.store p.disk k.0 h.1), k.1)
step-dismissed v Event.disabled_round p r h = (h, refl)
step-dismissed v (Event.dismissed w succeeds) p r h =
    let k = dismissed-dismiss v w p.scheduler.store h.0 in ((k, file (str_eq w "") k), refl)
  where
    file :
        (b : Bool)
        → Knows v (dismiss w p.scheduler.store)
        → OnDisk
            (Knows v)
            (if b then p.disk else save_store succeeds (dismiss w p.scheduler.store) p.disk)
    file true k = h.1
    file false k = save-OnDisk (Knows v) succeeds (dismiss w p.scheduler.store) p.disk k h.1
step-dismissed v (Event.kicked force now) p r h = ((ground (arith, h.0), h.1), refl)
step-dismissed v (Event.restarted true) p r h = ((load-OnDisk (Knows v) p.disk h.1, h.1), refl)
step-dismissed v (Event.restarted false) p r h = cc

run-dismissed :
    (v : String) (es : List Event) (p : Program)
    → all reads es ≡ true
    → Both (Knows v) p
    → Both (Knows v) (run es p).0 × (has v (run es p).1 ≡ false)
unfolding run
run-dismissed v [] p r h = (h, refl)
run-dismissed v (e ∷ es) p r h =
    let k = run-dismissed v es p (ground (arith, r)) h in
    let t = step-dismissed v e (run es p).0 (ground (arith, r)) k.0 in
    (t.0, any-append (str_eq v) (step e (run es p).0).1 (run es p).1 ∙ ground (arith, t.1, k.1))

now-dismissed :
    (v : String) (st : State) → str_eq v "" ≡ false → is_dismissed v (dismiss v st) ≡ true
unfolding dismiss is_dismissed
now-dismissed v st h =
    ground (arith, h, any-append (str_eq v) st.dismissed_versions (v ∷ []), str_eq_refl v)

saved-OnDisk :
    (P : State → Type 0) (b : Bool) (st : State) (o : Option State)
    → b ≡ false
    → P st
    → OnDisk P (if b then o else save_store true st o)
unfolding save_store
saved-OnDisk P true st o e h = cc
saved-OnDisk P false st o e h = (st, refl, h)

dismiss-Both :
    (v : String) (p : Program)
    → str_eq v "" ≡ false
    → Both (Knows v) (step (Event.dismissed v true) p).0
unfolding step
dismiss-Both v p h =
    let k = now-dismissed v p.scheduler.store h in
    (k, saved-OnDisk (Knows v) (str_eq v "") (dismiss v p.scheduler.store) p.disk h k)

-- Once the user has dismissed a version and that could be saved, it is never announced again, after
-- any checks, kicks, dismissals and new starts, whether what they change can be saved or not, as long
-- as every new start can read the file.
pub dismissed_is_silent :
    (v : String) (es : List Event) (p : Program)
    → str_eq v "" ≡ false
    → all reads es ≡ true
    → any (str_eq v) (run es (step (Event.dismissed v true) p).0).1 ≡ false
dismissed_is_silent v es p h r =
    (run-dismissed v es (step (Event.dismissed v true) p).0 r (dismiss-Both v p h)).1

-- No two successive elements are the same.
unfoldable pub alternates : List String → Bool
alternates [] = true
alternates (v ∷ []) = true
alternates (v ∷ w ∷ vs) = not (str_eq w v) && alternates (w ∷ vs)

-- Whether the last version that was announced is the one that the scheduler remembers.
abbrev is_remembered : List String → String → Bool
is_remembered [] old = true
is_remembered (v ∷ vs) old = str_eq old v

-- Not a new start of the program.
abbrev pub same_session : Event → Bool
same_session (Event.restarted succeeds) = false
same_session e = true

announce-alternates :
    (i : Option UpdateInfo) (s : Scheduler) (vs : List String)
    → alternates vs ≡ true
    → is_remembered vs s.last_notified_version ≡ true
    → (alternates ((maybe_notify i s).1 ++ vs) ≡ true)
      × (is_remembered ((maybe_notify i s).1 ++ vs) (maybe_notify i s).0.last_notified_version
          ≡ true)
unfolding maybe_notify is_new alternates
announce-alternates none s vs h k = (h, k)
announce-alternates (some i) s [] h k = elim (Bool-cases (is_new i s)) [
  | inl e ↦ rw e (refl, str_eq_refl i.version)
  | inr e ↦ rw e (refl, refl)
]
announce-alternates (some i) s (v ∷ vs) h k =
    let d : s.last_notified_version ≡ v = (str_eq_iff s.last_notified_version v).0 k in
    elim (Bool-cases (is_new i s)) [
      | inl e ↦ rw e (ground (arith, e, h, ap (λ t. str_eq t i.version) d), str_eq_refl i.version)
      | inr e ↦ rw e (h, k)
    ]

check-alternates :
    (c : Checked) (s : Scheduler) (vs : List String)
    → alternates vs ≡ true
    → is_remembered vs s.last_notified_version ≡ true
    → (alternates ((notify_result c s).1 ++ vs) ≡ true)
      × (is_remembered ((notify_result c s).1 ++ vs) (notify_result c s).0.last_notified_version
          ≡ true)
unfolding notify_result
check-alternates (Checked.failed r) s vs h k = (h, k)
check-alternates (Checked.done r) s vs h k = announce-alternates r.info s vs h k

last-record_result :
    (now : ℕ) (c : Checked) (s : Scheduler)
    → (record_result now c s).last_notified_version ≡ s.last_notified_version
unfolding record_result
last-record_result now (Checked.failed r) s = refl
last-record_result now (Checked.done r) s = refl

step-alternates :
    (e : Event) (p : Program) (vs : List String)
    → same_session e ≡ true
    → alternates vs ≡ true
    → is_remembered vs p.scheduler.last_notified_version ≡ true
    → (alternates ((step e p).1 ++ vs) ≡ true)
      × (is_remembered ((step e p).1 ++ vs) (step e p).0.scheduler.last_notified_version ≡ true)
unfolding step check check_now kick
step-alternates (Event.checked now feed succeeds) p vs n h k =
    let s = p.scheduler in
    let c = check_for_update feed s.store.etag s.store.last_modified in
    check-alternates c (record_result now c s) vs h
      (ap (is_remembered vs) (last-record_result now c s) ∙ k)
step-alternates Event.disabled_round p vs n h k = (h, k)
step-alternates (Event.dismissed v succeeds) p vs n h k = (h, k)
step-alternates (Event.kicked force now) p vs n h k = (h, ground (arith, k))
step-alternates (Event.restarted succeeds) p vs n h k = cc

run-alternates :
    (es : List Event) (p : Program)
    → all same_session es ≡ true
    → (alternates (run es p).1 ≡ true)
      × (is_remembered (run es p).1 (run es p).0.scheduler.last_notified_version ≡ true)
unfolding run alternates
run-alternates [] p h = (refl, refl)
run-alternates (e ∷ es) p h =
    let r = run-alternates es p (ground (arith, h)) in
    step-alternates e (run es p).0 (run es p).1 (ground (arith, h)) r.0 r.1

-- Within one session of the program no version is announced twice in succession.
pub announcements_alternate :
    (es : List Event) (p : Program) → all same_session es ≡ true → alternates (run es p).1 ≡ true
announcements_alternate es p h = (run-alternates es p h).0
