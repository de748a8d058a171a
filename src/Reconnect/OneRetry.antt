-- ===== src/Reconnect/OneRetry.antt =====
-- Each key has at most one live retry (internal/reconnect/monitor.go), but for those that are about to
-- be cancelled.
use mathlib.Core.Path.{subst}
use wireguide_plus.Common.{
  ◌++◌, any, ℕ, suc, ◌≤◌, ◌≡◌, refl, sym, ap, ◌∙◌, inl, inr, List, [], ◌∷◌, Option, some, none,
  String, Bool, true, ◌&&◌, not, str_eq, ◌==◌, all, arith, Bool-cases,
}
use wireguide_plus.Common.Maps.{lookup, put, remove}
use wireguide_plus.Reconnect.Cancels.{
  cancel_ids, cancel_ids-append, cancel_ids-ids, cancel_ids-id_of, cancel_ids-cancel,
  cancel_old-cancel_ids, all_below, all_below-append, all_below-suc, all_below-without,
  all_below-id_of, all_below-remove, all_below-put, cancel_ids-new,
}
use wireguide_plus.Reconnect.Slots.{
  ids, id_of, cancel_old, Entry, Slots, cancel, cancel_entry, cancel_entries, trigger, cancel_retry,
  cancel_retry_for, same_entry, clear_slot, finish_retry, Op, apply, run, no_slots,
}
use wireguide_plus.Reconnect.Owners.{
  owned, count, IsSingle, all-cancel, count-cancel, cancel_entries-nil, all_slots, one_slot,
  no_slot, owned-clear_slot,
}

-- The retries that are left when the triggers in progress have cancelled all that they have to.
abbrev pub settled : Slots → List (String × ℕ)
settled m = cancel_ids m.waiting m.live

-- No number is used twice, and what is left is single.
record IsSound (m : Slots) : Type 0 where
  old : all_below m.next_id m.waiting ≡ true
  used : all_below m.next_id (ids m.retries) ≡ true
  sound : IsSingle m.retries (settled m)

-- A new retry, after the old ones among `is` are taken out of their slots.
new-settled :
    (name : String) (m : Slots) (is : List ℕ)
    → all_below m.next_id m.waiting ≡ true
    → all_below m.next_id is ≡ true
    → cancel_ids (m.waiting ++ is) ((name, m.next_id) ∷ m.live)
      ≡ (name, m.next_id) ∷ cancel_ids is (settled m)
new-settled name m is h k =
    cancel_ids-append m.waiting is ((name, m.next_id) ∷ m.live)
    ∙ ap (cancel_ids is) (cancel_ids-new m.next_id name m.waiting m.live h)
    ∙ cancel_ids-new m.next_id name is (settled m) k

trigger_all-IsSound :
    (name : String) (m : Slots)
    → IsSound m
    → IsSound (record {
      retries = (name, record { id = m.next_id; attempt = 0 }) ∷ [];
      live = (name, m.next_id) ∷ m.live;
      waiting = m.waiting ++ ids m.retries;
      next_id = suc m.next_id;
    })
trigger_all-IsSound name m h = record {
  old =
      all_below-suc m.next_id (m.waiting ++ ids m.retries)
        (all_below-append m.next_id m.waiting (ids m.retries) h.old h.used);
  used = unfold ids in ground arith;
  sound =
      subst (IsSingle ((name, record { id = m.next_id; attempt = 0 }) ∷ []))
        (sym (
          new-settled name m (ids m.retries) h.old h.used
          ∙ ap (λ t. (name, m.next_id) ∷ t) (cancel_ids-ids m.retries (settled m))))
        (all_slots name m.next_id m.retries (settled m) h.sound);
}

trigger_one-IsSound :
    (name : String) (m : Slots)
    → IsSound m
    → IsSound (record {
      retries = put name (record { id = m.next_id; attempt = 0 }) (remove name m.retries);
      live = (name, m.next_id) ∷ m.live;
      waiting = m.waiting ++ id_of (lookup name m.retries);
      next_id = suc m.next_id;
    })
trigger_one-IsSound name m h =
    let e : Entry = record { id = m.next_id; attempt = 0 } in
    let is = id_of (lookup name m.retries) in
    let k = all_below-id_of m.next_id name m.retries h.used in
    record {
      old =
          all_below-suc m.next_id (m.waiting ++ is)
            (all_below-append m.next_id m.waiting is h.old k);
      used = all_below-put (suc m.next_id) name e (remove name m.retries) (ground arith) (
          all_below-suc m.next_id (ids (remove name m.retries))
            (all_below-remove m.next_id name m.retries h.used));
      sound =
          subst (IsSingle (put name e (remove name m.retries)))
            (sym (
              new-settled name m is h.old k
              ∙ ap (λ t. (name, m.next_id) ∷ t)
                  (cancel_ids-id_of (lookup name m.retries) (settled m))))
            (one_slot name m.next_id m.retries (settled m) h.sound);
    }

trigger-IsSound :
    (disabled : String → Bool) (name : String) (m : Slots)
    → IsSound m
    → IsSound (trigger disabled name m)
unfolding trigger
trigger-IsSound disabled name m h = elim (Bool-cases (not (str_eq name "") && disabled name)) [
  | inl e ↦ rw e h
  | inr e ↦ rw e (elim (Bool-cases (str_eq name "")) [
    | inl a ↦ rw a (trigger_all-IsSound name m h)
    | inr a ↦ rw a (trigger_one-IsSound name m h)
  ])
]

cancel_old-IsSound : (id : ℕ) (m : Slots) → IsSound m → IsSound (cancel_old id m)
unfolding cancel_old
cancel_old-IsSound id m h = elim (Bool-cases (any (λ i. i == id) m.waiting)) [
  | inr e ↦ rw e h
  | inl e ↦ rw e (record {
    old = all_below-without m.next_id id m.waiting h.old;
    used = h.used;
    sound = subst (IsSingle m.retries) (sym (cancel_old-cancel_ids id m.waiting m.live e)) h.sound;
  })
]

-- Cancelling entries and what triggers in progress cancel can be swapped.
cancel_entries-settled :
    (m : List (String × Entry)) (is : List ℕ) (gs : List (String × ℕ))
    → cancel_ids is (cancel_entries m gs) ≡ cancel_entries m (cancel_ids is gs)
unfolding cancel_entries
cancel_entries-settled [] is gs = refl
cancel_entries-settled ((k, e) ∷ m) is gs =
    cancel_entries-settled m is (cancel e.id gs)
    ∙ ap (cancel_entries m) (cancel_ids-cancel is e.id gs)

cancel_entry-settled :
    (o : Option Entry) (is : List ℕ) (gs : List (String × ℕ))
    → cancel_ids is (cancel_entry o gs) ≡ cancel_entry o (cancel_ids is gs)
cancel_entry-settled none is gs = refl
cancel_entry-settled (some e) is gs = cancel_ids-cancel is e.id gs

cancel_retry-settled :
    (m : Slots) → IsSound m → cancel_ids m.waiting (cancel_entries m.retries m.live) ≡ []
cancel_retry-settled m h =
    cancel_entries-settled m.retries m.waiting m.live
    ∙ cancel_entries-nil m.retries (settled m) h.sound.owners

cancel_retry-IsSound : (m : Slots) → IsSound m → IsSound (cancel_retry m)
unfolding cancel_retry
cancel_retry-IsSound m h = record {
  old = h.old;
  used = unfold ids in refl;
  sound =
      subst (IsSingle []) (sym (cancel_retry-settled m h))
        (record { owners = refl; single = λ n. unfold count in omega arith });
}

cancel_retry_for-IsSound :
    (name : String) (m : Slots) → IsSound m → IsSound (cancel_retry_for name m)
unfolding cancel_retry_for
cancel_retry_for-IsSound name m h = record {
  old = h.old;
  used = all_below-remove m.next_id name m.retries h.used;
  sound =
      subst (IsSingle (remove name m.retries))
        (sym (cancel_entry-settled (lookup name m.retries) m.waiting m.live))
        (no_slot name m.retries (settled m) h.sound);
}

all_below-clear_slot :
    (name : String) (id : ℕ) (m : Slots)
    → all_below m.next_id (ids m.retries) ≡ true
    → all_below m.next_id (ids (clear_slot name id m).retries) ≡ true
unfolding clear_slot
all_below-clear_slot name id m h = elim (Bool-cases (same_entry (lookup name m.retries) id)) [
  | inl e ↦ rw e (all_below-remove m.next_id name m.retries h)
  | inr e ↦ rw e h
]

clear_slot-same :
    (name : String) (id : ℕ) (m : Slots)
    → ((clear_slot name id m).waiting ≡ m.waiting) × ((clear_slot name id m).next_id ≡ m.next_id)
unfolding clear_slot
clear_slot-same name id m = elim (Bool-cases (same_entry (lookup name m.retries) id)) [
  | inl e ↦ rw e (refl, refl)
  | inr e ↦ rw e (refl, refl)
]

finish_retry-IsSound :
    (name : String) (id : ℕ) (m : Slots) → IsSound m → IsSound (finish_retry name id m)
unfolding finish_retry
finish_retry-IsSound name id m h =
    let same = clear_slot-same name id m in
    record {
      old = rw (same.0, same.1) h.old;
      used = rw (same.1) (all_below-clear_slot name id m h.used);
      sound = rw (same.0) (
          subst (IsSingle (clear_slot name id m).retries)
            (sym (cancel_ids-cancel m.waiting id m.live))
            (record {
              owners =
                  all-cancel (owned m.retries) (owned (clear_slot name id m).retries) id (settled m)
                    (owned-clear_slot name id m) h.sound.owners;
              single = λ n. omega (arith, count-cancel n id (settled m), h.sound.single n);
            }));
    }

apply-IsSound :
    (disabled : String → Bool) (o : Op) (m : Slots) → IsSound m → IsSound (apply disabled o m)
unfolding apply
apply-IsSound disabled (Op.trigger_tunnel name) m h = trigger-IsSound disabled name m h
apply-IsSound disabled (Op.cancels_old id) m h = cancel_old-IsSound id m h
apply-IsSound disabled Op.cancel_all m h = cancel_retry-IsSound m h
apply-IsSound disabled (Op.cancel_tunnel name) m h = cancel_retry_for-IsSound name m h
apply-IsSound disabled (Op.returns name id) m h = finish_retry-IsSound name id m h

run-IsSound :
    (disabled : String → Bool) (os : List Op) (m : Slots) → IsSound m → IsSound (run disabled os m)
unfolding run
run-IsSound disabled [] m h = h
run-IsSound disabled (o ∷ os) m h =
    run-IsSound disabled os (apply disabled o m) (apply-IsSound disabled o m h)

start-IsSound : IsSound no_slots
unfolding cancel_ids ids count
start-IsSound = record {
  old = refl;
  used = refl;
  sound = record { owners = refl; single = λ k. omega arith };
}

-- After any sequence of triggers, their cancels of old retries, other cancels and returns: but for the
-- old retries that a trigger in progress has yet to cancel, each key has at most one live retry, and
-- every live retry is the one in the slot of its key, so that CancelRetry and CancelRetryFor reach it.
pub one_retry :
    (disabled : String → Bool) (os : List Op) (n : String)
    → let m : Slots = run disabled os no_slots in
      (count n (cancel_ids m.waiting m.live) ≤ 1)
      × (all (owned m.retries) (cancel_ids m.waiting m.live) ≡ true)
one_retry disabled os n =
    let h = (run-IsSound disabled os no_slots start-IsSound).sound in (h.single n, h.owners)
