-- ===== src/Reconnect/Cancels.antt =====
-- The order in which old retries are cancelled (internal/reconnect/monitor.go).
use wireguide_plus.Common.{
  ℕ, suc, ◌≡◌, refl, sym, ap, ◌∙◌, inl, inr, List, [], ◌∷◌, ◌++◌, Option, some, none, String, Bool,
  true, false, str_eq, ◌==◌, all, any, ltb, arith, Bool-cases,
}
use wireguide_plus.Common.Maps.{lookup, put, remove}
use wireguide_plus.Reconnect.Slots.{
  Entry, cancel, cancel_entry, cancel_entries, ids, id_of, without,
}

-- The retries that are left when all of these are cancelled.
unfoldable pub cancel_ids : List ℕ → List (String × ℕ) → List (String × ℕ)
unfolding cancel
cancel_ids [] gs = gs
cancel_ids (i ∷ is) gs = cancel_ids is (cancel i gs)

pub cancel_ids-append :
    (is js : List ℕ) (gs : List (String × ℕ))
    → cancel_ids (is ++ js) gs ≡ cancel_ids js (cancel_ids is gs)
unfolding cancel_ids
cancel_ids-append [] js gs = refl
cancel_ids-append (i ∷ is) js gs = cancel_ids-append is js (cancel i gs)

pub cancel_ids-ids :
    (m : List (String × Entry)) (gs : List (String × ℕ))
    → cancel_ids (ids m) gs ≡ cancel_entries m gs
unfolding cancel_ids ids cancel_entries
cancel_ids-ids [] gs = refl
cancel_ids-ids ((k, e) ∷ m) gs = cancel_ids-ids m (cancel e.id gs)

pub cancel_ids-id_of :
    (o : Option Entry) (gs : List (String × ℕ)) → cancel_ids (id_of o) gs ≡ cancel_entry o gs
unfolding cancel_ids
cancel_ids-id_of none gs = refl
cancel_ids-id_of (some e) gs = refl

cancel_comm : (i j : ℕ) (gs : List (String × ℕ)) → cancel i (cancel j gs) ≡ cancel j (cancel i gs)
unfolding cancel
cancel_comm i j [] = refl
cancel_comm i j (g ∷ gs) = elim (Bool-cases (g.1 == i)) [
  | inl e ↦ elim (Bool-cases (g.1 == j)) [
    | inl d ↦ rw (e, d) (cancel_comm i j gs)
    | inr d ↦ rw (e, d, e) (cancel_comm i j gs)
  ]
  | inr e ↦ elim (Bool-cases (g.1 == j)) [
    | inl d ↦ rw (e, d) (cancel_comm i j gs)
    | inr d ↦ rw (e, d, e) (ap (λ t. g ∷ t) (cancel_comm i j gs))
  ]
]

cancel_idem : (i : ℕ) (gs : List (String × ℕ)) → cancel i (cancel i gs) ≡ cancel i gs
unfolding cancel
cancel_idem i [] = refl
cancel_idem i (g ∷ gs) = elim (Bool-cases (g.1 == i)) [
  | inl e ↦ rw e (cancel_idem i gs)
  | inr e ↦ rw (e, e) (ap (λ t. g ∷ t) (cancel_idem i gs))
]

pub cancel_ids-cancel :
    (is : List ℕ) (i : ℕ) (gs : List (String × ℕ))
    → cancel_ids is (cancel i gs) ≡ cancel i (cancel_ids is gs)
unfolding cancel_ids
cancel_ids-cancel [] i gs = refl
cancel_ids-cancel (j ∷ js) i gs =
    ap (cancel_ids js) (cancel_comm j i gs) ∙ cancel_ids-cancel js i (cancel j gs)

cancel-same : (i j : ℕ) (gs : List (String × ℕ)) → (j == i) ≡ true → cancel j gs ≡ cancel i gs
cancel-same i j gs h = ap (λ t. cancel t gs) (ground (arith, h))

cancel_ids-without :
    (i : ℕ) (is : List ℕ) (gs : List (String × ℕ))
    → cancel_ids (without i is) (cancel i gs) ≡ cancel_ids is (cancel i gs)
unfolding cancel_ids without
cancel_ids-without i [] gs = refl
cancel_ids-without i (j ∷ js) gs = elim (Bool-cases (j == i)) [
  | inl e ↦ rw e (
      cancel_ids-without i js gs
      ∙ ap (cancel_ids js) (sym (cancel-same i j (cancel i gs) e ∙ cancel_idem i gs)))
  | inr e ↦ rw e (
      ap (cancel_ids (without i js)) (cancel_comm j i gs)
      ∙ cancel_ids-without i js (cancel j gs)
      ∙ ap (cancel_ids js) (cancel_comm i j gs))
]

cancel_ids-member :
    (i : ℕ) (is : List ℕ) (gs : List (String × ℕ))
    → any (λ j. j == i) is ≡ true
    → cancel_ids is (cancel i gs) ≡ cancel_ids is gs
unfolding cancel_ids
cancel_ids-member i [] gs h = cc
cancel_ids-member i (j ∷ js) gs h = elim (Bool-cases (j == i)) [
  | inl e ↦
      ap (cancel_ids js)
        (cancel-same i j (cancel i gs) e ∙ cancel_idem i gs ∙ sym (cancel-same i j gs e))
  | inr e ↦
      ap (cancel_ids js) (cancel_comm j i gs)
      ∙ cancel_ids-member i js (cancel j gs) (ground (arith, h, e))
]

-- Cancelling one of them changes nothing of what is left in the end.
pub cancel_old-cancel_ids :
    (i : ℕ) (is : List ℕ) (gs : List (String × ℕ))
    → any (λ j. j == i) is ≡ true
    → cancel_ids (without i is) (cancel i gs) ≡ cancel_ids is gs
cancel_old-cancel_ids i is gs h = cancel_ids-without i is gs ∙ cancel_ids-member i is gs h

-- All numbers are below `n`.
abbrev pub all_below : ℕ → List ℕ → Bool
all_below n is = all (λ i. ltb i n) is

pub all_below-append :
    (n : ℕ) (is js : List ℕ)
    → all_below n is ≡ true
    → all_below n js ≡ true
    → all_below n (is ++ js) ≡ true
all_below-append n [] js h k = k
all_below-append n (i ∷ is) js h k =
    ground (arith, h, all_below-append n is js (ground (arith, h)) k)

pub all_below-suc : (n : ℕ) (is : List ℕ) → all_below n is ≡ true → all_below (suc n) is ≡ true
all_below-suc n [] h = refl
all_below-suc n (i ∷ is) h = ground (arith, h, all_below-suc n is (ground (arith, h)))

pub all_below-without :
    (n i : ℕ) (is : List ℕ) → all_below n is ≡ true → all_below n (without i is) ≡ true
unfolding without
all_below-without n i [] h = refl
all_below-without n i (j ∷ js) h = ground (arith, h, all_below-without n i js (ground (arith, h)))

pub all_below-id_of :
    (n : ℕ) (name : String) (m : List (String × Entry))
    → all_below n (ids m) ≡ true
    → all_below n (id_of (lookup name m)) ≡ true
unfolding ids lookup
all_below-id_of n name [] h = refl
all_below-id_of n name ((k, e) ∷ m) h = elim (Bool-cases (str_eq k name)) [
  | inl x ↦ rw x (ground (arith, h))
  | inr x ↦ rw x (all_below-id_of n name m (ground (arith, h)))
]

pub all_below-remove :
    (n : ℕ) (name : String) (m : List (String × Entry))
    → all_below n (ids m) ≡ true
    → all_below n (ids (remove name m)) ≡ true
unfolding ids remove
all_below-remove n name [] h = refl
all_below-remove n name ((k, e) ∷ m) h = elim (Bool-cases (str_eq k name)) [
  | inl x ↦ rw x (all_below-remove n name m (ground (arith, h)))
  | inr x ↦ rw x (ground (arith, h, all_below-remove n name m (ground (arith, h))))
]

pub all_below-put :
    (n : ℕ) (name : String) (e : Entry) (m : List (String × Entry))
    → ltb e.id n ≡ true
    → all_below n (ids m) ≡ true
    → all_below n (ids (put name e m)) ≡ true
unfolding ids put
all_below-put n name e [] k h = ground (arith, k)
all_below-put n name e ((j, d) ∷ m) k h = elim (Bool-cases (str_eq j name)) [
  | inl x ↦ rw x (ground (arith, h, k))
  | inr x ↦ rw x (ground (arith, h, all_below-put n name e m k (ground (arith, h))))
]

-- A new retry is cancelled by none of the old numbers.
pub cancel_ids-new :
    (n : ℕ) (name : String) (is : List ℕ) (gs : List (String × ℕ))
    → all_below n is ≡ true
    → cancel_ids is ((name, n) ∷ gs) ≡ (name, n) ∷ cancel_ids is gs
unfolding cancel_ids cancel
cancel_ids-new n name [] gs h = refl
cancel_ids-new n name (i ∷ is) gs h =
    let e : (n == i) ≡ false = ground (arith, h) in
    rw e (cancel_ids-new n name is (cancel i gs) (ground (arith, h)))
