-- ===== src/Reconnect/Owners.antt =====
-- Which retries own the slot of their key (internal/reconnect/monitor.go).
use wireguide_plus.Common.{
  ℕ, suc, ◌≤◌, ◌≡◌, refl, sym, ap, ◌∙◌, inl, inr, List, [], ◌∷◌, Option, some, none, String, Bool,
  true, false, ◌&&◌, not, str_eq, str_eq_iff, str_eq_refl, ◌==◌, if◌then◌else◌, all, arith,
  Bool-cases,
}
use wireguide_plus.Common.Maps.{lookup, put, remove, lookup-put, lookup-remove}
use wireguide_plus.Reconnect.Slots.{
  Entry, Slots, cancel, cancel_entry, cancel_entries, same_entry, clear_slot,
}

-- The slot of the goroutine's tunnel holds the goroutine's own entry.
abbrev pub owned : List (String × Entry) → String × ℕ → Bool
owned m g = same_entry (lookup g.0 m) g.1

-- The live retries of a tunnel.
unfoldable pub count : String → List (String × ℕ) → ℕ
count n [] = 0
count n (g ∷ gs) = if str_eq n g.0 then suc (count n gs) else count n gs

abbrev elsewhere : String → String × ℕ → Bool
elsewhere name g = not (str_eq name g.0)

pub all-cancel :
    (f g : String × ℕ → Bool) (id : ℕ) (gs : List (String × ℕ))
    → ((x : String × ℕ) → f x ≡ true → (x.1 == id) ≡ false → g x ≡ true)
    → all f gs ≡ true
    → all g (cancel id gs) ≡ true
unfolding cancel
all-cancel f g id [] keep h = refl
all-cancel f g id (x ∷ gs) keep h = elim (Bool-cases (x.1 == id)) [
  | inl e ↦ rw e (all-cancel f g id gs keep (ground arith))
  | inr e ↦
      let one = keep x (ground arith) e in
      let others = all-cancel f g id gs keep (ground arith) in rw e (rw one others)
]

pub count-cancel :
    (n : String) (id : ℕ) (gs : List (String × ℕ)) → count n (cancel id gs) ≤ count n gs
unfolding cancel count
count-cancel n id [] = omega arith
count-cancel n id (g ∷ gs) = ground (arith, count-cancel n id gs)

count-elsewhere :
    (name : String) (gs : List (String × ℕ)) → all (elsewhere name) gs ≡ true → count name gs ≡ 0
unfolding count
count-elsewhere name [] h = refl
count-elsewhere name (g ∷ gs) h = ground (arith, count-elsewhere name gs)

-- After the slot's entry is cancelled no goroutine of the tunnel is live, and the others own their slots.
owned-cancel_entry :
    (name : String) (m : List (String × Entry)) (o : Option Entry) (gs : List (String × ℕ))
    → lookup name m ≡ o
    → all (owned m) gs ≡ true
    → all (λ g. owned m g && elsewhere name g) (cancel_entry o gs) ≡ true
owned-cancel_entry name m none [] e h = refl
owned-cancel_entry name m none (g ∷ gs) e h =
    let others = owned-cancel_entry name m none gs e (ground arith) in
    let here : owned m g ≡ true = ground arith in
    let away : elsewhere name g ≡ true = not_here name m g e here in rw here (rw away others)
  where
    not_here :
        (name : String) (m : List (String × Entry)) (g : String × ℕ)
        → lookup name m ≡ none
        → owned m g ≡ true
        → elsewhere name g ≡ true
    not_here name m g e h = elim (Bool-cases (str_eq name g.0)) [
      | inl same ↦
          let k =
            sym (ap (λ n. same_entry (lookup n m) g.1) ((str_eq_iff name g.0).0 same))
            ∙ ap (λ o. same_entry o g.1) e in
          cc
      | inr other ↦ rw other refl
    ]
owned-cancel_entry name m (some x) gs e h =
    all-cancel (owned m) (λ g. owned m g && elsewhere name g) x.id gs (keeps name m x e) h
  where
    keeps :
        (name : String) (m : List (String × Entry)) (x : Entry)
        → lookup name m ≡ some x
        → (g : String × ℕ) → owned m g ≡ true
        → (g.1 == x.id) ≡ false
        → owned m g && elsewhere name g ≡ true
    keeps name m x e g h k = elim (Bool-cases (str_eq name g.0)) [
      | inl same ↦
          let at : same_entry (lookup name m) g.1 ≡ true =
            ap (λ n. same_entry (lookup n m) g.1) ((str_eq_iff name g.0).0 same) ∙ h in
          let eq : (x.id == g.1) ≡ true = sym (ap (λ o. same_entry o g.1) e) ∙ at in
          absurd (ground arith)
      | inr other ↦ rw h (rw other refl)
    ]

lookup-cons :
    (k j : String) (e : Entry) (m : List (String × Entry))
    → lookup j ((k, e) ∷ m) ≡ (if str_eq k j then some e else lookup j m)
unfolding lookup
lookup-cons k j e m = refl

-- Cancelling the entries of all slots leaves no goroutine that owns its slot.
pub cancel_entries-nil :
    (m : List (String × Entry)) (gs : List (String × ℕ))
    → all (owned m) gs ≡ true
    → cancel_entries m gs ≡ []
unfolding cancel_entries
cancel_entries-nil [] [] h = refl
cancel_entries-nil [] (g ∷ gs) h = unfold lookup in cc
cancel_entries-nil ((k, e) ∷ m) gs h =
    cancel_entries-nil m (cancel e.id gs)
      (all-cancel (owned ((k, e) ∷ m)) (owned m) e.id gs (later k e m) h)
  where
    later :
        (k : String) (e : Entry) (m : List (String × Entry)) (g : String × ℕ)
        → owned ((k, e) ∷ m) g ≡ true
        → (g.1 == e.id) ≡ false
        → owned m g ≡ true
    later k e m g h n = elim (Bool-cases (str_eq k g.0)) [
      | inl same ↦
          let x : (e.id == g.1) ≡ true =
            sym (ap (λ b. same_entry (if b then some e else lookup g.0 m) g.1) same)
            ∙ sym (ap (λ o. same_entry o g.1) (lookup-cons k g.0 e m))
            ∙ h in
          absurd (ground arith)
      | inr other ↦
          sym (ap (λ b. same_entry (if b then some e else lookup g.0 m) g.1) other)
          ∙ sym (ap (λ o. same_entry o g.1) (lookup-cons k g.0 e m))
          ∙ h
    ]

all-map :
    (f g : String × ℕ → Bool) (gs : List (String × ℕ))
    → ((x : String × ℕ) → f x ≡ true → g x ≡ true)
    → all f gs ≡ true
    → all g gs ≡ true
all-map f g [] keep h = refl
all-map f g (x ∷ gs) keep h =
    let one = keep x (ground arith) in
    let others = all-map f g gs keep (ground arith) in rw one others

-- Every one of these retries owns its slot, and each key has at most one.
pub record IsSingle (m : List (String × Entry)) (gs : List (String × ℕ)) : Type 0 where
  pub owners : all (owned m) gs ≡ true
  pub single : (n : String) → count n gs ≤ 1

both-left :
    (m : List (String × Entry)) (name : String) (g : String × ℕ)
    → owned m g && elsewhere name g ≡ true
    → elsewhere name g ≡ true
both-left m name g h = ground arith

owned-remove :
    (name : String) (m : List (String × Entry)) (g : String × ℕ)
    → owned m g && elsewhere name g ≡ true
    → owned (remove name m) g ≡ true
owned-remove name m g h =
    let other : str_eq name g.0 ≡ false = ground arith in
    let own : owned m g ≡ true = ground arith in
    ap (λ o. same_entry o g.1) (lookup-remove name g.0 m ∙ rw other refl) ∙ own

owned-replace :
    (name : String) (e : Entry) (m : List (String × Entry)) (g : String × ℕ)
    → owned m g && elsewhere name g ≡ true
    → owned (put name e (remove name m)) g ≡ true
owned-replace name e m g h =
    let other : str_eq name g.0 ≡ false = ground arith in
    ap (λ o. same_entry o g.1) (lookup-put name g.0 e (remove name m) ∙ rw other refl)
    ∙ owned-remove name m g h

owned-put_self :
    (name : String) (e : Entry) (m : List (String × Entry))
    → owned (put name e m) (name, e.id) ≡ true
owned-put_self name e m =
    let same : (e.id == e.id) ≡ true = ground arith in
    ap (λ o. same_entry o e.id) (lookup-put name name e m)
    ∙ ap (λ b. same_entry (if b then some e else lookup name m) e.id) (str_eq_refl name)
    ∙ same

count-cancel_entry :
    (n : String) (o : Option Entry) (gs : List (String × ℕ))
    → count n (cancel_entry o gs) ≤ count n gs
count-cancel_entry n none gs = omega arith
count-cancel_entry n (some e) gs = count-cancel n e.id gs

count-new :
    (name : String) (id : ℕ) (gs : List (String × ℕ))
    → all (elsewhere name) gs ≡ true
    → ((n : String) → count n gs ≤ 1)
    → (n : String) → count n ((name, id) ∷ gs) ≤ 1
unfolding count
count-new name id gs h s n = elim (Bool-cases (str_eq n name)) [
  | inl e ↦
      let z : count n gs ≡ 0 =
        ap (λ x. count x gs) ((str_eq_iff n name).0 e) ∙ count-elsewhere name gs h in
      rw e (omega (arith, z))
  | inr e ↦ rw e (s n)
]

pub all_slots :
    (name : String) (id : ℕ) (m : List (String × Entry)) (gs : List (String × ℕ))
    → IsSingle m gs
    → IsSingle ((name, record { id = id; attempt = 0 }) ∷ []) ((name, id) ∷ cancel_entries m gs)
all_slots name id m gs h =
    let empty = cancel_entries-nil m gs h.owners in
    let new : owned ((name, record { id = id; attempt = 0 }) ∷ []) (name, id) ≡ true =
      unfold lookup in rw (str_eq_refl name) (ground arith) in
    record {
      owners = rw empty (rw new refl);
      single = λ n. rw empty (count-new name id [] refl (λ k. unfold count in omega arith) n);
    }

pub one_slot :
    (name : String) (id : ℕ) (m : List (String × Entry)) (gs : List (String × ℕ))
    → IsSingle m gs
    → IsSingle
        (put name (record { id = id; attempt = 0 }) (remove name m))
        ((name, id) ∷ cancel_entry (lookup name m) gs)
one_slot name id m gs h =
    let e : Entry = record { id = id; attempt = 0 } in
    let left = cancel_entry (lookup name m) gs in
    let away = owned-cancel_entry name m (lookup name m) gs refl h.owners in
    let new = owned-put_self name e (remove name m) in
    record {
      owners =
          rw new
            (all-map _ (owned (put name e (remove name m))) left (owned-replace name e m) away);
      single =
          count-new name id left (all-map _ (elsewhere name) left (both-left m name) away)
            (λ n. omega (arith, count-cancel_entry n (lookup name m) gs, h.single n));
    }

pub no_slot :
    (name : String) (m : List (String × Entry)) (gs : List (String × ℕ))
    → IsSingle m gs
    → IsSingle (remove name m) (cancel_entry (lookup name m) gs)
no_slot name m gs h =
    let left = cancel_entry (lookup name m) gs in
    let away = owned-cancel_entry name m (lookup name m) gs refl h.owners in
    record {
      owners = all-map _ (owned (remove name m)) left (owned-remove name m) away;
      single = λ n. omega (arith, count-cancel_entry n (lookup name m) gs, h.single n);
    }

pub owned-clear_slot :
    (name : String) (id : ℕ) (m : Slots) (g : String × ℕ)
    → owned m.retries g ≡ true
    → (g.1 == id) ≡ false
    → owned (clear_slot name id m).retries g ≡ true
unfolding clear_slot
owned-clear_slot name id m g h n = elim (Bool-cases (same_entry (lookup name m.retries) id)) [
  | inr keep ↦ rw keep h
  | inl clear ↦ rw clear (elim (Bool-cases (str_eq name g.0)) [
    | inr other ↦ owned-remove name m.retries g (rw h (rw other refl))
    | inl same ↦
        let own =
          ap (λ x. same_entry (lookup x m.retries) g.1) ((str_eq_iff name g.0).0 same) ∙ h in
        absurd (two_ids (lookup name m.retries) id g.1 clear own n)
  ])
]
  where
    two_ids :
        (o : Option Entry) (i j : ℕ)
        → same_entry o i ≡ true
        → same_entry o j ≡ true
        → (j == i) ≡ false
        → ⊥
    two_ids none i j h k n = cc
    two_ids (some e) i j h k n = ground arith
