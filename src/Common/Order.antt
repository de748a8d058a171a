-- ===== src/Common/Order.antt =====
-- Go's order on strings, and sorting by a total order: the result depends only on the elements, so
-- it does not matter which algorithm `sort.Slice` or `sort.Strings` runs.
use Prim.Native.String.{String}
use mathlib.Core.Path.{◌≡◌, refl, ap₂, ◌∙◌}
use mathlib.Core.Logic.{◌⊎◌, inl, inr}
use mathlib.Core.Bool.{Bool, true, false}
use mathlib.Core.List.{List, [], ◌∷◌, Perm, Permᴰ}
use mathlib.Core.List.Perm
use native.Mathlib.Omega.{arith}
use text.Mathlib.TextEquality.{Char-path}
use wireguide_plus.Common.Tests.{if◌then◌else◌, ltb, ◌==◌, Bool-cases}
use mathlib.Core.Bool.{◌||◌}
use wireguide_plus.Common.Lists.{any}
use wireguide_plus.Common.Text.{Text, codes}
use mathlib.Core.Path.{ap}

abbrev pub text_le : Text → Text → Bool
text_le [] t = true
text_le (a ∷ s) [] = false
text_le (a ∷ s) (b ∷ t) =
    let rest = text_le s t in if ltb a b then true else if a == b then rest else false

pub text_le_total : (s t : Text) → (text_le s t ≡ true) ⊎ (text_le t s ≡ true)
text_le_total [] t = inl refl
text_le_total (a ∷ s) [] = inr refl
text_le_total (a ∷ s) (b ∷ t) = ground (arith, text_le_total s t)

pub text_le_antisymm : (s t : Text) → text_le s t ≡ true → text_le t s ≡ true → s ≡ t
text_le_antisymm [] [] h k = refl
text_le_antisymm [] (b ∷ t) h k = cc
text_le_antisymm (a ∷ s) [] h k = cc
text_le_antisymm (a ∷ s) (b ∷ t) h k = ground (arith, text_le_antisymm s t)

pub text_le_trans : (s t u : Text) → text_le s t ≡ true → text_le t u ≡ true → text_le s u ≡ true
text_le_trans [] t u h k = refl
text_le_trans (a ∷ s) [] u h k = cc
text_le_trans (a ∷ s) (b ∷ t) [] h k = cc
text_le_trans (a ∷ s) (b ∷ t) (c ∷ u) h k = ground (arith, text_le_trans s t u)

codes-inj : (s t : String) → codes s ≡ codes t → s ≡ t
codes-inj String.[] String.[] h = refl
codes-inj String.[] (String.◌∷◌ d t) h = cc
codes-inj (String.◌∷◌ c s) String.[] h = cc
codes-inj (String.◌∷◌ c s) (String.◌∷◌ d t) h =
    ap₂ String.◌∷◌ (Char-path c d (cc)) (codes-inj s t (cc))

-- What a sort needs of its order.
pub record IsTotalOrder {ℓ} {A : Type ℓ} (le : A → A → Bool) : Type ℓ where
  pub total : (a b : A) → (le a b ≡ true) ⊎ (le b a ≡ true)
  pub antisymm : (a b : A) → le a b ≡ true → le b a ≡ true → a ≡ b
  pub trans : (a b c : A) → le a b ≡ true → le b c ≡ true → le a c ≡ true

abbrev pub str_le : String → String → Bool
str_le s t = text_le (codes s) (codes t)

pub str_le-IsTotalOrder : IsTotalOrder str_le
str_le-IsTotalOrder = record {
  total = λ s t. text_le_total (codes s) (codes t);
  antisymm = λ s t h k. codes-inj s t (text_le_antisymm (codes s) (codes t) h k);
  trans = λ s t u. text_le_trans (codes s) (codes t) (codes u);
}

module _ {ℓ} {A : Type ℓ} (le : A → A → Bool) where
  unfoldable pub insert_sorted : A → List A → List A
  insert_sorted x [] = x ∷ []
  insert_sorted x (y ∷ ys) = if le x y then x ∷ y ∷ ys else y ∷ insert_sorted x ys

  unfoldable pub sort : List A → List A
  unfolding insert_sorted
  sort [] = []
  sort (x ∷ xs) = insert_sorted x (sort xs)

  insert_sorted-perm : (x : A) (ys : List A) → Perm (insert_sorted x ys) (x ∷ ys)
  unfolding insert_sorted
  insert_sorted-perm x [] = Perm.refl (x ∷ [])
  insert_sorted-perm x (y ∷ ys) = elim (Bool-cases (le x y)) [
    | inl h ↦ rw h (Perm.refl (x ∷ y ∷ ys))
    | inr h ↦ rw h (Perm.trans (Perm.cons y (insert_sorted-perm x ys)) (Perm.swap x y ys))
  ]

  pub sort-perm : (xs : List A) → Perm (sort xs) xs
  unfolding sort
  sort-perm [] = Perm.refl []
  sort-perm (x ∷ xs) = Perm.trans (insert_sorted-perm x (sort xs)) (Perm.cons x (sort-perm xs))

  any-insert_sorted :
      (f : A → Bool) (x : A) (ys : List A) → any f (insert_sorted x ys) ≡ f x || any f ys
  unfolding insert_sorted
  any-insert_sorted f x [] = refl
  any-insert_sorted f x (y ∷ ys) = ground (arith, any-insert_sorted f x ys)

  pub any-sort : (f : A → Bool) (xs : List A) → any f (sort xs) ≡ any f xs
  unfolding sort
  any-sort f [] = refl
  any-sort f (x ∷ xs) = any-insert_sorted f x (sort xs) ∙ ap (λ b. f x || b) (any-sort f xs)

  -- Each element is at most every later one.
  abbrev pub AllGe : A → List A → Type 0
  AllGe x [] = Unit
  AllGe x (y ∷ ys) = (le x y ≡ true) × AllGe x ys

  abbrev pub IsSorted : List A → Type 0
  IsSorted [] = Unit
  IsSorted (x ∷ xs) = AllGe x xs × IsSorted xs

  module _ (o : IsTotalOrder le) where
    insert_sorted_comm :
        (x y : A) (zs : List A)
        → insert_sorted x (insert_sorted y zs) ≡ insert_sorted y (insert_sorted x zs)
    unfolding insert_sorted
    insert_sorted_comm x y [] = ground (arith, o.total x y, o.antisymm x y)
    insert_sorted_comm x y (z ∷ zs) = ground (
      arith,
      o.total x y,
      o.antisymm x y,
      o.trans x y z,
      o.trans y x z,
      o.total x z,
      o.total y z,
      insert_sorted_comm x y zs,
    )

    -- A sorted list shows only which elements there are, and how often.
    sort-eq_of_permᴰ : {xs ys : List A} → Permᴰ xs ys → sort xs ≡ sort ys
    unfolding sort
    sort-eq_of_permᴰ Permᴰ.nil = refl
    sort-eq_of_permᴰ (Permᴰ.cons e q) = ap₂ insert_sorted e (sort-eq_of_permᴰ q)
    sort-eq_of_permᴰ (Permᴰ.swap {a = a} {b = b} {l = l} e f) =
        insert_sorted_comm a b (sort l)
        ∙ ap₂ (λ u v. insert_sorted u (insert_sorted v (sort l))) f e
    sort-eq_of_permᴰ (Permᴰ.trans q r) = sort-eq_of_permᴰ q ∙ sort-eq_of_permᴰ r

    AllGe-trans : (x y : A) (zs : List A) → le x y ≡ true → AllGe y zs → AllGe x zs
    AllGe-trans x y [] h g = tt
    AllGe-trans x y (z ∷ zs) h g = (o.trans x y z h g.0, AllGe-trans x y zs h g.1)

    AllGe-insert :
        (x y : A) (zs : List A) → le x y ≡ true → AllGe x zs → AllGe x (insert_sorted y zs)
    unfolding insert_sorted
    AllGe-insert x y [] h g = (h, tt)
    AllGe-insert x y (z ∷ zs) h g = ground (arith, AllGe-insert x y zs h g.1)

    insert-IsSorted : (x : A) (ys : List A) → IsSorted ys → IsSorted (insert_sorted x ys)
    unfolding insert_sorted
    insert-IsSorted x [] s = (tt, tt)
    insert-IsSorted x (y ∷ ys) s = elim (Bool-cases (le x y)) [
      | inl h ↦ rw h ((h, AllGe-trans x y ys h s.0), s)
      | inr h ↦
          rw h (AllGe-insert y x ys (ground (arith, o.total x y)) s.0, insert-IsSorted x ys s.1)
    ]

    pub sort-IsSorted : (xs : List A) → IsSorted (sort xs)
    unfolding sort
    sort-IsSorted [] = tt
    sort-IsSorted (x ∷ xs) = insert-IsSorted x (sort xs) (sort-IsSorted xs)
