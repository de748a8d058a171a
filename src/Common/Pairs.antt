-- ===== src/Common/Pairs.antt =====
-- Searches through the pairs of a list, as the double loops of internal/policy do them.
use mathlib.Core.Path.{ap, ap₂, sym, ◌≡◌, refl, ◌∙◌}
use mathlib.Core.List.{Memᴰ, List, [], ◌∷◌}
use mathlib.Core.Logic.{inl, inr}
use mathlib.Core.Bool.{Bool, true, false, ◌||◌}
use native.Mathlib.Omega.{arith}
use wireguide_plus.Common.Tests.{Bool-cases}
use wireguide_plus.Common.Lists.{any}

module _ {ℓ} {A : Type ℓ} where
  pub any-Memᴰ : (f : A → Bool) (xs : List A) → any f xs ≡ true → (x : A) × Memᴰ x xs × (f x ≡ true)
  any-Memᴰ f [] h = cc
  any-Memᴰ f (x ∷ xs) h = elim (Bool-cases (f x)) [
    | inl e ↦ (x, Memᴰ.head refl, e)
    | inr e ↦ let r = any-Memᴰ f xs (ground arith) in (r.0, Memᴰ.tail r.1, r.2)
  ]

  pub Memᴰ-any : (f : A → Bool) (x : A) (xs : List A) → Memᴰ x xs → f x ≡ true → any f xs ≡ true
  Memᴰ-any f x [] m h = elim m [ ]
  Memᴰ-any f x (y ∷ ys) (Memᴰ.head e) h = rw (ap f (sym e) ∙ h) refl
  Memᴰ-any f x (y ∷ ys) (Memᴰ.tail m) h = ground (arith, Memᴰ-any f x ys m h)

  -- Some element passes the test with a later one.
  abbrev pub pairs : (A → A → Bool) → List A → Bool
  pairs test [] = false
  pairs test (x ∷ xs) = any (test x) xs || pairs test xs

  pub pairs-Memᴰ :
      (test : A → A → Bool) (xs : List A)
      → pairs test xs ≡ true
      → (x : A) × (y : A) × Memᴰ x xs × Memᴰ y xs × (test x y ≡ true)
  pairs-Memᴰ test [] h = cc
  pairs-Memᴰ test (x ∷ xs) h = elim (Bool-cases (any (test x) xs)) [
    | inl e ↦ let r = any-Memᴰ (test x) xs e in (x, r.0, Memᴰ.head refl, Memᴰ.tail r.1, r.2)
    | inr e ↦
        let r = pairs-Memᴰ test xs (ground arith) in (r.0, r.1, Memᴰ.tail r.2, Memᴰ.tail r.3, r.4)
  ]

  pub Memᴰ-pairs :
      (test : A → A → Bool)
      → ((x : A) → test x x ≡ false)
      → ((x y : A) → test x y ≡ test y x)
      → (x y : A) (xs : List A) → Memᴰ x xs
      → Memᴰ y xs
      → test x y ≡ true
      → pairs test xs ≡ true
  Memᴰ-pairs test ir sy x y [] m n h = elim m [ ]
  Memᴰ-pairs test ir sy x y (z ∷ zs) (Memᴰ.head e) (Memᴰ.head f) h =
      let g = sym (ap₂ test e f ∙ ir z) ∙ h in cc
  Memᴰ-pairs test ir sy x y (z ∷ zs) (Memᴰ.head e) (Memᴰ.tail m) h =
      let k = Memᴰ-any (test z) y zs m (ap (λ t. test t y) (sym e) ∙ h) in ground arith
  Memᴰ-pairs test ir sy x y (z ∷ zs) (Memᴰ.tail m) (Memᴰ.head f) h =
      let k = Memᴰ-any (test z) x zs m (sy z x ∙ ap (test x) (sym f) ∙ h) in ground arith
  Memᴰ-pairs test ir sy x y (z ∷ zs) (Memᴰ.tail m) (Memᴰ.tail n) h =
      let k = Memᴰ-pairs test ir sy x y zs m n h in ground arith
