-- ===== src/Update/VersionOrder.antt =====
-- isNewerVersion of internal/update/checker.go as an order on versions.
use mathlib.Core.Path.{ap₂, subst}
use wireguide_plus.Common.{
  ◌<◌, ◌++◌, ◌≡◌, refl, sym, ap, ◌∙◌, ◌⊎◌, ◌↔◌, inl, inr, List, [], ◌∷◌, Option, none, some, true,
  false, arith, Bool-cases,
}
use wireguide_plus.Common.Int.{ℤ, pos, negsuc}
use wireguide_plus.Common.Text.{Text}
use wireguide_plus.Update.Version.{int_lt, parse_parts, newer_parts, newer_if, is_newer_version}

int_lt_irrefl : (a : ℤ) → int_lt a a ≡ false
unfolding int_lt
int_lt_irrefl (pos a) = ground arith
int_lt_irrefl (negsuc a) = ground arith

int_lt_trans : (a b c : ℤ) → int_lt a b ≡ true → int_lt b c ≡ true → int_lt a c ≡ true
unfolding int_lt
int_lt_trans (pos a) (pos b) (pos c) h k = ground (arith, h, k)
int_lt_trans (negsuc a) (pos b) (pos c) h k = refl
int_lt_trans (negsuc a) (negsuc b) (pos c) h k = refl
int_lt_trans (negsuc a) (negsuc b) (negsuc c) h k = ground (arith, h, k)
int_lt_trans (pos a) (negsuc b) c h k = ground (arith, h)
int_lt_trans a (pos b) (negsuc c) h k = ground (arith, k)

int_lt_total : (a b : ℤ) → int_lt a b ≡ false → int_lt b a ≡ false → a ≡ b
unfolding int_lt
int_lt_total (pos a) (pos b) h k = ap pos (ground (arith, h, k))
int_lt_total (pos a) (negsuc b) h k = ground (arith, k)
int_lt_total (negsuc a) (pos b) h k = ground (arith, h)
int_lt_total (negsuc a) (negsuc b) h k = ap negsuc (ground (arith, h, k))

newer_parts_irrefl : (a : List ℤ) → newer_parts a a ≡ false
unfolding newer_parts
newer_parts_irrefl [] = refl
newer_parts_irrefl (x ∷ a) = ground (arith, int_lt_irrefl x, newer_parts_irrefl a)

-- Which part decides.
newer_parts-cons :
    (x y : ℤ) (a b : List ℤ)
    → newer_parts (x ∷ a) (y ∷ b) ≡ true
    → (int_lt y x ≡ true) ⊎ ((x ≡ y) × (newer_parts a b ≡ true))
unfolding newer_parts
newer_parts-cons x y a b h = elim (Bool-cases (int_lt y x)) [
  | inl e ↦ inl e
  | inr e ↦ elim (Bool-cases (int_lt x y)) [
    | inl d ↦ ground (arith, h, e, d)
    | inr d ↦ inr (int_lt_total x y d e, ground (arith, h, e, d))
  ]
]

newer_parts-first :
    (x y : ℤ) (a b : List ℤ) → int_lt y x ≡ true → newer_parts (x ∷ a) (y ∷ b) ≡ true
unfolding newer_parts
newer_parts-first x y a b h = rw h refl

newer_parts-rest :
    (x y : ℤ) (a b : List ℤ) → x ≡ y → newer_parts a b ≡ true → newer_parts (x ∷ a) (y ∷ b) ≡ true
unfolding newer_parts
newer_parts-rest x y a b e h = rw (e, int_lt_irrefl y) h

newer_parts_trans :
    (a b c : List ℤ) → newer_parts a b ≡ true → newer_parts b c ≡ true → newer_parts a c ≡ true
unfolding newer_parts
newer_parts_trans [] b c h k = h
newer_parts_trans (x ∷ a) b [] h k = refl
newer_parts_trans (x ∷ a) [] (z ∷ c) h k = ground (arith, k)
newer_parts_trans (x ∷ a) (y ∷ b) (z ∷ c) h k = elim (newer_parts-cons x y a b h) [
  | inl p ↦ elim (newer_parts-cons y z b c k) [
    | inl q ↦ newer_parts-first x z a c (int_lt_trans z y x q p)
    | inr (e, q) ↦ newer_parts-first x z a c (ap (λ t. int_lt t x) (sym e) ∙ p)
  ]
  | inr (d, p) ↦ elim (newer_parts-cons y z b c k) [
    | inl q ↦ newer_parts-first x z a c (ap (int_lt z) d ∙ q)
    | inr (e, q) ↦ newer_parts-rest x z a c (d ∙ e) (newer_parts_trans a b c p q)
  ]
]

newer_parts_total : (a b : List ℤ) → newer_parts a b ≡ false → newer_parts b a ≡ false → a ≡ b
unfolding newer_parts
newer_parts_total [] [] h k = refl
newer_parts_total [] (y ∷ b) h k = ground (arith, k)
newer_parts_total (x ∷ a) [] h k = ground (arith, h)
newer_parts_total (x ∷ a) (y ∷ b) h k = elim (Bool-cases (int_lt y x)) [
  | inl e ↦ ground (arith, h, e)
  | inr e ↦ elim (Bool-cases (int_lt x y)) [
    | inl d ↦ ground (arith, k, e, d)
    | inr d ↦
        ap₂ (λ t ts. t ∷ ts) (int_lt_total x y d e)
          (newer_parts_total a b (ground (arith, h, e, d)) (ground (arith, k, e, d)))
  ]
]

newer_if_irrefl : (a : Option (List ℤ)) → newer_if a a ≡ false
newer_if_irrefl none = refl
newer_if_irrefl (some a) = newer_parts_irrefl a

newer_if_trans :
    (a b c : Option (List ℤ)) → newer_if a b ≡ true → newer_if b c ≡ true → newer_if a c ≡ true
newer_if_trans (some a) (some b) (some c) h k = newer_parts_trans a b c h k
newer_if_trans (some a) (some b) none h k = k
newer_if_trans (some a) none c h k = cc
newer_if_trans none b c h k = cc

newer_if_total :
    (a b : List ℤ) (o p : Option (List ℤ))
    → o ≡ some a
    → p ≡ some b
    → newer_if o p ≡ false
    → newer_if p o ≡ false
    → a ≡ b
newer_if_total a b o p e d h k =
    newer_parts_total a b (ap₂ newer_if (sym e) (sym d) ∙ h) (ap₂ newer_if (sym d) (sym e) ∙ k)

-- A version that is newer than one that is newer than a third is newer than the third, and the third is
-- not newer than it.
pub newer_versions_ordered :
    (u v w : Text)
    → is_newer_version u v ≡ true
    → is_newer_version v w ≡ true
    → (is_newer_version u w ≡ true) × (is_newer_version w u ≡ false)
unfolding is_newer_version
newer_versions_ordered u v w h k =
    let a = parse_parts u in
    let c = parse_parts w in
    let t = newer_if_trans a (parse_parts v) c h k in
    (
      t,
      elim (Bool-cases (newer_if c a)) [
        | inl e ↦ ground (arith, newer_if_trans a c a t e, newer_if_irrefl a)
        | inr e ↦ e
      ],
    )

-- Of two versions that isNewerVersion can read neither is newer exactly if they have the same numbers.
pub same_version_iff :
    (v w : Text) (a b : List ℤ)
    → parse_parts v ≡ some a
    → parse_parts w ≡ some b
    → ((is_newer_version v w ≡ false) × (is_newer_version w v ≡ false)) ↔ (a ≡ b)
unfolding is_newer_version
same_version_iff v w a b e d = (
  λ h. newer_if_total a b (parse_parts v) (parse_parts w) e d h.0 h.1,
  λ h. (
    ap₂ newer_if e (d ∙ ap some (sym h)) ∙ newer_if_irrefl (some a),
    ap₂ newer_if (d ∙ ap some (sym h)) e ∙ newer_if_irrefl (some a),
  ),
)

pub IsLess : ℤ → ℤ → Type 0
IsLess (pos a) (pos b) = a < b
IsLess (pos a) (negsuc b) = ⊥
IsLess (negsuc a) (pos b) = Unit
IsLess (negsuc a) (negsuc b) = b < a

-- After the parts that `a` and `b` have in common, `a` has a larger part than `b`, or `b` ends and `a`
-- does not.
pub data Exceeds (a b : List ℤ) : Type 0 where
  larger :
      (common : List ℤ) (x y : ℤ) (xs ys : List ℤ)
      → a ≡ common ++ x ∷ xs
      → b ≡ common ++ y ∷ ys
      → IsLess y x
      → Exceeds a b
  longer : (common : List ℤ) (x : ℤ) (xs : List ℤ) → a ≡ common ++ x ∷ xs → b ≡ common → Exceeds a b

int_lt_iff : (a b : ℤ) → (int_lt a b ≡ true) ↔ IsLess a b
unfolding int_lt IsLess
int_lt_iff (pos a) (pos b) = (λ h. ground (arith, h), λ h. ground (arith, h))
int_lt_iff (pos a) (negsuc b) = (λ h. cc, λ h. elim h [ ])
int_lt_iff (negsuc a) (pos b) = (λ h. tt, λ h. refl)
int_lt_iff (negsuc a) (negsuc b) = (λ h. ground (arith, h), λ h. ground (arith, h))

cons-Exceeds : (x : ℤ) (a b : List ℤ) → Exceeds a b → Exceeds (x ∷ a) (x ∷ b)
cons-Exceeds x a b (larger common y z ys zs p q h) =
    larger (x ∷ common) y z ys zs (ap (λ t. x ∷ t) p) (ap (λ t. x ∷ t) q) h
cons-Exceeds x a b (longer common y ys p q) =
    longer (x ∷ common) y ys (ap (λ t. x ∷ t) p) (ap (λ t. x ∷ t) q)

newer_parts-Exceeds : (a b : List ℤ) → newer_parts a b ≡ true → Exceeds a b
unfolding newer_parts
newer_parts-Exceeds [] b h = cc
newer_parts-Exceeds (x ∷ a) [] h = longer [] x a refl refl
newer_parts-Exceeds (x ∷ a) (y ∷ b) h = elim (newer_parts-cons x y a b h) [
  | inl e ↦ larger [] x y a b refl refl ((int_lt_iff y x).0 e)
  | inr (e, k) ↦
      subst (λ t. Exceeds (x ∷ a) (t ∷ b)) e (cons-Exceeds x a b (newer_parts-Exceeds a b k))
]

larger-newer_parts :
    (common : List ℤ) (x y : ℤ) (xs ys : List ℤ)
    → IsLess y x
    → newer_parts (common ++ x ∷ xs) (common ++ y ∷ ys) ≡ true
larger-newer_parts [] x y xs ys h = newer_parts-first x y xs ys ((int_lt_iff y x).1 h)
larger-newer_parts (c ∷ cs) x y xs ys h =
    newer_parts-rest c c (cs ++ x ∷ xs) (cs ++ y ∷ ys) refl (larger-newer_parts cs x y xs ys h)

longer-newer_parts :
    (common : List ℤ) (x : ℤ) (xs : List ℤ) → newer_parts (common ++ x ∷ xs) common ≡ true
unfolding newer_parts
longer-newer_parts [] x xs = refl
longer-newer_parts (c ∷ cs) x xs =
    newer_parts-rest c c (cs ++ x ∷ xs) cs refl (longer-newer_parts cs x xs)

Exceeds-newer_parts : (a b : List ℤ) → Exceeds a b → newer_parts a b ≡ true
Exceeds-newer_parts a b (larger common x y xs ys p q h) =
    ap₂ newer_parts p q ∙ larger-newer_parts common x y xs ys h
Exceeds-newer_parts a b (longer common x xs p q) =
    ap₂ newer_parts p q ∙ longer-newer_parts common x xs

abbrev pub BothExceed : Option (List ℤ) → Option (List ℤ) → Type 0
BothExceed o p = (a : List ℤ) × (b : List ℤ) × (o ≡ some a) × (p ≡ some b) × Exceeds a b

newer_if_iff : (o p : Option (List ℤ)) → (newer_if o p ≡ true) ↔ BothExceed o p
newer_if_iff (some a) (some b) = (
  λ h. (a, b, refl, refl, newer_parts-Exceeds a b h),
  λ k. ap₂ newer_if k.2 k.3 ∙ Exceeds-newer_parts k.0 k.1 k.4,
)
newer_if_iff (some a) none = (λ h. cc, λ k. let e = k.3 in cc)
newer_if_iff none p = (λ h. cc, λ k. let e = k.2 in cc)

-- A version counts as newer than another one exactly if the numbers of both can be read and, after
-- those that they have in common, the first one has a larger number, or more numbers.
pub newer_version_iff :
    (v w : Text)
    → (is_newer_version v w ≡ true) ↔ (
        (a : List ℤ) × (b : List ℤ) × (parse_parts v ≡ some a)
        × (parse_parts w ≡ some b)
        × Exceeds a b)
unfolding is_newer_version
newer_version_iff v w = newer_if_iff (parse_parts v) (parse_parts w)
