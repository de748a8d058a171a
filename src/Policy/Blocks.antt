-- ===== src/Policy/Blocks.antt =====
-- Blocks of addresses whose sizes are powers of two: the arithmetic behind internal/policy/prefix.go.
use native.Mathlib.Nat.{
  div-div-eq-div-mul, div-eq_of_lt-le, div-mul-le_self, lt-div-mul-add, one-le-pow, pow-suc,
}
use wireguide_plus.Common.{
  ℕ, zero, suc, ◌+◌, ◌-◌, ◌*◌, ◌/◌, ◌^◌, ◌≤◌, ◌<◌, ◌≡◌, sym, ap, ◌∙◌, arith, inl, inr, leb, leb→le,
  Bool-cases,
}

pub pow_pos : (n : ℕ) → 0 < 2 ^ n
pow_pos n = one-le-pow n 2 (omega arith)

pub pow_add : (i j : ℕ) → 2 ^ (i + j) ≡ 2 ^ i * 2 ^ j
pow_add i zero =
    let e : 2 ^ (i + 0) ≡ 2 ^ i = ap (λ (k : ℕ). 2 ^ k) (omega arith) in omega (arith, e)
pow_add i (suc j) =
    let e : 2 ^ (i + suc j) ≡ 2 ^ suc (i + j) = ap (λ (k : ℕ). 2 ^ k) (omega arith) in
    let f : 2 ^ i * 2 ^ suc j ≡ 2 ^ i * (2 ^ j * 2) = ap (λ (t : ℕ). 2 ^ i * t) (pow-suc 2 j) in
    omega (arith, e, f, pow-suc 2 (i + j), pow_add i j)

-- Two addresses in one block stand in one block of any larger size.
pub same_block : (i j x y : ℕ) → i ≤ j → x / 2 ^ i ≡ y / 2 ^ i → x / 2 ^ j ≡ y / 2 ^ j
same_block i j x y le e =
    let split : 2 ^ j ≡ 2 ^ i * 2 ^ (j - i) =
      ap (λ (k : ℕ). 2 ^ k) (omega arith) ∙ pow_add i (j - i) in
    rw split (
      sym (div-div-eq-div-mul x (2 ^ i) (2 ^ (j - i)))
      ∙ ap (λ (q : ℕ). q / 2 ^ (j - i)) e
      ∙ div-div-eq-div-mul y (2 ^ i) (2 ^ (j - i)))

-- The block of an address holds the numbers from its start to its end.
pub block_between : (s a x : ℕ) → 0 < s → a / s * s ≤ x → x ≤ a / s * s + (s - 1) → x / s ≡ a / s
block_between s a x p lo hi = div-eq_of_lt-le s lo (grind arith)

-- Blocks that touch: the later start stands in both.
pub blocks_meet :
    (s t a b : ℕ)
    → 0 < s
    → 0 < t
    → a / s * s ≤ b / t * t + (t - 1)
    → b / t * t ≤ a / s * s + (s - 1)
    → (x : ℕ) × (x / s ≡ a / s) × (x / t ≡ b / t)
blocks_meet s t a b p q h k = elim (Bool-cases (leb (a / s * s) (b / t * t))) [
  | inl le ↦ (
    b / t * t,
    block_between s a (b / t * t) p (leb→le _ _ le) k,
    block_between t b (b / t * t) q (omega arith) (omega arith),
  )
  | inr gt ↦ (
    a / s * s,
    block_between s a (a / s * s) p (omega arith) (omega arith),
    block_between t b (a / s * s) q (ground arith) h,
  )
]

-- Two blocks that share an address touch.
pub blocks_touch :
    (s t a b x : ℕ)
    → 0 < s
    → 0 < t
    → x / s ≡ a / s
    → x / t ≡ b / t
    → a / s * s ≤ b / t * t + (t - 1)
blocks_touch s t a b x p q e f =
    let lo : a / s * s ≤ x = rw (← e) (div-mul-le_self x s) in
    let hi : x < b / t * t + t = rw (← f) (lt-div-mul-add q) in omega arith
