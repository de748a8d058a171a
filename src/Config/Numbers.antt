-- ===== src/Config/Numbers.antt =====
-- strconv.Atoi reads back what strconv.Itoa wrote.
use wireguide_plus.Common.{
  ℕ, zero, suc, ◌+◌, ◌-◌, ◌*◌, ◌/◌, ◌%◌, ◌^◌, ◌<◌, ◌≡◌, refl, ap, ◌∙◌, inl, inr, [], ◌∷◌, some,
  true, false, ltb, ◌==◌, all, is_empty, arith, Bool-cases,
}
use wireguide_plus.Common.Int.{pos}
use wireguide_plus.Common.Text.{Text, is_digit, digits_from, digits, atoi}
use wireguide_plus.Config.Words.{decimal, itoa}

digits_from-digit :
    (a d : ℕ) (s : Text) → d < 10 → digits_from a ((48 + d) ∷ s) ≡ digits_from (10 * a + d) s
unfolding digits_from is_digit
digits_from-digit a d s h =
    let e : (48 + d) - b'0' ≡ d = omega arith in
    let yes_digit : is_digit (48 + d) ≡ true = ground arith in rw (yes_digit, e) refl

pub digits_from-decimal :
    (f n : ℕ) (acc : Text) → n < f → digits_from 0 (decimal f n acc) ≡ digits_from n acc
unfolding decimal
digits_from-decimal zero n acc h = elim h [ ]
digits_from-decimal (suc f) n acc h = elim (Bool-cases (ltb n 10)) [
  | inl small ↦
      rw small
        (digits_from-digit 0 n acc (ground arith) ∙ ap (λ (t : ℕ). digits_from t acc) (omega arith))
  | inr big ↦ rw big (
      digits_from-decimal f (n / 10) ((48 + n % 10) ∷ acc) (ground arith)
      ∙ digits_from-digit (n / 10) (n % 10) acc (omega arith)
      ∙ ap (λ (t : ℕ). digits_from t acc) (omega arith))
]

-- Digits only, and at least one.
pub all-decimal :
    (f n : ℕ) (acc : Text)
    → n < f
    → all is_digit acc ≡ true
    → (all is_digit (decimal f n acc) ≡ true) × (is_empty (decimal f n acc) ≡ false)
unfolding decimal is_digit
all-decimal zero n acc h k = elim h [ ]
all-decimal (suc f) n acc h k = elim (Bool-cases (ltb n 10)) [
  | inl small ↦ rw small (ground arith, refl)
  | inr big ↦ rw big (all-decimal f (n / 10) ((48 + n % 10) ∷ acc) (ground arith) (ground arith))
]

digits-digits :
    (s : Text) (n : ℕ) → is_empty s ≡ false → digits_from 0 s ≡ some n → digits s ≡ some n
unfolding digits
digits-digits [] n h e = cc
digits-digits (c ∷ s) n h e = e

atoi-digits :
    (s : Text) (n : ℕ)
    → all is_digit s ≡ true
    → is_empty s ≡ false
    → digits_from 0 s ≡ some n
    → n < 2 ^ 63
    → atoi s ≡ some (pos n)
unfolding atoi is_digit
atoi-digits [] n a e d h = cc
atoi-digits (c ∷ s) n a e d h =
    let minus : (c == b'-') ≡ false = ground arith in
    let plus : (c == b'+') ≡ false = ground arith in
    rw (minus, plus, digits-digits (c ∷ s) n e d) (ground arith)

pub itoa-digits : (n : ℕ) → (all is_digit (itoa (pos n)) ≡ true) × (is_empty (itoa (pos n)) ≡ false)
unfolding itoa
itoa-digits n = all-decimal (suc n) n [] (omega arith) refl

pub atoi-itoa : (n : ℕ) → n < 2 ^ 63 → atoi (itoa (pos n)) ≡ some (pos n)
unfolding itoa digits_from
atoi-itoa n h =
    let d = digits_from-decimal (suc n) n [] (omega arith) in
    let a = all-decimal (suc n) n [] (omega arith) refl in
    atoi-digits (decimal (suc n) n []) n a.0 a.1 d h
