-- ===== src/Config/Lines.antt =====
-- How internal/config/parser.go reads back a line "key = value" that it wrote.
use mathlib.Core.Path.{ap₂}
use mathlib.Core.List.{append_assoc}
use wireguide_plus.Common.{
  ℕ, ◌≡◌, refl, sym, ap, ◌∙◌, [], ◌∷◌, ◌++◌, some, Bool, true, false, ◌&&◌, ◌||◌, not, ◌==◌, any,
  any-append, arith,
}
use wireguide_plus.Common.Text.{
  Text, codes, is_space, trim, trim_left, trim_right, split_pair, text_eq,
}
use wireguide_plus.Config.Words.{lines, drop_cr, to_lower}
use wireguide_plus.Config.Parser.{State, ok, ◌>>=◌, parse_line, assign, assign_pair, starts_comment}

-- The last character is no space.
unfoldable pub ends_tight : Text → Bool
ends_tight [] = true
ends_tight (c ∷ []) = not (is_space c)
ends_tight (c ∷ d ∷ s) = ends_tight (d ∷ s)

unfoldable pub starts_tight : Text → Bool
starts_tight [] = true
starts_tight (c ∷ s) = not (is_space c)

abbrev pub has : ℕ → Text → Bool
has c s = any (λ d. d == c) s

-- A value that stands on a line of its own: no space at either end, no line break, no NUL.
unfoldable pub is_clean : Text → Bool
unfolding ends_tight starts_tight
is_clean v = starts_tight v && ends_tight v && not (has 10 v) && not (has 0 v)

-- A key: clean, not empty, without "=", and not the start of a comment.
unfoldable pub is_key : Text → Bool
unfolding is_clean
is_key k = is_clean k && not (has b'=' k) && not (starts_comment k)

pub trim_right-tight : (s : Text) → ends_tight s ≡ true → trim_right s ≡ s
unfolding ends_tight trim_right
trim_right-tight [] h = refl
trim_right-tight (c ∷ []) h = ground arith
trim_right-tight (c ∷ d ∷ s) h = rw (trim_right-tight (d ∷ s) h) refl

pub trim_left-tight : (s : Text) → starts_tight s ≡ true → trim_left s ≡ s
unfolding starts_tight trim_left
trim_left-tight [] h = refl
trim_left-tight (c ∷ s) h = ground arith

pub trim-clean : (v : Text) → starts_tight v ≡ true → ends_tight v ≡ true → trim v ≡ v
unfolding trim
trim-clean v h k = ap trim_right (trim_left-tight v h) ∙ trim_right-tight v k

not_cr : (c : ℕ) → is_space c ≡ false → (c == 13) ≡ false
unfolding is_space
not_cr c h = ground arith

drop_cr-tight : (s : Text) → ends_tight s ≡ true → drop_cr s ≡ s
unfolding ends_tight drop_cr
drop_cr-tight [] h = refl
drop_cr-tight (c ∷ []) h = rw (not_cr c (ground arith)) refl
drop_cr-tight (c ∷ d ∷ s) h = ap (λ t. c ∷ t) (drop_cr-tight (d ∷ s) h)

drop_cr-append : (a b : Text) (c : ℕ) → drop_cr (a ++ (c ∷ b)) ≡ a ++ drop_cr (c ∷ b)
unfolding drop_cr
drop_cr-append [] b c = refl
drop_cr-append (x ∷ []) b c = refl
drop_cr-append (x ∷ y ∷ a) b c = ap (λ t. x ∷ t) (drop_cr-append (y ∷ a) b c)

trim_right-append :
    (a b : Text) (d : ℕ) (t : Text) → trim_right b ≡ d ∷ t → trim_right (a ++ b) ≡ a ++ (d ∷ t)
unfolding trim_right
trim_right-append [] b d t h = h
trim_right-append (x ∷ []) b d t h = rw h refl
trim_right-append (x ∷ y ∷ a) b d t h = rw (trim_right-append (y ∷ a) b d t h) refl

trim_right-space :
    (c : ℕ) (s : Text) → ends_tight (c ∷ s) ≡ true → trim_right ((c ∷ s) ++ (32 ∷ [])) ≡ c ∷ s
unfolding ends_tight trim_right
trim_right-space c [] h = ground arith
trim_right-space c (d ∷ s) h = rw (trim_right-space d s h) refl

split_pair-append :
    (sep : ℕ) (a t : Text) → has sep a ≡ false → split_pair sep (a ++ (sep ∷ t)) ≡ some (a, t)
unfolding split_pair
split_pair-append sep [] t h = ground arith
split_pair-append sep (c ∷ a) t h =
    let ih = split_pair-append sep a t (ground arith) in
    let no : (c == sep) ≡ false = ground arith in rw (no, ih) refl

-- What stands of "key = value" after the spaces are trimmed.
abbrev value_part : Text → Text
value_part [] = 61 ∷ []
value_part (c ∷ v) = 61 ∷ 32 ∷ c ∷ v

abbrev after_sign : Text → Text
after_sign [] = []
after_sign (c ∷ v) = 32 ∷ c ∷ v

abbrev pub row : Text → Text → Text
row k v = k ++ (codes " = " ++ v)

drop_cr-row : (k v : Text) → ends_tight v ≡ true → drop_cr (row k v) ≡ row k v
unfolding drop_cr
drop_cr-row k [] h = drop_cr-append k (61 ∷ 32 ∷ []) 32
drop_cr-row k (d ∷ v) h =
    drop_cr-append k (61 ∷ 32 ∷ d ∷ v) 32
    ∙ ap (λ t. k ++ (32 ∷ 61 ∷ 32 ∷ t)) (drop_cr-tight (d ∷ v) h)

trim-row :
    (c : ℕ) (k v : Text)
    → is_space c ≡ false
    → ends_tight v ≡ true
    → trim (row (c ∷ k) v) ≡ (c ∷ k) ++ (32 ∷ value_part v)
unfolding trim trim_left is_space trim_right ends_tight
trim-row c k [] h e = rw h (trim_right-append (c ∷ k) (codes " = ") 32 (61 ∷ []) refl)
trim-row c k (d ∷ v) h e = rw h (
    trim_right-append (c ∷ k) (32 ∷ 61 ∷ 32 ∷ d ∷ v) 32 (61 ∷ 32 ∷ d ∷ v)
      (trim_right-tight (32 ∷ 61 ∷ 32 ∷ d ∷ v) e))

split-row :
    (k v : Text)
    → has 61 k ≡ false
    → split_pair 61 (k ++ (32 ∷ value_part v)) ≡ some (k ++ (32 ∷ []), after_sign v)
split-row k v h =
    let no : has 61 (k ++ (32 ∷ [])) ≡ false = any-append (λ d. d == 61) k (32 ∷ []) ∙ rw h refl in
    ap (split_pair 61) (regroup k v) ∙ split_pair-append 61 (k ++ (32 ∷ [])) (after_sign v) no
  where
    regroup : (k v : Text) → k ++ (32 ∷ value_part v) ≡ (k ++ (32 ∷ [])) ++ (61 ∷ after_sign v)
    regroup k [] = sym (append_assoc k (32 ∷ []) (61 ∷ []))
    regroup k (c ∷ v) = sym (append_assoc k (32 ∷ []) (61 ∷ 32 ∷ c ∷ v))

trim-after_sign : (v : Text) → starts_tight v ≡ true → ends_tight v ≡ true → trim (after_sign v) ≡ v
unfolding trim trim_left
trim-after_sign [] h e = refl
trim-after_sign (c ∷ v) h e = trim-clean (c ∷ v) h e

first_tight : (c : ℕ) (k : Text) → starts_tight (c ∷ k) ≡ true → is_space c ≡ false
unfolding starts_tight
first_tight c k h = ground arith

trim-key :
    (c : ℕ) (k : Text)
    → starts_tight (c ∷ k) ≡ true
    → ends_tight (c ∷ k) ≡ true
    → trim ((c ∷ k) ++ (32 ∷ [])) ≡ c ∷ k
unfolding trim trim_left
trim-key c k h e = rw (first_tight c k h) (trim_right-space c k e)

-- A line that holds "=" is no section header.
no_header :
    (lower_rune : ℕ → ℕ) (s t : Text)
    → has 61 s ≡ true
    → has 61 t ≡ false
    → text_eq (to_lower lower_rune s) t ≡ false
unfolding to_lower
no_header f [] t h k = cc
no_header f (c ∷ s) [] h k = refl
no_header f (c ∷ s) (d ∷ t) h k = ground (arith, no_header f s t)

pub has-append : (c : ℕ) (a b : Text) → has c (a ++ b) ≡ has c a || has c b
has-append c a b = any-append (λ d. d == c) a b

has-value_part :
    (c : ℕ) (v : Text)
    → (c == 32) ≡ false
    → (c == 61) ≡ false
    → has c v ≡ false
    → has c (32 ∷ value_part v) ≡ false
has-value_part c [] h k e = ground arith
has-value_part c (d ∷ v) h k e = ground arith

sign-value_part : (v : Text) → has 61 (32 ∷ value_part v) ≡ true
sign-value_part [] = refl
sign-value_part (d ∷ v) = refl

pub is_clean-facts :
    (a b c d : Bool)
    → a && b && not d && not c ≡ true
    → (a ≡ true) × (b ≡ true) × (c ≡ false) × (d ≡ false)
is_clean-facts a b c d h = ground arith

is_key-facts :
    (a b c d e f : Bool)
    → (a && b && not f && not d) && not e && not c ≡ true
    → (a ≡ true) × (b ≡ true) × (c ≡ false) × (d ≡ false) × (e ≡ false) × (f ≡ false)
is_key-facts a b c d e f h = ground arith

key-ne-nil : is_key [] ≡ true → ⊥
unfolding is_key
key-ne-nil h = cc

pub is_key-parts :
    (k : Text)
    → is_key k ≡ true
    → (starts_tight k ≡ true)
      × (ends_tight k ≡ true)
      × (starts_comment k ≡ false)
      × (has 0 k ≡ false)
      × (has 61 k ≡ false)
      × (has 10 k ≡ false)
unfolding is_key
is_key-parts k h =
    is_key-facts (starts_tight k) (ends_tight k) (starts_comment k) (has 0 k) (has 61 k) (has 10 k)
      h

pub is_clean-parts :
    (v : Text)
    → is_clean v ≡ true
    → (starts_tight v ≡ true) × (ends_tight v ≡ true) × (has 0 v ≡ false) × (has 10 v ≡ false)
unfolding is_clean
is_clean-parts v h = is_clean-facts (starts_tight v) (ends_tight v) (has 0 v) (has 10 v) h

module _ (lower_rune : ℕ → ℕ) where
  parse_line-parts :
      (n : ℕ) (s : State) (c : ℕ) (k v : Text)
      → starts_comment (c ∷ k) ≡ false
      → has 0 (c ∷ k) ≡ false
      → has 61 (c ∷ k) ≡ false
      → has 0 v ≡ false
      → parse_line lower_rune n s ((c ∷ k) ++ (32 ∷ value_part v))
        ≡ assign_pair lower_rune n
            ((c ∷ k) ++ (32 ∷ value_part v))
            s
            (some ((c ∷ k) ++ (32 ∷ []), after_sign v))
  unfolding parse_line
  parse_line-parts n s c k v h nul sign e =
      let line = (c ∷ k) ++ (32 ∷ value_part v) in
      let no_nul : has 0 line ≡ false =
        has-append 0 (c ∷ k) (32 ∷ value_part v)
        ∙ ap₂ (λ x y. x || y) nul (has-value_part 0 v refl refl e) in
      let with_sign : has 61 line ≡ true =
        has-append 61 (c ∷ k) (32 ∷ value_part v) ∙ ap₂ (λ x y. x || y) sign (sign-value_part v) in
      let one = no_header lower_rune line (codes "[interface]") with_sign refl in
      let two = no_header lower_rune line (codes "[peer]") with_sign refl in
      rw no_nul (rw h (rw one (rw two (rw (split-row (c ∷ k) v sign) refl))))

  parse_line-tight :
      (n : ℕ) (s : State) (c : ℕ) (k v : Text)
      → starts_tight (c ∷ k) ≡ true
      → ends_tight (c ∷ k) ≡ true
      → starts_comment (c ∷ k) ≡ false
      → has 0 (c ∷ k) ≡ false
      → has 61 (c ∷ k) ≡ false
      → starts_tight v ≡ true
      → ends_tight v ≡ true
      → has 0 v ≡ false
      → parse_line lower_rune n s (trim (drop_cr (row (c ∷ k) v)))
        ≡ (assign lower_rune s.section n (c ∷ k) v s.config >>= λ t. ok (record s { config = t }))
  parse_line-tight n s c k v key_front key_end comment nul sign front tight no_nul =
      ap (λ t. parse_line lower_rune n s t)
        (ap trim (drop_cr-row (c ∷ k) v tight) ∙ trim-row c k v (first_tight c k key_front) tight)
      ∙ parse_line-parts n s c k v comment nul sign no_nul
      ∙ ap₂
          (λ x y. assign lower_rune s.section n x y s.config >>= λ t. ok (record s { config = t }))
          (trim-key c k key_front key_end) (trim-after_sign v front tight)

  -- A written line is read as an assignment of the value to the key.
  pub parse_line-row :
      (n : ℕ) (s : State) (k v : Text)
      → is_key k ≡ true
      → is_clean v ≡ true
      → parse_line lower_rune n s (trim (drop_cr (row k v)))
        ≡ (assign lower_rune s.section n k v s.config >>= λ c. ok (record s { config = c }))
  parse_line-row n s [] v hk hv = absurd (key-ne-nil hk)
  parse_line-row n s (c ∷ k) v hk hv =
      let a = is_key-parts (c ∷ k) hk in
      let b = is_clean-parts v hv in parse_line-tight n s c k v a.0 a.1 a.2 a.3 a.4 b.0 b.1 b.2

-- The first line of a text.
pub lines-row : (l rest : Text) → has 10 l ≡ false → lines (l ++ (10 ∷ rest)) ≡ l ∷ lines rest
unfolding lines
lines-row [] rest h = refl
lines-row (c ∷ l) rest h =
    let no : (c == 10) ≡ false = ground arith in rw (no, lines-row l rest (ground arith)) refl
