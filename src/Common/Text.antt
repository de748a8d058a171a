-- ===== src/Common/Text.antt =====
-- Go strings as native texts: code points, `strings.TrimSpace`, `strings.SplitN(s, sep, 2)` and
-- `strconv.Atoi`.
use Prim.Native.Char.{code}
use Prim.Native.String.{String}
use Prim.Native.Nat.{ℕ, ◌+◌, ◌-◌, ◌*◌, ◌^◌}
use mathlib.Core.Bool.{Bool, ◌&&◌, ◌||◌}
use mathlib.Core.Option.{Option, none, some}
use mathlib.Core.List.{List, [], ◌∷◌}
use wireguide_plus.Common.Tests.{if◌then◌else◌, ◌==◌, leb, ltb}
use wireguide_plus.Common.Lists.{is_empty}
use mathlib.Core.Bool.{true, false}
use wireguide_plus.Common.Int.{ℤ, pos, neg}

abbrev pub Text : Type 0
Text = List ℕ

-- The code points of a text.
abbrev pub codes : String → Text
codes String.[] = []
codes (String.◌∷◌ c s) = code c ∷ codes s

-- unicode.IsSpace
unfoldable pub is_space : ℕ → Bool
is_space c =
    (leb 9 c && leb c 13)
    || (c == 32)
    || (c == 0x85)
    || (c == 0xa0)
    || (c == 0x1680)
    || (leb 0x2000 c && leb c 0x200a)
    || (c == 0x2028)
    || (c == 0x2029)
    || (c == 0x202f)
    || (c == 0x205f)
    || (c == 0x3000)

unfoldable pub trim_left : Text → Text
unfolding is_space
trim_left [] = []
trim_left (c ∷ s) = if is_space c then trim_left s else c ∷ s

-- A space is dropped if nothing but spaces follows it.
abbrev pub keep_before : ℕ → Text → Text
keep_before c [] = if is_space c then [] else c ∷ []
keep_before c (d ∷ s) = c ∷ d ∷ s

unfoldable pub trim_right : Text → Text
unfolding is_space
trim_right [] = []
trim_right (c ∷ s) = keep_before c (trim_right s)

-- strings.TrimSpace
unfoldable pub trim : Text → Text
unfolding trim_left trim_right
trim s = trim_right (trim_left s)

abbrev pub before_pair : ℕ → Option (Text × Text) → Option (Text × Text)
before_pair c none = none
before_pair c (some (a, b)) = some (c ∷ a, b)

-- strings.SplitN(s, sep, 2) for a separator of one character: `none` is a slice of length 1.
unfoldable pub split_pair : ℕ → Text → Option (Text × Text)
split_pair sep [] = none
split_pair sep (c ∷ s) = if c == sep then some ([], s) else before_pair c (split_pair sep s)

unfoldable pub is_digit : ℕ → Bool
is_digit c = leb b'0' c && leb c b'9'

-- The value of a run of digits, read after `acc`; `none` at any other character.
unfoldable pub digits_from : ℕ → Text → Option ℕ
unfolding is_digit
digits_from acc [] = some acc
digits_from acc (c ∷ s) =
    let rest = digits_from (10 * acc + (c - b'0')) s in if is_digit c then rest else none

-- At least one digit.
unfoldable pub digits : Text → Option ℕ
unfolding digits_from
digits [] = none
digits (c ∷ s) = digits_from 0 (c ∷ s)

abbrev signed : Option ℕ → Option ℤ
signed none = none
signed (some n) = if leb (2 ^ 63) n then none else some (pos n)

abbrev signed_neg : Option ℕ → Option ℤ
signed_neg none = none
signed_neg (some n) = if ltb (2 ^ 63) n then none else some (neg n)

-- strconv.Atoi at 64 bits: an optional sign, digits only, and a value that fits.
unfoldable pub atoi : Text → Option ℤ
unfolding digits
atoi [] = none
atoi (c ∷ s) =
    if c == b'-'
    then signed_neg (digits s)
    else if c == b'+'
    then signed (digits s)
    else signed (digits (c ∷ s))

abbrev pub text_eq : Text → Text → Bool
text_eq [] [] = true
text_eq (c ∷ s) (d ∷ t) = (c == d) && text_eq s t
text_eq _ _ = false

-- strings.HasSuffix
unfoldable pub has_suffix : Text → Text → Bool
has_suffix [] suffix = is_empty suffix
has_suffix (c ∷ s) suffix = let rest = has_suffix s suffix in text_eq (c ∷ s) suffix || rest
