-- ===== src/Update/Version.antt =====
-- isNewerVersion of internal/update/checker.go.
use wireguide_plus.Common.{
  ℕ, List, [], ◌∷◌, Option, none, some, Bool, true, false, ◌==◌, ltb, is_empty, if◌then◌else◌,
}
use wireguide_plus.Common.Int.{ℤ, pos, negsuc}
use wireguide_plus.Common.Text.{Text, atoi}

unfoldable pub int_lt : ℤ → ℤ → Bool
int_lt (pos a) (pos b) = ltb a b
int_lt (pos a) (negsuc b) = false
int_lt (negsuc a) (pos b) = true
int_lt (negsuc a) (negsuc b) = ltb b a

-- The text before the first occurrence of a byte.
unfoldable pub before : ℕ → Text → Text
before c [] = []
before c (d ∷ s) = let rest = before c s in if d == c then [] else d ∷ rest

-- stripSuffix: without what follows a + (43) and then what follows a - (45).
unfoldable pub strip_suffix : Text → Text
unfolding before
strip_suffix v = before 45 (before 43 v)

abbrev pub cons_first : ℕ → List Text → List Text
cons_first c [] = (c ∷ []) ∷ []
cons_first c (s ∷ ss) = (c ∷ s) ∷ ss

-- strings.Split
unfoldable pub split : ℕ → Text → List Text
split c [] = [] ∷ []
split c (d ∷ s) = let rest = split c s in if d == c then [] ∷ rest else cons_first d rest

abbrev pub both : Option ℤ → Option (List ℤ) → Option (List ℤ)
both (some n) (some ns) = some (n ∷ ns)
both _ _ = none

unfoldable pub atois : List Text → Option (List ℤ)
atois [] = some []
atois (s ∷ ss) = both (atoi s) (atois ss)

-- parseParts: none stands for nil.
unfoldable pub parse_parts : Text → Option (List ℤ)
unfolding strip_suffix split atois
parse_parts v =
    let stripped = strip_suffix v in if is_empty stripped then none else atois (split 46 stripped)

-- The loop over the parts, and the longer one if all common ones are equal.
unfoldable pub newer_parts : List ℤ → List ℤ → Bool
unfolding int_lt
newer_parts [] cp = false
newer_parts (l ∷ lp) [] = true
newer_parts (l ∷ lp) (c ∷ cp) =
    let rest = newer_parts lp cp in if int_lt c l then true else if int_lt l c then false else rest

abbrev pub newer_if : Option (List ℤ) → Option (List ℤ) → Bool
newer_if (some lp) (some cp) = newer_parts lp cp
newer_if _ _ = false

-- isNewerVersion
unfoldable pub is_newer_version : Text → Text → Bool
unfolding parse_parts newer_parts
is_newer_version latest current = newer_if (parse_parts latest) (parse_parts current)
