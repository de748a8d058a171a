-- ===== src/Config/Words.antt =====
-- What internal/config uses of Go's text libraries: strings.Split, strings.Join, bufio.ScanLines,
-- strings.ToLower and strconv.Itoa, on code points.
use wireguide_plus.Common.{
  ℕ, zero, suc, ◌+◌, ◌/◌, ◌%◌, List, [], ◌∷◌, ◌++◌, ◌&&◌, leb, ltb, ◌==◌, if◌then◌else◌,
}
use wireguide_plus.Common.Int.{ℤ, pos, negsuc}
use wireguide_plus.Common.Text.{Text}

-- A character in front of the first part.
abbrev pub push : ℕ → List Text → List Text
push c [] = (c ∷ []) ∷ []
push c (w ∷ ws) = (c ∷ w) ∷ ws

-- strings.Split at a character: never empty.
unfoldable pub split : ℕ → Text → List Text
split sep [] = [] ∷ []
split sep (c ∷ s) = let rest = split sep s in if c == sep then [] ∷ rest else push c rest

-- strings.Join
unfoldable pub join : Text → List Text → Text
join sep [] = []
join sep (w ∷ []) = w
join sep (w ∷ v ∷ ws) = w ++ (sep ++ join sep (v ∷ ws))

-- The lines of bufio.ScanLines, with their carriage returns: an empty last line is none.
unfoldable pub lines : Text → List Text
lines [] = []
lines (c ∷ s) = let rest = lines s in if c == 10 then [] ∷ rest else push c rest

-- The carriage return that bufio.ScanLines drops.
unfoldable pub drop_cr : Text → Text
drop_cr [] = []
drop_cr (c ∷ []) = if c == 13 then [] else c ∷ []
drop_cr (c ∷ d ∷ s) = c ∷ drop_cr (d ∷ s)

-- The bytes of a code point in UTF-8.
abbrev utf8_width : ℕ → ℕ
utf8_width c = if ltb c 0x80 then 1 else if ltb c 0x800 then 2 else if ltb c 0x10000 then 3 else 4

-- len of a string
unfoldable pub byte_length : Text → ℕ
byte_length [] = 0
byte_length (c ∷ s) = utf8_width c + byte_length s

-- strings.ToLower; `lower_rune` is unicode.ToLower outside ASCII.
unfoldable pub to_lower : (ℕ → ℕ) → Text → Text
to_lower lower_rune [] = []
to_lower lower_rune (c ∷ s) =
    (if leb 65 c && leb c 90 then c + 32 else if ltb c 128 then c else lower_rune c)
    ∷ to_lower lower_rune s

-- The decimal digits of a number in front of a text, on fuel: a number is more than its quotient.
unfoldable pub decimal : ℕ → ℕ → Text → Text
decimal zero n acc = acc
decimal (suc f) n acc =
    let rest = decimal f (n / 10) ((48 + n % 10) ∷ acc) in if ltb n 10 then (48 + n) ∷ acc else rest

-- strconv.Itoa
unfoldable pub itoa : ℤ → Text
unfolding decimal
itoa (pos n) = decimal (suc n) n []
itoa (negsuc n) = b'-' ∷ decimal (suc (suc n)) (suc n) []
