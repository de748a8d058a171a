-- ===== src/Update/Checksums.antt =====
-- The checksum files of internal/update/checker.go: parseExpectedHash. strings.EqualFold and the
-- match of the regular expression for the lines of BSD are parameters.
use wireguide_plus.Common.{
  ℕ, List, [], ◌∷◌, Option, none, some, Bool, true, ◌&&◌, ◌||◌, not, ◌==◌, leb, is_empty,
  if◌then◌else◌,
}
use wireguide_plus.Common.Text.{Text, trim}
use wireguide_plus.Update.Version.{split}

-- A space or a tab.
unfoldable pub is_blank : ℕ → Bool
is_blank c = (c == 32) || (c == 9)

abbrev pub cons_hash : ℕ → Option (Text × Text) → Option (Text × Text)
cons_hash c none = none
cons_hash c (some (a, b)) = some (c ∷ a, b)

-- The line up to the first blank, and from it on; none without a blank.
unfoldable pub split_blank : Text → Option (Text × Text)
unfolding is_blank
split_blank [] = none
split_blank (c ∷ s) =
    let rest = split_blank s in if is_blank c then some ([], c ∷ s) else cons_hash c rest

-- strings.TrimLeft of spaces and tabs
unfoldable pub trim_blanks : Text → Text
unfolding is_blank
trim_blanks [] = []
trim_blanks (c ∷ s) = let rest = trim_blanks s in if is_blank c then rest else c ∷ s

-- Without a leading * (42).
abbrev pub trim_star : Text → Text
trim_star [] = []
trim_star (c ∷ s) = if c == 42 then s else c ∷ s

unfoldable pub is_hex_digit : ℕ → Bool
is_hex_digit c =
    (leb b'0' c && leb c b'9') || ((leb b'a' c && leb c b'f') || (leb b'A' c && leb c b'F'))

abbrev pub all_hex : Text → Bool
all_hex [] = true
all_hex (c ∷ s) = is_hex_digit c && all_hex s

-- isHexString
unfoldable pub is_hex_string : Text → Bool
unfolding is_hex_digit
is_hex_string s = not (is_empty s) && all_hex s

-- A line that is empty or begins with a # (35).
abbrev pub is_skipped : Text → Bool
is_skipped [] = true
is_skipped (c ∷ s) = c == 35

module _ (equal_fold : Text → Text → Bool) (bsd_line : Text → Option (Text × Text)) where
  -- matchBSDChecksumLine, given the two groups of a match.
  unfoldable pub match_bsd : Option (Text × Text) → Text → Text
  match_bsd none name = []
  match_bsd (some (file, hash)) name = if equal_fold file name then hash else []

  unfoldable pub match_gnu : Option (Text × Text) → Text → Text
  unfolding is_hex_string trim_blanks
  match_gnu none name = []
  match_gnu (some (hash, rest)) name =
      if not (is_hex_string hash)
      then []
      else if equal_fold (trim_star (trim_blanks rest)) name
      then hash
      else []

  -- The hash that a line gives for an asset, or nothing.
  unfoldable pub line_hash : Text → Text → Text
  unfolding match_bsd match_gnu split_blank
  line_hash line name =
      if is_skipped line
      then []
      else let bsd = match_bsd (bsd_line line) name in
        if not (is_empty bsd) then bsd else match_gnu (split_blank line) name

  unfoldable pub first_hash : List Text → Text → Text
  unfolding line_hash
  first_hash [] name = []
  first_hash (line ∷ lines) name =
      let rest = first_hash lines name in
      let hash = line_hash (trim line) name in if not (is_empty hash) then hash else rest

  -- parseExpectedHash
  unfoldable pub parse_expected_hash : Text → Text → Text
  unfolding first_hash
  parse_expected_hash body name = first_hash (split 10 body) name
