-- ===== src/Wifi/Clock.antt =====
-- internal/wifi/automation.go: parseClock, validateTimeWindow and timeMatches.
use wireguide_plus.Common.{
  ℕ, ◌+◌, ◌*◌, List, Option, none, some, String, Bool, true, false, ◌&&◌, ◌||◌, ltb, leb, ◌==◌,
  if◌then◌else◌, is_empty, any, all,
}
use wireguide_plus.Common.Int.{ℤ, pos, negsuc, in_range}
use wireguide_plus.Common.Text.{Text, codes, trim, split_pair, atoi}
use wireguide_plus.Wifi.Model.{Condition, Moment}

-- The result of parseClock: -1 for an empty string, minutes since midnight, or an error.
pub data Clock : Type 0 where
  unset : Clock
  at : ℕ → Clock
  bad : Clock

unfoldable pub clock_of : Option ℤ → Option ℤ → Clock
clock_of (some (pos h)) (some (pos m)) = if leb h 23 && leb m 59 then at (h * 60 + m) else bad
clock_of _ _ = bad

unfoldable pub clock_parts : Option (Text × Text) → Clock
unfolding clock_of
clock_parts none = bad
clock_parts (some (h, m)) = clock_of (atoi h) (atoi m)

unfoldable pub parse_clock : String → Clock
unfolding clock_parts
parse_clock s =
    let t = trim (codes s) in if is_empty t then unset else clock_parts (split_pair b':' t)

abbrev pub is_bad : Clock → Bool
is_bad bad = true
is_bad _ = false

pub data TimeError : Type 0 where
  no_window bad_start bad_end bad_day : TimeError

unfoldable pub validate_time_window : Condition → Option TimeError
validate_time_window c =
    if is_empty (trim (codes c.start)) && is_empty (trim (codes c.end)) && is_empty c.days
    then some no_window
    else if is_bad (parse_clock c.start)
    then some bad_start
    else if is_bad (parse_clock c.end)
    then some bad_end
    else if all (in_range 0 6) c.days
    then none
    else some bad_day

abbrev is_day : ℕ → ℤ → Bool
is_day wd (pos d) = d == wd
is_day wd (negsuc d) = false

-- The window test on minutes since midnight; an end before the start wraps past midnight.
unfoldable pub in_window : ℕ → ℕ → ℕ → Bool
in_window start end mins =
    if leb start end then leb start mins && ltb mins end else leb start mins || ltb mins end

abbrev pub minutes : Moment → ℕ
minutes m = m.hour * 60 + m.minute

-- An unset start is 00:00 and an unset end 24:00.
unfoldable pub window_matches : Clock → Clock → ℕ → Bool
unfolding in_window
window_matches bad _ mins = false
window_matches unset unset mins = true
window_matches unset bad mins = false
window_matches unset (at e) mins = in_window 0 e mins
window_matches (at s) bad mins = false
window_matches (at s) unset mins = in_window s (24 * 60) mins
window_matches (at s) (at e) mins = in_window s e mins

abbrev pub day_listed : List ℤ → ℕ → Bool
day_listed days wd = is_empty days || any (is_day wd) days

unfoldable pub time_matches_at : Condition → Moment → Bool
unfolding window_matches
time_matches_at c now =
    if day_listed c.days now.weekday
    then window_matches (parse_clock c.start) (parse_clock c.end) (minutes now)
    else false

-- timeMatches: a zero time stands for the machine's clock.
unfoldable pub time_matches : Moment → Condition → Option Moment → Bool
unfolding time_matches_at
time_matches wall c none = time_matches_at c wall
time_matches wall c (some now) = time_matches_at c now
