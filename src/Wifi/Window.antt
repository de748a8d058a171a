-- ===== src/Wifi/Window.antt =====
-- The laws of the time conditions in internal/wifi/automation.go.
use wireguide_plus.Common.{
  ℕ, ◌+◌, ◌-◌, ◌%◌, ◌<◌, ◌≡◌, ◌↔◌, ap, Option, none, some, String, true, false, ltb, if◌then◌else◌,
  arith,
}
use wireguide_plus.Common.Int.{ℤ, pos}
use wireguide_plus.Common.Text.{Text, codes, trim, split_pair, atoi}
use wireguide_plus.Wifi.Model.{Condition, Moment}
use wireguide_plus.Wifi.Clock.{
  at, clock_of, clock_parts, parse_clock, in_window, minutes, day_listed, time_matches,
}

clock_of_bound : (h m : Option ℤ) (t : ℕ) → clock_of h m ≡ at t → t < 1440
unfolding clock_of
clock_of_bound (some (pos h)) (some (pos m)) t e = ground arith
clock_of_bound _ _ t e = cc

clock_parts_bound : (o : Option (Text × Text)) (t : ℕ) → clock_parts o ≡ at t → t < 1440
unfolding clock_parts
clock_parts_bound none t e = cc
clock_parts_bound (some (h, m)) t e = clock_of_bound (atoi h) (atoi m) t e

-- A clock that parses is a minute of the day.
pub parse_clock-lt : (s : String) (t : ℕ) → parse_clock s ≡ at t → t < 1440
unfolding parse_clock
parse_clock-lt s t e = ground (arith, clock_parts_bound (split_pair b':' (trim (codes s))) t)

-- The window from start to end holds the minutes whose distance from the start, round the clock, is
-- less than the window's length.
in_window_elapsed :
    (s e m : ℕ)
    → s < 1440
    → e < 1440
    → m < 1440
    → in_window s e m ≡ ltb ((m + 1440 - s) % 1440) ((e + 1440 - s) % 1440)
unfolding in_window
in_window_elapsed s e m hs he hm = ground arith

module _ (wall : Moment) (c : Condition) (now : Moment) {s e : ℕ}
    (starts : parse_clock c.start ≡ at s) (ends : parse_clock c.end ≡ at e) (hour : now.hour < 24)
    (minute : now.minute < 60) where
  opened : time_matches wall c (some now) ≡ (
      if day_listed c.days now.weekday
      then ltb ((minutes now + 1440 - s) % 1440) ((e + 1440 - s) % 1440)
      else false)
  unfolding time_matches
  opened =
      rw (starts, ends)
        (ap (λ b. if day_listed c.days now.weekday then b else false)
          (in_window_elapsed s e (minutes now) (parse_clock-lt c.start s starts)
            (parse_clock-lt c.end e ends) (omega arith)))

  -- A time condition with a start and an end matches at `now` exactly when its day filter admits the
  -- weekday and the minutes since the start, counted round the clock, are fewer than the minutes
  -- from the start to the end. This covers windows that pass midnight; equal clocks never match.
  pub time_matches_elapsed : (time_matches wall c (some now) ≡ true) ↔ (
      (day_listed c.days now.weekday ≡ true)
      × ((minutes now + 1440 - s) % 1440 < (e + 1440 - s) % 1440))
  time_matches_elapsed =
      (λ h. (ground (arith, opened), ground (arith, opened)), λ h. ground (arith, opened))
