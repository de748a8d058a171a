-- ===== src/Update/Waits.antt =====
-- How long the scheduler of internal/update/scheduler.go waits between two rounds of its loop.
use wireguide_plus.Common.{ℕ, ◌-◌, ◌≤◌, ◌<◌, Bool, true, false, arith}
use wireguide_plus.Update.Scheduler.{
  Checked, Scheduler, jitter_range, jitter_around, retry_delay, next_wait, loop_round,
}
use wireguide_plus.Common.{◌⊎◌}

module _ (rand : ℕ → ℕ) (rand_lt : (n : ℕ) → 0 < n → rand n < n) where
  jitter_range_bounds :
      (low high : ℕ)
      → low < high
      → (low ≤ jitter_range rand low high) × (jitter_range rand low high < high)
  unfolding jitter_range
  jitter_range_bounds low high h = ground (arith, h, rand_lt (high - low))

  retry_delay_bounds : (n : ℕ) → (300 ≤ retry_delay rand n) × (retry_delay rand n < 1800)
  unfolding retry_delay
  retry_delay_bounds n =
      let a = jitter_range_bounds 300 420 (omega arith) in
      let b = jitter_range_bounds 600 900 (omega arith) in
      let c = jitter_range_bounds 1500 1800 (omega arith) in ground (arith, a, b, c)

  steady_bounds : (77760 ≤ jitter_around rand 86400 8640) × (jitter_around rand 86400 8640 < 95040)
  unfolding jitter_around
  steady_bounds = ground (arith, rand_lt 17280)

  wait_bounds : (c : Checked) (n : ℕ) → (300 ≤ next_wait rand c n) × (next_wait rand c n < 95040)
  wait_bounds (Checked.failed r) n = let h = retry_delay_bounds n in ground (arith, h.0, h.1)
  wait_bounds (Checked.done r) n = let h = steady_bounds in ground (arith, h.0, h.1)

  -- If rand.Int63n(n) is less than n, the wait after a round is at least five minutes and less than
  -- 26.4 hours, also if the checks are disabled.
  pub loop_waits :
      (enabled : Bool) (now : ℕ) (c : Checked) (s : Scheduler)
      → (300 ≤ (loop_round rand enabled now c s).2) × ((loop_round rand enabled now c s).2 < 95040)
  unfolding loop_round
  loop_waits true now c s = wait_bounds c _
  loop_waits false now c s = let h = steady_bounds in ground (arith, h.0, h.1)

  -- The retries get slower: the wait after two to four failures in a row is longer than any after one,
  -- and the wait after five or more longer than any after fewer.
  pub retry_ramps :
      (m n : ℕ)
      → ((m ≤ 1) × (1 < n)) ⊎ ((m ≤ 4) × (4 < n))
      → retry_delay rand m < retry_delay rand n
  unfolding retry_delay
  retry_ramps m n h =
      let a = jitter_range_bounds 300 420 (omega arith) in
      let b = jitter_range_bounds 600 900 (omega arith) in
      let c = jitter_range_bounds 1500 1800 (omega arith) in ground (arith, h, a, b, c)
