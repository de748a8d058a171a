-- ===== src/Tests/Monitor.antt =====
-- Tests of the reconnect monitor (internal/reconnect), and each law at a concrete input.
use mathlib.Core.List.{Memᴰ}
use wireguide_plus.Common.{
  ◌*◌, ◌^◌, ◌≤◌, ◌<◌, ◌≡◌, ◌↔◌, refl, List, [], ◌∷◌, some, none, String, Bool, true, false, str_eq,
  ltb, if◌then◌else◌, any, all, length, arith,
}
use wireguide_plus.Reconnect.Backoff.{
  Config, Suspend, Teardown, Reconnect, Round, Effect, State, Step, continue, stop,
  reconnect_with_backoff, round, start,
}
use wireguide_plus.Reconnect.Firewall.{
  suspended, IsRestored, LeavesSuspended, firewall-IsRestored, round-LeavesSuspended,
}
use wireguide_plus.Reconnect.Delays.{backoff_schedule}
use wireguide_plus.Reconnect.Slots.{Op, run, no_slots}
use wireguide_plus.Reconnect.Cancels.{cancel_ids}
use wireguide_plus.Reconnect.Owners.{count, owned}
use wireguide_plus.Reconnect.OneRetry.{one_retry}
use wireguide_plus.Reconnect.Health.{TunnelState, Status, tick}
use wireguide_plus.Reconnect.Repair.{IsStale, tick_iff}

-- Delays in seconds, and three attempts.
abbrev three_attempts : Config
three_attempts = record { initial_delay = 5; max_delay = 60; max_attempts = 3 }

abbrev failing : Round
failing = record {
  running = true;
  cancelled_in_wait = false;
  cancelled_after_wait = false;
  suspend = Suspend.succeeds;
  resume_set = true;
  resumes = true;
  tunnel_is_up = false;
  teardown = Teardown.done;
  cancelled_before_reconnect = false;
  reconnect = Reconnect.failed;
}

abbrev blocked : Round
blocked = record failing { reconnect = Reconnect.blocked }

abbrev two_rounds : List Round
two_rounds = failing ∷ failing ∷ []

abbrev one_failure : List Effect
one_failure =
    Effect.resume_firewall
    ∷ Effect.try_reconnect
    ∷ Effect.tear_down
    ∷ Effect.suspend_firewall
    ∷ Effect.wait 5
    ∷ Effect.announce 1 5
    ∷ []

abbrev after_one : State
after_one = record { attempt = 1; delay = 10; torn_down = true; effects = one_failure }

one_round : reconnect_with_backoff three_attempts (failing ∷ []) ≡ continue after_one
unfolding reconnect_with_backoff
one_round = refl

backoff_schedule_example :
    (after_one.attempt ≡ length (failing ∷ []))
    × (after_one.delay
        ≡ (if ltb 60 (5 * 2 ^ length (failing ∷ [])) then 60 else 5 * 2 ^ length (failing ∷ [])))
    × ((0 < three_attempts.max_attempts) → length (failing ∷ []) ≤ three_attempts.max_attempts)
backoff_schedule_example =
    backoff_schedule three_attempts (failing ∷ []) after_one (omega arith) one_round

firewall-IsRestored_example : IsRestored (reconnect_with_backoff three_attempts two_rounds)
firewall-IsRestored_example =
    firewall-IsRestored three_attempts two_rounds ((refl, refl), ((refl, refl), tt))

round-LeavesSuspended_example :
    LeavesSuspended blocked (round three_attempts blocked (start three_attempts))
round-LeavesSuspended_example =
    round-LeavesSuspended three_attempts blocked (start three_attempts) refl

-- The policy blocks the reconnect, and the firewall stays suspended.
abbrev leaves : Step → Bool
leaves (continue s) = false
leaves (stop e s) = suspended s.effects

blocked_leaves : leaves (reconnect_with_backoff three_attempts (failing ∷ blocked ∷ [])) ≡ true
unfolding reconnect_with_backoff
blocked_leaves = refl

abbrev some_ops : List Op
some_ops =
    Op.trigger_tunnel "home"
    ∷ Op.trigger_tunnel "home"
    ∷ Op.cancels_old 0
    ∷ Op.trigger_tunnel "work"
    ∷ Op.returns "home" 0
    ∷ []

abbrev none_exempt : String → Bool
none_exempt n = false

stale_return_keeps_slot : (run none_exempt some_ops no_slots).live ≡ ("work", 2) ∷ ("home", 1) ∷ []
unfolding run
stale_return_keeps_slot = refl

-- A trigger for all tunnels that has not yet reached the retry of "work", and one for "work".
abbrev overlapping : List Op
overlapping =
    Op.trigger_tunnel "home"
    ∷ Op.trigger_tunnel "work"
    ∷ Op.trigger_tunnel ""
    ∷ Op.cancels_old 0
    ∷ Op.trigger_tunnel "work"
    ∷ []

two_live : count "work" (run none_exempt overlapping no_slots).live ≡ 2
unfolding run count
two_live = refl

one_retry_example :
    (count "work" (
        cancel_ids
          (run none_exempt overlapping no_slots).waiting
          (run none_exempt overlapping no_slots).live)
      ≤ 1)
    × (all (owned (run none_exempt overlapping no_slots).retries) (
          cancel_ids
            (run none_exempt overlapping no_slots).waiting
            (run none_exempt overlapping no_slots).live)
        ≡ true)
one_retry_example = one_retry none_exempt overlapping "work"

abbrev silent : Status
silent = record {
  tunnel_name = "home";
  state = TunnelState.connected;
  handshake_age = none;
  connected_age = some (200 * 10 ^ 9);
  handshake_stale = true;
}

tick_iff_example :
    (any (str_eq "home") (tick true none_exempt true (none ∷ some silent ∷ [])) ≡ true) ↔ (
      (true ≡ true)
      × (true ≡ true)
      × ((s : Status) × Memᴰ (some s) (none ∷ some silent ∷ [])
          × IsStale none_exempt s
          × ("home" ≡ s.tunnel_name)))
tick_iff_example = tick_iff true true none_exempt (none ∷ some silent ∷ []) "home"
