-- ===== src/Reconnect/Backoff.antt =====
-- reconnectWithBackoff of internal/reconnect/monitor.go. What one round of its loop meets outside
-- (cancellation, the firewall, the tunnel manager, the reconnect function) is a `Round`; what the
-- loop does is a list of effects, the last one first. Durations are numbers of nanoseconds.
use wireguide_plus.Common.{
  ℕ, ◌+◌, ◌*◌, List, [], ◌∷◌, Bool, true, false, ◌&&◌, not, ltb, if◌then◌else◌,
}

pub record Config : Type 0 where
  pub initial_delay : ℕ
  pub max_delay : ℕ
  pub max_attempts : ℕ

-- The firewall's suspend function: not set, or how its call ends.
pub data Suspend : Type 0 where
  unset succeeds fails : Suspend

-- How the teardown ends: done, the tunnel was not connected, or another error. The path for all
-- tunnels has no error.
pub data Teardown : Type 0 where
  done not_connected failed : Teardown

pub data Reconnect : Type 0 where
  connected blocked failed : Reconnect

pub record Round : Type 0 where
  pub running : Bool
  pub cancelled_in_wait : Bool
  pub cancelled_after_wait : Bool
  pub suspend : Suspend
  -- Whether a resume function is set, and whether its call succeeds.
  pub resume_set : Bool
  pub resumes : Bool
  pub tunnel_is_up : Bool
  pub teardown : Teardown
  pub cancelled_before_reconnect : Bool
  pub reconnect : Reconnect

pub data Effect : Type 0 where
  gave_up : ℕ → Effect
  announce : ℕ → ℕ → Effect
  wait : ℕ → Effect
  suspend_firewall resume_firewall resume_failed tear_down try_reconnect settled clear_slot : Effect

-- Why the loop ended.
pub data Exit : Type 0 where
  not_running too_many_attempts cancelled already_up policy_blocked reconnected : Exit

pub record State : Type 0 where
  pub attempt : ℕ
  pub delay : ℕ
  pub torn_down : Bool
  pub effects : List Effect

pub data Step : Type 0 where
  continue : State → Step
  stop : Exit → State → Step

abbrev pub did : Effect → State → State
did e s = record s { effects = e ∷ s.effects }

-- The slot is cleared if it is still this entry's; see Reconnect.Slots.
abbrev pub settle : State → State
settle s = did Effect.clear_slot (did Effect.settled s)

abbrev pub resume_result : Bool → Effect
resume_result true = Effect.resume_firewall
resume_result false = Effect.resume_failed

-- if firewallWasSuspended && fwResumeFn != nil, where `resumes` says whether the call succeeds: its error
-- is only logged.
abbrev pub resume_if : Bool → Bool → State → State
resume_if resumes b s = if b then did (resume_result resumes) s else s

abbrev pub was_suspended : Suspend → Bool
was_suspended Suspend.succeeds = true
was_suspended _ = false

abbrev pub after_suspend : Suspend → State → State
after_suspend Suspend.unset s = s
after_suspend Suspend.succeeds s = did Effect.suspend_firewall s
after_suspend Suspend.fails s = s

module _ (c : Config) where
  -- entry.delay = delay * 2, at most MaxDelay
  unfoldable pub next_delay : ℕ → ℕ
  next_delay d = if ltb c.max_delay (d * 2) then c.max_delay else d * 2

  abbrev pub back_off : State → State
  unfolding next_delay
  back_off s = record s { delay = next_delay s.delay }

  abbrev pub to_resume : Round → Bool
  to_resume r = was_suspended r.suspend && r.resume_set

  -- From the call of reconnectFn on.
  unfoldable pub after_reconnect : Round → Reconnect → State → Step
  unfolding next_delay
  after_reconnect r Reconnect.blocked s = stop Exit.policy_blocked (settle s)
  after_reconnect r Reconnect.failed s = continue (back_off (resume_if r.resumes (to_resume r) s))
  after_reconnect r Reconnect.connected s =
      stop Exit.reconnected (settle (resume_if r.resumes (to_resume r) s))

  -- From the last check of the context on.
  unfoldable pub proceed : Round → State → Step
  unfolding after_reconnect
  proceed r s =
      if r.cancelled_before_reconnect
      then stop Exit.cancelled (resume_if r.resumes (to_resume r) s)
      else after_reconnect r r.reconnect (did Effect.try_reconnect s)

  -- From the result of the teardown on.
  unfoldable pub after_teardown : Round → Teardown → State → Step
  unfolding proceed next_delay
  after_teardown r Teardown.failed s = continue (back_off (resume_if r.resumes (to_resume r) s))
  after_teardown r Teardown.done s = proceed r (record s { torn_down = true })
  after_teardown r Teardown.not_connected s = proceed r (record s { torn_down = true })

  -- From the end of the wait on.
  unfoldable pub after_wait : Round → State → Step
  unfolding after_teardown
  after_wait r s =
      if r.cancelled_after_wait
      then stop Exit.cancelled s
      else if s.torn_down && r.tunnel_is_up
      then stop Exit.already_up (settle (after_suspend r.suspend s))
      else after_teardown r r.teardown (did Effect.tear_down (after_suspend r.suspend s))

  -- One round of the loop.
  unfoldable pub round : Round → State → Step
  unfolding after_wait
  round r s =
      if not r.running
      then stop Exit.not_running s
      else if ltb 0 c.max_attempts && ltb c.max_attempts (s.attempt + 1)
      then stop Exit.too_many_attempts (
          did Effect.clear_slot
            (did (Effect.gave_up s.attempt) (record s { attempt = s.attempt + 1 })))
      else if r.cancelled_in_wait
      then stop Exit.cancelled (
          did (Effect.wait s.delay)
            (did (Effect.announce (s.attempt + 1) s.delay) (record s { attempt = s.attempt + 1 })))
      else after_wait r (
          did (Effect.wait s.delay)
            (did (Effect.announce (s.attempt + 1) s.delay) (record s { attempt = s.attempt + 1 })))

  -- The loop, over the rounds that it meets: it stands at `continue` if it is not over after them.
  unfoldable pub rounds : List Round → Step → Step
  unfolding round
  rounds [] x = x
  rounds (r ∷ rs) (continue s) = rounds rs (round r s)
  rounds (r ∷ rs) (stop e s) = stop e s

  abbrev pub start : State
  start = record { attempt = 0; delay = c.initial_delay; torn_down = false; effects = [] }

  -- reconnectWithBackoff
  unfoldable pub reconnect_with_backoff : List Round → Step
  unfolding rounds
  reconnect_with_backoff rs = rounds rs (continue start)
