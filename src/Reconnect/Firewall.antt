-- ===== src/Reconnect/Firewall.antt =====
-- The firewall during a reconnect: reconnectWithBackoff of internal/reconnect/monitor.go.
use wireguide_plus.Common.{
  ◌+◌, ◌≡◌, refl, inl, inr, List, [], ◌∷◌, Bool, true, false, ◌&&◌, ltb, All, Bool-cases,
}
use wireguide_plus.Reconnect.Backoff.{
  Config, Suspend, Teardown, Reconnect, Round, Effect, Exit, State, Step, continue, stop, did,
  resume_if, was_suspended, after_suspend, after_reconnect, proceed, after_teardown, after_wait,
  round, rounds, start, reconnect_with_backoff,
}

-- The last call was the one that suspends the firewall.
abbrev pub suspended : List Effect → Bool
suspended [] = false
suspended (Effect.suspend_firewall ∷ es) = true
suspended (Effect.resume_firewall ∷ es) = false
suspended (_ ∷ es) = suspended es

-- Where the firewall is not suspended: between two rounds, and when the loop is over, but for the
-- two exits.
abbrev pub IsRestored : Step → Type 0
IsRestored (continue s) = suspended s.effects ≡ false
IsRestored (stop Exit.already_up s) = Unit {0}
IsRestored (stop Exit.policy_blocked s) = Unit {0}
IsRestored (stop Exit.not_running s) = suspended s.effects ≡ false
IsRestored (stop Exit.too_many_attempts s) = suspended s.effects ≡ false
IsRestored (stop Exit.cancelled s) = suspended s.effects ≡ false
IsRestored (stop Exit.reconnected s) = suspended s.effects ≡ false

-- A rule for a property of all that a loop reaches.
pub rounds-inv :
    (c : Config) (P : Step → Type 0) (OK : Round → Type 0)
    → ((r : Round) (s : State) → OK r → P (continue s) → P (round c r s))
    → (rs : List Round) (x : Step) → All OK rs
    → P x
    → P (rounds c rs x)
unfolding rounds
rounds-inv c P OK keep [] x ok h = h
rounds-inv c P OK keep (r ∷ rs) (continue s) ok h =
    rounds-inv c P OK keep rs (round c r s) ok.1 (keep r s ok.0 h)
rounds-inv c P OK keep (r ∷ rs) (stop e s) ok h = h

-- The suspend call, and then the resume call if it succeeded, restore the firewall.
resume-suspended :
    (u : Suspend) (s : State)
    → suspended s.effects ≡ was_suspended u
    → suspended (resume_if true (was_suspended u && true) s).effects ≡ false
resume-suspended Suspend.unset s h = h
resume-suspended Suspend.succeeds s h = refl
resume-suspended Suspend.fails s h = h

after_suspend-suspended :
    (u : Suspend) (s : State)
    → suspended s.effects ≡ false
    → suspended (after_suspend u s).effects ≡ was_suspended u
after_suspend-suspended Suspend.unset s h = h
after_suspend-suspended Suspend.succeeds s h = refl
after_suspend-suspended Suspend.fails s h = h

module _ (c : Config) where
  after_reconnect-IsRestored :
      (r : Round) (o : Reconnect) (s : State)
      → (r.resume_set ≡ true) × (r.resumes ≡ true)
      → suspended s.effects ≡ was_suspended r.suspend
      → IsRestored (after_reconnect c r o s)
  unfolding after_reconnect
  after_reconnect-IsRestored r Reconnect.blocked s set h = tt
  after_reconnect-IsRestored r Reconnect.failed s set h =
      rw (set.0, set.1) (resume-suspended r.suspend s h)
  after_reconnect-IsRestored r Reconnect.connected s set h =
      rw (set.0, set.1) (resume-suspended r.suspend s h)

  proceed-IsRestored :
      (r : Round) (s : State)
      → (r.resume_set ≡ true) × (r.resumes ≡ true)
      → suspended s.effects ≡ was_suspended r.suspend
      → IsRestored (proceed c r s)
  unfolding proceed
  proceed-IsRestored r s set h = elim (Bool-cases r.cancelled_before_reconnect) [
    | inl e ↦ rw e (rw (set.0, set.1) (resume-suspended r.suspend s h))
    | inr e ↦ rw e (after_reconnect-IsRestored r r.reconnect (did Effect.try_reconnect s) set h)
  ]

  after_teardown-IsRestored :
      (r : Round) (t : Teardown) (s : State)
      → (r.resume_set ≡ true) × (r.resumes ≡ true)
      → suspended s.effects ≡ was_suspended r.suspend
      → IsRestored (after_teardown c r t s)
  unfolding after_teardown
  after_teardown-IsRestored r Teardown.failed s set h =
      rw (set.0, set.1) (resume-suspended r.suspend s h)
  after_teardown-IsRestored r Teardown.done s set h =
      proceed-IsRestored r (record s { torn_down = true }) set h
  after_teardown-IsRestored r Teardown.not_connected s set h =
      proceed-IsRestored r (record s { torn_down = true }) set h

  after_wait-IsRestored :
      (r : Round) (s : State)
      → (r.resume_set ≡ true) × (r.resumes ≡ true)
      → suspended s.effects ≡ false
      → IsRestored (after_wait c r s)
  unfolding after_wait
  after_wait-IsRestored r s set h = elim (Bool-cases r.cancelled_after_wait) [
    | inl e ↦ rw e h
    | inr e ↦ rw e (elim (Bool-cases (s.torn_down && r.tunnel_is_up)) [
      | inl up ↦ rw up tt
      | inr up ↦ rw up (
          after_teardown-IsRestored r r.teardown (did Effect.tear_down (after_suspend r.suspend s))
            set (after_suspend-suspended r.suspend s h))
    ])
  ]

  round-IsRestored :
      (r : Round) (s : State)
      → (r.resume_set ≡ true) × (r.resumes ≡ true)
      → suspended s.effects ≡ false
      → IsRestored (round c r s)
  unfolding round
  round-IsRestored r s set h = elim (Bool-cases r.running) [
    | inr e ↦ rw e h
    | inl e ↦ rw e (elim (Bool-cases (ltb 0 c.max_attempts && ltb c.max_attempts (s.attempt + 1))) [
      | inl m ↦ rw m h
      | inr m ↦ rw m (elim (Bool-cases r.cancelled_in_wait) [
        | inl w ↦ rw w h
        | inr w ↦ rw w (
            after_wait-IsRestored r
              (did (Effect.wait s.delay) (
                did (Effect.announce (s.attempt + 1) s.delay)
                  (record s { attempt = s.attempt + 1 })))
              set h)
      ])
    ])
  ]

  -- Where in every round a resume function is set and its calls succeed, the firewall is not left
  -- suspended between two rounds, nor when the loop is over, unless the loop ended because the tunnel
  -- was up again or the policy blocked it.
  pub firewall-IsRestored :
      (rs : List Round)
      → All (λ r. (r.resume_set ≡ true) × (r.resumes ≡ true)) rs
      → IsRestored (reconnect_with_backoff c rs)
  unfolding reconnect_with_backoff
  firewall-IsRestored rs set =
      rounds-inv c IsRestored (λ r. (r.resume_set ≡ true) × (r.resumes ≡ true))
        (λ r s ok h. round-IsRestored r s ok h) rs (continue (start c)) set refl

-- What stands of the firewall at the two exits.
abbrev pub LeavesSuspended : Round → Step → Type 0
LeavesSuspended r (continue s) = Unit {0}
LeavesSuspended r (stop Exit.already_up s) = suspended s.effects ≡ was_suspended r.suspend
LeavesSuspended r (stop Exit.policy_blocked s) = suspended s.effects ≡ was_suspended r.suspend
LeavesSuspended r (stop Exit.not_running s) = Unit {0}
LeavesSuspended r (stop Exit.too_many_attempts s) = Unit {0}
LeavesSuspended r (stop Exit.cancelled s) = Unit {0}
LeavesSuspended r (stop Exit.reconnected s) = Unit {0}

module _ (c : Config) where
  proceed-LeavesSuspended :
      (r : Round) (s : State)
      → suspended s.effects ≡ was_suspended r.suspend
      → LeavesSuspended r (proceed c r s)
  unfolding proceed
  proceed-LeavesSuspended r s h = elim (Bool-cases r.cancelled_before_reconnect) [
    | inl e ↦ rw e tt
    | inr e ↦ rw e (on_result r r.reconnect (did Effect.try_reconnect s) h)
  ]
    where
      on_result :
          (r : Round) (o : Reconnect) (s : State)
          → suspended s.effects ≡ was_suspended r.suspend
          → LeavesSuspended r (after_reconnect c r o s)
      on_result r Reconnect.blocked s h = unfold after_reconnect in h
      on_result r Reconnect.failed s h = unfold after_reconnect in tt
      on_result r Reconnect.connected s h = unfold after_reconnect in tt

  teardown-LeavesSuspended :
      (r : Round) (t : Teardown) (s : State)
      → suspended s.effects ≡ was_suspended r.suspend
      → LeavesSuspended r (after_teardown c r t s)
  unfolding after_teardown
  teardown-LeavesSuspended r Teardown.failed s h = tt
  teardown-LeavesSuspended r Teardown.done s h =
      proceed-LeavesSuspended r (record s { torn_down = true }) h
  teardown-LeavesSuspended r Teardown.not_connected s h =
      proceed-LeavesSuspended r (record s { torn_down = true }) h

  wait-LeavesSuspended :
      (r : Round) (s : State) → suspended s.effects ≡ false → LeavesSuspended r (after_wait c r s)
  unfolding after_wait
  wait-LeavesSuspended r s h = elim (Bool-cases r.cancelled_after_wait) [
    | inl e ↦ rw e tt
    | inr e ↦ rw e (elim (Bool-cases (s.torn_down && r.tunnel_is_up)) [
      | inl up ↦ rw up (after_suspend-suspended r.suspend s h)
      | inr up ↦ rw up (
          teardown-LeavesSuspended r r.teardown (did Effect.tear_down (after_suspend r.suspend s))
            (after_suspend-suspended r.suspend s h))
    ])
  ]

  -- A round that begins with the firewall in place and ends the loop because the tunnel is up again
  -- or the policy blocks it leaves the firewall suspended whenever its suspend call succeeded.
  pub round-LeavesSuspended :
      (r : Round) (s : State) → suspended s.effects ≡ false → LeavesSuspended r (round c r s)
  unfolding round
  round-LeavesSuspended r s h = elim (Bool-cases r.running) [
    | inr e ↦ rw e tt
    | inl e ↦ rw e (elim (Bool-cases (ltb 0 c.max_attempts && ltb c.max_attempts (s.attempt + 1))) [
      | inl m ↦ rw m tt
      | inr m ↦ rw m (elim (Bool-cases r.cancelled_in_wait) [
        | inl w ↦ rw w tt
        | inr w ↦ rw w (
            wait-LeavesSuspended r
              (did (Effect.wait s.delay) (
                did (Effect.announce (s.attempt + 1) s.delay)
                  (record s { attempt = s.attempt + 1 })))
              h)
      ])
    ])
  ]
