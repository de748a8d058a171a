-- ===== src/Reconnect/Delays.antt =====
-- The delays and the number of attempts of reconnectWithBackoff (internal/reconnect/monitor.go).
use mathlib.Core.Path.{subst}
use native.Mathlib.Nat.{pow-suc, mul_assoc}
use wireguide_plus.Common.{
  ℕ, suc, ◌+◌, ◌*◌, ◌^◌, ◌≤◌, ◌<◌, ◌≡◌, refl, sym, ap, ◌∙◌, inl, inr, List, [], ◌∷◌, Bool, true,
  false, ◌&&◌, ltb, if◌then◌else◌, length, arith, Bool-cases,
}
use wireguide_plus.Reconnect.Backoff.{
  Config, Suspend, Teardown, Reconnect, Round, Effect, State, Step, continue, stop, did, resume_if,
  after_suspend, to_resume, next_delay, after_reconnect, proceed, after_teardown, after_wait, round,
  rounds, start, reconnect_with_backoff,
}

abbrev min : ℕ → ℕ → ℕ
min a b = if ltb b a then b else a

-- A property of the state in which the loop goes on.
abbrev Continues : (State → Type 0) → Step → Type 0
Continues P (continue s) = P s
Continues P (stop e s) = Unit {0}

module _ (c : Config) where
  -- A round that goes on has counted one attempt, within the limit, and set the next delay.
  abbrev Advances : State → State → Type 0
  Advances s t =
      (t.attempt ≡ s.attempt + 1)
      × (t.delay ≡ next_delay c s.delay)
      × (ltb 0 c.max_attempts && ltb c.max_attempts t.attempt ≡ false)

  -- The same, from the state in which the delay has been waited for.
  abbrev Doubles : State → State → Type 0
  Doubles s t = (t.attempt ≡ s.attempt) × (t.delay ≡ next_delay c s.delay)

  resume-same :
      (ok b : Bool) (s : State)
      → ((resume_if ok b s).attempt ≡ s.attempt) × ((resume_if ok b s).delay ≡ s.delay)
  resume-same ok true s = (refl, refl)
  resume-same ok false s = (refl, refl)

  suspend-same :
      (u : Suspend) (s : State)
      → ((after_suspend u s).attempt ≡ s.attempt) × ((after_suspend u s).delay ≡ s.delay)
  suspend-same Suspend.unset s = (refl, refl)
  suspend-same Suspend.succeeds s = (refl, refl)
  suspend-same Suspend.fails s = (refl, refl)

  back_off-Doubles :
      (ok b : Bool) (s : State)
      → Doubles s (record (resume_if ok b s) { delay = next_delay c (resume_if ok b s).delay })
  back_off-Doubles ok true s = (refl, refl)
  back_off-Doubles ok false s = (refl, refl)

  reconnect-Doubles :
      (r : Round) (o : Reconnect) (s : State) → Continues (Doubles s) (after_reconnect c r o s)
  unfolding after_reconnect
  reconnect-Doubles r Reconnect.blocked s = tt
  reconnect-Doubles r Reconnect.failed s = back_off-Doubles r.resumes (to_resume c r) s
  reconnect-Doubles r Reconnect.connected s = tt

  proceed-Doubles : (r : Round) (s : State) → Continues (Doubles s) (proceed c r s)
  unfolding proceed
  proceed-Doubles r s = elim (Bool-cases r.cancelled_before_reconnect) [
    | inl e ↦ rw e tt
    | inr e ↦ rw e (reconnect-Doubles r r.reconnect (did Effect.try_reconnect s))
  ]

  teardown-Doubles :
      (r : Round) (t : Teardown) (s : State) → Continues (Doubles s) (after_teardown c r t s)
  unfolding after_teardown
  teardown-Doubles r Teardown.failed s = back_off-Doubles r.resumes (to_resume c r) s
  teardown-Doubles r Teardown.done s = proceed-Doubles r (record s { torn_down = true })
  teardown-Doubles r Teardown.not_connected s = proceed-Doubles r (record s { torn_down = true })

  Continues-map :
      (P Q : State → Type 0) (x : Step) → ((t : State) → P t → Q t) → Continues P x → Continues Q x
  Continues-map P Q (continue t) f h = f t h
  Continues-map P Q (stop e t) f h = tt

  wait-Doubles : (r : Round) (s : State) → Continues (Doubles s) (after_wait c r s)
  unfolding after_wait
  wait-Doubles r s = elim (Bool-cases r.cancelled_after_wait) [
    | inl e ↦ rw e tt
    | inr e ↦ rw e (elim (Bool-cases (s.torn_down && r.tunnel_is_up)) [
      | inl up ↦ rw up tt
      | inr up ↦
          let u = did Effect.tear_down (after_suspend r.suspend s) in
          let same = suspend-same r.suspend s in
          rw up (
            Continues-map (Doubles u) (Doubles s) (after_teardown c r r.teardown u)
              (λ t h. (h.0 ∙ same.0, h.1 ∙ ap (next_delay c) same.1))
              (teardown-Doubles r r.teardown u))
    ])
  ]

  round-Advances : (r : Round) (s : State) → Continues (Advances s) (round c r s)
  unfolding round
  round-Advances r s = elim (Bool-cases r.running) [
    | inr e ↦ rw e tt
    | inl e ↦ rw e (elim (Bool-cases (ltb 0 c.max_attempts && ltb c.max_attempts (s.attempt + 1))) [
      | inl m ↦ rw m tt
      | inr m ↦ rw m (elim (Bool-cases r.cancelled_in_wait) [
        | inl w ↦ rw w tt
        | inr w ↦
            let u = did (Effect.wait s.delay) (
              did (Effect.announce (s.attempt + 1) s.delay)
                (record s { attempt = s.attempt + 1 })) in
            rw w (
              Continues-map (Doubles u) (Advances s) (after_wait c r u)
                (λ t h.
                  (h.0, h.1, ap (λ (k : ℕ). ltb 0 c.max_attempts && ltb c.max_attempts k) h.0 ∙ m))
                (wait-Doubles r u))
      ])
    ])
  ]

  -- The delay after some rounds, and their number.
  abbrev At : ℕ → State → Type 0
  At n s =
      (s.attempt ≡ n)
      × (s.delay ≡ min (c.initial_delay * 2 ^ n) c.max_delay)
      × ((0 < c.max_attempts) → n ≤ c.max_attempts)

  cap_twice : (x : ℕ) → next_delay c (min x c.max_delay) ≡ min (x * 2) c.max_delay
  unfolding next_delay
  cap_twice x = ground arith

  next_delay-min :
      (n : ℕ)
      → next_delay c (min (c.initial_delay * 2 ^ n) c.max_delay)
        ≡ min (c.initial_delay * 2 ^ suc n) c.max_delay
  next_delay-min n =
      cap_twice (c.initial_delay * 2 ^ n)
      ∙ ap (λ (k : ℕ). min k c.max_delay)
          (mul_assoc c.initial_delay (2 ^ n) 2
            ∙ ap (λ (k : ℕ). c.initial_delay * k) (sym (pow-suc 2 n)))

  At-suc : (n : ℕ) (s t : State) → At n s → Advances s t → At (suc n) t
  At-suc n s t h a =
      let count : t.attempt ≡ suc n = omega (arith, h.0, a.0) in
      let limit : ltb 0 c.max_attempts && ltb c.max_attempts (suc n) ≡ false =
        ap (λ (k : ℕ). ltb 0 c.max_attempts && ltb c.max_attempts k) (sym count) ∙ a.2 in
      (count, a.1 ∙ ap (next_delay c) h.1 ∙ next_delay-min n, λ positive. ground arith)

  rounds-At :
      (n : ℕ) (rs : List Round) (x : Step)
      → Continues (At n) x
      → Continues (At (n + length rs)) (rounds c rs x)
  unfolding rounds
  rounds-At n [] x h = subst (λ k. Continues (At k) x) (omega arith) h
  rounds-At n (r ∷ rs) (continue s) h =
      subst (λ k. Continues (At k) (rounds c rs (round c r s))) (omega arith)
        (rounds-At (suc n) rs (round c r s) (
          Continues-map (Advances s) (At (suc n)) (round c r s) (λ t a. At-suc n s t h a)
            (round-Advances r s)))
  rounds-At n (r ∷ rs) (stop e s) h = tt

-- After n rounds the loop has made n attempts, its next delay is the first delay doubled n times and
-- cut at the maximum, and with a limit set n is within it.
pub backoff_schedule :
    (c : Config) (rs : List Round) (s : State)
    → c.initial_delay ≤ c.max_delay
    → reconnect_with_backoff c rs ≡ continue s
    → (s.attempt ≡ length rs)
      × (s.delay ≡ (
          if ltb c.max_delay (c.initial_delay * 2 ^ length rs)
          then c.max_delay
          else c.initial_delay * 2 ^ length rs))
      × ((0 < c.max_attempts) → length rs ≤ c.max_attempts)
unfolding reconnect_with_backoff
backoff_schedule c rs s le e =
    let first : (c.initial_delay * 2 ^ 0) ≡ c.initial_delay = omega arith in
    let begins : At c 0 (start c) = (refl, ground (arith, first), λ h. omega arith) in
    let all = rounds-At c 0 rs (continue (start c)) begins in
    let zero_add : 0 + length rs ≡ length rs = omega arith in
    subst (λ k. At c k s) zero_add (subst (Continues (At c (0 + length rs))) e all)
