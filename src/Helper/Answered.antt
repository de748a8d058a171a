-- ===== src/Helper/Answered.antt =====
-- What becomes of the requests to internal/helper/automation_eval.go.
use wireguide_plus.Common.{
  ℕ, ◌+◌, ◌≤◌, ◌≡◌, refl, sym, ap, ◌∙◌, ◌⊎◌, List, [], ◌∷◌, Bool, true, false, ◌||◌, any, arith,
  inl, inr, Bool-cases,
}
use wireguide_plus.Helper.Mailbox.{
  Phase, Mailbox, Event, post, Step, requested, closed, received, began, finished, left_waiting,
  left_popped, Run, start, more,
}

-- Whether a request came after the last evaluation began.
abbrev pub asked : List Event → Bool
asked [] = false
asked (Event.request reason ∷ es) = true
asked (Event.begin reason ∷ es) = false
asked (Event.shutdown ∷ es) = asked es
asked (Event.pop ∷ es) = asked es
asked (Event.finish ∷ es) = asked es
asked (Event.leave ∷ es) = asked es

-- The steps of the loop itself.
abbrev pub own : Event → ℕ
own (Event.request reason) = 0
own Event.shutdown = 0
own _ = 1

abbrev pub count_own : List Event → ℕ
count_own [] = 0
count_own (e ∷ es) = own e + count_own es

abbrev pub begins : Event → Bool
begins (Event.begin reason) = true
begins _ = false

abbrev pub is_shutdown : Event → Bool
is_shutdown Event.shutdown = true
is_shutdown _ = false

-- From one state to another one, by steps of all kinds; the last one first.
pub data Further (m : Mailbox) : List Event → Mailbox → Type 0 where
  none_yet : Further m [] m
  then_one :
      {es : List Event} {k n : Mailbox} {e : Event}
      → Further m es k
      → Step k e n
      → Further m (e ∷ es) n

abbrev is_popped : Phase → Bool
is_popped Phase.popped = true
is_popped _ = false

abbrev is_stopped : Phase → Bool
is_stopped Phase.stopped = true
is_stopped _ = false

-- A request is in the slot or behind the receive, until the loop returns after a shutdown.
abbrev IsKept : List Event → Mailbox → Type 0
IsKept es m =
    (asked es ≡ true → m.queued || (is_popped m.phase || is_stopped m.phase) ≡ true)
    × (is_stopped m.phase ≡ true → m.done ≡ true)

or-true : (b : Bool) → b || true ≡ true
or-true true = refl
or-true false = refl

-- Outside the phase `popped` and the end, only the slot keeps a request.
held :
    {p q : Phase} (queued : Bool)
    → p ≡ q
    → queued || (is_popped q || is_stopped q) ≡ queued || (is_popped p || is_stopped p)
held queued h = ap (λ p. queued || (is_popped p || is_stopped p)) (sym h)

step-IsKept :
    (es : List Event) (m n : Mailbox) (e : Event) → IsKept es m → Step m e n → IsKept (e ∷ es) n
unfolding post
step-IsKept es m n e k (requested reason) = (λ a. refl, k.1)
step-IsKept es m n e k closed = (k.0, λ s. refl)
step-IsKept es m n e k (received h q) = (λ a. refl, λ s. cc)
step-IsKept es m n e k (began h d) = (λ a. cc, λ s. cc)
step-IsKept es m n e k (finished h) = (λ a. held m.queued h ∙ k.0 a, λ s. cc)
step-IsKept es m n e k (left_waiting h d) = (λ a. or-true m.queued, λ s. d)
step-IsKept es m n e k (left_popped h d) = (λ a. or-true m.queued, λ s. d)

run-IsKept : (es : List Event) (m : Mailbox) → Run es m → IsKept es m
run-IsKept es m start = (λ a. cc, λ s. cc)
run-IsKept es m (more {es = before} {m = old} {e = e} r s) =
    step-IsKept before old m e (run-IsKept before old r) s

or-false : (b : Bool) → b || false ≡ b
or-false true = refl
or-false false = refl

Phase-cases :
    (p : Phase)
    → (p ≡ Phase.waiting) ⊎ ((p ≡ Phase.popped) ⊎ ((p ≡ Phase.evaluating) ⊎ (p ≡ Phase.stopped)))
Phase-cases Phase.waiting = inl refl
Phase-cases Phase.popped = inr (inl refl)
Phase-cases Phase.evaluating = inr (inr (inl refl))
Phase-cases Phase.stopped = inr (inr (inr refl))

absurd-done : {A : Type 0} {b : Bool} → b ≡ false → b ≡ true → A
absurd-done h k = cc

-- The loop can take a step of its own while a request is open.
unstuck :
    (es : List Event) (m : Mailbox)
    → Run es m
    → asked es ≡ true
    → m.done ≡ false
    → (e : Event) × (n : Mailbox) × Step m e n × (own e ≡ 1)
unstuck es m r a d =
    let k = run-IsKept es m r in
    let kept = k.0 a in
    elim (Phase-cases m.phase) [
      | inl h ↦
          let q = sym (or-false m.queued) ∙ held m.queued h ∙ kept in
          (Event.pop, _, received h q, refl)
      | inr (inl h) ↦ (Event.begin m.reason, _, began h d, refl)
      | inr (inr (inl h)) ↦ (Event.finish, _, finished h, refl)
      | inr (inr (inr h)) ↦ absurd-done d (k.1 (ap is_stopped h))
    ]

-- How many steps of its own the loop takes at most before it begins an evaluation.
abbrev budget : Phase → ℕ
budget Phase.evaluating = 2
budget Phase.waiting = 1
budget Phase.popped = 0
budget Phase.stopped = 0

step_budget :
    (m n : Mailbox) (e : Event)
    → Step m e n
    → m.done ≡ false
    → begins e ≡ false
    → is_shutdown e ≡ false
    → (n.done ≡ false) × (own e + budget n.phase ≤ budget m.phase)
unfolding post
step_budget m n e (requested reason) d b s = (d, omega arith)
step_budget m n e closed d b s = cc
step_budget m n e (received h q) d b s = (d, rw h (omega arith))
step_budget m n e (began h x) d b s = cc
step_budget m n e (finished h) d b s = (d, rw h (omega arith))
step_budget m n e (left_waiting h x) d b s = absurd-done d x
step_budget m n e (left_popped h x) d b s = absurd-done d x

steps_budget :
    (m n : Mailbox) (later : List Event)
    → Further m later n
    → m.done ≡ false
    → any begins later ≡ false
    → any is_shutdown later ≡ false
    → (n.done ≡ false) × (count_own later + budget n.phase ≤ budget m.phase)
steps_budget m n later none_yet d b s = (d, omega arith)
steps_budget m n later (then_one {es = es} {k = k} {e = e} r x) d b s =
    let h = steps_budget m k es r d (ground (arith, b)) (ground (arith, s)) in
    let t = step_budget k n e x h.0 (ground (arith, b)) (ground (arith, s)) in
    (t.0, omega (arith, h.1, t.1))

budget-two : (p : Phase) → budget p ≤ 2
budget-two Phase.evaluating = omega arith
budget-two Phase.waiting = omega arith
budget-two Phase.popped = omega arith
budget-two Phase.stopped = omega arith

-- While a request is open that no evaluation has begun since, and there is no shutdown, the loop is
-- never stuck: it can take a step of its own. And however it goes on, with any requests in between, an
-- evaluation has begun by the third step that the loop takes.
pub request_is_evaluated :
    (es : List Event) (m : Mailbox) (later : List Event) (n : Mailbox)
    → Run es m
    → asked es ≡ true
    → m.done ≡ false
    → Further m later n
    → any is_shutdown later ≡ false
    → 3 ≤ count_own later
    → ((e : Event) × (k : Mailbox) × Step m e k × (own e ≡ 1)) × (any begins later ≡ true)
request_is_evaluated es m later n r a d steps s three = (
  unstuck es m r a d,
  elim (Bool-cases (any begins later)) [
    | inl e ↦ e
    | inr e ↦
        absurd (omega (arith, (steps_budget m n later steps d e s).1, budget-two m.phase, three))
  ],
)
