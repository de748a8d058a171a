-- ===== src/Tests/Evaluations.antt =====
-- Tests of the mailbox of evaluations (internal/helper/automation_eval.go), and its law at a
-- concrete input.
use wireguide_plus.Common.{◌≡◌, refl, List, [], ◌∷◌, true, false, any, arith}
use wireguide_plus.Helper.Mailbox.{
  Phase, Mailbox, Event, post, Step, requested, received, began, finished, Run, start, more,
}
use wireguide_plus.Helper.Answered.{own, begins, Further, none_yet, then_one, request_is_evaluated}

-- A request, its evaluation, and two requests during the evaluation.
abbrev burst : List Event
burst =
    Event.request "poll"
    ∷ Event.request "route"
    ∷ Event.begin "ssid"
    ∷ Event.pop
    ∷ Event.request "ssid"
    ∷ []

abbrev after_burst : Mailbox
after_burst = record { queued = true; reason = "poll"; phase = Phase.evaluating; done = false }

burst_runs : Run burst after_burst
unfolding post
burst_runs =
    more
      (more (more (more (more start (requested "ssid")) (received refl refl)) (began refl refl))
        (requested "route"))
      (requested "poll")

-- The evaluation ends, another request comes, and the loop takes two steps more.
abbrev answered : Mailbox
answered = record { queued = false; reason = "wake"; phase = Phase.evaluating; done = false }

answered_steps :
    Further after_burst
      (Event.begin "wake" ∷ Event.pop ∷ Event.request "wake" ∷ Event.finish ∷ [])
      answered
unfolding post
answered_steps =
    then_one
      (then_one (then_one (then_one none_yet (finished refl)) (requested "wake"))
        (received refl refl))
      (began refl refl)

request_is_evaluated_example :
    ((e : Event) × (k : Mailbox) × Step after_burst e k × (own e ≡ 1))
    × (any begins (Event.begin "wake" ∷ Event.pop ∷ Event.request "wake" ∷ Event.finish ∷ [])
        ≡ true)
request_is_evaluated_example =
    request_is_evaluated burst after_burst
      (Event.begin "wake" ∷ Event.pop ∷ Event.request "wake" ∷ Event.finish ∷ []) answered
      burst_runs refl refl answered_steps refl (omega arith)
