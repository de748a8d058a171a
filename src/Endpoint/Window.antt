-- ===== src/Endpoint/Window.antt =====
-- The sustained window of internal/helper/endpoint_switch.go, over proposals of one candidate.
use mathlib.Core.Path.{subst}
use wireguide_plus.Common.Text.{Text, text_eq}
use wireguide_plus.Common.Maps.{lookup, put, lookup-put}
use wireguide_plus.Common.{
  ℕ, ◌-◌, ◌≤◌, ◌<◌, ◌≡◌, refl, List, [], ◌∷◌, none, some, Bool, true, Bool-cases, inl, inr, ◌↔◌,
  false, leb, String, any, str_eq_refl, arith, ◌||◌,
}
use wireguide_plus.Endpoint.Switch.{
  Switches, Proposal, seconds, duration, was_sustained, confirm_improvement,
}
use wireguide_plus.Endpoint.Cooldown.{max_seconds, duration-small}

module _ (name : String) (candidate : Text) (sustained_sec : ℕ) where
  -- The answers of confirmImprovement to proposals at these times.
  unfoldable pub answers_of : List ℕ → Switches → List Bool
  unfolding confirm_improvement
  answers_of [] s = []
  answers_of (now ∷ later) s =
      let c = confirm_improvement name candidate sustained_sec now s in c.0 ∷ answers_of later c.1

-- Each proposal comes within the window after the one before it.
pub Dense : ℕ → ℕ → List ℕ → Type 0
Dense window prev [] = Unit
Dense window prev (now ∷ later) = (now - prev < window) × Dense window now later

text_eq_refl : (t : Text) → text_eq t t ≡ true
text_eq_refl [] = refl
text_eq_refl (c ∷ t) = ground (arith, text_eq_refl t)

lookup-put-same :
    (name : String) (p : Proposal) (m : List (String × Proposal))
    → lookup name (put name p m) ≡ some p
lookup-put-same name p m = rw (lookup-put name name p m, str_eq_refl name) refl

-- A proposal that is turned down is recorded.
confirm-pending :
    (name : String) (candidate : Text) (sec now : ℕ) (s : Switches)
    → (confirm_improvement name candidate sec now s).0 ≡ false
    → lookup name (confirm_improvement name candidate sec now s).1.pending
      ≡ some (record { candidate = candidate; at = now })
unfolding confirm_improvement
confirm-pending name candidate sec now s h =
    let p : Proposal = record { candidate = candidate; at = now } in
    ground (arith, lookup-put-same name p s.pending, h)

confirm-none :
    (name : String) (candidate : Text) (sec now : ℕ) (s : Switches)
    → 1 ≤ sec
    → lookup name s.pending ≡ none
    → (confirm_improvement name candidate sec now s).0 ≡ false
unfolding confirm_improvement was_sustained
confirm-none name candidate sec now s h k =
    let e : leb sec 0 ≡ false = ground arith in rw (e, k) refl

gap_iff :
    {D : Type 0} (g r : Bool) (n w : ℕ)
    → g ≡ leb w n
    → (g ≡ false → (r ≡ false) ↔ D)
    → ((g || r) ≡ false) ↔ ((n < w) × D)
gap_iff true r n w e f = (λ x. cc, λ d. ground (arith, e, d.0))
gap_iff false r n w e f = (λ x. (ground (arith, e), (f refl).0 x), λ d. (f refl).1 d.1)

module _ (name : String) (candidate : Text) (sec : ℕ) (h : 1 ≤ sec) where
  abbrev proposal : ℕ → Proposal
  proposal t = record { candidate = candidate; at = t }

  sustained-gap :
      (t now : ℕ)
      → was_sustained candidate (duration sec) now (some (proposal t))
        ≡ leb (duration sec) (now - t)
  unfolding was_sustained
  sustained-gap t now = rw (text_eq_refl candidate) refl

  confirm-one :
      (t now : ℕ) (s : Switches)
      → lookup name s.pending ≡ some (proposal t)
      → (confirm_improvement name candidate sec now s).0 ≡ leb (duration sec) (now - t)
  unfolding confirm_improvement
  confirm-one t now s k =
      let e : leb sec 0 ≡ false = ground arith in
      elim (Bool-cases (leb (duration sec) (now - t))) [
        | inl g ↦ rw (e, k, sustained-gap t now, g) refl
        | inr g ↦ rw (e, k, sustained-gap t now, g) refl
      ]

  later-Dense :
      (t : ℕ) (ts : List ℕ) (s : Switches)
      → lookup name s.pending ≡ some (proposal t)
      → (any (λ b. b) (answers_of name candidate sec ts s) ≡ false) ↔ Dense (duration sec) t ts
  unfolding answers_of Dense
  later-Dense t [] s k = (λ x. tt, λ x. refl)
  later-Dense t (now ∷ ts) s k =
      let c = confirm_improvement name candidate sec now s in
      gap_iff c.0 (any (λ b. b) (answers_of name candidate sec ts c.1)) (now - t) (duration sec)
        (confirm-one t now s k)
        (λ e. later-Dense now ts c.1 (confirm-pending name candidate sec now s e))

-- With a window of at least one second and no proposal at first, proposals of one candidate are all
-- turned down exactly when each comes within the window after the one before it, however long they
-- go on. The window is less than 9223372037 seconds, so that its nanoseconds fit into 64 bits.
pub window_iff :
    (name : String) (candidate : Text) (sec t : ℕ) (ts : List ℕ) (s : Switches)
    → 1 ≤ sec
    → sec < max_seconds
    → lookup name s.pending ≡ none
    → (any (λ b. b) (answers_of name candidate sec (t ∷ ts) s) ≡ false) ↔ Dense (seconds sec) t ts
unfolding answers_of
window_iff name candidate sec t ts s h fits k =
    let c = confirm_improvement name candidate sec t s in
    let e = confirm-none name candidate sec t s h k in
    let d = later-Dense name candidate sec h t ts c.1 (confirm-pending name candidate sec t s e) in
    rw e (
      subst (λ w. (any (λ b. b) (answers_of name candidate sec ts c.1) ≡ false) ↔ Dense w t ts)
        (duration-small sec fits) d)
