-- ===== src/Endpoint/Cooldown.antt =====
-- The cooldown of internal/helper/endpoint_switch.go over calls of maybeSwitchEndpoint.
use wireguide_plus.Common.Text.{Text}
use wireguide_plus.Common.Maps.{lookup, put, lookup-put}
use wireguide_plus.Common.{
  ap, ◌∙◌, ℕ, ◌+◌, ◌%◌, ◌≤◌, ◌<◌, All, leb, leb→le, ◌≡◌, refl, List, [], ◌∷◌, Option, none, some,
  Bool, true, false, is_some, String, str_eq, str_eq_iff, arith, if◌then◌else◌, Bool-cases, inl,
  inr, ◌⊎◌, ◌&&◌, ◌||◌, not, ltb, length, is_empty,
}
use wireguide_plus.Config.Model.{PeerConfig}
use wireguide_plus.Endpoint.Pick.{Float, Measurement, better}
use wireguide_plus.Endpoint.Switch.{
  Switches, SwitchSettings, Meta, Switched, seconds, duration, effective_cooldown,
  effective_endpoint_cooldown_sec, is_recent, allow, maybe_switch_endpoint, after_choice,
  after_allow, after_blessing, take_blessing, confirm_improvement, endpoint_failover_enabled,
  endpoint_candidate_list, first_peer_endpoint, opts_of,
}

-- The seconds whose duration fits into 64 bits, 292 years.
abbrev pub max_seconds : ℕ
max_seconds = 9223372037

pub duration-small : (d : ℕ) → d < max_seconds → duration d ≡ seconds d
unfolding duration
duration-small d h =
    let e : seconds d % 18446744073709551616 ≡ seconds d = omega (arith, h) in
    let f : ltb (seconds d) 9223372036854775808 ≡ true = ground (arith, h) in rw (e, f) refl

at_least-floor : (s : SwitchSettings) → leb 240 (effective_endpoint_cooldown_sec s) ≡ true
unfolding effective_endpoint_cooldown_sec
at_least-floor s = ground arith

pub effective_cooldown_lem :
    (s : SwitchSettings)
    → effective_endpoint_cooldown_sec s < max_seconds
    → effective_cooldown s ≡ seconds (effective_endpoint_cooldown_sec s)
unfolding effective_cooldown
effective_cooldown_lem s h =
    rw (at_least-floor s, duration-small (effective_endpoint_cooldown_sec s) h) refl

-- No setting that fits shortens the cooldown below 240 seconds.
cooldown_floor :
    (s : SwitchSettings)
    → effective_endpoint_cooldown_sec s < max_seconds
    → seconds 240 ≤ effective_cooldown s
cooldown_floor s h =
    rw (effective_cooldown_lem s h)
      (omega (arith, leb→le 240 (effective_endpoint_cooldown_sec s) (at_least-floor s)))

-- The cooldown of the settings that a call reads fits.
abbrev pub Fits : Option SwitchSettings → Type 0
Fits none = Unit
Fits (some s) = effective_endpoint_cooldown_sec s < max_seconds

-- What a call does to the stamps: it leaves them and moves nothing, or the last stamp of its tunnel
-- is 240 seconds old and it has a new one.
abbrev Stamps : String → ℕ → Switches → Switched → Type 0
Stamps name now s r =
    ((r.saved ≡ none) × (r.switches.at ≡ s.at))
    ⊎ (((prev : ℕ) → lookup name s.at ≡ some prev → prev + seconds 240 ≤ now)
        × (r.switches.at ≡ put name now s.at))

after_blessing-at :
    (name : String) (settings : SwitchSettings) (now : ℕ) (chosen : Text) (peers : List PeerConfig)
    (b : Bool × Switches)
    → (after_blessing name settings now chosen peers b).switches.at ≡ b.1.at
unfolding after_blessing confirm_improvement
after_blessing-at name settings now chosen peers (true, s) = refl
after_blessing-at name settings now chosen peers (false, s) = ground arith

pub after_allow-at :
    (name : String) (settings : SwitchSettings) (now : ℕ) (choice : Text × Bool)
    (peers : List PeerConfig) (s : Switches)
    → (after_allow name settings now choice peers (true, s)).switches.at ≡ s.at
unfolding after_allow take_blessing
after_allow-at name settings now choice peers s =
    let t = take_blessing name choice.0 now s in
    elim (Bool-cases choice.1) [
      | inl e ↦ rw e refl
      | inr e ↦ rw e (after_blessing-at name settings now choice.0 peers t)
    ]

old-stamp :
    (o : Option ℕ) (cooldown now : ℕ)
    → seconds 240 ≤ cooldown
    → is_recent cooldown now o ≡ false
    → (prev : ℕ) → o ≡ some prev
    → prev + seconds 240 ≤ now
old-stamp none cooldown now h k prev e = cc
old-stamp (some p) cooldown now h k prev e = ground (arith, h, e)

after_choice-Stamps :
    (name : String) (settings : SwitchSettings) (now : ℕ) (choice : Text × Bool)
    (peers : List PeerConfig) (s : Switches)
    → effective_endpoint_cooldown_sec settings < max_seconds
    → Stamps name now s (after_choice name settings now choice peers s)
unfolding after_choice allow after_allow
after_choice-Stamps name settings now choice peers s fits =
    let cooldown = effective_cooldown settings in
    elim (Bool-cases (is_empty choice.0)) [
      | inl e ↦ rw e (inl (refl, refl))
      | inr e ↦ elim (Bool-cases (is_recent cooldown now (lookup name s.at))) [
        | inl k ↦ rw (e, k) (inl (refl, refl))
        | inr k ↦
            rw (e, k)
              (inr (
                old-stamp (lookup name s.at) cooldown now (cooldown_floor settings fits) k,
                after_allow-at name settings now choice peers (record s { at = put name now s.at }),
              ))
      ]
    ]

-- A call of maybeSwitchEndpoint, with what it meets.
pub record Call (F : Type 0) : Type 0 where
  pub name : String
  pub now : ℕ
  pub settings : Option SwitchSettings
  pub meta : Option Meta
  pub peers : List PeerConfig
  pub measure : List Text → List (Measurement F)

-- The times of a list are at least `gap` apart, the first one from `prev`.
pub SpacedFrom : ℕ → ℕ → List ℕ → Type 0
SpacedFrom gap prev [] = Unit
SpacedFrom gap prev (t ∷ ts) = (prev + gap ≤ t) × SpacedFrom gap t ts

pub Spaced : ℕ → List ℕ → Type 0
unfolding SpacedFrom
Spaced gap [] = Unit
Spaced gap (t ∷ ts) = SpacedFrom gap t ts

new-stamp :
    (key name : String) (now : ℕ) (s : Switches) (r : Switched)
    → r.switches.at ≡ put name now s.at
    → str_eq name key ≡ true
    → lookup key r.switches.at ≡ some now
new-stamp key name now s r a t = rw (a, lookup-put name key now s.at, t) refl

-- One call more: `r` is what it gives, and `ts` are the moves after it.
step-SpacedFrom :
    (key name : String) (now p q : ℕ) (s : Switches) (r : Switched) (ts : List ℕ)
    → Stamps name now s r
    → lookup key s.at ≡ some p
    → q ≤ p
    → ((p' q' : ℕ) → lookup key r.switches.at ≡ some p' → q' ≤ p' → SpacedFrom (seconds 240) q' ts)
    → SpacedFrom (seconds 240) q (if str_eq name key && is_some r.saved then now ∷ ts else ts)
unfolding SpacedFrom
step-SpacedFrom key name now p q s r ts (inl (e, a)) k h f =
    rw e (elim (Bool-cases (str_eq name key)) [
      | inl t ↦ rw t (f p q (rw a k) h)
      | inr t ↦ rw t (f p q (rw a k) h)
    ])
step-SpacedFrom key name now p q s r ts (inr (old, a)) k h f = elim (Bool-cases (str_eq name key)) [
  | inl t ↦
      let e = (str_eq_iff name key).0 t in
      let o = old p (ap (λ n. lookup n s.at) e ∙ k) in
      let g = new-stamp key name now s r a t in
      elim (Bool-cases (is_some r.saved)) [
        | inl m ↦ rw (t, m) (omega (arith, o, h), f now now g (omega arith))
        | inr m ↦ rw (t, m) (f now q g (omega (arith, o, h)))
      ]
  | inr t ↦ rw t (f p q (rw (a, lookup-put name key now s.at, t) k) h)
]

step-Spaced :
    (key name : String) (now : ℕ) (s : Switches) (r : Switched) (ts : List ℕ)
    → Stamps name now s r
    → ((p q : ℕ) → lookup key r.switches.at ≡ some p → q ≤ p → SpacedFrom (seconds 240) q ts)
    → Spaced (seconds 240) ts
    → Spaced (seconds 240) (if str_eq name key && is_some r.saved then now ∷ ts else ts)
unfolding Spaced
step-Spaced key name now s r ts (inl (e, a)) f h =
    rw e (elim (Bool-cases (str_eq name key)) [ inl t ↦ rw t h | inr t ↦ rw t h ])
step-Spaced key name now s r ts (inr (old, a)) f h = elim (Bool-cases (str_eq name key)) [
  | inl t ↦ elim (Bool-cases (is_some r.saved)) [
    | inl m ↦ rw (t, m) (f now now (new-stamp key name now s r a t) (omega arith))
    | inr m ↦ rw (t, m) h
  ]
  | inr t ↦ rw t h
]

module _ {F : Type 0} (float : Float F) where
  abbrev pub result : Call F → Switches → Switched
  unfolding maybe_switch_endpoint
  result c s = maybe_switch_endpoint float c.measure c.name c.now c.settings c.meta c.peers s

  -- The times of the calls that move this tunnel.
  unfoldable pub moves : String → List (Call F) → Switches → List ℕ
  unfolding maybe_switch_endpoint
  moves key [] s = []
  moves key (c ∷ cs) s =
      let r = result c s in
      let rest = moves key cs r.switches in
      if str_eq c.name key && is_some r.saved then c.now ∷ rest else rest

  maybe-Stamps :
      (measure : List Text → List (Measurement F)) (name : String) (now : ℕ)
      (settings : Option SwitchSettings) (meta : Option Meta) (peers : List PeerConfig)
      (s : Switches)
      → Fits settings
      → Stamps name now s (maybe_switch_endpoint float measure name now settings meta peers s)
  unfolding maybe_switch_endpoint
  maybe-Stamps measure name now none meta peers s fits = inl (refl, refl)
  maybe-Stamps measure name now (some settings) none peers s fits = inl (refl, refl)
  maybe-Stamps measure name now (some settings) (some meta) peers s fits =
      let choice =
        better float (measure (endpoint_candidate_list meta)) (first_peer_endpoint peers)
          (opts_of settings) in
      elim (Bool-cases (
        not (endpoint_failover_enabled settings)
        || not meta.endpoint_auto_switch
        || ltb (length (endpoint_candidate_list meta)) 2
        || is_empty (first_peer_endpoint peers))) [
          | inl e ↦ rw e (inl (refl, refl))
          | inr e ↦ rw e (after_choice-Stamps name settings now choice peers s fits)
        ]

  moves-SpacedFrom :
      (key : String) (cs : List (Call F)) (s : Switches) (p q : ℕ)
      → All (λ c. Fits c.settings) cs
      → lookup key s.at ≡ some p
      → q ≤ p
      → SpacedFrom (seconds 240) q (moves key cs s)
  unfolding moves SpacedFrom
  moves-SpacedFrom key [] s p q fits h k = tt
  moves-SpacedFrom key (c ∷ cs) s p q fits h k =
      let r = result c s in
      step-SpacedFrom key c.name c.now p q s r (moves key cs r.switches)
        (maybe-Stamps c.measure c.name c.now c.settings c.meta c.peers s fits.0) h k
        (λ p' q' h' k'. moves-SpacedFrom key cs r.switches p' q' fits.1 h' k')

-- Whatever the calls of maybeSwitchEndpoint meet, any two of them that move the endpoint of one tunnel
-- in succession are at least 240 seconds apart, if the cooldown in the settings that they read is less
-- than 9223372037 seconds, so that its nanoseconds fit into 64 bits.
pub moves-Spaced :
    {F : Type 0} (float : Float F) (key : String) (cs : List (Call F)) (s : Switches)
    → All (λ c. Fits c.settings) cs
    → Spaced (seconds 240) (moves float key cs s)
unfolding moves Spaced
moves-Spaced float key [] s fits = tt
moves-Spaced float key (c ∷ cs) s fits =
    let r = result float c s in
    step-Spaced key c.name c.now s r (moves float key cs r.switches)
      (maybe-Stamps float c.measure c.name c.now c.settings c.meta c.peers s fits.0)
      (λ p q h k. moves-SpacedFrom float key cs r.switches p q fits.1 h k)
      (moves-Spaced float key cs r.switches fits.1)
