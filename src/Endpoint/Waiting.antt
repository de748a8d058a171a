-- ===== src/Endpoint/Waiting.antt =====
-- What internal/helper/endpoint_switch.go does with an improvement that has to wait.
use wireguide_plus.Common.Text.{Text}
use wireguide_plus.Common.Maps.{lookup, put, remove, lookup-put}
use wireguide_plus.Common.{
  ap, ◌∙◌, ℕ, ◌-◌, ◌≤◌, ◌<◌, ◌≡◌, refl, List, Option, none, some, Bool, true, false, String,
  str_eq_refl, arith, if◌then◌else◌, Bool-cases, inl, inr, lt→ltb, leb, is_empty,
}
use wireguide_plus.Endpoint.Cooldown.{after_allow-at, max_seconds, effective_cooldown_lem}
use wireguide_plus.Config.Model.{PeerConfig}
use wireguide_plus.Endpoint.Pick.{Float, Measurement, better}
use wireguide_plus.Endpoint.Switch.{
  Switches, SwitchSettings, Meta, Switched, effective_cooldown, is_recent, allow,
  maybe_switch_endpoint, after_choice, after_allow, after_blessing, take_blessing,
  confirm_improvement, endpoint_candidate_list, first_peer_endpoint, opts_of, stay, if_confirmed,
  was_sustained, redeem, effective_endpoint_sustained_sec, effective_endpoint_cooldown_sec, seconds,
}

saved-if :
    (b : Bool) (x y : Switched)
    → x.saved ≡ none
    → y.saved ≡ none
    → (if b then x else y).saved ≡ none
saved-if true x y h k = h
saved-if false x y h k = k

allow-first :
    (name : String) (settings : SwitchSettings) (now : ℕ) (chosen : Text) (peers : List PeerConfig)
    (s : Switches)
    → is_empty chosen ≡ false
    → lookup name s.at ≡ none
    → after_choice name settings now (chosen, false) peers s
      ≡ after_allow name settings now
          (chosen, false)
          peers
          (true, record s { at = put name now s.at })
unfolding after_choice allow
allow-first name settings now chosen peers s h k = rw (h, k) refl

stamp-recent :
    (name : String) (settings : SwitchSettings) (now : ℕ) (choice : Text × Bool)
    (peers : List PeerConfig) (s : Switches)
    → is_recent (effective_cooldown settings) now (lookup name s.at) ≡ true
    → (after_choice name settings now choice peers s).saved ≡ none
unfolding after_choice allow after_allow
stamp-recent name settings now choice peers s h = elim (Bool-cases (is_empty choice.0)) [
  | inl e ↦ rw e refl
  | inr e ↦ rw (e, h) refl
]

confirm-none :
    (name : String) (candidate : Text) (sec now : ℕ) (s : Switches)
    → 1 ≤ sec
    → lookup name s.pending ≡ none
    → (confirm_improvement name candidate sec now s).0 ≡ false
unfolding confirm_improvement was_sustained
confirm-none name candidate sec now s h k =
    let e : leb sec 0 ≡ false = ground arith in rw (e, k) refl

unconfirmed :
    (chosen : Text) (peers : List PeerConfig) (c : Bool × Switches)
    → c.0 ≡ false
    → if_confirmed chosen peers c ≡ stay peers c.1
unconfirmed chosen peers (true, s) h = cc
unconfirmed chosen peers (false, s) h = refl

waiting :
    (name : String) (settings : SwitchSettings) (now : ℕ) (chosen : Text) (peers : List PeerConfig)
    (s : Switches)
    → lookup name s.blessed ≡ none
    → lookup name s.pending ≡ none
    → 1 ≤ effective_endpoint_sustained_sec settings
    → (after_allow name settings now (chosen, false) peers (true, s)).saved ≡ none
unfolding after_allow take_blessing redeem after_blessing
waiting name settings now chosen peers s b k h =
    let cleared : Switches = record s { blessed = remove name s.blessed } in
    rw b (
      ap (λ r. r.saved)
        (unconfirmed chosen peers
          (confirm_improvement name chosen (effective_endpoint_sustained_sec settings) now cleared)
          (confirm-none name chosen (effective_endpoint_sustained_sec settings) now cleared h k)))

recent-at :
    (name : String) (cooldown later now : ℕ) (m n : List (String × ℕ))
    → n ≡ put name now m
    → later - now < cooldown
    → is_recent cooldown later (lookup name n) ≡ true
recent-at name cooldown later now m n e h =
    rw (e, lookup-put name name now m, str_eq_refl name) (lt→ltb (later - now) cooldown h)

module _ {F : Type 0} (float : Float F) where
  recent-unmoved :
      (measure : List Text → List (Measurement F)) (name : String) (now : ℕ)
      (settings : SwitchSettings) (meta : Option Meta) (peers : List PeerConfig) (s : Switches)
      → is_recent (effective_cooldown settings) now (lookup name s.at) ≡ true
      → (maybe_switch_endpoint float measure name now (some settings) meta peers s).saved ≡ none
  unfolding maybe_switch_endpoint
  recent-unmoved measure name now settings none peers s h = refl
  recent-unmoved measure name now settings (some meta) peers s h =
      let choice =
        better float (measure (endpoint_candidate_list meta)) (first_peer_endpoint peers)
          (opts_of settings) in
      saved-if _ (stay peers s) (after_choice name settings now choice peers s) refl
        (stamp-recent name settings now choice peers s h)

-- An improvement that has to wait for its window starts the cooldown although nothing moves, and
-- until the cooldown is over no call moves the tunnel's endpoint, not even if its address is dead. The
-- cooldown that the later call reads is less than 9223372037 seconds, so that its nanoseconds fit into
-- 64 bits.
pub waiting_blocks_failover :
    {F : Type 0} (float : Float F) (measure : List Text → List (Measurement F)) (name : String)
    (now : ℕ) (settings : SwitchSettings) (chosen : Text) (peers : List PeerConfig) (s : Switches)
    (later : ℕ) (new : SwitchSettings) (meta : Option Meta) (peers' : List PeerConfig)
    → is_empty chosen ≡ false
    → lookup name s.at ≡ none
    → lookup name s.blessed ≡ none
    → lookup name s.pending ≡ none
    → 1 ≤ effective_endpoint_sustained_sec settings
    → effective_endpoint_cooldown_sec new < max_seconds
    → later - now < seconds (effective_endpoint_cooldown_sec new)
    → ((after_choice name settings now (chosen, false) peers s).saved ≡ none)
      × ((maybe_switch_endpoint float measure name later
            (some new)
            meta
            peers'
            (after_choice name settings now (chosen, false) peers s).switches).saved
          ≡ none)
waiting_blocks_failover float measure name now settings chosen peers s later new meta peers' he hs
      hb hp hw fits hl =
    let stamped : Switches = record s { at = put name now s.at } in
    let e = after_allow-at name settings now (chosen, false) peers stamped ∙ refl in
    rw (allow-first name settings now chosen peers s he hs) (
      waiting name settings now chosen peers stamped hb hp hw,
      recent-unmoved float measure name later new meta peers'
          (after_allow name settings now (chosen, false) peers (true, stamped)).switches
          (recent-at name (effective_cooldown new) later now s.at
            (after_allow name settings now (chosen, false) peers (true, stamped)).switches.at e
            (rw (effective_cooldown_lem new fits) hl)),
    )
