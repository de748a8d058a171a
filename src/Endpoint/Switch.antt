-- ===== src/Endpoint/Switch.antt =====
-- The automatic switch of endpoints: internal/helper/endpoint_switch.go, the pass of
-- internal/helper/endpoint_dynamic.go over one tunnel, and the settings' accessors of
-- internal/storage/settings.go that they read. A time is a number of nanoseconds of the monotonic
-- clock, which time.Since reads. The stores and the probes are parameters.
use wireguide_plus.Common.Text.{Text, text_eq, trim}
use wireguide_plus.Common.Int.{ℤ, pos, negsuc}
use wireguide_plus.Common.Maps.{lookup, put, remove}
use wireguide_plus.Common.{
  ℕ, ◌-◌, ◌*◌, ◌%◌, List, [], ◌∷◌, Option, none, some, Bool, true, false, ◌&&◌, ◌||◌, not, ltb, leb,
  is_empty, String, str_eq, length, if◌then◌else◌,
}
use wireguide_plus.Config.Model.{PeerConfig}
use wireguide_plus.Endpoint.Pick.{Float, Measurement, Opts, normalize_addresses, better}

abbrev pub min_endpoint_cooldown_sec : ℕ
min_endpoint_cooldown_sec = 240

abbrev pub default_endpoint_cooldown_sec : ℕ
default_endpoint_cooldown_sec = 300

-- So many nanoseconds.
abbrev pub seconds : ℕ → ℕ
seconds d = d * 1000000000

-- time.Duration(d) * time.Second, which wraps around in 64 bits. A negative duration stands as 0: it
-- is only compared with times that have passed, which are never negative.
unfoldable pub duration : ℕ → ℕ
duration d = let n = seconds d % 18446744073709551616 in if ltb n 9223372036854775808 then n else 0

-- The fields of storage.Settings that are read here. They are ints that may be negative.
pub record SwitchSettings : Type 0 where
  pub endpoint_failover : Option Bool
  pub endpoint_threshold_ms : ℤ
  pub endpoint_margin_pct : ℤ
  pub endpoint_sustained_sec : ℤ
  pub endpoint_cooldown_sec : ℤ

-- EndpointFailoverEnabled
unfoldable pub endpoint_failover_enabled : SwitchSettings → Bool
endpoint_failover_enabled s = elim s.endpoint_failover [ none ↦ true | some b ↦ b ]

-- The value, or the default if it is below the least one.
abbrev pub at_least : ℕ → ℕ → ℤ → ℕ
at_least least default (pos n) = if ltb n least then default else n
at_least least default (negsuc n) = default

unfoldable pub effective_endpoint_threshold_ms : SwitchSettings → ℕ
effective_endpoint_threshold_ms s = at_least 1 150 s.endpoint_threshold_ms

unfoldable pub effective_endpoint_margin_pct : SwitchSettings → ℕ
effective_endpoint_margin_pct s = at_least 1 30 s.endpoint_margin_pct

unfoldable pub effective_endpoint_sustained_sec : SwitchSettings → ℕ
effective_endpoint_sustained_sec s = at_least 0 0 s.endpoint_sustained_sec

unfoldable pub effective_endpoint_cooldown_sec : SwitchSettings → ℕ
effective_endpoint_cooldown_sec s =
    at_least min_endpoint_cooldown_sec default_endpoint_cooldown_sec s.endpoint_cooldown_sec

-- effectiveCooldown
unfoldable pub effective_cooldown : SwitchSettings → ℕ
unfolding effective_endpoint_cooldown_sec duration
effective_cooldown s =
    let cd = effective_endpoint_cooldown_sec s in
    if leb min_endpoint_cooldown_sec cd then duration cd else seconds min_endpoint_cooldown_sec

-- pendingImprovement, and blessing, which has the same fields
pub record Proposal : Type 0 where
  pub candidate : Text
  pub at : ℕ

-- The three maps of the package.
pub record Switches : Type 0 where
  pub at : List (String × ℕ)
  pub pending : List (String × Proposal)
  pub blessed : List (String × Proposal)

-- time.Since(prev) < cooldown, for an entry that may be missing.
abbrev pub is_recent : ℕ → ℕ → Option ℕ → Bool
is_recent cooldown now none = false
is_recent cooldown now (some prev) = ltb (now - prev) cooldown

-- inCooldown
unfoldable pub in_cooldown : String → ℕ → ℕ → Switches → Bool
unfolding lookup
in_cooldown name cooldown now s = is_recent cooldown now (lookup name s.at)

-- allow
unfoldable pub allow : String → ℕ → ℕ → Switches → Bool × Switches
unfolding lookup put
allow name cooldown now s =
    if is_recent cooldown now (lookup name s.at)
    then (false, s)
    else (true, record s { at = put name now s.at })

-- blessEndpointSwitch
unfoldable pub bless_endpoint_switch : String → Text → ℕ → Switches → Switches
unfolding put
bless_endpoint_switch name candidate now s = record s {
  blessed = put name (record { candidate = candidate; at = now }) s.blessed;
}

-- 90 * time.Second
abbrev pub blessing_ttl : ℕ
blessing_ttl = 90000000000

unfoldable pub redeem : Text → ℕ → Option Proposal → Bool
redeem candidate now none = false
redeem candidate now (some b) = text_eq b.candidate candidate && ltb (now - b.at) blessing_ttl

-- takeBlessing
unfoldable pub take_blessing : String → Text → ℕ → Switches → Bool × Switches
unfolding redeem lookup remove
take_blessing name candidate now s =
    (redeem candidate now (lookup name s.blessed), record s { blessed = remove name s.blessed })

-- ok && prev.candidate == candidate && now.Sub(prev.at) >= window
unfoldable pub was_sustained : Text → ℕ → ℕ → Option Proposal → Bool
was_sustained candidate window now none = false
was_sustained candidate window now (some prev) =
    text_eq prev.candidate candidate && leb window (now - prev.at)

-- confirmImprovement
unfoldable pub confirm_improvement : String → Text → ℕ → ℕ → Switches → Bool × Switches
unfolding was_sustained lookup remove put duration
confirm_improvement name candidate sustained_sec now s =
    if leb sustained_sec 0
      || was_sustained candidate (duration sustained_sec) now (lookup name s.pending)
    then (true, record s { pending = remove name s.pending })
    else (
      false,
      record s { pending = put name (record { candidate = candidate; at = now }) s.pending },
    )

-- firstPeerEndpoint
unfoldable pub first_peer_endpoint : List PeerConfig → Text
unfolding trim
first_peer_endpoint [] = []
first_peer_endpoint (p ∷ ps) =
    let rest = first_peer_endpoint ps in
    if is_empty (trim p.endpoint) then rest else trim p.endpoint

-- The loop that writes the chosen endpoint.
unfoldable pub set_endpoint : Text → List PeerConfig → List PeerConfig
unfolding trim
set_endpoint chosen [] = []
set_endpoint chosen (p ∷ ps) =
    let rest = set_endpoint chosen ps in
    if is_empty (trim p.endpoint) then p ∷ rest else record p { endpoint = chosen } ∷ ps

-- The fields of storage.TunnelMeta that are read here.
pub record Meta : Type 0 where
  pub endpoint_candidates : List Text
  pub endpoint_auto_switch : Bool
  pub endpoint_switch_mode : String

-- EndpointCandidateList, which has the loop of Normalize.
unfoldable pub endpoint_candidate_list : Meta → List Text
unfolding normalize_addresses
endpoint_candidate_list m = normalize_addresses m.endpoint_candidates

-- What EndpointSwitchTiming answers.
pub data Timing : Type 0 where
  off reconnect dynamic : Timing

unfoldable pub endpoint_switch_timing : Meta → Timing
endpoint_switch_timing m =
    if not m.endpoint_auto_switch
    then Timing.off
    else if str_eq m.endpoint_switch_mode "dynamic"
    then Timing.dynamic
    else Timing.reconnect

unfoldable pub endpoint_switch_dynamic : Meta → Bool
unfolding endpoint_switch_timing
endpoint_switch_dynamic m = elim (endpoint_switch_timing m) [ Timing.dynamic ↦ true | _ ↦ false ]

pub record Switched : Type 0 where
  pub peers : List PeerConfig
  -- What was handed to the store to save.
  pub saved : Option (List PeerConfig)
  pub switches : Switches

unfoldable pub opts_of : SwitchSettings → Opts
unfolding effective_endpoint_threshold_ms effective_endpoint_margin_pct
opts_of settings = record {
  threshold_ms = pos (effective_endpoint_threshold_ms settings);
  margin_pct = pos (effective_endpoint_margin_pct settings);
}

abbrev pub stay : List PeerConfig → Switches → Switched
stay peers s = record { peers = peers; saved = none; switches = s }

abbrev pub move : Text → List PeerConfig → Switches → Switched
unfolding set_endpoint
move chosen peers s =
    let new = set_endpoint chosen peers in record { peers = new; saved = some new; switches = s }

abbrev pub if_confirmed : Text → List PeerConfig → Bool × Switches → Switched
if_confirmed chosen peers (true, s) = move chosen peers s
if_confirmed chosen peers (false, s) = stay peers s

-- The gate of an improvement: a blessing, or the sustained window.
unfoldable pub after_blessing :
    String → SwitchSettings → ℕ → Text → List PeerConfig → Bool × Switches → Switched
unfolding confirm_improvement effective_endpoint_sustained_sec set_endpoint
after_blessing name settings now chosen peers (true, s) = move chosen peers s
after_blessing name settings now chosen peers (false, s) =
    if_confirmed chosen peers
      (confirm_improvement name chosen (effective_endpoint_sustained_sec settings) now s)

unfoldable pub after_allow :
    String → SwitchSettings → ℕ → Text × Bool → List PeerConfig → Bool × Switches → Switched
unfolding after_blessing take_blessing set_endpoint
after_allow name settings now choice peers (false, s) = stay peers s
after_allow name settings now choice peers (true, s) =
    if choice.1
    then move choice.0 peers s
    else after_blessing name settings now choice.0 peers (take_blessing name choice.0 now s)

unfoldable pub after_choice :
    String → SwitchSettings → ℕ → Text × Bool → List PeerConfig → Switches → Switched
unfolding after_allow allow effective_cooldown
after_choice name settings now choice peers s =
    if is_empty choice.0
    then stay peers s
    else after_allow name settings now choice peers (allow name (effective_cooldown settings) now s)

abbrev pub bless_if : String → Text → ℕ → Bool × Switches → Bool × Switches
unfolding bless_endpoint_switch
bless_if name chosen now (false, s) = (false, s)
bless_if name chosen now (true, s) = (true, bless_endpoint_switch name chosen now s)

-- The part of evaluateDynamicSwitches after the measurement.
unfoldable pub propose : String → SwitchSettings → ℕ → Text × Bool → Switches → Bool × Switches
unfolding confirm_improvement effective_endpoint_sustained_sec bless_endpoint_switch
propose name settings now choice s =
    if is_empty choice.0 || choice.1
    then (false, s)
    else bless_if name choice.0 now
        (confirm_improvement name choice.0 (effective_endpoint_sustained_sec settings) now s)

module _ {F : Type 0} (float : Float F) (measure : List Text → List (Measurement F)) where
  -- maybeSwitchEndpoint, where the settings and the metadata were loaded or not.
  unfoldable pub maybe_switch_endpoint :
      String → ℕ → Option SwitchSettings → Option Meta → List PeerConfig → Switches → Switched
  unfolding after_choice endpoint_candidate_list endpoint_failover_enabled first_peer_endpoint
      better opts_of
  maybe_switch_endpoint name now none meta peers s = stay peers s
  maybe_switch_endpoint name now (some settings) none peers s = stay peers s
  maybe_switch_endpoint name now (some settings) (some meta) peers s =
      if not (endpoint_failover_enabled settings)
        || not meta.endpoint_auto_switch
        || ltb (length (endpoint_candidate_list meta)) 2
        || is_empty (first_peer_endpoint peers)
      then stay peers s
      else after_choice name settings now
          (better float (measure (endpoint_candidate_list meta)) (first_peer_endpoint peers)
            (opts_of settings))
          peers s

  -- One tunnel of evaluateDynamicSwitches: whether its reconnect is triggered, and the maps.
  unfoldable pub evaluate_dynamic_switch :
      String → ℕ → SwitchSettings → Option Meta → List PeerConfig → Switches → Bool × Switches
  unfolding propose endpoint_candidate_list endpoint_switch_dynamic endpoint_failover_enabled
      first_peer_endpoint better opts_of in_cooldown effective_cooldown
  evaluate_dynamic_switch name now settings none peers s = (false, s)
  evaluate_dynamic_switch name now settings (some meta) peers s =
      if not (endpoint_failover_enabled settings)
        || not (endpoint_switch_dynamic meta)
        || ltb (length (endpoint_candidate_list meta)) 2
        || in_cooldown name (effective_cooldown settings) now s
        || is_empty (first_peer_endpoint peers)
      then (false, s)
      else propose name settings now
          (better float (measure (endpoint_candidate_list meta)) (first_peer_endpoint peers)
            (opts_of settings))
          s
