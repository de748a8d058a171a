-- ===== src/Tests/Endpoints.antt =====
-- Tests of the choice and the switch of endpoints (internal/endpoint/pick.go and
-- internal/helper/endpoint_switch.go), and each law at a concrete input.
use wireguide_plus.Common.Text.{Text, codes, trim}
use wireguide_plus.Common.Maps.{lookup}
use wireguide_plus.Common.Int.{pos}
use wireguide_plus.Common.{
  ℕ, ◌-◌, ◌*◌, ◌/◌, ◌≡◌, ◌↔◌, ◌⊎◌, refl, List, [], ◌∷◌, none, some, Bool, true, false, ltb, leb,
  any, All, arith,
}
use wireguide_plus.Config.Model.{PeerConfig}
use wireguide_plus.Endpoint.Pick.{
  Float, Measurement, default_opts, normalize_addresses, best, better,
}
use wireguide_plus.Endpoint.Fastest.{IsOrdered, FirstFastest, is_other, last_of}
use wireguide_plus.Endpoint.Choice.{Chosen, better-FirstFastest}
use wireguide_plus.Endpoint.Switch.{
  effective_endpoint_sustained_sec, effective_endpoint_cooldown_sec, effective_cooldown, Switches,
  SwitchSettings, Meta, seconds, after_choice, maybe_switch_endpoint,
}
use wireguide_plus.Endpoint.Window.{answers_of, Dense, window_iff}
use wireguide_plus.Endpoint.Cooldown.{Call, moves, Spaced, moves-Spaced}
use wireguide_plus.Endpoint.Waiting.{waiting_blocks_failover}

-- Whole milliseconds.
abbrev whole : Float ℕ
whole = record {
  zero = 0;
  lt = ltb;
  le = leb;
  of_nat = λ n. n;
  reduced_by = λ x pct. x * (100 - pct) / 100;
}

whole-IsOrdered : IsOrdered whole
whole-IsOrdered = record {
  trans = λ a b c h k. ground (arith, h, k);
  weak = λ a b c h k. ground (arith, h, k);
}

abbrev at_address : Text → Bool → ℕ → Measurement ℕ
at_address address reachable ms = record {
  address = address;
  resolved_ip = [];
  reachable = reachable;
  latency_ms = ms;
  error = [];
}

abbrev home : Text
home = codes "home:51820"

abbrev away : Text
away = codes "away:51820"

abbrev both : List (Measurement ℕ)
both = at_address home true 200 ∷ at_address away true 40 ∷ []

abbrev home_dead : List (Measurement ℕ)
home_dead = at_address home false 0 ∷ at_address away true 90 ∷ []

home_normalized :
    normalize_addresses (codes " home:51820" ∷ codes " " ∷ home ∷ away ∷ []) ≡ home ∷ away ∷ []
unfolding normalize_addresses
home_normalized = refl

away_fastest : best whole both ≡ away
unfolding best
away_fastest = refl

away_improves : better whole both home default_opts ≡ (away, false)
unfolding better
away_improves = refl

away_replaces : better whole home_dead home default_opts ≡ (away, true)
unfolding better
away_replaces = refl

better-FirstFastest_example :
    (All (λ m. is_other whole (trim home) m ≡ false) both
      × (better whole both home default_opts ≡ ([], false)))
    ⊎ ((f : Measurement ℕ) × FirstFastest whole (trim home) both f
        × Chosen whole default_opts f
            (last_of whole (trim home) none both)
            (better whole both home default_opts))
better-FirstFastest_example = better-FirstFastest whole whole-IsOrdered both home default_opts

-- 140 is 30 percent less than 200, but not more than that.
at_margin :
    better whole (at_address home true 200 ∷ at_address away true 140 ∷ []) home default_opts
    ≡ ([], false)
unfolding better
at_margin = refl

abbrev no_switches : Switches
no_switches = record { at = []; pending = []; blessed = [] }

-- With the window of 60 seconds, proposals that come every 30 seconds.
window_iff_example :
    (any
        (λ b. b)
        (answers_of "t" away 60 (0 ∷ seconds 30 ∷ seconds 60 ∷ seconds 90 ∷ []) no_switches)
      ≡ false)
    ↔ Dense (seconds 60) 0 (seconds 30 ∷ seconds 60 ∷ seconds 90 ∷ [])
unfolding lookup
window_iff_example =
    window_iff "t" away 60 0 (seconds 30 ∷ seconds 60 ∷ seconds 90 ∷ []) no_switches (omega arith)
      (omega arith) refl

abbrev settings : SwitchSettings
settings = record {
  endpoint_failover = none;
  endpoint_threshold_ms = pos 150;
  endpoint_margin_pct = pos 30;
  endpoint_sustained_sec = pos 30;
  endpoint_cooldown_sec = pos 300;
}

abbrev meta : Meta
meta = record {
  endpoint_candidates = home ∷ away ∷ [];
  endpoint_auto_switch = true;
  endpoint_switch_mode = "reconnect";
}

abbrev peers : List PeerConfig
peers =
    record {
      public_key = [];
      preshared_key = [];
      endpoint = home;
      allowed_ips = [];
      persistent_keepalive = none;
      extra_keys = [];
    }
    ∷ []

abbrev failover_at : ℕ → Call ℕ
failover_at now = record {
  name = "t";
  now = now;
  settings = some settings;
  meta = some meta;
  peers = peers;
  measure = λ candidates. home_dead;
}

abbrev three_failovers : List (Call ℕ)
three_failovers =
    failover_at (seconds 10) ∷ failover_at (seconds 40) ∷ failover_at (seconds 500) ∷ []

-- A cooldown of ten billion seconds wraps around to a negative one.
abbrev overflowing : SwitchSettings
overflowing = record settings { endpoint_cooldown_sec = pos 10000000000 }

overflow : effective_cooldown overflowing ≡ 0
unfolding effective_cooldown
overflow = refl

two_moves : moves whole "t" three_failovers no_switches ≡ seconds 10 ∷ seconds 500 ∷ []
unfolding moves
two_moves = refl

moves-Spaced_example : Spaced (seconds 240) (moves whole "t" three_failovers no_switches)
unfolding effective_endpoint_cooldown_sec
moves-Spaced_example =
    moves-Spaced whole "t" three_failovers no_switches
      (omega arith, (omega arith, (omega arith, tt)))

waiting_blocks_failover_example :
    ((after_choice "t" settings 0 (away, false) peers no_switches).saved ≡ none)
    × ((maybe_switch_endpoint whole
          (λ candidates. home_dead)
          "t"
          (seconds 60)
          (some settings)
          (some meta)
          peers
          (after_choice "t" settings 0 (away, false) peers no_switches).switches).saved
        ≡ none)
unfolding effective_endpoint_sustained_sec effective_endpoint_cooldown_sec effective_cooldown lookup
waiting_blocks_failover_example =
    waiting_blocks_failover whole (λ candidates. home_dead) "t" 0 settings away peers no_switches
      (seconds 60) settings (some meta) peers refl refl refl refl (omega arith) (omega arith)
      (omega arith)
