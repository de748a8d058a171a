-- ===== src/Endpoint/Pick.antt =====
-- internal/endpoint/pick.go. A latency is a float64 in the source: `Float` names the operations that
-- the code uses on it. What the resolver, net.SplitHostPort and the ICMP probe answer are parameters.
use wireguide_plus.Common.Text.{Text, codes, text_eq, trim}
use wireguide_plus.Common.Int.{ℤ, pos, negsuc}
use wireguide_plus.Common.{
  ℕ, List, [], ◌∷◌, ◌++◌, map, Option, none, some, Bool, true, false, ◌&&◌, ◌||◌, not, ltb, any,
  is_empty, if◌then◌else◌,
}

pub record Float (F : Type 0) : Type 0 where
  pub zero : F
  pub lt : F → F → Bool
  pub le : F → F → Bool
  -- float64(n)
  pub of_nat : ℕ → F
  -- x * (1 - float64(pct)/100.0)
  pub reduced_by : F → ℕ → F

pub record Measurement (F : Type 0) : Type 0 where
  pub address : Text
  pub resolved_ip : Text
  pub reachable : Bool
  pub latency_ms : F
  pub error : Text

abbrev pub default_threshold_ms : ℕ
default_threshold_ms = 150

abbrev pub default_margin_pct : ℕ
default_margin_pct = 30

pub record Opts : Type 0 where
  pub threshold_ms : ℤ
  pub margin_pct : ℤ

abbrev pub default_opts : Opts
default_opts = record {
  threshold_ms = pos default_threshold_ms;
  margin_pct = pos default_margin_pct;
}

-- if n < 1 { n = fallback }
unfoldable pub at_least_one : ℤ → ℕ → ℕ
at_least_one (pos n) fallback = if ltb n 1 then fallback else n
at_least_one (negsuc n) fallback = fallback

abbrev pub is_seen : Text → List Text → Bool
is_seen v seen = any (text_eq v) seen

-- One address of the loop of Normalize; `seen` holds what `out` holds.
unfoldable pub add_address : List Text → Text → List Text
add_address out v = if is_empty v || is_seen v out then out else out ++ v ∷ []

unfoldable pub add_addresses : List Text → List Text → List Text
unfolding add_address trim
add_addresses out [] = out
add_addresses out (raw ∷ rest) = add_addresses (add_address out (trim raw)) rest

-- Normalize
unfoldable pub normalize_addresses : List Text → List Text
unfolding add_addresses
normalize_addresses addresses = add_addresses [] addresses

-- What diag.PingEndpoint answers.
pub record Ping (F : Type 0) : Type 0 where
  pub reachable : Bool
  pub latency_ms : F
  pub error : Text

module _ {F : Type 0} (float : Float F) where
  -- Host, over net.SplitHostPort
  unfoldable pub host : (Text → Option Text) → Text → Text
  unfolding trim
  host split addr = elim (split (trim addr)) [ some h ↦ h | none ↦ trim addr ]

  unfoldable pub measured : Text → Text → Option (Ping F) → Measurement F
  measured addr ip none = record {
    address = addr;
    resolved_ip = ip;
    reachable = false;
    latency_ms = float.zero;
    error = codes "probe failed";
  }
  measured addr ip (some res) = record {
    address = addr;
    resolved_ip = ip;
    reachable = res.reachable;
    latency_ms = res.latency_ms;
    error = res.error;
  }

  -- Measure: each goroutine writes the slot of its own address.
  unfoldable pub measure :
      (Text → Option Text)
      → (Text → Text)
      → (Text → Option (Ping F))
      → List Text
      → List (Measurement F)
  unfolding host measured normalize_addresses
  measure split resolve ping candidates =
      map (λ addr. measured addr (resolve (host split addr)) (ping (host split addr)))
        (normalize_addresses candidates)

  -- best and bestLatency after one measurement more.
  unfoldable pub keep_best : Text × F → Measurement F → Text × F
  keep_best b m =
      if not m.reachable || float.le m.latency_ms float.zero
      then b
      else if is_empty b.0 || float.lt m.latency_ms b.1
      then (m.address, m.latency_ms)
      else b

  unfoldable pub best_from : Text × F → List (Measurement F) → Text
  unfolding keep_best
  best_from b [] = b.0
  best_from b (m ∷ ms) = best_from (keep_best b m) ms

  -- Best
  unfoldable pub best : List (Measurement F) → Text
  unfolding best_from
  best ms = best_from ([], float.zero) ms

  -- m.Reachable && m.LatencyMs > 0
  unfoldable pub answers : Measurement F → Bool
  answers m = m.reachable && float.lt float.zero m.latency_ms

  pub record Scan : Type 0 where
    pub current_ms : Option (Measurement F)
    pub fallback : Option (Measurement F)

  abbrev pub faster : Measurement F → Option (Measurement F) → Bool
  faster m none = true
  faster m (some f) = float.lt m.latency_ms f.latency_ms

  -- One measurement of the loop of Better.
  unfoldable pub scan_one : Text → Scan → Measurement F → Scan
  unfolding answers
  scan_one current s m =
      if text_eq m.address current
      then record s { current_ms = some m }
      else if answers m && faster m s.fallback
      then record s { fallback = some m }
      else s

  unfoldable pub scan_measurements : Text → Scan → List (Measurement F) → Scan
  unfolding scan_one
  scan_measurements current s [] = s
  scan_measurements current s (m ∷ ms) = scan_measurements current (scan_one current s m) ms

  -- currentMs == nil || !currentMs.Reachable || currentMs.LatencyMs <= 0
  unfoldable pub is_down : Option (Measurement F) → Bool
  is_down none = true
  is_down (some m) = not m.reachable || float.le m.latency_ms float.zero

  -- The tests that an improvement has to pass.
  unfoldable pub improves : Opts → Measurement F → Option (Measurement F) → Bool
  unfolding at_least_one
  improves opts f none = false
  improves opts f (some m) =
      not
        (float.lt m.latency_ms (float.of_nat (at_least_one opts.threshold_ms default_threshold_ms)))
      && not (
          float.le (float.reduced_by m.latency_ms (at_least_one opts.margin_pct default_margin_pct))
            f.latency_ms)

  unfoldable pub choose : Opts → Option (Measurement F) → Option (Measurement F) → Text × Bool
  unfolding is_down improves
  choose opts current none = ([], false)
  choose opts current (some f) =
      if is_down current
      then (f.address, true)
      else if improves opts f current
      then (f.address, false)
      else ([], false)

  abbrev pub no_scan : Scan
  no_scan = record { current_ms = none; fallback = none }

  -- Better
  unfoldable pub better : List (Measurement F) → Text → Opts → Text × Bool
  unfolding scan_measurements choose trim
  better ms current opts =
      let s = scan_measurements (trim current) no_scan ms in choose opts s.current_ms s.fallback
