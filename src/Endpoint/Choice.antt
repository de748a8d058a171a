-- ===== src/Endpoint/Choice.antt =====
-- The choice of Better of internal/endpoint/pick.go.
use mathlib.Core.Path.{subst}
use wireguide_plus.Common.Text.{Text, trim}
use wireguide_plus.Common.Int.{ℤ, pos, negsuc}
use wireguide_plus.Common.{
  ℕ, zero, suc, sym, Bool, not, ◌&&◌, ◌||◌, ◌≡◌, refl, arith, ap, ◌∙◌, List, [], ◌∷◌, Option, none,
  some, true, false, ◌⊎◌, inl, inr, All, Bool-cases, if◌then◌else◌,
}
use wireguide_plus.Endpoint.Pick.{
  Float, Measurement, Opts, scan_measurements, is_down, improves, choose, better, no_scan,
  at_least_one, default_threshold_ms, default_margin_pct,
}
use wireguide_plus.Endpoint.Fastest.{
  IsOrdered, FirstFastest, is_other, last_of, scan_measurements-current_ms,
  scan_measurements-fallback,
}

no-other :
    {F : Type 0} (float : Float F) (current : Text) (ms : List (Measurement F))
    → All (λ m. is_other float current m ≡ true → true ≡ false) ms
    → All (λ m. is_other float current m ≡ false) ms
no-other float current [] hs = tt
no-other float current (m ∷ ms) (h, hs) = (
  elim (Bool-cases (is_other float current m)) [ inl e ↦ e ∙ h e | inr e ↦ e ],
  no-other float current ms hs,
)

module _ {F : Type 0} (float : Float F) where
  -- The current address has no measurement, is not reachable, or has no positive latency.
  abbrev pub IsDown : Option (Measurement F) → Type 0
  IsDown none = Unit
  IsDown (some m) = (m.reachable ≡ false) ⊎ (float.le m.latency_ms float.zero ≡ true)

  -- A setting, or its default where it is less than 1.
  abbrev pub setting : ℤ → ℕ → ℕ
  setting (pos zero) default = default
  setting (pos (suc n)) default = suc n
  setting (negsuc n) default = default

  -- The current address has the threshold or more, and `f` is faster by more than the margin.
  abbrev pub IsImproved : Opts → Measurement F → Option (Measurement F) → Type 0
  IsImproved opts f none = ⊥
  IsImproved opts f (some m) =
      (float.lt m.latency_ms (float.of_nat (setting opts.threshold_ms 150)) ≡ false)
      × (float.le (float.reduced_by m.latency_ms (setting opts.margin_pct 30)) f.latency_ms ≡ false)

  -- What is chosen if `f` is the fastest other address.
  pub data Chosen (opts : Opts) (f : Measurement F) (at : Option (Measurement F)) (r : Text × Bool)
      : Type 0 where
    failover : IsDown at → r ≡ (f.address, true) → Chosen opts f at r
    improvement : ¬ IsDown at → IsImproved opts f at → r ≡ (f.address, false) → Chosen opts f at r
    kept : ¬ IsDown at → ¬ IsImproved opts f at → r ≡ ([], false) → Chosen opts f at r

  at_least_one-setting : (n : ℤ) (default : ℕ) → at_least_one n default ≡ setting n default
  unfolding at_least_one
  at_least_one-setting (pos zero) default = refl
  at_least_one-setting (pos (suc n)) default = ground arith
  at_least_one-setting (negsuc n) default = refl

  not-IsDown :
      (m : Measurement F)
      → m.reachable ≡ true
      → float.le m.latency_ms float.zero ≡ false
      → ¬ IsDown (some m)
  not-IsDown m e d (inl x) = cc
  not-IsDown m e d (inr x) = cc

  -- By the outcomes of the four tests.
  chosen-by :
      (opts : Opts) (f m : Measurement F) (r z t g : Bool)
      → m.reachable ≡ r
      → float.le m.latency_ms float.zero ≡ z
      → float.lt m.latency_ms (float.of_nat (setting opts.threshold_ms 150)) ≡ t
      → float.le (float.reduced_by m.latency_ms (setting opts.margin_pct 30)) f.latency_ms ≡ g
      → Chosen opts f (some m) (
          if not r || z
          then (f.address, true)
          else if not t && not g
          then (f.address, false)
          else ([], false))
  chosen-by opts f m false z t g e d h k = failover (inl e) refl
  chosen-by opts f m true true t g e d h k = failover (inr d) refl
  chosen-by opts f m true false true g e d h k =
      kept (not-IsDown m e d) (λ x. let y = x.0 in cc) refl
  chosen-by opts f m true false false true e d h k =
      kept (not-IsDown m e d) (λ x. let y = x.1 in cc) refl
  chosen-by opts f m true false false false e d h k = improvement (not-IsDown m e d) (h, k) refl

  choose-Chosen :
      (opts : Opts) (f : Measurement F) (at : Option (Measurement F))
      → Chosen opts f at (choose float opts at (some f))
  unfolding choose is_down improves
  choose-Chosen opts f none = failover tt refl
  choose-Chosen opts f (some m) =
      rw
        (
          at_least_one-setting opts.threshold_ms default_threshold_ms,
          at_least_one-setting opts.margin_pct default_margin_pct,
        )
        (chosen-by opts f m m.reachable (float.le m.latency_ms float.zero)
          (float.lt m.latency_ms (float.of_nat (setting opts.threshold_ms 150)))
          (float.le (float.reduced_by m.latency_ms (setting opts.margin_pct 30)) f.latency_ms) refl
          refl refl refl)

-- Better for an order of latencies: if no address but the current one answers, it chooses none.
-- Otherwise there is a first one of the fastest of these. It is chosen as a failover exactly if the
-- last measurement of the current address is missing, not reachable, or without a positive latency;
-- and as an improvement exactly if it is not so, the current latency is not below the threshold, and
-- the new one is strictly less than the current one reduced by the margin.
pub better-FirstFastest :
    {F : Type 0} (float : Float F)
    → IsOrdered float
    → (ms : List (Measurement F)) (current : Text) (opts : Opts)
    → let at : Option (Measurement F) = last_of float (trim current) none ms in
      (All (λ m. is_other float (trim current) m ≡ false) ms
        × (better float ms current opts ≡ ([], false)))
      ⊎ ((f : Measurement F) × FirstFastest float (trim current) ms f
          × Chosen float opts f at (better float ms current opts))
unfolding better choose
better-FirstFastest float ord ms current opts =
    let found = scan_measurements float (trim current) (no_scan float) ms in
    elim (scan_measurements-fallback float ord (trim current) (no_scan float) ms) [
      | inl (e, hs) ↦
          inl (no-other float (trim current) ms hs, ap (choose float opts found.current_ms) e)
      | inr x ↦ inr (
        x.f,
        x.first,
        subst (Chosen float opts x.f (last_of float (trim current) none ms))
            (sym (
              ap (choose float opts found.current_ms) x.found
              ∙ ap (λ c. choose float opts c (some x.f))
                  (scan_measurements-current_ms float (trim current) (no_scan float) ms)))
            (choose-Chosen float opts x.f (last_of float (trim current) none ms)),
      )
    ]
