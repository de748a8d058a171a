-- ===== src/Policy/Overlap.antt =====
-- When AnalyzeProtection (internal/policy/protection.go) reports a conflict.
use mathlib.Core.Path.{ap₂}
use mathlib.Core.List.{Memᴰ}
use wireguide_plus.Common.{
  ◌≡◌, ◌≢◌, ◌↔◌, inl, inr, refl, sym, ap, ◌∙◌, List, [], ◌∷◌, Bool, true, false, ◌&&◌, ◌||◌, not,
  str_eq, str_eq_refl, is_empty, any, any-append, arith, Bool-cases,
}
use wireguide_plus.Common.Pairs.{pairs, pairs-Memᴰ, Memᴰ-pairs}
use wireguide_plus.Common.Order.{any-sort}
use wireguide_plus.Policy.Prefix.{
  Prefix, RouteConflictKind, same_family, classify, ranges_intersect,
}
use wireguide_plus.Policy.Geometry.{
  Meets, classify-ne-partial, classify_comm, ranges-Meets, apart, not_none,
}
use wireguide_plus.Policy.Ties.{ne-of_str_eq, str_eq_ne, str_eq_comm}
use wireguide_plus.Policy.Report.{Netip, TunnelView, Claim}
use wireguide_plus.Policy.Protection.{
  protected_claims, judge_kind, compare_protected, protected_rest, protected_all, protection_le,
  analyze_protection,
}

abbrev is_none : RouteConflictKind → Bool
is_none RouteConflictKind.none = true
is_none _ = false

-- The claims of two tunnels that Classify relates.
abbrev related : Claim → Claim → Bool
related c d = not (str_eq c.0 d.0) && not (is_none (classify c.1 d.1))

related_irrefl : (c : Claim) → related c c ≡ false
related_irrefl c = ground (arith, str_eq_refl c.0)

related_comm : (c d : Claim) → related c d ≡ related d c
related_comm c d =
    ap₂ (λ s k. not s && not (is_none k)) (str_eq_comm c.0 d.0) (classify_comm c.1 d.1)

-- The claims of two different tunnels have an address in common.
abbrev pub Crosses : Claim → Claim → Type 0
Crosses c d = (c.0 ≢ d.0) × (same_family c.1.family d.1.family ≡ true) × Meets c.1 d.1

same-of_related :
    (a b : Prefix) → is_none (classify a b) ≡ false → same_family a.family b.family ≡ true
unfolding classify
same-of_related a b h = ground arith

none_of_is_none : (k : RouteConflictKind) → is_none k ≡ true → k ≡ RouteConflictKind.none
none_of_is_none RouteConflictKind.none h = refl
none_of_is_none RouteConflictKind.contained h = cc
none_of_is_none RouteConflictKind.identical h = cc
none_of_is_none RouteConflictKind.partial h = cc
none_of_is_none RouteConflictKind.full_tunnel h = cc

related-Crosses : (c d : Claim) → related c d ≡ true → Crosses c d
related-Crosses c d h =
    let other = ne-of_str_eq c.0 d.0 (ground arith) in
    let some_kind : is_none (classify c.1 d.1) ≡ false = ground arith in
    let kin = same-of_related c.1 d.1 some_kind in
    elim (Bool-cases (ranges_intersect c.1 d.1)) [
      | inl meet ↦ (other, kin, (ranges-Meets c.1 d.1 kin).0 meet)
      | inr r ↦ let k = sym (ap is_none (apart c.1 d.1 kin r)) ∙ some_kind in cc
    ]

Crosses-related : (c d : Claim) → Crosses c d → related c d ≡ true
Crosses-related c d (other, kin, meet) =
    ground (
      arith,
      str_eq_ne c.0 d.0 other,
      none_of_is_none (classify c.1 d.1),
      not_none c.1 d.1 kin meet,
    )

-- Two claims in the list cross.
abbrev pub HasCrossing : List Claim → Type 0
HasCrossing cs = (c : Claim) × (d : Claim) × Memᴰ c cs × Memᴰ d cs × Crosses c d

module _ {ℓ} {A : Type ℓ} where
  is_empty-any : (xs : List A) → not (is_empty xs) ≡ any (λ x. true) xs
  is_empty-any [] = refl
  is_empty-any (x ∷ xs) = refl

module _ (net : Netip) where
  kind_reports :
      (k : RouteConflictKind) (c d : Claim)
      → k ≢ RouteConflictKind.partial
      → any (λ x. true) (judge_kind net k c d) ≡ not (is_none k)
  unfolding judge_kind
  kind_reports RouteConflictKind.partial c d h = absurd (h refl)
  kind_reports _ c d h = refl

  compare_reports : (c d : Claim) → any (λ x. true) (compare_protected net c d) ≡ related c d
  unfolding compare_protected
  compare_reports c d =
      ground (arith, kind_reports (classify c.1 d.1) c d (classify-ne-partial c.1 d.1))

  rest_reports :
      (c : Claim) (ds : List Claim) → any (λ x. true) (protected_rest net c ds) ≡ any (related c) ds
  unfolding protected_rest
  rest_reports c [] = refl
  rest_reports c (d ∷ ds) =
      any-append (λ x. true) (compare_protected net c d) (protected_rest net c ds)
      ∙ ap₂ (λ x y. x || y) (compare_reports c d) (rest_reports c ds)

  all_reports : (cs : List Claim) → any (λ x. true) (protected_all net cs) ≡ pairs related cs
  unfolding protected_all
  all_reports [] = refl
  all_reports (c ∷ cs) =
      any-append (λ x. true) (protected_rest net c cs) (protected_all net cs)
      ∙ ap₂ (λ x y. x || y) (rest_reports c cs) (all_reports cs)

  -- AnalyzeProtection reports a conflict exactly when two tunnels of different names that have
  -- Traffic Protect claim prefixes of one family with an address in common.
  pub protection_reports_iff :
      (tunnels : List TunnelView)
      → (not (is_empty (analyze_protection net tunnels)) ≡ true)
        ↔ HasCrossing (protected_claims net tunnels)
  unfolding analyze_protection
  protection_reports_iff tunnels =
      let cs = protected_claims net tunnels in
      let same =
        is_empty-any (analyze_protection net tunnels)
        ∙ any-sort protection_le (λ x. true) (protected_all net cs)
        ∙ all_reports cs in
      (
        λ h.
            let r = pairs-Memᴰ related cs (sym same ∙ h) in
            (r.0, r.1, r.2, r.3, related-Crosses r.0 r.1 r.4),
        λ (t : HasCrossing cs).
            same
            ∙ Memᴰ-pairs related related_irrefl related_comm t.0 t.1 cs t.2 t.3
                (Crosses-related t.0 t.1 t.4),
      )
