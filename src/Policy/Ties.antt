-- ===== src/Policy/Ties.antt =====
-- Which routing conflicts block: AnalyzeRoutes in internal/policy/route.go.
use wireguide_plus.Common.{
  ◌≡◌, ◌≢◌, ◌↔◌, inl, inr, refl, sym, ap, ◌∙◌, List, [], ◌∷◌, String, Bool, true, false, ◌&&◌, ◌||◌,
  not, str_eq, str_eq_iff, str_eq_refl, if◌then◌else◌, any, any-append, arith, Bool-cases, ltb,
}
use mathlib.Core.Path.{ap₂}
use wireguide_plus.Common.Order.{sort, any-sort}
use wireguide_plus.Policy.Prefix.{
  Family, Prefix, RouteConflictKind, same_family, same_prefix, classify,
}
use wireguide_plus.Policy.Geometry.{classify-ne-partial, full_bits}
use wireguide_plus.Policy.Report.{
  Netip, TunnelView, Severity, blocking, info, warning, RouteConflict, Claim, claims, conflict_at,
  compare_claims, compare_rest, compare_all, analyze_routes, conflict_le, worst, rank,
}

abbrev pub is_blocking : Severity → Bool
is_blocking Severity.blocking = true
is_blocking _ = false

abbrev pub blocks : RouteConflict → Bool
blocks c = is_blocking c.severity

abbrev is_identical : RouteConflictKind → Bool
is_identical RouteConflictKind.identical = true
is_identical _ = false

-- Two prefixes are classified as identical only if they are equal.
classify_identical : (p q : Prefix) → is_identical (classify p q) ≡ same_prefix p q
unfolding classify
classify_identical p q = ground (arith, full_bits p, full_bits q)

kind_blocks :
    (net : Netip) (k : RouteConflictKind) (c d : Claim)
    → k ≢ RouteConflictKind.partial
    → any blocks (conflict_at net k c d) ≡ is_identical k
unfolding conflict_at
kind_blocks net RouteConflictKind.none c d h = refl
kind_blocks net RouteConflictKind.partial c d h = absurd (h refl)
kind_blocks net _ c d h = refl

family_euclid :
    (f g h : Family) → same_family f g ≡ true → same_family f h ≡ true → same_family g h ≡ true
family_euclid f g h i j = ground arith

-- Claims of two tunnels to the same prefix.
abbrev clash : Claim → Claim → Bool
clash c d = not (str_eq c.0 d.0) && same_prefix c.1 d.1

module _ (net : Netip) where
  compare_claims-blocks : (c d : Claim) → any blocks (compare_claims net c d) ≡ clash c d
  unfolding compare_claims
  compare_claims-blocks c d = ground (
    arith,
    kind_blocks net (classify c.1 d.1) c d (classify-ne-partial c.1 d.1),
    classify_identical c.1 d.1,
  )

  compare_rest-blocks :
      (c : Claim) (ds : List Claim) → any blocks (compare_rest net c ds) ≡ any (clash c) ds
  unfolding compare_rest
  compare_rest-blocks c [] = refl
  compare_rest-blocks c (d ∷ ds) =
      any-append blocks (compare_claims net c d) (compare_rest net c ds)
      ∙ ap₂ (λ x y. x || y) (compare_claims-blocks c d) (compare_rest-blocks c ds)

-- The tunnel claims the prefix.
abbrev is_claim : String → Prefix → Claim → Bool
is_claim n p c = str_eq n c.0 && same_prefix p c.1

abbrev pub Tie : List Claim → Type 0
Tie cs =
    (n : String) × (m : String) × (p : Prefix) × (n ≢ m)
    × (any (is_claim n p) cs ≡ true)
    × (any (is_claim m p) cs ≡ true)

same_prefix_euclid :
    (p q r : Prefix) → same_prefix p q ≡ true → same_prefix p r ≡ true → same_prefix q r ≡ true
same_prefix_euclid p q r h k = ground (arith, family_euclid p.family q.family r.family)

pub str_eq_ne : (n m : String) → n ≢ m → str_eq n m ≡ false
str_eq_ne n m h = elim (Bool-cases (str_eq n m)) [
  | inl e ↦ absurd (h ((str_eq_iff n m).0 e))
  | inr e ↦ e
]

pub str_eq_comm : (s t : String) → str_eq s t ≡ str_eq t s
str_eq_comm s t = elim (Bool-cases (str_eq s t)) [
  | inl e ↦ rw ((str_eq_iff s t).0 e) refl
  | inr e ↦ elim (Bool-cases (str_eq t s)) [
    | inl f ↦ rw ((str_eq_iff t s).0 f) refl
    | inr f ↦ e ∙ sym f
  ]
]

pub ne-of_str_eq : (n m : String) → str_eq n m ≡ false → n ≢ m
ne-of_str_eq n m h e = elim (Bool-cases (str_eq n m)) [
  | inl t ↦ ground (arith)
  | inr f ↦ ground (arith, (str_eq_iff n m).1 e)
]

-- Claims of different tunnels to one prefix clash.
claims-clash :
    (n m : String) (p : Prefix) (c d : Claim)
    → n ≢ m
    → is_claim n p c ≡ true
    → is_claim m p d ≡ true
    → clash c d ≡ true
claims-clash n m p c d h i j =
    let a : str_eq n c.0 ≡ true = ground arith in
    let b : str_eq m d.0 ≡ true = ground arith in
    let e : n ≡ c.0 = (str_eq_iff n c.0).0 a in
    let f : m ≡ d.0 = (str_eq_iff m d.0).0 b in
    let g = str_eq_ne c.0 d.0 (λ k. h (e ∙ k ∙ sym f)) in
    ground (arith, g, same_prefix_euclid p c.1 d.1)

any-clash :
    (n m : String) (p : Prefix) (c : Claim) (ds : List Claim)
    → n ≢ m
    → is_claim n p c ≡ true
    → any (is_claim m p) ds ≡ true
    → any (clash c) ds ≡ true
any-clash n m p c [] h i j = j
any-clash n m p c (d ∷ ds) h i j = elim (Bool-cases (is_claim m p d)) [
  | inl e ↦ rw (claims-clash n m p c d h i e) refl
  | inr e ↦ let rest = any-clash n m p c ds h i (ground arith) in ground arith
]

clash-claim :
    (c : Claim) (ds : List Claim)
    → any (clash c) ds ≡ true
    → (m : String) × (c.0 ≢ m) × (any (is_claim m c.1) ds ≡ true)
clash-claim c [] h = cc
clash-claim c (d ∷ ds) h = elim (Bool-cases (clash c d)) [
  | inl e ↦
      let f : str_eq c.0 d.0 ≡ false = ground arith in
      (d.0, ne-of_str_eq c.0 d.0 f, ground (arith, str_eq_refl d.0))
  | inr e ↦ let r = clash-claim c ds (ground arith) in (r.0, r.1, ground (arith, r.2))
]

Tie-cons : (c : Claim) (cs : List Claim) → Tie cs → Tie (c ∷ cs)
Tie-cons c cs (n, m, p, h, i, j) = (n, m, p, h, ground (arith, i), ground (arith, j))

pub is_blocking_step :
    (s t : Severity)
    → is_blocking (if ltb (rank s) (rank t) then t else s) ≡ is_blocking s || is_blocking t
unfolding rank
is_blocking_step info info = refl
is_blocking_step info warning = refl
is_blocking_step info blocking = refl
is_blocking_step warning info = refl
is_blocking_step warning warning = refl
is_blocking_step warning blocking = refl
is_blocking_step blocking info = refl
is_blocking_step blocking warning = refl
is_blocking_step blocking blocking = refl

pub or_assoc : (x y z : Bool) → (x || y) || z ≡ x || (y || z)
or_assoc true y z = refl
or_assoc false y z = refl

-- The worst severity is "blocking" when one of them is.
worst_lem :
    (s : Severity) (cs : List RouteConflict)
    → is_blocking (worst s cs) ≡ is_blocking s || any blocks cs
unfolding worst
worst_lem s [] = ground arith
worst_lem s (c ∷ cs) =
    let next = if ltb (rank s) (rank c.severity) then c.severity else s in
    worst_lem next cs
    ∙ ap (λ b. b || any blocks cs) (is_blocking_step s c.severity)
    ∙ or_assoc (is_blocking s) (blocks c) (any blocks cs)

module _ (net : Netip) where
  compare_all-Tie : (cs : List Claim) → any blocks (compare_all net cs) ≡ true → Tie cs
  unfolding compare_all
  compare_all-Tie [] h = cc
  compare_all-Tie (c ∷ cs) h =
      let split = sym (any-append blocks (compare_rest net c cs) (compare_all net cs)) ∙ h in
      elim (Bool-cases (any (clash c) cs)) [
        | inl e ↦
            let r = clash-claim c cs e in
            (c.0, r.0, c.1, r.1, ground (arith, str_eq_refl c.0), ground (arith, r.2))
        | inr e ↦
            Tie-cons c cs (compare_all-Tie cs (ground (arith, split, compare_rest-blocks net c cs)))
      ]

  Tie-compare_all : (cs : List Claim) → Tie cs → any blocks (compare_all net cs) ≡ true
  unfolding compare_all
  Tie-compare_all [] t = cc
  Tie-compare_all (c ∷ cs) (n, m, p, h, i, j) =
      let split = any-append blocks (compare_rest net c cs) (compare_all net cs) in
      let head = compare_rest-blocks net c cs in
      elim (Bool-cases (is_claim n p c)) [
        | inl a ↦ elim (Bool-cases (is_claim m p c)) [
          | inl b ↦ absurd (
              h (((str_eq_iff n c.0).0 (ground arith)) ∙ sym ((str_eq_iff m c.0).0 (ground arith))))
          | inr b ↦
              let k = any-clash n m p c cs h a (ground arith) in ground (arith, split, head, k)
        ]
        | inr a ↦ elim (Bool-cases (is_claim m p c)) [
          | inl b ↦
              let k = any-clash m n p c cs (λ e. h (sym e)) b (ground arith) in
              ground (arith, split, head, k)
          | inr b ↦
              let k = Tie-compare_all cs (n, m, p, h, ground arith, ground arith) in
              ground (arith, split, k)
        ]
      ]

  -- The routes' severity of a report is "blocking" exactly when two tunnels of different names claim
  -- the same prefix.
  pub routes_block_iff :
      (tunnels : List TunnelView)
      → (is_blocking (worst info (analyze_routes net tunnels)) ≡ true) ↔ Tie (claims net tunnels)
  unfolding analyze_routes
  routes_block_iff tunnels =
      let all = compare_all net (claims net tunnels) in
      let same = worst_lem info (sort conflict_le all) ∙ any-sort conflict_le blocks all in
      (
        λ h. compare_all-Tie (claims net tunnels) (sym same ∙ h),
        λ t. same ∙ Tie-compare_all (claims net tunnels) t,
      )
