-- ===== src/Policy/Geometry.antt =====
-- What Classify in internal/policy/prefix.go says of the addresses of two prefixes.
use wireguide_plus.Common.{
  ℕ, ◌-◌, ◌/◌, ◌≤◌, ◌<◌, ◌≡◌, ◌≢◌, ◌↔◌, inl, inr, refl, sym, ap, ◌∙◌, true, false, leb, arith,
  Bool-cases, leb→le,
}
use wireguide_plus.Policy.Blocks.{pow_pos, same_block, blocks_meet, blocks_touch}
use wireguide_plus.Policy.Prefix.{
  Family, Prefix, RouteConflictKind, width, same_family, size, contains_addr, is_full_tunnel,
  range_end, ranges_intersect, classify, contains,
}

-- The address stands in the prefix.
abbrev pub Holds : Prefix → ℕ → Type 0
Holds p x = x / size p ≡ p.addr / size p

-- The prefixes share an address.
abbrev pub Meets : Prefix → Prefix → Type 0
Meets a b = (x : ℕ) × Holds a x × Holds b x

contains_addr_iff :
    (p : Prefix) (f : Family) (x : ℕ)
    → (contains_addr p f x ≡ true) ↔ ((same_family p.family f ≡ true) × Holds p x)
unfolding contains_addr
contains_addr_iff p f x = (λ h. ground arith, λ h. ground arith)

size_mono :
    (a b : Prefix) (x y : ℕ)
    → same_family a.family b.family ≡ true
    → a.bits ≤ b.bits
    → x / size b ≡ y / size b
    → x / size a ≡ y / size a
unfolding size
size_mono a b x y f le e =
    same_block (width b.family - b.bits) (width a.family - a.bits) x y (ground arith) e

-- A prefix that meets another one, no longer than it, holds all its addresses.
wider-Holds :
    (a b : Prefix)
    → same_family a.family b.family ≡ true
    → a.bits ≤ b.bits
    → Meets a b
    → Holds a b.addr
wider-Holds a b f le (x, ha, hb) = size_mono a b b.addr x f le (sym hb) ∙ ha

size_pos : (p : Prefix) → 0 < size p
unfolding size
size_pos p = pow_pos (width p.family - p.bits)

pub ranges-Meets :
    (a b : Prefix)
    → same_family a.family b.family ≡ true
    → (ranges_intersect a b ≡ true) ↔ Meets a b
unfolding ranges_intersect range_end
ranges-Meets a b f = (
  λ h.
      blocks_meet (size a) (size b) a.addr b.addr (size_pos a) (size_pos b) (ground arith)
        (ground arith),
  λ (m : Meets a b). ground (
    arith,
    f,
    blocks_touch (size a) (size b) a.addr b.addr m.0 (size_pos a) (size_pos b) m.1 m.2,
    blocks_touch (size b) (size a) b.addr a.addr m.0 (size_pos b) (size_pos a) m.2 m.1,
  ),
)

same_family_symm : (f g : Family) → same_family f g ≡ same_family g f
same_family_symm Family.ipv4 Family.ipv4 = refl
same_family_symm Family.ipv4 Family.ipv6 = refl
same_family_symm Family.ipv6 Family.ipv4 = refl
same_family_symm Family.ipv6 Family.ipv6 = refl

Meets-symm : (a b : Prefix) → Meets a b → Meets b a
Meets-symm a b (x, h, k) = (x, k, h)

-- Of two prefixes that meet, one that is not longer contains the other's address.
Meets-contains :
    (a b : Prefix)
    → same_family a.family b.family ≡ true
    → Meets a b
    → leb a.bits b.bits ≡ true
    → contains_addr a b.family b.addr ≡ true
Meets-contains a b f m le =
    (contains_addr_iff a b.family b.addr).1 (f, wider-Holds a b f (leb→le _ _ le) m)

contains-Meets : (a b : Prefix) → contains_addr a b.family b.addr ≡ true → Meets a b
contains-Meets a b h = (b.addr, ((contains_addr_iff a b.family b.addr).0 h).1, refl)

pub full_bits : (p : Prefix) → is_full_tunnel p ≡ true → (p.bits ≡ 0) × (p.addr ≡ 0)
unfolding is_full_tunnel
full_bits p h = ground arith

-- Classify never answers "partial".
pub classify-ne-partial : (a b : Prefix) → classify a b ≢ RouteConflictKind.partial
unfolding classify
classify-ne-partial a b h = elim (Bool-cases (same_family a.family b.family)) [
  | inl f ↦ elim (Bool-cases (ranges_intersect a b)) [
    | inl meet ↦
        let m = (ranges-Meets a b f).0 meet in
        let g = sym (same_family_symm a.family b.family) ∙ f in
        ground (
          arith,
          Meets-contains a b f m,
          Meets-contains b a g (Meets-symm a b m),
          full_bits a,
          full_bits b,
        )
    | inr apart ↦ ground arith
  ]
  | inr g ↦ ground arith
]

same_addr-Meets : (a b : Prefix) → a.addr ≡ b.addr → Meets a b
same_addr-Meets a b e = (b.addr, ap (λ x. x / size a) (sym e), refl)

pub apart :
    (a b : Prefix)
    → same_family a.family b.family ≡ true
    → ranges_intersect a b ≡ false
    → classify a b ≡ RouteConflictKind.none
unfolding classify
apart a b f r =
    let g = sym (same_family_symm a.family b.family) ∙ f in
    let touch = (ranges-Meets a b f).1 in
    let one = λ (h : contains_addr a b.family b.addr ≡ true). touch (contains-Meets a b h) in
    let two = λ (h : contains_addr b a.family a.addr ≡ true).
      touch (Meets-symm b a (contains-Meets b a h)) in
    let same = λ (h : a.addr ≡ b.addr). touch (same_addr-Meets a b h) in
    ground (arith, one, two, same, full_bits a, full_bits b)

pub not_none :
    (a b : Prefix)
    → same_family a.family b.family ≡ true
    → Meets a b
    → classify a b ≢ RouteConflictKind.none
unfolding classify
not_none a b f m h =
    let g = sym (same_family_symm a.family b.family) ∙ f in
    ground (
      arith,
      Meets-contains a b f m,
      Meets-contains b a g (Meets-symm a b m),
      (ranges-Meets a b f).1 m,
    )

-- For prefixes of one family, Classify answers "none" exactly when no address stands in both.
pub classify-none_iff :
    (a b : Prefix)
    → same_family a.family b.family ≡ true
    → (classify a b ≡ RouteConflictKind.none) ↔ ((x : ℕ) → Holds a x → Holds b x → ⊥)
classify-none_iff a b f = (
  λ e x h k. not_none a b f (x, h, k) e,
  λ none_held. elim (Bool-cases (ranges_intersect a b)) [
    | inl meet ↦ let m = (ranges-Meets a b f).0 meet in absurd (none_held m.0 m.1 m.2)
    | inr r ↦ apart a b f r
  ],
)

ranges_intersect_comm : (a b : Prefix) → ranges_intersect a b ≡ ranges_intersect b a
unfolding ranges_intersect
ranges_intersect_comm a b = ground (arith, same_family_symm a.family b.family)

-- Classify does not depend on the order of its arguments.
pub classify_comm : (a b : Prefix) → classify a b ≡ classify b a
unfolding classify
classify_comm a b = ground (arith, same_family_symm a.family b.family, ranges_intersect_comm a b)

-- Contains holds exactly when the families agree, the outer prefix is not longer, and every address
-- of the inner prefix stands in the outer one.
pub contains_iff :
    (a b : Prefix)
    → (contains a b ≡ true) ↔ (
        (same_family a.family b.family ≡ true)
        × (a.bits ≤ b.bits)
        × ((x : ℕ) → Holds b x → Holds a x))
unfolding contains
contains_iff a b = (
  λ h.
      let f : same_family a.family b.family ≡ true = ground arith in
      let le : a.bits ≤ b.bits = ground arith in
      let c : contains_addr a b.family b.addr ≡ true = ground arith in
      (
        f,
        le,
        λ x hb. size_mono a b x b.addr f le hb ∙ ((contains_addr_iff a b.family b.addr).0 c).1,
      ),
  λ h. ground (arith, (contains_addr_iff a b.family b.addr).1 (h.0, h.2 b.addr refl)),
)
