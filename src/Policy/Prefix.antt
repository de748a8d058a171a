-- ===== src/Policy/Prefix.antt =====
-- internal/policy/prefix.go: prefixes, Classify and the analysis of ranges. A netip.Prefix is the
-- width of its family (32 or 128), its address as a number, and its length.
use wireguide_plus.Common.{
  ℕ, ◌+◌, ◌-◌, ◌*◌, ◌/◌, ◌^◌, Bool, true, false, ◌&&◌, ◌||◌, not, leb, ◌==◌, if◌then◌else◌,
}

pub data Family : Type 0 where
  ipv4 ipv6 : Family

pub record Prefix : Type 0 where
  pub family : Family
  pub addr : ℕ
  pub bits : ℕ

pub data RouteConflictKind : Type 0 where
  none contained identical partial full_tunnel : RouteConflictKind

-- Addr.BitLen
abbrev pub width : Family → ℕ
width Family.ipv4 = 32
width Family.ipv6 = 128

abbrev pub same_family : Family → Family → Bool
same_family Family.ipv4 Family.ipv4 = true
same_family Family.ipv6 Family.ipv6 = true
same_family _ _ = false

-- The number of addresses in the prefix.
unfoldable pub size : Prefix → ℕ
size p = 2 ^ (width p.family - p.bits)

-- Prefix.Masked: the host bits are cleared.
unfoldable pub masked : Prefix → Prefix
unfolding size
masked p = record p { addr = p.addr / size p * size p }

-- Prefix.Contains for an address of a family.
unfoldable pub contains_addr : Prefix → Family → ℕ → Bool
unfolding size
contains_addr p f a = same_family p.family f && (p.addr / size p == (a / size p))

-- IsFullTunnel
unfoldable pub is_full_tunnel : Prefix → Bool
is_full_tunnel p = (p.bits == 0) && (p.addr == 0)

-- rangeBounds: the first and the last address. Setting all host bits of a masked address is adding
-- the size less one.
unfoldable pub range_start : Prefix → ℕ
unfolding size
range_start p = p.addr / size p * size p

unfoldable pub range_end : Prefix → ℕ
unfolding range_start
range_end p = range_start p + (size p - 1)

-- rangesIntersect
unfoldable pub ranges_intersect : Prefix → Prefix → Bool
unfolding range_end
ranges_intersect a b =
    if not (same_family a.family b.family)
    then false
    else leb (range_start a) (range_end b) && leb (range_start b) (range_end a)

-- a == b on netip.Prefix
abbrev pub same_prefix : Prefix → Prefix → Bool
same_prefix a b = same_family a.family b.family && (a.addr == b.addr) && (a.bits == b.bits)

abbrev pub or_partial : Prefix → Prefix → RouteConflictKind
or_partial a b = if ranges_intersect a b then RouteConflictKind.partial else RouteConflictKind.none

-- The switch of Classify; a case whose body does not return goes on to the last test.
unfoldable pub classify : Prefix → Prefix → RouteConflictKind
classify a b =
    if not (same_family a.family b.family)
    then RouteConflictKind.none
    else if same_prefix a b
    then RouteConflictKind.identical
    else if is_full_tunnel a && is_full_tunnel b
    then RouteConflictKind.identical
    else if is_full_tunnel a || is_full_tunnel b
    then (if (is_full_tunnel a && contains_addr a b.family b.addr)
          || (is_full_tunnel b && contains_addr b a.family a.addr)
        then RouteConflictKind.full_tunnel
        else or_partial a b)
    else if contains_addr a b.family b.addr && leb a.bits b.bits
    then RouteConflictKind.contained
    else if contains_addr b a.family a.addr && leb b.bits a.bits
    then RouteConflictKind.contained
    else or_partial a b

-- Contains
unfoldable pub contains : Prefix → Prefix → Bool
contains outer inner =
    if not (same_family outer.family inner.family)
    then false
    else leb outer.bits inner.bits && contains_addr outer inner.family inner.addr
