-- ===== src/Policy/Report.antt =====
-- internal/policy: ParsePrefixes of prefix.go, AnalyzeRoutes of route.go, and the routes' loop
-- of Severity in policy.go. The texts of messages are left out.
-- What the netip library reads and prints is the record `Netip`.
use wireguide_plus.Common.{
  ℕ, List, [], ◌∷◌, ◌++◌, map, Option, none, some, String, Bool, not, str_eq, leb, ltb, ◌==◌,
  if◌then◌else◌, any,
}
use wireguide_plus.Common.Text.{Text, codes, trim}
use wireguide_plus.Common.Order.{sort, str_le}
use wireguide_plus.Policy.Prefix.{
  Family, Prefix, RouteConflictKind, width, same_prefix, masked, classify,
}

-- netip.ParsePrefix, netip.ParseAddr (the family and the address) and Prefix.String.
pub record Netip : Type 0 where
  pub parse_prefix : Text → Option Prefix
  pub parse_addr : Text → Option (Family × ℕ)
  pub show : Prefix → String

pub record TunnelView : Type 0 where
  pub name : String
  pub allowed_ips : List String
  pub traffic_protect : Bool
  pub domains : List String
  pub use_as_default_dns : Bool
  pub dns_resolve_path : Bool
  pub active : Bool

pub data Severity : Type 0 where
  info warning blocking : Severity

pub record RouteConflict : Type 0 where
  pub a : String
  pub b : String
  pub a_prefix : String
  pub b_prefix : String
  pub family : Family
  pub kind : RouteConflictKind
  pub severity : Severity

-- strings.FieldsFunc at commas: the runs of other characters.
abbrev glue : ℕ → Text → List Text → List Text
glue c [] fs = (c ∷ []) ∷ fs
glue c (d ∷ s) [] = (c ∷ []) ∷ []
glue c (d ∷ s) (f ∷ fs) = if d == b',' then (c ∷ []) ∷ f ∷ fs else (c ∷ f) ∷ fs

unfoldable pub fields : Text → List Text
fields [] = []
fields (c ∷ s) = let rest = fields s in if c == b',' then rest else glue c s rest

-- The order of sort.Slice in ParsePrefixes: the width, the address, the length.
unfoldable pub prefix_le : Prefix → Prefix → Bool
prefix_le p q =
    if not (width p.family == width q.family)
    then ltb (width p.family) (width q.family)
    else if not (p.addr == q.addr)
    then ltb p.addr q.addr
    else leb p.bits q.bits

-- The severity of routeSeverity.
unfoldable pub route_severity : RouteConflictKind → Severity
route_severity RouteConflictKind.identical = blocking
route_severity RouteConflictKind.partial = blocking
route_severity _ = info

-- A prefix with the tunnel that claims it.
abbrev pub Claim : Type 0
Claim = String × Prefix

module _ (net : Netip) where
  -- parsePrefix
  unfoldable pub parse_prefix : Text → Option Prefix
  unfolding masked
  parse_prefix s = elim (trim s) [
    | [] ↦ none
    | c ∷ t ↦ elim (net.parse_prefix (c ∷ t)) [
      | some p ↦ some (masked p)
      | none ↦ elim (net.parse_addr (c ∷ t)) [
        | some (f, a) ↦ some (masked (record { family = f; addr = a; bits = width f }))
        | none ↦ none
      ]
    ]
  ]

  abbrev keep_new : Option Prefix → List Prefix → List Prefix
  keep_new none out = out
  keep_new (some p) out = if any (same_prefix p) out then out else p ∷ out

  -- The loop over the fields of the entries; what has been seen is what has been put out. The list
  -- grows at the head: it is sorted afterwards.
  unfoldable pub collect : List Prefix → List Text → List Prefix
  collect out [] = out
  collect out (f ∷ fs) = collect (keep_new (parse_prefix f) out) fs

  abbrev all_fields : List String → List Text
  all_fields [] = []
  all_fields (v ∷ vs) = fields (codes v) ++ all_fields vs

  unfoldable pub parse_prefixes : List String → List Prefix
  unfolding collect fields prefix_le
  parse_prefixes values = sort prefix_le (collect [] (all_fields values))

  -- The prefixes of all tunnels, each with its tunnel.
  unfoldable pub claims : List TunnelView → List Claim
  claims [] = []
  claims (t ∷ ts) = map (λ p. (t.name, p)) (parse_prefixes t.allowed_ips) ++ claims ts

  unfoldable pub conflict_at : RouteConflictKind → Claim → Claim → List RouteConflict
  unfolding route_severity
  conflict_at RouteConflictKind.none c d = []
  conflict_at kind c d =
      record {
        a = c.0;
        b = d.0;
        a_prefix = net.show c.1;
        b_prefix = net.show d.1;
        family = c.1.family;
        kind = kind;
        severity = route_severity kind;
      }
      ∷ []

  -- One pair of the double loop.
  unfoldable pub compare_claims : Claim → Claim → List RouteConflict
  unfolding conflict_at
  compare_claims c d = if str_eq c.0 d.0 then [] else conflict_at (classify c.1 d.1) c d

  -- The inner loop.
  unfoldable pub compare_rest : Claim → List Claim → List RouteConflict
  compare_rest c [] = []
  compare_rest c (d ∷ ds) = compare_claims c d ++ compare_rest c ds

  -- The outer loop.
  unfoldable pub compare_all : List Claim → List RouteConflict
  compare_all [] = []
  compare_all (c ∷ cs) = compare_rest c cs ++ compare_all cs

-- The order of the last sort: A, B, the prefix of A, the prefix of B.
unfoldable pub conflict_le : RouteConflict → RouteConflict → Bool
conflict_le x y =
    if not (str_eq x.a y.a)
    then str_le x.a y.a
    else if not (str_eq x.b y.b)
    then str_le x.b y.b
    else if not (str_eq x.a_prefix y.a_prefix)
    then str_le x.a_prefix y.a_prefix
    else str_le x.b_prefix y.b_prefix

unfoldable pub analyze_routes : Netip → List TunnelView → List RouteConflict
unfolding compare_all compare_rest compare_claims claims parse_prefixes conflict_le
analyze_routes net tunnels = sort conflict_le (compare_all net (claims net tunnels))

unfoldable pub rank : Severity → ℕ
rank blocking = 3
rank warning = 2
rank info = 1

-- One of the loops of Report.Severity.
unfoldable pub worst : Severity → List RouteConflict → Severity
unfolding rank
worst s [] = s
worst s (c ∷ cs) = worst (if ltb (rank s) (rank c.severity) then c.severity else s) cs
