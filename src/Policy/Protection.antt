-- ===== src/Policy/Protection.antt =====
-- internal/policy/protection.go: AnalyzeProtection. The texts of messages are left out.
use wireguide_plus.Common.{List, [], ◌∷◌, ◌++◌, map, String, Bool, not, str_eq, if◌then◌else◌}
use wireguide_plus.Common.Order.{sort, str_le}
use wireguide_plus.Policy.Prefix.{Family, RouteConflictKind, classify}
use wireguide_plus.Policy.Report.{
  Netip, TunnelView, Severity, warning, blocking, Claim, parse_prefixes,
}

pub data ProtectionConflictKind : Type 0 where
  protection_identical protection_nested : ProtectionConflictKind

pub record ProtectionConflict : Type 0 where
  pub a : String
  pub b : String
  pub a_prefix : String
  pub b_prefix : String
  pub family : Family
  pub kind : ProtectionConflictKind
  pub severity : Severity

module _ (net : Netip) where
  -- The prefixes of the tunnels with Traffic Protect.
  unfoldable pub protected_claims : List TunnelView → List Claim
  protected_claims [] = []
  protected_claims (t ∷ ts) =
      if not t.traffic_protect
      then protected_claims ts
      else map (λ p. (t.name, p)) (parse_prefixes net t.allowed_ips) ++ protected_claims ts

  abbrev pub protection_at :
      ProtectionConflictKind → Severity → Claim → Claim → List ProtectionConflict
  protection_at kind severity c d =
      record {
        a = c.0;
        b = d.0;
        a_prefix = net.show c.1;
        b_prefix = net.show d.1;
        family = c.1.family;
        kind = kind;
        severity = severity;
      }
      ∷ []

  -- The switch on the kind.
  unfoldable pub judge_kind : RouteConflictKind → Claim → Claim → List ProtectionConflict
  judge_kind RouteConflictKind.identical c d =
      protection_at ProtectionConflictKind.protection_identical blocking c d
  judge_kind RouteConflictKind.contained c d =
      protection_at ProtectionConflictKind.protection_nested warning c d
  judge_kind RouteConflictKind.full_tunnel c d =
      protection_at ProtectionConflictKind.protection_nested warning c d
  judge_kind _ c d = []

  -- One pair of the double loop.
  unfoldable pub compare_protected : Claim → Claim → List ProtectionConflict
  unfolding judge_kind
  compare_protected c d = if str_eq c.0 d.0 then [] else judge_kind (classify c.1 d.1) c d

  -- The inner loop.
  unfoldable pub protected_rest : Claim → List Claim → List ProtectionConflict
  protected_rest c [] = []
  protected_rest c (d ∷ ds) = compare_protected c d ++ protected_rest c ds

  -- The outer loop.
  unfoldable pub protected_all : List Claim → List ProtectionConflict
  protected_all [] = []
  protected_all (c ∷ cs) = protected_rest c cs ++ protected_all cs

-- The order of the last sort: A, B, the prefix of A. It leaves conflicts with the same three in
-- their order here, where sort.Slice may exchange them.
unfoldable pub protection_le : ProtectionConflict → ProtectionConflict → Bool
protection_le x y =
    if not (str_eq x.a y.a)
    then str_le x.a y.a
    else if not (str_eq x.b y.b)
    then str_le x.b y.b
    else str_le x.a_prefix y.a_prefix

-- AnalyzeProtection
unfoldable pub analyze_protection : Netip → List TunnelView → List ProtectionConflict
unfolding protected_all protected_rest compare_protected protected_claims protection_le
analyze_protection net tunnels =
    sort protection_le (protected_all net (protected_claims net tunnels))
