-- ===== src/Policy/Analysis.antt =====
-- internal/policy/policy.go: the whole report of Analyze and what is asked of it. The names of
-- tunnels are distinct, so that the sort by name has one result.
use wireguide_plus.Common.Order.{str_le, sort}
use wireguide_plus.Common.{
  String, List, [], ◌∷◌, Bool, true, false, ◌&&◌, ◌||◌, ltb, is_empty, str_eq, if◌then◌else◌,
}
use wireguide_plus.Common.Text.{Text}
use wireguide_plus.Policy.Report.{
  Netip, TunnelView, Severity, info, blocking, RouteConflict, analyze_routes, rank,
}
use wireguide_plus.Policy.Dns.{DnsConflict, analyze_dns}
use wireguide_plus.Policy.Protection.{ProtectionConflict, analyze_protection}

pub record Report : Type 0 where
  pub routes : List RouteConflict
  pub dns : List DnsConflict
  pub protection : List ProtectionConflict

-- Empty
unfoldable pub is_empty_report : Report → Bool
is_empty_report r = is_empty r.routes && (is_empty r.dns && is_empty r.protection)

-- The three types of conflicts have the same loops.
module _ {A : Type 0} (a b : A → String) where
  -- One of the loops of ForTunnel.
  unfoldable pub kept_for : String → List A → List A
  kept_for name [] = []
  kept_for name (c ∷ cs) =
      let rest = kept_for name cs in
      if str_eq (a c) name || str_eq (b c) name then c ∷ rest else rest

module _ {A : Type 0} (severity_of : A → Severity) where
  -- One of the loops of Severity.
  unfoldable pub worst_of : Severity → List A → Severity
  unfolding rank
  worst_of s [] = s
  worst_of s (c ∷ cs) =
      worst_of (if ltb (rank s) (rank (severity_of c)) then severity_of c else s) cs

-- ForTunnel
unfoldable pub for_tunnel : String → Report → Report
unfolding kept_for
for_tunnel name r = record {
  routes = kept_for (λ c. c.a) (λ c. c.b) name r.routes;
  dns = kept_for (λ c. c.a) (λ c. c.b) name r.dns;
  protection = kept_for (λ c. c.a) (λ c. c.b) name r.protection;
}

-- Severity
unfoldable pub report_severity : Report → Severity
unfolding worst_of
report_severity r =
    worst_of (λ c. c.severity)
      (worst_of (λ c. c.severity) (worst_of (λ c. c.severity) info r.routes) r.dns) r.protection

-- Blocking
unfoldable pub report_blocks : Report → Bool
unfolding report_severity
report_blocks r = elim (report_severity r) [ blocking ↦ true | _ ↦ false ]

-- Analyze
unfoldable pub analyze : Netip → (Text → Text) → List TunnelView → Report
unfolding analyze_routes analyze_dns analyze_protection
analyze net lower tunnels =
    let ordered = sort (λ s t. str_le s.name t.name) tunnels in
    record {
      routes = analyze_routes net ordered;
      dns = analyze_dns lower ordered;
      protection = analyze_protection net ordered;
    }
