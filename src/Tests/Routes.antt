-- ===== src/Tests/Routes.antt =====
-- Tests of the policy analyzers (internal/policy), and each law at a concrete input.
use wireguide_plus.Common.{
  ◌&&◌, leb, ◌+◌, ◌-◌, ◌*◌, ◌^◌, ◌≡◌, ◌↔◌, refl, List, [], ◌∷◌, Option, some, none, String, true,
  false,
}
use wireguide_plus.Common.Text.{Text, codes, trim}
use wireguide_plus.Common.Order.{sort}
use wireguide_plus.Policy.Prefix.{
  Family, Prefix, RouteConflictKind, contains_addr, classify, ranges_intersect, is_full_tunnel,
}
use wireguide_plus.Policy.Report.{
  Netip, TunnelView, info, claims, analyze_routes, worst, fields, parse_prefix,
}
use wireguide_plus.Common.{◌||◌, any, str_eq}
use wireguide_plus.Policy.Analysis.{Report, for_tunnel, report_blocks, analyze}
use wireguide_plus.Policy.Blocking.{for_tunnel_blocks}
use wireguide_plus.Policy.Protection.{analyze_protection, protected_claims}
use wireguide_plus.Policy.Overlap.{HasCrossing, protection_reports_iff}
use wireguide_plus.Policy.Dns.{
  analyze_dns, domains_rest, compare_domains, defaults, path_names, domain_claims, domain_contains,
  normalize_domain,
}
use wireguide_plus.Policy.Domains.{SharesDomain, is_overlap, domain_overlap_iff}
use wireguide_plus.Policy.Ties.{Tie, is_blocking, routes_block_iff}
use wireguide_plus.Common.{◌+◌}
use wireguide_plus.Common.{is_empty}
use wireguide_plus.Common.{not}
use wireguide_plus.Policy.Report.{parse_prefixes}
use wireguide_plus.Common.{map}
use wireguide_plus.Common.{any}
use wireguide_plus.Common.{if◌then◌else◌}
use wireguide_plus.Common.{leb}
use wireguide_plus.Common.{◌&&◌}

abbrev ten : Prefix
ten = record { family = Family.ipv4; addr = 10 * 2 ^ 24; bits = 8 }

abbrev office : Prefix
office = record { family = Family.ipv4; addr = 10 * 2 ^ 24 + 10 * 2 ^ 16; bits = 16 }

abbrev eleven : Prefix
eleven = record { family = Family.ipv4; addr = 11 * 2 ^ 24; bits = 8 }

abbrev everything : Prefix
everything = record { family = Family.ipv4; addr = 0; bits = 0 }

classify_nested : classify ten office ≡ RouteConflictKind.contained
unfolding classify is_full_tunnel contains_addr ranges_intersect
classify_nested = refl

classify_apart : classify eleven office ≡ RouteConflictKind.none
unfolding classify is_full_tunnel contains_addr ranges_intersect
classify_apart = refl

classify_full : classify office everything ≡ RouteConflictKind.full_tunnel
unfolding classify is_full_tunnel contains_addr ranges_intersect
classify_full = refl

fields_commas : fields (codes "a,,bc,") ≡ codes "a" ∷ codes "bc" ∷ []
unfolding fields
fields_commas = refl

-- A reader for the test: a digit d is read as d.0.0.0/8.
abbrev read_digit : Text → Option Prefix
read_digit [] = none
read_digit (c ∷ s) = some (record { family = Family.ipv4; addr = (c - 48) * 2 ^ 24; bits = 8 })

abbrev digits : Netip
digits = record { parse_prefix = read_digit; parse_addr = λ s. none; show = λ p. "prefix" }

abbrev tunnel : String → String → TunnelView
tunnel n v = record {
  name = n;
  allowed_ips = v ∷ [];
  traffic_protect = false;
  domains = [];
  use_as_default_dns = false;
  dns_resolve_path = false;
  active = false;
}

abbrev two_tunnels : List TunnelView
two_tunnels = tunnel "home" "7,8" ∷ tunnel "work" "8" ∷ []

two_tunnels_block : is_blocking (worst info (analyze_routes digits two_tunnels)) ≡ true
unfolding worst analyze_routes sort parse_prefix trim classify is_full_tunnel contains_addr
    ranges_intersect
two_tunnels_block = refl

one_tunnel_passes :
    is_blocking (worst info (analyze_routes digits (tunnel "home" "7,8" ∷ tunnel "work" "9" ∷ [])))
    ≡ false
unfolding worst analyze_routes sort parse_prefix trim classify is_full_tunnel contains_addr
    ranges_intersect
one_tunnel_passes = refl

routes_block_iff_example :
    (is_blocking (worst info (analyze_routes digits two_tunnels)) ≡ true)
    ↔ Tie (claims digits two_tunnels)
routes_block_iff_example = routes_block_iff digits two_tunnels

abbrev guarded : TunnelView → TunnelView
guarded t = record t { traffic_protect = true }

-- Without Traffic Protect nothing is reported, with it the shared 8.0.0.0/8 is.
unguarded_passes : is_empty (analyze_protection digits two_tunnels) ≡ true
unfolding analyze_protection sort
unguarded_passes = refl

guarded_reports : is_empty (analyze_protection digits (map guarded two_tunnels)) ≡ false
unfolding analyze_protection sort parse_prefix parse_prefixes trim classify is_full_tunnel
    contains_addr ranges_intersect
guarded_reports = refl

protection_reports_iff_example :
    (not (is_empty (analyze_protection digits (map guarded two_tunnels))) ≡ true)
    ↔ HasCrossing (protected_claims digits (map guarded two_tunnels))
protection_reports_iff_example = protection_reports_iff digits (map guarded two_tunnels)

-- strings.ToLower for the test: A to Z.
abbrev to_lower : Text → Text
to_lower [] = []
to_lower (c ∷ s) = (if leb 65 c && leb c 90 then c + 32 else c) ∷ to_lower s

normalize_wildcard : normalize_domain to_lower (codes " *.Example.com. ") ≡ codes "example.com"
unfolding normalize_domain trim
normalize_wildcard = refl

contains_subdomain : domain_contains (codes "example.com") (codes "in.example.com") ≡ true
unfolding domain_contains
contains_subdomain = refl

contains_no_label : domain_contains (codes "example.com") (codes "notexample.com") ≡ false
unfolding domain_contains
contains_no_label = refl

abbrev resolving : String → TunnelView → TunnelView
resolving d t = record t { domains = d ∷ [] }

abbrev shared_domain : List TunnelView
shared_domain =
    resolving "Corp.lan" (tunnel "home" "7") ∷ resolving "*.corp.lan." (tunnel "work" "8") ∷ []

shared_domain_overlap : any is_overlap (analyze_dns to_lower shared_domain) ≡ true
unfolding analyze_dns normalize_domain trim sort domains_rest compare_domains defaults path_names
shared_domain_overlap = refl

domain_overlap_iff_example :
    (any is_overlap (analyze_dns to_lower shared_domain) ≡ true)
    ↔ SharesDomain (domain_claims to_lower shared_domain)
domain_overlap_iff_example = domain_overlap_iff to_lower shared_domain

home_blocked : report_blocks (for_tunnel "home" (analyze digits to_lower two_tunnels)) ≡ true
unfolding report_blocks for_tunnel analyze parse_prefix trim classify is_full_tunnel contains_addr
    ranges_intersect sort defaults path_names
home_blocked = refl

abbrev whole_report : Report
unfolding analyze
whole_report = analyze digits to_lower two_tunnels

for_tunnel_blocks_example :
    report_blocks (for_tunnel "home" whole_report)
    ≡ (any
          (λ c. (str_eq c.a "home" || str_eq c.b "home") && is_blocking c.severity)
          whole_report.routes
        || any
            (λ c. (str_eq c.a "home" || str_eq c.b "home") && is_blocking c.severity)
            whole_report.dns)
      || any
          (λ c. (str_eq c.a "home" || str_eq c.b "home") && is_blocking c.severity)
          whole_report.protection
for_tunnel_blocks_example = for_tunnel_blocks "home" whole_report
