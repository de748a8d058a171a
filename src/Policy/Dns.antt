-- ===== src/Policy/Dns.antt =====
-- internal/policy/dns.go: AnalyzeDNS. Domains are texts, and the texts of messages are left out.
use wireguide_plus.Common.{
  List, [], ◌∷◌, ◌++◌, String, Bool, false, ◌&&◌, ◌||◌, not, str_eq, ltb, ◌==◌, if◌then◌else◌,
  length, is_empty,
}
use wireguide_plus.Common.Text.{text_eq, has_suffix, Text, codes, trim}
use wireguide_plus.Common.Order.{sort, str_le}
use wireguide_plus.Policy.Report.{TunnelView, Severity, info, blocking}

pub data DnsConflictKind : Type 0 where
  domain_overlap domain_contained default_dns resolve_path resolve_path_vs_default : DnsConflictKind

unfoldable pub kind_name : DnsConflictKind → String
kind_name DnsConflictKind.domain_overlap = "domain_overlap"
kind_name DnsConflictKind.domain_contained = "domain_contained"
kind_name DnsConflictKind.default_dns = "default_dns_multiple"
kind_name DnsConflictKind.resolve_path = "dns_resolve_path_multiple"
kind_name DnsConflictKind.resolve_path_vs_default = "dns_resolve_path_vs_default_dns"

pub record DnsConflict : Type 0 where
  pub a : String
  pub b : String
  pub domain : Text
  pub other : Text
  pub kind : DnsConflictKind
  pub severity : Severity

-- A domain with the tunnel that claims it.
abbrev pub DomainClaim : Type 0
DomainClaim = String × Text

-- strings.TrimSuffix of "."
unfoldable pub trim_dot : Text → Text
trim_dot [] = []
trim_dot (c ∷ s) = let rest = trim_dot s in if is_empty s && (c == b'.') then [] else c ∷ rest

-- strings.TrimPrefix of "*."
unfoldable pub trim_star : Text → Text
trim_star (c ∷ d ∷ s) = if (c == b'*') && (d == b'.') then s else c ∷ d ∷ s
trim_star s = s

-- domainContains
unfoldable pub domain_contains : Text → Text → Bool
unfolding has_suffix
domain_contains outer inner = if text_eq outer inner then false else has_suffix inner (b'.' ∷ outer)

abbrev pub two_domains :
    String → String → Text → Text → DnsConflictKind → Severity → List DnsConflict
two_domains a b domain other kind severity =
    record { a = a; b = b; domain = domain; other = other; kind = kind; severity = severity } ∷ []

-- One pair of the double loop over the domains.
unfoldable pub compare_domains : DomainClaim → DomainClaim → List DnsConflict
unfolding domain_contains
compare_domains c d =
    if str_eq c.0 d.0
    then []
    else if text_eq c.1 d.1
    then two_domains c.0 d.0 c.1 [] DnsConflictKind.domain_overlap blocking
    else if domain_contains c.1 d.1
    then two_domains c.0 d.0 d.1 c.1 DnsConflictKind.domain_contained info
    else if domain_contains d.1 c.1
    then two_domains c.0 d.0 c.1 d.1 DnsConflictKind.domain_contained info
    else []

unfoldable pub domains_rest : DomainClaim → List DomainClaim → List DnsConflict
domains_rest c [] = []
domains_rest c (d ∷ ds) = compare_domains c d ++ domains_rest c ds

unfoldable pub domains_all : List DomainClaim → List DnsConflict
domains_all [] = []
domains_all (c ∷ cs) = domains_rest c cs ++ domains_all cs

-- The names of the tunnels with Use As Default DNS, sorted if there are several.
unfoldable pub default_names : List TunnelView → List String
default_names [] = []
default_names (t ∷ ts) =
    if t.use_as_default_dns then t.name ∷ default_names ts else default_names ts

unfoldable pub defaults : List TunnelView → List String
unfolding default_names
defaults ts =
    if ltb 1 (length (default_names ts)) then sort str_le (default_names ts) else default_names ts

unfoldable pub defaults_rest : String → List String → List DnsConflict
defaults_rest a [] = []
defaults_rest a (b ∷ bs) =
    two_domains a b [] [] DnsConflictKind.default_dns blocking ++ defaults_rest a bs

unfoldable pub defaults_all : List String → List DnsConflict
unfolding defaults_rest
defaults_all [] = []
defaults_all (a ∷ bs) = defaults_rest a bs ++ defaults_all bs

-- The map `active`, read at a name: the last tunnel of that name decides.
unfoldable pub active_after : Bool → List TunnelView → String → Bool
active_after up [] name = up
active_after up (t ∷ ts) name = active_after (if str_eq t.name name then t.active else up) ts name

unfoldable pub path_names : List TunnelView → List String
path_names [] = []
path_names (t ∷ ts) = if t.dns_resolve_path then t.name ∷ path_names ts else path_names ts

module _ (is_active : String → Bool) where
  unfoldable pub paths_rest : String → List String → List DnsConflict
  paths_rest a [] = []
  paths_rest a (b ∷ bs) =
      two_domains a b [] [] DnsConflictKind.resolve_path
        (if is_active a && is_active b then blocking else info)
      ++ paths_rest a bs

  unfoldable pub paths_all : List String → List DnsConflict
  unfolding paths_rest
  paths_all [] = []
  paths_all (a ∷ bs) = paths_rest a bs ++ paths_all bs

  -- The inner loop over the default resolvers.
  unfoldable pub path_defaults : String → List String → List DnsConflict
  path_defaults s [] = []
  path_defaults s (d ∷ ds) =
      let rest = path_defaults s ds in
      if str_eq s d
      then rest
      else two_domains s d [] [] DnsConflictKind.resolve_path_vs_default
          (if is_active s || is_active d then blocking else info)
        ++ rest

  unfoldable pub paths_defaults : List String → List String → List DnsConflict
  unfolding path_defaults
  paths_defaults [] ds = []
  paths_defaults (s ∷ ss) ds = path_defaults s ds ++ paths_defaults ss ds

-- The order of the last sort: the kind's name, A, B. It leaves conflicts with the same three in
-- their order here, where sort.Slice may exchange them.
unfoldable pub dns_le : DnsConflict → DnsConflict → Bool
unfolding kind_name
dns_le x y =
    if not (str_eq (kind_name x.kind) (kind_name y.kind))
    then str_le (kind_name x.kind) (kind_name y.kind)
    else if not (str_eq x.a y.a)
    then str_le x.a y.a
    else str_le x.b y.b

-- `lower` is strings.ToLower.
module _ (lower : Text → Text) where
  unfoldable pub normalize_domain : Text → Text
  unfolding trim_dot trim_star
  normalize_domain d = trim_star (trim_dot (lower (trim d)))

  abbrev pub own_domains : String → List String → List DomainClaim
  own_domains name [] = []
  own_domains name (d ∷ ds) =
      let norm = normalize_domain (codes d) in
      if is_empty norm then own_domains name ds else (name, norm) ∷ own_domains name ds

  unfoldable pub domain_claims : List TunnelView → List DomainClaim
  unfolding normalize_domain
  domain_claims [] = []
  domain_claims (t ∷ ts) = own_domains t.name t.domains ++ domain_claims ts

  -- AnalyzeDNS before its last sort.
  unfoldable pub dns_conflicts : List TunnelView → List DnsConflict
  unfolding domain_claims domains_all paths_all paths_defaults defaults_all
  dns_conflicts ts =
      let is_active = active_after false ts in
      let paths = sort str_le (path_names ts) in
      domains_all (domain_claims ts)
      ++ (if ltb 1 (length (defaults ts)) then defaults_all (defaults ts) else [])
      ++ paths_all is_active paths
      ++ paths_defaults is_active paths (defaults ts)

  unfoldable pub analyze_dns : List TunnelView → List DnsConflict
  unfolding dns_conflicts dns_le
  analyze_dns ts = sort dns_le (dns_conflicts ts)
