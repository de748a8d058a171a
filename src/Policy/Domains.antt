-- ===== src/Policy/Domains.antt =====
-- When AnalyzeDNS (internal/policy/dns.go) reports one domain claimed twice.
use mathlib.Core.Path.{ap₂}
use mathlib.Core.List.{Memᴰ}
use wireguide_plus.Common.{
  ◌≡◌, ◌≢◌, ◌↔◌, refl, sym, ◌∙◌, List, [], ◌∷◌, ◌++◌, Bool, true, false, ◌&&◌, ◌||◌, not, str_eq,
  String, str_eq_refl, any, any-append, arith, if◌then◌else◌, ltb, length,
}
use wireguide_plus.Common.Text.{Text, text_eq}
use wireguide_plus.Common.Order.{any-sort, sort, str_le}
use wireguide_plus.Common.Pairs.{pairs, pairs-Memᴰ, Memᴰ-pairs}
use wireguide_plus.Policy.Ties.{ne-of_str_eq, str_eq_ne, str_eq_comm}
use wireguide_plus.Policy.Report.{TunnelView}
use wireguide_plus.Policy.Dns.{
  DnsConflictKind, DnsConflict, DomainClaim, compare_domains, domains_rest, domains_all, defaults,
  defaults_rest, defaults_all, paths_rest, paths_all, path_defaults, paths_defaults, domain_claims,
  dns_conflicts, dns_le, analyze_dns, path_names, active_after,
}

abbrev overlap_kind : DnsConflictKind → Bool
overlap_kind DnsConflictKind.domain_overlap = true
overlap_kind _ = false

-- The conflict is one of two claims to the same domain.
abbrev pub is_overlap : DnsConflict → Bool
is_overlap c = overlap_kind c.kind

text_eq_iff : (s t : Text) → (text_eq s t ≡ true) ↔ (s ≡ t)
text_eq_iff [] [] = (λ h. refl, λ h. refl)
text_eq_iff [] (d ∷ t) = (λ h. cc, λ h. cc)
text_eq_iff (c ∷ s) [] = (λ h. cc, λ h. cc)
text_eq_iff (c ∷ s) (d ∷ t) =
    let r = text_eq_iff s t in (λ h. ground (arith, r.0), λ h. ground (arith, r.1))

text_eq_comm : (s t : Text) → text_eq s t ≡ text_eq t s
text_eq_comm [] [] = refl
text_eq_comm [] (d ∷ t) = refl
text_eq_comm (c ∷ s) [] = refl
text_eq_comm (c ∷ s) (d ∷ t) = ground (arith, text_eq_comm s t)

abbrev same_domain : DomainClaim → DomainClaim → Bool
same_domain c d = not (str_eq c.0 d.0) && text_eq c.1 d.1

same_domain_irrefl : (c : DomainClaim) → same_domain c c ≡ false
same_domain_irrefl c = ground (arith, str_eq_refl c.0)

same_domain_comm : (c d : DomainClaim) → same_domain c d ≡ same_domain d c
same_domain_comm c d = ap₂ (λ s t. not s && t) (str_eq_comm c.0 d.0) (text_eq_comm c.1 d.1)

compare-overlap : (c d : DomainClaim) → any is_overlap (compare_domains c d) ≡ same_domain c d
unfolding compare_domains
compare-overlap c d = ground arith

rest-overlap :
    (c : DomainClaim) (ds : List DomainClaim)
    → any is_overlap (domains_rest c ds) ≡ any (same_domain c) ds
unfolding domains_rest
rest-overlap c [] = refl
rest-overlap c (d ∷ ds) =
    any-append is_overlap (compare_domains c d) (domains_rest c ds)
    ∙ ap₂ (λ x y. x || y) (compare-overlap c d) (rest-overlap c ds)

all-overlap : (cs : List DomainClaim) → any is_overlap (domains_all cs) ≡ pairs same_domain cs
unfolding domains_all
all-overlap [] = refl
all-overlap (c ∷ cs) =
    any-append is_overlap (domains_rest c cs) (domains_all cs)
    ∙ ap₂ (λ x y. x || y) (rest-overlap c cs) (all-overlap cs)

defaults_rest-overlap :
    (a : String) (bs : List String) → any is_overlap (defaults_rest a bs) ≡ false
unfolding defaults_rest
defaults_rest-overlap a [] = refl
defaults_rest-overlap a (b ∷ bs) = defaults_rest-overlap a bs

defaults_all-overlap : (bs : List String) → any is_overlap (defaults_all bs) ≡ false
unfolding defaults_all
defaults_all-overlap [] = refl
defaults_all-overlap (a ∷ bs) =
    any-append is_overlap (defaults_rest a bs) (defaults_all bs)
    ∙ ap₂ (λ x y. x || y) (defaults_rest-overlap a bs) (defaults_all-overlap bs)

module _ (is_active : String → Bool) where
  paths_rest-overlap :
      (a : String) (bs : List String) → any is_overlap (paths_rest is_active a bs) ≡ false
  unfolding paths_rest
  paths_rest-overlap a [] = refl
  paths_rest-overlap a (b ∷ bs) = paths_rest-overlap a bs

  paths_all-overlap : (bs : List String) → any is_overlap (paths_all is_active bs) ≡ false
  unfolding paths_all
  paths_all-overlap [] = refl
  paths_all-overlap (a ∷ bs) =
      any-append is_overlap (paths_rest is_active a bs) (paths_all is_active bs)
      ∙ ap₂ (λ x y. x || y) (paths_rest-overlap a bs) (paths_all-overlap bs)

  path_defaults-overlap :
      (s : String) (ds : List String) → any is_overlap (path_defaults is_active s ds) ≡ false
  unfolding path_defaults
  path_defaults-overlap s [] = refl
  path_defaults-overlap s (d ∷ ds) = ground (arith, path_defaults-overlap s ds)

  paths_defaults-overlap :
      (ss ds : List String) → any is_overlap (paths_defaults is_active ss ds) ≡ false
  unfolding paths_defaults
  paths_defaults-overlap [] ds = refl
  paths_defaults-overlap (s ∷ ss) ds =
      any-append is_overlap (path_defaults is_active s ds) (paths_defaults is_active ss ds)
      ∙ ap₂ (λ x y. x || y) (path_defaults-overlap s ds) (paths_defaults-overlap ss ds)

or_falses : (b : Bool) → ((b || false) || false) || false ≡ b
or_falses true = refl
or_falses false = refl

overlap_first :
    (u : Bool) (p q r s : List DnsConflict)
    → any is_overlap p ≡ u
    → any is_overlap q ≡ false
    → any is_overlap r ≡ false
    → any is_overlap s ≡ false
    → any is_overlap (p ++ q ++ r ++ s) ≡ u
overlap_first u p q r s a b c d =
    any-append is_overlap (p ++ q ++ r) s
    ∙ ap₂ (λ x y. x || y)
        (any-append is_overlap (p ++ q) r
          ∙ ap₂ (λ x y. x || y) (any-append is_overlap p q ∙ ap₂ (λ x y. x || y) a b) c)
        d
    ∙ or_falses u

-- Two tunnels of different names claim the same domain.
abbrev pub SharesDomain : List DomainClaim → Type 0
SharesDomain cs =
    (c : DomainClaim) × (d : DomainClaim) × Memᴰ c cs × Memᴰ d cs × (c.0 ≢ d.0) × (c.1 ≡ d.1)

module _ (lower : Text → Text) where
  dns_conflicts-overlap :
      (ts : List TunnelView)
      → any is_overlap (dns_conflicts lower ts) ≡ pairs same_domain (domain_claims lower ts)
  unfolding dns_conflicts
  dns_conflicts-overlap ts =
      let up = active_after false ts in
      let paths = sort str_le (path_names ts) in
      let first = domains_all (domain_claims lower ts) in
      let second = if ltb 1 (length (defaults ts)) then defaults_all (defaults ts) else [] in
      let third = paths_all up paths in
      let fourth = paths_defaults up paths (defaults ts) in
      let no_default : any is_overlap second ≡ false =
        ground (arith, defaults_all-overlap (defaults ts)) in
      overlap_first (pairs same_domain (domain_claims lower ts)) first second third fourth
        (all-overlap (domain_claims lower ts)) no_default (paths_all-overlap up paths)
        (paths_defaults-overlap up paths (defaults ts))

  -- AnalyzeDNS reports a domain overlap exactly when two tunnels of different names claim domains
  -- that normalize to the same text.
  pub domain_overlap_iff :
      (tunnels : List TunnelView)
      → (any is_overlap (analyze_dns lower tunnels) ≡ true)
        ↔ SharesDomain (domain_claims lower tunnels)
  unfolding analyze_dns
  domain_overlap_iff tunnels =
      let cs = domain_claims lower tunnels in
      let same =
        any-sort dns_le is_overlap (dns_conflicts lower tunnels) ∙ dns_conflicts-overlap tunnels in
      (
        λ h.
            let r = pairs-Memᴰ same_domain cs (sym same ∙ h) in
            let e : text_eq (r.0).1 (r.1).1 ≡ true = ground (arith, r.4) in
            let f : str_eq (r.0).0 (r.1).0 ≡ false = ground (arith, r.4) in
            (r.0, r.1, r.2, r.3, ne-of_str_eq (r.0).0 (r.1).0 f, (text_eq_iff (r.0).1 (r.1).1).0 e),
        λ (t : SharesDomain cs).
            same
            ∙ Memᴰ-pairs same_domain same_domain_irrefl same_domain_comm t.0 t.1 cs t.2 t.3 (
                ground (arith, str_eq_ne (t.0).0 (t.1).0 t.4, (text_eq_iff (t.0).1 (t.1).1).1 t.5)),
      )
