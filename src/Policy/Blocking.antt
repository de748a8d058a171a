-- ===== src/Policy/Blocking.antt =====
-- When the report of internal/policy/policy.go for one tunnel blocks it.
use wireguide_plus.Common.{
  ◌≡◌, refl, ap, ◌∙◌, String, List, [], ◌∷◌, Bool, true, false, ◌&&◌, ◌||◌, any, str_eq, ltb, arith,
  if◌then◌else◌,
}
use wireguide_plus.Policy.Report.{Severity, info, warning, blocking, rank}
use wireguide_plus.Policy.Ties.{is_blocking, is_blocking_step, or_assoc}
use wireguide_plus.Policy.Analysis.{
  Report, kept_for, worst_of, for_tunnel, report_severity, report_blocks,
}

any-kept_for :
    {A : Type 0} (a b : A → String) (p : A → Bool) (name : String) (cs : List A)
    → any p (kept_for a b name cs) ≡ any (λ c. (str_eq (a c) name || str_eq (b c) name) && p c) cs
unfolding kept_for
any-kept_for a b p name [] = refl
any-kept_for a b p name (c ∷ cs) = ground (arith, any-kept_for a b p name cs)

-- The worst severity is "blocking" when one of them is.
worst_of_lem :
    {A : Type 0} (f : A → Severity) (s : Severity) (cs : List A)
    → is_blocking (worst_of f s cs) ≡ is_blocking s || any (λ c. is_blocking (f c)) cs
unfolding worst_of
worst_of_lem f s [] = ground arith
worst_of_lem f s (c ∷ cs) =
    let next = if ltb (rank s) (rank (f c)) then f c else s in
    let rest = any (λ d. is_blocking (f d)) cs in
    worst_of_lem f next cs
    ∙ ap (λ b. b || rest) (is_blocking_step s (f c))
    ∙ or_assoc (is_blocking s) (is_blocking (f c)) rest

report_blocks_lem : (r : Report) → report_blocks r ≡ is_blocking (report_severity r)
unfolding report_blocks
report_blocks_lem r = by_severity (report_severity r)
  where
    by_severity : (s : Severity) → elim s [ blocking ↦ true | _ ↦ false ] ≡ is_blocking s
    by_severity blocking = refl
    by_severity warning = refl
    by_severity info = refl

report_severity-blocks :
    (r : Report)
    → is_blocking (report_severity r)
      ≡ (any (λ c. is_blocking c.severity) r.routes || any (λ c. is_blocking c.severity) r.dns)
        || any (λ c. is_blocking c.severity) r.protection
unfolding report_severity
report_severity-blocks r =
    let first = worst_of (λ c. c.severity) info r.routes in
    let second = worst_of (λ c. c.severity) first r.dns in
    worst_of_lem (λ c. c.severity) second r.protection
    ∙ ap (λ b. b || any (λ c. is_blocking c.severity) r.protection)
        (worst_of_lem (λ c. c.severity) first r.dns
          ∙ ap (λ b. b || any (λ c. is_blocking c.severity) r.dns)
              (worst_of_lem (λ c. c.severity) info r.routes))

-- The report for one tunnel blocks it exactly when the whole report has a blocking conflict of
-- routes, of names or of protection that names the tunnel on either side.
pub for_tunnel_blocks :
    (name : String) (r : Report)
    → report_blocks (for_tunnel name r)
      ≡ (any (λ c. (str_eq c.a name || str_eq c.b name) && is_blocking c.severity) r.routes
          || any (λ c. (str_eq c.a name || str_eq c.b name) && is_blocking c.severity) r.dns)
        || any (λ c. (str_eq c.a name || str_eq c.b name) && is_blocking c.severity) r.protection
unfolding for_tunnel
for_tunnel_blocks name r =
    report_blocks_lem (for_tunnel name r)
    ∙ report_severity-blocks (for_tunnel name r)
    ∙ rw
        (
          any-kept_for (λ c. c.a) (λ c. c.b) (λ c. is_blocking c.severity) name r.routes,
          any-kept_for (λ c. c.a) (λ c. c.b) (λ c. is_blocking c.severity) name r.dns,
          any-kept_for (λ c. c.a) (λ c. c.b) (λ c. is_blocking c.severity) name r.protection,
        )
        refl
