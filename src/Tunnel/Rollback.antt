-- ===== src/Tunnel/Rollback.antt =====
-- What a failed connect of internal/tunnel/connect_phases.go leaves of the system.
use mathlib.Core.Path.{subst}
use wireguide_plus.Common.{
  ◌≡◌, refl, ap, sym, ◌∙◌, List, [], ◌∷◌, ◌++◌, Bool, true, false, ◌&&◌, not, all, any, Bool-cases,
  inl, inr, arith,
}
use wireguide_plus.Common.Text.{Text}
use wireguide_plus.Config.Model.{WireGuardConfig}
use wireguide_plus.Tunnel.Trace.{ErrorKind, Call, Log, Outcome, finished, failed, after}
use wireguide_plus.Tunnel.Phases.{World, undo, connect_phases}
use wireguide_plus.Tunnel.Release.{
  Held, held, opens, saves, enables, adds, configures, plan-opens, held-opened, all-first,
  all-after, unprotected,
}
use wireguide_plus.Tunnel.Plan.{
  plan, Connected, no_engine, all_made, rolled_back, connect_phases-Connected,
}

pub and_false : (b : Bool) → b && false ≡ false
and_false true = refl
and_false false = refl

-- What stays after a rollback: what a release call that fails had to release, and the file.
abbrev pub rest_of : World → Log → Held
rest_of w l = record {
  engine = false;
  protection = not w.disables_protection && any enables l;
  routes = not w.removes_routes && any adds l;
  network = not w.cleans_up && any configures l;
  file = any (saves w) l;
}

failed-inj : {e f : ErrorKind} {k l : Log} → failed e k ≡ failed f l → k ≡ l
failed-inj h = cc

pub finished-inj : {k l : Log} → finished k ≡ finished l → k ≡ l
finished-inj h = cc

module _ (w : World) (c : WireGuardConfig) (full : Bool) (existing : List Text) where
  pub after-opens :
      (made rest : Log)
      → plan w c full existing ≡ made ++ rest
      → all (opens w.has_protector) (after (Call.create_engine ∷ made) []) ≡ true
  after-opens made rest h =
      let p = opens w.has_protector in
      let e : all p made ≡ true =
        all-first p made rest (ap (all p) (sym h) ∙ plan-opens w c full existing) in
      rw (all-after p made (Call.create_engine ∷ []), e) refl

  pub no_protection :
      (l : Log)
      → all (opens w.has_protector) l ≡ true
      → w.has_protector ≡ false
      → any enables l ≡ false
  no_protection l h e = unprotected l (ap (λ b. all (opens b) l) (sym e) ∙ h)

  release :
      (l : Log)
      → all (opens w.has_protector) l ≡ true
      → held w (undo w c full existing ++ l) ≡ rest_of w (undo w c full existing ++ l)
  unfolding held undo
  release l h = elim (Bool-cases w.has_protector) [
    | inl e ↦ rw (e, held-opened w w.has_protector l h) refl
    | inr e ↦
        rw
          (
            e,
            held-opened w w.has_protector l h,
            no_protection l h e,
            and_false (not w.disables_protection),
          )
          refl
  ]

  failed-release :
      (r : Outcome) (e : ErrorKind) (l : Log)
      → Connected w c full existing r
      → r ≡ failed e l
      → held w l ≡ rest_of w l
  unfolding held
  failed-release r e l (no_engine d q) h =
      rw
        (
          sym (failed-inj (sym q ∙ h)),
          and_false (not w.disables_protection),
          and_false (not w.removes_routes),
          and_false (not w.cleans_up),
        )
        refl
  failed-release r e l (all_made d q) h = ground (arith, q, h)
  failed-release r e l (rolled_back made rest f d split q) h =
      subst (λ t. held w t ≡ rest_of w t) (failed-inj (sym q ∙ h))
        (release (after (Call.create_engine ∷ made) []) (after-opens made rest split))

-- A connect that fails, whatever failed, leaves no engine behind. It leaves the protection, the
-- routes and the network settings exactly if it had called for them and the call that releases them,
-- which it makes in every case, fails. It leaves the file for the recovery after a crash exactly if
-- it could write it.
pub failed_connect_releases :
    (w : World) (c : WireGuardConfig) (full : Bool) (existing : List Text) (e : ErrorKind) (l : Log)
    → connect_phases w c full existing [] ≡ failed e l
    → held w l ≡ record {
      engine = false;
      protection = not w.disables_protection && any enables l;
      routes = not w.removes_routes && any adds l;
      network = not w.cleans_up && any configures l;
      file = any (saves w) l;
    }
failed_connect_releases w c full existing e l h =
    failed-release w c full existing (connect_phases w c full existing []) e l
      (connect_phases-Connected w c full existing) h
