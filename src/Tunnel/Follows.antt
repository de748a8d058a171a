-- ===== src/Tunnel/Follows.antt =====
-- How the calls of phases of internal/tunnel/connect_phases.go follow one another.
use mathlib.Core.List.{append_assoc, append-nil}
use mathlib.Core.Path.{subst}
use wireguide_plus.Common.{
  ◌≡◌, refl, ap, sym, ◌∙◌, List, [], ◌∷◌, ◌++◌, Bool, true, false, ◌⊎◌, inl, inr, Bool-cases, ℕ,
}
use wireguide_plus.Common.Text.{Text}
use wireguide_plus.Config.Model.{WireGuardConfig}
use wireguide_plus.Tunnel.Trace.{
  ErrorKind, Call, Log, Outcome, finished, failed, Phase, ◌>>◌, continue, after,
}
use wireguide_plus.Tunnel.Phases.{World, undo, need, try, when, check_ctx}

pub after-append : (p q l : Log) → after (p ++ q) l ≡ after q (after p l)
after-append [] q l = refl
after-append (x ∷ p) q l = after-append p q (x ∷ l)

-- The calls of a phase that is only run under a test.
abbrev pub only : Bool → Log → Log
only true es = es
only false es = []

module _ (w : World) (c : WireGuardConfig) (full : Bool) (existing : List Text) where
  -- A phase makes the calls `es` in this order, and finishes, or stops after some of them with a
  -- rollback.
  pub record Stopped (es : Log) (l : Log) (r : Outcome) : Type 0 where
    pub made : Log
    pub rest : Log
    pub error : ErrorKind
    pub split : es ≡ made ++ rest
    pub result : r ≡ failed error (undo w c full existing ++ after made l)

  pub record Follows (es : Log) (m : Phase) : Type 0 where
    pub follows : (l : Log) → (m l ≡ finished (after es l)) ⊎ Stopped es l (m l)

module _ {w : World} {c : WireGuardConfig} {full : Bool} {existing : List Text} where
  need_lem :
      (done : Bool) (e : ErrorKind) (call : Call) (l : Log)
      → (need w c full existing done e call l ≡ finished (call ∷ l))
        ⊎ Stopped w c full existing (call ∷ []) l (need w c full existing done e call l)
  unfolding need
  need_lem true e call l = inl refl
  need_lem false e call l =
      inr (record { made = call ∷ []; rest = []; error = e; split = refl; result = refl })

  pub need-Follows :
      (done : Bool) (e : ErrorKind) (call : Call)
      → Follows w c full existing (call ∷ []) (need w c full existing done e call)
  need-Follows done e call = record { follows = need_lem done e call }

  pub check_ctx-Follows : (n : ℕ) → Follows w c full existing [] (check_ctx w c full existing n)
  unfolding check_ctx
  check_ctx-Follows n = record {
    follows = λ l. elim (Bool-cases (w.cancelled_at n)) [
      | inl e ↦ rw e (
          inr (record {
            made = [];
            rest = [];
            error = ErrorKind.cancelled;
            split = refl;
            result = refl;
          }))
      | inr e ↦ rw e (inl refl)
    ];
  }

  Stopped-first :
      (es fs l : Log) (r : Outcome) (k : Phase)
      → Stopped w c full existing es l r
      → Stopped w c full existing (es ++ fs) l (continue r k)
  Stopped-first es fs l r k x = record {
    made = x.made;
    rest = x.rest ++ fs;
    error = x.error;
    split = ap (λ t. t ++ fs) x.split ∙ append_assoc x.made x.rest fs;
    result = ap (λ o. continue o k) x.result;
  }

  Stopped-second :
      (es fs l : Log) (r : Outcome)
      → Stopped w c full existing fs (after es l) r
      → Stopped w c full existing (es ++ fs) l r
  Stopped-second es fs l r x = record {
    made = es ++ x.made;
    rest = x.rest;
    error = x.error;
    split = ap (λ t. es ++ t) x.split ∙ sym (append_assoc es x.made x.rest);
    result =
        x.result
        ∙ ap (λ t. failed x.error (undo w c full existing ++ t)) (sym (after-append es x.made l));
  }

  continue-Follows :
      (es fs l : Log) (r : Outcome) (k : Phase)
      → Follows w c full existing fs k
      → r ≡ finished (after es l)
      → (continue r k ≡ finished (after (es ++ fs) l))
        ⊎ Stopped w c full existing (es ++ fs) l (continue r k)
  continue-Follows es fs l r k hk e = rw e (elim (hk.follows (after es l)) [
    | inl h ↦ inl (h ∙ ap finished (sym (after-append es fs l)))
    | inr x ↦ inr (Stopped-second es fs l (k (after es l)) x)
  ])

  pub seq-Follows :
      {es fs : Log} {m k : Phase}
      → Follows w c full existing es m
      → Follows w c full existing fs k
      → Follows w c full existing (es ++ fs) (m >> k)
  seq-Follows {es} {fs} {m} {k} hm hk = record {
    follows = λ l. elim (hm.follows l) [
      | inl e ↦ continue-Follows es fs l (m l) k hk e
      | inr x ↦ inr (Stopped-first es fs l (m l) k x)
    ];
  }

  pub try-Follows :
      (call : Call) → Follows w c full existing (call ∷ []) (try w c full existing call)
  unfolding try
  try-Follows call = record { follows = λ l. inl refl }

  pub when-Follows :
      {es : Log} {m : Phase} (b : Bool)
      → Follows w c full existing es m
      → Follows w c full existing (only b es) (when w c full existing b m)
  when-Follows true h = h
  when-Follows false h = record { follows = λ l. inl refl }

  pub checked-Follows :
      {es : Log} {m : Phase} (n : ℕ)
      → Follows w c full existing es m
      → Follows w c full existing es (m >> check_ctx w c full existing n)
  checked-Follows {es} {m} n h =
      subst (λ fs. Follows w c full existing fs (m >> check_ctx w c full existing n))
        (append-nil es) (seq-Follows h (check_ctx-Follows n))
