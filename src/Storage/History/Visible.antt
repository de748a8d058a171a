-- ===== src/Storage/History/Visible.antt =====
-- The cache, the file and the deferred writes of internal/storage/history.go.
use wireguide_plus.Common.{
  ◌≡◌, refl, sym, ap, ◌∙◌, List, [], ◌∷◌, ◌++◌, Option, none, some, Bool, true, false, ◌==◌, ==_iff,
  str_eq, if◌then◌else◌, Bool-cases, inl, inr, arith,
}
use wireguide_plus.Storage.History.{
  contents, new_session, Session, HistoryStore, Op, step, load, save, commit, commit_if,
  close_session, close_open, trim_old, trim_sessions,
}
use wireguide_plus.Storage.History.Contents.{effect, or_same}
use wireguide_plus.Storage.History.Contents.{close_open-same}
use wireguide_plus.Storage.History.Contents.{trim_old-same}
use wireguide_plus.Common.{==_iff}

-- The sessions that the next operation sees.
unfoldable pub visible : HistoryStore → List Session
visible h = if h.cache_valid then h.cache else contents h.file

pub load-cache : (renames : Bool) (h : HistoryStore) → (load renames h).cache ≡ visible h
unfolding load visible
load-cache renames h = elim (Bool-cases h.cache_valid) [ inl e ↦ rw e refl | inr e ↦ rw e refl ]

load-valid : (renames : Bool) (h : HistoryStore) → (load renames h).cache_valid ≡ true
unfolding load
load-valid renames h = elim (Bool-cases h.cache_valid) [ inl e ↦ rw e refl | inr e ↦ rw e refl ]

visible-load : (renames : Bool) (h : HistoryStore) → visible (load renames h) ≡ visible h
unfolding visible
visible-load renames h = rw (load-valid renames h) (load-cache renames h)

visible-commit_if :
    (ss : Option (List Session)) (h : HistoryStore)
    → visible (commit_if ss h) ≡ or_same (visible h) ss
unfolding visible commit
visible-commit_if none h = refl
visible-commit_if (some ss) h = refl

-- Every operation does to the sessions that are seen what it does to a list.
pub step-visible :
    (renames : Bool) (op : Op) (h : HistoryStore)
    → visible (step renames op h) ≡ effect op (visible h)
unfolding step effect visible commit save
step-visible renames (Op.record_connect id name now) h =
    ap (λ ss. trim_sessions (ss ++ new_session id name now ∷ [])) (load-cache renames h)
step-visible renames (Op.record_disconnect c) h = elim (Bool-cases (str_eq c.id "")) [
  | inl e ↦ rw e refl
  | inr e ↦
      rw (e, load-cache renames h)
        (visible-commit_if (close_session c (visible h)) (load renames h)
          ∙ ap (λ ss. or_same ss (close_session c (visible h))) (visible-load renames h))
]
step-visible renames (Op.close_open_sessions reason now) h =
    rw (load-cache renames h) (elim (Bool-cases (close_open reason now (visible h)).1) [
      | inl e ↦ rw e refl
      | inr e ↦ rw e (visible-load renames h ∙ sym (close_open-same reason now (visible h) e))
    ])
step-visible renames (Op.trim_by_age max_age now) h = elim (Bool-cases (max_age == 0)) [
  | inl e ↦ rw e refl
  | inr e ↦
      rw (e, load-cache renames h)
        (elim (Bool-cases ((trim_old max_age now (visible h)).1 == 0)) [
          | inl d ↦ rw d (
              visible-load renames h
              ∙ sym (
                  trim_old-same max_age now (visible h)
                    ((==_iff (trim_old max_age now (visible h)).1 0).0 d)))
          | inr d ↦ rw d refl
        ])
]
step-visible renames Op.read h = visible-load renames h
step-visible renames (Op.clear removes) h = refl
step-visible renames (Op.flush true) h = elim (Bool-cases h.cache_valid) [
  | inl e ↦ elim (Bool-cases h.dirty) [ inl d ↦ rw (e, d) refl | inr d ↦ rw d refl ]
  | inr e ↦ rw e (ground arith)
]
step-visible renames (Op.flush false) h = elim (Bool-cases h.cache_valid) [
  | inl e ↦ elim (Bool-cases h.dirty) [ inl d ↦ rw (e, d) refl | inr d ↦ rw d refl ]
  | inr e ↦ rw e (ground arith)
]
step-visible renames (Op.flush_timer_fires true) h = elim (Bool-cases h.cache_valid) [
  | inl e ↦ elim (Bool-cases h.dirty) [ inl d ↦ rw (e, d) refl | inr d ↦ rw d refl ]
  | inr e ↦ rw e (ground arith)
]
step-visible renames (Op.flush_timer_fires false) h = elim (Bool-cases h.cache_valid) [
  | inl e ↦ elim (Bool-cases h.dirty) [ inl d ↦ rw (e, d) refl | inr d ↦ rw d refl ]
  | inr e ↦ rw e (ground arith)
]
