-- ===== src/Reconnect/Repair.antt =====
-- Which tunnels the monitor of internal/reconnect/monitor.go reconnects by itself.
use mathlib.Core.List.{Memᴰ}
use wireguide_plus.Common.{
  ℕ, ◌<◌, ◌≡◌, ◌↔◌, refl, sym, ap, ◌∙◌, inl, inr, List, [], ◌∷◌, ◌++◌, Option, some, none, String,
  Bool, true, false, ◌&&◌, str_eq, str_eq_iff, any, any-append, arith, Bool-cases,
}
use wireguide_plus.Reconnect.Health.{
  Status, handshake_stale_threshold, is_connected, age_of, is_old, is_stale, is_dead, name_of,
  triggered, tick, heal_if_needed,
}

triggered-Memᴰ :
    (test : Option Status → Bool) (n : String) (ss : List (Option Status))
    → any (str_eq n) (triggered test ss) ≡ true
    → (s : Status) × Memᴰ (some s) ss × (test (some s) ≡ true) × (n ≡ s.tunnel_name)
unfolding triggered
triggered-Memᴰ test n [] h = cc
triggered-Memᴰ test n (none ∷ ss) h =
    let rest : any (str_eq n) (triggered test ss) ≡ true = ground arith in
    let r = triggered-Memᴰ test n ss rest in (r.0, Memᴰ.tail r.1, r.2, r.3)
triggered-Memᴰ test n (some s ∷ ss) h =
    elim (Bool-cases (test (some s) && str_eq n s.tunnel_name)) [
      | inl e ↦ (s, Memᴰ.head refl, ground arith, (str_eq_iff n s.tunnel_name).0 (ground arith))
      | inr e ↦
          let rest : any (str_eq n) (triggered test ss) ≡ true = ground arith in
          let r = triggered-Memᴰ test n ss rest in (r.0, Memᴰ.tail r.1, r.2, r.3)
    ]

Memᴰ-triggered :
    (test : Option Status → Bool) (n : String) (s : Status) (ss : List (Option Status))
    → Memᴰ (some s) ss
    → test (some s) ≡ true
    → n ≡ s.tunnel_name
    → any (str_eq n) (triggered test ss) ≡ true
unfolding triggered
Memᴰ-triggered test n s [] m h e = elim m [ ]
Memᴰ-triggered test n s (x ∷ ss) (Memᴰ.head q) h e =
    let hit : any (str_eq n) (name_of x ++ triggered test ss) ≡ true =
      ap (λ o. any (str_eq n) (name_of o ++ triggered test ss)) (sym q)
      ∙ rw ((str_eq_iff n s.tunnel_name).1 e) refl in
    rw (ap test (sym q) ∙ h) hit
Memᴰ-triggered test n s (x ∷ ss) (Memᴰ.tail m) h e =
    let ih = Memᴰ-triggered test n s ss m h e in
    elim (Bool-cases (test x)) [
      | inl a ↦ rw a (any-append (str_eq n) (name_of x) (triggered test ss) ∙ rw ih (ground arith))
      | inr a ↦ rw a ih
    ]

-- The tunnel is connected, its automation is on, and the age that counts is above the threshold.
abbrev pub IsStale : (String → Bool) → Status → Type 0
IsStale disabled s =
    (is_connected s.state ≡ true)
    × (disabled s.tunnel_name ≡ false)
    × ((age : ℕ) × (age_of s.handshake_age s.connected_age ≡ some age)
        × (handshake_stale_threshold < age))

old_iff :
    (o : Option ℕ)
    → (is_old o ≡ true) ↔ ((age : ℕ) × (o ≡ some age) × (handshake_stale_threshold < age))
old_iff none = (λ h. cc, λ h. let e = h.1 in cc)
old_iff (some a) = (λ h. (a, refl, ground arith), λ h. ground (arith, h.1, h.2))

IsStale-iff :
    (disabled : String → Bool) (s : Status)
    → (is_stale disabled (some s) ≡ true) ↔ IsStale disabled s
unfolding is_stale
IsStale-iff disabled s =
    let old = old_iff (age_of s.handshake_age s.connected_age) in
    (λ h. (ground arith, ground arith, old.0 (ground arith)), λ h. rw h.0 (rw h.1 (old.1 h.2)))

-- A tick reconnects exactly the tunnels that are stale, when the health check is on and some tunnel
-- is connected: connected, not exempt from automation, and with a last handshake - or, if there was
-- none, a connect - longer ago than the threshold.
pub tick_iff :
    (enabled any_connected : Bool) (disabled : String → Bool) (ss : List (Option Status))
    (n : String)
    → (any (str_eq n) (tick enabled disabled any_connected ss) ≡ true) ↔ (
        (enabled ≡ true)
        × (any_connected ≡ true)
        × ((s : Status) × Memᴰ (some s) ss × IsStale disabled s × (n ≡ s.tunnel_name)))
unfolding tick
tick_iff true true disabled ss n = (
  λ h.
      let r = triggered-Memᴰ (is_stale disabled) n ss h in
      (refl, refl, (r.0, r.1, (IsStale-iff disabled r.0).0 r.2, r.3)),
  λ h.
      let r = h.2 in
      Memᴰ-triggered (is_stale disabled) n r.0 ss r.1 ((IsStale-iff disabled r.0).1 r.2) r.3,
)
tick_iff true false disabled ss n = (λ h. cc, λ h. let e = h.1 in cc)
tick_iff false c disabled ss n = (λ h. cc, λ h. let e = h.0 in cc)

dead-not_disabled :
    (disabled : String → Bool) (s : Status)
    → is_dead disabled (some s) ≡ true
    → disabled s.tunnel_name ≡ false
unfolding is_dead
dead-not_disabled disabled s h = ground arith

no_trigger : (b : Bool) → (b ≡ true → ⊥) → b ≡ false
no_trigger true h = absurd (h refl)
no_trigger false h = refl

-- A tunnel that is exempt from automation is reconnected neither by a tick nor by a session resume.
pub exempt_untouched :
    (enabled any_connected : Bool) (disabled : String → Bool) (ss : List (Option Status))
    (n : String)
    → disabled n ≡ true
    → (any (str_eq n) (tick enabled disabled any_connected ss) ≡ false)
      × (any (str_eq n) (heal_if_needed enabled disabled ss) ≡ false)
unfolding heal_if_needed
exempt_untouched enabled any_connected disabled ss n exempt = (
  no_trigger _ (λ h.
      let r = ((tick_iff enabled any_connected disabled ss n).0 h).2 in
      let e = sym exempt ∙ ap disabled r.3 ∙ (r.2).1 in cc),
  healed enabled disabled ss n exempt,
)
  where
    healed :
        (b : Bool) (disabled : String → Bool) (ss : List (Option Status)) (n : String)
        → disabled n ≡ true
        → any (str_eq n) (heal_if_needed b disabled ss) ≡ false
    healed false disabled ss n exempt = refl
    healed true disabled ss n exempt = no_trigger _ (λ h.
        let r = triggered-Memᴰ (is_dead disabled) n ss h in
        let e = sym exempt ∙ ap disabled r.3 ∙ dead-not_disabled disabled r.0 r.2 in cc)
