-- ===== src/Endpoint/Fastest.antt =====
-- What Better of internal/endpoint/pick.go finds in a list of measurements.
use mathlib.Core.Path.{subst}
use wireguide_plus.Common.Text.{Text, text_eq}
use wireguide_plus.Common.{
  ◌≡◌, refl, ap, ◌∙◌, List, [], ◌∷◌, ◌++◌, Option, none, some, Bool, true, false, ◌&&◌, not, ◌⊎◌,
  inl, inr, All, Bool-cases, if◌then◌else◌,
}
use wireguide_plus.Endpoint.Pick.{
  Float, Measurement, Scan, answers, faster, scan_one, scan_measurements,
}

-- The order of the latencies is one of float64 without NaN.
pub record IsOrdered {F : Type 0} (float : Float F) : Type 0 where
  pub trans : (a b c : F) → float.lt a b ≡ true → float.lt b c ≡ true → float.lt a c ≡ true
  -- What is before `b`, which is not after `c`, is before `c`.
  pub weak : (a b c : F) → float.lt a b ≡ true → float.lt c b ≡ false → float.lt a c ≡ true

module _ {F : Type 0} (float : Float F) where
  -- An address other than the current one that is reachable, with a latency above zero.
  abbrev pub is_other : Text → Measurement F → Bool
  is_other current m =
      not (text_eq m.address current) && (m.reachable && float.lt float.zero m.latency_ms)

  -- The other address that answers first of the fastest ones: `before` are all slower, and `after`
  -- none is faster.
  pub record FirstFastest (current : Text) (ms : List (Measurement F)) (f : Measurement F)
      : Type 0 where
    pub before : List (Measurement F)
    pub after : List (Measurement F)
    pub whole : ms ≡ before ++ f ∷ after
    pub other : is_other current f ≡ true
    pub slower :
        All (λ m. is_other current m ≡ true → float.lt f.latency_ms m.latency_ms ≡ true) before
    pub not_faster :
        All (λ m. is_other current m ≡ true → float.lt m.latency_ms f.latency_ms ≡ false) after

  -- The last measurement of the current address.
  abbrev pub last_of : Text → Option (Measurement F) → List (Measurement F) → Option (Measurement F)
  last_of current o [] = o
  last_of current o (m ∷ ms) = last_of current (if text_eq m.address current then some m else o) ms

  kept-current :
      (s : Scan float) (o : Option (Measurement F)) (b : Bool)
      → (if b then record s { fallback = o } else s).current_ms ≡ s.current_ms
  kept-current s o true = refl
  kept-current s o false = refl

  scan_one-current_ms :
      (current : Text) (s : Scan float) (m : Measurement F)
      → (scan_one float current s m).current_ms
        ≡ (if text_eq m.address current then some m else s.current_ms)
  unfolding scan_one
  scan_one-current_ms current s m = elim (Bool-cases (text_eq m.address current)) [
    | inl e ↦ rw e refl
    | inr e ↦ rw e (kept-current s (some m) (answers float m && faster float m s.fallback))
  ]

  scan_one-fallback :
      (current : Text) (s : Scan float) (m : Measurement F)
      → (scan_one float current s m).fallback
        ≡ (if is_other current m && faster float m s.fallback then some m else s.fallback)
  unfolding scan_one answers
  scan_one-fallback current s m = elim (Bool-cases (text_eq m.address current)) [
    | inl e ↦ rw e refl
    | inr e ↦ elim (Bool-cases (answers float m && faster float m s.fallback)) [
      | inl g ↦ rw (e, g) refl
      | inr g ↦ rw (e, g) refl
    ]
  ]

  pub scan_measurements-current_ms :
      (current : Text) (s : Scan float) (ms : List (Measurement F))
      → (scan_measurements float current s ms).current_ms ≡ last_of current s.current_ms ms
  unfolding scan_measurements
  scan_measurements-current_ms current s [] = refl
  scan_measurements-current_ms current s (m ∷ ms) =
      scan_measurements-current_ms current (scan_one float current s m) ms
      ∙ ap (λ o. last_of current o ms) (scan_one-current_ms current s m)

  -- Among more measurements the fallback stays, or one that is faster takes its place.
  pub record Replaced (current : Text) (a : Option (Measurement F)) (ms : List (Measurement F))
      (r : Option (Measurement F)) : Type 0 where
    pub f : Measurement F
    pub found : r ≡ some f
    pub first : FirstFastest current ms f
    pub beats : faster float f a ≡ true

  abbrev pub Kept :
      Text → Option (Measurement F) → List (Measurement F) → Option (Measurement F) → Type 0
  Kept current a ms r = (r ≡ a) × All (λ m. is_other current m ≡ true → faster float m a ≡ false) ms

  faster-both :
      (ord : IsOrdered float) (f m : Measurement F) (a : Option (Measurement F))
      → float.lt f.latency_ms m.latency_ms ≡ true
      → faster float m a ≡ true
      → faster float f a ≡ true
  faster-both ord f m none h k = refl
  faster-both ord f m (some a) h k = ord.trans f.latency_ms m.latency_ms a.latency_ms h k

  slower-than :
      (ord : IsOrdered float) (f m : Measurement F) (a : Option (Measurement F))
      → faster float f a ≡ true
      → faster float m a ≡ false
      → float.lt f.latency_ms m.latency_ms ≡ true
  slower-than ord f m none h k = cc
  slower-than ord f m (some a) h k = ord.weak f.latency_ms a.latency_ms m.latency_ms h k

  abbrev pub Outcome :
      Text → List (Measurement F) → Option (Measurement F) → Option (Measurement F) → Type 0
  Outcome current ms r a = Kept current a ms r ⊎ Replaced current a ms r

  and-true : (b c : Bool) → b && c ≡ true → (b ≡ true) × (c ≡ true)
  and-true true c h = (refl, h)
  and-true false c h = cc

  and-false : (b c : Bool) → b && c ≡ false → b ≡ true → c ≡ false
  and-false true c h k = h
  and-false false c h k = cc

  take-step :
      (ord : IsOrdered float) (current : Text) (a : Option (Measurement F)) (m : Measurement F)
      (ms : List (Measurement F)) (r : Option (Measurement F))
      → is_other current m ≡ true
      → faster float m a ≡ true
      → Kept current (some m) ms r ⊎ Replaced current (some m) ms r
      → Replaced current a (m ∷ ms) r
  take-step ord current a m ms r h k (inl (e, hs)) = record {
    f = m;
    found = e;
    first = record {
      before = [];
      after = ms;
      whole = refl;
      other = h;
      slower = tt;
      not_faster = hs;
    };
    beats = k;
  }
  take-step ord current a m ms r h k (inr x) = record {
    f = x.f;
    found = x.found;
    first = record {
      before = m ∷ x.first.before;
      after = x.first.after;
      whole = ap (λ t. m ∷ t) x.first.whole;
      other = x.first.other;
      slower = (λ o. x.beats, x.first.slower);
      not_faster = x.first.not_faster;
    };
    beats = faster-both ord x.f m a x.beats k;
  }

  pass-step :
      (ord : IsOrdered float) (current : Text) (a : Option (Measurement F)) (m : Measurement F)
      (ms : List (Measurement F)) (r : Option (Measurement F))
      → (is_other current m ≡ true → faster float m a ≡ false)
      → Kept current a ms r ⊎ Replaced current a ms r
      → Kept current a (m ∷ ms) r ⊎ Replaced current a (m ∷ ms) r
  pass-step ord current a m ms r h (inl (e, hs)) = inl (e, (h, hs))
  pass-step ord current a m ms r h (inr x) = inr (record {
    f = x.f;
    found = x.found;
    first = record {
      before = m ∷ x.first.before;
      after = x.first.after;
      whole = ap (λ t. m ∷ t) x.first.whole;
      other = x.first.other;
      slower = (λ o. slower-than ord x.f m a x.beats (h o), x.first.slower);
      not_faster = x.first.not_faster;
    };
    beats = x.beats;
  })

  pub scan_measurements-fallback :
      (ord : IsOrdered float) (current : Text) (s : Scan float) (ms : List (Measurement F))
      → Kept current s.fallback ms (scan_measurements float current s ms).fallback
        ⊎ Replaced current s.fallback ms (scan_measurements float current s ms).fallback
  unfolding scan_measurements
  scan_measurements-fallback ord current s [] = inl (refl, tt)
  scan_measurements-fallback ord current s (m ∷ ms) =
      let next = scan_one float current s m in
      let r = (scan_measurements float current next ms).fallback in
      let e = scan_one-fallback current s m in
      let rest = scan_measurements-fallback ord current next ms in
      elim (Bool-cases (is_other current m && faster float m s.fallback)) [
        | inl g ↦
            let both = and-true (is_other current m) (faster float m s.fallback) g in
            inr (
              take-step ord current s.fallback m ms r both.0 both.1 (
                subst (Outcome current ms r) (e ∙ ap (λ b. if b then some m else s.fallback) g)
                  rest))
        | inr g ↦
            pass-step ord current s.fallback m ms r
              (and-false (is_other current m) (faster float m s.fallback) g)
              (subst (Outcome current ms r) (e ∙ ap (λ b. if b then some m else s.fallback) g) rest)
      ]
