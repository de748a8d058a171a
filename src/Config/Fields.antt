-- ===== src/Config/Fields.antt =====
-- How Parse of internal/config/parser.go reads the fields that Serialize wrote, kind by kind.
use mathlib.Core.Path.{ap₂}
use mathlib.Core.List.{append_assoc}
use wireguide_plus.Common.{
  ℕ, suc, ◌≡◌, refl, sym, ap, ◌∙◌, [], ◌∷◌, ◌++◌, true, false, ◌||◌, all, arith,
}
use wireguide_plus.Common.Text.{Text, codes, is_space, is_digit}
use wireguide_plus.Config.Model.{InterfaceConfig, WireGuardConfig, empty_config}
use wireguide_plus.Config.Words.{lines}
use wireguide_plus.Config.Parser.{State, Section, ok, ◌>>=◌, scan, assign, parse_interface_key}
use wireguide_plus.Config.Printer.{entry}
use wireguide_plus.Config.Lines.{
  has, has-append, ends_tight, starts_tight, is_clean, is_key, is_clean-parts, is_key-parts, row,
  parse_line-row, lines-row,
}

entry-row : (k v rest : Text) → entry k v ++ rest ≡ row k v ++ (10 ∷ rest)
unfolding entry
entry-row k v rest =
    append_assoc k (codes " = " ++ (v ++ (10 ∷ []))) rest
    ∙ ap (λ t. k ++ (codes " = " ++ t)) (append_assoc v (10 ∷ []) rest)
    ∙ sym (append_assoc k (codes " = " ++ v) (10 ∷ rest))

row-one_line : (k v : Text) → has 10 k ≡ false → has 10 v ≡ false → has 10 (row k v) ≡ false
row-one_line k v h e = has-append 10 k (codes " = " ++ v) ∙ ap₂ (λ x y. x || y) h e

-- Reading the text takes the parser from the one state to the other, whatever follows.
pub record Reads (lower_rune : ℕ → ℕ) (t : Text) (s u : State) : Type 0 where
  pub read :
      (n : ℕ) (rest : Text)
      → (m : ℕ) × (scan lower_rune n (lines (t ++ rest)) s ≡ scan lower_rune m (lines rest) u)

pub Reads-nil : (lower_rune : ℕ → ℕ) (s : State) → Reads lower_rune [] s s
Reads-nil lower_rune s = record { read = λ n rest. (n, refl) }

infixr 3 ◌▸◌
-- One text is read after the other.
pub ◌▸◌ :
    {lower_rune : ℕ → ℕ} {t t' : Text} {s u v : State}
    → Reads lower_rune t s u
    → Reads lower_rune t' u v
    → Reads lower_rune (t ++ t') s v
◌▸◌ {lower_rune} {t} {t'} {s} h k = record {
  read = λ n rest.
      let a = h.read n (t' ++ rest) in
      let b = k.read a.0 rest in
      (b.0, ap (λ l. scan lower_rune n (lines l) s) (append_assoc t t' rest) ∙ a.1 ∙ b.1);
}

abbrev pub at_interface : InterfaceConfig → State
at_interface i = record {
  section = Section.interface;
  config = record empty_config { interface = i };
}

module _ (lower_rune : ℕ → ℕ) where
  pub Reads-entry :
      (k v : Text) (s : State) (c : WireGuardConfig)
      → is_key k ≡ true
      → is_clean v ≡ true
      → ((n : ℕ) → assign lower_rune s.section n k v s.config ≡ ok c)
      → Reads lower_rune (entry k v) s (record s { config = c })
  unfolding scan
  Reads-entry k v s c hk hv step = record {
    read = λ n rest. (
      suc n,
      ap (λ l. scan lower_rune n (lines l) s) (entry-row k v rest)
          ∙ ap (λ l. scan lower_rune n l s)
              (lines-row (row k v) rest
                (row-one_line k v (is_key-parts k hk).5 (is_clean-parts v hv).3))
          ∙ ap (λ r. r >>= λ t. scan lower_rune (suc n) (lines rest) t)
              (parse_line-row lower_rune (suc n) s k v hk hv
                ∙ ap (λ r. r >>= λ d. ok (record s { config = d })) (step (suc n))),
    );
  }

  -- The entry makes the parser set the field.
  abbrev pub Sets : Text → Text → InterfaceConfig → InterfaceConfig → Type 0
  Sets k v i j = (n : ℕ) → parse_interface_key lower_rune k v n i ≡ ok j

  pub interface_entry :
      (k v : Text) (i j : InterfaceConfig)
      → is_key k ≡ true
      → is_clean v ≡ true
      → Sets k v i j
      → Reads lower_rune (entry k v) (at_interface i) (at_interface j)
  unfolding assign
  interface_entry k v i j hk hv set =
      Reads-entry k v (at_interface i) (record empty_config { interface = j }) hk hv
        (λ n. ap (λ r. r >>= λ x. ok (record empty_config { interface = x })) (set n))

digit-is_space : (c : ℕ) → is_digit c ≡ true → is_space c ≡ false
unfolding is_digit is_space
digit-is_space c h = ground arith

digits-ends_tight : (s : Text) → all is_digit s ≡ true → ends_tight s ≡ true
unfolding ends_tight
digits-ends_tight [] h = refl
digits-ends_tight (c ∷ []) h = rw (digit-is_space c (ground arith)) refl
digits-ends_tight (c ∷ d ∷ s) h = digits-ends_tight (d ∷ s) (ground arith)

digits-starts_tight : (s : Text) → all is_digit s ≡ true → starts_tight s ≡ true
unfolding starts_tight
digits-starts_tight [] h = refl
digits-starts_tight (c ∷ s) h = rw (digit-is_space c (ground arith)) refl

digits-has : (c : ℕ) (s : Text) → is_digit c ≡ false → all is_digit s ≡ true → has c s ≡ false
unfolding is_digit
digits-has c [] h k = refl
digits-has c (d ∷ s) h k = ground (arith, digits-has c s)

pub digits-is_clean : (s : Text) → all is_digit s ≡ true → is_clean s ≡ true
unfolding is_clean is_digit
digits-is_clean s h =
    rw (digits-starts_tight s h)
      (rw (digits-ends_tight s h) (rw (digits-has 10 s refl h) (rw (digits-has 0 s refl h) refl)))
