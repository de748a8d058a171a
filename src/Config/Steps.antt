-- ===== src/Config/Steps.antt =====
-- How parseInterfaceKey of internal/config/parser.go reads each kind of field back.
use mathlib.Core.Path.{ap₂}
use mathlib.Core.List.{append_assoc, append-nil}
use wireguide_plus.Common.{
  ℕ, zero, suc, ◌^◌, ◌<◌, ◌≡◌, refl, sym, ap, ◌∙◌, inl, inr, List, [], ◌∷◌, ◌++◌, Bool, true, false,
  ◌&&◌, not, ◌==◌, is_empty, all, any, arith, Bool-cases,
}
use wireguide_plus.Common.Int.{ℤ, pos, negsuc}
use wireguide_plus.Common.Text.{Text, codes, atoi, text_eq}
use wireguide_plus.Config.Model.{InterfaceConfig, ExtraKeys}
use wireguide_plus.Config.Words.{split, join, itoa, push}
use wireguide_plus.Config.Parser.{
  ok, ◌>>=◌, bad_number, number_or, split_and_trim, append_script_line, put_key,
  parse_interface_key,
}
use wireguide_plus.Config.Printer.{
  entry, text_entry, list_entry, number_entry, part_entries, script_entries, extra_entries,
}
use wireguide_plus.Config.Lines.{is_clean, is_key}
use wireguide_plus.Config.Items.{is_item, split_and_trim-join, is_clean-join}
use wireguide_plus.Config.Numbers.{atoi-itoa, itoa-digits}
use wireguide_plus.Config.Fields.{
  Reads, Reads-nil, ◌▸◌, at_interface, Sets, interface_entry, digits-is_clean,
}
use wireguide_plus.Common.{==_iff}
use mathlib.Core.Path.{subst}
use wireguide_plus.Config.Parser.{State}

-- A number that strconv.Atoi can read back.
abbrev pub IsCount : ℤ → Type 0
IsCount (pos n) = n < 2 ^ 63
IsCount (negsuc n) = ⊥

-- The parts of a script, and what stands for them in a field.
abbrev pub rejoin : Text → List Text → Text
rejoin e [] = e
rejoin e (p ∷ ps) = rejoin (append_script_line e p) ps

abbrev starts_nul : Text → Bool
starts_nul [] = false
starts_nul (c ∷ s) = c == 0

-- A script field: its parts are clean, and the first one is not empty.
unfoldable pub is_script : Text → Bool
unfolding is_clean split
is_script v = not (starts_nul v) && all is_clean (split 0 v)

module _ (lower_rune : ℕ → ℕ) where
  pub text_step :
      (k v : Text) (set : Text → InterfaceConfig)
      → is_key k ≡ true
      → is_clean v ≡ true
      → ((w : Text) → Sets lower_rune k w (set []) (set w))
      → Reads lower_rune (text_entry k v) (at_interface (set [])) (at_interface (set v))
  unfolding text_entry
  text_step k [] set hk hv s = Reads-nil lower_rune (at_interface (set []))
  text_step k (c ∷ v) set hk hv s =
      interface_entry lower_rune k (c ∷ v) (set []) (set (c ∷ v)) hk hv (s (c ∷ v))

  pub list_step :
      (k : Text) (vs : List Text) (set : List Text → InterfaceConfig)
      → is_key k ≡ true
      → all is_item vs ≡ true
      → ((w : Text) → Sets lower_rune k w (set []) (set (split_and_trim w)))
      → Reads lower_rune (list_entry k vs) (at_interface (set [])) (at_interface (set vs))
  unfolding list_entry
  list_step k [] set hk hv s = Reads-nil lower_rune (at_interface (set []))
  list_step k (v ∷ vs) set hk hv s =
      let joined = join (codes ", ") (v ∷ vs) in
      let e = split_and_trim-join v vs (ground arith) (ground arith) in
      let clean = is_clean-join v vs (ground arith) (ground arith) in
      interface_entry lower_rune k joined (set []) (set (v ∷ vs)) hk clean.0
        (λ n. s joined n ∙ ap (λ x. ok (set x)) e)

  pub number_step :
      (k : Text) (z : ℤ) (set : ℤ → InterfaceConfig)
      → is_key k ≡ true
      → IsCount z
      → ((w : Text) (n : ℕ)
          → parse_interface_key lower_rune k w n (set (pos 0))
            ≡ (number_or (bad_number n k w) (atoi w) >>= λ x. ok (set x)))
      → Reads lower_rune (number_entry k z) (at_interface (set (pos 0))) (at_interface (set z))
  unfolding number_entry
  number_step k (pos zero) set hk h s = Reads-nil lower_rune (at_interface (set (pos 0)))
  number_step k (pos (suc n)) set hk h s =
      let w = itoa (pos (suc n)) in
      interface_entry lower_rune k w (set (pos 0)) (set (pos (suc n))) hk
        (digits-is_clean w (itoa-digits (suc n)).0)
        (λ l.
          s w l
          ∙ ap (λ o. number_or (bad_number l k w) o >>= λ x. ok (set x)) (atoi-itoa (suc n) h))
  number_step k (negsuc n) set hk h s = absurd h

  pub part_steps :
      (k : Text) (ps : List Text) (e : Text) (set : Text → InterfaceConfig)
      → is_key k ≡ true
      → all is_clean ps ≡ true
      → ((e w : Text) → Sets lower_rune k w (set e) (set (append_script_line e w)))
      → Reads lower_rune
          (part_entries k ps)
          (at_interface (set e))
          (at_interface (set (rejoin e ps)))
  unfolding part_entries
  part_steps k [] e set hk hv s = Reads-nil lower_rune (at_interface (set e))
  part_steps k (p ∷ ps) e set hk hv s =
      interface_entry lower_rune k p (set e) (set (append_script_line e p)) hk (ground arith)
        (s e p)
      ▸ part_steps k ps (append_script_line e p) set hk (ground arith) s

-- Joining the parts again gives the script.
abbrev glue : Text → List Text → Text
glue e [] = e
glue e (p ∷ ps) = glue (e ++ (0 ∷ p)) ps

rejoin-glue : (e : Text) (ps : List Text) → is_empty e ≡ false → rejoin e ps ≡ glue e ps
unfolding append_script_line
rejoin-glue [] ps h = cc
rejoin-glue (c ∷ e) [] h = refl
rejoin-glue (c ∷ e) (p ∷ ps) h = rejoin-glue ((c ∷ e) ++ (0 ∷ p)) ps refl

glue-append : (a b : Text) (ps : List Text) → glue (a ++ b) ps ≡ a ++ glue b ps
glue-append a b [] = refl
glue-append a b (p ∷ ps) =
    ap (λ t. glue t ps) (append_assoc a b (0 ∷ p)) ∙ glue-append a (b ++ (0 ∷ p)) ps

abbrev glue_all : List Text → Text
glue_all [] = []
glue_all (p ∷ ps) = glue p ps

glue_all-push :
    (c : ℕ) (ps : List Text) → is_empty ps ≡ false → glue_all (push c ps) ≡ c ∷ glue_all ps
glue_all-push c [] h = cc
glue_all-push c (p ∷ ps) h = glue-append (c ∷ []) p ps

push-ne-nil : (c : ℕ) (ps : List Text) → is_empty (push c ps) ≡ false
push-ne-nil c [] = refl
push-ne-nil c (p ∷ ps) = refl

split-ne-nil : (v : Text) → is_empty (split 0 v) ≡ false
unfolding split
split-ne-nil [] = refl
split-ne-nil (c ∷ v) = ground (arith, push-ne-nil c (split 0 v))

glue_all-nil : (ps : List Text) → is_empty ps ≡ false → glue_all ([] ∷ ps) ≡ 0 ∷ glue_all ps
glue_all-nil [] h = cc
glue_all-nil (p ∷ ps) h = glue-append (0 ∷ []) p ps

glue_all-split : (v : Text) → glue_all (split 0 v) ≡ v
unfolding split
glue_all-split [] = refl
glue_all-split (c ∷ v) = elim (Bool-cases (c == 0)) [
  | inl e ↦ rw e (
      glue_all-nil (split 0 v) (split-ne-nil v)
      ∙ ap₂ ◌∷◌ (sym ((==_iff c 0).0 e)) (glue_all-split v))
  | inr e ↦ rw e (glue_all-push c (split 0 v) (split-ne-nil v) ∙ ap (λ t. c ∷ t) (glue_all-split v))
]

rejoin-push :
    (c : ℕ) (ps : List Text) → is_empty ps ≡ false → rejoin [] (push c ps) ≡ glue_all (push c ps)
unfolding append_script_line
rejoin-push c [] h = cc
rejoin-push c (p ∷ ps) h = rejoin-glue (c ∷ p) ps refl

rejoin-split : (c : ℕ) (v : Text) → (c == 0) ≡ false → rejoin [] (split 0 (c ∷ v)) ≡ c ∷ v
unfolding split
rejoin-split c v h = rw h (
    rejoin-push c (split 0 v) (split-ne-nil v)
    ∙ glue_all-push c (split 0 v) (split-ne-nil v)
    ∙ ap (λ t. c ∷ t) (glue_all-split v))

module _ (lower_rune : ℕ → ℕ) where
  pub script_step :
      (k v : Text) (set : Text → InterfaceConfig)
      → is_key k ≡ true
      → is_script v ≡ true
      → ((e w : Text) → Sets lower_rune k w (set e) (set (append_script_line e w)))
      → Reads lower_rune (script_entries k v) (at_interface (set [])) (at_interface (set v))
  unfolding script_entries is_script
  script_step k [] set hk hv s = Reads-nil lower_rune (at_interface (set []))
  script_step k (c ∷ v) set hk hv s =
      let whole = rejoin-split c v (ground arith) in
      let steps = part_steps lower_rune k (split 0 (c ∷ v)) [] set hk (ground arith) s in
      subst
        (λ t.
          Reads lower_rune (part_entries k (split 0 (c ∷ v))) (at_interface (set []))
            (at_interface (set t)))
        whole steps

-- The extra keys of a section: clean, unknown to the parser, and each one new.
unfoldable pub are_extras : (Text → Bool) → ExtraKeys → ExtraKeys → Bool
unfolding is_key is_clean
are_extras unknown e [] = true
are_extras unknown e ((k, v) ∷ m) =
    is_key k
    && is_clean v
    && unknown k
    && not (any (λ p. text_eq p.0 k) e)
    && are_extras unknown (e ++ ((k, v) ∷ [])) m

pub put_key-new :
    (k v : Text) (e : ExtraKeys)
    → any (λ p. text_eq p.0 k) e ≡ false
    → put_key k v e ≡ e ++ ((k, v) ∷ [])
unfolding put_key
put_key-new k v [] h = refl
put_key-new k v ((j, w) ∷ e) h = ground (arith, put_key-new k v e)

extra-facts :
    (a b c d e : Bool)
    → a && b && c && not d && e ≡ true
    → (a ≡ true) × (b ≡ true) × (c ≡ true) × (d ≡ false) × (e ≡ true)
extra-facts a b c d e h = ground arith

pub extra_steps :
    (lower_rune : ℕ → ℕ) (unknown : Text → Bool) (at : ExtraKeys → State) (e m : ExtraKeys)
    → ((k v : Text) (e : ExtraKeys)
        → is_key k ≡ true
        → is_clean v ≡ true
        → unknown k ≡ true
        → Reads lower_rune (entry k v) (at e) (at (put_key k v e)))
    → are_extras unknown e m ≡ true
    → Reads lower_rune (extra_entries m) (at e) (at (e ++ m))
unfolding extra_entries are_extras
extra_steps lower_rune unknown at e [] s h =
    subst (λ x. Reads lower_rune [] (at e) (at x)) (sym (append-nil e))
      (Reads-nil lower_rune (at e))
extra_steps lower_rune unknown at e ((k, v) ∷ m) s h =
    let f =
      extra-facts (is_key k) (is_clean v) (unknown k) (any (λ p. text_eq p.0 k) e)
        (are_extras unknown (e ++ ((k, v) ∷ [])) m) h in
    let one =
      subst (λ x. Reads lower_rune (entry k v) (at e) (at x)) (put_key-new k v e f.3)
        (s k v e f.0 f.1 f.2) in
    let others = extra_steps lower_rune unknown at (e ++ ((k, v) ∷ [])) m s f.4 in
    one
    ▸ subst (λ x. Reads lower_rune (extra_entries m) (at (e ++ ((k, v) ∷ []))) (at x))
        (append_assoc e ((k, v) ∷ []) m) others
