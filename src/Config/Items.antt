-- ===== src/Config/Items.antt =====
-- splitAndTrim of internal/config/parser.go reads back a list that strings.Join wrote.
use mathlib.Core.Path.{ap₂}
use wireguide_plus.Common.{
  ℕ, ◌≡◌, refl, ap, ◌∙◌, List, [], ◌∷◌, ◌++◌, Bool, true, false, ◌&&◌, ◌||◌, not, ◌==◌, is_empty,
  all, arith,
}
use wireguide_plus.Common.Text.{Text, codes, is_space, trim, trim_left}
use wireguide_plus.Config.Words.{split, join, push}
use wireguide_plus.Config.Parser.{split_and_trim, trimmed_parts}
use wireguide_plus.Config.Lines.{
  has, has-append, ends_tight, starts_tight, is_clean, is_clean-parts, trim-clean,
}

-- An element of a comma separated list: clean, not empty, without a comma.
unfoldable pub is_item : Text → Bool
unfolding is_clean
is_item w = is_clean w && not (is_empty w) && not (has b',' w)

item-facts : (a b c : Bool) → a && not b && not c ≡ true → (a ≡ true) × (b ≡ false) × (c ≡ false)
item-facts a b c h = ground arith

pub is_item-parts :
    (w : Text) → is_item w ≡ true → (is_clean w ≡ true) × (is_empty w ≡ false) × (has 44 w ≡ false)
unfolding is_item
is_item-parts w h = item-facts (is_clean w) (is_empty w) (has 44 w) h

pub split-no_sep : (sep : ℕ) (w : Text) → has sep w ≡ false → split sep w ≡ w ∷ []
unfolding split
split-no_sep sep [] h = refl
split-no_sep sep (c ∷ w) h =
    let no : (c == sep) ≡ false = ground arith in rw (no, split-no_sep sep w (ground arith)) refl

pub split-sep :
    (sep : ℕ) (w t : Text) → has sep w ≡ false → split sep (w ++ (sep ∷ t)) ≡ w ∷ split sep t
unfolding split
split-sep sep [] t h = let same : (sep == sep) ≡ true = ground arith in rw same refl
split-sep sep (c ∷ w) t h =
    let no : (c == sep) ≡ false = ground arith in rw (no, split-sep sep w t (ground arith)) refl

trim-space : (s : Text) → trim (32 ∷ s) ≡ trim s
unfolding trim trim_left is_space
trim-space s = refl

trimmed_parts-push : (ws : List Text) → trimmed_parts (push 32 ws) ≡ trimmed_parts ws
unfolding trimmed_parts trim trim_left is_space
trimmed_parts-push [] = refl
trimmed_parts-push (w ∷ ws) = refl

split_and_trim-space : (s : Text) → split_and_trim (32 ∷ s) ≡ split_and_trim s
unfolding split_and_trim split
split_and_trim-space s = trimmed_parts-push (split 44 s)

trimmed_parts-item :
    (w : Text) (ws : List Text) → is_item w ≡ true → trimmed_parts (w ∷ ws) ≡ w ∷ trimmed_parts ws
unfolding trimmed_parts
trimmed_parts-item w ws h =
    let p = is_item-parts w h in
    let q = is_clean-parts w p.0 in rw (trim-clean w q.0 q.1) (rw p.1 refl)

pub split_and_trim-join :
    (w : Text) (ws : List Text)
    → is_item w ≡ true
    → all is_item ws ≡ true
    → split_and_trim (join (codes ", ") (w ∷ ws)) ≡ w ∷ ws
unfolding split_and_trim join trimmed_parts
split_and_trim-join w [] h k =
    ap trimmed_parts (split-no_sep 44 w (is_item-parts w h).2) ∙ trimmed_parts-item w [] h
split_and_trim-join w (v ∷ ws) h k =
    ap trimmed_parts (split-sep 44 w (32 ∷ join (codes ", ") (v ∷ ws)) (is_item-parts w h).2)
    ∙ trimmed_parts-item w (split 44 (32 ∷ join (codes ", ") (v ∷ ws))) h
    ∙ ap (λ t. w ∷ t)
        (split_and_trim-space (join (codes ", ") (v ∷ ws))
          ∙ split_and_trim-join v ws (ground arith) (ground arith))

ends_tight-append :
    (a b : Text) → ends_tight b ≡ true → is_empty b ≡ false → ends_tight (a ++ b) ≡ true
unfolding ends_tight
ends_tight-append [] b h e = h
ends_tight-append (c ∷ []) [] h e = cc
ends_tight-append (c ∷ []) (d ∷ b) h e = h
ends_tight-append (c ∷ d ∷ a) b h e = ends_tight-append (d ∷ a) b h e

starts_tight-append :
    (a b : Text) → starts_tight a ≡ true → is_empty a ≡ false → starts_tight (a ++ b) ≡ true
unfolding starts_tight
starts_tight-append [] b h e = cc
starts_tight-append (c ∷ a) b h e = h

clean_of_parts :
    (v : Text)
    → starts_tight v ≡ true
    → ends_tight v ≡ true
    → has 10 v ≡ false
    → has 0 v ≡ false
    → is_clean v ≡ true
unfolding is_clean
clean_of_parts v a b c d = rw a (rw b (rw c (rw d refl)))

is_empty-append : (a b : Text) → is_empty a ≡ false → is_empty (a ++ b) ≡ false
is_empty-append [] b h = cc
is_empty-append (c ∷ a) b h = refl

is_clean-join-append :
    (w b : Text)
    → is_item w ≡ true
    → is_clean b ≡ true
    → is_empty b ≡ false
    → is_clean (w ++ (44 ∷ 32 ∷ b)) ≡ true
unfolding ends_tight
is_clean-join-append w b h k e =
    let p = is_item-parts w h in
    let q = is_clean-parts w p.0 in
    let r = is_clean-parts b k in
    clean_of_parts (w ++ (44 ∷ 32 ∷ b)) (starts_tight-append w (44 ∷ 32 ∷ b) q.0 p.1)
      (ends_tight-append w (44 ∷ 32 ∷ b) (ends_tight-append (44 ∷ 32 ∷ []) b r.1 e) refl)
      (has-append 10 w (44 ∷ 32 ∷ b) ∙ ap₂ (λ x y. x || y) q.3 r.3)
      (has-append 0 w (44 ∷ 32 ∷ b) ∙ ap₂ (λ x y. x || y) q.2 r.2)

pub is_clean-join :
    (w : Text) (ws : List Text)
    → is_item w ≡ true
    → all is_item ws ≡ true
    → (is_clean (join (codes ", ") (w ∷ ws)) ≡ true)
      × (is_empty (join (codes ", ") (w ∷ ws)) ≡ false)
unfolding join
is_clean-join w [] h k = let p = is_item-parts w h in (p.0, p.1)
is_clean-join w (v ∷ ws) h k =
    let ih = is_clean-join v ws (ground arith) (ground arith) in
    let p = is_item-parts w h in
    (
      is_clean-join-append w (join (codes ", ") (v ∷ ws)) h ih.0 ih.1,
      is_empty-append w (44 ∷ 32 ∷ join (codes ", ") (v ∷ ws)) p.1,
    )
