-- ===== src/Config/Peers.antt =====
-- Parse reads the [Peer] sections back as Serialize wrote them (internal/config/parser.go).
use mathlib.Core.List.{append_assoc, append-nil}
use wireguide_plus.Common.{
  ℕ, suc, ◌+◌, ◌^◌, ◌≤◌, ◌<◌, ◌≡◌, refl, sym, ap, ◌∙◌, inl, inr, Bool-cases, All, leb, List, [],
  ◌∷◌, ◌++◌, Option, some, none, Bool, true, false, ◌&&◌, all, length, ltb, arith,
}
use wireguide_plus.Common.Int.{ℤ, pos, negsuc}
use wireguide_plus.Common.Text.{Text, codes, text_eq, is_space, is_digit, trim, has_suffix, atoi}
use wireguide_plus.Config.Model.{InterfaceConfig, PeerConfig, empty_peer, empty_config}
use wireguide_plus.Config.Words.{to_lower, lines, drop_cr, itoa, join}
use wireguide_plus.Config.Parser.{
  State, Section, Result, ok, ◌>>=◌, ParseError, PeerKey, peer_key, set_peer, parse_peer_key,
  update_last, put_key, scan, parse_line, assign, max_allowed_ips_per_peer, parse_keepalive_seconds,
  cut_suffix, second_suffixes, not_negative, outside_section,
}
use wireguide_plus.Config.Printer.{
  entry, text_entry, list_entry, keepalive_entry, print_peer, print_peers,
}
use wireguide_plus.Config.Lines.{is_clean, is_key, is_clean-parts, trim-clean}
use wireguide_plus.Config.Items.{is_item, split_and_trim-join, is_clean-join}
use wireguide_plus.Config.Numbers.{atoi-itoa, itoa-digits}
use wireguide_plus.Config.Fields.{Reads, Reads-nil, ◌▸◌, Reads-entry, digits-is_clean}
use wireguide_plus.Config.Steps.{IsCount, are_extras, extra_steps}
use wireguide_plus.Config.Interface.{reading}
use wireguide_plus.Common.{Bool-cases}
use wireguide_plus.Common.{leb}
use wireguide_plus.Common.{inl}
use wireguide_plus.Common.{inr}

abbrev is_unknown : PeerKey → Bool
is_unknown PeerKey.unknown = true
is_unknown _ = false

unfoldable pub unknown_peer_key : (ℕ → ℕ) → Text → Bool
unfolding to_lower peer_key
unknown_peer_key lower_rune k = is_unknown (peer_key (to_lower lower_rune k))

abbrev pub IsKeepalive : Option ℤ → Type 0
IsKeepalive none = Unit
IsKeepalive (some z) = IsCount z

-- A peer whose values stand each on a line of their own and can be read back.
pub record IsPrintablePeer (lower_rune : ℕ → ℕ) (p : PeerConfig) : Type 0 where
  pub public_key : is_clean p.public_key ≡ true
  pub preshared_key : is_clean p.preshared_key ≡ true
  pub endpoint : is_clean p.endpoint ≡ true
  pub allowed_ips : all is_item p.allowed_ips ≡ true
  pub few : length p.allowed_ips ≤ max_allowed_ips_per_peer
  pub persistent_keepalive : IsKeepalive p.persistent_keepalive
  pub extra_keys : are_extras (unknown_peer_key lower_rune) [] p.extra_keys ≡ true

-- The parser behind the interface, with some peers read and the last one open.
abbrev pub at_peer : InterfaceConfig → List PeerConfig → PeerConfig → State
at_peer i ps p = record {
  section = Section.peer;
  config = record empty_config { interface = i; peers = ps ++ (p ∷ []) };
}

update_last-append :
    (e : ParseError) (g : PeerConfig → Result PeerConfig) (ps : List PeerConfig) (p q : PeerConfig)
    → g p ≡ ok q
    → update_last e g (ps ++ (p ∷ [])) ≡ ok (ps ++ (q ∷ []))
unfolding update_last
update_last-append e g [] p q h = rw h refl
update_last-append e g (r ∷ []) p q h = rw h refl
update_last-append e g (r ∷ s ∷ ps) p q h = rw (update_last-append e g (s ∷ ps) p q h) refl

-- Digits are no suffix of seconds.
all-text_eq : (s t : Text) → text_eq s t ≡ true → all is_digit s ≡ true → all is_digit t ≡ true
all-text_eq [] [] h k = refl
all-text_eq [] (d ∷ t) h k = cc
all-text_eq (c ∷ s) [] h k = cc
all-text_eq (c ∷ s) (d ∷ t) h k =
    let e : c ≡ d = ground arith in
    let ih = all-text_eq s t (ground arith) (ground arith) in
    let first : is_digit c ≡ true = ground arith in rw (sym (ap is_digit e) ∙ first) ih

all-has_suffix :
    (s t : Text) → has_suffix s t ≡ true → all is_digit s ≡ true → all is_digit t ≡ true
unfolding has_suffix
all-has_suffix [] [] h k = refl
all-has_suffix [] (d ∷ t) h k = cc
all-has_suffix (c ∷ s) t h k = elim (Bool-cases (text_eq (c ∷ s) t)) [
  | inl e ↦ all-text_eq (c ∷ s) t e k
  | inr e ↦ all-has_suffix s t (ground arith) (ground arith)
]

no_suffix : (s t : Text) → all is_digit s ≡ true → all is_digit t ≡ false → has_suffix s t ≡ false
no_suffix s t h k = elim (Bool-cases (has_suffix s t)) [
  | inl e ↦ let a = sym k ∙ all-has_suffix s t e h in cc
  | inr e ↦ e
]

cut_suffix-digits : (s : Text) → all is_digit s ≡ true → cut_suffix second_suffixes s ≡ s
unfolding cut_suffix is_digit
cut_suffix-digits s h = rw (no_suffix s (codes "seconds") h refl) (
    rw (no_suffix s (codes "second") h refl) (
      rw (no_suffix s (codes "secs") h refl)
        (rw (no_suffix s (codes "sec") h refl) (rw (no_suffix s (codes "s") h refl) refl))))

to_lower-digits : (f : ℕ → ℕ) (s : Text) → all is_digit s ≡ true → to_lower f s ≡ s
unfolding to_lower is_digit
to_lower-digits f [] h = refl
to_lower-digits f (c ∷ s) h =
    let no : (leb 65 c && leb c 90) ≡ false = ground arith in
    let low : ltb c 128 ≡ true = ground arith in
    rw no (rw low (ap (λ t. c ∷ t) (to_lower-digits f s (ground arith))))

keepalive-itoa :
    (f : ℕ → ℕ) (n : ℕ) → n < 2 ^ 63 → parse_keepalive_seconds f (itoa (pos n)) ≡ some (pos n)
unfolding parse_keepalive_seconds
keepalive-itoa f n h =
    let w = itoa (pos n) in
    let d = (itoa-digits n).0 in
    let c = is_clean-parts w (digits-is_clean w d) in
    ap (λ t. not_negative (atoi (cut_suffix second_suffixes t)))
      (ap (to_lower f) (trim-clean w c.0 c.1) ∙ to_lower-digits f w d)
    ∙ ap (λ t. not_negative (atoi t)) (cut_suffix-digits w d)
    ∙ ap not_negative (atoi-itoa n h)

module _ (f : ℕ → ℕ) (i : InterfaceConfig) (ps : List PeerConfig) where
  peer_entry :
      (k v : Text) (p q : PeerConfig)
      → is_key k ≡ true
      → is_clean v ≡ true
      → ((n : ℕ) → parse_peer_key f k v n p ≡ ok q)
      → Reads f (entry k v) (at_peer i ps p) (at_peer i ps q)
  unfolding assign
  peer_entry k v p q hk hv set =
      Reads-entry f k v (at_peer i ps p)
        (record empty_config { interface = i; peers = ps ++ (q ∷ []) }) hk hv
        (λ n.
          ap (λ r. r >>= λ x. ok (record empty_config { interface = i; peers = x }))
            (update_last-append (outside_section n k) (parse_peer_key f k v n) ps p q (set n)))

  peer_text :
      (k v : Text) (set : Text → PeerConfig)
      → is_key k ≡ true
      → is_clean v ≡ true
      → ((w : Text) (n : ℕ) → parse_peer_key f k w n (set []) ≡ ok (set w))
      → Reads f (text_entry k v) (at_peer i ps (set [])) (at_peer i ps (set v))
  unfolding text_entry
  peer_text k [] set hk hv s = Reads-nil f (at_peer i ps (set []))
  peer_text k (c ∷ v) set hk hv s = peer_entry k (c ∷ v) (set []) (set (c ∷ v)) hk hv (s (c ∷ v))

  allowed_ips_step :
      (vs : List Text) (p : PeerConfig)
      → all is_item vs ≡ true
      → length vs ≤ max_allowed_ips_per_peer
      → Reads f
          (list_entry (codes "AllowedIPs") vs)
          (at_peer i ps (record p { allowed_ips = [] }))
          (at_peer i ps (record p { allowed_ips = vs }))
  unfolding reading peer_key parse_peer_key set_peer list_entry
  allowed_ips_step [] p hv few = Reads-nil f (at_peer i ps (record p { allowed_ips = [] }))
  allowed_ips_step (v ∷ vs) p hv few =
      let joined = join (codes ", ") (v ∷ vs) in
      let e = split_and_trim-join v vs (ground arith) (ground arith) in
      let clean = is_clean-join v vs (ground arith) (ground arith) in
      let fits : ltb max_allowed_ips_per_peer (0 + length (v ∷ vs)) ≡ false = ground arith in
      peer_entry (codes "AllowedIPs") joined (record p { allowed_ips = [] })
        (record p { allowed_ips = v ∷ vs }) refl clean.0 (λ l. rw e (rw fits refl))

  keepalive_step :
      (o : Option ℤ) (p : PeerConfig)
      → IsKeepalive o
      → Reads f
          (keepalive_entry o)
          (at_peer i ps (record p { persistent_keepalive = none }))
          (at_peer i ps (record p { persistent_keepalive = o }))
  unfolding reading peer_key parse_peer_key set_peer keepalive_entry
  keepalive_step none p h = Reads-nil f (at_peer i ps (record p { persistent_keepalive = none }))
  keepalive_step (some (negsuc n)) p h = absurd h
  keepalive_step (some (pos n)) p h =
      let w = itoa (pos n) in
      peer_entry (codes "PersistentKeepalive") w (record p { persistent_keepalive = none })
        (record p { persistent_keepalive = some (pos n) }) refl
        (digits-is_clean w (itoa-digits n).0) (λ l. rw (keepalive-itoa f n h) refl)

  is_unknown-eq : (k : PeerKey) → is_unknown k ≡ true → k ≡ PeerKey.unknown
  is_unknown-eq PeerKey.unknown h = refl
  is_unknown-eq k h = cc

  unknown-Sets :
      (k v : Text) (p : PeerConfig) (n : ℕ)
      → unknown_peer_key f k ≡ true
      → parse_peer_key f k v n p ≡ ok (record p { extra_keys = put_key k v p.extra_keys })
  unfolding unknown_peer_key parse_peer_key set_peer
  unknown-Sets k v p n h =
      ap (λ key. set_peer f key n k v p) (is_unknown-eq (peer_key (to_lower f k)) h)

  header_peer :
      (s : Section)
      → Reads f
          (codes "\n[Peer]\n")
          (record { section = s; config = record empty_config { interface = i; peers = ps } })
          (at_peer i ps empty_peer)
  unfolding scan parse_line lines drop_cr trim is_space to_lower
  header_peer s = record { read = λ n rest. (suc (suc n), refl) }

  read_peer :
      (s : Section) (p : PeerConfig)
      → IsPrintablePeer f p
      → Reads f
          (print_peer p)
          (record { section = s; config = record empty_config { interface = i; peers = ps } })
          (at_peer i ps p)
  unfolding reading print_peer peer_key parse_peer_key set_peer
  read_peer s p h =
      let p1 = record empty_peer { public_key = p.public_key } in
      let p2 = record p1 { preshared_key = p.preshared_key } in
      let p3 = record p2 { endpoint = p.endpoint } in
      let p4 = record p3 { allowed_ips = p.allowed_ips } in
      let p5 = record p4 { persistent_keepalive = p.persistent_keepalive } in
      header_peer s
      ▸ peer_entry (codes "PublicKey") p.public_key empty_peer p1 refl h.public_key (λ n. refl)
      ▸ peer_text (codes "PresharedKey") p.preshared_key (λ x. record p1 { preshared_key = x }) refl
          h.preshared_key (λ w n. refl)
      ▸ peer_text (codes "Endpoint") p.endpoint (λ x. record p2 { endpoint = x }) refl h.endpoint
          (λ w n. refl)
      ▸ allowed_ips_step p.allowed_ips p3 h.allowed_ips h.few
      ▸ keepalive_step p.persistent_keepalive p4 h.persistent_keepalive
      ▸ extra_steps f (unknown_peer_key f) (λ e. at_peer i ps (record p5 { extra_keys = e })) []
          p.extra_keys
          (λ k v e hk hv u.
            peer_entry k v (record p5 { extra_keys = e }) (record p5 { extra_keys = put_key k v e })
              hk hv (λ n. unknown-Sets k v (record p5 { extra_keys = e }) n u))
          h.extra_keys

-- The printed peers are read back behind those that are there.
pub read_peers :
    (f : ℕ → ℕ) (i : InterfaceConfig) (done ps : List PeerConfig) (s : Section)
    → All (IsPrintablePeer f) ps
    → (n : ℕ) (rest : Text)
    → (m : ℕ) × (t : Section) × (scan f n
          (lines (print_peers ps ++ rest))
          (record { section = s; config = record empty_config { interface = i; peers = done } })
        ≡ scan f m (lines rest) (record {
          section = t;
          config = record empty_config { interface = i; peers = done ++ ps };
        }))
unfolding print_peers
read_peers f i done [] s h n rest = (n, s, rw append-nil refl)
read_peers f i done (p ∷ ps) s h n rest =
    let one = (read_peer f i done s p h.0).read n (print_peers ps ++ rest) in
    let others = read_peers f i (done ++ (p ∷ [])) ps Section.peer h.1 one.0 rest in
    (
      others.0,
      others.1,
      ap
            (λ l. scan f n (lines l) (record {
              section = s;
              config = record empty_config { interface = i; peers = done };
            }))
            (append_assoc (print_peer p) (print_peers ps) rest)
          ∙ one.1
          ∙ others.2
          ∙ ap
              (λ x. scan f others.0 (lines rest) (record {
                section = others.1;
                config = record empty_config { interface = i; peers = x };
              }))
              (append_assoc done (p ∷ []) ps),
    )
