-- ===== src/Config/Bounds.antt =====
-- What every configuration that Parse of internal/config/parser.go returns satisfies.
use mathlib.Core.Path.{subst}
use wireguide_plus.Common.{
  ℕ, suc, ◌+◌, ◌≤◌, ◌≡◌, refl, inl, inr, List, [], ◌∷◌, Option, some, none, false, ltb, ◌==◌,
  if◌then◌else◌, is_empty, any, All, All-append, length, length-append, arith, Bool-cases,
}
use wireguide_plus.Common.Int.{ℤ, pos, negsuc}
use wireguide_plus.Common.Text.{Text, codes, trim, split_pair, text_eq, atoi}
use wireguide_plus.Config.Model.{
  PeerConfig, WireGuardConfig, InterfaceConfig, Protocol, empty_peer, is_amnezia_wg,
}
use wireguide_plus.Config.Words.{lines, byte_length, to_lower, drop_cr}
use wireguide_plus.Config.Parser.{
  Result, ok, err, ◌>>=◌, ParseError, PeerKey, set_peer, peer_key, parse_peer_key,
  parse_interface_key, update_last, assign, assign_pair, parse_line, scan, start, State, Section,
  finish, parse, max_allowed_ips_per_peer, max_config_size, parse_keepalive_seconds, not_negative,
  number_or, bad_keepalive, split_and_trim, starts_comment, strip_bom, fills_buffer, cut_suffix,
  second_suffixes, outside_section,
}

abbrev pub NotNegative : Option ℤ → Type 0
NotNegative none = Unit {0}
NotNegative (some (pos n)) = Unit {0}
NotNegative (some (negsuc n)) = ⊥

-- A peer within the parser's caps.
abbrev pub IsCapped : PeerConfig → Type 0
IsCapped p = (length p.allowed_ips ≤ max_allowed_ips_per_peer) × NotNegative p.persistent_keepalive

-- A result, if there is one, has the property.
abbrev Ensures {ℓ κ} : {A : Type ℓ} → (A → Type κ) → Result A → Type κ
Ensures P (ok a) = P a
Ensures P (err e) = Unit

Ensures-bind {ℓ κ ι} :
    {A : Type ℓ} {B : Type κ} (P : A → Type ι) (Q : B → Type ι) (m : Result A) (g : A → Result B)
    → Ensures P m
    → ((a : A) → P a → Ensures Q (g a))
    → Ensures Q (m >>= g)
Ensures-bind P Q (ok a) g h k = k a h
Ensures-bind P Q (err e) g h k = tt

Ensures-eq {ℓ κ} :
    {A : Type ℓ} (P : A → Type κ) (m : Result A) (a : A) → Ensures P m → m ≡ ok a → P a
Ensures-eq P (ok b) a h e = subst P (cc) h
Ensures-eq P (err x) a h e = cc

not_negative-NotNegative : (o : Option ℤ) → NotNegative (not_negative o)
not_negative-NotNegative none = tt
not_negative-NotNegative (some (pos n)) = tt
not_negative-NotNegative (some (negsuc n)) = tt

number_or-NotNegative :
    (e : ParseError) (o : Option ℤ)
    → NotNegative o
    → Ensures (λ z. NotNegative (some z)) (number_or e o)
number_or-NotNegative e none h = tt
number_or-NotNegative e (some z) h = h

module _ (f : ℕ → ℕ) where
  keepalive-NotNegative : (v : Text) → NotNegative (parse_keepalive_seconds f v)
  unfolding parse_keepalive_seconds
  keepalive-NotNegative v =
      not_negative-NotNegative (atoi (cut_suffix second_suffixes (to_lower f (trim v))))

  set_peer-IsCapped :
      (key : PeerKey) (n : ℕ) (k v : Text) (p : PeerConfig)
      → IsCapped p
      → Ensures IsCapped (set_peer f key n k v p)
  unfolding set_peer
  set_peer-IsCapped PeerKey.allowed_ips n k v p h =
      elim (Bool-cases
        (ltb max_allowed_ips_per_peer (length p.allowed_ips + length (split_and_trim v)))) [
          | inl e ↦ rw e tt
          | inr e ↦ rw e (ground (arith, length-append p.allowed_ips (split_and_trim v)), h.1)
        ]
  set_peer-IsCapped PeerKey.persistent_keepalive n k v p h =
      Ensures-bind (λ z. NotNegative (some z)) IsCapped
        (number_or (bad_keepalive n v) (parse_keepalive_seconds f v))
        (λ z. ok (record p { persistent_keepalive = some z }))
        (number_or-NotNegative (bad_keepalive n v) (parse_keepalive_seconds f v)
          (keepalive-NotNegative v))
        (λ z hz. (h.0, hz))
  set_peer-IsCapped PeerKey.public_key n k v p h = h
  set_peer-IsCapped PeerKey.preshared_key n k v p h = h
  set_peer-IsCapped PeerKey.endpoint n k v p h = h
  set_peer-IsCapped PeerKey.unknown n k v p h = h

  update_last-All :
      (e : ParseError) (g : PeerConfig → Result PeerConfig) (ps : List PeerConfig)
      → ((p : PeerConfig) → IsCapped p → Ensures IsCapped (g p))
      → All IsCapped ps
      → Ensures (All IsCapped) (update_last e g ps)
  unfolding update_last
  update_last-All e g [] s h = tt
  update_last-All e g (p ∷ []) s h =
      Ensures-bind IsCapped (All IsCapped) (g p) (λ q. ok (q ∷ [])) (s p h.0) (λ q hq. (hq, tt))
  update_last-All e g (p ∷ q ∷ ps) s h =
      Ensures-bind (All IsCapped) (All IsCapped) (update_last e g (q ∷ ps)) (λ rest. ok (p ∷ rest))
        (update_last-All e g (q ∷ ps) s h.1) (λ rest hr. (h.0, hr))

  -- What the loop keeps: capped peers, and a protocol that is not yet set.
  abbrev IsOpen : WireGuardConfig → Type 0
  IsOpen c = All IsCapped c.peers × (c.protocol ≡ Protocol.unset)

  assign-IsOpen :
      (s : Section) (n : ℕ) (k v : Text) (c : WireGuardConfig)
      → IsOpen c
      → Ensures IsOpen (assign f s n k v c)
  unfolding assign
  assign-IsOpen Section.outside n k v c h = tt
  assign-IsOpen Section.interface n k v c h =
      Ensures-bind (λ i. Unit {0}) IsOpen (parse_interface_key f k v n c.interface)
        (λ i. ok (record c { interface = i })) (anything (parse_interface_key f k v n c.interface))
        (λ i t. h)
    where
      anything : (m : Result InterfaceConfig) → Ensures (λ i. Unit {0}) m
      anything (ok i) = tt
      anything (err e) = tt
  assign-IsOpen Section.peer n k v c h =
      Ensures-bind (All IsCapped) IsOpen
        (update_last (outside_section n k) (parse_peer_key f k v n) c.peers)
        (λ ps. ok (record c { peers = ps }))
        (update_last-All (outside_section n k) (parse_peer_key f k v n) c.peers (set-peer n k v)
          h.0)
        (λ ps hp. (hp, h.1))
    where
      set-peer :
          (n : ℕ) (k v : Text) (p : PeerConfig)
          → IsCapped p
          → Ensures IsCapped (parse_peer_key f k v n p)
      set-peer n k v p h =
          unfold parse_peer_key in set_peer-IsCapped (peer_key (to_lower f k)) n k v p h

  pair-IsOpen :
      (n : ℕ) (line : Text) (s : State) (o : Option (Text × Text))
      → IsOpen s.config
      → Ensures (λ t. IsOpen t.config) (assign_pair f n line s o)
  pair-IsOpen n line s none h = tt
  pair-IsOpen n line s (some (k, v)) h =
      Ensures-bind IsOpen (λ t. IsOpen t.config) (assign f s.section n (trim k) (trim v) s.config)
        (λ c. ok (record s { config = c })) (assign-IsOpen s.section n (trim k) (trim v) s.config h)
        (λ c hc. hc)

  parse_line-IsOpen :
      (n : ℕ) (s : State) (line : Text)
      → IsOpen s.config
      → Ensures (λ t. IsOpen t.config) (parse_line f n s line)
  unfolding parse_line
  parse_line-IsOpen n s line h = elim (Bool-cases (any (λ c. c == 0) line)) [
    | inl e ↦ rw e tt
    | inr e ↦ rw e (elim (Bool-cases (starts_comment line)) [
      | inl a ↦ rw a h
      | inr a ↦ rw a (elim (Bool-cases (text_eq (to_lower f line) (codes "[interface]"))) [
        | inl b ↦ rw b h
        | inr b ↦ rw b (elim (Bool-cases (text_eq (to_lower f line) (codes "[peer]"))) [
          | inl d ↦ rw d (
            All-append IsCapped s.config.peers (empty_peer ∷ []) h.0 ((omega arith, tt), tt),
            h.1,
          )
          | inr d ↦ rw d (pair-IsOpen n line s (split_pair b'=' line) h)
        ])
      ])
    ])
  ]

  scan-IsOpen :
      (n : ℕ) (ls : List Text) (s : State)
      → IsOpen s.config
      → Ensures (λ t. IsOpen t.config) (scan f n ls s)
  unfolding scan
  scan-IsOpen n [] s h = h
  scan-IsOpen n (l ∷ ls) s h =
      Ensures-bind (λ t. IsOpen t.config) (λ t. IsOpen t.config)
        (parse_line f (suc n) s (trim (drop_cr l))) (λ t. scan f (suc n) ls t)
        (parse_line-IsOpen (suc n) s (trim (drop_cr l)) h) (λ t ht. scan-IsOpen (suc n) ls t ht)

-- The configuration is within the caps, and its protocol is the one that its interface shows.
abbrev pub IsParsed : WireGuardConfig → Type 0
IsParsed c =
    (is_empty c.interface.private_key ≡ false)
    × All IsCapped c.peers
    × (c.protocol ≡ (if is_amnezia_wg c.interface then Protocol.amneziawg else Protocol.unset))

finish-IsParsed :
    (c : WireGuardConfig)
    → All IsCapped c.peers × (c.protocol ≡ Protocol.unset)
    → Ensures IsParsed (finish c)
unfolding finish
finish-IsParsed c h = elim (Bool-cases (is_empty c.interface.private_key)) [
  | inl e ↦ rw e tt
  | inr e ↦ rw e (elim (Bool-cases (is_amnezia_wg c.interface)) [
    | inl a ↦ rw a (e, h.0, rw a refl)
    | inr a ↦ rw a (e, h.0, rw a h.1)
  ])
]

-- A text that parses has at most 1 MiB; the configuration has a private key, at most 10,000 allowed
-- IPs in each peer and no negative keepalive, and it is AmneziaWG exactly when its interface has an
-- obfuscation parameter.
pub parse-IsParsed :
    (lower_rune : ℕ → ℕ) (content : Text) (c : WireGuardConfig)
    → parse lower_rune content ≡ ok c
    → (byte_length content ≤ max_config_size) × IsParsed c
unfolding parse
parse-IsParsed f content c h = elim (Bool-cases (ltb max_config_size (byte_length content))) [
  | inl e ↦ let x = rw e at h in cc
  | inr e ↦ (
    ground arith,
    elim (Bool-cases (fills_buffer (strip_bom content))) [
      | inl a ↦ let x = rw (e, a) at h in cc
      | inr a ↦
          Ensures-eq IsParsed _ c
            (Ensures-bind (λ t. IsOpen f t.config) IsParsed
              (scan f 0 (lines (strip_bom content)) start) (λ s. finish s.config)
              (scan-IsOpen f 0 (lines (strip_bom content)) start (tt, refl))
              (λ s hs. finish-IsParsed s.config hs))
            (rw (e, a) at h)
    ],
  )
]
