-- ===== src/Config/Parser.antt =====
-- Parse of internal/config/parser.go. An error keeps the number of its line and what its message
-- quotes. `lower_rune` is unicode.ToLower outside ASCII.
use wireguide_plus.Common.{
  ℕ, suc, ◌+◌, ◌^◌, List, [], ◌∷◌, ◌++◌, Option, some, none, Bool, true, ◌&&◌, ◌||◌, not, ltb, ◌==◌,
  if◌then◌else◌, is_empty, any, length,
}
use wireguide_plus.Common.Int.{ℤ, pos, negsuc}
use wireguide_plus.Common.Text.{Text, codes, trim, split_pair, atoi, text_eq, has_suffix}
use wireguide_plus.Config.Model.{
  InterfaceConfig, PeerConfig, WireGuardConfig, Protocol, ExtraKeys, empty_peer, empty_config,
  is_amnezia_wg,
}
use wireguide_plus.Config.Words.{split, lines, drop_cr, byte_length, to_lower}
use wireguide_plus.Common.{◌-◌}

pub data ParseError : Type 0 where
  too_large : ℕ → ParseError
  nul_byte : ℕ → ParseError
  bad_syntax : ℕ → Text → ParseError
  outside_section : ℕ → Text → ParseError
  bad_number : ℕ → Text → Text → ParseError
  bad_keepalive : ℕ → Text → ParseError
  too_many_allowed_ips : ParseError
  line_too_long : ParseError
  no_private_key : ParseError

pub data Result {ℓ} (A : Type ℓ) : Type ℓ where
  ok : A → Result A
  err : ParseError → Result A

infixl 5 ◌>>=◌
abbrev pub ◌>>=◌ {ℓ κ} : {A : Type ℓ} {B : Type κ} → Result A → (A → Result B) → Result B
ok a >>= f = f a
err e >>= f = err e

-- MaxConfigSize and MaxAllowedIPsPerPeer
abbrev pub max_config_size : ℕ
max_config_size = 2 ^ 20

abbrev pub max_allowed_ips_per_peer : ℕ
max_allowed_ips_per_peer = 10000

-- splitAndTrim
unfoldable pub trimmed_parts : List Text → List Text
trimmed_parts [] = []
trimmed_parts (p ∷ ps) = if is_empty (trim p) then trimmed_parts ps else trim p ∷ trimmed_parts ps

unfoldable pub split_and_trim : Text → List Text
unfolding trimmed_parts split
split_and_trim s = trimmed_parts (split b',' s)

-- appendScriptLine
unfoldable pub append_script_line : Text → Text → Text
append_script_line existing value = if is_empty existing then value else existing ++ (0 ∷ value)

-- ExtraKeys[key] = value
unfoldable pub put_key : Text → Text → ExtraKeys → ExtraKeys
put_key k v [] = (k, v) ∷ []
put_key k v ((j, w) ∷ m) = if text_eq j k then (k, v) ∷ m else (j, w) ∷ put_key k v m

-- The cases of the two switches.
pub data InterfaceKey : Type 0 where
  private_key address dns mtu listen_port table fw_mark pre_up post_up pre_down post_down jc jmin
        jmax s1 s2 s3 s4 h1 h2 h3 h4 unknown :
      InterfaceKey

unfoldable pub interface_key : Text → InterfaceKey
interface_key k =
    if text_eq k (codes "privatekey")
    then InterfaceKey.private_key
    else if text_eq k (codes "address")
    then InterfaceKey.address
    else if text_eq k (codes "dns")
    then InterfaceKey.dns
    else if text_eq k (codes "mtu")
    then InterfaceKey.mtu
    else if text_eq k (codes "listenport")
    then InterfaceKey.listen_port
    else if text_eq k (codes "table")
    then InterfaceKey.table
    else if text_eq k (codes "fwmark")
    then InterfaceKey.fw_mark
    else if text_eq k (codes "preup")
    then InterfaceKey.pre_up
    else if text_eq k (codes "postup")
    then InterfaceKey.post_up
    else if text_eq k (codes "predown")
    then InterfaceKey.pre_down
    else if text_eq k (codes "postdown")
    then InterfaceKey.post_down
    else if text_eq k (codes "jc")
    then InterfaceKey.jc
    else if text_eq k (codes "jmin")
    then InterfaceKey.jmin
    else if text_eq k (codes "jmax")
    then InterfaceKey.jmax
    else if text_eq k (codes "s1")
    then InterfaceKey.s1
    else if text_eq k (codes "s2")
    then InterfaceKey.s2
    else if text_eq k (codes "s3")
    then InterfaceKey.s3
    else if text_eq k (codes "s4")
    then InterfaceKey.s4
    else if text_eq k (codes "h1")
    then InterfaceKey.h1
    else if text_eq k (codes "h2")
    then InterfaceKey.h2
    else if text_eq k (codes "h3")
    then InterfaceKey.h3
    else if text_eq k (codes "h4")
    then InterfaceKey.h4
    else InterfaceKey.unknown

pub data PeerKey : Type 0 where
  public_key preshared_key endpoint allowed_ips persistent_keepalive unknown : PeerKey

unfoldable pub peer_key : Text → PeerKey
peer_key k =
    if text_eq k (codes "publickey")
    then PeerKey.public_key
    else if text_eq k (codes "presharedkey")
    then PeerKey.preshared_key
    else if text_eq k (codes "endpoint")
    then PeerKey.endpoint
    else if text_eq k (codes "allowedips")
    then PeerKey.allowed_ips
    else if text_eq k (codes "persistentkeepalive")
    then PeerKey.persistent_keepalive
    else PeerKey.unknown

-- strconv.Atoi, with the error that its callers make.
abbrev pub number_or : ParseError → Option ℤ → Result ℤ
number_or e none = err e
number_or e (some z) = ok z

-- The body of parseInterfaceKey's switch.
unfoldable pub set_interface :
    InterfaceKey → ℕ → Text → Text → InterfaceConfig → Result InterfaceConfig
unfolding split_and_trim append_script_line put_key
set_interface InterfaceKey.private_key n k v i = ok (record i { private_key = v })
set_interface InterfaceKey.address n k v i =
    ok (record i { address = i.address ++ split_and_trim v })
set_interface InterfaceKey.dns n k v i = ok (record i { dns = i.dns ++ split_and_trim v })
set_interface InterfaceKey.mtu n k v i =
    number_or (bad_number n k v) (atoi v) >>= λ z. ok (record i { mtu = z })
set_interface InterfaceKey.listen_port n k v i =
    number_or (bad_number n k v) (atoi v) >>= λ z. ok (record i { listen_port = z })
set_interface InterfaceKey.table n k v i = ok (record i { table = v })
set_interface InterfaceKey.fw_mark n k v i = ok (record i { fw_mark = v })
set_interface InterfaceKey.pre_up n k v i = ok (record i { pre_up = append_script_line i.pre_up v })
set_interface InterfaceKey.post_up n k v i =
    ok (record i { post_up = append_script_line i.post_up v })
set_interface InterfaceKey.pre_down n k v i =
    ok (record i { pre_down = append_script_line i.pre_down v })
set_interface InterfaceKey.post_down n k v i =
    ok (record i { post_down = append_script_line i.post_down v })
set_interface InterfaceKey.jc n k v i =
    number_or (bad_number n k v) (atoi v) >>= λ z. ok (record i { jc = z })
set_interface InterfaceKey.jmin n k v i =
    number_or (bad_number n k v) (atoi v) >>= λ z. ok (record i { jmin = z })
set_interface InterfaceKey.jmax n k v i =
    number_or (bad_number n k v) (atoi v) >>= λ z. ok (record i { jmax = z })
set_interface InterfaceKey.s1 n k v i =
    number_or (bad_number n k v) (atoi v) >>= λ z. ok (record i { s1 = z })
set_interface InterfaceKey.s2 n k v i =
    number_or (bad_number n k v) (atoi v) >>= λ z. ok (record i { s2 = z })
set_interface InterfaceKey.s3 n k v i =
    number_or (bad_number n k v) (atoi v) >>= λ z. ok (record i { s3 = z })
set_interface InterfaceKey.s4 n k v i =
    number_or (bad_number n k v) (atoi v) >>= λ z. ok (record i { s4 = z })
set_interface InterfaceKey.h1 n k v i = ok (record i { h1 = v })
set_interface InterfaceKey.h2 n k v i = ok (record i { h2 = v })
set_interface InterfaceKey.h3 n k v i = ok (record i { h3 = v })
set_interface InterfaceKey.h4 n k v i = ok (record i { h4 = v })
set_interface InterfaceKey.unknown n k v i = ok (record i { extra_keys = put_key k v i.extra_keys })

-- The first of the suffixes that the text ends in is cut off, and what is left is trimmed.
unfoldable pub take_front : ℕ → Text → Text
take_front ℕ.zero s = []
take_front (suc n) [] = []
take_front (suc n) (c ∷ s) = c ∷ take_front n s

unfoldable pub cut_suffix : List Text → Text → Text
unfolding take_front
cut_suffix [] s = s
cut_suffix (x ∷ xs) s =
    let rest = cut_suffix xs s in
    if has_suffix s x then trim (take_front (length s - length x) s) else rest

abbrev pub second_suffixes : List Text
second_suffixes = codes "seconds" ∷ codes "second" ∷ codes "secs" ∷ codes "sec" ∷ codes "s" ∷ []

abbrev pub not_negative : Option ℤ → Option ℤ
not_negative none = none
not_negative (some (pos n)) = some (pos n)
not_negative (some (negsuc n)) = none

-- parseKeepaliveSeconds
unfoldable pub parse_keepalive_seconds : (ℕ → ℕ) → Text → Option ℤ
unfolding to_lower cut_suffix
parse_keepalive_seconds lower_rune raw =
    not_negative (atoi (cut_suffix second_suffixes (to_lower lower_rune (trim raw))))

abbrev pub starts_comment : Text → Bool
starts_comment [] = true
starts_comment (c ∷ s) = (c == b'#') || (c == b';')

pub data Section : Type 0 where
  outside interface peer : Section

pub record State : Type 0 where
  pub section : Section
  pub config : WireGuardConfig

abbrev pub start : State
start = record { section = Section.outside; config = empty_config }

-- The scanner's buffer is full, and there is no line in it.
abbrev pub fills_buffer : Text → Bool
fills_buffer s = (byte_length s == max_config_size) && not (any (λ c. c == 10) s)

-- strings.TrimPrefix of the byte order mark
abbrev pub strip_bom : Text → Text
strip_bom [] = []
strip_bom (c ∷ s) = if c == 0xfeff then s else c ∷ s

-- What stands after the loop.
unfoldable pub finish : WireGuardConfig → Result WireGuardConfig
unfolding is_amnezia_wg
finish c =
    if is_empty c.interface.private_key
    then err no_private_key
    else if is_amnezia_wg c.interface
    then ok (record c { protocol = Protocol.amneziawg })
    else ok c

-- currentPeer points to the last peer.
unfoldable pub update_last :
    ParseError → (PeerConfig → Result PeerConfig) → List PeerConfig → Result (List PeerConfig)
update_last e f [] = err e
update_last e f (p ∷ []) = f p >>= λ q. ok (q ∷ [])
update_last e f (p ∷ q ∷ ps) = update_last e f (q ∷ ps) >>= λ rest. ok (p ∷ rest)

module _ (lower_rune : ℕ → ℕ) where
  -- The body of parsePeerKey's switch.
  unfoldable pub set_peer : PeerKey → ℕ → Text → Text → PeerConfig → Result PeerConfig
  unfolding split_and_trim put_key
  set_peer PeerKey.public_key n k v p = ok (record p { public_key = v })
  set_peer PeerKey.preshared_key n k v p = ok (record p { preshared_key = v })
  set_peer PeerKey.endpoint n k v p = ok (record p { endpoint = v })
  set_peer PeerKey.allowed_ips n k v p =
      if ltb max_allowed_ips_per_peer (length p.allowed_ips + length (split_and_trim v))
      then err too_many_allowed_ips
      else ok (record p { allowed_ips = p.allowed_ips ++ split_and_trim v })
  set_peer PeerKey.persistent_keepalive n k v p =
      number_or (bad_keepalive n v) (parse_keepalive_seconds lower_rune v) >>= λ z.
      ok (record p { persistent_keepalive = some z })
  set_peer PeerKey.unknown n k v p = ok (record p { extra_keys = put_key k v p.extra_keys })

  -- parseInterfaceKey
  unfoldable pub parse_interface_key : Text → Text → ℕ → InterfaceConfig → Result InterfaceConfig
  unfolding set_interface to_lower
  parse_interface_key key value n =
      set_interface (interface_key (to_lower lower_rune key)) n key value

  -- parsePeerKey
  unfoldable pub parse_peer_key : Text → Text → ℕ → PeerConfig → Result PeerConfig
  unfolding set_peer to_lower
  parse_peer_key key value n = set_peer (peer_key (to_lower lower_rune key)) n key value

  -- The switch on the section.
  unfoldable pub assign : Section → ℕ → Text → Text → WireGuardConfig → Result WireGuardConfig
  unfolding parse_interface_key parse_peer_key update_last
  assign Section.interface n k v c =
      parse_interface_key k v n c.interface >>= λ i. ok (record c { interface = i })
  assign Section.peer n k v c =
      update_last (outside_section n k) (parse_peer_key k v n) c.peers >>= λ ps.
      ok (record c { peers = ps })
  assign Section.outside n k v c = err (outside_section n k)

  abbrev pub assign_pair : ℕ → Text → State → Option (Text × Text) → Result State
  assign_pair n line s none = err (bad_syntax n line)
  assign_pair n line s (some (k, v)) =
      assign s.section n (trim k) (trim v) s.config >>= λ c. ok (record s { config = c })

  -- One round of the loop, on the trimmed line.
  unfoldable pub parse_line : ℕ → State → Text → Result State
  unfolding assign to_lower
  parse_line n s line =
      if any (λ c. c == 0) line
      then err (nul_byte n)
      else if starts_comment line
      then ok s
      else if text_eq (to_lower lower_rune line) (codes "[interface]")
      then ok (record s { section = Section.interface })
      else if text_eq (to_lower lower_rune line) (codes "[peer]")
      then ok (record {
        section = Section.peer;
        config = record s.config { peers = s.config.peers ++ (empty_peer ∷ []) };
      })
      else assign_pair n line s (split_pair b'=' line)

  -- The loop over the lines.
  unfoldable pub scan : ℕ → List Text → State → Result State
  unfolding parse_line drop_cr
  scan n [] s = ok s
  scan n (l ∷ ls) s = parse_line (suc n) s (trim (drop_cr l)) >>= λ t. scan (suc n) ls t

  -- Parse
  unfoldable pub parse : Text → Result WireGuardConfig
  unfolding scan finish byte_length
  parse content =
      if ltb max_config_size (byte_length content)
      then err (too_large (byte_length content))
      else if fills_buffer (strip_bom content)
      then err line_too_long
      else scan 0 (lines (strip_bom content)) start >>= λ s. finish s.config
