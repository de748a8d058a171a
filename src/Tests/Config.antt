-- ===== src/Tests/Config.antt =====
-- Tests of the .conf parser and serializer (internal/config), and each law at a concrete input.
use wireguide_plus.Common.{
  ◌≡◌, ◌≤◌, ◌↔◌, refl, ℕ, [], ◌∷◌, ◌++◌, some, none, true, false, if◌then◌else◌, length, ◌==◌,
  is_empty, All, arith,
}
use wireguide_plus.Common.Int.{pos, negsuc}
use wireguide_plus.Common.Text.{codes, trim, atoi, split_pair, has_suffix, is_space}
use wireguide_plus.Config.Model.{
  WireGuardConfig, PeerConfig, empty_config, empty_interface, empty_peer, Protocol,
}
use wireguide_plus.Config.Words.{lines, byte_length}
use wireguide_plus.Config.Parser.{
  parse, max_config_size, parse_keepalive_seconds, ok, err, ParseError, interface_key, peer_key,
}
use wireguide_plus.Config.Printer.{serialize}
use wireguide_plus.Config.Lines.{is_clean}
use wireguide_plus.Config.Items.{is_item}
use wireguide_plus.Config.Steps.{is_script, are_extras}
use wireguide_plus.Config.Interface.{IsPrintableInterface, unknown_interface_key}
use wireguide_plus.Config.Peers.{IsPrintablePeer}
use wireguide_plus.Config.RoundTrip.{stored, parse-serialize}
use wireguide_plus.Config.Bounds.{IsParsed, parse-IsParsed}
use wireguide_plus.Config.Validator.{NetLib, validate, is_valid, is_hostname, is_valid_h_value}
use wireguide_plus.Config.Accepted.{IsAcceptedInterface, IsAcceptedPeer}
use wireguide_plus.Config.Verdict.{validate_iff}

abbrev same_rune : ℕ → ℕ
same_rune c = c

-- What the tests of the parser unfold.
rules : Unit {0}
unfolding parse parse_keepalive_seconds interface_key peer_key trim atoi lines split_pair has_suffix
    serialize
rules = tt

abbrev small : WireGuardConfig
small = record empty_config {
  interface = record empty_interface {
    private_key = codes "kA=";
    address = codes "10.0.0.2/24" ∷ codes "fd00::2/64" ∷ [];
    mtu = pos 1420;
    post_up = codes "echo a" ++ (0 ∷ codes "echo b");
    extra_keys = (codes "SaveConfig", codes "true") ∷ [];
  };
  peers =
      record empty_peer {
        public_key = codes "pA=";
        allowed_ips = codes "0.0.0.0/0" ∷ [];
        persistent_keepalive = some (pos 25);
      }
      ∷ [];
}

small_parses : parse same_rune (serialize small) ≡ ok small
unfolding rules
small_parses = refl

-- The unit of a keepalive is accepted.
parse_unit :
    parse same_rune
      (codes "[interface]\r\nprivatekey=k\n; note\n[PEER]\nPersistentKeepalive = 25 Sec")
    ≡ ok (record empty_config {
      interface = record empty_interface { private_key = codes "k" };
      peers = record empty_peer { persistent_keepalive = some (pos 25) } ∷ [];
    })
unfolding rules
parse_unit = refl

parse_no_section :
    parse same_rune (codes "\nMTU = 5") ≡ err (ParseError.outside_section 2 (codes "MTU"))
unfolding rules
parse_no_section = refl

parse_bad_number :
    parse same_rune (codes "[Interface]\nMTU = x")
    ≡ err (ParseError.bad_number 2 (codes "MTU") (codes "x"))
unfolding rules
parse_bad_number = refl

-- A negative parameter marks a file as AmneziaWG, and is not written back.
abbrev negative_jc : WireGuardConfig
negative_jc = record empty_config {
  interface = record empty_interface { private_key = codes "k"; jc = negsuc 0 };
  protocol = Protocol.amneziawg;
}

negative_jc_parses : parse same_rune (codes "[Interface]\nPrivateKey = k\nJc = -1") ≡ ok negative_jc
unfolding rules
negative_jc_parses = refl

reparse_negative_jc :
    parse same_rune (serialize negative_jc)
    ≡ ok (record empty_config { interface = record empty_interface { private_key = codes "k" } })
unfolding rules
reparse_negative_jc = refl

small_interface : IsPrintableInterface same_rune small.interface
unfolding rules is_clean is_item is_script are_extras unknown_interface_key is_space
small_interface = record {
  private_key = refl;
  address = refl;
  dns = refl;
  mtu = omega arith;
  listen_port = omega arith;
  table = refl;
  fw_mark = refl;
  pre_up = refl;
  post_up = refl;
  pre_down = refl;
  post_down = refl;
  jc = omega arith;
  jmin = omega arith;
  jmax = omega arith;
  s1 = omega arith;
  s2 = omega arith;
  s3 = omega arith;
  s4 = omega arith;
  h1 = refl;
  h2 = refl;
  h3 = refl;
  h4 = refl;
  extra_keys = refl;
}

abbrev small_peer : PeerConfig
small_peer = record empty_peer {
  public_key = codes "pA=";
  allowed_ips = codes "0.0.0.0/0" ∷ [];
  persistent_keepalive = some (pos 25);
}

small_peer-IsPrintable : IsPrintablePeer same_rune small_peer
unfolding rules is_clean is_item are_extras is_space
small_peer-IsPrintable = record {
  public_key = refl;
  preshared_key = refl;
  endpoint = refl;
  allowed_ips = refl;
  few = omega arith;
  persistent_keepalive = omega arith;
  extra_keys = refl;
}

small_fits : byte_length (serialize small) ≤ max_config_size
unfolding rules byte_length
small_fits = omega arith

parse-serialize_example : parse same_rune (serialize small) ≡ ok (stored small)
parse-serialize_example =
    parse-serialize same_rune small small_interface (small_peer-IsPrintable, tt) refl small_fits

parse-IsParsed_example : (byte_length (serialize small) ≤ max_config_size) × IsParsed small
parse-IsParsed_example = parse-IsParsed same_rune (serialize small) small small_parses

-- For the test: a text of three characters is a key of 32 bytes, and every CIDR has 24 ones.
abbrev test_lib : NetLib
test_lib = record {
  parse_ip = λ s. true;
  parse_cidr = λ s. some 24;
  decoded_length = λ s. if length s == 3 then some 32 else none;
  split_host_port = λ s. none;
}

small_validates : validate test_lib small ≡ []
unfolding validate is_hostname is_valid_h_value
small_validates = refl

validate_iff_example : (is_valid (validate test_lib small) ≡ true) ↔ (
    IsAcceptedInterface test_lib small.interface
    × ((is_empty small.peers ≡ false) × All (IsAcceptedPeer test_lib) small.peers))
validate_iff_example = validate_iff test_lib small

hostname_ok : is_hostname (codes "corp.example-1.com") ≡ true
unfolding is_hostname
hostname_ok = refl

hostname_hyphen : is_hostname (codes "corp-.com") ≡ false
unfolding is_hostname
hostname_hyphen = refl

h_range : is_valid_h_value (codes "5-4294967295") ≡ true
unfolding is_valid_h_value
h_range = refl

h_too_large : is_valid_h_value (codes "4294967296") ≡ false
unfolding is_valid_h_value
h_too_large = refl
