-- ===== src/Config/Validator.antt =====
-- internal/config/validator.go. An error keeps its field and its code; the texts of messages are
-- left out. What the Go libraries answer is the record `NetLib`.
use wireguide_plus.Common.{
  ℕ, suc, ◌^◌, List, [], ◌∷◌, ◌++◌, Option, some, none, String, Bool, true, false, ◌&&◌, ◌||◌, not,
  leb, ltb, ◌==◌, if◌then◌else◌, is_empty, is_none, all, length,
}
use wireguide_plus.Common.Int.{ℤ, pos, negsuc}
use wireguide_plus.Common.Text.{Text, digits, atoi}
use wireguide_plus.Config.Model.{InterfaceConfig, PeerConfig, WireGuardConfig, is_zero}
use wireguide_plus.Config.Words.{split}
use wireguide_plus.Common.{◌-◌}

-- net.ParseIP (whether it is not nil), net.ParseCIDR (the ones of the mask), the length of what
-- base64.StdEncoding decodes, and net.SplitHostPort.
pub record NetLib : Type 0 where
  pub parse_ip : Text → Bool
  pub parse_cidr : Text → Option ℕ
  pub decoded_length : Text → Option ℕ
  pub split_host_port : Text → Option (Text × Text)

pub data Field : Type 0 where
  interface : String → Field
  peer_section : Field
  peer : ℕ → String → Field

pub record ValidationError : Type 0 where
  pub field : Field
  pub code : String

abbrev pub Errors : Type 0
Errors = List ValidationError

-- addError, if the test holds
abbrev pub error_if : Bool → Field → String → Errors
error_if b f c = if b then record { field = f; code = c } ∷ [] else []

abbrev pub below : ℤ → ℕ → Bool
below (pos n) k = ltb n k
below (negsuc n) k = true

abbrev pub above : ℤ → ℕ → Bool
above (pos n) k = ltb k n
above (negsuc n) k = false

abbrev pub is_letter_or_digit : ℕ → Bool
is_letter_or_digit c =
    (leb b'a' c && leb c b'z') || (leb b'A' c && leb c b'Z') || (leb b'0' c && leb c b'9')

-- The last character is a letter or a digit.
abbrev ends_label : Text → Bool
ends_label [] = false
ends_label (c ∷ []) = is_letter_or_digit c
ends_label (c ∷ d ∷ s) = ends_label (d ∷ s)

-- A label of hostnameRegex: 1 to 63 letters, digits and hyphens, with no hyphen at either end.
unfoldable pub is_label : Text → Bool
is_label [] = false
is_label (c ∷ s) =
    is_letter_or_digit c
    && all (λ d. is_letter_or_digit d || (d == b'-')) s
    && ends_label (c ∷ s)
    && leb (length (c ∷ s)) 63

-- hostnameRegex.MatchString
unfoldable pub is_hostname : Text → Bool
unfolding is_label split
is_hostname s = all is_label (split b'.' s)

-- isValidHValue
unfoldable pub is_valid_h_value : Text → Bool
unfolding split digits
is_valid_h_value v = leb (length (split b'-' v)) 2 && all parses (split b'-' v)
  where
    fits : Option ℕ → Bool
    fits none = false
    fits (some n) = ltb n (2 ^ 32)

    parses : Text → Bool
    parses p = fits (digits p)

-- validateHKey
unfoldable pub validate_h_key : Field → Text → Errors
unfolding is_valid_h_value
validate_h_key f v = error_if (not (is_empty v || is_valid_h_value v)) f "bad_h_range"

-- validateAWGKey
unfoldable pub validate_awg_key : Field → ℤ → ℕ → Errors
validate_awg_key f z max = error_if (below z 0 || above z max) f "awg_range"

abbrev pub is_32 : Option ℕ → Bool
is_32 none = false
is_32 (some n) = n == 32

abbrev pub address_error : Option ℕ → Errors
address_error none = error_if true (Field.interface "Address") "bad_cidr"
address_error (some ones) = error_if (ones == 0) (Field.interface "Address") "cidr_zero"

abbrev pub both_positive : ℤ → ℤ → Bool
both_positive (pos (suc m)) (pos (suc n)) = ltb n m
both_positive _ _ = false

abbrev pub port_code : Option ℤ → Option String
port_code none = some "bad_endpoint_port"
port_code (some z) = if below z 1 || above z 65535 then some "bad_endpoint_port" else none

abbrev pub host_port_code : Option (Text × Text) → Option String
host_port_code none = some "bad_endpoint"
host_port_code (some (host, port)) =
    if is_empty host then some "endpoint_host_empty" else port_code (atoi port)

abbrev pub endpoint_error : ℕ → Option String → Errors
endpoint_error n none = []
endpoint_error n (some code) = error_if true (Field.peer n "Endpoint") code

abbrev pub keepalive_error : ℕ → Option ℤ → Errors
keepalive_error n none = []
keepalive_error n (some z) =
    error_if (below z 0 || above z 65535) (Field.peer n "PersistentKeepalive") "keepalive_range"

module _ (net : NetLib) where
  -- isValidWireGuardKey
  unfoldable pub is_valid_key : Text → Bool
  is_valid_key k = is_32 (net.decoded_length k)

  -- The loop over the addresses.
  unfoldable pub address_errors : List Text → Errors
  address_errors [] = []
  address_errors (a ∷ others) = address_error (net.parse_cidr a) ++ address_errors others

  unfoldable pub dns_errors : List Text → Errors
  unfolding is_hostname
  dns_errors [] = []
  dns_errors (d ∷ ds) =
      error_if (not (net.parse_ip d) && not (is_hostname d)) (Field.interface "DNS") "bad_dns"
      ++ dns_errors ds

  -- validateInterface
  unfoldable pub validate_interface : InterfaceConfig → Errors
  unfolding is_valid_key address_errors dns_errors validate_awg_key validate_h_key
  validate_interface i =
      (if is_empty i.private_key
        then error_if true (Field.interface "PrivateKey") "required"
        else error_if (not (is_valid_key i.private_key)) (Field.interface "PrivateKey") "bad_key")
      ++ ((if is_empty i.address
            then error_if true (Field.interface "Address") "required"
            else address_errors i.address)
          ++ (dns_errors i.dns
              ++ (error_if (not (is_zero i.mtu) && (below i.mtu 576 || above i.mtu 65535))
                    (Field.interface "MTU") "range_mtu"
                  ++ (error_if
                        (not (is_zero i.listen_port)
                          && (below i.listen_port 1 || above i.listen_port 65535))
                        (Field.interface "ListenPort") "range_listenport"
                      ++ (validate_awg_key (Field.interface "Jc") i.jc (2 ^ 32 - 1)
                          ++ (validate_awg_key (Field.interface "Jmin") i.jmin (2 ^ 32 - 1)
                              ++ (validate_awg_key (Field.interface "Jmax") i.jmax (2 ^ 32 - 1)
                                  ++ (error_if (both_positive i.jmin i.jmax)
                                        (Field.interface "Jmin") "jmin_jmax"
                                      ++ (validate_awg_key (Field.interface "S1") i.s1 65535
                                          ++ (validate_awg_key (Field.interface "S2") i.s2 65535
                                              ++ (validate_awg_key (Field.interface "S3") i.s3 65535
                                                  ++ (validate_awg_key (Field.interface "S4") i.s4
                                                        65535
                                                      ++ (validate_h_key (Field.interface "H1") i.h1
                                                          ++ (validate_h_key (Field.interface "H2")
                                                            i.h2
                                                            ++ (validate_h_key
                                                            (Field.interface "H3") i.h3
                                                            ++ validate_h_key (Field.interface "H4")
                                                            i.h4)))))))))))))))

  -- validateEndpoint: `none` is no error.
  unfoldable pub validate_endpoint : Text → Option String
  validate_endpoint e = host_port_code (net.split_host_port e)

  unfoldable pub cidr_errors : ℕ → List Text → Errors
  cidr_errors n [] = []
  cidr_errors n (a ∷ others) =
      error_if (is_none (net.parse_cidr a)) (Field.peer n "AllowedIPs") "bad_cidr"
      ++ cidr_errors n others

  -- validatePeer
  unfoldable pub validate_peer : PeerConfig → ℕ → Errors
  unfolding is_valid_key validate_endpoint cidr_errors
  validate_peer p n =
      (if is_empty p.public_key
        then error_if true (Field.peer n "PublicKey") "required"
        else error_if (not (is_valid_key p.public_key)) (Field.peer n "PublicKey") "bad_key")
      ++ (error_if (not (is_empty p.preshared_key) && not (is_valid_key p.preshared_key))
            (Field.peer n "PresharedKey") "bad_key"
          ++ ((if is_empty p.endpoint then [] else endpoint_error n (validate_endpoint p.endpoint))
              ++ ((if is_empty p.allowed_ips
                    then error_if true (Field.peer n "AllowedIPs") "required"
                    else cidr_errors n p.allowed_ips)
                  ++ keepalive_error n p.persistent_keepalive)))

  -- The loop over the peers.
  unfoldable pub peer_errors : ℕ → List PeerConfig → Errors
  unfolding validate_peer
  peer_errors n [] = []
  peer_errors n (p ∷ ps) = validate_peer p n ++ peer_errors (suc n) ps

  -- Validate
  unfoldable pub validate : WireGuardConfig → Errors
  unfolding validate_interface peer_errors
  validate c =
      validate_interface c.interface
      ++ (error_if (is_empty c.peers) Field.peer_section "need_peer" ++ peer_errors 0 c.peers)

-- IsValid
abbrev pub is_valid : Errors → Bool
is_valid errors = is_empty errors
