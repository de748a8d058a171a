-- ===== src/Config/Verdict.antt =====
-- Validate of internal/config/validator.go accepts exactly the configurations that are in order.
use mathlib.Core.Path.{subst}
use wireguide_plus.Common.{
  ℕ, suc, ◌<◌, ◌≡◌, ◌↔◌, ◌⊎◌, inl, inr, refl, sym, ◌∙◌, List, [], ◌∷◌, Option, some, none, Bool,
  true, false, ◌&&◌, ◌||◌, not, if◌then◌else◌, is_empty, is_none, All, arith, Bool-cases, String,
}
use wireguide_plus.Common.Int.{ℤ}
use wireguide_plus.Common.Text.{Text, atoi}
use wireguide_plus.Config.Model.{InterfaceConfig, PeerConfig, WireGuardConfig}
use wireguide_plus.Config.Validator.{
  NetLib, Field, Errors, error_if, below, above, is_hostname, is_valid_key, is_32, address_error,
  address_errors, dns_errors, validate_interface, port_code, host_port_code, validate_endpoint,
  endpoint_error, cidr_errors, keepalive_error, validate_peer, peer_errors, validate, is_valid,
}
use wireguide_plus.Config.Accepted.{
  Between, IsKey, IsAddress, IsCidr, IsDns, IsEndpoint, IsKeepalive, IsAcceptedInterface,
  IsAcceptedPeer, both, none_if, Between-iff, ZeroOr-iff, order_iff, awg_iff, h_iff,
}

is_32_iff : (o : Option ℕ) → (is_32 o ≡ true) ↔ (o ≡ some 32)
is_32_iff none = (λ h. cc, λ h. cc)
is_32_iff (some n) = (λ h. ground arith, λ h. ground arith)

port_iff : (o : Option ℤ) → (port_code o ≡ none) ↔ ((z : ℤ) × (o ≡ some z) × Between 1 65535 z)
port_iff none = (λ h. cc, λ h. cc)
port_iff (some z) = elim (Bool-cases (below z 1 || above z 65535)) [
  | inl bad ↦ (
    λ h.
        let e : below z 1 || above z 65535 ≡ false = ground arith in
        (z, refl, (Between-iff 1 65535 z).0 e),
    λ h. let e = (Between-iff 1 65535 z).1 (subst (Between 1 65535) (cc) h.2) in rw e refl,
  )
  | inr good ↦ (λ h. (z, refl, (Between-iff 1 65535 z).0 good), λ h. rw good refl)
]

accepted-or :
    {P : Type 0} (e : Bool) (a b : Errors)
    → is_empty a ≡ false
    → (is_empty b ≡ true) ↔ P
    → (is_empty (if e then a else b) ≡ true) ↔ ((e ≡ false) × P)
accepted-or true a b h k = (λ x. let y = sym h ∙ x in cc, λ x. let y = x.0 in cc)
accepted-or false a b h k = (λ x. (refl, k.0 x), λ x. k.1 x.1)

module _ (net : NetLib) where
  IsKey-iff : (k : Text) → (is_valid_key net k ≡ true) ↔ IsKey net k
  unfolding is_valid_key
  IsKey-iff k = is_32_iff (net.decoded_length k)

  not-IsKey_iff : (k : Text) → (not (is_valid_key net k) ≡ false) ↔ IsKey net k
  not-IsKey_iff k =
      (λ h. (IsKey-iff k).0 (ground arith), λ h. let e = (IsKey-iff k).1 h in rw e refl)

  required-IsKey_iff :
      (k : Text) (f g : Field) (c d : String)
      → (is_empty
            (if is_empty k then error_if true f c else error_if (not (is_valid_key net k)) g d)
          ≡ true)
        ↔ ((is_empty k ≡ false) × IsKey net k)
  required-IsKey_iff k f g c d =
      accepted-or (is_empty k) (error_if true f c) (error_if (not (is_valid_key net k)) g d) refl
        (none_if (not (is_valid_key net k)) g d (not-IsKey_iff k))

  address_iff :
      (o : Option ℕ) → (is_empty (address_error o) ≡ true) ↔ ((n : ℕ) × (o ≡ some n) × (0 < n))
  address_iff none = (λ h. cc, λ h. let e = h.1 in cc)
  address_iff (some n) = (λ h. (n, refl, ground arith), λ h. ground (arith, h.1, h.2))

  addresses_iff :
      (as' : List Text) → (is_empty (address_errors net as') ≡ true) ↔ All (IsAddress net) as'
  unfolding address_errors
  addresses_iff [] = (λ h. tt, λ h. refl)
  addresses_iff (a ∷ others) =
      both (address_error (net.parse_cidr a)) (address_errors net others)
        (address_iff (net.parse_cidr a)) (addresses_iff others)

  IsDns-iff : (ds : List Text) → (is_empty (dns_errors net ds) ≡ true) ↔ All (IsDns net) ds
  unfolding dns_errors
  IsDns-iff [] = (λ h. tt, λ h. refl)
  IsDns-iff (d ∷ ds) =
      both
        (error_if (not (net.parse_ip d) && not (is_hostname d)) (Field.interface "DNS") "bad_dns")
        (dns_errors net ds)
        (none_if (not (net.parse_ip d) && not (is_hostname d)) (Field.interface "DNS") "bad_dns"
          (either_iff (net.parse_ip d) (is_hostname d)))
        (IsDns-iff ds)
    where
      either_iff : (a b : Bool) → (not a && not b ≡ false) ↔ ((a ≡ true) ⊎ (b ≡ true))
      either_iff true b = (λ h. inl refl, λ h. refl)
      either_iff false true = (λ h. inr refl, λ h. refl)
      either_iff false false = (λ h. cc, λ h. elim h [ inl e ↦ cc | inr e ↦ cc ])

  -- validateInterface finds no error exactly in an interface that is in order.
  validate_interface_iff :
      (i : InterfaceConfig)
      → (is_empty (validate_interface net i) ≡ true) ↔ IsAcceptedInterface net i
  unfolding validate_interface
  validate_interface_iff i = both _ _ (required-IsKey_iff i.private_key _ _ _ _) (
      both _ _ (accepted-or (is_empty i.address) _ _ refl (addresses_iff i.address)) (
        both _ _ (IsDns-iff i.dns) (
          both _ _ (none_if _ _ _ (ZeroOr-iff 576 65535 i.mtu)) (
            both _ _ (none_if _ _ _ (ZeroOr-iff 1 65535 i.listen_port)) (
              both _ _ (awg_iff _ i.jc _) (
                both _ _ (awg_iff _ i.jmin _) (
                  both _ _ (awg_iff _ i.jmax _) (
                    both _ _ (none_if _ _ _ (order_iff i.jmin i.jmax)) (
                      both _ _ (awg_iff _ i.s1 _) (
                        both _ _ (awg_iff _ i.s2 _) (
                          both _ _ (awg_iff _ i.s3 _) (
                            both _ _ (awg_iff _ i.s4 _) (
                              both _ _ (h_iff _ i.h1) (
                                both _ _ (h_iff _ i.h2)
                                  (both _ _ (h_iff _ i.h3) (h_iff _ i.h4))))))))))))))))

  endpoint_code_iff :
      (o : Option (Text × Text))
      → (host_port_code o ≡ none) ↔ (
          (host : Text) × (port : Text) × (z : ℤ) × (o ≡ some (host, port))
          × (is_empty host ≡ false)
          × (atoi port ≡ some z)
          × Between 1 65535 z)
  endpoint_code_iff none = (λ h. cc, λ h. let e = h.3 in cc)
  endpoint_code_iff (some (host, port)) = elim (Bool-cases (is_empty host)) [
    | inl e ↦ (
      λ h. ground arith,
      λ h. let f : is_empty host ≡ false = ground (arith, h.3, h.4) in ground arith,
    )
    | inr e ↦ (
      λ h. let r = (port_iff (atoi port)).0 (ground arith) in (host, port, r.0, refl, e, r.1, r.2),
      λ h.
          let same : atoi port ≡ atoi h.1 = ground (arith, h.3) in
          rw e ((port_iff (atoi port)).1 (h.2, same ∙ h.5, h.6)),
    )
  ]

  endpoint_error_iff :
      (n : ℕ) (o : Option String) → (is_empty (endpoint_error n o) ≡ true) ↔ (o ≡ none)
  endpoint_error_iff n none = (λ h. refl, λ h. refl)
  endpoint_error_iff n (some c) = (λ h. cc, λ h. cc)

  IsEndpoint-iff :
      (n : ℕ) (e : Text)
      → (is_empty (if is_empty e then [] else endpoint_error n (validate_endpoint net e)) ≡ true)
        ↔ ((is_empty e ≡ true) ⊎ IsEndpoint net e)
  unfolding validate_endpoint
  IsEndpoint-iff n [] = (λ h. inl refl, λ h. refl)
  IsEndpoint-iff n (c ∷ e) =
      let code = endpoint_error_iff n (host_port_code (net.split_host_port (c ∷ e))) in
      let known = endpoint_code_iff (net.split_host_port (c ∷ e)) in
      (λ h. inr (known.0 (code.0 h)), λ h. elim h [ inl f ↦ cc | inr f ↦ code.1 (known.1 f) ])

  cidr_iff : (o : Option ℕ) → (is_none o ≡ false) ↔ ((ones : ℕ) × (o ≡ some ones))
  cidr_iff none = (λ h. cc, λ h. let e = h.1 in cc)
  cidr_iff (some n) = (λ h. (n, refl), λ h. refl)

  cidrs_iff :
      (n : ℕ) (ips : List Text) → (is_empty (cidr_errors net n ips) ≡ true) ↔ All (IsCidr net) ips
  unfolding cidr_errors
  cidrs_iff n [] = (λ h. tt, λ h. refl)
  cidrs_iff n (a ∷ others) =
      both _ _ (none_if _ _ _ (cidr_iff (net.parse_cidr a))) (cidrs_iff n others)

  IsKeepalive-iff : (n : ℕ) (o : Option ℤ) → (is_empty (keepalive_error n o) ≡ true) ↔ IsKeepalive o
  IsKeepalive-iff n none = (λ h. tt, λ h. refl)
  IsKeepalive-iff n (some z) = none_if _ _ _ (Between-iff 0 65535 z)

  optional-IsKey_iff :
      (k : Text)
      → (not (is_empty k) && not (is_valid_key net k) ≡ false) ↔ ((is_empty k ≡ true) ⊎ IsKey net k)
  optional-IsKey_iff [] = (λ h. inl refl, λ h. refl)
  optional-IsKey_iff (c ∷ k) = (
    λ h. inr ((not-IsKey_iff (c ∷ k)).0 h),
    λ h. elim h [ inl e ↦ cc | inr e ↦ (not-IsKey_iff (c ∷ k)).1 e ],
  )

  validate_peer_iff :
      (p : PeerConfig) (n : ℕ) → (is_empty (validate_peer net p n) ≡ true) ↔ IsAcceptedPeer net p
  unfolding validate_peer
  validate_peer_iff p n = both _ _ (required-IsKey_iff p.public_key _ _ _ _) (
      both _ _ (none_if _ _ _ (optional-IsKey_iff p.preshared_key)) (
        both _ _ (IsEndpoint-iff n p.endpoint) (
          both _ _ (accepted-or (is_empty p.allowed_ips) _ _ refl (cidrs_iff n p.allowed_ips))
            (IsKeepalive-iff n p.persistent_keepalive))))

  peers_iff :
      (n : ℕ) (ps : List PeerConfig)
      → (is_empty (peer_errors net n ps) ≡ true) ↔ All (IsAcceptedPeer net) ps
  unfolding peer_errors
  peers_iff n [] = (λ h. tt, λ h. refl)
  peers_iff n (p ∷ ps) = both _ _ (validate_peer_iff p n) (peers_iff (suc n) ps)

  -- Validate finds no error exactly in a configuration whose interface is in order, which has a
  -- peer, and whose peers are all in order: keys of 32 bytes, addresses that parse and are not "/0",
  -- numbers in their ranges, endpoints with a host and a port, and allowed IPs.
  pub validate_iff :
      (c : WireGuardConfig)
      → (is_valid (validate net c) ≡ true) ↔ (
          IsAcceptedInterface net c.interface
          × ((is_empty c.peers ≡ false) × All (IsAcceptedPeer net) c.peers))
  unfolding validate
  validate_iff c =
      both _ _ (validate_interface_iff c.interface)
        (both _ _ (none_if _ _ _ (λ h. h, λ h. h)) (peers_iff 0 c.peers))
