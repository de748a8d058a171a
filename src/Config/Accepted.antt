-- ===== src/Config/Accepted.antt =====
-- What internal/config/validator.go accepts.
use wireguide_plus.Common.{
  ℕ, zero, suc, ◌^◌, ◌≤◌, ◌<◌, ◌≡◌, ◌↔◌, ◌⊎◌, inl, inr, refl, [], ◌∷◌, ◌++◌, Option, some, none,
  Bool, true, false, ◌&&◌, ◌||◌, not, is_empty, All, arith, String,
}
use wireguide_plus.Common.Int.{ℤ, pos, negsuc}
use wireguide_plus.Common.Text.{Text, atoi}
use wireguide_plus.Config.Model.{InterfaceConfig, PeerConfig, is_zero}
use wireguide_plus.Config.Validator.{
  NetLib, Field, Errors, error_if, below, above, is_hostname, is_valid_h_value, validate_h_key,
  validate_awg_key, both_positive,
}
use wireguide_plus.Common.{◌-◌}

-- A number in a range.
abbrev pub Between : ℕ → ℕ → ℤ → Type 0
Between lo hi (pos n) = (lo ≤ n) × (n ≤ hi)
Between lo hi (negsuc n) = ⊥

-- Zero, which stands for "not set", or a number in a range.
abbrev pub ZeroOr : ℕ → ℕ → ℤ → Type 0
ZeroOr lo hi z = (z ≡ pos 0) ⊎ Between lo hi z

-- Two lower bounds that are both set are in order.
abbrev pub InOrder : ℤ → ℤ → Type 0
InOrder (pos (suc m)) (pos (suc n)) = m ≤ n
InOrder _ _ = Unit {0}

-- Empty, or accepted by the test.
abbrev pub EmptyOr : (Text → Bool) → Text → Type 0
EmptyOr test v = (is_empty v ≡ true) ⊎ (test v ≡ true)

abbrev pub IsKeepalive : Option ℤ → Type 0
IsKeepalive none = Unit {0}
IsKeepalive (some z) = Between 0 65535 z

module _ (net : NetLib) where
  -- A key that decodes to 32 bytes.
  abbrev pub IsKey : Text → Type 0
  IsKey k = net.decoded_length k ≡ some 32

  abbrev pub IsAddress : Text → Type 0
  IsAddress a = (ones : ℕ) × (net.parse_cidr a ≡ some ones) × (0 < ones)

  abbrev pub IsCidr : Text → Type 0
  IsCidr a = (ones : ℕ) × (net.parse_cidr a ≡ some ones)

  abbrev pub IsDns : Text → Type 0
  IsDns d = (net.parse_ip d ≡ true) ⊎ (is_hostname d ≡ true)

  -- A host that is not empty, and a port.
  abbrev pub IsEndpoint : Text → Type 0
  IsEndpoint e =
      (host : Text) × (port : Text) × (z : ℤ) × (net.split_host_port e ≡ some (host, port))
      × (is_empty host ≡ false)
      × (atoi port ≡ some z)
      × Between 1 65535 z

  abbrev pub IsAcceptedInterface : InterfaceConfig → Type 0
  IsAcceptedInterface i =
      ((is_empty i.private_key ≡ false) × IsKey i.private_key)
      × (((is_empty i.address ≡ false) × All IsAddress i.address)
          × (All IsDns i.dns
              × (ZeroOr 576 65535 i.mtu
                  × (ZeroOr 1 65535 i.listen_port
                      × (Between 0 (2 ^ 32 - 1) i.jc
                          × (Between 0 (2 ^ 32 - 1) i.jmin
                              × (Between 0 (2 ^ 32 - 1) i.jmax
                                  × (InOrder i.jmin i.jmax
                                      × (Between 0 65535 i.s1
                                          × (Between 0 65535 i.s2
                                              × (Between 0 65535 i.s3
                                                  × (Between 0 65535 i.s4
                                                      × (EmptyOr is_valid_h_value i.h1
                                                          × (EmptyOr is_valid_h_value i.h2
                                                            × (EmptyOr is_valid_h_value i.h3
                                                            × EmptyOr is_valid_h_value
                                                            i.h4)))))))))))))))

  abbrev pub IsAcceptedPeer : PeerConfig → Type 0
  IsAcceptedPeer p =
      ((is_empty p.public_key ≡ false) × IsKey p.public_key)
      × (((is_empty p.preshared_key ≡ true) ⊎ IsKey p.preshared_key)
          × (((is_empty p.endpoint ≡ true) ⊎ IsEndpoint p.endpoint)
              × (((is_empty p.allowed_ips ≡ false) × All IsCidr p.allowed_ips)
                  × IsKeepalive p.persistent_keepalive)))

-- No error comes from the one part and none from the other.
pub both :
    {P Q : Type 0} (a b : Errors)
    → (is_empty a ≡ true) ↔ P
    → (is_empty b ≡ true) ↔ Q
    → (is_empty (a ++ b) ≡ true) ↔ (P × Q)
both [] b h k = (λ e. (h.0 refl, k.0 e), λ q. k.1 q.1)
both (x ∷ a) b h k = (λ e. cc, λ q. h.1 q.0)

pub none_if :
    {P : Type 0} (b : Bool) (f : Field) (c : String)
    → (b ≡ false) ↔ P
    → (is_empty (error_if b f c) ≡ true) ↔ P
none_if true f c h = (λ e. cc, λ p. let e = h.1 p in cc)
none_if false f c h = (λ e. h.0 refl, λ p. refl)

pub Between-iff : (lo hi : ℕ) (z : ℤ) → (below z lo || above z hi ≡ false) ↔ Between lo hi z
Between-iff lo hi (pos n) = (λ h. (ground arith, ground arith), λ h. ground arith)
Between-iff lo hi (negsuc n) = (λ h. cc, λ h. absurd h)

pub ZeroOr-iff :
    (lo hi : ℕ) (z : ℤ) → (not (is_zero z) && (below z lo || above z hi) ≡ false) ↔ ZeroOr lo hi z
ZeroOr-iff lo hi (pos zero) = (λ h. inl refl, λ h. refl)
ZeroOr-iff lo hi (pos (suc n)) = (
  λ h. inr ((Between-iff lo hi (pos (suc n))).0 h),
  λ h. elim h [ inl e ↦ ground arith | inr b ↦ (Between-iff lo hi (pos (suc n))).1 b ],
)
ZeroOr-iff lo hi (negsuc n) = (λ h. cc, λ h. elim h [ inl e ↦ cc | inr b ↦ absurd b ])

pub order_iff : (m n : ℤ) → (both_positive m n ≡ false) ↔ InOrder m n
order_iff (pos (suc m)) (pos (suc n)) = (λ h. ground arith, λ h. ground arith)
order_iff (pos (suc m)) (pos zero) = (λ h. tt, λ h. refl)
order_iff (pos (suc m)) (negsuc n) = (λ h. tt, λ h. refl)
order_iff (pos zero) n = (λ h. tt, λ h. refl)
order_iff (negsuc m) n = (λ h. tt, λ h. refl)

pub awg_iff :
    (f : Field) (z : ℤ) (max : ℕ) → (is_empty (validate_awg_key f z max) ≡ true) ↔ Between 0 max z
unfolding validate_awg_key
awg_iff f z max = none_if (below z 0 || above z max) f "awg_range" (Between-iff 0 max z)

pub h_iff :
    (f : Field) (v : Text) → (is_empty (validate_h_key f v) ≡ true) ↔ EmptyOr is_valid_h_value v
unfolding validate_h_key
h_iff f v =
    none_if (not (is_empty v || is_valid_h_value v)) f "bad_h_range"
      (or_iff (is_empty v) (is_valid_h_value v))
  where
    or_iff : (a b : Bool) → (not (a || b) ≡ false) ↔ ((a ≡ true) ⊎ (b ≡ true))
    or_iff true b = (λ h. inl refl, λ h. refl)
    or_iff false true = (λ h. inr refl, λ h. refl)
    or_iff false false = (λ h. cc, λ h. elim h [ inl e ↦ cc | inr e ↦ cc ])
