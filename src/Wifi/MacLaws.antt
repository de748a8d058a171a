-- ===== src/Wifi/MacLaws.antt =====
-- The laws of canonicalMAC in internal/wifi/automation.go.
use wireguide_plus.Common.{
  ℕ, ◌-◌, ◌≡◌, refl, ap, [], ◌∷◌, ◌++◌, map, false, arith, if◌then◌else◌, length, leb, ◌&&◌, ◌==◌,
}
use wireguide_plus.Common.Text.{Text}
use wireguide_plus.Wifi.Mac.{is_lower_hex, is_upper_hex, hex_digits, canonical_mac}

-- 'a'..'f' in upper case, everything else as it is.
abbrev pub to_upper_hex : ℕ → ℕ
to_upper_hex r = if leb b'a' r && leb r b'f' then r - (b'a' - b'A') else r

hex_digits_idem : (s : Text) → hex_digits (hex_digits s) ≡ hex_digits s
unfolding hex_digits
hex_digits_idem [] = refl
hex_digits_idem (r ∷ s) = ground (arith, hex_digits_idem s)

hex_digits-upper : (s : Text) → hex_digits (map to_upper_hex s) ≡ hex_digits s
unfolding hex_digits
hex_digits-upper [] = refl
hex_digits-upper (r ∷ s) = ground (arith, hex_digits-upper s)

hex_digits-skip :
    (s t : Text) (r : ℕ)
    → is_lower_hex r ≡ false
    → is_upper_hex r ≡ false
    → hex_digits (s ++ r ∷ t) ≡ hex_digits (s ++ t)
unfolding hex_digits
hex_digits-skip [] t r h k = ground arith
hex_digits-skip (c ∷ s) t r h k = ground (arith, hex_digits-skip s t r h k)

abbrev twelve : Text → Text
twelve ds = if length ds == 12 then ds else []

-- The canonical form of a MAC address does not depend on how the address is written: it is the
-- same with the hex letters in upper case, and with any character that is no hex digit left out
-- or put in anywhere; and the canonical form is its own canonical form.
pub canonical_mac_spelling :
    (s t : Text) (r : ℕ)
    → is_lower_hex r ≡ false
    → is_upper_hex r ≡ false
    → (canonical_mac (map to_upper_hex (s ++ t)) ≡ canonical_mac (s ++ t))
      × (canonical_mac (s ++ r ∷ t) ≡ canonical_mac (s ++ t))
      × (canonical_mac (canonical_mac (s ++ t)) ≡ canonical_mac (s ++ t))
unfolding canonical_mac
canonical_mac_spelling s t r h k = (
  ap twelve (hex_digits-upper (s ++ t)),
  ap twelve (hex_digits-skip s t r h k),
  ground (arith, hex_digits_idem (s ++ t)),
)
