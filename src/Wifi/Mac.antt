-- ===== src/Wifi/Mac.antt =====
-- internal/wifi/automation.go: canonicalMAC.
use wireguide_plus.Common.{ℕ, ◌+◌, ◌-◌, [], ◌∷◌, Bool, ◌&&◌, ◌||◌, leb, ◌==◌, if◌then◌else◌, length}
use wireguide_plus.Common.Text.{Text}

-- '0'..'9' and 'a'..'f'
unfoldable pub is_lower_hex : ℕ → Bool
is_lower_hex r = (leb b'0' r && leb r b'9') || (leb b'a' r && leb r b'f')

unfoldable pub is_upper_hex : ℕ → Bool
is_upper_hex r = leb b'A' r && leb r b'F'

-- The loop: hex digits in lower case, everything else dropped.
unfoldable pub hex_digits : Text → Text
unfolding is_lower_hex is_upper_hex
hex_digits [] = []
hex_digits (r ∷ s) =
    if is_lower_hex r
    then r ∷ hex_digits s
    else if is_upper_hex r
    then (r + (b'a' - b'A')) ∷ hex_digits s
    else hex_digits s

unfoldable pub canonical_mac : Text → Text
unfolding hex_digits
canonical_mac s = if length (hex_digits s) == 12 then hex_digits s else []
