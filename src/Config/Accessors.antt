-- ===== src/Config/Accessors.antt =====
-- The methods of WireGuardConfig in internal/domain/config.go. net.ParseCIDR is a parameter: the
-- numbers of ones and of bits of the mask, for a text that it takes.
use wireguide_plus.Common.Text.{Text}
use wireguide_plus.Common.{
  ℕ, List, [], ◌∷◌, ◌++◌, Option, none, some, Bool, false, ◌&&◌, ◌||◌, not, ◌==◌, is_empty, any,
  if◌then◌else◌,
}
use wireguide_plus.Config.Model.{WireGuardConfig, PeerConfig}

-- HasScripts
unfoldable pub has_scripts : WireGuardConfig → Bool
has_scripts c =
    not (is_empty c.interface.pre_up)
    || (not (is_empty c.interface.post_up)
        || (not (is_empty c.interface.pre_down) || not (is_empty c.interface.post_down)))

pub data Hook : Type 0 where
  pre_up post_up pre_down post_down : Hook

pub record Script : Type 0 where
  pub hook : Hook
  pub command : Text

unfoldable pub script_if : Hook → Text → List Script
script_if hook command =
    if not (is_empty command) then record { hook = hook; command = command } ∷ [] else []

-- Scripts
unfoldable pub scripts : WireGuardConfig → List Script
unfolding script_if
scripts c =
    script_if Hook.pre_up c.interface.pre_up
    ++ (script_if Hook.post_up c.interface.post_up
        ++ (script_if Hook.pre_down c.interface.pre_down
            ++ script_if Hook.post_down c.interface.post_down))

-- All AllowedIPs of all peers, as the connect and the disconnect collect them.
unfoldable pub all_allowed_ips : List PeerConfig → List Text
all_allowed_ips [] = []
all_allowed_ips (p ∷ ps) = p.allowed_ips ++ all_allowed_ips ps

-- Endpoints
unfoldable pub endpoints : List PeerConfig → List Text
endpoints [] = []
endpoints (p ∷ ps) =
    let rest = endpoints ps in if not (is_empty p.endpoint) then p.endpoint ∷ rest else rest

module _ (parse_cidr : Text → Option (ℕ × ℕ)) where
  abbrev pub is_default_mask : Option (ℕ × ℕ) → Bool
  is_default_mask none = false
  is_default_mask (some (ones, bits)) = (ones == 0) && ((bits == 32) || (bits == 128))

  -- IsFullTunnel
  unfoldable pub is_full_tunnel_config : WireGuardConfig → Bool
  is_full_tunnel_config c =
      any (λ p. any (λ ip. is_default_mask (parse_cidr ip)) p.allowed_ips) c.peers
