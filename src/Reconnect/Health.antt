-- ===== src/Reconnect/Health.antt =====
-- Which tunnels the monitor of internal/reconnect/monitor.go reconnects by itself: the tick of
-- monitorLoop, healIfNeeded, and tunnelIsUp. Ages are nanoseconds; the age of a zero time is `none`.
use wireguide_plus.Common.{
  ℕ, ◌*◌, ◌^◌, List, [], ◌∷◌, ◌++◌, Option, some, none, String, Bool, true, false, ◌||◌, not, ltb,
  if◌then◌else◌,
}

-- What the monitor reads of tunnel.ConnectionStatus. Any state but "connected" is `other`.
pub data TunnelState : Type 0 where
  connected other : TunnelState

pub record Status : Type 0 where
  pub tunnel_name : String
  pub state : TunnelState
  pub handshake_age : Option ℕ
  pub connected_age : Option ℕ
  pub handshake_stale : Bool

-- 180 seconds
abbrev pub handshake_stale_threshold : ℕ
handshake_stale_threshold = 180 * 10 ^ 9

abbrev pub is_connected : TunnelState → Bool
is_connected TunnelState.connected = true
is_connected TunnelState.other = false

-- The age that counts: since the last handshake, or since the connect if there was none.
abbrev pub age_of : Option ℕ → Option ℕ → Option ℕ
age_of (some age) connected_age = some age
age_of none connected_age = connected_age

abbrev pub is_old : Option ℕ → Bool
is_old none = false
is_old (some age) = ltb handshake_stale_threshold age

module _ (disabled : String → Bool) where
  -- One status of the tick: whether its tunnel is reconnected.
  unfoldable pub is_stale : Option Status → Bool
  is_stale none = false
  is_stale (some s) =
      if not (is_connected s.state)
      then false
      else if disabled s.tunnel_name
      then false
      else is_old (age_of s.handshake_age s.connected_age)

  -- One status of healIfNeeded.
  unfoldable pub is_dead : Option Status → Bool
  is_dead none = false
  is_dead (some s) =
      if not (not (is_connected s.state) || s.handshake_stale)
      then false
      else not (disabled s.tunnel_name)

abbrev pub name_of : Option Status → List String
name_of none = []
name_of (some s) = s.tunnel_name ∷ []

-- The tunnels that the loop triggers, in order.
unfoldable pub triggered : (Option Status → Bool) → List (Option Status) → List String
triggered test [] = []
triggered test (s ∷ ss) = if test s then name_of s ++ triggered test ss else triggered test ss

-- A tick of monitorLoop; `any_connected` is manager.IsConnected.
unfoldable pub tick : Bool → (String → Bool) → Bool → List (Option Status) → List String
unfolding triggered is_stale
tick enabled disabled any_connected statuses =
    if not enabled
    then []
    else if not any_connected
    then []
    else triggered (is_stale disabled) statuses

-- healIfNeeded
unfoldable pub heal_if_needed : Bool → (String → Bool) → List (Option Status) → List String
unfolding triggered is_dead
heal_if_needed enabled disabled statuses =
    if not enabled then [] else triggered (is_dead disabled) statuses
