-- ===== src/Common/Int.antt =====
-- Signed integers over the native numbers: Go's int where a negative value is possible.
use Prim.Native.Nat.{ℕ, zero, suc}
use mathlib.Core.Bool.{Bool, true, false}
use wireguide_plus.Common.Tests.{ltb, if◌then◌else◌}

-- `negsuc n` is -(n + 1).
pub data ℤ : Type 0 where
  pos : ℕ → ℤ
  negsuc : ℕ → ℤ

-- -n
abbrev pub neg : ℕ → ℤ
neg zero = pos 0
neg (suc n) = negsuc n

-- Whether lo ≤ z ≤ hi for bounds that are not negative.
abbrev pub in_range : ℕ → ℕ → ℤ → Bool
in_range lo hi (pos n) = if ltb n lo then false else if ltb hi n then false else true
in_range lo hi (negsuc n) = false
