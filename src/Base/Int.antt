-- ===== src/Base/Int.antt =====
-- Signed integers over the native numbers, and the int16_t that a message keeps an error in.
use Prim.Native.Nat.{ℕ, zero, suc, ◌-◌, ◌%◌, ◌<◌}
use mathlib.Core.Path.{◌≡◌, sym, ap, ◌∙◌}
use mathlib.Core.Logic.{◌≢◌}
use mathlib.Core.Bool.{Bool, true, false}
use native.Mathlib.Omega.{arith}
use fcopy.Base.Tests.{ltb, ◌==◌, if◌then◌else◌}

-- `negsuc n` is -(n + 1).
pub data ℤ : Type 0 where
  pos : ℕ → ℤ
  negsuc : ℕ → ℤ

abbrev pub is_zero : ℤ → Bool
is_zero (pos n) = n == 0
is_zero (negsuc n) = false

abbrev pub is_negative : ℤ → Bool
is_negative (pos n) = false
is_negative (negsuc n) = true

-- -n for a number n.
abbrev pub neg : ℕ → ℤ
neg zero = pos 0
neg (suc n) = negsuc n

-- The bit pattern of an int converted to int16_t.
unfoldable pub to_int16 : ℤ → ℕ
to_int16 (pos n) = n % 65536
to_int16 (negsuc n) = 65535 - n % 65536

-- The int that an int16_t with this bit pattern promotes to.
unfoldable pub from_int16 : ℕ → ℤ
from_int16 w = if ltb w 32768 then pos w else negsuc (65535 - w)

abbrev pub FitsInt16 : ℤ → Type 0
FitsInt16 (pos n) = n < 32768
FitsInt16 (negsuc n) = n < 32768

pub to_int16-lt : (z : ℤ) → to_int16 z < 65536
unfolding to_int16
to_int16-lt (pos n) = omega arith
to_int16-lt (negsuc n) = omega arith

-- An int in the range of int16_t is read back as it was stored.
pub from_int16-to_int16 : (z : ℤ) → FitsInt16 z → from_int16 (to_int16 z) ≡ z
unfolding to_int16 from_int16
from_int16-to_int16 (pos n) h = ground arith
from_int16-to_int16 (negsuc n) h = ground arith

pub is_zero→eq : (z : ℤ) → is_zero z ≡ true → z ≡ pos 0
is_zero→eq (pos n) h = ground arith
is_zero→eq (negsuc n) h = cc

pub is_zero→ne : (z : ℤ) → is_zero z ≡ false → z ≢ pos 0
is_zero→ne z h e = let wrong : true ≡ false = ap is_zero (sym e) ∙ h in cc
