-- ===== src/Wire/Ints.antt =====
-- Integers and strings on the wire: byte_swap, append_int, decode_int and the string forms of
-- src/common/message.cpp. `size` is sizeof(T), and the host's byte order is an argument.
pub mod Network
pub mod Fields
use fcopy.Base.{
  ℕ, zero, suc, ◌+◌, ◌*◌, ◌/◌, ◌%◌, ◌^◌, Bytes, [], ◌∷◌, ◌++◌, Option, none, some, length, take,
  drop, ltb, if◌then◌else◌, ◌>>=◌, reverse,
}

-- std::endian::native.
pub data Endian : Type 0 where
  little big : Endian

-- The loop of `byte_swap`, with `modulus` 2 ^ (8 * size): `ret << 8` loses what leaves the type,
-- and has a zero low byte, so that `|` adds.
pub swap_loop : ℕ → ℕ → ℕ → ℕ → ℕ
swap_loop zero modulus ret n = ret
swap_loop (suc i) modulus ret n = swap_loop i modulus (ret * 256 % modulus + n % 256) (n / 256)

unfoldable pub byte_swap : Endian → ℕ → ℕ → ℕ
unfolding swap_loop
byte_swap little size n = swap_loop size (256 ^ size) 0 n
byte_swap big size n = n

-- The low `size` bytes of a number, lowest first, and the number of such a list.
unfoldable pub low_first : ℕ → ℕ → Bytes
low_first zero n = []
low_first (suc k) n = n % 256 ∷ low_first k (n / 256)

pub from_low_first : Bytes → ℕ
from_low_first [] = 0
from_low_first (b ∷ bs) = b + 256 * from_low_first bs

-- The bytes of an object of `size` bytes in memory, and the object with these bytes.
unfoldable pub to_memory : Endian → ℕ → ℕ → Bytes
unfolding low_first
to_memory little size n = low_first size n
to_memory big size n = reverse (low_first size n)

unfoldable pub from_memory : Endian → Bytes → ℕ
unfolding from_low_first
from_memory little bs = from_low_first bs
from_memory big bs = from_low_first (reverse bs)

module _ (host : Endian) where
  unfoldable pub append_int : ℕ → Bytes → ℕ → Bytes
  unfolding byte_swap to_memory
  append_int size s n = s ++ to_memory host size (byte_swap host size n)

  -- A length is a uint32_t on the wire.
  unfoldable pub append_string : Bytes → Bytes → Bytes
  unfolding append_int
  append_string s o = append_int 4 s (length o % 2 ^ 32) ++ o

  -- The integer and the position after it; `none` is the result -1.
  unfoldable pub decode_int : ℕ → Bytes → ℕ → Option (ℕ × ℕ)
  unfolding byte_swap from_memory
  decode_int size s pos =
      if ltb (length s) (pos + size)
      then none
      else some (byte_swap host size (from_memory host (take size (drop pos s))), pos + size)

  unfoldable pub decode_string : Bytes → ℕ → Option (Bytes × ℕ)
  unfolding decode_int
  decode_string s pos = do
    (n, pos') ← decode_int 4 s pos
    if ltb (length s) (pos' + n) then none else some (take n (drop pos' s), pos' + n)
