-- ===== src/Wire/Ints/Network.antt =====
-- The integers on the wire are big-endian, whatever the byte order of the host.
use fcopy.Base.{
  ℕ, zero, suc, ◌+◌, ◌*◌, ◌/◌, ◌%◌, ◌^◌, ◌≤◌, ◌<◌, ◌≡◌, refl, sym, ap, ap₂, ◌∙◌, Bytes, AllBytes,
  [], ◌∷◌, ◌++◌, length, length-append, All-append, reverse, append-nil, append_assoc, arith,
}
use mathlib.Core.List.{reverse-cons, reverse-reverse}
use native.Mathlib.Nat.{
  pow-suc, one-le-pow, mod-eq_of_lt, mul-le-mul_right, mul_comm, mul_assoc, le_trans, add-zero,
}
use fcopy.Wire.Ints.{
  Endian, little, big, swap_loop, byte_swap, low_first, from_low_first, to_memory, from_memory,
}

-- Highest byte first, and the number that follows the bytes of `acc` in that order.
unfoldable pub big_endian : ℕ → ℕ → Bytes
big_endian zero n = []
big_endian (suc k) n = big_endian k (n / 256) ++ n % 256 ∷ []

unfoldable pub from_big_endian : ℕ → Bytes → ℕ
from_big_endian acc [] = acc
from_big_endian acc (b ∷ bs) = from_big_endian (acc * 256 + b) bs

pub length-big_endian : (k n : ℕ) → length (big_endian k n) ≡ k
unfolding big_endian
length-big_endian zero n = refl
length-big_endian (suc k) n =
    omega
      (arith, length-append (big_endian k (n / 256)) (n % 256 ∷ []), length-big_endian k (n / 256))

pub big_endian-AllBytes : (k n : ℕ) → AllBytes (big_endian k n)
unfolding big_endian
big_endian-AllBytes zero n = tt
big_endian-AllBytes (suc k) n =
    All-append _ (big_endian k (n / 256)) (n % 256 ∷ []) (big_endian-AllBytes k (n / 256))
      (omega arith)

from_big_endian-snoc :
    (acc : ℕ) (bs : Bytes) (b : ℕ)
    → from_big_endian acc (bs ++ b ∷ []) ≡ from_big_endian acc bs * 256 + b
unfolding from_big_endian
from_big_endian-snoc acc [] b = refl
from_big_endian-snoc acc (x ∷ bs) b = from_big_endian-snoc (acc * 256 + x) bs b

-- A number of `k` bytes is read back from its big-endian bytes.
pub from_big_endian-big_endian : (k n : ℕ) → n < 256 ^ k → from_big_endian 0 (big_endian k n) ≡ n
unfolding big_endian from_big_endian
from_big_endian-big_endian zero n h = omega arith
from_big_endian-big_endian (suc k) n h =
    rw (from_big_endian-snoc 0 (big_endian k (n / 256)) (n % 256)) (
      omega (
        arith,
        from_big_endian-big_endian k (n / 256)
            (let e : 256 ^ suc k ≡ 256 ^ k * 256 = pow-suc 256 k in omega arith),
      ))

low_first-eq : (k n : ℕ) → reverse (low_first k n) ≡ big_endian k n
unfolding low_first big_endian
low_first-eq zero n = refl
low_first-eq (suc k) n =
    rw (reverse-cons (n % 256) (low_first k (n / 256)), low_first-eq k (n / 256)) refl

-- Taking the bytes of a number apart gives the list that it was made of, last byte first.
low_first-from_big_endian :
    (j acc : ℕ) (bs : Bytes)
    → AllBytes bs
    → low_first (length bs + j) (from_big_endian acc bs) ≡ reverse bs ++ low_first j acc
unfolding from_big_endian
low_first-from_big_endian j acc [] h = ap (λ k. low_first k acc) (omega arith)
low_first-from_big_endian j acc (b ∷ bs) h =
    ap (λ k. low_first k (from_big_endian (acc * 256 + b) bs)) (omega arith)
    ∙ low_first-from_big_endian (suc j) (acc * 256 + b) bs h.1
    ∙ rw (reverse-cons b bs, append_assoc)
        (ap (◌++◌ (reverse bs))
          (unfold low_first in ap₂ (λ x y. x ∷ low_first j y) (omega arith) (omega arith)))

-- The bytes that a number is swapped to stay within its type.
swap_step :
    (p m ret d : ℕ)
    → 1 ≤ p
    → d < 256
    → (ret + 1) * (p * 256) ≤ m
    → (ret * 256 < m) × ((ret * 256 + d + 1) * p ≤ m)
swap_step p m ret d hp hd h = (grind arith, grind arith)

swap_loop-eq :
    (i modulus ret n : ℕ)
    → (ret + 1) * 256 ^ i ≤ modulus
    → swap_loop i modulus ret n ≡ from_big_endian ret (low_first i n)
unfolding swap_loop from_big_endian low_first
swap_loop-eq zero modulus ret n h = refl
swap_loop-eq (suc i) modulus ret n h =
    rw (mod-eq_of_lt s.0) (swap_loop-eq i modulus (ret * 256 + n % 256) (n / 256) s.1)
  where
    s : (ret * 256 < modulus) × ((ret * 256 + n % 256 + 1) * 256 ^ i ≤ modulus)
    s =
        swap_step (256 ^ i) modulus ret (n % 256) (one-le-pow i 256 (omega arith)) (omega arith)
          (rw (pow-suc 256 i) at h)

byte_swap-little : (k n : ℕ) → byte_swap little k n ≡ from_big_endian 0 (low_first k n)
unfolding byte_swap
byte_swap-little k n = swap_loop-eq k (256 ^ k) 0 n (omega arith)

length-low_first : (k n : ℕ) → length (low_first k n) ≡ k
unfolding low_first
length-low_first zero n = refl
length-low_first (suc k) n = ap suc (length-low_first k (n / 256))

low_first-AllBytes : (k n : ℕ) → AllBytes (low_first k n)
unfolding low_first
low_first-AllBytes zero n = tt
low_first-AllBytes (suc k) n = (omega arith, low_first-AllBytes k (n / 256))

low_first-from_low_first :
    (bs : Bytes) → AllBytes bs → low_first (length bs) (from_low_first bs) ≡ bs
unfolding low_first from_low_first
low_first-from_low_first [] h = refl
low_first-from_low_first (b ∷ bs) h =
    ap₂ (λ x y. x ∷ low_first (length bs) y) (omega arith) (omega arith)
    ∙ ap (◌∷◌ b) (low_first-from_low_first bs h.1)

from_low_first-reverse : (bs : Bytes) → from_low_first bs ≡ from_big_endian 0 (reverse bs)
unfolding from_low_first
from_low_first-reverse [] = unfold from_big_endian in refl
from_low_first-reverse (b ∷ bs) =
    rw (reverse-cons b bs, from_big_endian-snoc 0 (reverse bs) b)
      (omega (arith, from_low_first-reverse bs))

low_first-swapped : (k n : ℕ) → low_first k (from_big_endian 0 (low_first k n)) ≡ big_endian k n
unfolding low_first big_endian
low_first-swapped k n =
    ap (λ j. low_first j (from_big_endian 0 (low_first k n))) (omega (arith, length-low_first k n))
    ∙ low_first-from_big_endian 0 0 (low_first k n) (low_first-AllBytes k n)
    ∙ append-nil (reverse (low_first k n))
    ∙ low_first-eq k n

-- The bytes in memory of an integer that byte_swap has been applied to, as append_int writes them,
-- are its low bytes in big-endian order, on a host of either byte order.
pub to_memory-byte_swap :
    (host : Endian) (k n : ℕ) → to_memory host k (byte_swap host k n) ≡ big_endian k n
to_memory-byte_swap little k n =
    rw (byte_swap-little k n) (unfold to_memory in low_first-swapped k n)
to_memory-byte_swap big k n = unfold to_memory byte_swap in low_first-eq k n

-- byte_swap of the integer that stands in memory, as decode_int reads it, is the big-endian number
-- of its bytes, on a host of either byte order.
pub byte_swap-from_memory :
    (host : Endian) (bs : Bytes)
    → AllBytes bs
    → byte_swap host (length bs) (from_memory host bs) ≡ from_big_endian 0 bs
byte_swap-from_memory little bs h =
    byte_swap-little (length bs) (from_memory little bs)
    ∙ ap (from_big_endian 0) (unfold from_memory in low_first-from_low_first bs h)
byte_swap-from_memory big bs h =
    unfold byte_swap from_memory in
    (from_low_first-reverse (reverse bs) ∙ ap (from_big_endian 0) (reverse-reverse bs))

-- `k` bytes are the big-endian bytes of the number that they stand for.
pub big_endian-from_big_endian :
    (bs : Bytes) → AllBytes bs → big_endian (length bs) (from_big_endian 0 bs) ≡ bs
unfolding low_first
big_endian-from_big_endian bs h =
    sym (low_first-eq (length bs) (from_big_endian 0 bs))
    ∙ ap (λ k. reverse (low_first k (from_big_endian 0 bs))) (sym (add-zero (length bs)))
    ∙ ap reverse (low_first-from_big_endian 0 0 bs h)
    ∙ ap reverse (append-nil (reverse bs))
    ∙ reverse-reverse bs

pub from_big_endian-lt :
    (acc : ℕ) (bs : Bytes) → AllBytes bs → from_big_endian acc bs < (acc + 1) * 256 ^ length bs
unfolding from_big_endian
from_big_endian-lt acc [] h = omega arith
from_big_endian-lt acc (b ∷ bs) h =
    rw (pow-suc 256 (length bs))
      (grow (256 ^ length bs) _ acc b h.0 (from_big_endian-lt (acc * 256 + b) bs h.1))
  where
    grow : (p v a d : ℕ) → d < 256 → v < (a * 256 + d + 1) * p → v < (a + 1) * (p * 256)
    grow p v a d hd hv =
        let fits : a * 256 + d + 1 ≤ (a + 1) * 256 = omega arith in
        rw (mul_comm p 256, ← mul_assoc (a + 1) 256 p) (le_trans hv (mul-le-mul_right p fits))
