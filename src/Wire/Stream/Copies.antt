-- ===== src/Wire/Stream/Copies.antt =====
-- The copies of FcopyMessage::append and MessageBase::append_body into the head, the body and the
-- data, for a chunk that is cut in two.
use fcopy.Base.{
  ℕ, zero, suc, ◌+◌, ◌-◌, ◌≤◌, ◌<◌, ◌≡◌, refl, ap, Bytes, [], ◌∷◌, ◌++◌, some, length,
  length-append, length-take, take, drop, take_all, drop_all, take-append_left, drop-append_left,
  take-append_right, drop-append_right, min, append_assoc, arith,
}
use Prim.Native.Nat.add
use native.Mathlib.Nat.{le-add_right, le_refl, add_assoc}
use fcopy.Wire.Head.{MessageBase}
use fcopy.Wire.Stream.{write_at, fill, copy_data}

pub write_at-append :
    (p : Bytes) (at : ℕ) (a b : Bytes)
    → write_at (write_at p at a) (at + length a) b ≡ write_at p at (a ++ b)
unfolding write_at
write_at-append [] at a b = refl
write_at-append (x ∷ p) zero [] b = refl
write_at-append (x ∷ p) zero (y ∷ a) b =
    rw (add.zero (suc (length a)))
      (ap (◌∷◌ y) (rw (← add.zero (length a)) (write_at-append p zero a b)))
write_at-append (x ∷ p) (suc at) a b =
    rw (add.suc at (length a)) (ap (◌∷◌ x) (write_at-append p at a b))

-- A cut of `k` bytes out of two chunks, by whether the first has as many.
cut_short :
    (k : ℕ) (a b : Bytes)
    → length a < k
    → (min (length a) k ≡ length a)
      × (take (min (length (a ++ b)) k) (a ++ b) ≡ a ++ take (min (length b) (k - length a)) b)
      × (drop (min (length (a ++ b)) k) (a ++ b) ≡ drop (min (length b) (k - length a)) b)
      × (min (length (a ++ b)) k ≡ length a + min (length b) (k - length a))
cut_short k a b h = (omega arith, taken, dropped, share)
  where
    share : min (length (a ++ b)) k ≡ length a + min (length b) (k - length a)
    share = omega (arith, length-append a b)

    rest : length a + min (length b) (k - length a) - length a ≡ min (length b) (k - length a)
    rest = omega arith

    taken : take (min (length (a ++ b)) k) (a ++ b) ≡ a ++ take (min (length b) (k - length a)) b
    taken = rw (share, take-append_right (length a + _) a b (le-add_right _ _), rest)

    dropped : drop (min (length (a ++ b)) k) (a ++ b) ≡ drop (min (length b) (k - length a)) b
    dropped = rw (share, drop-append_right (length a + _) a b (le-add_right _ _), rest)

cut_long :
    (k : ℕ) (a b : Bytes)
    → k ≤ length a
    → (min (length a) k ≡ k)
      × (min (length (a ++ b)) k ≡ k)
      × (take k (a ++ b) ≡ take k a)
      × (drop k (a ++ b) ≡ drop k a ++ b)
cut_long k a b h = (
  omega arith,
  omega (arith, length-append a b),
  take-append_left k a b h,
  drop-append_left k a b h,
)

-- The base after a copy of all of `a`.
abbrev pub copied : MessageBase → Bytes → Bytes → MessageBase
copied base p a = record base {
  buffer = some (write_at p base.data_pos a);
  data_pos = base.data_pos + length a;
}

pub copy_data-short :
    (base : MessageBase) (p a b : Bytes)
    → length a < base.data_len - base.data_pos
    → (copy_data base p a ≡ (write_at p base.data_pos a, base.data_pos + length a))
      × (copy_data base p (a ++ b) ≡ copy_data (copied base p a) (write_at p base.data_pos a) b)
unfolding copy_data
copy_data-short base p a b h =
    let (same, taken, _, share) = cut_short (base.data_len - base.data_pos) a b h in
    let rest : base.data_len - base.data_pos - length a
        ≡ base.data_len - (base.data_pos + length a) =
      omega arith in
    (
      rw (same, take_all (length a) a (le_refl (length a))),
      rw (taken, share, rest, write_at-append, ← add_assoc base.data_pos (length a)),
    )

pub copy_data-long :
    (base : MessageBase) (p a b : Bytes)
    → base.data_len - base.data_pos ≤ length a
    → (copy_data base p a).1 ≡ base.data_pos + (base.data_len - base.data_pos)
unfolding copy_data
copy_data-long base p a b h = omega arith

pub copy_data-long_append :
    (base : MessageBase) (p a b : Bytes)
    → base.data_len - base.data_pos ≤ length a
    → copy_data base p (a ++ b) ≡ copy_data base p a
unfolding copy_data
copy_data-long_append base p a b h =
    let (same, same', taken, _) = cut_long (base.data_len - base.data_pos) a b h in
    rw (same, same', taken)

pub fill-short :
    (size : ℕ) (have a b : Bytes)
    → length a < size - length have
    → (fill size have a ≡ (have ++ a, [])) × (fill size have (a ++ b) ≡ fill size (have ++ a) b)
unfolding fill
fill-short size have a b h =
    let (same, taken, dropped, share) = cut_short (size - length have) a b h in
    let rest : size - length have - length a ≡ size - length (have ++ a) =
      omega (arith, length-append have a) in
    (
      rw (same, take_all (length a) a (le_refl _), drop_all (length a) a (le_refl _)),
      rw (taken, dropped, rest, append_assoc),
    )

pub fill-long :
    (size : ℕ) (have a b : Bytes)
    → size - length have ≤ length a
    → (size ≤ length (fill size have a).0)
      × (fill size have (a ++ b) ≡ ((fill size have a).0, (fill size have a).1 ++ b))
unfolding fill
fill-long size have a b h =
    let (same, same', taken, dropped) = cut_long (size - length have) a b h in
    (
      omega (
        arith,
        length-append have (take (min (length a) (size - length have)) a),
        length-take (min (length a) (size - length have)) a,
      ),
      rw (same, same', taken, dropped),
    )
