-- ===== src/Wire/Ints/Fields.antt =====
-- One field of a message body: what decode_int and decode_string of src/common/message.cpp answer
-- at a position, by what stands there.
use fcopy.Base.{
  ℕ, zero, suc, ◌+◌, ◌^◌, ◌≤◌, ◌<◌, ◌≡◌, refl, sym, ap, ap₂, subst, ◌∙◌, Option-cases, All-take,
  All-drop, Bytes, AllBytes, IsByte, [], ◌∷◌, ◌++◌, length, take, drop, length-append, length-drop,
  length-take, take-append-drop, take-append_left, drop-append_left, take_all, drop_all, Option,
  none, some, ltb, le→ltb, ltb→le, Bool-cases, inl, inr, append_assoc, ◌==◌, true, arith,
  if◌then◌else◌,
}
use Prim.Native.Nat.add
use fcopy.Wire.Ints.{Endian, byte_swap, from_memory, append_int, append_string, decode_int}
use fcopy.Wire.Ints.{decode_string}
use fcopy.Wire.Ints.Network.{
  big_endian, length-big_endian, big_endian-AllBytes, to_memory-byte_swap, byte_swap-from_memory,
  from_big_endian-big_endian, big_endian-from_big_endian, from_big_endian-lt,
}

-- A string as it stands on the wire.
unfoldable pub string_bytes : Bytes → Bytes
string_bytes o = big_endian 4 (length o) ++ o

pub append_int-eq :
    (host : Endian) (k : ℕ) (s : Bytes) (n : ℕ) → append_int host k s n ≡ s ++ big_endian k n
unfolding append_int
append_int-eq host k s n = rw (to_memory-byte_swap host k n)

pub append_string-eq :
    (host : Endian) (s o : Bytes) → length o < 2 ^ 32 → append_string host s o ≡ s ++ string_bytes o
unfolding append_string string_bytes
append_string-eq host s o h =
    ap (λ n. append_int host 4 s n ++ o) (omega arith)
    ∙ ap (λ t. t ++ o) (append_int-eq host 4 s (length o))
    ∙ append_assoc s (big_endian 4 (length o)) o

-- At `pos` of `s` stands `rest`, to the end.
abbrev pub At : Bytes → ℕ → Bytes → Type 0
At s pos rest = (drop pos s ≡ rest) × (pos ≤ length s)

pub drop-drop : (a b : ℕ) (s : Bytes) → drop (a + b) s ≡ drop b (drop a s)
drop-drop zero b s = ap (λ k. drop k s) (omega arith)
drop-drop (suc a) b [] = drop-nil (suc a + b) ∙ sym (drop-nil b)
  where
    drop-nil : (k : ℕ) → drop {A = ℕ} k [] ≡ []
    drop-nil zero = refl
    drop-nil (suc k) = refl
drop-drop (suc a) b (x ∷ s) = rw (add.suc a b) (drop-drop a b s)

pub At-end : (s : Bytes) (pos : ℕ) → At s pos [] → (pos == length s) ≡ true
At-end s pos (e, h) = ground (arith, ap length e, length-drop pos s)

-- What stands behind a prefix of length `k`.
At-skip :
    (s : Bytes) (pos k : ℕ) (field rest : Bytes)
    → length field ≡ k
    → At s pos (field ++ rest)
    → (pos + k ≤ length s) × (take k (drop pos s) ≡ field) × At s (pos + k) rest
At-skip s pos k field rest hk (e, h) = (fits, taken, (left, fits))
  where
    fits : pos + k ≤ length s
    fits = omega (arith, ap length e, length-drop pos s, length-append field rest)

    taken : take k (drop pos s) ≡ field
    taken = rw e (take-append_left k field rest (omega arith) ∙ take_all k field (omega arith))

    left : drop (pos + k) s ≡ rest
    left =
        drop-drop pos k s
        ∙ rw e (
            drop-append_left k field rest (omega arith)
            ∙ ap (λ t. t ++ rest) (drop_all k field (omega arith)))

-- decode_int where the bytes of an integer stand.
pub decode_int-At :
    (host : Endian) (k : ℕ) (s : Bytes) (pos n : ℕ) (rest : Bytes)
    → n < 256 ^ k
    → At s pos (big_endian k n ++ rest)
    → (decode_int host k s pos ≡ some (n, pos + k)) × At s (pos + k) rest
unfolding decode_int
decode_int-At host k s pos n rest hn at =
    let (fits, taken, after) = At-skip s pos k (big_endian k n) rest (length-big_endian k n) at in
    (
      rw (le→ltb (length s) (pos + k) fits, taken)
          (ap (λ v. some (v, pos + k)) (value host k n hn)),
      after,
    )
  where
    value :
        (e : Endian) (j m : ℕ) → m < 256 ^ j → byte_swap e j (from_memory e (big_endian j m)) ≡ m
    value e j m hm =
        ap (λ i. byte_swap e i (from_memory e (big_endian j m))) (sym (length-big_endian j m))
        ∙ byte_swap-from_memory e (big_endian j m) (big_endian-AllBytes j m)
        ∙ from_big_endian-big_endian j m hm

-- decode_string where a string stands.
pub decode_string-At :
    (host : Endian) (s : Bytes) (pos : ℕ) (o rest : Bytes)
    → length o < 2 ^ 32
    → At s pos (string_bytes o ++ rest)
    → (decode_string host s pos ≡ some (o, pos + 4 + length o)) × At s (pos + 4 + length o) rest
unfolding decode_string string_bytes
decode_string-At host s pos o rest ho (e, h) =
    let (len, at) =
      decode_int-At host 4 s pos (length o) (o ++ rest) ho
        (e ∙ append_assoc (big_endian 4 (length o)) o rest, h) in
    let (fits, taken, after) = At-skip s (pos + 4) (length o) o rest refl at in
    (rw (len, le→ltb (length s) (pos + 4 + length o) fits, taken), after)

-- `k` bytes of a string as a number.
read_back :
    (host : Endian) (k : ℕ) (chunk : Bytes)
    → length chunk ≡ k
    → AllBytes chunk
    → (byte_swap host k (from_memory host chunk) < 256 ^ k)
      × (chunk ≡ big_endian k (byte_swap host k (from_memory host chunk)))
read_back host k chunk hk hb =
    subst (λ j. (byte_swap host j m < 256 ^ j) × (chunk ≡ big_endian j (byte_swap host j m))) hk
      (rw (byte_swap-from_memory host chunk hb)
        (omega (arith, from_big_endian-lt 0 chunk hb), sym (big_endian-from_big_endian chunk hb)))
  where
    m : ℕ
    m = from_memory host chunk

-- What decode_int answers, stands there.
pub decode_int_inv :
    (host : Endian) (k : ℕ) (s : Bytes) (pos n p : ℕ)
    → AllBytes s
    → decode_int host k s pos ≡ some (n, p)
    → (p ≡ pos + k) × (p ≤ length s) × (n < 256 ^ k) × (drop pos s ≡ big_endian k n ++ drop p s)
unfolding decode_int
decode_int_inv host k s pos n p hs e = elim (Bool-cases (ltb (length s) (pos + k))) [
  | inl short ↦ cc (rw short at e)
  | inr fits ↦
      let room = ltb→le _ _ fits in
      let found : ◌≡◌ {A = Option (ℕ × ℕ)}
          (some (byte_swap host k (from_memory host (take k (drop pos s))), pos + k))
          (some (n, p)) =
        rw fits at e in
      let en : byte_swap host k (from_memory host (take k (drop pos s))) ≡ n = cc in
      let ep : pos + k ≡ p = cc in
      let (small, bytes) =
        read_back host k (take k (drop pos s))
          (omega (arith, length-take k (drop pos s), length-drop pos s))
          (All-take IsByte k (drop pos s) (All-drop IsByte pos s hs)) in
      (
        sym ep,
        omega arith,
        rw en at small,
        sym (take-append-drop k (drop pos s))
            ∙ ap₂ (λ x y. x ++ y) (rw en at bytes)
                (sym (drop-drop pos k s) ∙ ap (λ j. drop j s) ep),
      )
]

pub decode_string_inv :
    (host : Endian) (s : Bytes) (pos : ℕ) (o : Bytes) (p : ℕ)
    → AllBytes s
    → decode_string host s pos ≡ some (o, p)
    → (p ≡ pos + 4 + length o)
      × (p ≤ length s)
      × (length o < 2 ^ 32)
      × (drop pos s ≡ string_bytes o ++ drop p s)
unfolding decode_string string_bytes
decode_string_inv host s pos o p hs e = elim (Option-cases (decode_int host 4 s pos)) [
  | inl failed ↦ cc (rw failed at e)
  | inr ((n, p'), found) ↦ after n p' found (rw found at e)
]
  where
    after :
        (n p' : ℕ)
        → decode_int host 4 s pos ≡ some (n, p')
        → if◌then◌else◌ {A = Option (Bytes × ℕ)}
            (ltb (length s) (p' + n))
            none
            (some (take n (drop p' s), p' + n))
          ≡ some (o, p)
        → (p ≡ pos + 4 + length o)
          × (p ≤ length s)
          × (length o < 2 ^ 32)
          × (drop pos s ≡ (big_endian 4 (length o) ++ o) ++ drop p s)
    after n p' found e' = elim (Bool-cases (ltb (length s) (p' + n))) [
      | inl short ↦ cc (rw short at e')
      | inr fits ↦
          let (ep', hp', hn, bytes) = decode_int_inv host 4 s pos n p' hs found in
          let room = ltb→le _ _ fits in
          let done : ◌≡◌ {A = Option (Bytes × ℕ)} (some (take n (drop p' s), p' + n))
              (some (o, p)) =
            rw fits at e' in
          let eo : take n (drop p' s) ≡ o = cc in
          let ep : p' + n ≡ p = cc in
          let ln : n ≡ length o =
            omega (arith, ap length eo, length-take n (drop p' s), length-drop p' s) in
          (
            omega arith,
            omega arith,
            omega arith,
            bytes
                ∙ ap₂ (λ x y. big_endian 4 x ++ y) ln
                    (sym (take-append-drop n (drop p' s))
                      ∙ ap₂ (λ x y. x ++ y) eo (sym (drop-drop p' n s) ∙ ap (λ j. drop j s) ep))
                ∙ sym (append_assoc (big_endian 4 (length o)) o (drop p s)),
          )
    ]
