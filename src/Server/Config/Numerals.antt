-- ===== src/Server/Config/Numerals.antt =====
-- Numbers in a configuration file, from std::to_string to parse_signed and parse_size of
-- src/server/load_config.cpp.
use fcopy.Base.{
  ℕ, suc, ◌+◌, ◌-◌, ◌*◌, ◌^◌, ◌≤◌, ◌<◌, ◌≡◌, refl, sym, ap, ◌∙◌, Bytes, codes, [], ◌∷◌, ◌++◌, true,
  false, ◌&&◌, ◌||◌, ◌==◌, All, none, some, leb, ltb, arith, if◌then◌else◌, subst, ltb→lt,
}
use fcopy.Base.Int.{ℤ, pos, negsuc, neg}
use fcopy.Text.{
  is_space, skip_space, IsDigit, leading, read_digits, read_number, read_sign, read_signed, stoll,
  to_string, to_digits-IsDigit, leading-to_digits, digit-starts,
}
use fcopy.Server.Config.Words.{plain, all_plain, IsWord}
use fcopy.Server.Config.Values.{
  fits_int, parse_signed, Stold, size_exponent, size_within, parse_size,
}

-- An int, in decimal.
abbrev pub int_text : ℤ → Bytes
int_text (pos n) = to_string n
int_text (negsuc n) = b'-' ∷ to_string (suc n)

read_digits-leading : (n : ℕ) (xs : Bytes) → All IsDigit xs → read_digits n xs ≡ (leading n xs, [])
unfolding read_digits leading
read_digits-leading n [] h = refl
read_digits-leading n (c ∷ xs) (d, h) = rw d (read_digits-leading (n * 10 + (c - 48)) xs h)

read_number-digits :
    (d : ℕ) (ds : Bytes)
    → All IsDigit (d ∷ ds)
    → read_number (d ∷ ds) ≡ some (leading 0 (d ∷ ds), [])
unfolding read_number
read_number-digits d ds h =
    let read = read_digits 0 (d ∷ ds) in
    subst (λ b. (if b then some read else none) ≡ some (leading 0 (d ∷ ds), [])) (sym h.0)
      (ap some (read_digits-leading 0 (d ∷ ds) h))

-- A text of digits is read as its number, to the end.
read_number-to_string : (n : ℕ) → n < 10 ^ 20 → read_number (to_string n) ≡ some (n, [])
read_number-to_string n h =
    let (d, ds, e) = digit-starts 19 n in
    let digits = subst (All IsDigit) e (to_digits-IsDigit 20 n) in
    let value : leading 0 (d ∷ ds) ≡ n = ap (leading 0) (sym e) ∙ leading-to_digits 20 n h in
    ap read_number e ∙ read_number-digits d ds digits ∙ ap (λ k. some (k, [])) value

digit-plain : (d : ℕ) → IsDigit d → plain d ≡ true
unfolding is_space
digit-plain d h = ground arith

digits-plain : (ds : Bytes) → All IsDigit ds → all_plain ds ≡ true
digits-plain [] h = refl
digits-plain (d ∷ ds) (h, hs) = ground (arith, digit-plain d h, digits-plain ds hs)

to_string-IsWord : (n : ℕ) → IsWord (to_string n)
to_string-IsWord n =
    let (d, ds, e) = digit-starts 19 n in
    let digits = subst (All IsDigit) e (to_digits-IsDigit 20 n) in
    subst IsWord (sym e) (digits-plain (d ∷ ds) digits)

word-plain_lem : (s : Bytes) → IsWord s → all_plain s ≡ true
word-plain_lem [] h = refl
word-plain_lem (c ∷ s) h = h

pub int_text-IsWord : (z : ℤ) → IsWord (int_text z)
unfolding is_space
int_text-IsWord (pos n) = to_string-IsWord n
int_text-IsWord (negsuc n) = word-plain_lem (to_string (suc n)) (to_string-IsWord (suc n))

append-plain :
    (xs ys : Bytes) → all_plain xs ≡ true → all_plain ys ≡ true → all_plain (xs ++ ys) ≡ true
append-plain [] ys h e = e
append-plain (x ∷ xs) ys h e = ground (arith, append-plain xs ys (ground arith) e)

-- A number and a unit.
pub units_text-IsWord : (n : ℕ) → IsWord (to_string n ++ codes "K")
unfolding is_space
units_text-IsWord n =
    let (d, ds, e) = digit-starts 19 n in
    let digits = subst (All IsDigit) e (to_digits-IsDigit 20 n) in
    subst (λ t. IsWord (t ++ codes "K")) (sym e)
      (append-plain (d ∷ ds) (codes "K") (digits-plain (d ∷ ds) digits) refl)

skip_space-digits :
    (n : ℕ)
    → (skip_space (to_string n) ≡ to_string n) × (read_sign (to_string n) ≡ (false, to_string n))
unfolding skip_space is_space read_sign
skip_space-digits n =
    let (d, ds, e) = digit-starts 19 n in
    let digits = subst (All IsDigit) e (to_digits-IsDigit 20 n) in
    subst (λ t. (skip_space t ≡ t) × (read_sign t ≡ (false, t))) (sym e) (starts d ds digits.0)
  where
    starts :
        (d : ℕ) (ds : Bytes)
        → IsDigit d
        → (skip_space (d ∷ ds) ≡ d ∷ ds) × (read_sign (d ∷ ds) ≡ (false, d ∷ ds))
    starts d ds h =
        let no_space : (d == 32 || (leb 9 d && leb d 13)) ≡ false = ground arith in
        let no_minus : (d == 45) ≡ false = ground arith in
        let no_plus : (d == 43) ≡ false = ground arith in
        (rw no_space refl, rw (no_minus, no_plus) refl)

read_signed-pos : (n : ℕ) → n < 2 ^ 63 → read_signed (false, to_string n) ≡ some (pos n, [])
unfolding read_signed
read_signed-pos n h =
    let small : ltb n (2 ^ 63) ≡ true = ground arith in
    rw (read_number-to_string n (omega arith), read_signed, small) refl

read_signed-neg : (n : ℕ) → n ≤ 2 ^ 63 → read_signed (true, to_string n) ≡ some (neg n, [])
unfolding read_signed
read_signed-neg n h =
    let small : leb n (2 ^ 63) ≡ true = ground arith in
    rw (read_number-to_string n (omega arith), read_signed, small) refl

stoll-to_string : (n : ℕ) → n < 2 ^ 63 → stoll (to_string n) ≡ some (pos n, [])
unfolding stoll
stoll-to_string n h =
    let (skipped, unsigned) = skip_space-digits n in
    ap (λ s. read_signed (read_sign s)) skipped ∙ ap read_signed unsigned ∙ read_signed-pos n h

stoll-minus : (n : ℕ) → n ≤ 2 ^ 63 → stoll (b'-' ∷ to_string n) ≡ some (neg n, [])
unfolding stoll skip_space is_space read_sign
stoll-minus n h = read_signed-neg n h

-- Every int is read back.
pub parse_signed-int_text : (z : ℤ) → fits_int z ≡ true → parse_signed (int_text z ∷ []) ≡ some z
unfolding parse_signed
parse_signed-int_text (pos n) h =
    let below : n < 2 ^ 63 = omega (arith, ltb→lt n (2 ^ 31) h) in
    rw (stoll-to_string n below, parse_signed, h) refl
parse_signed-int_text (negsuc n) h =
    let below : suc n ≤ 2 ^ 63 = omega (arith, ltb→lt n (2 ^ 31) h) in
    rw (stoll-minus (suc n) below, parse_signed, h) refl

-- std::stold reads the number n and stops before `rest`: n is exact, and so is n * 2^m.
abbrev pub Reads : Stold → ℕ → Bytes → Type 0
Reads stold n rest = stold (to_string n ++ rest) ≡ some (rest, λ m. some (pos (n * 2 ^ m)))

-- A number with a unit K, M, G or T is that many times 2^10, 2^20, 2^30 or 2^40, if this is no more
-- than 2^50; a number without a unit and one with the unit B are taken for twice their value.
pub parse_size-units :
    (stold : Stold) (n m : ℕ) (rest : Bytes)
    → Reads stold n rest
    → size_exponent rest ≡ some m
    → n * 2 ^ m ≤ 2 ^ 50
    → parse_size stold ((to_string n ++ rest) ∷ []) ≡ some (n * 2 ^ m)
unfolding parse_size size_within
parse_size-units stold n m rest reads unit h =
    let within : leb (n * 2 ^ m) (2 ^ 50) ≡ true = ground arith in
    rw (reads, parse_size, unit, within) refl
