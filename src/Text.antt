-- ===== src/Text.antt =====
-- What src/client/fcopy_cli.cpp and src/server/load_config.cpp use of the C and C++ libraries on texts:
-- std::isspace, std::getline, std::atoi, std::atol, std::stoll and std::to_string.
use fcopy.Base.{
  List, Option, none, some, false, ◌||◌, ℕ, zero, suc, ◌+◌, ◌-◌, ◌*◌, ◌/◌, ◌%◌, ◌^◌, ◌<◌, ◌≡◌, refl,
  ap, ◌∙◌, Bytes, [], ◌∷◌, ◌++◌, All, All-append, arith, if◌then◌else◌, ltb, leb, ◌==◌, ◌&&◌, min,
  Bool, true, Bool-cases, List-cases, inl, inr, ltb→lt,
}
use fcopy.Base.Int.{ℤ, pos, negsuc, neg}

abbrev pub hash : ℕ
hash = 35

-- std::isspace in the C locale.
unfoldable pub is_space : ℕ → Bool
is_space c = c == 32 || (leb 9 c && leb c 13)

unfoldable pub skip_space : Bytes → Bytes
skip_space [] = []
skip_space (c ∷ str) = let rest = skip_space str in if is_space c then rest else c ∷ str

-- std::getline over a file: its lines.
unfoldable pub lines : Bytes → List Bytes
lines [] = []
lines (c ∷ str) =
    let rest = lines str in
    if c == 10 then [] ∷ rest else elim rest [ [] ↦ (c ∷ []) ∷ [] | l ∷ ls ↦ (c ∷ l) ∷ ls ]

abbrev pub is_digit : ℕ → Bool
is_digit c = leb 48 c && leb c 57

-- The digits at the front, behind a number read before them.
unfoldable pub leading : ℕ → Bytes → ℕ
leading n [] = n
leading n (c ∷ str) = let rest = leading (n * 10 + (c - 48)) str in if is_digit c then rest else n

-- std::atol, as strtol of base 10: what does not fit a long is cut to its bounds.
unfoldable pub atol : Bytes → ℤ
unfolding leading
atol str = elim (skip_space str) [
  | [] ↦ pos 0
  | c ∷ rest ↦
      if c == 45
      then neg (min (leading 0 rest) (2 ^ 63))
      else if c == 43
      then pos (min (leading 0 rest) (2 ^ 63 - 1))
      else pos (min (leading 0 (c ∷ rest)) (2 ^ 63 - 1))
]

-- The number at the front, and what stands behind it.
unfoldable pub read_digits : ℕ → Bytes → ℕ × Bytes
read_digits n [] = (n, [])
read_digits n (c ∷ str) =
    let rest = read_digits (n * 10 + (c - 48)) str in if is_digit c then rest else (n, c ∷ str)

-- There is one if the first character is a digit.
unfoldable pub read_number : Bytes → Option (ℕ × Bytes)
unfolding read_digits
read_number [] = none
read_number (c ∷ str) = if is_digit c then some (read_digits 0 (c ∷ str)) else none

-- The sign of a number, and what stands behind it: true for `-`.
unfoldable pub read_sign : Bytes → Bool × Bytes
read_sign [] = (false, [])
read_sign (c ∷ str) =
    if c == 45 then (true, str) else if c == 43 then (false, str) else (false, c ∷ str)

-- A number behind its sign, if it fits long long.
unfoldable pub read_signed : Bool × Bytes → Option (ℤ × Bytes)
read_signed (minus, digits) = elim (read_number digits) [
  | none ↦ none
  | some (n, rest) ↦
      if minus
      then if leb n (2 ^ 63) then some (neg n, rest) else none
      else if ltb n (2 ^ 63)
      then some (pos n, rest)
      else none
]

-- std::stoll: the value and what stands behind it, where it throws nothing.
unfoldable pub stoll : Bytes → Option (ℤ × Bytes)
unfolding read_signed read_sign
stoll str = read_signed (read_sign (skip_space str))

-- A long converted to int.
unfoldable pub to_int32 : ℤ → ℤ
to_int32 (pos n) =
    if ltb (n % 2 ^ 32) (2 ^ 31) then pos (n % 2 ^ 32) else negsuc (2 ^ 32 - 1 - n % 2 ^ 32)
to_int32 (negsuc n) =
    if ltb (n % 2 ^ 32) (2 ^ 31) then negsuc (n % 2 ^ 32) else pos (2 ^ 32 - 1 - n % 2 ^ 32)

-- std::atoi, which is atol converted to int.
unfoldable pub atoi : Bytes → ℤ
unfolding atol to_int32
atoi str = to_int32 (atol str)

abbrev pub digit : ℕ → ℕ
digit n = 48 + n

-- The decimal digits, as many as the fuel allows at most.
unfoldable pub to_digits : ℕ → ℕ → Bytes
to_digits zero n = []
to_digits (suc f) n =
    let front = to_digits f (n / 10) in
    if ltb n 10 then digit n ∷ [] else front ++ (digit (n % 10) ∷ [])

-- std::to_string of an unsigned number; 20 digits are enough for uint64_t.
abbrev pub to_string : ℕ → Bytes
to_string n = to_digits 20 n

abbrev pub IsDigit : ℕ → Type 0
IsDigit c = is_digit c ≡ true

pub to_digits-IsDigit : (f n : ℕ) → All IsDigit (to_digits f n)
unfolding to_digits
to_digits-IsDigit zero n = tt
to_digits-IsDigit (suc f) n = elim (Bool-cases (ltb n 10)) [
  | inl small ↦ rw small (ground arith, tt)
  | inr large ↦ rw large (
      All-append IsDigit (to_digits f (n / 10)) _ (to_digits-IsDigit f (n / 10)) (ground arith, tt))
]

leading-append :
    (n : ℕ) (xs ys : Bytes) → All IsDigit xs → leading n (xs ++ ys) ≡ leading (leading n xs) ys
unfolding leading
leading-append n [] ys h = refl
leading-append n (c ∷ xs) ys (d, h) = rw d (leading-append (n * 10 + (c - 48)) xs ys h)

leading-digit : (n m : ℕ) → m < 10 → leading n (digit m ∷ []) ≡ n * 10 + m
unfolding leading
leading-digit n m h = let d : is_digit (digit m) ≡ true = ground arith in rw d (omega arith)

pub leading-to_digits : (f n : ℕ) → n < 10 ^ f → leading 0 (to_digits f n) ≡ n
unfolding to_digits leading
leading-to_digits zero n h = omega arith
leading-to_digits (suc f) n h = elim (Bool-cases (ltb n 10)) [
  | inl small ↦ rw small (leading-digit 0 n (ltb→lt n 10 small) ∙ omega arith)
  | inr large ↦
      let front = leading-to_digits f (n / 10) (grind arith) in
      rw large (
        leading-append 0 (to_digits f (n / 10)) (digit (n % 10) ∷ []) (to_digits-IsDigit f (n / 10))
        ∙ ap (λ k. leading k (digit (n % 10) ∷ [])) front
        ∙ leading-digit (n / 10) (n % 10) (omega arith)
        ∙ omega arith)
]

pub digit-starts : (f n : ℕ) → (d : ℕ) × (ds : Bytes) × (to_digits (suc f) n ≡ d ∷ ds)
unfolding to_digits
digit-starts f n = elim (Bool-cases (ltb n 10)) [
  | inl small ↦ rw small (digit n, [], refl)
  | inr large ↦ elim (List-cases (to_digits f (n / 10))) [
    | inl none_before ↦ rw (large, none_before) (digit (n % 10), [], refl)
    | inr (d, ds, before) ↦ rw (large, before) (d, ds ++ (digit (n % 10) ∷ []), refl)
  ]
]
