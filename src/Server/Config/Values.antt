-- ===== src/Server/Config/Values.antt =====
-- The values of a configuration file: parse_bool, parse_signed, parse_size,
-- parse_string and parse_partition of src/server/load_config.cpp. `none` stands for the result -1.
-- parse_unsigned is called for no key.
use fcopy.Base.{
  ℕ, ◌^◌, Bytes, bytes_eq, codes, List, [], ◌∷◌, Bool, true, false, Option, none, some, ◌==◌,
  if◌then◌else◌, ltb, leb,
}
use fcopy.Base.Int.{ℤ, pos, negsuc}
use fcopy.Text.{stoll}

unfoldable pub parse_bool : List Bytes → Option Bool
parse_bool [] = none
parse_bool (str ∷ []) =
    if bytes_eq str (codes "yes")
    then some true
    else if bytes_eq str (codes "no")
    then some false
    else none
parse_bool (str ∷ more ∷ args) = none

-- The bounds of int.
abbrev pub fits_int : ℤ → Bool
fits_int (pos n) = ltb n (2 ^ 31)
fits_int (negsuc n) = ltb n (2 ^ 31)

-- parse_signed<int>
unfoldable pub parse_signed : List Bytes → Option ℤ
parse_signed [] = none
parse_signed (str ∷ []) = elim (stoll str) [
  | none ↦ none
  | some (u, c ∷ rest) ↦ none
  | some (u, []) ↦ if fits_int u then some u else none
]
parse_signed (str ∷ more ∷ args) = none

-- std::stold, where it throws nothing: what stands behind the number u, and the value of
-- ceil(u * 2^m) for each m, if it is finite.
abbrev pub Stold : Type 0
Stold = Bytes → Option (Bytes × (ℕ → Option ℤ))

-- The exponent that parse_size takes for what stands behind the number.
unfoldable pub size_exponent : Bytes → Option ℕ
size_exponent [] = some 1
size_exponent (c ∷ rest) =
    if c == b'B'
    then some 1
    else if c == b'K'
    then some 10
    else if c == b'M'
    then some 20
    else if c == b'G'
    then some 30
    else if c == b'T'
    then some 40
    else none

-- The bounds of parse_size for what comes out.
unfoldable pub size_within : Option ℤ → Option ℕ
size_within none = none
size_within (some (negsuc n)) = none
size_within (some (pos n)) = if leb n (2 ^ 50) then some n else none

unfoldable pub parse_size : Stold → List Bytes → Option ℕ
unfolding size_exponent size_within
parse_size stold [] = none
parse_size stold (str ∷ []) = elim (stold str) [
  | none ↦ none
  | some (rest, scaled) ↦ elim (size_exponent rest) [
    | none ↦ none
    | some m ↦ size_within (scaled m)
  ]
]
parse_size stold (str ∷ more ∷ args) = none

unfoldable pub parse_string : List Bytes → Option Bytes
parse_string [] = none
parse_string (str ∷ []) = some str
parse_string (str ∷ more ∷ args) = none

-- std::map::insert: an entry for the name stays as it is.
unfoldable pub insert_partition : Bytes → Bytes → List (Bytes × Bytes) → List (Bytes × Bytes)
insert_partition name root [] = (name, root) ∷ []
insert_partition name root ((k, r) ∷ m) = elim (bytes_eq k name) [
  | true ↦ (k, r) ∷ m
  | false ↦ (k, r) ∷ insert_partition name root m
]

unfoldable pub parse_partition : List Bytes → List (Bytes × Bytes) → Option (List (Bytes × Bytes))
unfolding insert_partition
parse_partition [] m = none
parse_partition (name ∷ []) m = none
parse_partition (name ∷ root ∷ []) m = some (insert_partition name root m)
parse_partition (name ∷ root ∷ more ∷ args) m = none
