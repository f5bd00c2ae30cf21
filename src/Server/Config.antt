-- ===== src/Server/Config.antt =====
-- The lines of a configuration file: unescape and parse_line of src/server/load_config.cpp.
pub mod Quotes
pub mod Values
pub mod Load
pub mod Words
pub mod Numerals
pub mod Settings
pub mod Steps
pub mod Written
pub mod Refused
use fcopy.Base.{
  ℕ, zero, suc, Bytes, List, [], ◌∷◌, ◌++◌, Bool, true, false, ◌||◌, ◌&&◌, Option, none, some,
  if◌then◌else◌, ◌==◌, leb, length,
}
use fcopy.Text.{hash, is_space, skip_space}

abbrev pub quote : ℕ
quote = 34

abbrev pub backslash : ℕ
backslash = 92

-- The switch of unescape: what a character after a backslash stands for.
unfoldable pub escaped : ℕ → Option ℕ
escaped c =
    if c == 110
    then some 10
    else if c == 114
    then some 13
    else if c == 116
    then some 9
    else if c == 39 || (c == quote || c == backslash)
    then some c
    else none

-- What is left from the returned pointer on, and the string; the flag is set behind a backslash.
unfoldable pub unescape : Bool → Bytes → Bytes → Bytes × Bytes
unescape slash [] s = ([], s)
unescape false (c ∷ str) s = elim (c == quote) [
  | true ↦ (c ∷ str, s)
  | false ↦ elim (c == backslash) [
    | true ↦ unescape true str s
    | false ↦ unescape false str (s ++ (c ∷ []))
  ]
]
unescape true (c ∷ str) s = elim (escaped c) [
  | none ↦ ([], s)
  | some e ↦ unescape false str (s ++ (e ∷ []))
]

-- The characters of an unquoted token, and what follows them.
unfoldable pub word : Bytes → Bytes × Bytes
word [] = ([], [])
word (c ∷ str) =
    let (tmp, rest) = word str in if is_space c || c == hash then ([], c ∷ str) else (c ∷ tmp, rest)

-- The tokens of a line, or the result -1. The loop runs on fuel.
pub data Tokens : Type 0 where
  found : List Bytes → Tokens
  refused : Tokens
  out_of_fuel : Tokens

-- The loop of parse_line at `str`, with the tokens before it.
unfoldable pub tokens : ℕ → Bytes → List Bytes → Tokens
tokens zero str vec = out_of_fuel
tokens (suc n) [] vec = found vec
tokens (suc n) (c ∷ str) vec = elim (skip_space (c ∷ str)) [
  | [] ↦ found vec
  | d ∷ rest ↦ elim (d == hash) [
    | true ↦ found vec
    | false ↦ elim (d == quote) [
      | true ↦
          let (left, tmp) = unescape false rest [] in
          elim left [
            | [] ↦ refused
            | q ∷ more ↦ elim (q == quote) [
              | true ↦ tokens n (q ∷ more) (vec ++ (tmp ∷ []))
              | false ↦ refused
            ]
          ]
      | false ↦ let (tmp, left) = word (d ∷ rest) in tokens n left (vec ++ (tmp ∷ []))
    ]
  ]
]

-- parse_line: 0 for a line without tokens, -1, or 1 with the key and its arguments.
pub data Line : Type 0 where
  blank : Line
  bad : Line
  setting : Bytes → List Bytes → Line

unfoldable pub parse_line : Bytes → Line
parse_line line = elim (tokens (suc (length line)) line []) [
  | found [] ↦ blank
  | found (key ∷ args) ↦ setting key args
  | refused ↦ bad
  | out_of_fuel ↦ bad
]
