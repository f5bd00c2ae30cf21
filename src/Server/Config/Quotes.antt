-- ===== src/Server/Config/Quotes.antt =====
-- parse_line of src/server/load_config.cpp never steps over the closing quote of a token.
use fcopy.Base.{
  ℕ, zero, suc, ◌≤◌, ◌<◌, ◌≡◌, refl, sym, subst, ==→eq, Bytes, List, [], ◌∷◌, ◌++◌, Bool, true,
  false, ◌==◌, length, arith, Bool-cases, List-cases, Option-cases, inl, inr, ◌≢◌,
}
use fcopy.Server.Config.{
  quote, backslash, escaped, unescape, word, Tokens, found, refused, out_of_fuel, tokens, bad,
  parse_line,
}
use fcopy.Text.{hash, is_space, skip_space}

-- At the end, or at a quote that is no later than the end of `str`.
abbrev Stops : Bytes → Bytes → Type 0
Stops str [] = Unit {0}
Stops str (q ∷ more) = ((q == quote) ≡ true) × (length more < length str)

Stops-later : (c : ℕ) (str r : Bytes) → Stops str r → Stops (c ∷ str) r
Stops-later c str [] h = tt
Stops-later c str (q ∷ more) (at, short) = (at, omega arith)

unescape-Stops : (slash : Bool) (str s : Bytes) → Stops str (unescape slash str s).0
unfolding unescape
unescape-Stops false [] s = tt
unescape-Stops true [] s = tt
unescape-Stops false (c ∷ str) s = elim (Bool-cases (c == quote)) [
  | inl here ↦ rw (here, unescape) (here, omega arith)
  | inr other ↦ elim (Bool-cases (c == backslash)) [
    | inl slash ↦ rw (other, unescape, slash) (Stops-later c str _ (unescape-Stops true str s))
    | inr plain ↦
        rw (other, unescape, plain) (Stops-later c str _ (unescape-Stops false str (s ++ (c ∷ []))))
  ]
]
unescape-Stops true (c ∷ str) s = elim (Option-cases (escaped c)) [
  | inl wrong ↦ rw (wrong, unescape) tt
  | inr (e, fine) ↦
      rw (fine, unescape) (Stops-later c str _ (unescape-Stops false str (s ++ (e ∷ []))))
]

after_unescape :
    (n : ℕ) (str left tmp : Bytes) (vec : List Bytes)
    → Stops str left
    → length str < suc n
    → ((s : Bytes) (v : List Bytes) → length s < n → tokens n (quote ∷ s) v ≡ refused)
    → (elim left as (λ x. Tokens) [
      | [] ↦ refused
      | q ∷ more ↦ elim (q == quote) as (λ x. Tokens) [
        | true ↦ tokens n (q ∷ more) (vec ++ (tmp ∷ []))
        | false ↦ refused
      ]
    ])
      ≡ refused
after_unescape n str [] tmp vec stops h rest = refl
after_unescape n str (q ∷ more) tmp vec (at, short) h rest = rw at (
    subst (λ c. tokens n (c ∷ more) (vec ++ (tmp ∷ [])) ≡ refused) (sym (==→eq q quote at))
      (rest more (vec ++ (tmp ∷ [])) (omega arith)))

tokens-quote :
    (n : ℕ) (str : Bytes) (vec : List Bytes) → length str < n → tokens n (quote ∷ str) vec ≡ refused
unfolding tokens skip_space is_space
tokens-quote zero str vec h = absurd (omega arith)
tokens-quote (suc n) str vec h =
    after_unescape n str (unescape false str []).0 (unescape false str []).1 vec
      (unescape-Stops false str []) h (λ s v k. tokens-quote n s v k)

length-skip_space : (str : Bytes) → length (skip_space str) ≤ length str
unfolding skip_space
length-skip_space [] = omega arith
length-skip_space (c ∷ str) = ground (arith, length-skip_space str)

length-word : (str : Bytes) → length (word str).1 ≤ length str
unfolding word
length-word [] = omega arith
length-word (c ∷ str) = ground (arith, length-word str)

length-word_later :
    (d : ℕ) (rest : Bytes)
    → is_space d ≡ false
    → (d == hash) ≡ false
    → length (word (d ∷ rest)).1 ≤ length rest
unfolding word
length-word_later d rest space comment = rw (space, comment) (length-word rest)

-- The loop came to an end.
abbrev Ends : Tokens → Type 0
Ends (found vec) = Unit {0}
Ends refused = Unit {0}
Ends out_of_fuel = ⊥

skip_space-head : (str rest : Bytes) (d : ℕ) → skip_space str ≡ d ∷ rest → is_space d ≡ false
unfolding skip_space
skip_space-head [] rest d e = cc
skip_space-head (c ∷ str) rest d e = elim (Bool-cases (is_space c)) [
  | inl space ↦ skip_space-head str rest d (rw space at e)
  | inr other ↦
      let same : ◌≡◌ {A = Bytes} (c ∷ str) (d ∷ rest) = rw other at e in
      let head : c ≡ d = cc in rw (← head) other
]

tokens-Ends : (n : ℕ) (str : Bytes) (vec : List Bytes) → length str < n → Ends (tokens n str vec)
unfolding tokens
tokens-Ends zero str vec h = absurd (omega arith)
tokens-Ends (suc n) [] vec h = tt
tokens-Ends (suc n) (c ∷ str) vec h = elim (List-cases (skip_space (c ∷ str))) [
  | inl empty ↦ rw (empty, tokens) tt
  | inr (d, rest, e) ↦
      let shorter : length (d ∷ rest) ≤ length (c ∷ str) = rw e at (length-skip_space (c ∷ str)) in
      elim (Bool-cases (d == hash)) [
        | inl comment ↦ rw (e, tokens, comment) tt
        | inr no_comment ↦ elim (Bool-cases (d == quote)) [
          | inl quoted ↦
              rw (e, tokens, no_comment, quoted)
                (subst Ends
                  (sym (
                    after_unescape n rest _ _ vec (unescape-Stops false rest []) (omega arith)
                      (λ s v k. tokens-quote n s v k)))
                  tt)
          | inr plain ↦
              rw (e, tokens, no_comment, plain)
                (tokens-Ends n _ _ (
                  omega (
                    arith,
                    length-word_later d rest (skip_space-head (c ∷ str) rest d e) no_comment,
                  )))
        ]
      ]
]

-- With one unit of fuel more than a string has characters, the loop of parse_line ends before its
-- fuel does.
pub tokens-length :
    (n : ℕ) (str : Bytes) (vec : List Bytes) → length str < n → tokens n str vec ≢ out_of_fuel
tokens-length n str vec h e = subst Ends e (tokens-Ends n str vec h)

-- parse_line refuses every line whose first token starts with a quote, with a closing quote or
-- without: after the closing quote the loop takes the same character for an opening one.
pub parse_line-quote : (line str : Bytes) → skip_space line ≡ quote ∷ str → parse_line line ≡ bad
unfolding parse_line tokens
parse_line-quote [] str e =
    let wrong : ◌≡◌ {A = Bytes} [] (quote ∷ str) = unfold skip_space in e in cc
parse_line-quote (c ∷ line) str e =
    let shorter : length (quote ∷ str) ≤ length (c ∷ line) =
      rw e at (length-skip_space (c ∷ line)) in
    let first =
      after_unescape (suc (length line)) str (unescape false str []).0 (unescape false str []).1 []
        (unescape-Stops false str []) (omega arith)
        (λ s v k. tokens-quote (suc (length line)) s v k) in
    rw (parse_line, e) (rw first refl)
