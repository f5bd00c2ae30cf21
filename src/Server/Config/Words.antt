-- ===== src/Server/Config/Words.antt =====
-- Lines of plain words, as parse_line of src/server/load_config.cpp reads them.
use fcopy.Base.{
  ℕ, zero, suc, ◌<◌, ◌≡◌, refl, sym, ap, ◌∙◌, Bytes, List, [], ◌∷◌, ◌++◌, Bool, true, false, not,
  ◌&&◌, ◌||◌, ◌==◌, All, All-append, length, length-append, append_assoc, append-nil, arith, map,
}
use fcopy.Text.{hash, is_space, skip_space, lines}
use fcopy.Server.Config.{quote, word, tokens, found, parse_line, setting}

-- A character that stands for itself.
abbrev pub plain : ℕ → Bool
plain c = not (is_space c || (c == hash || c == quote))

abbrev pub all_plain : Bytes → Bool
all_plain [] = true
all_plain (c ∷ s) = plain c && all_plain s

abbrev pub is_word : Bytes → Bool
is_word [] = false
is_word (c ∷ s) = all_plain (c ∷ s)

abbrev pub IsWord : Bytes → Type 0
IsWord s = is_word s ≡ true

-- Words, each behind a space.
abbrev pub spaced : List Bytes → Bytes
spaced [] = []
spaced (a ∷ args) = 32 ∷ (a ++ spaced args)

abbrev pub line_of : Bytes × List Bytes → Bytes
line_of (key, args) = key ++ spaced args

abbrev pub IsLine : Bytes × List Bytes → Type 0
IsLine (key, args) = IsWord key × All IsWord args

skip_space-plain : (c : ℕ) (s : Bytes) → plain c ≡ true → skip_space (c ∷ s) ≡ c ∷ s
unfolding skip_space
skip_space-plain c s h = let no_space : is_space c ≡ false = ground arith in rw no_space refl

word-plain :
    (w rest : Bytes) → all_plain w ≡ true → word rest ≡ ([], rest) → word (w ++ rest) ≡ (w, rest)
unfolding word
word-plain [] rest h e = e
word-plain (c ∷ w) rest h e =
    let stays : (is_space c || c == hash) ≡ false = ground arith in
    let later = word-plain w rest (ground arith) e in rw (stays, later) refl

token_step :
    (n c : ℕ) (str w rest : Bytes) (vec : List Bytes)
    → skip_space str ≡ c ∷ (w ++ rest)
    → all_plain (c ∷ w) ≡ true
    → word rest ≡ ([], rest)
    → tokens (suc n) str vec ≡ tokens n rest (vec ++ ((c ∷ w) ∷ []))
unfolding tokens
token_step n c [] w rest vec e h stops =
    let wrong : ◌≡◌ {A = Bytes} [] (c ∷ (w ++ rest)) = unfold skip_space in e in cc
token_step n c (d ∷ str) w rest vec e h stops =
    let no_hash : (c == hash) ≡ false = ground arith in
    let no_quote : (c == quote) ≡ false = ground arith in
    let read = word-plain (c ∷ w) rest h stops in rw (e, tokens, no_hash, no_quote, read) refl

word-spaced : (args : List Bytes) → word (spaced args) ≡ ([], spaced args)
unfolding word is_space
word-spaced [] = refl
word-spaced (a ∷ args) = refl

tokens-spaced :
    (n : ℕ) (args vec : List Bytes)
    → length (spaced args) < n
    → All IsWord args
    → tokens n (spaced args) vec ≡ found (vec ++ args)
unfolding tokens
tokens-spaced zero args vec lt h = absurd (omega arith)
tokens-spaced (suc n) [] vec lt h = ap found (sym (append-nil vec))
tokens-spaced (suc n) ([] ∷ args) vec lt (h, hs) = cc
tokens-spaced (suc n) ((c ∷ w) ∷ args) vec lt (h, hs) =
    let fuel : length (spaced args) < n = omega (arith, length-append {0} w (spaced args)) in
    let skipped = skip_space-plain c (w ++ spaced args) (ground arith) in
    let skipped' : skip_space (32 ∷ (c ∷ (w ++ spaced args))) ≡ c ∷ (w ++ spaced args) =
      unfold skip_space is_space in skipped in
    token_step n c (32 ∷ (c ∷ (w ++ spaced args))) w (spaced args) vec skipped' h (word-spaced args)
    ∙ tokens-spaced n args (vec ++ ((c ∷ w) ∷ [])) fuel hs
    ∙ ap found (append_assoc vec ((c ∷ w) ∷ []) args)

-- A line of plain words is read as its first word and the others.
pub parse_line-line_of :
    (key : Bytes) (args : List Bytes)
    → IsLine (key, args)
    → parse_line (line_of (key, args)) ≡ setting key args
unfolding parse_line
parse_line-line_of [] args (h, hs) = cc
parse_line-line_of (c ∷ w) args (h, hs) =
    let skipped = skip_space-plain c (w ++ spaced args) (ground arith) in
    let fuel : length (spaced args) < length (c ∷ (w ++ spaced args)) =
      omega (arith, length-append {0} w (spaced args)) in
    let all =
      token_step (length (c ∷ (w ++ spaced args))) c (c ∷ (w ++ spaced args)) w (spaced args) []
        skipped h (word-spaced args)
      ∙ tokens-spaced (length (c ∷ (w ++ spaced args))) args ((c ∷ w) ∷ []) fuel hs in
    rw (all, parse_line) refl

-- A text of lines, each with its end.
abbrev pub text_of : List (Bytes × List Bytes) → Bytes
text_of [] = []
text_of (s ∷ ss) = line_of s ++ (10 ∷ text_of ss)

lines-append :
    (l rest : Bytes) → All (λ c. (c == 10) ≡ false) l → lines (l ++ (10 ∷ rest)) ≡ l ∷ lines rest
unfolding lines
lines-append [] rest h = refl
lines-append (c ∷ l) rest (h, hs) = rw (h, lines-append l rest hs) refl

no_newline : (w : Bytes) → all_plain w ≡ true → All (λ c. (c == 10) ≡ false) w
unfolding is_space
no_newline [] h = tt
no_newline (c ∷ w) h = (ground arith, no_newline w (ground arith))

word-no_newline : (w : Bytes) → IsWord w → All (λ c. (c == 10) ≡ false) w
word-no_newline [] h = cc
word-no_newline (c ∷ w) h = no_newline (c ∷ w) h

spaced-no_newline :
    (args : List Bytes) → All IsWord args → All (λ c. (c == 10) ≡ false) (spaced args)
spaced-no_newline [] h = tt
spaced-no_newline (a ∷ args) (h, hs) =
    (refl, All-append _ a (spaced args) (word-no_newline a h) (spaced-no_newline args hs))

-- std::getline gives the lines back.
pub lines-text_of :
    (ss : List (Bytes × List Bytes)) → All IsLine ss → lines (text_of ss) ≡ map line_of ss
unfolding lines
lines-text_of [] h = refl
lines-text_of ((key, args) ∷ ss) ((h, hs), rest) =
    lines-append (line_of (key, args)) (text_of ss)
      (All-append _ key (spaced args) (word-no_newline key h) (spaced-no_newline args hs))
    ∙ ap (λ t. line_of (key, args) ∷ t) (lines-text_of ss rest)
