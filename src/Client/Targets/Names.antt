-- ===== src/Client/Targets/Names.antt =====
-- What parse_target reads is what the name of a target says.
use fcopy.Base.{
  ◌-◌, ℕ, ◌%◌, ◌^◌, ◌<◌, ◌≡◌, ◌≢◌, refl, sym, ap, ◌∙◌, Bytes, [], ◌∷◌, ◌++◌, Option, none, some,
  false, All, arith, ◌==◌, leb, ◌&&◌, ◌||◌, min, Bool-cases, Option-cases, inl, inr, subst,
}
use fcopy.Base.Int.{pos, to_int16, to_int16-lt}
use fcopy.Net.{RemoteTarget}
use fcopy.Client.Targets.{colon, split_colon, parse_target, target_name}
use fcopy.Text.{
  is_space, skip_space, atol, atoi, to_int32, IsDigit, leading, to_string, to_digits-IsDigit,
  leading-to_digits, digit-starts,
}

abbrev pub NoColon : Bytes → Type 0
NoColon s = All (λ c. (c == colon) ≡ false) s

-- A target as parse_target makes them.
pub record IsTarget (t : RemoteTarget) : Type 0 where
  pub named : t.host ≢ []
  pub plain : NoColon t.host
  pub port : t.port ≢ 0
  pub word : t.port < 2 ^ 16

split_colon-join :
    (host rest : Bytes) → NoColon host → split_colon (host ++ (colon ∷ rest)) ≡ some (host, rest)
unfolding split_colon
split_colon-join [] rest h = refl
split_colon-join (c ∷ host) rest (h, hs) = rw (h, split_colon, split_colon-join host rest hs) refl

skip_space-digits : (d : ℕ) (ds : Bytes) → IsDigit d → skip_space (d ∷ ds) ≡ d ∷ ds
unfolding skip_space is_space
skip_space-digits d ds h =
    let no_space : (d == 32 || (leb 9 d && leb d 13)) ≡ false = ground arith in rw no_space refl

atol-digits :
    (d : ℕ) (ds : Bytes)
    → IsDigit d
    → leading 0 (d ∷ ds) < 2 ^ 63
    → atol (d ∷ ds) ≡ pos (leading 0 (d ∷ ds))
unfolding atol
atol-digits d ds h small =
    let no_minus : (d == 45) ≡ false = ground arith in
    let no_plus : (d == 43) ≡ false = ground arith in
    let fits : min (leading 0 (d ∷ ds)) (2 ^ 63 - 1) ≡ leading 0 (d ∷ ds) = omega arith in
    rw (skip_space-digits d ds h, atol) (rw (no_minus, no_plus) (ap pos fits))

atol-to_string : (n : ℕ) → n < 2 ^ 63 → atol (to_string n) ≡ pos n
atol-to_string n h =
    let (d, ds, e) = digit-starts 19 n in
    let whole = leading-to_digits 20 n (omega arith) in
    let digits = subst (All IsDigit) e (to_digits-IsDigit 20 n) in
    let value : leading 0 (d ∷ ds) ≡ n = ap (leading 0) (sym e) ∙ whole in
    ap atol e ∙ atol-digits d ds digits.0 (omega (arith, value)) ∙ ap pos value

to_int16-to_int32 : (n : ℕ) → to_int16 (to_int32 (pos n)) ≡ n % 2 ^ 16
unfolding to_int16 to_int32
to_int16-to_int32 n = ground arith

split_colon-NoColon : (arg host rest : Bytes) → split_colon arg ≡ some (host, rest) → NoColon host
unfolding split_colon
split_colon-NoColon [] host rest h = cc
split_colon-NoColon (c ∷ arg) host rest h = elim (Bool-cases (c == colon)) [
  | inl here ↦
      let e : some ([], arg) ≡ some (host, rest) = rw (here, split_colon) at h in
      let empty : [] ≡ host = cc in subst NoColon empty tt
  | inr other ↦ elim (Option-cases (split_colon arg)) [
    | inl absent ↦
        let e : ◌≡◌ {A = Option (Bytes × Bytes)} none (some (host, rest)) =
          rw (other, split_colon, absent) at h in
        cc
    | inr ((front, back), found) ↦
        let e : some (c ∷ front, back) ≡ some (host, rest) = rw (other, split_colon, found) at h in
        let same : c ∷ front ≡ host = cc in
        subst NoColon same (other, split_colon-NoColon arg front back found)
  ]
]

read_port : (n : ℕ) → n < 2 ^ 63 → to_int16 (atoi (to_string n)) ≡ n % 2 ^ 16
unfolding atoi
read_port n h = ap (λ z. to_int16 (to_int32 z)) (atol-to_string n h) ∙ to_int16-to_int32 n

parse_target-split :
    (arg host rest : Bytes) (c : ℕ)
    → split_colon arg ≡ some (c ∷ host, rest)
    → (to_int16 (atoi rest) == 0) ≡ false
    → parse_target arg ≡ some (record { host = c ∷ host; port = to_int16 (atoi rest) })
unfolding parse_target
parse_target-split arg host rest c split port = rw (split, parse_target) (rw port refl)

-- For a host without a colon and a number below 2^63 that is not a multiple of 2^16, parse_target
-- reads `host:number` as the target with this host, and the port is the number modulo 2^16.
pub parse_target-join :
    (host : Bytes) (n : ℕ)
    → host ≢ []
    → NoColon host
    → n < 2 ^ 63
    → n % 2 ^ 16 ≢ 0
    → parse_target (host ++ (colon ∷ to_string n))
      ≡ some (record { host = host; port = n % 2 ^ 16 })
parse_target-join [] n named plain small port = absurd (named refl)
parse_target-join (c ∷ host) n named plain small port =
    let e = read_port n small in
    parse_target-split _ host (to_string n) c (split_colon-join (c ∷ host) (to_string n) plain)
      (ground (arith, e))
    ∙ ap (λ p. some (record { host = c ∷ host; port = p })) e

-- Every target that parse_target accepts has a host that is not empty, without a colon, and a port
-- above 0 that fits uint16_t.
pub parse_target-IsTarget :
    (arg : Bytes) (t : RemoteTarget) → parse_target arg ≡ some t → IsTarget t
unfolding parse_target
parse_target-IsTarget arg t h = elim (Option-cases (split_colon arg)) [
  | inl absent ↦
      let e : ◌≡◌ {A = Option RemoteTarget} none (some t) = rw (absent, parse_target) at h in cc
  | inr (([], rest), split) ↦
      let e : ◌≡◌ {A = Option RemoteTarget} none (some t) = rw (split, parse_target) at h in cc
  | inr ((c ∷ host, rest), split) ↦ elim (Bool-cases (to_int16 (atoi rest) == 0)) [
    | inl no_port ↦
        let e : ◌≡◌ {A = Option RemoteTarget} none (some t) =
          rw (split, parse_target, no_port) at h in
        cc
    | inr some_port ↦
        let whole : some (record { host = c ∷ host; port = to_int16 (atoi rest) }) ≡ some t =
          sym (parse_target-split arg host rest c split some_port) ∙ h in
        let same : record { host = c ∷ host; port = to_int16 (atoi rest) } ≡ t = cc in
        subst IsTarget same (record {
          named = λ empty. cc;
          plain = split_colon-NoColon arg (c ∷ host) rest split;
          port = ground arith;
          word = to_int16-lt (atoi rest);
        })
  ]
]

-- The target that a name is read as.
pub parse_target-target_name :
    (t : RemoteTarget) → IsTarget t → parse_target (target_name t) ≡ some t
parse_target-target_name t h =
    let word : t.port % 2 ^ 16 ≡ t.port = omega (arith, h.word) in
    parse_target-join t.host t.port h.named h.plain (omega (arith, h.word))
      (λ e. h.port (sym word ∙ e))
    ∙ ap (λ p. some (record { host = t.host; port = p })) word
