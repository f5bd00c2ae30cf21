-- ===== src/Server/Config/Refused.antt =====
-- The line at which load_service_config of src/server/load_config.cpp stops.
use fcopy.Base.{
  ℕ, ◌+◌, ◌≡◌, ◌⊎◌, refl, sym, ap, ◌∙◌, Bytes, List, [], ◌∷◌, ◌++◌, Option, none, some, length,
  arith, inl, inr, subst,
}
use fcopy.Text.{lines}
use fcopy.Server.Config.{Line, parse_line, blank, bad, setting}
use fcopy.Server.Config.Values.{Stold}
use fcopy.Server.Config.Load.{
  FcopyConfig, key_names, find_key, apply_key, LoadResult, loaded, bad_line, bad_value, not_opened,
  load_line, load_lines, load_service_config,
}

module _ (stold : Stold) where
  -- The n-th line is the first one that is refused, for the value of the key.
  abbrev pub RefusedAt : ℕ → ℕ → Bytes → List Bytes → FcopyConfig → Type 0
  RefusedAt base n key ls p =
      (before : List Bytes) × (line : Bytes) × (after : List Bytes) × (args : List Bytes)
      × (q : FcopyConfig) × (ls ≡ before ++ (line ∷ after))
      × (n ≡ base + length before + 1)
      × (load_lines stold base before p ≡ loaded q)
      × (parse_line line ≡ setting key args)
      × (apply_key stold (find_key key_names key) args q ≡ none)

  value_stops :
      (lineno n : ℕ) (k key : Bytes) (o : Option FcopyConfig)
      → elim o [ none ↦ bad_value lineno k | some q ↦ loaded q ] ≡ bad_value n key
      → (n ≡ lineno) × (k ≡ key) × (o ≡ none)
  value_stops lineno n k key none e = (cc, cc, refl)
  value_stops lineno n k key (some q) e = cc

  line_stops :
      (lineno n : ℕ) (key : Bytes) (p : FcopyConfig) (r : Line)
      → elim r [
        | bad ↦ bad_line lineno
        | blank ↦ loaded p
        | setting key args ↦ elim (apply_key stold (find_key key_names key) args p) [
          | none ↦ bad_value lineno key
          | some q ↦ loaded q
        ]
      ]
        ≡ bad_value n key
      → (args : List Bytes) × (n ≡ lineno)
        × (r ≡ setting key args)
        × (apply_key stold (find_key key_names key) args p ≡ none)
  line_stops lineno n key p bad e = cc
  line_stops lineno n key p blank e = cc
  line_stops lineno n key p (setting k args) e =
      let (number, name, stop) =
        value_stops lineno n k key (apply_key stold (find_key key_names k) args p) e in
      (
        args,
        number,
        ap (λ x. setting x args) name,
        subst (λ x. apply_key stold (find_key key_names x) args p ≡ none) name stop,
      )

  load_line-bad_value :
      (lineno n : ℕ) (key line : Bytes) (p : FcopyConfig)
      → load_line stold lineno line p ≡ bad_value n key
      → (args : List Bytes) × (n ≡ lineno)
        × (parse_line line ≡ setting key args)
        × (apply_key stold (find_key key_names key) args p ≡ none)
  unfolding load_line
  load_line-bad_value lineno n key line p e = line_stops lineno n key p (parse_line line) e

  lines_stop :
      (base n : ℕ) (key line : Bytes) (rest : List Bytes) (p : FcopyConfig) (r : LoadResult)
      → load_line stold (base + 1) line p ≡ r
      → elim r [ loaded q ↦ load_lines stold (base + 1) rest q | e ↦ e ] ≡ bad_value n key
      → (r ≡ bad_value n key)
        ⊎ ((q : FcopyConfig) × (r ≡ loaded q)
            × (load_lines stold (base + 1) rest q ≡ bad_value n key))
  lines_stop base n key line rest p (loaded q) one e = inr (q, refl, e)
  lines_stop base n key line rest p not_opened one e = inl e
  lines_stop base n key line rest p (bad_line m) one e = inl e
  lines_stop base n key line rest p (bad_value m k) one e = inl e

  load_lines-step :
      (base : ℕ) (line : Bytes) (rest : List Bytes) (p q : FcopyConfig)
      → load_line stold (base + 1) line p ≡ loaded q
      → load_lines stold base (line ∷ rest) p ≡ load_lines stold (base + 1) rest q
  unfolding load_lines
  load_lines-step base line rest p q e = rw (e, load_lines) refl

  load_lines-bad_value :
      (base n : ℕ) (key : Bytes) (ls : List Bytes) (p : FcopyConfig)
      → load_lines stold base ls p ≡ bad_value n key
      → RefusedAt base n key ls p
  unfolding load_lines
  load_lines-bad_value base n key [] p e = cc
  load_lines-bad_value base n key (line ∷ rest) p e =
      elim (lines_stop base n key line rest p (load_line stold (base + 1) line p) refl e) [
        | inl stop ↦
            let (args, number, read, refused) = load_line-bad_value (base + 1) n key line p stop in
            ([], line, rest, args, p, refl, number ∙ omega arith, refl, read, refused)
        | inr (q, went, later) ↦
            let (before, l, after, args, r, split, number, first, read, refused) =
              load_lines-bad_value (base + 1) n key rest q later in
            (
              line ∷ before,
              l,
              after,
              args,
              r,
              ap (λ t. line ∷ t) split,
              number ∙ omega arith,
              load_lines-step base line before p q went ∙ first,
              read,
              refused,
            )
      ]

  load_line-refused :
      (lineno : ℕ) (key line : Bytes) (args : List Bytes) (p : FcopyConfig)
      → parse_line line ≡ setting key args
      → apply_key stold (find_key key_names key) args p ≡ none
      → load_line stold lineno line p ≡ bad_value lineno key
  unfolding load_line
  load_line-refused lineno key line args p read refused = rw (read, load_line, refused) refl

  lines_loaded :
      (base : ℕ) (before : List Bytes) (q : FcopyConfig) (o : LoadResult)
      → elim o [ loaded r ↦ load_lines stold (base + 1) before r | e ↦ e ] ≡ loaded q
      → (r : FcopyConfig) × (o ≡ loaded r) × (load_lines stold (base + 1) before r ≡ loaded q)
  lines_loaded base before q (loaded r) e = (r, refl, e)
  lines_loaded base before q not_opened e = cc
  lines_loaded base before q (bad_line m) e = cc
  lines_loaded base before q (bad_value m k) e = cc

  load_lines-refused :
      (base n : ℕ) (key line : Bytes) (before after args : List Bytes) (p q : FcopyConfig)
      → n ≡ base + length before + 1
      → load_lines stold base before p ≡ loaded q
      → parse_line line ≡ setting key args
      → apply_key stold (find_key key_names key) args q ≡ none
      → load_lines stold base (before ++ (line ∷ after)) p ≡ bad_value n key
  unfolding load_lines
  load_lines-refused base n key line [] after args p q number first read refused =
      let same : p ≡ q = cc in
      let stop =
        load_line-refused (base + 1) key line args p read (
          subst (λ x. apply_key stold (find_key key_names key) args x ≡ none) (sym same) refused) in
      rw (stop, load_lines) (ap (λ k. bad_value k key) (omega arith))
  load_lines-refused base n key line (l ∷ before) after args p q number first read refused =
      let (r, went, later) = lines_loaded base before q (load_line stold (base + 1) l p) first in
      load_lines-step base l (before ++ (line ∷ after)) p r went
      ∙ load_lines-refused (base + 1) n key line before after args r q (number ∙ omega arith) later
          read refused

-- load_service_config names a line and a key in its error exactly when this line is a setting of this
-- key that is refused, and all lines before it were read.
pub load_service_config-bad_value :
    (stold : Stold) (text : Bytes) (p : FcopyConfig) (n : ℕ) (key : Bytes)
    → (load_service_config stold (some text) p ≡ bad_value n key
        → RefusedAt stold 0 n key (lines text) p)
      × (RefusedAt stold 0 n key (lines text) p
          → load_service_config stold (some text) p ≡ bad_value n key)
unfolding load_service_config
load_service_config-bad_value stold text p n key = (
  load_lines-bad_value stold 0 n key (lines text) p,
  λ (before, line, after, args, q, split, number, first, read, refused).
      ap (λ ls. load_lines stold 0 ls p) split
      ∙ load_lines-refused stold 0 n key line before after args p q number first read refused,
)
