-- ===== src/Server/Config/Steps.antt =====
-- What each setting does when load_line of src/server/load_config.cpp reads it.
use fcopy.Base.{
  ℕ, ◌+◌, ◌*◌, ◌/◌, ◌%◌, ◌^◌, ◌≤◌, ◌≡◌, refl, sym, ap, ◌∙◌, Bytes, bytes_eq, codes, List, [], ◌∷◌,
  ◌++◌, Bool, true, false, All, some, arith, inl, inr, subst, map, append-nil, append_assoc,
}
use fcopy.Base.Int.{ℤ}
use fcopy.Text.{is_space, to_string}
use fcopy.Server.Config.Words.{IsWord, IsLine, line_of, parse_line-line_of}
use fcopy.Server.Config.Numerals.{
  int_text, int_text-IsWord, units_text-IsWord, parse_signed-int_text, Reads, parse_size-units,
}
use fcopy.Server.Config.Values.{
  Stold, fits_int, insert_partition, parse_bool, size_exponent, parse_string, parse_partition,
}
use fcopy.Server.Config.Load.{
  FcopyConfig, BoolKey, IntKey, StrKey, int_key, str_key, bool_key, key_names, find_key, set_bool,
  set_int, set_str, assign, apply_key, loaded, load_line, load_lines,
}
use fcopy.Server.Config.Settings.{
  Setting, yes_no, string_setting, partition_settings, int_entries, int_settings, set_ints,
  IsIntEntry, IsString, Named, IsWritable,
}

abbrev pub insert_all : List (Bytes × Bytes) → List (Bytes × Bytes) → List (Bytes × Bytes)
insert_all [] m = m
insert_all ((name, root) ∷ es) m = insert_all es (insert_partition name root m)

insert_partition-new :
    (name root : Bytes) (m : List (Bytes × Bytes))
    → All (λ e. bytes_eq e.0 name ≡ false) m
    → insert_partition name root m ≡ m ++ ((name, root) ∷ [])
unfolding insert_partition
insert_partition-new name root [] h = refl
insert_partition-new name root ((k, r) ∷ m) (h, hs) =
    rw (h, insert_partition, insert_partition-new name root m hs) refl

Named-All :
    (done m : List (Bytes × Bytes)) (name root : Bytes)
    → Named (done ++ ((name, root) ∷ m))
    → All (λ e. bytes_eq e.0 name ≡ false) done
Named-All [] m name root h = tt
Named-All ((k, r) ∷ done) m name root (h, hs) =
    (All-middle _ done m (name, root) h, Named-All done m name root hs)
  where
    All-middle :
        (P : Bytes × Bytes → Type 0) (xs ys : List (Bytes × Bytes)) (x : Bytes × Bytes)
        → All P (xs ++ (x ∷ ys))
        → P x
    All-middle P [] ys x h = h.0
    All-middle P (y ∷ xs) ys x h = All-middle P xs ys x h.1

-- Entries with different names are kept, in their order.
pub insert_all-Named :
    (m done : List (Bytes × Bytes)) → Named (done ++ m) → insert_all m done ≡ done ++ m
insert_all-Named [] done h = sym (append-nil done)
insert_all-Named ((name, root) ∷ m) done h =
    ap (insert_all m) (insert_partition-new name root done (Named-All done m name root h))
    ∙ insert_all-Named m (done ++ ((name, root) ∷ []))
        (subst Named (sym (append_assoc done ((name, root) ∷ []) m)) h)
    ∙ append_assoc done ((name, root) ∷ []) m

module _ (stold : Stold) where
  -- The settings, one after the other, take one configuration to another.
  abbrev pub Applies : List Setting → FcopyConfig → FcopyConfig → Type 0
  Applies [] p q = p ≡ q
  Applies ((key, args) ∷ ss) p q =
      IsLine (key, args)
      × (r : FcopyConfig) × (apply_key stold (find_key key_names key) args p ≡ some r)
      × Applies ss r q

  pub Applies-append :
      (ss ts : List Setting) (p q r : FcopyConfig)
      → Applies ss p q
      → Applies ts q r
      → Applies (ss ++ ts) p r
  Applies-append [] ts p q r e h = subst (λ x. Applies ts x r) (sym e) h
  Applies-append ((key, args) ∷ ss) ts p q r (line, next, done, rest) h =
      (line, next, done, Applies-append ss ts next q r rest h)

  load_line-line_of :
      (n : ℕ) (key : Bytes) (args : List Bytes) (p q : FcopyConfig)
      → IsLine (key, args)
      → apply_key stold (find_key key_names key) args p ≡ some q
      → load_line stold n (line_of (key, args)) p ≡ loaded q
  unfolding load_line
  load_line-line_of n key args p q line done =
      rw (parse_line-line_of key args line, load_line, done) refl

  pub load_lines-Applies :
      (n : ℕ) (ss : List Setting) (p q : FcopyConfig)
      → Applies ss p q
      → load_lines stold n (map line_of ss) p ≡ loaded q
  unfolding load_lines
  load_lines-Applies n [] p q e = ap loaded e
  load_lines-Applies n ((key, args) ∷ ss) p q (line, next, done, rest) =
      rw (load_line-line_of (n + 1) key args p next line done, load_lines)
        (load_lines-Applies (n + 1) ss next q rest)

  pub Applies-IsLine : (ss : List Setting) (p q : FcopyConfig) → Applies ss p q → All IsLine ss
  Applies-IsLine [] p q e = tt
  Applies-IsLine ((key, args) ∷ ss) p q (line, next, done, rest) =
      (line, Applies-IsLine ss next q rest)

  int_step :
      (key : Bytes) (k : IntKey) (z : ℤ) (p : FcopyConfig)
      → find_key key_names key ≡ int_key k
      → fits_int z ≡ true
      → apply_key stold (find_key key_names key) (int_text z ∷ []) p ≡ some (set_int k z p)
  unfolding apply_key
  int_step key k z p e h =
      ap (λ x. apply_key stold x (int_text z ∷ []) p) e
      ∙ ap (λ o. assign (set_int k) o p) (parse_signed-int_text z h)

  pub ints-Applies :
      (es : List (Bytes × IntKey × ℤ)) (p : FcopyConfig)
      → All IsIntEntry es
      → Applies (int_settings es) p (set_ints es p)
  ints-Applies [] p h = refl
  ints-Applies ((key, k, z) ∷ es) p ((w, e, h), hs) = (
    (w, (int_text-IsWord z, tt)),
    set_int k z p,
    int_step key k z p e h,
    ints-Applies es (set_int k z p) hs,
  )

  pub int_entries-IsIntEntry : (q : FcopyConfig) → IsWritable q → All IsIntEntry (int_entries q)
  unfolding find_key is_space
  int_entries-IsIntEntry q v = (
    (refl, refl, v.ints.0),
    (
      (refl, refl, v.ints.1),
      (
        (refl, refl, v.ints.2),
        (
          (refl, refl, v.ints.3),
          (
            (refl, refl, v.ints.4),
            (
              (refl, refl, v.ints.5),
              ((refl, refl, v.ints.6), ((refl, refl, v.ints.7), ((refl, refl, v.ints.8), tt))),
            ),
          ),
        ),
      ),
    ),
  )

  pub string_setting-Applies :
      (key : Bytes) (k : StrKey) (s : Bytes) (p : FcopyConfig)
      → IsWord key × (find_key key_names key ≡ str_key k)
      → set_str k [] p ≡ p
      → IsString s
      → Applies (string_setting key s) p (set_str k s p)
  unfolding apply_key parse_string
  string_setting-Applies key k [] p (w, e) same h = sym same
  string_setting-Applies key k (c ∷ s) p (w, e) same (inl h) = cc
  string_setting-Applies key k (c ∷ s) p (w, e) same (inr h) =
      ((w, (h, tt)), set_str k (c ∷ s) p, ap (λ x. apply_key stold x ((c ∷ s) ∷ []) p) e, refl)

  pub bool_setting :
      (key : Bytes) (k : BoolKey) (b : Bool) (p : FcopyConfig)
      → IsWord key × (find_key key_names key ≡ bool_key k)
      → Applies ((key, yes_no b ∷ []) ∷ []) p (set_bool k b p)
  unfolding apply_key parse_bool is_space
  bool_setting key k false p (w, e) =
      ((w, (refl, tt)), set_bool k false p, ap (λ x. apply_key stold x (codes "no" ∷ []) p) e, refl)
  bool_setting key k true p (w, e) =
      ((w, (refl, tt)), set_bool k true p, ap (λ x. apply_key stold x (codes "yes" ∷ []) p) e, refl)

  pub limit_setting :
      (n : ℕ) (p : FcopyConfig)
      → Reads stold (n / 1024) (codes "K")
      → n % 1024 ≡ 0
      → n ≤ 2 ^ 50
      → Applies
          ((codes "request-size-limit", (to_string (n / 1024) ++ codes "K") ∷ []) ∷ [])
          p
          (record p { srv_size_limit = n })
  unfolding find_key apply_key is_space size_exponent
  limit_setting n p reads whole small =
      let back : n / 1024 * 2 ^ 10 ≡ n = omega arith in
      let read = parse_size-units stold (n / 1024) 10 (codes "K") reads refl (omega arith) in
      (
        (refl, (units_text-IsWord (n / 1024), tt)),
        record p { srv_size_limit = n },
        ap (λ o. assign (λ n q. record q { srv_size_limit = n }) o p) (read ∙ ap some back),
        refl,
      )

  pub partition_settings-Applies :
      (m : List (Bytes × Bytes)) (p : FcopyConfig)
      → All (λ e. IsWord e.0 × IsWord e.1) m
      → Applies (partition_settings m) p (record p { partitions = insert_all m p.partitions })
  unfolding find_key apply_key is_space parse_partition
  partition_settings-Applies [] p words = refl
  partition_settings-Applies ((name, root) ∷ m) p ((w, v), words) =
      let next : FcopyConfig = record p { partitions = insert_partition name root p.partitions } in
      ((refl, (w, (v, tt))), next, refl, partition_settings-Applies m next words)
