-- ===== src/Server/FileManager/Again.antt =====
-- A second create_file of src/server/file_manager.cpp for a file that is still being received.
use fcopy.Base.{
  ℕ, ◌≡◌, refl, sym, ap, ◌∙◌, Bytes, bytes_eq, bytes_eq→eq, List, [], ◌∷◌, Bool, true, false, not,
  ◌||◌, ◌%◌, Option, none, some, All, ◌==◌, Bool-cases, Option-cases, inl, inr, codes,
}
use fcopy.Base.Int.{ℤ, neg}
use fcopy.Base.Errno.{eexist}
use fcopy.Wire.Messages.{ChainTarget}
use fcopy.Server.FileManager.{
  FileInfo, FileManager, System, Log, opened, truncated, closed, find, set_targets, enter_file,
  create_file, close_file, set_chain_targets, has_file, get_token, get_full_path,
  create_directories, page_size, error_text, Operation, creates, closes, chains, step, run,
}
use fcopy.Server.FileManager.Entries.{
  find-erase_other, find-set_targets_self, find-set_targets_other,
}
use fcopy.Server.FileManager.Tokens.{Opens, create_file-present, create_file-enters}

-- The map has a file for the token, received at a path through a descriptor.
pub record Receives (token : Bytes) (fd : ℕ) (path : Bytes) (m : FileManager) : Type 0 where
  pub info : FileInfo
  pub present : find token m.fmap ≡ some info
  pub descriptor : info.fd ≡ fd
  pub at_path : info.file_path ≡ path

-- A call that does not close the token.
abbrev pub Spares : Bytes → Operation → Type 0
Spares token (creates name size chunk_size directio) = Unit {0}
Spares token (closes other) = bytes_eq other token ≡ false
Spares token (chains other targets) = Unit {0}

module _ (sys : System) (token : Bytes) (fd : ℕ) (path : Bytes) where
  abbrev Kept : FileManager → Type 0
  Kept = Receives token fd path

  same_map : (m m' : FileManager) → m'.fmap ≡ m.fmap → Kept m → Kept m'
  same_map m m' same v = record {
    info = v.info;
    present = ap (find token) same ∙ v.present;
    descriptor = v.descriptor;
    at_path = v.at_path;
  }

  enter_file-Kept :
      (m : FileManager) (name : Bytes) (size : ℕ) (other : Bytes) (g : ℕ)
      → Kept m
      → Kept (enter_file sys m name size other g).0
  unfolding enter_file find
  enter_file-Kept m name size other g v = elim (Option-cases (find (get_token sys other) m.fmap)) [
    | inr (info, old) ↦ rw (old, enter_file) (same_map m _ refl v)
    | inl new ↦ elim (Bool-cases (bytes_eq (get_token sys other) token)) [
      | inl same ↦
          let gone : find token m.fmap ≡ none =
            ap (λ t. find t m.fmap) (sym (bytes_eq→eq _ _ same)) ∙ new in
          let wrong : ◌≡◌ {A = Option FileInfo} none (some v.info) = sym gone ∙ v.present in cc
      | inr differs ↦
          rw (new, enter_file)
            (record {
              info = v.info;
              present = rw differs (v.present);
              descriptor = v.descriptor;
              at_path = v.at_path;
            })
    ]
  ]

  opened-Kept :
      (m : FileManager) (name : Bytes) (size : ℕ) (other : Bytes) (g : Option ℕ) (log : Log)
      → Kept m
      → Kept
          (elim g as (λ x. FileManager × ℤ × Bytes) [
            | none ↦ (
              record m { log = log },
              neg (sys.errno log),
              error_text sys (codes "create_file") (sys.errno log),
            )
            | some h ↦ enter_file sys (record m { log = log }) name size other h
          ]).0
  opened-Kept m name size other none log v = same_map m _ refl v
  opened-Kept m name size other (some h) log v =
      enter_file-Kept (record m { log = log }) name size other h (same_map m _ refl v)

  create_file-Kept :
      (m : FileManager) (name : Bytes) (size chunk_size : ℕ) (directio : Bool)
      → Kept m
      → Kept (create_file sys m name size chunk_size directio).0
  unfolding create_file
  create_file-Kept m name size chunk_size directio v =
      elim (Bool-cases (chunk_size == 0 || not (chunk_size % page_size == 0))) [
        | inl bad ↦ rw bad v
        | inr good ↦ elim (Bool-cases (create_directories sys m.log (get_full_path sys name))) [
          | inl there ↦ rw (good, there) (opened-Kept m name size (get_full_path sys name) _ _ v)
          | inr missing ↦ rw (good, missing) v
        ]
      ]

  close_file-Kept :
      (m : FileManager) (other : Bytes)
      → bytes_eq other token ≡ false
      → Kept m
      → Kept (close_file sys m other).0
  unfolding close_file
  close_file-Kept m other differs v = elim (Option-cases (find other m.fmap)) [
    | inl absent ↦ rw (absent, close_file) v
    | inr (info, found) ↦
        rw (found, close_file)
          (record {
            info = v.info;
            present = find-erase_other other token m.fmap differs ∙ v.present;
            descriptor = v.descriptor;
            at_path = v.at_path;
          })
  ]

  set_chain_targets-Kept :
      (m : FileManager) (other : Bytes) (targets : List ChainTarget)
      → Kept m
      → Kept (set_chain_targets m other targets).0
  unfolding set_chain_targets
  set_chain_targets-Kept m other targets v = elim (Option-cases (find other m.fmap)) [
    | inl absent ↦ rw (absent, set_chain_targets) v
    | inr (info, found) ↦ elim (Bool-cases (bytes_eq other token)) [
      | inl same ↦
          rw (found, set_chain_targets)
            (record {
              info = record v.info { targets = targets };
              present =
                  ap (λ t. find token (set_targets t targets m.fmap)) (bytes_eq→eq other token same)
                  ∙ find-set_targets_self token targets m.fmap v.present;
              descriptor = v.descriptor;
              at_path = v.at_path;
            })
      | inr differs ↦
          rw (found, set_chain_targets)
            (record {
              info = v.info;
              present = find-set_targets_other other token targets m.fmap differs ∙ v.present;
              descriptor = v.descriptor;
              at_path = v.at_path;
            })
    ]
  ]

  -- A file stays as long as its token is not closed.
  run-Kept :
      (ops : List Operation) (m : FileManager)
      → All (Spares token) ops
      → Kept m
      → Kept (run sys m ops)
  unfolding run step
  run-Kept [] m spares v = v
  run-Kept (creates name size chunk_size directio ∷ ops) m (spare, spares) v =
      run-Kept ops _ spares (create_file-Kept m name size chunk_size directio v)
  run-Kept (closes other ∷ ops) m (spare, spares) v =
      run-Kept ops _ spares (close_file-Kept m other spare v)
  run-Kept (chains other targets ∷ ops) m (spare, spares) v =
      run-Kept ops _ spares (set_chain_targets-Kept m other targets v)

module _ (sys : System) (m : FileManager) (name : Bytes) (size chunk_size fd : ℕ)
    (directio : Bool) where
  -- Let create_file for a token without a file pass its checks of the chunk size and the directory,
  -- open its path with a descriptor above 0 and cut it, and let any calls follow that do not close
  -- this token. A second create_file for the same name that passes these checks, opens and cuts the
  -- path as well then returns -EEXIST and keeps the map, in which the token still has the first
  -- descriptor for that very path; but it has cut the path to 0 bytes.
  pub create_file-again :
      (ops : List Operation) (size' chunk_size' fd' : ℕ) (directio' : Bool)
      → Opens sys m (get_full_path sys name) chunk_size directio fd
      → has_file m (get_token sys (get_full_path sys name)) ≡ false
      → All (Spares (get_token sys (get_full_path sys name))) ops
      → let between = run sys (create_file sys m name size chunk_size directio).0 ops in
        Opens sys between (get_full_path sys name) chunk_size' directio' fd'
        → let (m', result, answer) = create_file sys between name size' chunk_size' directio' in
          (result ≡ neg eexist)
          × (m'.fmap ≡ between.fmap)
          × Receives (get_token sys (get_full_path sys name)) fd (get_full_path sys name) m'
          × (m'.log
              ≡ closed fd'
                ∷ truncated fd' 0 true
                ∷ opened (get_full_path sys name) directio' (some fd')
                ∷ between.log)
  create_file-again ops size' chunk_size' fd' directio' ready absent spares again =
      let path = get_full_path sys name in
      let token = get_token sys path in
      let (info, found, held, at) =
        create_file-enters sys m name size chunk_size fd directio ready absent in
      let start : Receives token fd path (create_file sys m name size chunk_size directio).0 =
        record { info = info; present = found; descriptor = held; at_path = at } in
      let kept = run-Kept sys token fd path ops _ spares start in
      let (refused, same, cut) =
        create_file-present sys _ name size' chunk_size' fd' directio' again kept.present in
      (refused, same, same_map sys token fd path _ _ same kept, cut)
