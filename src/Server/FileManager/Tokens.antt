-- ===== src/Server/FileManager/Tokens.antt =====
-- What a token stands for in FileManager: from the create_file that returns it to its close_file.
use fcopy.Base.{
  ℕ, ◌%◌, ◌<◌, ◌≡◌, refl, ap, Bytes, bytes_eq, List, [], ◌∷◌, Bool, true, false, not, ◌||◌, Option,
  none, some, ◌==◌, lt→ltb, Option-cases, inl, inr, arith, bytes_eq_refl,
}
use fcopy.Base.Int.{ℤ, pos, negsuc, neg}
use fcopy.Base.Errno.{enoent, eexist}
use fcopy.Wire.Messages.{ChainTarget}
use fcopy.Server.FileManager.{
  FileInfo, FileManager, System, opened, truncated, closed, find, keep_fd, create_fd, enter_file,
  create_file, close_file, set_chain_targets, has_file, get_fd, get_token, create_directories,
  page_size, get_full_path,
}
use fcopy.Server.FileManager.Entries.{
  IsMap, find-erase, find-set_targets_self, find-set_targets_other,
}
use fcopy.Server.FileManager.Ownership.{IsOwner}

close_file-absent :
    (sys : System) (m : FileManager) (token : Bytes)
    → find token m.fmap ≡ none
    → (has_file m token ≡ false) × (close_file sys m token ≡ (m, neg enoent))
unfolding close_file has_file
close_file-absent sys m token absent = rw (absent, close_file, has_file) (refl, refl)

find-close_file :
    (sys : System) (m : FileManager) (token : Bytes) (o : Option FileInfo)
    → IsMap m.fmap
    → find token m.fmap ≡ o
    → find token (close_file sys m token).0.fmap ≡ none
unfolding close_file
find-close_file sys m token none u e = rw (e, close_file) e
find-close_file sys m token (some info) u e = rw (e, close_file) (find-erase token m.fmap u)

-- For a manager whose map and open descriptors agree: after close_file has been called for a token,
-- whatever it returned, the manager has no file for the token, and a second call returns -ENOENT
-- and changes nothing.
pub close_file-twice :
    (sys : System) (m : FileManager) (token : Bytes)
    → IsOwner m
    → let m' = (close_file sys m token).0 in
      (has_file m' token ≡ false) × (close_file sys m' token ≡ (m', neg enoent))
close_file-twice sys m token v =
    close_file-absent sys (close_file sys m token).0 token
      (find-close_file sys m token (find token m.fmap) v.unique refl)

-- When set_chain_targets returns 0 for a token, get_fd answers for it with the descriptor it had
-- and the new targets; for any other token get_fd answers what it answered before.
pub set_chain_targets-get_fd :
    (m : FileManager) (token other : Bytes) (targets rest : List ChainTarget)
    → (set_chain_targets m token targets).1 ≡ pos 0
    → let m' = (set_chain_targets m token targets).0 in
      (get_fd m' token rest ≡ ((get_fd m token rest).0, targets))
      × (bytes_eq token other ≡ false → get_fd m' other rest ≡ get_fd m other rest)
unfolding set_chain_targets get_fd
set_chain_targets-get_fd m token other targets rest ok = elim (Option-cases (find token m.fmap)) [
  | inl absent ↦ let failed : negsuc 0 ≡ pos 0 = rw (absent, set_chain_targets) at ok in cc
  | inr (info, found) ↦
      let now = find-set_targets_self token targets m.fmap found in
      rw (found, set_chain_targets)
        (
          rw (now, get_fd) (rw (found, get_fd) refl),
          λ h.
              ap
                (λ t. elim t as (λ x. ℤ × List ChainTarget) [
                  | none ↦ (negsuc 0, rest)
                  | some i ↦ (pos i.fd, i.targets)
                ])
                (find-set_targets_other token other targets m.fmap h),
        )
]

-- What create_file needs before it comes to the map: a chunk size that is a multiple of the page
-- size and not 0, a directory that is there or can be made, an open that answers `fd`, above 0, and
-- an ftruncate that succeeds.
pub record Opens (sys : System) (m : FileManager) (path : Bytes) (chunk_size : ℕ) (directio : Bool)
    (fd : ℕ) : Type 0 where
  pub positive : (0 < chunk_size) × (0 < fd)
  pub pages : chunk_size % page_size ≡ 0
  pub directory : create_directories sys m.log path ≡ true
  pub opens : sys.open_file m.log path directio ≡ some fd
  pub cuts : sys.truncate (opened path directio (some fd) ∷ m.log) fd 0 ≡ true

module _ (sys : System) where
  -- The state in which create_file is about to enter the descriptor `fd` for `path`.
  abbrev prepared : FileManager → Bytes → Bool → ℕ → FileManager
  prepared m path directio fd = record m {
    log = truncated fd 0 true ∷ opened path directio (some fd) ∷ m.log;
  }

  create_fd-Opens :
      (m : FileManager) (path : Bytes) (chunk_size fd : ℕ) (directio : Bool)
      → Opens sys m path chunk_size directio fd
      → create_fd sys m.log path directio ≡ (some fd, (prepared m path directio fd).log)
  unfolding create_fd keep_fd
  create_fd-Opens m path chunk_size fd directio ready =
      rw (ready.opens, keep_fd, lt→ltb 0 fd (ready.positive.1), ready.opens, ready.cuts) refl

  create_file-Opens :
      (m : FileManager) (name : Bytes) (size chunk_size fd : ℕ) (directio : Bool)
      → Opens sys m (get_full_path sys name) chunk_size directio fd
      → create_file sys m name size chunk_size directio
        ≡ enter_file sys
            (prepared m (get_full_path sys name) directio fd)
            name
            size
            (get_full_path sys name)
            fd
  unfolding create_file
  create_file-Opens m name size chunk_size fd directio ready =
      let valid : (chunk_size == 0 || not (chunk_size % page_size == 0)) ≡ false =
        let p = ready.positive.0 in let q = ready.pages in ground arith in
      let made = create_fd-Opens m (get_full_path sys name) chunk_size fd directio ready in
      rw (valid, ready.directory, ap (λ p. p.0) made, ap (λ p. p.1) made) refl

  -- If the file can be opened and its token has no file, create_file returns 0 and the token, and
  -- from then on get_fd answers for the token with the new descriptor and no targets.
  pub create_file-get_fd :
      (m : FileManager) (name : Bytes) (size chunk_size fd : ℕ) (directio : Bool)
      (rest : List ChainTarget)
      → Opens sys m (get_full_path sys name) chunk_size directio fd
      → has_file m (get_token sys (get_full_path sys name)) ≡ false
      → let (m', result, answer) = create_file sys m name size chunk_size directio in
        (result ≡ pos 0)
        × (answer ≡ get_token sys (get_full_path sys name))
        × (get_fd m' answer rest ≡ (pos fd, []))
  unfolding enter_file has_file get_fd find
  create_file-get_fd m name size chunk_size fd directio rest ready absent =
      rw (create_file-Opens m name size chunk_size fd directio ready)
        (elim (Option-cases (find (get_token sys (get_full_path sys name)) m.fmap)) [
          | inl new ↦
              rw (new, enter_file)
                (
                  refl,
                  refl,
                  rw (bytes_eq_refl (get_token sys (get_full_path sys name)), get_fd) refl,
                )
          | inr (info, found) ↦ let there : true ≡ false = rw (found, has_file) at absent in cc
        ])

  -- If the file can be opened and its token already has a file, create_file returns -EEXIST and
  -- keeps the map, but it has cut the file at the path down to 0 bytes.
  pub create_file-present :
      (m : FileManager) (name : Bytes) (size chunk_size fd : ℕ) (directio : Bool) {info : FileInfo}
      → Opens sys m (get_full_path sys name) chunk_size directio fd
      → find (get_token sys (get_full_path sys name)) m.fmap ≡ some info
      → let (m', result, answer) = create_file sys m name size chunk_size directio in
        (result ≡ neg eexist)
        × (m'.fmap ≡ m.fmap)
        × (m'.log
            ≡ closed fd
              ∷ truncated fd 0 true
              ∷ opened (get_full_path sys name) directio (some fd)
              ∷ m.log)
  unfolding enter_file
  create_file-present m name size chunk_size fd directio ready found =
      rw (create_file-Opens m name size chunk_size fd directio ready)
        (rw (found, enter_file) (refl, refl, refl))

  -- If the file can be opened and its token has no file, create_file enters the descriptor and path.
  pub create_file-enters :
      (m : FileManager) (name : Bytes) (size chunk_size fd : ℕ) (directio : Bool)
      → Opens sys m (get_full_path sys name) chunk_size directio fd
      → has_file m (get_token sys (get_full_path sys name)) ≡ false
      → (info : FileInfo) × (find
            (get_token sys (get_full_path sys name))
            (create_file sys m name size chunk_size directio).0.fmap
          ≡ some info)
        × (info.fd ≡ fd)
        × (info.file_path ≡ get_full_path sys name)
  unfolding enter_file has_file find
  create_file-enters m name size chunk_size fd directio ready absent =
      rw (create_file-Opens m name size chunk_size fd directio ready)
        (elim (Option-cases (find (get_token sys (get_full_path sys name)) m.fmap)) [
          | inl new ↦
              rw (new, enter_file)
                (
                  record {
                    fd = fd;
                    chunk_size = none;
                    total_size = size;
                    file_name = name;
                    file_path = get_full_path sys name;
                    file_token = get_token sys (get_full_path sys name);
                    targets = [];
                  },
                  rw (bytes_eq_refl (get_token sys (get_full_path sys name))) refl,
                  refl,
                  refl,
                )
          | inr (info, found) ↦ let there : true ≡ false = rw (found, has_file) at absent in cc
        ])
