-- ===== src/Server/FileManager/Created.antt =====
-- What the result 0 of create_file means.
use fcopy.Base.{
  ℕ, zero, suc, ◌%◌, ◌<◌, ◌≡◌, ◌≢◌, refl, Bytes, bytes_eq_refl, [], Bool, not, ◌||◌, codes, Option,
  none, some, Bool-cases, Option-cases, inl, inr, arith, ◌==◌,
}
use fcopy.Base.Int.{ℤ, pos, neg, FitsInt16}
use fcopy.Server.FileManager.{
  FileInfo, FileManager, System, Log, find, enter_file, create_file, get_token, get_full_path,
  create_directories, create_fd, page_size, error_text,
}

-- errno is from 1 to 32767 where create_file reads it, after a create_fd that returned -1. An open
-- that answers with the descriptor 0 is such a create_fd too.
abbrev pub SetsErrno : System → Type 0
SetsErrno sys =
    (log : Log) (path : Bytes) (directio : Bool)
    → let (fd, log') = create_fd sys log path directio in
      fd ≡ none → (0 < sys.errno log') × (sys.errno log' < 32768)

-- A result that fits an int16_t, and is 0 only if the token that was answered has a file without
-- targets.
abbrev pub Creates : FileManager × ℤ × Bytes → Type 0
Creates (m, result, token) =
    FitsInt16 result
    × (result ≡ pos 0 → (info : FileInfo) × (find token m.fmap ≡ some info) × (info.targets ≡ []))

neg-FitsInt16 : (n : ℕ) → 0 < n → n < 32768 → FitsInt16 (neg n) × (neg n ≢ pos 0)
neg-FitsInt16 zero h k = absurd (omega arith)
neg-FitsInt16 (suc n) h k = (omega arith, λ e. cc)

module _ (sys : System) (errnos : SetsErrno sys) where
  enter_file-Creates :
      (m : FileManager) (name : Bytes) (size : ℕ) (path : Bytes) (fd : ℕ)
      → Creates (enter_file sys m name size path fd)
  unfolding enter_file find
  enter_file-Creates m name size path fd = elim (Option-cases (find (get_token sys path) m.fmap)) [
    | inl new ↦
        let info : FileInfo = record {
          fd = fd;
          chunk_size = none;
          total_size = size;
          file_name = name;
          file_path = path;
          file_token = get_token sys path;
          targets = [];
        } in
        rw (new, enter_file)
          (omega arith, λ e. (info, rw (bytes_eq_refl (get_token sys path)) refl, refl))
    | inr (info, old) ↦ rw (old, enter_file) (omega arith, λ e. cc)
  ]

  opened-Creates :
      (m : FileManager) (name : Bytes) (size : ℕ) (path : Bytes) (fd : Option ℕ) (log : Log)
      → (fd ≡ none → (0 < sys.errno log) × (sys.errno log < 32768))
      → Creates (elim fd as (λ x. FileManager × ℤ × Bytes) [
        | none ↦ (
          record m { log = log },
          neg (sys.errno log),
          error_text sys (codes "create_file") (sys.errno log),
        )
        | some g ↦ enter_file sys (record m { log = log }) name size path g
      ])
  opened-Creates m name size path none log failed =
      let (fits, bad) = neg-FitsInt16 (sys.errno log) (failed refl).0 (failed refl).1 in
      (fits, λ e. absurd (bad e))
  opened-Creates m name size path (some g) log failed =
      enter_file-Creates (record m { log = log }) name size path g

  -- The result of create_file fits an int16_t, if errno is from 1 to 32767 where it is read; and if the result is 0, the token that it answers has a file without targets.
  pub create_file-Creates :
      (m : FileManager) (name : Bytes) (size chunk_size : ℕ) (directio : Bool)
      → Creates (create_file sys m name size chunk_size directio)
  unfolding create_file
  create_file-Creates m name size chunk_size directio =
      elim (Bool-cases (chunk_size == 0 || not (chunk_size % page_size == 0))) [
        | inl bad ↦ rw bad (omega arith, λ e. cc)
        | inr good ↦ elim (Bool-cases (create_directories sys m.log (get_full_path sys name))) [
          | inl there ↦
              rw (good, there)
                (opened-Creates m name size (get_full_path sys name) _ _
                  (errnos m.log (get_full_path sys name) directio))
          | inr missing ↦ rw (good, missing) (omega arith, λ e. cc)
        ]
      ]
