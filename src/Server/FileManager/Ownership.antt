-- ===== src/Server/FileManager/Ownership.antt =====
-- Every descriptor that FileManager opened and did not close belongs to exactly one entry of its
-- map, after any sequence of its operations.
use fcopy.Base.{
  ℕ, ◌+◌, ◌%◌, ◌<◌, ◌≡◌, refl, ◌∙◌, Bytes, List, [], ◌∷◌, Bool, true, false, not, codes, ◌||◌,
  Option, none, some, if◌then◌else◌, ◌==◌, Bool-cases, Option-cases, inl, inr, arith,
}
use fcopy.Base.Int.{ℤ, neg}
use fcopy.Wire.Messages.{ChainTarget}
use fcopy.Server.FileManager.{
  FileInfo, FileManager, System, Log, opened, truncated, closed, find, keep_fd, create_fd,
  enter_file, create_file, close_file, set_chain_targets, get_token, error_text, create_directories,
  page_size, get_full_path, close_all, no_files, Operation, creates, closes, chains, step, run,
}
use fcopy.Server.FileManager.Entries.{
  IsMap, IsMap-erase, IsMap-set_targets, holders, holders-erase, holders-set_targets,
}

-- Whether a descriptor was opened and not closed since.
unfoldable pub is_open : ℕ → Log → Bool
is_open fd [] = false
is_open fd (opened path flag none ∷ l) = is_open fd l
is_open fd (opened path flag (some g) ∷ l) = if fd == g then true else is_open fd l
is_open fd (truncated g len done ∷ l) = is_open fd l
is_open fd (closed g ∷ l) = if fd == g then false else is_open fd l

-- open(2) answers with a descriptor that is not open.
abbrev pub OpensUnused : System → Type 0
OpensUnused sys =
    (log : Log) (path : Bytes) (flag : Bool) (fd : ℕ)
    → sys.open_file log path flag ≡ some fd
    → is_open fd log ≡ false

abbrev one : Bool → ℕ
one b = if b then 1 else 0

-- The entries that hold `fd`, and the operation that is under way, if it does.
abbrev Balanced : List (Bytes × FileInfo) → Option ℕ → Log → ℕ → Type 0
Balanced m none log fd = holders fd m ≡ one (is_open fd log)
Balanced m (some g) log fd = holders fd m + one (fd == g) ≡ one (is_open fd log)

pub record IsOwner (m : FileManager) : Type 0 where
  pub unique : IsMap m.fmap
  pub balance : (fd : ℕ) → 0 < fd → holders fd m.fmap ≡ (if is_open fd m.log then 1 else 0)

module _ (sys : System) (unused : OpensUnused sys) where
  keep_fd-Balanced :
      (m : List (Bytes × FileInfo)) (log : Log) (path : Bytes) (flag : Bool) (answer : Option ℕ)
      (fd : ℕ)
      → sys.open_file log path flag ≡ answer
      → 0 < fd
      → holders fd m ≡ one (is_open fd log)
      → let (kept, log') = keep_fd sys (opened path flag answer ∷ log) answer in
        Balanced m kept log' fd
  unfolding keep_fd is_open
  keep_fd-Balanced m log path flag none fd e h b = b
  keep_fd-Balanced m log path flag (some g) fd e h b = ground (arith, unused log path flag g e)

  create_fd-Balanced :
      (m : List (Bytes × FileInfo)) (log : Log) (path : Bytes) (flag : Bool) (fd : ℕ)
      → 0 < fd
      → holders fd m ≡ one (is_open fd log)
      → Balanced m (create_fd sys log path flag).0 (create_fd sys log path flag).1 fd
  unfolding create_fd
  create_fd-Balanced m log path flag fd h b =
      keep_fd-Balanced m log path flag (sys.open_file log path flag) fd refl h b

  enter_file-IsOwner :
      (m : FileManager) (name path : Bytes) (size g : ℕ)
      → IsMap m.fmap
      → ((fd : ℕ) → 0 < fd → Balanced m.fmap (some g) m.log fd)
      → IsOwner (enter_file sys m name size path g).0
  unfolding enter_file is_open holders
  enter_file-IsOwner m name path size g u b =
      elim (Option-cases (find (get_token sys path) m.fmap)) [
        | inl absent ↦
            rw (absent, enter_file)
              (record { unique = (absent, u); balance = λ fd h. ground (arith, b fd h) })
        | inr (info, present) ↦
            rw (present, enter_file)
              (record { unique = u; balance = λ fd h. ground (arith, b fd h) })
      ]

  opened_file-IsOwner :
      (m : FileManager) (name path : Bytes) (size : ℕ) (fd : Option ℕ) (log : Log)
      → IsMap m.fmap
      → ((g : ℕ) → 0 < g → Balanced m.fmap fd log g)
      → IsOwner
          (elim fd as (λ x. FileManager × ℤ × Bytes) [
            | none ↦ (
              record m { log = log },
              neg (sys.errno log),
              error_text sys (codes "create_file") (sys.errno log),
            )
            | some g ↦ enter_file sys (record m { log = log }) name size path g
          ]).0
  opened_file-IsOwner m name path size none log u b = record { unique = u; balance = b }
  opened_file-IsOwner m name path size (some g) log u b =
      enter_file-IsOwner (record m { log = log }) name path size g u b

  -- create_file keeps the map and the open descriptors in balance, on success and on every error.
  pub create_file-IsOwner :
      (m : FileManager) (name : Bytes) (size chunk_size : ℕ) (directio : Bool)
      → IsOwner m
      → IsOwner (create_file sys m name size chunk_size directio).0
  create_file-IsOwner m name size chunk_size directio v =
      elim (Bool-cases (chunk_size == 0 || not (chunk_size % page_size == 0))) [
        | inl bad ↦ unfold create_file in rw bad v
        | inr good ↦ elim (Bool-cases (create_directories sys m.log (get_full_path sys name))) [
          | inl there ↦
              unfold create_file in
              rw (good, there)
                (opened_file-IsOwner m name (get_full_path sys name) size _ _ v.unique
                  (λ g h. create_fd-Balanced m.fmap m.log _ directio g h (v.balance g h)))
          | inr missing ↦ unfold create_file in rw (good, missing) v
        ]
      ]

  pub close_file-IsOwner :
      (m : FileManager) (token : Bytes) → IsOwner m → IsOwner (close_file sys m token).0
  unfolding close_file is_open
  close_file-IsOwner m token v = elim (Option-cases (find token m.fmap)) [
    | inl absent ↦ rw (absent, close_file) v
    | inr (info, found) ↦
        rw (found, close_file)
          (record {
            unique = IsMap-erase token m.fmap v.unique;
            balance =
                λ fd h. ground (arith, v.balance fd h, holders-erase token m.fmap info fd found);
          })
  ]

pub set_chain_targets-IsOwner :
    (m : FileManager) (token : Bytes) (targets : List ChainTarget)
    → IsOwner m
    → IsOwner (set_chain_targets m token targets).0
unfolding set_chain_targets
set_chain_targets-IsOwner m token targets v = elim (Option-cases (find token m.fmap)) [
  | inl absent ↦ rw (absent, set_chain_targets) v
  | inr (info, found) ↦
      rw (found, set_chain_targets)
        (record {
          unique = IsMap-set_targets token targets m.fmap v.unique;
          balance = λ fd h. holders-set_targets token targets m.fmap fd ∙ v.balance fd h;
        })
]

module _ (sys : System) (unused : OpensUnused sys) where
  step-IsOwner : (m : FileManager) (op : Operation) → IsOwner m → IsOwner (step sys m op)
  unfolding step
  step-IsOwner m (creates name size chunk_size directio) v =
      create_file-IsOwner sys unused m name size chunk_size directio v
  step-IsOwner m (closes token) v = close_file-IsOwner sys unused m token v
  step-IsOwner m (chains token targets) v = set_chain_targets-IsOwner m token targets v

  -- If open never answers with a descriptor that is open, then after any calls of an owner each
  -- descriptor above 0 is open exactly if an entry of the map holds it, no two entries hold the
  -- same, and no token has two entries.
  pub run-IsOwner : (m : FileManager) (ops : List Operation) → IsOwner m → IsOwner (run sys m ops)
  unfolding run
  run-IsOwner m [] v = v
  run-IsOwner m (op ∷ ops) v = run-IsOwner (step sys m op) ops (step-IsOwner m op v)

pub no_files-IsOwner : IsOwner no_files
unfolding holders is_open
no_files-IsOwner = record { unique = tt; balance = λ fd h. refl }

close_all-is_open :
    (m : List (Bytes × FileInfo)) (log : Log) (fd : ℕ)
    → is_open fd (close_all m log) ≡ (if holders fd m == 0 then is_open fd log else false)
unfolding close_all holders is_open
close_all-is_open [] log fd = refl
close_all-is_open ((k, info) ∷ m) log fd =
    ground (arith, close_all-is_open m (closed info.fd ∷ log) fd)

-- If open never answers with a descriptor that is open, then a manager that starts with no files
-- and is destroyed after any calls leaves no descriptor above 0 open.
pub run-close_all :
    (sys : System) (ops : List Operation) (fd : ℕ)
    → OpensUnused sys
    → 0 < fd
    → let m = run sys no_files ops in is_open fd (close_all m.fmap m.log) ≡ false
run-close_all sys ops fd unused h =
    let m = run sys no_files ops in
    let v = (run-IsOwner sys unused no_files ops no_files-IsOwner).balance fd h in
    close_all-is_open m.fmap m.log fd ∙ closed_or_free (holders fd m.fmap) (is_open fd m.log) v
  where
    closed_or_free : (n : ℕ) (b : Bool) → n ≡ one b → (if n == 0 then b else false) ≡ false
    closed_or_free n true e = ground arith
    closed_or_free n false e = ground arith
