-- ===== src/Server/FileManager/Refinement.antt =====
-- FileManager of src/server/file_manager.cpp keeps what is promised of its calls.
use fcopy.Base.{
  ℕ, zero, suc, ◌%◌, ◌<◌, ◌≡◌, ◌≢◌, ◌⊎◌, refl, sym, ap, ◌∙◌, Bytes, bytes_eq, codes, List, [], ◌∷◌,
  Bool, true, false, not, ◌||◌, Option, none, some, ◌==◌, Option-cases, Bool-cases, inl, inr, arith,
  if◌then◌else◌, bytes_eq→eq, subst,
}
use fcopy.Base.Int.{ℤ, pos, negsuc, neg}
use fcopy.Base.Errno.{eexist, enotdir, einval}
use fcopy.Wire.Messages.{ChainTarget}
use fcopy.Server.FileManager.{
  FileInfo, FileManager, System, Log, find, erase, set_targets, enter_file, error_text, get_token,
  create_directories, page_size, get_full_path, create_file, close_file, set_chain_targets,
  has_file, get_fd, Operation, creates, closes, chains, step, run, no_files,
}
use fcopy.Server.FileManager.Entries.{
  IsMap, IsMap-erase, IsMap-set_targets, find-erase, find-erase_other, find-set_targets_self,
  find-set_targets_other,
}
use fcopy.Server.FileManager.Promises.{Files, targets_of, view, Allows, Call, Leads}

module _ (sys : System) where
  -- A call of the manager, and its answer; close_file and set_chain_targets answer no text.
  abbrev pub call : FileManager → Operation → FileManager × ℤ × Bytes
  call m (creates name size chunk_size directio) = create_file sys m name size chunk_size directio
  call m (closes token) = let (m', result) = close_file sys m token in (m', result, [])
  call m (chains token targets) =
      let (m', result) = set_chain_targets m token targets in (m', result, [])

  abbrev pub calls_of : FileManager → List Operation → List Call
  calls_of m [] = []
  calls_of m (op ∷ ops) = let (m', result, text) = call m op in (op, result, text) ∷ calls_of m' ops

-- errno is a positive number where create_file reads it.
abbrev pub Reports : System → Type 0
Reports sys = (log : Log) → 0 < sys.errno log

neg-ne : (n : ℕ) → 0 < n → neg n ≢ pos 0
neg-ne zero h = absurd (omega arith)
neg-ne (suc n) h = λ e. cc

-- A call that is allowed, and a map that still has one entry for a token.
abbrev Implements : FileManager → Operation → FileManager × ℤ × Bytes → Type 0
Implements m op (m', result, text) = IsMap m'.fmap × Allows (view m) op (result, text) (view m')

view-new :
    (token : Bytes) (info : FileInfo) (m : List (Bytes × FileInfo)) (t : Bytes)
    → targets_of (find t ((token, info) ∷ m))
      ≡ (if bytes_eq token t then some info.targets else targets_of (find t m))
unfolding find
view-new token info m t = elim (Bool-cases (bytes_eq token t)) [
  | inl e ↦ rw e refl
  | inr e ↦ rw e refl
]

view-erase :
    (token : Bytes) (m : List (Bytes × FileInfo))
    → IsMap m
    → (t : Bytes)
    → targets_of (find t (erase token m))
      ≡ (if bytes_eq token t then none else targets_of (find t m))
view-erase token m u t = elim (Bool-cases (bytes_eq token t)) [
  | inl e ↦ rw e (
      ap (λ k. targets_of (find k (erase token m))) (sym (bytes_eq→eq token t e))
      ∙ ap targets_of (find-erase token m u))
  | inr e ↦ rw e (ap targets_of (find-erase_other token t m e))
]

view-set_targets :
    (token : Bytes) (targets : List ChainTarget) (m : List (Bytes × FileInfo)) (info : FileInfo)
    → find token m ≡ some info
    → (t : Bytes)
    → targets_of (find t (set_targets token targets m))
      ≡ (if bytes_eq token t then some targets else targets_of (find t m))
view-set_targets token targets m info found t = elim (Bool-cases (bytes_eq token t)) [
  | inl e ↦ rw e (
      ap (λ k. targets_of (find k (set_targets token targets m))) (sym (bytes_eq→eq token t e))
      ∙ ap targets_of (find-set_targets_self token targets m found))
  | inr e ↦ rw e (ap targets_of (find-set_targets_other token t targets m e))
]

enter_file-Implements :
    (sys : System) (m : FileManager) (log : Log) (name path : Bytes) (size chunk_size : ℕ)
    (directio : Bool) (fd : ℕ)
    → IsMap m.fmap
    → Implements m
        (creates name size chunk_size directio)
        (enter_file sys (record m { log = log }) name size path fd)
unfolding enter_file
enter_file-Implements sys m log name path size chunk_size directio fd u =
    elim (Option-cases (find (get_token sys path) m.fmap)) [
      | inl absent ↦
          rw (absent, enter_file)
            ((absent, u), inl (refl, ap targets_of absent, view-new (get_token sys path) _ m.fmap))
      | inr (info, found) ↦ rw (found, enter_file) (u, inr (neg-ne eexist (omega arith), λ t. refl))
    ]

close_file-Implements :
    (sys : System) (m : FileManager) (token : Bytes)
    → IsMap m.fmap
    → Implements m (closes token) (call sys m (closes token))
unfolding close_file
close_file-Implements sys m token u = elim (Option-cases (find token m.fmap)) [
  | inl absent ↦ rw (absent, close_file) (u, inr (refl, refl, λ t. refl))
  | inr (info, found) ↦
      rw (found, close_file)
        (IsMap-erase token m.fmap u, inl (refl, λ e. cc, view-erase token m.fmap u))
]

set_chain_targets-Implements :
    (sys : System) (m : FileManager) (token : Bytes) (targets : List ChainTarget)
    → IsMap m.fmap
    → Implements m (chains token targets) (call sys m (chains token targets))
unfolding set_chain_targets
set_chain_targets-Implements sys m token targets u = elim (Option-cases (find token m.fmap)) [
  | inl absent ↦ rw (absent, set_chain_targets) (u, inr (refl, refl, λ t. refl))
  | inr (info, found) ↦
      rw (found, set_chain_targets)
        (
          IsMap-set_targets token targets m.fmap u,
          inl (refl, λ e. cc, view-set_targets token targets m.fmap info found),
        )
]

module _ (sys : System) (errs : Reports sys) where
  created-Implements :
      (m : FileManager) (name path : Bytes) (size chunk_size : ℕ) (directio : Bool) (fd : Option ℕ)
      (log : Log)
      → IsMap m.fmap
      → Implements m
          (creates name size chunk_size directio)
          (elim fd as (λ x. FileManager × ℤ × Bytes) [
            | none ↦ (
              record m { log = log },
              neg (sys.errno log),
              error_text sys (codes "create_file") (sys.errno log),
            )
            | some g ↦ enter_file sys (record m { log = log }) name size path g
          ])
  created-Implements m name path size chunk_size directio none log u =
      (u, inr (neg-ne (sys.errno log) (errs log), λ t. refl))
  created-Implements m name path size chunk_size directio (some g) log u =
      enter_file-Implements sys m log name path size chunk_size directio g u

  create_file-Implements :
      (m : FileManager) (name : Bytes) (size chunk_size : ℕ) (directio : Bool)
      → IsMap m.fmap
      → Implements m
          (creates name size chunk_size directio)
          (create_file sys m name size chunk_size directio)
  create_file-Implements m name size chunk_size directio u =
      elim (Bool-cases (chunk_size == 0 || not (chunk_size % page_size == 0))) [
        | inl bad ↦ unfold create_file in rw bad (u, inr (neg-ne einval (omega arith), λ t. refl))
        | inr good ↦ elim (Bool-cases (create_directories sys m.log (get_full_path sys name))) [
          | inl there ↦
              unfold create_file in
              rw (good, there)
                (created-Implements m name (get_full_path sys name) size chunk_size directio _ _ u)
          | inr missing ↦
              unfold create_file in
              rw (good, missing) (u, inr (neg-ne enotdir (omega arith), λ t. refl))
        ]
      ]

  call-Implements :
      (m : FileManager) (op : Operation) → IsMap m.fmap → Implements m op (call sys m op)
  call-Implements m (creates name size chunk_size directio) u =
      create_file-Implements m name size chunk_size directio u
  call-Implements m (closes token) u = close_file-Implements sys m token u
  call-Implements m (chains token targets) u = set_chain_targets-Implements sys m token targets u

  step-call : (m : FileManager) (op : Operation) → (call sys m op).0 ≡ step sys m op
  unfolding step
  step-call m (creates name size chunk_size directio) = refl
  step-call m (closes token) = refl
  step-call m (chains token targets) = refl

  run-Leads :
      (m : FileManager) (ops : List Operation)
      → IsMap m.fmap
      → Leads (view m) (calls_of sys m ops) (view (run sys m ops))
  unfolding run
  run-Leads m [] u = λ t. refl
  run-Leads m (op ∷ ops) u =
      let (kept, allowed) = call-Implements m op u in
      let next = (call sys m op).0 in
      (
        view next,
        allowed,
        subst (λ k. Leads (view next) (calls_of sys next ops) (view (run sys k ops)))
            (step-call m op) (run-Leads next ops kept),
      )

-- What get_fd and has_file show of the abstract files.
shown :
    (m : FileManager) (token : Bytes) (rest : List ChainTarget)
    → ((has_file m token ≡ true) × (view m token ≡ some (get_fd m token rest).1))
      ⊎ ((has_file m token ≡ false)
          × (view m token ≡ none)
          × (get_fd m token rest ≡ (negsuc 0, rest)))
unfolding has_file get_fd
shown m token rest = elim (Option-cases (find token m.fmap)) [
  | inl absent ↦ inr (rw (absent, has_file) refl, rw absent refl, rw (absent, get_fd) refl)
  | inr (info, found) ↦ inl (rw (found, has_file) refl, rw (found, get_fd) refl)
]

-- The file manager refines its abstract specification, when errno is positive where create_file
-- reads it: its calls, one after the other from no files on, answer and change the abstract files
-- as the specification allows; and at the end has_file and get_fd show what the abstract files have for
-- any token.
pub run-refines :
    (sys : System) (ops : List Operation) (token : Bytes) (rest : List ChainTarget)
    → Reports sys
    → let m = run sys no_files ops in
      (files : Files) × Leads (λ t. none) (calls_of sys no_files ops) files
      × (((has_file m token ≡ true) × (files token ≡ some (get_fd m token rest).1))
          ⊎ ((has_file m token ≡ false)
              × (files token ≡ none)
              × (get_fd m token rest ≡ (negsuc 0, rest))))
unfolding find
run-refines sys ops token rest errs =
    let m = run sys no_files ops in (view m, run-Leads sys errs no_files ops tt, shown m token rest)
