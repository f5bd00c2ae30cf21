-- ===== src/Client/Files/Unique.antt =====
-- What load_files puts on its list.
use fcopy.Base.{
  ℕ, zero, suc, ◌≡◌, refl, sym, ap, ◌∙◌, Bytes, bytes_eq, bytes_eq_refl, bytes_eq→eq, List, [], ◌∷◌,
  ◌++◌, Option, none, some, true, false, All, All-append, arith, Bool-cases, Option-cases, inl, inr,
  subst, ◌⊎◌,
}
use fcopy.Client.Targets.{contains}
use fcopy.Client.Files.{
  FileDesc, Disk, LoadState, Thrown, Loaded, loaded, thrown, describe, load_file, load_entry,
  load_entries, load_dir, load_files, max_depth,
}

-- No two files have the same canonical path.
abbrev pub Distinct : List FileDesc → Type 0
Distinct [] = Unit {0}
Distinct (f ∷ fs) = All (λ g. bytes_eq f.fullpath g.fullpath ≡ false) fs × Distinct fs

Distinct-append :
    (fs : List FileDesc) (g : FileDesc)
    → Distinct fs
    → All (λ f. bytes_eq f.fullpath g.fullpath ≡ false) fs
    → Distinct (fs ++ (g ∷ []))
Distinct-append [] g d h = (tt, tt)
Distinct-append (f ∷ fs) g (e, d) (h, hs) =
    (All-append _ fs (g ∷ []) e (h, tt), Distinct-append fs g d hs)

pub Loaded-cases :
    (r : Loaded) → ((e : Thrown) × (r ≡ thrown e)) ⊎ ((s : LoadState) × (r ≡ loaded s))
Loaded-cases (thrown e) = inl (e, refl)
Loaded-cases (loaded s) = inr (s, refl)

module _ (disk : Disk) where
  -- A file as load_file describes it: it can be read, is no directory but a regular file, and has
  -- this canonical path and size.
  pub record IsFile (f : FileDesc) : Type 0 where
    pub readable : disk.readable f.path ≡ true
    pub regular : disk.is_regular_file f.path ≡ some true
    pub file : disk.is_directory f.path ≡ some false
    pub described : describe disk f.path ≡ some f

  -- The set of paths holds those of the files, which are distinct.
  pub record IsLoaded (state : LoadState) : Type 0 where
    pub known : All (λ f. contains f.fullpath state.unique_path ≡ true) state.files
    pub distinct : Distinct state.files
    pub files : All IsFile state.files

  abbrev Keeps : LoadState → Loaded → Type 0
  Keeps state (thrown e) = Unit {0}
  Keeps state (loaded state') = IsLoaded state → IsLoaded state'

  fresh_path :
      (fs : List FileDesc) (known : List Bytes) (path : Bytes)
      → All (λ f. contains f.fullpath known ≡ true) fs
      → contains path known ≡ false
      → All (λ f. bytes_eq f.fullpath path ≡ false) fs
  fresh_path [] known path h new = tt
  fresh_path (f ∷ fs) known path (h, hs) new = (
    elim (Bool-cases (bytes_eq f.fullpath path)) [
      | inl same ↦
          let e = bytes_eq→eq f.fullpath path same in
          let wrong : true ≡ false = sym h ∙ ap (λ p. contains p known) e ∙ new in cc
      | inr other ↦ other
    ],
    fresh_path fs known path hs new,
  )

  still_known :
      (fs : List FileDesc) (known : List Bytes) (path : Bytes)
      → All (λ f. contains f.fullpath known ≡ true) fs
      → All (λ f. contains f.fullpath (path ∷ known) ≡ true) fs
  unfolding contains
  still_known [] known path h = tt
  still_known (f ∷ fs) known path (h, hs) = (ground arith, still_known fs known path hs)

  contains-head : (path : Bytes) (known : List Bytes) → contains path (path ∷ known) ≡ true
  unfolding contains
  contains-head path known = ground (arith, bytes_eq_refl path)

  added :
      (state : LoadState) (f : FileDesc)
      → IsFile f
      → contains f.fullpath state.unique_path ≡ false
      → IsLoaded state
      → IsLoaded
          (record { unique_path = f.fullpath ∷ state.unique_path; files = state.files ++ (f ∷ []) })
  added state f file new v = record {
    known =
        All-append _ state.files (f ∷ [])
          (still_known state.files state.unique_path f.fullpath v.known)
          (contains-head f.fullpath state.unique_path, tt);
    distinct =
        Distinct-append state.files f v.distinct
          (fresh_path state.files state.unique_path f.fullpath v.known new);
    files = All-append IsFile state.files (f ∷ []) v.files (file, tt);
  }

  describe-path : (path : Bytes) (f : FileDesc) → describe disk path ≡ some f → f.path ≡ path
  unfolding describe
  describe-path path f h = elim (Option-cases (disk.canonical path)) [
    | inl absent ↦
        let e : ◌≡◌ {A = Option FileDesc} none (some f) = rw (absent, describe) at h in cc
    | inr (full, there) ↦ elim (Option-cases (disk.file_size path)) [
      | inl unknown ↦
          let e : ◌≡◌ {A = Option FileDesc} none (some f) = rw (there, describe, unknown) at h in cc
      | inr (size, measured) ↦
          let e : some (record {
            name = disk.filename path;
            dir = disk.parent_path path;
            path = path;
            fullpath = full;
            size = size;
          })
              ≡ some f =
            rw (there, describe, measured) at h in
          cc
    ]
  ]

  load_file-Keeps :
      (path : Bytes) (state : LoadState)
      → disk.is_directory path ≡ some false
      → disk.is_regular_file path ≡ some true
      → Keeps state (load_file disk path state)
  unfolding load_file
  load_file-Keeps path state file regular = elim (Bool-cases (disk.readable path)) [
    | inr unreadable ↦ rw (unreadable, load_file) tt
    | inl readable ↦ elim (Option-cases (describe disk path)) [
      | inl absent ↦ rw (readable, load_file, absent) tt
      | inr (f, described) ↦ elim (Bool-cases (contains f.fullpath state.unique_path)) [
        | inl known ↦ rw (readable, load_file, described, known) tt
        | inr new ↦
            let same = sym (describe-path path f described) in
            let is_file : IsFile f = record {
              readable = subst (λ p. disk.readable p ≡ true) same readable;
              regular = subst (λ p. disk.is_regular_file p ≡ some true) same regular;
              file = subst (λ p. disk.is_directory p ≡ some false) same file;
              described = subst (λ p. describe disk p ≡ some f) same described;
            } in
            rw (readable, load_file, described, new) (added state f is_file new)
      ]
    ]
  ]

  load_entry-Keeps :
      (into : Bytes → LoadState → Loaded) (path : Bytes) (state : LoadState)
      → ((p : Bytes) (s : LoadState) → Keeps s (into p s))
      → Keeps state (load_entry disk into path state)
  unfolding load_entry
  load_entry-Keeps into path state inner = elim (Option-cases (disk.is_directory path)) [
    | inl failed ↦ rw (failed, load_entry) tt
    | inr (true, directory) ↦ rw (directory, load_entry) (inner path state)
    | inr (false, file) ↦ elim (Option-cases (disk.is_regular_file path)) [
      | inl failed ↦ rw (file, load_entry, failed) tt
      | inr (true, regular) ↦
          rw (file, load_entry, regular) (load_file-Keeps path state file regular)
      | inr (false, other) ↦ rw (file, load_entry, other) tt
    ]
  ]

  load_entries-Keeps :
      (into : Bytes → LoadState → Loaded) (paths : List Bytes) (state : LoadState)
      → ((p : Bytes) (s : LoadState) → Keeps s (into p s))
      → Keeps state (load_entries disk into paths state)
  unfolding load_entries
  load_entries-Keeps into [] state inner = λ v. v
  load_entries-Keeps into (path ∷ paths) state inner =
      let one = load_entry-Keeps into path state inner in
      elim (Loaded-cases (load_entry disk into path state)) [
        | inl (e, bad) ↦ rw (bad, load_entries) tt
        | inr (state', good) ↦
            let kept : IsLoaded state → IsLoaded state' = subst (Keeps state) good one in
            rw (good, load_entries)
              (chained state state' (load_entries disk into paths state') kept
                (load_entries-Keeps into paths state' inner))
      ]
    where
      chained :
          (s s' : LoadState) (r : Loaded) → (IsLoaded s → IsLoaded s') → Keeps s' r → Keeps s r
      chained s s' (thrown e) f g = tt
      chained s s' (loaded t) f g = λ v. g (f v)

  load_dir-Keeps :
      (levels : ℕ) (path : Bytes) (state : LoadState)
      → Keeps state (load_dir disk levels path state)
  unfolding load_dir
  load_dir-Keeps zero path state = tt
  load_dir-Keeps (suc levels) path state = elim (Option-cases (disk.entries path)) [
    | inl failed ↦ rw (failed, load_dir) tt
    | inr (entries, there) ↦
        rw (there, load_dir)
          (load_entries-Keeps (load_dir disk levels) entries state (load_dir-Keeps levels))
  ]

  -- When load_files throws nothing, every file on its list can be read, is a regular file and no
  -- directory, with its canonical path and size, and no two files have the same canonical path.
  pub load_files-IsFile :
      (paths : List Bytes) (state : LoadState)
      → load_files disk paths [] ≡ loaded state
      → Distinct state.files × All IsFile state.files
  unfolding load_files
  load_files-IsFile paths state h =
      let kept =
        subst (Keeps (record { unique_path = []; files = [] })) h
          (load_entries-Keeps (load_dir disk max_depth) paths _ (load_dir-Keeps max_depth)) in
      let v = kept (record { known = tt; distinct = tt; files = tt }) in (v.distinct, v.files)
