-- ===== src/Client/Files.antt =====
-- load_files of src/common/utils.cpp: the files that a client is to send, from the paths on its
-- command line.
pub mod Unique
use fcopy.Base.{ℕ, zero, suc, Bytes, List, [], ◌∷◌, ◌++◌, Option, none, some, Bool, true, false}
use fcopy.Client.Targets.{contains}

-- The members of FileDesc.
pub record FileDesc : Type 0 where
  pub name : Bytes
  pub dir : Bytes
  pub path : Bytes
  pub fullpath : Bytes
  pub size : ℕ

-- What the file system answers; `none` stands for an error, which std::filesystem throws.
pub record Disk : Type 0 where
  pub is_directory : Bytes → Option Bool
  pub is_regular_file : Bytes → Option Bool
  -- directory_iterator: the paths of the entries.
  pub entries : Bytes → Option (List Bytes)
  -- access with R_OK
  pub readable : Bytes → Bool
  pub filename : Bytes → Bytes
  pub parent_path : Bytes → Bytes
  pub canonical : Bytes → Option Bytes
  pub file_size : Bytes → Option ℕ

-- LoadState without its two limits.
pub record LoadState : Type 0 where
  pub unique_path : List Bytes
  pub files : List FileDesc

-- The exceptions that are thrown, and those of std::filesystem.
pub data Thrown : Type 0 where
  no_permission : Bytes → Thrown
  duplicate : Bytes → Thrown
  maximum_depth : Bytes → Thrown
  unsupported : Bytes → Thrown
  failed : Bytes → Thrown

pub data Loaded : Type 0 where
  loaded : LoadState → Loaded
  thrown : Thrown → Loaded

abbrev pub max_depth : ℕ
max_depth = 16

module _ (disk : Disk) where
  -- The FileDesc of load_file, where all calls succeed.
  unfoldable pub describe : Bytes → Option FileDesc
  describe path = elim (disk.canonical path) [
    | none ↦ none
    | some fullpath ↦ elim (disk.file_size path) [
      | none ↦ none
      | some size ↦ some (record {
        name = disk.filename path;
        dir = disk.parent_path path;
        path = path;
        fullpath = fullpath;
        size = size;
      })
    ]
  ]

  unfoldable pub load_file : Bytes → LoadState → Loaded
  unfolding describe contains
  load_file path state = elim (disk.readable path) [
    | false ↦ thrown (no_permission path)
    | true ↦ elim (describe path) [
      | none ↦ thrown (failed path)
      | some desc ↦ elim (contains desc.fullpath state.unique_path) [
        | true ↦ thrown (duplicate path)
        | false ↦ loaded (record {
          unique_path = desc.fullpath ∷ state.unique_path;
          files = state.files ++ (desc ∷ []);
        })
      ]
    ]
  ]

  -- One path: a directory, which `into` goes through, or a file.
  unfoldable pub load_entry : (Bytes → LoadState → Loaded) → Bytes → LoadState → Loaded
  unfolding load_file
  load_entry into path state = elim (disk.is_directory path) [
    | none ↦ thrown (failed path)
    | some true ↦ into path state
    | some false ↦ elim (disk.is_regular_file path) [
      | none ↦ thrown (failed path)
      | some true ↦ load_file path state
      | some false ↦ thrown (unsupported path)
    ]
  ]

  -- The loops over the entries of a directory and over the paths of the command line.
  unfoldable pub load_entries : (Bytes → LoadState → Loaded) → List Bytes → LoadState → Loaded
  unfolding load_entry
  load_entries into [] state = loaded state
  load_entries into (path ∷ paths) state = elim (load_entry into path state) [
    | thrown e ↦ thrown e
    | loaded state' ↦ load_entries into paths state'
  ]

  -- load_dir with as many levels left as max_depth allows from this one on.
  unfoldable pub load_dir : ℕ → Bytes → LoadState → Loaded
  unfolding load_entries
  load_dir zero path state = thrown (maximum_depth path)
  load_dir (suc levels) path state = elim (disk.entries path) [
    | none ↦ thrown (failed path)
    | some entries ↦ load_entries (load_dir levels) entries state
  ]

  unfoldable pub load_files : List Bytes → List FileDesc → Loaded
  unfolding load_dir
  load_files paths files =
      load_entries (load_dir max_depth) paths (record { unique_path = []; files = files })
