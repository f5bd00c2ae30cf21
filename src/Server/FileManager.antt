-- ===== src/Server/FileManager.antt =====
-- FileManager of src/server/file_manager.h and .cpp: the files that are open for receiving, by
-- token. A std::map is a list of pairs with at most one entry for a key.
pub mod Entries
pub mod Ownership
pub mod Tokens
pub mod Again
pub mod Created
pub mod Promises
pub mod Refinement
use fcopy.Base.{
  ℕ, zero, suc, ◌+◌, ◌*◌, ◌%◌, ◌<◌, ◌≡◌, Bytes, bytes_eq, codes, decimal, List, [], ◌∷◌, ◌++◌, Bool,
  true, false, not, ◌&&◌, ◌||◌, Option, none, some, if◌then◌else◌, ◌==◌, ltb,
}
use fcopy.Base.Int.{ℤ, pos, negsuc, neg}
use fcopy.Base.Errno.{enoent, eexist, enotdir, einval}
use fcopy.Wire.Messages.{ChainTarget}

-- `chunk_size` is none: create_file leaves that member uninitialised.
pub record FileInfo : Type 0 where
  pub fd : ℕ
  pub chunk_size : Option ℕ
  pub total_size : ℕ
  pub file_name : Bytes
  pub file_path : Bytes
  pub file_token : Bytes
  pub targets : List ChainTarget

-- The system calls on files that were made, with their answers; the newest stands first.
pub data Event : Type 0 where
  opened : Bytes → Bool → Option ℕ → Event
  truncated : ℕ → ℕ → Bool → Event
  closed : ℕ → Event

abbrev pub Log : Type 0
Log = List Event

-- What the program calls and does not implement. What the system answers to a call may depend on
-- all calls before it. An error_code is its value, 0 for none.
pub record System : Type 0 where
  pub current_path : Bytes
  -- std::filesystem::path: operator/=, has_filename, remove_filename.
  pub join : Bytes → Bytes → Bytes
  pub has_filename : Bytes → Bool
  pub remove_filename : Bytes → Bytes
  -- std::hash of a path, and its digits by std::hex.
  pub hash_digits : Bytes → Bytes
  -- std::filesystem::exists with its error_code, and create_directories.
  pub exists : Log → Bytes → Bool × ℕ
  pub make_directories : Log → Bytes → ℕ
  -- open(2) with O_CREAT | O_RDWR, and O_DIRECT if the flag is set; ftruncate(2); errno.
  pub open_file : Log → Bytes → Bool → Option ℕ
  pub truncate : Log → ℕ → ℕ → Bool
  pub errno : Log → ℕ

pub record FileManager : Type 0 where
  pub fmap : List (Bytes × FileInfo)
  pub log : Log

abbrev pub no_files : FileManager
no_files = record { fmap = []; log = [] }

unfoldable pub find : Bytes → List (Bytes × FileInfo) → Option FileInfo
find token [] = none
find token ((k, info) ∷ m) = if bytes_eq k token then some info else find token m

unfoldable pub erase : Bytes → List (Bytes × FileInfo) → List (Bytes × FileInfo)
erase token [] = []
erase token ((k, info) ∷ m) = if bytes_eq k token then m else (k, info) ∷ erase token m

-- An assignment to a member of the entry that was found.
unfoldable pub set_targets :
    Bytes → List ChainTarget → List (Bytes × FileInfo) → List (Bytes × FileInfo)
set_targets token targets [] = []
set_targets token targets ((k, info) ∷ m) =
    if bytes_eq k token
    then (k, record info { targets = targets }) ∷ m
    else (k, info) ∷ set_targets token targets m

abbrev pub page_size : ℕ
page_size = 8 * 1024

module _ (sys : System) where
  unfoldable pub get_full_path : Bytes → Bytes
  get_full_path name = sys.join sys.current_path name

  unfoldable pub get_token : Bytes → Bytes
  get_token path = sys.hash_digits path

  -- The error_code of `exists` stands, unless create_directories is called and sets it again.
  unfoldable pub create_directories : Log → Bytes → Bool
  create_directories log path =
      let dir = if sys.has_filename path then sys.remove_filename path else path in
      let (there, ec) = sys.exists log dir in
      (if there then ec else sys.make_directories log dir) == 0

  -- create_fd once open has answered: `none` is the result -1. A descriptor 0 is treated as a
  -- failure, and is not closed.
  unfoldable pub keep_fd : Log → Option ℕ → Option ℕ × Log
  keep_fd log none = (none, log)
  keep_fd log (some fd) =
      if ltb 0 fd
      then (let kept = sys.truncate log fd 0 in
          let log' = truncated fd 0 kept ∷ log in
          if kept then (some fd, log') else (none, closed fd ∷ log'))
      else (none, log)

  unfoldable pub create_fd : Log → Bytes → Bool → Option ℕ × Log
  unfolding keep_fd
  create_fd log path directio =
      let answer = sys.open_file log path directio in
      keep_fd (opened path directio answer ∷ log) answer

  -- What return_error leaves in `file_token`.
  unfoldable pub error_text : Bytes → ℕ → Bytes
  error_text type error = codes "Error: " ++ (type ++ (codes " errno:" ++ decimal error))

  -- The last part of create_file, under the lock: the descriptor is entered, or closed again.
  unfoldable pub enter_file : FileManager → Bytes → ℕ → Bytes → ℕ → FileManager × ℤ × Bytes
  unfolding find get_token error_text
  enter_file m name size path fd =
      let token = get_token path in
      elim (find token m.fmap) [
        | none ↦ (
          record m {
            fmap =
                (
                  token,
                  record {
                    fd = fd;
                    chunk_size = none;
                    total_size = size;
                    file_name = name;
                    file_path = path;
                    file_token = token;
                    targets = [];
                  },
                )
                ∷ m.fmap;
          },
          pos 0,
          token,
        )
        | some info ↦ (
          record m { log = closed fd ∷ m.log },
          neg eexist,
          error_text (codes "duplicate_token") eexist,
        )
      ]

  -- The new state, the result, and `file_token`.
  unfoldable pub create_file : FileManager → Bytes → ℕ → ℕ → Bool → FileManager × ℤ × Bytes
  create_file m name size chunk_size directio =
      let path = get_full_path name in
      if chunk_size == 0 || not (chunk_size % page_size == 0)
      then (m, neg einval, error_text (codes "chunk_size") einval)
      else if not (create_directories m.log path)
      then (m, neg enotdir, error_text (codes "create_directory") enotdir)
      else (let (fd, log) = create_fd m.log path directio in
          elim fd [
            | none ↦ (
              record m { log = log },
              neg (sys.errno log),
              error_text (codes "create_file") (sys.errno log),
            )
            | some fd ↦ enter_file (record m { log = log }) name size path fd
          ])

  -- The result of ftruncate is not looked at.
  unfoldable pub close_file : FileManager → Bytes → FileManager × ℤ
  unfolding find erase
  close_file m token = elim (find token m.fmap) [
    | none ↦ (m, neg enoent)
    | some info ↦ (
      record {
        fmap = erase token m.fmap;
        log =
            closed info.fd
            ∷ truncated info.fd info.total_size (sys.truncate m.log info.fd info.total_size)
            ∷ m.log;
      },
      pos 0,
    )
  ]

-- The destructor closes every descriptor.
unfoldable pub close_all : List (Bytes × FileInfo) → Log → Log
close_all [] log = log
close_all ((k, info) ∷ m) log = close_all m (closed info.fd ∷ log)

unfoldable pub set_chain_targets : FileManager → Bytes → List ChainTarget → FileManager × ℤ
unfolding find set_targets
set_chain_targets m token targets = elim (find token m.fmap) [
  | none ↦ (m, negsuc 0)
  | some info ↦ (record m { fmap = set_targets token targets m.fmap }, pos 0)
]

unfoldable pub has_file : FileManager → Bytes → Bool
unfolding find
has_file m token = elim (find token m.fmap) [ none ↦ false | some info ↦ true ]

-- The descriptor, or -1, and the targets, which are left alone for -1.
unfoldable pub get_fd : FileManager → Bytes → List ChainTarget → ℤ × List ChainTarget
unfolding find
get_fd m token targets = elim (find token m.fmap) [
  | none ↦ (negsuc 0, targets)
  | some info ↦ (pos info.fd, info.targets)
]

pub data Operation : Type 0 where
  creates : Bytes → ℕ → ℕ → Bool → Operation
  closes : Bytes → Operation
  chains : Bytes → List ChainTarget → Operation

-- The state after a call, for calls that do not overlap.
unfoldable pub step : System → FileManager → Operation → FileManager
step sys m (creates name size chunk_size directio) =
    (create_file sys m name size chunk_size directio).0
step sys m (closes token) = (close_file sys m token).0
step sys m (chains token targets) = (set_chain_targets m token targets).0

unfoldable pub run : System → FileManager → List Operation → FileManager
unfolding step
run sys m [] = m
run sys m (op ∷ ops) = run sys (step sys m op) ops
