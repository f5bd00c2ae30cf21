-- ===== src/Server/Overlap.antt =====
-- Requests that overlap: handle_create_file, handle_close_file and handle_send_file of
-- src/server/service.cpp over FileManager of src/server/file_manager.cpp, as steps that the mutex and
-- the system keep apart.
pub mod Held
pub mod Owners
pub mod Stray
pub mod Aims
pub mod Waiting
use fcopy.Base.{
  ℕ, ◌<◌, ◌≡◌, Bytes, bytes_eq, List, [], ◌∷◌, ◌++◌, Bool, Option, none, some, if◌then◌else◌, ◌==◌,
}
use fcopy.Server.FileManager.{FileInfo, find, erase}

-- The map of the manager; for each descriptor that is open, the token of the path it was opened with;
-- and the writes: the token of the request, and the token of the file that its descriptor is
-- open for.
pub record Shared : Type 0 where
  pub fmap : List (Bytes × FileInfo)
  pub table : ℕ → Option Bytes
  pub writes : List (Bytes × Option Bytes)

-- Where a request stands, with the local variables that are live there.
pub data Job : Type 0 where
  creating : (token : Bytes) → Job  -- before open
  cutting : (token : Bytes) → (fd : ℕ) → Job  -- before ftruncate of create_fd
  entering : (token : Bytes) → (info : FileInfo) → Job  -- before the lock of create_file
  refusing : (token : Bytes) → (fd : ℕ) → Job  -- before close in create_fd or return_error
  finding : (token : Bytes) → Job  -- before the lock of close_file
  closing : (token : Bytes) → (info : FileInfo) → Job  -- behind the lock of close_file
  sending : (token : Bytes) → Job  -- before get_fd
  writing : (token : Bytes) → (fd : ℕ) → Job  -- before pwrite
  done : Job

abbrev pub set_table : (ℕ → Option Bytes) → ℕ → Option Bytes → ℕ → Option Bytes
set_table table fd entry g = if g == fd then entry else table g

-- One step of one request. open answers with a descriptor that is not open; a 0 is dropped.
pub data Move (m : Shared) : Job → Shared → Job → Type 0 where
  fails : {t : Bytes} → Move m (creating t) m done
  opens :
      {t : Bytes} (fd : ℕ)
      → 0 < fd
      → m.table fd ≡ none
      → Move m (creating t) (record m { table = set_table m.table fd (some t) }) (cutting t fd)
  opens_zero :
      {t : Bytes}
      → m.table 0 ≡ none
      → Move m (creating t) (record m { table = set_table m.table 0 (some t) }) done
  cuts :
      {t : Bytes} {fd : ℕ} (info : FileInfo)
      → info.fd ≡ fd
      → Move m (cutting t fd) m (entering t info)
  cuts_not : {t : Bytes} {fd : ℕ} → Move m (cutting t fd) m (refusing t fd)
  enters :
      {t : Bytes} {info : FileInfo}
      → find t m.fmap ≡ none
      → Move m (entering t info) (record m { fmap = (t, info) ∷ m.fmap }) done
  duplicates :
      {t : Bytes} {info other : FileInfo}
      → find t m.fmap ≡ some other
      → Move m (entering t info) m (refusing t info.fd)
  refuses :
      {t : Bytes} {fd : ℕ}
      → Move m (refusing t fd) (record m { table = set_table m.table fd none }) done
  finds :
      {t : Bytes} (info : FileInfo)
      → find t m.fmap ≡ some info
      → Move m (finding t) (record m { fmap = erase t m.fmap }) (closing t info)
  finds_not : {t : Bytes} → find t m.fmap ≡ none → Move m (finding t) m done
  closes :
      {t : Bytes} {info : FileInfo}
      → Move m (closing t info) (record m { table = set_table m.table info.fd none }) done
  gets :
      {t : Bytes} (info : FileInfo)
      → find t m.fmap ≡ some info
      → Move m (sending t) m (writing t info.fd)
  gets_not : {t : Bytes} → find t m.fmap ≡ none → Move m (sending t) m done
  writes :
      {t : Bytes} {fd : ℕ}
      → Move m (writing t fd) (record m { writes = (t, m.table fd) ∷ m.writes }) done

pub record Requests : Type 0 where
  pub shared : Shared
  pub jobs : List Job

abbrev pub no_requests : Requests
no_requests = record { shared = record { fmap = []; table = λ fd. none; writes = [] }; jobs = [] }

-- A request comes in, or one of them makes its next step.
pub data Step : Requests → Requests → Type 0 where
  creates : {s : Requests} (token : Bytes) → Step s (record s { jobs = creating token ∷ s.jobs })
  ends : {s : Requests} (token : Bytes) → Step s (record s { jobs = finding token ∷ s.jobs })
  sends : {s : Requests} (token : Bytes) → Step s (record s { jobs = sending token ∷ s.jobs })
  works :
      (before after : List Job) {m m' : Shared} {job job' : Job}
      → Move m job m' job'
      → Step
          (record { shared = m; jobs = before ++ (job ∷ after) })
          (record { shared = m'; jobs = before ++ (job' ∷ after) })

pub data Reach : Requests → Type 0 where
  start : Reach no_requests
  later : {s t : Requests} → Reach s → Step s t → Reach t
