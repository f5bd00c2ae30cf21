-- ===== src/Client/Sender/Transfer.antt =====
-- FileSender::send_file of src/client/file_sender.cpp: the tasks of parallel_send over the members
-- that they share, interleaved in any order.
pub mod Claims
pub mod Coverage
pub mod Progress
use fcopy.Base.{ℕ, zero, suc, ◌+◌, ◌≤◌, ◌<◌, ◌≡◌, ◌≢◌, List, [], ◌∷◌, ◌++◌, replicate}
use fcopy.Base.Int.{ℤ, pos}

-- The shared members, and the requests that were answered without an error: offset and bytes.
pub record Shared : Type 0 where
  pub cur_offset : ℕ
  pub error : ℤ
  pub sent : List (ℕ × ℕ)

-- Where a task stands, with the local variables that are live there.
pub data Worker : Type 0 where
  starting : Worker  -- before aligned_alloc
  checking : Worker  -- at the test `error == 0` of the loop
  claiming : Worker  -- before the lock
  reading : (local_offset : ℕ) → Worker  -- waits for pread
  sending : (local_offset nbytes : ℕ) → Worker  -- waits for the answer to its request
  leaving : (local_error : ℤ) → Worker  -- behind the loop
  done : Worker

-- One step of one task. The errors that aligned_alloc, pread and the request report, and the one in
-- a response, are not 0, or they are no errors.
pub data Move (file_size chunk_size : ℕ) (m : Shared) : Worker → Shared → Worker → Type 0 where
  no_buffer :
      (e : ℤ) → e ≢ pos 0 → Move file_size chunk_size m starting (record m { error = e }) done
  buffer : Move file_size chunk_size m starting m checking
  stop : m.error ≢ pos 0 → Move file_size chunk_size m checking m (leaving (pos 0))
  go_on : m.error ≡ pos 0 → Move file_size chunk_size m checking m claiming
  claim :
      m.cur_offset < file_size
      → Move file_size chunk_size m claiming
          (record m { cur_offset = m.cur_offset + chunk_size })
          (reading m.cur_offset)
  no_more : file_size ≤ m.cur_offset → Move file_size chunk_size m claiming m (leaving (pos 0))
  read :
      {o : ℕ} (nbytes : ℕ)
      → nbytes ≤ chunk_size
      → Move file_size chunk_size m (reading o) m (sending o nbytes)
  read_error : {o : ℕ} (e : ℤ) → e ≢ pos 0 → Move file_size chunk_size m (reading o) m (leaving e)
  confirmed :
      {o n : ℕ}
      → Move file_size chunk_size m (sending o n) (record m { sent = (o, n) ∷ m.sent }) checking
  refused : {o n : ℕ} (e : ℤ) → e ≢ pos 0 → Move file_size chunk_size m (sending o n) m (leaving e)
  report :
      {e : ℤ} → e ≢ pos 0 → Move file_size chunk_size m (leaving e) (record m { error = e }) done
  leave : {e : ℤ} → e ≡ pos 0 → Move file_size chunk_size m (leaving e) m done

pub record Transfer : Type 0 where
  pub shared : Shared
  pub workers : List Worker

-- send_file before its tasks run.
abbrev pub start_transfer : ℕ → Transfer
start_transfer parallel = record {
  shared = record { cur_offset = 0; error = pos 0; sent = [] };
  workers = replicate parallel starting;
}

-- Some task makes its next step.
pub data Step (file_size chunk_size : ℕ) : Transfer → Transfer → Type 0 where
  pick :
      (before after : List Worker) {m m' : Shared} {w w' : Worker}
      → Move file_size chunk_size m w m' w'
      → Step file_size chunk_size
          (record { shared = m; workers = before ++ (w ∷ after) })
          (record { shared = m'; workers = before ++ (w' ∷ after) })

pub data Reach (file_size chunk_size parallel : ℕ) : Transfer → Type 0 where
  start : Reach file_size chunk_size parallel (start_transfer parallel)
  later :
      {s t : Transfer}
      → Reach file_size chunk_size parallel s
      → Step file_size chunk_size s t
      → Reach file_size chunk_size parallel t
