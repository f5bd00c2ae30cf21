-- ===== src/Cluster/WholeFile.antt =====
-- FileSender::create_file and send_file of src/client/file_sender.cpp, and the servers: a whole file.
use fcopy.Base.{
  ℕ, suc, ◌*◌, ◌<◌, ◌≡◌, Bytes, List, [], ◌∷◌, some, false, Bool-cases, inl, inr, All, arith, ◌==◌,
  get_elem?, length, subst,
}
use mathlib.Core.List.{Mem, mem-cons_self, mem-cons_of_mem}
use fcopy.Base.Int.{ℤ, pos, is_zero, FitsInt16}
use fcopy.Wire.Messages.{Command}
use fcopy.Net.{RemoteTarget, reply_error, Apart}
use fcopy.Cluster.{Nodes, ask}
use fcopy.Cluster.Session.{servers, Serves}
use fcopy.Cluster.Errors.{AllErrors}
use fcopy.Cluster.Everywhere.{Stored}
use fcopy.Cluster.Writes.{Placed, message_writes}
use fcopy.Cluster.Sending.{peers_of, sent-Stored, sent-once}
use fcopy.Client.Sender.{FileSender, create_remote, chunk_request}
use fcopy.Client.Sender.Transfer.{Transfer, done, Reach}
use fcopy.Client.Sender.Transfer.Claims.{times_sent}
use fcopy.Client.Sender.Transfer.Coverage.{send_file_complete}

-- An offset that was confirmed was confirmed with some number of bytes.
sent_bytes :
    (P : ℕ × ℕ → Type 0) (o : ℕ) (sent : List (ℕ × ℕ))
    → 0 < times_sent o sent
    → All P sent
    → (n : ℕ) × Mem (o, n) sent × P (o, n)
unfolding times_sent
sent_bytes P o [] some_time h = absurd (omega arith)
sent_bytes P o ((p, n) ∷ sent) some_time (h, hs) = elim (Bool-cases (o == p)) [
  | inl here ↦
      let same : p ≡ o = ground arith in
      (n, subst (λ x. Mem (x, n) ((p, n) ∷ sent)) same mem-cons_self, subst (λ x. P (x, n)) same h)
  | inr other ↦
      let (k, there, holds) = sent_bytes P o sent (ground arith) hs in
      (k, mem-cons_of_mem (p, n) there, holds)
]

module _ (lost : ℤ) (hops : ℕ) (s s' : FileSender) (c c' : Nodes) (apart : Apart s.params.targets)
    (serve : All (Serves c) s.params.targets) (fits : FitsInt16 lost)
    (no_answer : is_zero lost ≡ false) (errors : AllErrors c)
    (created : create_remote (servers lost hops) s c ≡ (c', s')) (ok : s'.error ≡ pos 0)
    (t : RemoteTarget) (token : Bytes) (first : get_elem? s'.params.targets 0 ≡ some t)
    (named : get_elem? s'.file_tokens 0 ≡ some token) where
  -- A request of parallel_send, for the bytes that pread put into its buffer, was answered by the
  -- first target without an error.
  abbrev pub Confirmed : (ℕ → ℕ → Bytes) → ℕ × ℕ → Type 0
  Confirmed pread (o, n) =
      reply_error Command.send_file_resp
        (ask lost (suc hops) c' t.host t.port (chunk_request s'.params token o (pread o n))).1
      ≡ pos 0

  -- The writes that the request of parallel_send for a chunk leads to at the servers, by way of the
  -- first target and of all to which handle_send_file passes it on.
  abbrev pub chunk_writes : (ℕ → ℕ → Bytes) → ℕ × ℕ → List Placed
  chunk_writes pread (o, n) =
      message_writes lost (suc hops) c' t.host t.port (chunk_request s'.params token o (pread o n))

  -- Let the targets have different addresses with a server each, where errno is from 1 to 32767 after
  -- a create_fd that fails and the errors of std::filesystem::absolute fit an int16_t; let the errors
  -- of all writes, allocations and lost network tasks fit an int16_t and not be 0; and let
  -- create_file end without an error. When then all tasks of send_file have ended, in whatever order
  -- they ran, there was at least one, the chunk size is above 0, the requests counted as confirmed
  -- were answered without an error by the first target, and the error is 0, then for each multiple of
  -- the chunk size below the file size a request was confirmed, with the bytes of one pread there, and
  -- among the writes that this very request leads to at all servers is, for every target, a
  -- successful one of these bytes, padded, at this offset of the file of the target's token; there
  -- are as many of these writes as targets.
  pub send_file-Stored :
      (pread : ℕ → ℕ → Bytes) {run : Transfer}
      → 0 < s'.params.chunk_size
      → 0 < s'.params.parallel
      → Reach s'.file_size s'.params.chunk_size s'.params.parallel run
      → All (λ w. w ≡ done) run.workers
      → All (Confirmed pread) run.shared.sent
      → run.shared.error ≡ pos 0
      → (k : ℕ) → k * s'.params.chunk_size < s'.file_size
      → (nbytes : ℕ) × Mem (k * s'.params.chunk_size, nbytes) run.shared.sent
        × (length (chunk_writes pread (k * s'.params.chunk_size, nbytes))
            ≡ length s'.params.targets)
        × All
            (Stored c'
              (chunk_writes pread (k * s'.params.chunk_size, nbytes))
              (pread (k * s'.params.chunk_size) nbytes)
              (k * s'.params.chunk_size))
            (peers_of s')
  send_file-Stored pread {run} chunk some_task r ended confirmed fine k below =
      let once = (send_file_complete chunk some_task r ended fine).0 k below in
      let o = k * s'.params.chunk_size in
      let (nbytes, counted, answered) =
        sent_bytes (Confirmed pread) o run.shared.sent (omega (arith, once)) confirmed in
      (
        nbytes,
        counted,
        sent-once lost hops s s' c c' apart serve created ok t token (pread o nbytes) o first named
            fits no_answer errors answered,
        sent-Stored lost hops s s' c c' apart serve created ok t token (pread o nbytes) o first
            named fits no_answer errors answered,
      )
