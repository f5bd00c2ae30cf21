-- ===== src/Cluster/Reaching.antt =====
-- When a chunk is passed on to every server: the links between the files are not too deep for its
-- max_chain_len.
use fcopy.Base.{
  ℕ, zero, suc, ◌%◌, ◌^◌, ◌≤◌, ◌<◌, ◌≡◌, refl, Bytes, List, [], ◌∷◌, none, some, false, All, arith,
  ◌==◌, Bool-cases, inl, inr, leb, not, ◌&&◌, length,
}
use fcopy.Base.Int.{ℤ, pos, to_int16, from_int16}
use fcopy.Wire.Messages.{Command, code, ChainTarget, SendFileReq, send_req, send_resp, this_cmd}
use fcopy.Wire.Head.{MessageBase, new_message, set_error, get_error, set_data_view}
use fcopy.Wire.Stream.{Message, make}
use fcopy.Net.{Reply, received, reply_error}
use fcopy.Server.FileManager.{FileInfo, find, get_fd}
use fcopy.Server.Service.{
  Write, padded_size, process, with_error, handle_send_file, serve_send, make_write, write_file,
  first_error, send_chain, send_one, chain_request, chunk_base,
}
use fcopy.Cluster.{Node, Nodes, environment, ask}
use fcopy.Cluster.Delivery.{forwarded}

-- No allocation and no write of the server fails.
pub record Works (node : Node) : Type 0 where
  pub allocates : (n : ℕ) → node.allocates n ≡ none
  pub writes : (w : Write) → node.pwrite w ≡ none

-- The server at an address works and has a file for the token, and the targets of that file are
-- ready too, over `depth` servers at most.
abbrev pub Ready : ℕ → Nodes → Bytes → Bytes → ℕ → Type 0
Ready zero c token host port = ⊥
Ready (suc depth) c token host port =
    (node : Node) × (c host port ≡ some node)
    × (info : FileInfo) × (find token node.manager.fmap ≡ some info)
    × Works node
    × All (λ to. Ready depth c to.file_token to.host to.port) info.targets

All-first_error : (es : List ℤ) → All (λ e. e ≡ pos 0) es → first_error es ≡ pos 0
unfolding first_error
All-first_error [] h = refl
All-first_error (e ∷ es) (z, zs) = rw z (All-first_error es zs)

make_write-Works :
    (c : Bytes → ℕ → Message → Reply) (node : Node) (w : Write)
    → Works node
    → (make_write (environment c node) w).0 ≡ pos 0
unfolding make_write
make_write-Works c node w v = rw (v.writes w, make_write) refl

write_file-Works :
    (c : Bytes → ℕ → Message → Reply) (node : Node) (fd : ℕ) (content : Bytes) (offset : ℕ)
    → Works node
    → (write_file (environment c node) fd content offset).0 ≡ pos 0
unfolding write_file
write_file-Works c node fd content offset v = elim (Bool-cases (length content % chunk_base == 0)) [
  | inl whole ↦ rw whole (make_write-Works c node _ v)
  | inr rest ↦ rw (rest, v.allocates (padded_size (length content))) (make_write-Works c node _ v)
]

served-Works :
    (c : Bytes → ℕ → Message → Reply) (node : Node) (req : SendFileReq) (content : Bytes)
    (info : FileInfo)
    → find req.file_token node.manager.fmap ≡ some info
    → Works node
    → (leb req.max_chain_len 1 && not (length info.targets == 0)) ≡ false
    → All (λ e. e ≡ pos 0) (send_chain (environment c node) req content 0 info.targets)
    → (handle_send_file (environment c node) node.manager req content).0
      ≡ with_error send_resp (pos 0)
unfolding handle_send_file get_fd serve_send
served-Works c node req content info present v fine sent =
    rw (present, get_fd)
      (rw (fine, All-first_error _ sent, write_file-Works c node info.fd content req.offset v) refl)

module _ (lost : ℤ) where
  all_answered :
      (hops : ℕ) (c : Nodes) (node : Node) (req : SendFileReq) (content : Bytes) (depth i : ℕ)
      (targets : List ChainTarget)
      → ((to : ChainTarget)
          → Ready depth c to.file_token to.host to.port
          → send_one (ask lost hops c to.host to.port (chain_request req content to)).1 ≡ pos 0)
      → All (λ to. Ready depth c to.file_token to.host to.port) targets
      → All
          (λ e. e ≡ pos 0)
          (send_chain (environment (λ h p q. (ask lost hops c h p q).1) node) req content i targets)
  unfolding send_chain
  all_answered hops c node req content depth i [] rec h = tt
  all_answered hops c node req content depth i (to ∷ targets) rec h =
      (rec to h.0, all_answered hops c node req content depth (suc i) targets rec h.1)

  allowed :
      (depth max : ℕ) (c : Nodes) (targets : List ChainTarget)
      → suc depth ≤ max
      → All (λ to. Ready depth c to.file_token to.host to.port) targets
      → (leb max 1 && not (length targets == 0)) ≡ false
  allowed depth max c [] le h = ground arith
  allowed zero max c (to ∷ targets) le h = absurd h.0
  allowed (suc depth) max c (to ∷ targets) le h = ground arith

  -- A SendFileReq for a file that is ready over `depth` servers is answered without an error, if its
  -- max_chain_len is at least `depth`, in uint16_t, and so are the hops.
  pub ask-Ready :
      (depth hops : ℕ) (c : Nodes) (base : MessageBase) (req : SendFileReq) (host : Bytes)
      (port : ℕ)
      → depth ≤ hops
      → depth ≤ req.max_chain_len
      → req.max_chain_len < 2 ^ 16
      → Ready depth c req.file_token host port
      → reply_error Command.send_file_resp
          (ask lost hops c host port (record { base = base; payload = send_req req })).1
        ≡ pos 0
  unfolding ask process reply_error received with_error set_error get_error new_message make code
      this_cmd to_int16 from_int16 chain_request set_data_view
  ask-Ready zero hops c base req host port le max word ready = absurd ready
  ask-Ready (suc depth) zero c base req host port le max word ready = absurd (omega arith)
  ask-Ready (suc depth) (suc hops) c base req host port le max word
        (node, there, info, present, works, below) =
      let sent =
        all_answered hops c node req base.data_view depth 0 info.targets
          (λ to h.
            unfold send_one in
            ask-Ready depth hops c (chain_request req base.data_view to).base (forwarded req to)
              to.host to.port (omega arith) (omega arith) (omega arith) h)
          below in
      let ok =
        served-Works (λ h p q. (ask lost hops c h p q).1) node req base.data_view info present works
          (allowed depth req.max_chain_len c info.targets max below) sent in
      rw (there, ask) (rw ok refl)
