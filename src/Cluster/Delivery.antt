-- ===== src/Cluster/Delivery.antt =====
-- What an answer without an error says of all servers that a chunk was passed on to.
use fcopy.Base.{
  ℕ, zero, suc, ◌+◌, ◌%◌, ◌<◌, ◌≡◌, ◌≢◌, refl, sym, ap, ◌∙◌, Bytes, List, [], ◌∷◌, none, some,
  false, All, if◌then◌else◌, ◌==◌, Option-cases, Bool-cases, inl, inr, subst, leb, not, ◌&&◌,
  length,
}
use fcopy.Base.Int.{ℤ, pos, negsuc, neg, is_zero, FitsInt16, to_int16-lt}
use fcopy.Base.Errno.{enoent, ecanceled}
use fcopy.Wire.Messages.{
  Command, code, ChainTarget, CreateFileReq, SendFileReq, Payload, send_req, send_resp, this_cmd,
  plain, create_req, create_resp, close_req, close_resp, delete_req, delete_resp, chain_req,
  chain_resp,
}
use fcopy.Wire.Head.{MessageBase, new_message, set_error, get_error, set_data_view}
use fcopy.Wire.Stream.{Message, make}
use fcopy.Net.{Reply, broken, answered, received, reply_error}
use fcopy.Server.FileManager.{FileInfo, find, get_fd, FileManager}
use fcopy.Server.Service.{
  Environment, Params, Write, padded, process, with_error, handle_create_file, create_at,
  handle_close_file, handle_send_file, serve_send, handle_set_chain, first_error, write_file,
  send_chain, send_one, chain_request,
}
use fcopy.Server.Service.Forwarding.{Errors, handle_send_file-IsDone}
use fcopy.Cluster.{Node, Nodes, environment, ask}

-- The request that send_chain makes of another one.
abbrev pub forwarded : SendFileReq → ChainTarget → SendFileReq
forwarded req to = record req {
  max_chain_len = (req.max_chain_len + 65535) % 65536;
  file_token = to.file_token;
}

-- The writes of a server for a SendFileReq, with its own requests answered over a number of hops.
abbrev pub writes_at : ℤ → ℕ → Nodes → Node → SendFileReq → Bytes → List Write
writes_at lost hops c node req content =
    (handle_send_file (environment (λ h p q. (ask lost hops c h p q).1) node) node.manager req
      content).1

-- The data, padded, to a file at an offset.
abbrev pub data_write : FileInfo → Bytes → ℕ → Write
data_write info content offset = record { fd = info.fd; content = padded content; offset = offset }

-- The server at an address has the file of the request, and writes the data to it, once and with
-- success, and so do all servers that it passes the request on to.
abbrev pub Delivered : ℤ → ℕ → Nodes → SendFileReq → Bytes → Bytes → ℕ → Type 0
Delivered lost zero c req content host port = ⊥
Delivered lost (suc hops) c req content host port =
    (node : Node) × (c host port ≡ some node)
    × (info : FileInfo) × (find req.file_token node.manager.fmap ≡ some info)
    × (writes_at lost hops c node req content ≡ data_write info content req.offset ∷ [])
    × (node.pwrite (data_write info content req.offset) ≡ none)
    × All (λ to. Delivered lost hops c (forwarded req to) content to.host to.port) info.targets

-- Every error that a server's calls report fits an int16_t and is not 0.
pub record NodeErrors (node : Node) : Type 0 where
  pub allocations : (n : ℕ) (e : ℤ) → node.allocates n ≡ some e → FitsInt16 e × (is_zero e ≡ false)
  pub writes : (w : Write) (e : ℤ) → node.pwrite w ≡ some e → FitsInt16 e × (is_zero e ≡ false)

with_error-lt : (p : Payload) (e : ℤ) → (with_error p e).base.error < 65536
unfolding with_error set_error
with_error-lt p e = to_int16-lt e

serve_send-with_error :
    (env : Environment) (fd : ℤ) (targets : List ChainTarget) (req : SendFileReq) (content : Bytes)
    → (e : ℤ) × ((serve_send env fd targets req content).0 ≡ with_error send_resp e)
unfolding serve_send
serve_send-with_error env (negsuc n) targets req content = (neg enoent, refl)
serve_send-with_error env (pos fd) targets req content =
    elim (Bool-cases (leb req.max_chain_len 1 && not (length targets == 0))) [
      | inl over ↦ (neg ecanceled, rw over refl)
      | inr fine ↦
          let chain_error = first_error (send_chain env req content 0 targets) in
          (
            if is_zero chain_error then (write_file env fd content req.offset).0 else chain_error,
            rw fine refl,
          )
    ]

-- The response of handle_send_file is a SendFileResp with some error.
pub handle_send_file-with_error :
    (env : Environment) (m : FileManager) (req : SendFileReq) (content : Bytes)
    → (e : ℤ) × ((handle_send_file env m req content).0 ≡ with_error send_resp e)
unfolding handle_send_file
handle_send_file-with_error env m req content =
    serve_send-with_error env (get_fd m req.file_token []).0 (get_fd m req.file_token []).1 req
      content

create_at-lt :
    (env : Environment) (params : Params) (m : FileManager) (req : CreateFileReq)
    (place : ℤ × Bytes)
    → (create_at env params m req place).1.base.error < 65536
unfolding create_at
create_at-lt env params m req (e, path) = elim (Bool-cases (is_zero e)) [
  | inl fine ↦ rw fine (with_error-lt _ _)
  | inr failed ↦ rw failed (with_error-lt _ e)
]

-- The error member of every response is an int16_t.
process-lt :
    (env : Environment) (params : Params) (m : FileManager) (base : MessageBase) (p : Payload)
    → (process env params m (record { base = base; payload = p })).1.base.error < 65536
unfolding process make handle_set_chain handle_create_file handle_close_file
process-lt env params m base plain = to_int16-lt (pos 0)
process-lt env params m base (create_req req) = create_at-lt env params m req _
process-lt env params m base (create_resp resp) = to_int16-lt (pos 0)
process-lt env params m base (send_req req) =
    let (e, same) = handle_send_file-with_error env m req base.data_view in
    rw same (with_error-lt send_resp e)
process-lt env params m base send_resp = to_int16-lt (pos 0)
process-lt env params m base (close_req req) = elim (Bool-cases (req.wait_close == 0)) [
  | inl later ↦ rw later (with_error-lt close_resp _)
  | inr now ↦ rw now (with_error-lt close_resp _)
]
process-lt env params m base close_resp = to_int16-lt (pos 0)
process-lt env params m base (delete_req req) = to_int16-lt (pos 0)
process-lt env params m base delete_resp = to_int16-lt (pos 0)
process-lt env params m base (chain_req req) = with_error-lt chain_resp _
process-lt env params m base chain_resp = to_int16-lt (pos 0)

module _ (lost : ℤ) (fits : FitsInt16 lost) (no_answer : is_zero lost ≡ false) where
  ask-broken :
      (hops : ℕ) (c : Nodes) (h : Bytes) (p : ℕ) (m : Message) (e : ℤ)
      → (ask lost hops c h p m).1 ≡ broken e
      → FitsInt16 e × (is_zero e ≡ false)
  unfolding ask
  ask-broken zero c h p m e answer =
      let same : lost ≡ e = cc in
      subst (λ x. FitsInt16 x × (is_zero x ≡ false)) same (fits, no_answer)
  ask-broken (suc hops) c h p m e answer = elim (Option-cases (c h p)) [
    | inl absent ↦
        let gone : ◌≡◌ {A = Reply} (broken lost) (broken e) = rw (absent, ask) at answer in
        let same : lost ≡ e = cc in
        subst (λ x. FitsInt16 x × (is_zero x ≡ false)) same (fits, no_answer)
    | inr (node, there) ↦
        let other : ◌≡◌ {A = Reply} (answered _) (broken e) = rw (there, ask) at answer in cc
  ]

  ask-answered :
      (hops : ℕ) (c : Nodes) (h : Bytes) (p : ℕ) (m r : Message)
      → (ask lost hops c h p m).1 ≡ answered r
      → r.base.error < 65536
  unfolding ask
  ask-answered zero c h p m r answer =
      let other : ◌≡◌ {A = Reply} (broken lost) (answered r) = answer in cc
  ask-answered (suc hops) c h p m r answer = elim (Option-cases (c h p)) [
    | inl absent ↦
        let other : ◌≡◌ {A = Reply} (broken lost) (answered r) = rw (absent, ask) at answer in cc
    | inr (node, there) ↦
        let env = environment (λ h' p' q. (ask lost hops c h' p' q).1) node in
        let resp = (process env node.params node.manager m).1 in
        let same : ◌≡◌ {A = Reply} (answered resp) (answered r) = rw (there, ask) at answer in
        let reply : resp ≡ r = cc in
        subst (λ t. t.base.error < 65536) reply
          (process-lt env node.params node.manager m.base m.payload)
  ]

  ask-Errors :
      (hops : ℕ) (c : Nodes) (node : Node)
      → NodeErrors node
      → Errors (environment (λ h p q. (ask lost hops c h p q).1) node)
  ask-Errors hops c node errors = record {
    networks = λ i h p m e answer. ask-broken hops c h p m e answer;
    responses = λ i h p m r answer. ask-answered hops c h p m r answer;
    allocations = errors.allocations;
    writes = errors.writes;
  }

  -- The answers to the requests of send_chain are those of the targets.
  all-Delivered :
      (hops : ℕ) (c : Nodes) (node : Node) (req : SendFileReq) (content : Bytes) (i : ℕ)
      (targets : List ChainTarget)
      → ((to : ChainTarget)
          → send_one (ask lost hops c to.host to.port (chain_request req content to)).1 ≡ pos 0
          → Delivered lost hops c (forwarded req to) content to.host to.port)
      → All
          (λ e. e ≡ pos 0)
          (send_chain (environment (λ h p q. (ask lost hops c h p q).1) node) req content i targets)
      → All (λ to. Delivered lost hops c (forwarded req to) content to.host to.port) targets
  unfolding send_chain
  all-Delivered hops c node req content i [] rec h = tt
  all-Delivered hops c node req content i (to ∷ targets) rec h =
      (rec to h.0, all-Delivered hops c node req content (suc i) targets rec h.1)

  lost_error : (cmd : Command) → reply_error cmd (broken lost) ≢ pos 0
  unfolding reply_error received
  lost_error cmd h =
      let wrong : lost ≡ pos 0 = rw no_answer at h in absurd (cc (ap is_zero wrong, no_answer))

  sent_error :
      (env : Environment) (m : FileManager) (req : SendFileReq) (content : Bytes)
      → reply_error Command.send_file_resp (answered (handle_send_file env m req content).0)
        ≡ get_error (handle_send_file env m req content).0.base
  unfolding reply_error received with_error set_error new_message make code this_cmd
  sent_error env m req content =
      let (e, same) = handle_send_file-with_error env m req content in rw same refl

  -- Say that the errors which servers and the network report fit an int16_t and are not 0. If a
  -- SendFileReq is answered without an error, then its server has a file for the token and writes the
  -- data to it, once and with success, and so does, for its own token, each server that the request
  -- is passed on to, directly or through others.
  pub ask-Delivered :
      (hops : ℕ) (c : Nodes) (base : MessageBase) (req : SendFileReq) (host : Bytes) (port : ℕ)
      → ((h : Bytes) (p : ℕ) (node : Node) → c h p ≡ some node → NodeErrors node)
      → reply_error Command.send_file_resp
          (ask lost hops c host port (record { base = base; payload = send_req req })).1
        ≡ pos 0
      → Delivered lost hops c req base.data_view host port
  unfolding ask process chain_request set_data_view make
  ask-Delivered zero c base req host port errors ok = absurd (lost_error Command.send_file_resp ok)
  ask-Delivered (suc hops) c base req host port errors ok = elim (Option-cases (c host port)) [
    | inl absent ↦ absurd (lost_error Command.send_file_resp (rw (absent, ask) at ok))
    | inr (node, there) ↦
        let env = environment (λ h p q. (ask lost hops c h p q).1) node in
        let fine = sym (sent_error env node.manager req base.data_view) ∙ (rw (there, ask) at ok) in
        let is_done =
          handle_send_file-IsDone env (ask-Errors hops c node (errors host port node there))
            node.manager req base.data_view fine in
        (
          node,
          there,
          is_done.info,
          is_done.present,
          is_done.written,
          is_done.stored,
          all-Delivered hops c node req base.data_view 0 is_done.info.targets
              (λ to h.
                ask-Delivered hops c (chain_request req base.data_view to).base (forwarded req to)
                  to.host to.port errors (unfold send_one in h))
              is_done.forwarded,
        )
  ]
