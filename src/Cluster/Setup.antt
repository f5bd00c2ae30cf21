-- ===== src/Cluster/Setup.antt =====
-- The requests by which a client opens a file at the servers and links the files, seen from the
-- servers.
use fcopy.Base.{
  ℕ, zero, suc, ◌≡◌, refl, sym, ◌∙◌, Bytes, bytes_eq, bytes_eq_refl, List, [], some, false, arith,
  ◌==◌, ==-refl, Bool-cases, Option-cases, inl, inr, ◌&&◌, length,
}
use fcopy.Base.Int.{ℤ, pos, is_zero, FitsInt16, from_int16-to_int16, is_zero→ne}
use fcopy.Base.Errno.{err_no_partition}
use fcopy.Wire.Messages.{
  Command, code, ChainTarget, CreateFileReq, create_req, create_resp, chain_req, this_cmd, Payload,
}
use fcopy.Wire.Head.{MessageBase, new_message, set_error, get_error}
use fcopy.Wire.Stream.{Message, make}
use fcopy.Net.{Reply, answered, received, reply_error}
use fcopy.Server.FileManager.{
  FileInfo, FileManager, Log, find, create_file, set_chain_targets, set_targets,
}
use fcopy.Server.FileManager.Entries.{find-set_targets_self}
use fcopy.Server.FileManager.Created.{SetsErrno, create_file-Creates}
use fcopy.Server.Service.{
  Environment, Params, process, with_error, handle_create_file, create_at, handle_set_chain,
  get_partition_dir, get_abs_path,
}
use fcopy.Cluster.{Node, Nodes, put, environment, ask}
use fcopy.Client.Sender.{reply_token}

-- What a server's calls report when it opens files: errno is from 1 to 32767 after a create_fd that
-- failed, and the error of std::filesystem::absolute fits an int16_t.
pub record Opens (node : Node) : Type 0 where
  pub errnos : SetsErrno node.sys
  pub paths : (log : Log) (path : Bytes) → FitsInt16 (node.absolute log path).0

-- The server of a peer reports such errors, and has a file for the peer's token with these targets.
pub record Holds (c : Nodes) (p : ChainTarget) (targets : List ChainTarget) : Type 0 where
  pub node : Node
  pub there : c p.host p.port ≡ some node
  pub opens : Opens node
  pub info : FileInfo
  pub present : find p.file_token node.manager.fmap ≡ some info
  pub linked : info.targets ≡ targets

-- The error that a client reads in a response of the class that it expects.
with_error_reply :
    (p : Payload) (e : ℤ) → FitsInt16 e → reply_error (this_cmd p) (answered (with_error p e)) ≡ e
unfolding reply_error received with_error set_error get_error new_message make
with_error_reply p e fits = rw (==-refl (code (this_cmd p))) (from_int16-to_int16 e fits)

-- The manager has a file without targets for the token in the response.
abbrev Created : FileManager → Reply → Type 0
Created m reply =
    (info : FileInfo) × (find (reply_token reply) m.fmap ≡ some info) × (info.targets ≡ [])

create_at-Created :
    (env : Environment) (params : Params) (m : FileManager) (req : CreateFileReq)
    (place : ℤ × Bytes)
    → SetsErrno env.sys
    → FitsInt16 place.0
    → let (m', resp) = create_at env params m req place in
      reply_error Command.create_file_resp (answered resp) ≡ pos 0 → Created m' (answered resp)
unfolding create_at this_cmd reply_token with_error make
create_at-Created env params m req (e, path) errnos fits = elim (Bool-cases (is_zero e)) [
  | inl fine ↦
      let result = create_file env.sys m path req.file_size req.chunk_size params.directio in
      let (small, found) =
        create_file-Creates env.sys errnos m path req.file_size req.chunk_size params.directio in
      rw fine (λ ok. found (
        sym (with_error_reply (create_resp (record { file_token = result.2 })) (result.1) small)
        ∙ ok))
  | inr failed ↦ rw failed (λ ok. absurd (
      is_zero→ne e failed
        (sym (with_error_reply (create_resp (record { file_token = [] })) e fits) ∙ ok)))
]

get_abs_path-FitsInt16 :
    (ask : Bytes → ℕ → Message → Reply) (node : Node) (log : Log) (dir : Bytes)
    (req : CreateFileReq)
    → Opens node
    → FitsInt16 (get_abs_path (environment ask node) log dir req.relative_path req.file_name).0
unfolding get_abs_path
get_abs_path-FitsInt16 ask node log dir req v =
    let env = environment ask node in
    let path = env.sys.join (env.sys.join dir req.relative_path) req.file_name in
    elim (Bool-cases (is_zero (node.absolute log path).0)) [
      | inl fine ↦ rw fine (v.paths log path)
      | inr failed ↦ rw failed (v.paths log path)
    ]

handle_create_file-Created :
    (ask : Bytes → ℕ → Message → Reply) (node : Node) (req : CreateFileReq)
    → Opens node
    → let (m', resp) = handle_create_file (environment ask node) node.params node.manager req in
      reply_error Command.create_file_resp (answered resp) ≡ pos 0 → Created m' (answered resp)
unfolding handle_create_file get_abs_path
handle_create_file-Created ask node req v =
    let env = environment ask node in
    let dir = get_partition_dir node.params req.partition in
    elim (Bool-cases (length dir == 0)) [
      | inl missing ↦ rw missing (
          create_at-Created env node.params node.manager req (pos err_no_partition, []) v.errnos
            (omega arith))
      | inr there ↦ rw there (
          create_at-Created env node.params node.manager req _ v.errnos
            (get_abs_path-FitsInt16 ask node _ dir req v))
    ]

put_self :
    (host : Bytes) (port : ℕ) (node : Node) (c : Nodes) → put host port node c host port ≡ some node
unfolding put
put_self host port node c = rw (bytes_eq_refl host, ==-refl port) refl

Opens-manager : (node : Node) (m : FileManager) → Opens node → Opens (record node { manager = m })
Opens-manager node m v = record { errnos = v.errnos; paths = v.paths }

module _ (lost : ℤ) where
  -- A request changes the server that it goes to, and no other.
  pub ask-other :
      (hops : ℕ) (c : Nodes) (host h : Bytes) (port p : ℕ) (m : Message)
      → (bytes_eq host h && port == p) ≡ false
      → (ask lost hops c host port m).0 h p ≡ c h p
  unfolding ask put
  ask-other zero c host h port p m apart = refl
  ask-other (suc hops) c host h port p m apart = elim (Option-cases (c host port)) [
    | inl absent ↦ rw (absent, ask) refl
    | inr (node, there) ↦ rw (there, ask) (rw apart refl)
  ]

  -- A CreateFileReq that is answered without an error leaves its server with a file for the token in
  -- the response, without targets.
  pub ask-create :
      (hops : ℕ) (c : Nodes) (host : Bytes) (port : ℕ) (node : Node) (base : MessageBase)
      (req : CreateFileReq)
      → c host port ≡ some node
      → Opens node
      → let (c', reply) =
          ask lost (suc hops) c host port (record { base = base; payload = create_req req }) in
        reply_error Command.create_file_resp reply ≡ pos 0
        → Holds c' (record { host = host; port = port; file_token = reply_token reply }) []
  unfolding ask process
  ask-create hops c host port node base req there v =
      let asked = λ (h : Bytes) (p : ℕ) (q : Message). (ask lost hops c h p q).1 in
      let env = environment asked node in
      let m' = (handle_create_file env node.params node.manager req).0 in
      rw (there, ask)
        (λ ok.
          let (info, found, bare) = handle_create_file-Created asked node req v ok in
          record {
            node = record node { manager = m' };
            there = put_self host port (record node { manager = m' }) c;
            opens = Opens-manager node m' v;
            info = info;
            present = found;
            linked = bare;
          })

  -- A SetChainReq for a file of its server leaves the file with the targets of the request.
  pub ask-link :
      (hops : ℕ) (c : Nodes) (p : ChainTarget) (old targets : List ChainTarget) (base : MessageBase)
      → Holds c p old
      → let (c', reply) = ask lost (suc hops) c p.host p.port (record {
        base = base;
        payload = chain_req (record { file_token = p.file_token; targets = targets });
      }) in
        Holds c' p targets
  unfolding ask process handle_set_chain set_chain_targets
  ask-link hops c p old targets base v =
      let m' = (set_chain_targets v.node.manager p.file_token targets).0 in
      let now = find-set_targets_self p.file_token targets v.node.manager.fmap v.present in
      rw (v.there, ask)
        (rw (v.present, set_chain_targets)
          (record {
            node = record v.node {
              manager = record v.node.manager {
                fmap = set_targets p.file_token targets v.node.manager.fmap;
              };
            };
            there = put_self p.host p.port _ c;
            opens = Opens-manager v.node _ v.opens;
            info = record v.info { targets = targets };
            present = now;
            linked = refl;
          }))

  -- A request to another address leaves the file of a peer as it is.
  pub ask-Holds :
      (hops : ℕ) (c : Nodes) (host : Bytes) (port : ℕ) (m : Message) (p : ChainTarget)
      (targets : List ChainTarget)
      → (bytes_eq host p.host && port == p.port) ≡ false
      → Holds c p targets
      → Holds (ask lost hops c host port m).0 p targets
  ask-Holds hops c host port m p targets apart v = record {
    node = v.node;
    there = ask-other hops c host p.host port p.port m apart ∙ v.there;
    opens = v.opens;
    info = v.info;
    present = v.present;
    linked = v.linked;
  }
