-- ===== src/Client/Sender.antt =====
-- FileSender of src/client/file_sender.h and .cpp: opening the file here and at the targets, the
-- links between the targets, and closing. The loops of its tasks are in Sender/Transfer.
pub mod Transfer
use fcopy.Base.{
  ℕ, zero, suc, ◌+◌, ◌*◌, ◌%◌, ◌^◌, Bytes, List, [], ◌∷◌, ◌++◌, Bool, true, false, Option, none,
  some, length, get_elem?, if◌then◌else◌, ◌==◌,
}
use fcopy.Base.Int.{ℤ, pos, negsuc, is_zero, is_negative}
use fcopy.Base.Errno.{einval}
use fcopy.Wire.Messages.{
  Command, CreateFileReq, CloseFileReq, SetChainReq, ChainTarget, create_req, create_resp,
  close_req, chain_req, send_req,
}
use fcopy.Wire.Head.{set_data_view}
use fcopy.Wire.Stream.{Message, make}
use fcopy.Net.{RemoteTarget, Reply, broken, answered, reply_error}

-- What the client calls: the network, which answers requests one after the other and may change
-- with each, and the local file system.
pub record Network : Type 1 where
  pub World : Type 0
  pub request : World → RemoteTarget → Message → World × Reply

pub record LocalFiles : Type 0 where
  -- stat(2): the size; open(2) with O_RDONLY, and O_DIRECT if the flag is set; errno.
  pub stat : Bytes → Option ℕ
  pub open_read : Bytes → Bool → ℤ
  pub errno : ℤ

-- send_method: SEND_METHOD_TREE, or anything else.
pub data SendMethod : Type 0 where
  chain tree : SendMethod

-- The members of SenderParams that are read.
pub record SenderParams : Type 0 where
  pub chunk_size : ℕ
  pub file_path : Bytes
  pub partition : Bytes
  pub remote_file_dir : Bytes
  pub remote_file_name : Bytes
  pub direct_io : Bool
  pub wait_close : Bool
  pub parallel : ℕ
  pub send_method : SendMethod
  pub targets : List RemoteTarget

pub record FileSender : Type 0 where
  pub params : SenderParams
  pub error : ℤ
  pub fd : ℤ
  pub file_size : ℕ
  pub file_tokens : List Bytes

-- FileSender(cli, params)
abbrev pub new_sender : SenderParams → FileSender
new_sender params = record {
  params = params;
  error = pos 0;
  fd = negsuc 0;
  file_size = 0;
  file_tokens = [];
}

-- open_file: the descriptor, and the file size, which is left alone if stat fails.
unfoldable pub open_file : LocalFiles → Bytes → Bool → ℕ → ℤ × ℕ
open_file files path direct_io old = elim (files.stat path) [
  | none ↦ (negsuc 0, old)
  | some size ↦ (files.open_read path direct_io, size)
]

-- The CreateFileReq of remote_open; uint32_t and uint64_t members.
unfoldable pub open_request : SenderParams → ℕ → CreateFileReq
open_request params file_size = record {
  chunk_size = params.chunk_size;
  file_perm = 0;
  file_size = file_size;
  partition = params.partition;
  relative_path = params.remote_file_dir;
  file_name = params.remote_file_name;
}

-- The SendFileReq of parallel_send for the bytes that pread put into its buffer.
unfoldable pub chunk_request : SenderParams → Bytes → ℕ → Bytes → Message
unfolding make set_data_view
chunk_request params token local_offset content =
    let m = make (
      send_req (record {
        max_chain_len = length params.targets % 65536;
        compress_type = 0;
        origin_size = length content % 2 ^ 32;
        crc32 = 0;
        offset = local_offset;
        file_token = token;
      })) in
    record m { base = set_data_view m.base content }

-- `resp.file_token`; a response that was never filled in has the empty token.
unfoldable pub reply_token : Reply → Bytes
reply_token (broken error) = []
reply_token (answered m) = elim m.payload [ create_resp resp ↦ resp.file_token | _ ↦ [] ]

-- The targets with their tokens, as the links name them.
unfoldable pub peers : List RemoteTarget → List Bytes → List ChainTarget
peers [] tokens = []
peers (t ∷ targets) [] = []
peers (t ∷ targets) (token ∷ tokens) =
    record { host = t.host; port = t.port; file_token = token } ∷ peers targets tokens

-- The peer with an index, if there is one.
unfoldable pub peer_at : List ChainTarget → ℕ → List ChainTarget
peer_at ps i = elim (get_elem? ps i) [ none ↦ [] | some p ↦ p ∷ [] ]

-- The targets that the i-th peer is given by set_send_chain and by set_send_tree.
unfoldable pub children : SendMethod → List ChainTarget → ℕ → List ChainTarget
unfolding peer_at
children chain ps i = peer_at ps (i + 1)
children tree ps i = peer_at ps (i * 2 + 1) ++ peer_at ps (i * 2 + 2)

module _ (net : Network) where
  -- The loop of remote_open: the error and the tokens.
  unfoldable pub open_all :
      CreateFileReq → List RemoteTarget → net.World → net.World × ℤ × List Bytes
  unfolding reply_token
  open_all req [] w = (w, pos 0, [])
  open_all req (t ∷ targets) w =
      let (w', reply) = net.request w t (make (create_req req)) in
      let error = reply_error Command.create_file_resp reply in
      let (w'', error', tokens) = open_all req targets w' in
      if is_zero error then (w'', error', reply_token reply ∷ tokens) else (w', error, [])

  unfoldable pub remote_open : FileSender → net.World → net.World × ℤ × FileSender
  unfolding open_all open_request
  remote_open s w =
      if length s.params.targets == 0
      then (w, pos einval, s)
      else (let (w', error, tokens) =
            open_all (open_request s.params s.file_size) s.params.targets w in
          (w', error, record s { file_tokens = tokens }))

  -- The loops of set_send_chain and set_send_tree, at the i-th peer: they end where a peer gets no
  -- targets, or at the first error.
  unfoldable pub set_links :
      (ℕ → List ChainTarget) → List ChainTarget → ℕ → net.World → net.World × ℤ
  set_links next [] i w = (w, pos 0)
  set_links next (p ∷ rest) i w = elim (next i) [
    | [] ↦ (w, pos 0)
    | c ∷ cs ↦
        let (w', reply) =
          net.request w (record { host = p.host; port = p.port })
            (make (chain_req (record { file_token = p.file_token; targets = c ∷ cs }))) in
        let error = reply_error Command.set_chain_resp reply in
        elim (is_zero error) [ true ↦ set_links next rest (suc i) w' | false ↦ (w', error) ]
  ]

  -- set_send_chain and set_send_tree
  unfoldable pub set_send : FileSender → net.World → net.World × ℤ
  unfolding set_links peers children
  set_send s w =
      let ps = peers s.params.targets s.file_tokens in
      set_links (children s.params.send_method ps) ps 0 w

  -- create_file once the file is open.
  unfoldable pub create_remote : FileSender → net.World → net.World × FileSender
  unfolding remote_open set_send
  create_remote s w =
      let (w1, opened, s1) = remote_open s w in
      let (w2, linked) = set_send s1 w1 in
      if is_zero opened
      then (w2, record s1 { error = linked })
      else (w1, record s1 { error = opened })

  -- FileSender::create_file; its result is the member `error`.
  unfoldable pub create_file : LocalFiles → FileSender → net.World → net.World × FileSender
  unfolding open_file create_remote
  create_file files s w =
      let (fd, size) =
        if is_negative s.fd
        then open_file files s.params.file_path s.params.direct_io s.file_size
        else (s.fd, s.file_size) in
      let s' = record s { fd = fd; file_size = size } in
      if is_negative fd then (w, record s' { error = files.errno }) else create_remote s' w

  -- The loop of remote_close: the first error, and the tokens that stay.
  unfoldable pub close_tokens :
      ℕ → List RemoteTarget → List Bytes → ℤ → net.World → net.World × ℤ × List Bytes
  close_tokens wait targets [] first w = (w, first, [])
  close_tokens wait [] (token ∷ tokens) first w = (w, first, token ∷ tokens)
  close_tokens wait (t ∷ targets) ([] ∷ tokens) first w =
      let (w', first', rest) = close_tokens wait targets tokens first w in (w', first', [] ∷ rest)
  close_tokens wait (t ∷ targets) ((c ∷ token) ∷ tokens) first w =
      let (w1, reply) =
        net.request w t (make (close_req (record { wait_close = wait; file_token = c ∷ token }))) in
      let error = reply_error Command.close_file_resp reply in
      let (w2, first', rest) =
        close_tokens wait targets tokens (if is_zero first then error else first) w1 in
      (w2, first', (if is_zero error then [] else c ∷ token) ∷ rest)

  unfoldable pub remote_close : FileSender → net.World → net.World × ℤ × FileSender
  unfolding close_tokens
  remote_close s w =
      let wait = if s.params.wait_close then 1 else 0 in
      let (w', first, tokens) = close_tokens wait s.params.targets s.file_tokens (pos 0) w in
      (w', first, record s { file_tokens = if is_zero first then [] else tokens })

  -- FileSender::close_file, and the descriptor that it closes. A descriptor 0 stays open.
  unfoldable pub close_file : FileSender → net.World → net.World × FileSender × Option ℕ
  unfolding remote_close
  close_file s w =
      let (w', error, s') = remote_close s w in
      let s'' = record s' { error = error } in
      elim s''.fd [
        | negsuc n ↦ (w', s'', none)
        | pos zero ↦ (w', s'', none)
        | pos (suc n) ↦ (w', record s'' { fd = negsuc 0 }, some (suc n))
      ]
