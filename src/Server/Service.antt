-- ===== src/Server/Service.antt =====
-- FcopyService of src/server/service.h and .cpp: one request and its answer, and what the handler
-- sends to other servers and writes to the file on the way.
pub mod Padding
pub mod Forwarding
pub mod Closing
pub mod Invariant
use fcopy.Base.{
  ℕ, zero, suc, ◌+◌, ◌-◌, ◌*◌, ◌/◌, ◌%◌, ◌^◌, Bytes, bytes_eq, List, [], ◌∷◌, ◌++◌, Bool, true,
  false, not, ◌&&◌, Option, none, some, length, replicate, if◌then◌else◌, ◌==◌, ltb, leb,
}
use fcopy.Base.Int.{ℤ, pos, negsuc, neg, is_zero, is_negative}
use fcopy.Base.Errno.{enoent, ecanceled, err_no_partition, err_no_file}
use fcopy.Wire.Messages.{
  Command, CreateFileReq, SendFileReq, CloseFileReq, SetChainReq, ChainTarget, Payload, plain,
  create_req, create_resp, send_req, send_resp, close_req, close_resp, chain_req, chain_resp,
}
use fcopy.Net.{Reply, reply_error}
use fcopy.Wire.Head.{set_error, set_data_view}
use fcopy.Wire.Stream.{Message, make}
use fcopy.Server.FileManager.{
  FileManager, System, Log, create_file, close_file, set_chain_targets, has_file, get_fd,
}

abbrev pub chunk_base : ℕ
chunk_base = 8192

-- A pwrite(2) that was made: descriptor, bytes and offset.
pub record Write : Type 0 where
  pub fd : ℕ
  pub content : Bytes
  pub offset : ℕ

-- What a handler calls and this repository does not implement. The answer to the request to the
-- i-th target may depend on i.
pub record Environment : Type 0 where
  pub sys : System
  -- std::filesystem::absolute: its error, or the path.
  pub absolute : Log → Bytes → ℤ × Bytes
  pub request : ℕ → Bytes → ℕ → Message → Reply
  -- The errno of an aligned_alloc that fails.
  pub allocates : ℕ → Option ℤ
  -- The error of a pwrite that does not succeed.
  pub pwrite : Write → Option ℤ

-- The part of FcopyServiceParams that the handlers read; a partition stands by its root_path.
pub record Params : Type 0 where
  pub directio : Bool
  pub default_partition : Bytes
  pub partitions : List (Bytes × Bytes)

unfoldable pub with_error : Payload → ℤ → Message
unfolding set_error make
with_error payload error = let m = make payload in record m { base = set_error m.base error }

unfoldable pub partition_root : Bytes → List (Bytes × Bytes) → Bytes
partition_root name [] = []
partition_root name ((k, root) ∷ m) = if bytes_eq k name then root else partition_root name m

unfoldable pub get_partition_dir : Params → Bytes → Bytes
unfolding partition_root
get_partition_dir params partition =
    if length partition == 0
    then params.default_partition
    else partition_root partition params.partitions

-- `psize` of write_file: a size that is not whole blocks is rounded up, in size_t.
unfoldable pub padded_size : ℕ → ℕ
padded_size size =
    if size % chunk_base == 0 then size else (size + chunk_base) % 2 ^ 64 / chunk_base * chunk_base

-- The bytes of the write: the data, and the zeros that memset puts behind it.
unfoldable pub padded : Bytes → Bytes
unfolding padded_size
padded content = content ++ replicate (padded_size (length content) - length content) 0

unfoldable pub first_error : List ℤ → ℤ
first_error [] = pos 0
first_error (e ∷ es) = if is_zero e then first_error es else e

-- The request that send_chain makes for a target: max_chain_len is a uint16_t.
unfoldable pub chain_request : SendFileReq → Bytes → ChainTarget → Message
unfolding make set_data_view
chain_request origin content to =
    let m = make (
      send_req (record {
        max_chain_len = (origin.max_chain_len + 65535) % 65536;
        compress_type = origin.compress_type;
        origin_size = origin.origin_size;
        crc32 = origin.crc32;
        offset = origin.offset;
        file_token = to.file_token;
      })) in
    record m { base = set_data_view m.base content }

-- send_one: the error of the task, or else the error in the response.
unfoldable pub send_one : Reply → ℤ
unfolding reply_error
send_one reply = reply_error Command.send_file_resp reply

module _ (env : Environment) where
  -- The tasks of send_chain from the i-th target on, with the errors they end with.
  unfoldable pub send_chain : SendFileReq → Bytes → ℕ → List ChainTarget → List ℤ
  unfolding send_one chain_request
  send_chain origin content i [] = []
  send_chain origin content i (to ∷ targets) =
      send_one (env.request i to.host to.port (chain_request origin content to))
      ∷ send_chain origin content (suc i) targets

  -- The write of write_file, and its error.
  unfoldable pub make_write : Write → ℤ × List Write
  make_write write = elim (env.pwrite write) [
    | none ↦ (pos 0, write ∷ [])
    | some error ↦ (error, write ∷ [])
  ]

  -- The error, and the write if one was made.
  unfoldable pub write_file : ℕ → Bytes → ℕ → ℤ × List Write
  write_file fd content offset =
      let write : Write = record { fd = fd; content = padded content; offset = offset } in
      if length content % chunk_base == 0
      then make_write write
      else elim (env.allocates (padded_size (length content))) [
        | none ↦ make_write write
        | some error ↦ (error, [])
      ]

  -- get_abs_path(base, relative, filename, abs_path), where abs_path is empty before.
  unfoldable pub get_abs_path : Log → Bytes → Bytes → Bytes → ℤ × Bytes
  get_abs_path log base relative filename =
      let (error, path) = env.absolute log (env.sys.join (env.sys.join base relative) filename) in
      if is_zero error then (error, path) else (error, [])

  -- handle_create_file once `error` and `abs_path` are known.
  unfoldable pub create_at :
      Params → FileManager → CreateFileReq → ℤ × Bytes → FileManager × Message
  create_at params m req (error, path) =
      if is_zero error
      then (let (m', result, token) =
            create_file env.sys m path req.file_size req.chunk_size params.directio in
          (m', with_error (create_resp (record { file_token = token })) result))
      else (m, with_error (create_resp (record { file_token = [] })) error)

  unfoldable pub handle_create_file : Params → FileManager → CreateFileReq → FileManager × Message
  handle_create_file params m req =
      let dir = get_partition_dir params req.partition in
      create_at params m req (
        if length dir == 0
        then (pos err_no_partition, [])
        else get_abs_path m.log dir req.relative_path req.file_name)

  -- The state in which the response is sent, the response, and the state in which the handler ends.
  unfoldable pub handle_close_file :
      FileManager → CloseFileReq → FileManager × Message × FileManager
  unfolding close_file has_file with_error
  handle_close_file m req =
      let (m', result) = close_file env.sys m req.file_token in
      if req.wait_close == 0
      then (
        m,
        with_error close_resp (if has_file m req.file_token then pos 0 else pos err_no_file),
        m',
      )
      else (m', with_error close_resp result, m')

  -- handle_send_file after get_fd: the response and the writes.
  unfoldable pub serve_send : ℤ → List ChainTarget → SendFileReq → Bytes → Message × List Write
  serve_send (negsuc n) targets req content = (with_error send_resp (neg enoent), [])
  serve_send (pos fd) targets req content =
      if leb req.max_chain_len 1 && not (length targets == 0)
      then (with_error send_resp (neg ecanceled), [])
      else (let chain_error = first_error (send_chain req content 0 targets) in
          let (write_error, writes) = write_file fd content req.offset in
          (with_error send_resp (if is_zero chain_error then write_error else chain_error), writes))

  unfoldable pub handle_send_file : FileManager → SendFileReq → Bytes → Message × List Write
  unfolding get_fd serve_send send_chain write_file first_error with_error
  handle_send_file m req content =
      let (fd, targets) = get_fd m req.file_token [] in serve_send fd targets req content

unfoldable pub handle_set_chain : FileManager → SetChainReq → FileManager × Message
unfolding set_chain_targets with_error
handle_set_chain m req =
    let (m', result) = set_chain_targets m req.file_token req.targets in
    (m', with_error chain_resp result)

-- process, for a message whose command is the one of its class, as every message that a
-- FcopyMessage takes from the network has: the state after the handler, the response and the
-- writes.
unfoldable pub process :
    Environment → Params → FileManager → Message → FileManager × Message × List Write
unfolding handle_create_file handle_close_file handle_send_file handle_set_chain make
process env params m msg = elim msg.payload as (λ x. FileManager × Message × List Write) [
  | create_req req ↦ let (m', resp) = handle_create_file env params m req in (m', resp, [])
  | close_req req ↦ let (sent, resp, m') = handle_close_file env m req in (m', resp, [])
  | send_req req ↦
      let (resp, writes) = handle_send_file env m req msg.base.data_view in (m, resp, writes)
  | chain_req req ↦ let (m', resp) = handle_set_chain m req in (m', resp, [])
  | _ ↦ (m, make plain, [])
]

-- The manager after a list of requests, each answered before the next comes.
unfoldable pub serve : Environment → Params → FileManager → List Message → FileManager
serve env params m [] = m
serve env params m (msg ∷ msgs) = serve env params (process env params m msg).0 msgs
