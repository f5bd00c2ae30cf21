-- ===== src/Wire/Bodies.antt =====
-- encode_body and decode_body of each class in src/common/message.cpp.
pub mod Format
pub mod RoundTrip
pub mod Canonical
use fcopy.Base.{
  ℕ, zero, suc, ◌+◌, ◌%◌, ◌^◌, Bytes, List, [], ◌∷◌, ◌++◌, Option, none, some, length,
  if◌then◌else◌, ◌==◌, ◌>>=◌,
}
use fcopy.Wire.Ints.{Endian, append_int, append_string, decode_int, decode_string}
use fcopy.Wire.Messages.{
  CreateFileReq, CreateFileResp, SendFileReq, CloseFileReq, DeleteFileReq, ChainTarget, SetChainReq,
  Payload, plain, create_req, create_resp, send_req, send_resp, close_req, close_resp, delete_req,
  delete_resp, chain_req, chain_resp, finish,
}

module _ (host : Endian) where
  unfoldable pub decode_create_req : Bytes → Option Payload
  unfolding finish
  decode_create_req s = do
    (chunk_size, p1) ← decode_int host 4 s 0
    (file_perm, p2) ← decode_int host 4 s p1
    (file_size, p3) ← decode_int host 8 s p2
    (partition, p4) ← decode_string host s p3
    (relative_path, p5) ← decode_string host s p4
    (file_name, p6) ← decode_string host s p5
    finish
        (create_req (record {
          chunk_size = chunk_size;
          file_perm = file_perm;
          file_size = file_size;
          partition = partition;
          relative_path = relative_path;
          file_name = file_name;
        }))
        s p6

  unfoldable pub decode_create_resp : Bytes → Option Payload
  unfolding finish
  decode_create_resp s = do
    (file_token, p1) ← decode_string host s 0
    finish (create_resp (record { file_token = file_token })) s p1

  unfoldable pub decode_send_req : Bytes → Option Payload
  unfolding finish
  decode_send_req s = do
    (max_chain_len, p1) ← decode_int host 2 s 0
    (compress_type, p2) ← decode_int host 2 s p1
    (origin_size, p3) ← decode_int host 4 s p2
    (crc32, p4) ← decode_int host 4 s p3
    (offset, p5) ← decode_int host 8 s p4
    (file_token, p6) ← decode_string host s p5
    finish
        (send_req (record {
          max_chain_len = max_chain_len;
          compress_type = compress_type;
          origin_size = origin_size;
          crc32 = crc32;
          offset = offset;
          file_token = file_token;
        }))
        s p6

  unfoldable pub decode_close_req : Bytes → Option Payload
  unfolding finish
  decode_close_req s = do
    (wait_close, p1) ← decode_int host 1 s 0
    (file_token, p2) ← decode_string host s p1
    finish (close_req (record { wait_close = wait_close; file_token = file_token })) s p2

  unfoldable pub decode_delete_req : Bytes → Option Payload
  unfolding finish
  decode_delete_req s = do
    (file_token, p1) ← decode_string host s 0
    finish (delete_req (record { file_token = file_token })) s p1

  -- The rounds that the loop of SetChainReq::decode_body still has to make; it pushes onto
  -- `targets`.
  unfoldable pub decode_targets : ℕ → Bytes → ℕ → List ChainTarget → Option (List ChainTarget × ℕ)
  decode_targets zero s pos targets = some (targets, pos)
  decode_targets (suc i) s pos targets = do
    (name, p1) ← decode_string host s pos
    (port, p2) ← decode_int host 2 s p1
    (file_token, p3) ← decode_string host s p2
    decode_targets i s p3
        (targets ++ record { host = name; port = port; file_token = file_token } ∷ [])

  unfoldable pub decode_chain_req : List ChainTarget → Bytes → Option Payload
  unfolding decode_targets finish
  decode_chain_req targets s = do
    (file_token, p1) ← decode_string host s 0
    (size, p2) ← decode_int host 4 s p1
    (targets', p3) ← decode_targets size s p2 targets
    finish (chain_req (record { file_token = file_token; targets = targets' })) s p3

  -- MessageBase::decode_body: no body is allowed.
  unfoldable pub decode_base : Payload → Bytes → Option Payload
  decode_base m [] = some m
  decode_base m (b ∷ s) = none

  -- The object with what was read, for the result 1; `none` for -1.
  unfoldable pub decode_body : Payload → Bytes → Option Payload
  unfolding decode_create_req decode_create_resp decode_send_req decode_close_req decode_delete_req
      decode_chain_req decode_base
  decode_body plain s = decode_base plain s
  decode_body (create_req m) s = decode_create_req s
  decode_body (create_resp m) s = decode_create_resp s
  decode_body (send_req m) s = decode_send_req s
  decode_body send_resp s = decode_base send_resp s
  decode_body (close_req m) s = decode_close_req s
  decode_body close_resp s = decode_base close_resp s
  decode_body (delete_req m) s = decode_delete_req s
  decode_body delete_resp s = decode_base delete_resp s
  decode_body (chain_req m) s = decode_chain_req m.targets s
  decode_body chain_resp s = decode_base chain_resp s

  unfoldable pub encode_create_req : CreateFileReq → Bytes → Bytes
  encode_create_req m body =
      let b1 = append_int host 4 body m.chunk_size in
      let b2 = append_int host 4 b1 m.file_perm in
      let b3 = append_int host 8 b2 m.file_size in
      let b4 = append_string host b3 m.partition in
      let b5 = append_string host b4 m.relative_path in append_string host b5 m.file_name

  unfoldable pub encode_send_req : SendFileReq → Bytes → Bytes
  encode_send_req m body =
      let b1 = append_int host 2 body m.max_chain_len in
      let b2 = append_int host 2 b1 m.compress_type in
      let b3 = append_int host 4 b2 m.origin_size in
      let b4 = append_int host 4 b3 m.crc32 in
      let b5 = append_int host 8 b4 m.offset in append_string host b5 m.file_token

  unfoldable pub encode_close_req : CloseFileReq → Bytes → Bytes
  encode_close_req m body = append_string host (append_int host 1 body m.wait_close) m.file_token

  unfoldable pub encode_targets : List ChainTarget → Bytes → Bytes
  encode_targets [] body = body
  encode_targets (t ∷ ts) body =
      encode_targets ts (
        append_string host (append_int host 2 (append_string host body t.host) t.port) t.file_token)

  unfoldable pub encode_chain_req : SetChainReq → Bytes → Bytes
  unfolding encode_targets
  encode_chain_req m body =
      encode_targets m.targets
        (append_int host 4 (append_string host body m.file_token) (length m.targets % 2 ^ 32))

  -- The body that a class writes behind `body`, and the iovecs that it fills: none for a class
  -- that leaves encode_body to MessageBase, and the data behind the body of a SendFileReq.
  unfoldable pub encode_body : Payload → Bytes → Bytes → Bytes × List Bytes
  unfolding encode_create_req encode_send_req encode_close_req encode_chain_req
  encode_body plain view body = (body, [])
  encode_body (create_req m) view body = let b = encode_create_req m body in (b, b ∷ [])
  encode_body (create_resp m) view body =
      let b = append_string host body m.file_token in (b, b ∷ [])
  encode_body (send_req m) view body =
      let b = encode_send_req m body in if length view == 0 then (b, b ∷ []) else (b, b ∷ view ∷ [])
  encode_body send_resp view body = (body, [])
  encode_body (close_req m) view body = let b = encode_close_req m body in (b, b ∷ [])
  encode_body close_resp view body = (body, [])
  encode_body (delete_req m) view body = let b = append_string host body m.file_token in (b, b ∷ [])
  encode_body delete_resp view body = (body, [])
  encode_body (chain_req m) view body = let b = encode_chain_req m body in (b, b ∷ [])
  encode_body chain_resp view body = (body, [])
