-- ===== src/Wire/Messages.antt =====
-- The messages of src/common/message.h, and how src/common/message.cpp encodes and decodes the
-- body of each. A member that the C++ constructor leaves uninitialised is 0 or empty here.
use fcopy.Base.{
  ℕ, Bytes, List, [], Option, none, some, length, if◌then◌else◌, ◌==◌, ◌≡◌, refl, ◌<◌, ◌^◌, arith,
}

pub data Command : Type 0 where
  unknown : Command
  create_file_req send_file_req close_file_req delete_file_req set_chain_req : Command
  create_file_resp send_file_resp close_file_resp delete_file_resp set_chain_resp : Command

-- The uint16_t of a command.
unfoldable pub code : Command → ℕ
code Command.unknown = 0x0000
code Command.create_file_req = 0x0001
code Command.send_file_req = 0x0002
code Command.close_file_req = 0x0003
code Command.delete_file_req = 0x0004
code Command.set_chain_req = 0x0011
code Command.create_file_resp = 0x1001
code Command.send_file_resp = 0x1002
code Command.close_file_resp = 0x1003
code Command.delete_file_resp = 0x1004
code Command.set_chain_resp = 0x1011

pub code-lt : (c : Command) → code c < 256 ^ 2
unfolding code
code-lt Command.unknown = omega arith
code-lt Command.create_file_req = omega arith
code-lt Command.send_file_req = omega arith
code-lt Command.close_file_req = omega arith
code-lt Command.delete_file_req = omega arith
code-lt Command.set_chain_req = omega arith
code-lt Command.create_file_resp = omega arith
code-lt Command.send_file_resp = omega arith
code-lt Command.close_file_resp = omega arith
code-lt Command.delete_file_resp = omega arith
code-lt Command.set_chain_resp = omega arith

pub record CreateFileReq : Type 0 where
  pub chunk_size : ℕ
  pub file_perm : ℕ
  pub file_size : ℕ
  pub partition : Bytes
  pub relative_path : Bytes
  pub file_name : Bytes

pub record CreateFileResp : Type 0 where
  pub file_token : Bytes

pub record SendFileReq : Type 0 where
  pub max_chain_len : ℕ
  pub compress_type : ℕ
  pub origin_size : ℕ
  pub crc32 : ℕ
  pub offset : ℕ
  pub file_token : Bytes

pub record CloseFileReq : Type 0 where
  pub wait_close : ℕ
  pub file_token : Bytes

pub record DeleteFileReq : Type 0 where
  pub file_token : Bytes

-- src/common/structures.h
pub record ChainTarget : Type 0 where
  pub host : Bytes
  pub port : ℕ
  pub file_token : Bytes

pub record SetChainReq : Type 0 where
  pub file_token : Bytes
  pub targets : List ChainTarget

-- What a subclass adds to MessageBase. `plain` is MessageBase itself.
pub data Payload : Type 0 where
  plain : Payload
  create_req : CreateFileReq → Payload
  create_resp : CreateFileResp → Payload
  send_req : SendFileReq → Payload
  send_resp : Payload
  close_req : CloseFileReq → Payload
  close_resp : Payload
  delete_req : DeleteFileReq → Payload
  delete_resp : Payload
  chain_req : SetChainReq → Payload
  chain_resp : Payload

-- ThisCmd of each class.
unfoldable pub this_cmd : Payload → Command
this_cmd plain = Command.unknown
this_cmd (create_req m) = Command.create_file_req
this_cmd (create_resp m) = Command.create_file_resp
this_cmd (send_req m) = Command.send_file_req
this_cmd send_resp = Command.send_file_resp
this_cmd (close_req m) = Command.close_file_req
this_cmd close_resp = Command.close_file_resp
this_cmd (delete_req m) = Command.delete_file_req
this_cmd delete_resp = Command.delete_file_resp
this_cmd (chain_req m) = Command.set_chain_req
this_cmd chain_resp = Command.set_chain_resp

abbrev new_create_req : CreateFileReq
new_create_req = record {
  chunk_size = 0;
  file_perm = 0;
  file_size = 0;
  partition = [];
  relative_path = [];
  file_name = [];
}

abbrev new_send_req : SendFileReq
new_send_req = record {
  max_chain_len = 0;
  compress_type = 0;
  origin_size = 0;
  crc32 = 0;
  offset = 0;
  file_token = [];
}

-- The switch of `create_message`, over the number that `get_command` casts: the object that is
-- made for it, or false.
unfoldable pub create_message : ℕ → Option Payload
unfolding code
create_message cmd =
    if cmd == code Command.create_file_req
    then some (create_req new_create_req)
    else if cmd == code Command.send_file_req
    then some (send_req new_send_req)
    else if cmd == code Command.close_file_req
    then some (close_req (record { wait_close = 0; file_token = [] }))
    else if cmd == code Command.delete_file_req
    then some (delete_req (record { file_token = [] }))
    else if cmd == code Command.set_chain_req
    then some (chain_req (record { file_token = []; targets = [] }))
    else if cmd == code Command.create_file_resp
    then some (create_resp (record { file_token = [] }))
    else if cmd == code Command.send_file_resp
    then some send_resp
    else if cmd == code Command.close_file_resp
    then some close_resp
    else if cmd == code Command.delete_file_resp
    then some delete_resp
    else if cmd == code Command.set_chain_resp
    then some chain_resp
    else none

-- A new object of the same class.
unfoldable pub fresh : Payload → Payload
fresh plain = plain
fresh (create_req m) = create_req new_create_req
fresh (create_resp m) = create_resp (record { file_token = [] })
fresh (send_req m) = send_req new_send_req
fresh send_resp = send_resp
fresh (close_req m) = close_req (record { wait_close = 0; file_token = [] })
fresh close_resp = close_resp
fresh (delete_req m) = delete_req (record { file_token = [] })
fresh delete_resp = delete_resp
fresh (chain_req m) = chain_req (record { file_token = []; targets = [] })
fresh chain_resp = chain_resp

-- The switch makes an object of the class whose command it is given, and none for UNKNOWN.
pub create_message-this_cmd :
    (m : Payload)
    → create_message (code (this_cmd m))
      ≡ (if code (this_cmd m) == code Command.unknown then none else some (fresh m))
unfolding create_message fresh this_cmd code
create_message-this_cmd plain = refl
create_message-this_cmd (create_req m) = refl
create_message-this_cmd (create_resp m) = refl
create_message-this_cmd (send_req m) = refl
create_message-this_cmd send_resp = refl
create_message-this_cmd (close_req m) = refl
create_message-this_cmd close_resp = refl
create_message-this_cmd (delete_req m) = refl
create_message-this_cmd delete_resp = refl
create_message-this_cmd (chain_req m) = refl
create_message-this_cmd chain_resp = refl

-- `(pos == body.size()) ? 1 : -1`
unfoldable pub finish : Payload → Bytes → ℕ → Option Payload
finish m s pos = if pos == length s then some m else none
