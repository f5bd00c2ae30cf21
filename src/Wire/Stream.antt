-- ===== src/Wire/Stream.antt =====
-- FcopyMessage of src/common/message.h and .cpp: what is written for a message, and the parser
-- that takes the bytes of a connection as they arrive.
pub mod Copies
pub mod Parts
pub mod Chunks
pub mod Sent
pub mod Delivery
pub mod Limit
pub mod Buffers
pub mod Bounds
use fcopy.Base.{
  ℕ, zero, suc, ◌+◌, ◌-◌, ◌%◌, ◌^◌, Bytes, List, [], ◌∷◌, ◌++◌, Bool, true, false, Option, none,
  some, length, take, drop, min, if◌then◌else◌, ltb, ◌==◌,
}
use fcopy.Base.Int.{ℤ, pos}
use fcopy.Wire.Ints.{Endian}
use fcopy.Wire.Messages.{Payload, create_message, code, this_cmd, Command}
use fcopy.Wire.Bodies.{encode_body, decode_body}
use fcopy.Wire.Head.{MessageBase, new_message, encode_head, decode_head, header_size}

-- An object of a subclass of MessageBase.
pub record Message : Type 0 where
  pub base : MessageBase
  pub payload : Payload

-- Two of the errno values that workflow is told.
pub data Errno : Type 0 where
  ebadmsg emsgsize : Errno

-- The constructor of a subclass, `MessageBase(ThisCmd)`.
unfoldable pub make : Payload → Message
unfolding new_message code this_cmd
make payload = record { base = new_message (code (this_cmd payload)) (pos 0); payload = payload }

-- FcopyMessage. `message` is null before the head is complete.
pub record Stream : Type 0 where
  pub head : Bytes
  pub message : Option Message

abbrev pub empty : Stream
empty = record { head = []; message = none }

-- The result of an append: 0, 1, or -1 with errno. After -1 workflow closes the connection, so
-- that what is left in the object is of no account.
pub data Progress : Type 0 where
  pending : Stream → Progress
  complete : Stream → Progress
  failed : Errno → Progress

-- What a connection does after an append: more bytes reach only a message that is not finished.
abbrev pub and_then : Progress → (Stream → Progress) → Progress
and_then (pending s) next = next s
and_then (complete s) next = complete s
and_then (failed e) next = failed e

-- memcpy to the offset `at` of a buffer; the buffer keeps its size.
unfoldable pub write_at : Bytes → ℕ → Bytes → Bytes
write_at [] at bs = []
write_at (x ∷ buf) zero [] = x ∷ buf
write_at (x ∷ buf) zero (b ∷ bs) = b ∷ write_at buf zero bs
write_at (x ∷ buf) (suc at) bs = x ∷ write_at buf at bs

unfoldable pub total_length : List Bytes → ℕ
total_length [] = 0
total_length (v ∷ vs) = length v + total_length vs

module _ (host : Endian) where
  -- FcopyMessage::encode: the iovecs, or -1 with no message. The lengths are size_t; the body's is
  -- the rest after the data, converted to uint32_t. The result of `encode_head` is not looked at.
  unfoldable pub encode : Stream → Option (List Bytes × Stream)
  encode s = elim s.message [
    | none ↦ none
    | some m ↦
        let (body, vectors) = encode_body host m.payload m.base.data_view [] in
        let blen = total_length vectors in
        let base = record m.base {
          body = body;
          body_len = (blen + 2 ^ 64 - m.base.data_len) % 2 ^ 64 % 2 ^ 32;
        } in
        let (head, sized) = encode_head host base [] in
        some (head ∷ vectors, record { head = head; message = some (record m { base = base }) })
  ]

-- A string that grows to `size` bytes at most, as the head and the body do: the string with what
-- of `buf` belongs to it, and the rest of `buf`.
unfoldable pub fill : ℕ → Bytes → Bytes → Bytes × Bytes
fill size have buf =
    let n = min (length buf) (size - length have) in (have ++ take n buf, drop n buf)

-- The memcpy of append_body into the buffer, and the position behind it.
unfoldable pub copy_data : MessageBase → Bytes → Bytes → Bytes × ℕ
unfolding write_at
copy_data base p buf =
    let n = min (length buf) (base.data_len - base.data_pos) in
    (write_at p base.data_pos (take n buf), base.data_pos + n)

module _ (host : Endian) where
  -- The virtual call that ends append_body.
  unfoldable pub finish_body : Bytes → MessageBase → Payload → Progress
  unfolding decode_body
  finish_body head base payload = elim (decode_body host payload base.body) [
    | none ↦ failed ebadmsg
    | some read ↦
        complete (record { head = head; message = some (record { base = base; payload = read }) })
  ]

  -- What append_body does once it has copied: wait for more data, or set the view.
  unfoldable pub check_data : Bytes → MessageBase → Payload → Bytes × ℕ → Progress
  unfolding finish_body
  check_data head base payload (p, at) =
      let base' = record base { buffer = some p; data_pos = at } in
      if ltb at base.data_len
      then pending
          (record { head = head; message = some (record { base = base'; payload = payload }) })
      else finish_body head (record base' { data_view = take base.data_len p }) payload

-- What aligned_alloc answers to a size: null, or a buffer of unknown contents.
module _ (aligned_alloc : ℕ → Option Bytes) where
  -- `char *p = data.get()`, or a new buffer if that is null.
  unfoldable pub data_buffer : MessageBase → Option Bytes
  data_buffer base = elim base.buffer [ none ↦ aligned_alloc base.data_len | some p ↦ some p ]

module _ (host : Endian) (aligned_alloc : ℕ → Option Bytes) where
  -- The second part of append_body: the data.
  unfoldable pub append_data : Bytes → MessageBase → Payload → Bytes → Progress
  unfolding finish_body data_buffer copy_data check_data
  append_data head base payload buf =
      if ltb base.data_pos base.data_len
      then (elim (data_buffer aligned_alloc base) [
        | none ↦ failed ebadmsg
        | some p ↦ check_data host head base payload (copy_data base p buf)
      ])
      else finish_body host head base payload

  -- What append_body does once it has added to the body: wait for more, or go on to the data.
  unfoldable pub check_body : Bytes → MessageBase → Payload → Bytes × Bytes → Progress
  unfolding append_data
  check_body head base payload (body, rest) =
      let base' = record base { body = body } in
      if ltb (length body) base.body_len
      then pending
          (record { head = head; message = some (record { base = base'; payload = payload }) })
      else append_data head base' payload rest

  -- MessageBase::append_body
  unfoldable pub append_body : Bytes → MessageBase → Payload → Bytes → Progress
  unfolding fill check_body
  append_body head base payload buf =
      if ltb (length base.body) base.body_len
      then check_body head base payload (fill base.body_len base.body buf)
      else append_data head base payload buf

  module _ (size_limit : ℕ) where
    -- FcopyMessage::append on what decode_head made of a complete head. `*message =
    -- std::move(m)` gives the new object the members of the base that was read. The sum of the
    -- two uint32_t lengths wraps before it is widened.
    unfoldable pub enter_message : Bytes → MessageBase × Bool → Bytes → Progress
    unfolding append_body
    enter_message head (base, false) buf = failed ebadmsg
    enter_message head (base, true) buf = elim (create_message base.command) [
      | none ↦ failed ebadmsg
      | some payload ↦
          if ltb size_limit ((base.body_len + base.data_len) % 2 ^ 32 + header_size)
          then failed emsgsize
          else append_body head base payload buf
    ]

    -- The part of FcopyMessage::append where the head has just become complete.
    unfoldable pub open_message : Bytes → Bytes → Progress
    unfolding enter_message new_message code
    open_message head buf =
        enter_message head (decode_head host (new_message (code Command.unknown) (pos 0)) head) buf

    -- The part of FcopyMessage::append where the head is complete. The message is then not null,
    -- as long as no append has failed.
    unfoldable pub continue_message : Stream → Bytes → Progress
    unfolding append_body
    continue_message s buf = elim s.message [
      | none ↦ failed ebadmsg
      | some m ↦ append_body s.head m.base m.payload buf
    ]

    -- FcopyMessage::append once it has added to the head.
    unfoldable pub check_head : Stream → Bytes × Bytes → Progress
    unfolding open_message
    check_head s (head, rest) =
        if ltb (length head) header_size
        then pending (record s { head = head })
        else open_message head rest

    -- FcopyMessage::append
    unfoldable pub append : Stream → Bytes → Progress
    unfolding fill check_head continue_message
    append s buf =
        if ltb (length s.head) header_size
        then check_head s (fill header_size s.head buf)
        else continue_message s buf

    -- The chunks of a connection, until a message is complete or refused; the rest is not read.
    unfoldable pub append_all : Stream → List Bytes → Progress
    append_all s [] = pending s
    append_all s (buf ∷ bufs) = and_then (append s buf) (λ s'. append_all s' bufs)
