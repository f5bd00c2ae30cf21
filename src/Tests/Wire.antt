-- ===== src/Tests/Wire.antt =====
-- The theorems on the wire format, at one SendFileReq with data and one file that is created.
use fcopy.Base.{
  ℕ, ◌≡◌, refl, Bytes, AllBytes, List, [], ◌∷◌, ◌++◌, take, drop, take-append-drop, append-nil, ap,
  sym, ◌∙◌, length, Option, some, true, replicate, length-replicate, arith, codes,
}
use mathlib.Core.List.{flatten}
use fcopy.Base.Int.{pos, to_int16}
use fcopy.Wire.Ints.{little, big, decode_int, decode_string}
use fcopy.Wire.Ints.Network.{big_endian}
use fcopy.Wire.Ints.Fields.{string_bytes}
use fcopy.Wire.Messages.{
  Command, code, this_cmd, fresh, SendFileReq, send_req, close_req, CloseFileReq,
}
use fcopy.Wire.Bodies.{encode_body, decode_body}
use fcopy.Wire.Bodies.Format.{Fits, body_bytes}
use fcopy.Wire.Bodies.RoundTrip.{decode_body-encode_body}
use fcopy.Wire.Bodies.Canonical.{encode_body-decode_body}
use fcopy.Wire.Head.{MessageBase, new_message, encode_head, decode_head, set_data_view}
use fcopy.Wire.Head.RoundTrip.{IsHead, head_bytes, take_head, decode_head-encode_head}
use fcopy.Wire.Stream.{
  Message, Stream, pending, failed, emsgsize, empty, make, encode, append, append_all,
}
use fcopy.Wire.Stream.Chunks.{append_all-flatten}
use fcopy.Wire.Stream.Sent.{IsSendable, wire_bytes}
use fcopy.Wire.Stream.Delivery.{Allocates, Arrives, WithinLimit, append_all-encode}
use fcopy.Wire.Stream.Limit.{IsKnown, append_over_limit, append_wraps_limit}
use fcopy.Wire.Stream.Buffers.{Sound, Sized}
use fcopy.Wire.Stream.Bounds.{append_all-Sound}

abbrev alloc : ℕ → Option Bytes
alloc n = some (replicate n 0)

alloc-Allocates : Allocates alloc
alloc-Allocates n = (replicate n 0, refl, length-replicate n 0)

abbrev part : SendFileReq
part = record {
  max_chain_len = 3;
  compress_type = 0;
  origin_size = 4;
  crc32 = 0;
  offset = 8192;
  file_token = codes "f0";
}

abbrev content : Bytes
content = codes "data"

-- A SendFileReq with its content.
abbrev sending : Message
sending = record (make (send_req part)) { base = set_data_view (make (send_req part)).base content }

part-Fits : Fits (send_req part)
part-Fits = (omega arith, omega arith, omega arith, omega arith, omega arith, omega arith)

sending-IsSendable : IsSendable sending
unfolding make new_message set_data_view code this_cmd body_bytes to_int16 big_endian string_bytes
sending-IsSendable = record {
  class = refl;
  known = refl;
  protocol = refl;
  revision = refl;
  error_fits = omega arith;
  members = part-Fits;
  data_members = tt;
  data_sized = refl;
  total = omega arith;
}

abbrev chunks : List Bytes
chunks = take 5 (wire_bytes little sending) ∷ drop 5 (wire_bytes little sending) ∷ []

sending-WithinLimit : WithinLimit 100 sending
unfolding make set_data_view body_bytes big_endian string_bytes
sending-WithinLimit = omega arith

flatten-chunks : flatten chunks ≡ wire_bytes little sending
unfolding flatten
flatten-chunks =
    ap (◌++◌ (take 5 (wire_bytes little sending))) (append-nil (drop 5 (wire_bytes little sending)))
    ∙ take-append-drop 5 (wire_bytes little sending)

append_all-encode_example :
    (vectors : List Bytes) × (sent : Stream) × (encode little
        (record { head = []; message = some sending })
      ≡ some (vectors, sent))
    × (flatten vectors ≡ flatten chunks)
    × Arrives (append_all big alloc 100 empty chunks) sending
append_all-encode_example =
    append_all-encode little big alloc 100 sending [] chunks alloc-Allocates sending-IsSendable
      sending-WithinLimit flatten-chunks

append_all-flatten_example :
    append_all little alloc 100 empty chunks ≡ append little alloc 100 empty (flatten chunks)
append_all-flatten_example = append_all-flatten little alloc 100 chunks

decode_body-encode_body_example :
    decode_body big (fresh (send_req part)) (encode_body little (send_req part) content []).0
    ≡ some (send_req part)
decode_body-encode_body_example =
    decode_body-encode_body little big (send_req part) content part-Fits

-- A CloseFileReq of a peer: wait_close, and the token "f0".
abbrev close_body : Bytes
close_body = 1 ∷ 0 ∷ 0 ∷ 0 ∷ 2 ∷ 102 ∷ 48 ∷ []

abbrev closing : CloseFileReq
closing = record { wait_close = 1; file_token = codes "f0" }

close_body-read :
    decode_body little (fresh (close_req closing)) close_body ≡ some (close_req closing)
unfolding decode_body fresh decode_int decode_string
close_body-read = refl

close_body-AllBytes : AllBytes close_body
close_body-AllBytes = (
  omega arith,
  (omega arith, (omega arith, (omega arith, (omega arith, (omega arith, (omega arith, tt)))))),
)

encode_body-decode_body_example :
    Fits (close_req closing) × ((encode_body big (close_req closing) [] []).0 ≡ close_body)
encode_body-decode_body_example =
    encode_body-decode_body little big close_body [] (close_req closing) (close_req closing)
      close_body-AllBytes close_body-read

abbrev head_of : ℕ → ℕ → MessageBase
head_of body_len data_len = record (new_message 2 (pos 0)) {
  body_len = body_len;
  data_len = data_len;
}

huge-IsHead : IsHead (head_of 4294967295 20)
unfolding new_message to_int16
huge-IsHead = record {
  protocol = refl;
  revision = refl;
  command_fits = omega arith;
  error_fits = omega arith;
  body_fits = omega arith;
  data_fits = omega arith;
}

huge-IsKnown : IsKnown (head_of 4294967295 20) (send_req part)
unfolding new_message code this_cmd
huge-IsKnown = record { head = huge-IsHead; class = refl; known = refl }

decode_head-encode_head_example :
    decode_head big (new_message 0 (pos 0)) (encode_head little (head_of 4294967295 20) []).0
    ≡ (take_head (new_message 0 (pos 0)) (head_of 4294967295 20), true)
decode_head-encode_head_example =
    decode_head-encode_head little big (new_message 0 (pos 0)) (head_of 4294967295 20) huge-IsHead

append_wraps_limit_example :
    append little alloc 100 empty (head_bytes (head_of 4294967295 20) ++ [])
    ≡ pending (record {
      head = head_bytes (head_of 4294967295 20);
      message = some (record {
        base = take_head (new_message (code Command.unknown) (pos 0)) (head_of 4294967295 20);
        payload = fresh (send_req part);
      });
    })
append_wraps_limit_example =
    append_wraps_limit little alloc 100 (head_of 4294967295 20) (send_req part) huge-IsKnown
      (omega arith) (omega arith) (omega arith)

large-IsKnown : IsKnown (head_of 10 1000) (send_req part)
unfolding new_message code this_cmd to_int16
large-IsKnown = record {
  head = record {
    protocol = refl;
    revision = refl;
    command_fits = omega arith;
    error_fits = omega arith;
    body_fits = omega arith;
    data_fits = omega arith;
  };
  class = refl;
  known = refl;
}

append_over_limit_example :
    append little alloc 100 empty (head_bytes (head_of 10 1000) ++ content) ≡ failed emsgsize
append_over_limit_example =
    append_over_limit little alloc 100 (head_of 10 1000) (send_req part) content large-IsKnown
      (omega arith) (omega arith)

alloc-Sized : Sized alloc
alloc-Sized n p e = let same : replicate n 0 ≡ p = cc in ap length (sym same) ∙ length-replicate n 0

append_all-Sound_example : Sound (append_all little alloc 100 empty chunks)
append_all-Sound_example = append_all-Sound little alloc alloc-Sized 100 chunks
