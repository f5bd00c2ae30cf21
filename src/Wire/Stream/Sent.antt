-- ===== src/Wire/Stream/Sent.antt =====
-- What FcopyMessage::encode puts on the wire.
use fcopy.Base.{
  ◌+◌, ◌-◌, ◌%◌, ◌^◌, ◌<◌, ◌≡◌, refl, sym, ap, ap₂, Bytes, List, [], ◌∷◌, ◌++◌, some, false, length,
  length-append, Bool-cases, inl, inr, append-nil, ◌==◌, ==→eq, arith,
}
use mathlib.Core.List.{flatten}
use fcopy.Wire.Ints.{Endian}
use fcopy.Wire.Messages.{
  Payload, SendFileReq, plain, create_req, create_resp, send_req, send_resp, close_req, close_resp,
  delete_req, delete_resp, chain_req, chain_resp, this_cmd, code, Command, code-lt,
}
use fcopy.Wire.Bodies.{encode_body}
use fcopy.Wire.Bodies.Format.{Fits, body_bytes, encode_body-eq, encode_send_req-eq}
use fcopy.Wire.Head.{MessageBase, magic_number, version_number}
use fcopy.Wire.Head.RoundTrip.{IsHead, head_bytes, encode_head-eq}
use fcopy.Wire.Stream.{Message, total_length, encode}

-- Only a SendFileReq has data.
abbrev pub DataFits : Payload → Bytes → Type 0
DataFits (send_req m) view = Unit {0}
DataFits m view = view ≡ []

-- A message as its constructor, its members and at most one call of set_data or set_data_view
-- leave it, small enough for the lengths of its head.
pub record IsSendable (m : Message) : Type 0 where
  pub class : m.base.command ≡ code (this_cmd m.payload)
  pub known : (code (this_cmd m.payload) == code Command.unknown) ≡ false
  pub protocol : m.base.magic ≡ magic_number
  pub revision : m.base.version ≡ version_number
  pub error_fits : m.base.error < 256 ^ 2
  pub members : Fits m.payload
  pub data_members : DataFits m.payload m.base.data_view
  pub data_sized : m.base.data_len ≡ length m.base.data_view
  pub total : length (body_bytes m.payload) + length m.base.data_view < 2 ^ 32

one_vector : {x y view : Bytes} → x ≡ y → view ≡ [] → x ++ [] ≡ y ++ view
one_vector e d = ap₂ (λ a b. a ++ b) e (sym d)

send_vectors :
    (host : Endian) (m : SendFileReq) (view : Bytes)
    → Fits (send_req m)
    → flatten (encode_body host (send_req m) view []).1 ≡ body_bytes (send_req m) ++ view
unfolding encode_body flatten
send_vectors host m view f = elim (Bool-cases (length view == 0)) [
  | inl none_left ↦ rw none_left (
      one_vector (encode_send_req-eq host m [] f)
        (length_zero view (==→eq (length view) 0 none_left)))
  | inr some_left ↦
      rw some_left (ap₂ (λ a b. a ++ b) (encode_send_req-eq host m [] f) (append-nil view))
]
  where
    length_zero : (v : Bytes) → length v ≡ 0 → v ≡ []
    length_zero [] e = refl
    length_zero (b ∷ v) e = absurd (omega arith)

-- The iovecs of a body come to the layout of the body and the data.
encode_body-vectors :
    (host : Endian) (m : Payload) (view : Bytes)
    → Fits m
    → DataFits m view
    → flatten (encode_body host m view []).1 ≡ body_bytes m ++ view
unfolding encode_body flatten body_bytes
encode_body-vectors host plain view f d = sym d
encode_body-vectors host (create_req m) view f d =
    one_vector (encode_body-eq host (create_req m) view [] f) d
encode_body-vectors host (create_resp m) view f d =
    one_vector (encode_body-eq host (create_resp m) view [] f) d
encode_body-vectors host (send_req m) view f d = send_vectors host m view f
encode_body-vectors host send_resp view f d = sym d
encode_body-vectors host (close_req m) view f d =
    one_vector (encode_body-eq host (close_req m) view [] f) d
encode_body-vectors host close_resp view f d = sym d
encode_body-vectors host (delete_req m) view f d =
    one_vector (encode_body-eq host (delete_req m) view [] f) d
encode_body-vectors host delete_resp view f d = sym d
encode_body-vectors host (chain_req m) view f d =
    one_vector (encode_body-eq host (chain_req m) view [] f) d
encode_body-vectors host chain_resp view f d = sym d

total_length-flatten : (vs : List Bytes) → total_length vs ≡ length (flatten vs)
unfolding total_length flatten
total_length-flatten [] = refl
total_length-flatten (v ∷ vs) = omega (arith, total_length-flatten vs, length-append v (flatten vs))

-- The base as encode leaves it.
abbrev pub sent_base : Endian → Message → MessageBase
sent_base host m = record m.base {
  body = (encode_body host m.payload m.base.data_view []).0;
  body_len = length (body_bytes m.payload);
}

-- What encode puts on the wire.
abbrev pub wire_bytes : Endian → Message → Bytes
wire_bytes host m = head_bytes (sent_base host m) ++ (body_bytes m.payload ++ m.base.data_view)

pub sent_base-IsHead : (host : Endian) (m : Message) → IsSendable m → IsHead (sent_base host m)
sent_base-IsHead host m s = record {
  protocol = s.protocol;
  revision = s.revision;
  command_fits = rw s.class (code-lt (this_cmd m.payload));
  error_fits = s.error_fits;
  body_fits = omega (arith, s.total);
  data_fits = omega (arith, s.total, s.data_sized);
}

-- The iovecs of encode are the head, the layout of the body, and the data.
pub encode-eq :
    (host : Endian) (m : Message) (head : Bytes)
    → IsSendable m
    → (vectors : List Bytes) × (encode host (record { head = head; message = some m })
        ≡ some (
          vectors,
          record {
            head = head_bytes (sent_base host m);
            message = some (record m { base = sent_base host m });
          },
        ))
      × (flatten vectors ≡ wire_bytes host m)
unfolding encode
encode-eq host m head s =
    let view = m.base.data_view in
    let vectors = (encode_body host m.payload view []).1 in
    let joined = encode_body-vectors host m.payload view s.members s.data_members in
    let len : (total_length vectors + 2 ^ 64 - m.base.data_len) % 2 ^ 64 % 2 ^ 32
        ≡ length (body_bytes m.payload) =
      omega (
        arith,
        s.total,
        s.data_sized,
        total_length-flatten vectors,
        ap length joined,
        length-append (body_bytes m.payload) view,
      ) in
    (
      head_bytes (sent_base host m) ∷ vectors,
      rw (len, encode_head-eq host (sent_base host m)),
      unfold flatten in ap (◌++◌ (head_bytes (sent_base host m))) joined,
    )
