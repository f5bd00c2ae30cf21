-- ===== src/Wire/Head/RoundTrip.antt =====
-- decode_head reads back what encode_head wrote, on hosts of either byte order.
use fcopy.Base.{
  ℕ, ◌+◌, ◌^◌, ◌<◌, ◌≡◌, refl, sym, ap, ◌∙◌, Bytes, [], ◌++◌, true, length, length-append,
  append-nil, append_assoc, ◌==◌, arith,
}
use mathlib.Core.Bool.{false, not, ◌||◌}
use fcopy.Wire.Ints.{Endian, append_int}
use fcopy.Wire.Ints.Network.{big_endian, length-big_endian}
use fcopy.Wire.Ints.Fields.{At, append_int-eq, decode_int-At}
use fcopy.Wire.Head.{
  MessageBase, magic_number, version_number, header_size, encode_head, read_member, decode_head,
}

-- The layout of a head.
unfoldable pub head_bytes : MessageBase → Bytes
head_bytes m =
    big_endian 2 m.magic
    ++ (big_endian 2 m.version
        ++ (big_endian 2 m.command
            ++ (big_endian 2 m.error ++ (big_endian 4 m.body_len ++ big_endian 4 m.data_len))))

-- The members of the head are within their C++ types, and it is a head of this protocol.
pub record IsHead (m : MessageBase) : Type 0 where
  pub protocol : m.magic ≡ magic_number
  pub revision : m.version ≡ version_number
  pub command_fits : m.command < 256 ^ 2
  pub error_fits : m.error < 256 ^ 2
  pub body_fits : m.body_len < 256 ^ 4
  pub data_fits : m.data_len < 256 ^ 4

pub length-head_bytes : (m : MessageBase) → length (head_bytes m) ≡ header_size
unfolding head_bytes
length-head_bytes m = simp (length-append, length-big_endian)

pub encode_head-eq :
    (host : Endian) (m : MessageBase) → encode_head host m [] ≡ (head_bytes m, true)
unfolding encode_head
encode_head-eq host m =
    ap (λ h. (h, length h == header_size)) layout
    ∙ ap (λ n. (head_bytes m, n == header_size)) (length-head_bytes m)
  where
    layout :
        append_int host 4
          (append_int host 4
            (append_int host 2
              (append_int host 2
                (append_int host 2 (append_int host 2 [] m.magic) m.version)
                m.command)
              m.error)
            m.body_len)
          m.data_len
        ≡ head_bytes m
    layout = simp (append_int-eq, append_assoc) (unfold head_bytes in refl)

read_member-At :
    (host : Endian) (k : ℕ) (s : Bytes) (old pos n : ℕ) (rest : Bytes)
    → n < 256 ^ k
    → At s pos (big_endian k n ++ rest)
    → (read_member host k s old pos ≡ (n, pos + k)) × At s (pos + k) rest
unfolding read_member
read_member-At host k s old pos n rest hn at =
    let (e, after) = decode_int-At host k s pos n rest hn at in (rw (e, read_member), after)

-- The members of the head in a message that had others.
abbrev pub take_head : MessageBase → MessageBase → MessageBase
take_head m0 m = record m0 {
  magic = m.magic;
  version = m.version;
  command = m.command;
  error = m.error;
  body_len = m.body_len;
  data_len = m.data_len;
}

accepts :
    (magic version : ℕ)
    → magic ≡ magic_number
    → version ≡ version_number
    → not (false || not (magic == magic_number) || not (version == version_number)) ≡ true
accepts magic version p q = ground arith

decode_head-At :
    (host : Endian) (m0 m : MessageBase) (s : Bytes)
    → IsHead m
    → length s ≡ header_size
    → At s 0 (head_bytes m ++ [])
    → decode_head host m0 s ≡ (take_head m0 m, true)
unfolding decode_head head_bytes
decode_head-At host m0 m s h len at =
    let at' : At s 0 (
        big_endian 2 m.magic
        ++ (big_endian 2 m.version
            ++ (big_endian 2 m.command
                ++ (big_endian 2 m.error
                    ++ (big_endian 4 m.body_len ++ (big_endian 4 m.data_len ++ [])))))) =
      simp append_assoc at at in
    let (e1, a1) = read_member-At host 2 s m0.magic 0 m.magic _ (omega (arith, h.protocol)) at' in
    let (e2, a2) =
      read_member-At host 2 s m0.version _ m.version _ (omega (arith, h.revision)) a1 in
    let (e3, a3) = read_member-At host 2 s m0.command _ m.command _ h.command_fits a2 in
    let (e4, a4) = read_member-At host 2 s m0.error _ m.error _ h.error_fits a3 in
    let (e5, a5) = read_member-At host 4 s m0.body_len _ m.body_len _ h.body_fits a4 in
    let (e6, a6) = read_member-At host 4 s m0.data_len _ m.data_len _ h.data_fits a5 in
    rw (e1, e2, e3, e4, e5, e6, len)
      (ap (λ b. (take_head m0 m, b)) (accepts m.magic m.version h.protocol h.revision))

pub decode_head-eq :
    (host : Endian) (m0 m : MessageBase)
    → IsHead m
    → decode_head host m0 (head_bytes m) ≡ (take_head m0 m, true)
decode_head-eq host m0 m h =
    decode_head-At host m0 m (head_bytes m) h (length-head_bytes m)
      (sym (append-nil (head_bytes m)), omega arith)

-- A head of this protocol is read back from the bytes that were written for it, whatever the byte
-- orders of the two hosts; what the reader had besides the members of the head stays.
pub decode_head-encode_head :
    (writer reader : Endian) (m0 m : MessageBase)
    → IsHead m
    → decode_head reader m0 (encode_head writer m []).0 ≡ (take_head m0 m, true)
decode_head-encode_head writer reader m0 m h =
    rw (encode_head-eq writer m) (decode_head-eq reader m0 m h)
