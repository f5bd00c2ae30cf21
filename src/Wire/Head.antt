-- ===== src/Wire/Head.antt =====
-- MessageBase of src/common/message.h: its members, its constructor, the data behind the body,
-- and the 16 bytes of its head.
pub mod RoundTrip
use fcopy.Base.{
  ℕ, ◌%◌, ◌^◌, Bytes, [], Bool, true, false, ◌||◌, not, Option, none, some, length, if◌then◌else◌,
  ◌==◌,
}
use fcopy.Base.Int.{ℤ, to_int16, from_int16}
use fcopy.Wire.Ints.{Endian, append_int, decode_int}

abbrev pub magic_number : ℕ
magic_number = 0xf1fa

abbrev pub version_number : ℕ
version_number = 1

abbrev pub header_size : ℕ
header_size = 16

-- `error` is the bit pattern of the int16_t. `buffer` is the allocation that the member `data`
-- owns, and `data_view` the bytes that the view of that name shows.
pub record MessageBase : Type 0 where
  pub magic : ℕ
  pub version : ℕ
  pub command : ℕ
  pub error : ℕ
  pub body_len : ℕ
  pub data_len : ℕ
  pub data_pos : ℕ
  pub body : Bytes
  pub buffer : Option Bytes
  pub data_view : Bytes

-- MessageBase(cmd, error)
unfoldable pub new_message : ℕ → ℤ → MessageBase
unfolding to_int16
new_message cmd error = record {
  magic = magic_number;
  version = version_number;
  command = cmd;
  error = to_int16 error;
  body_len = 0;
  data_len = 0;
  data_pos = 0;
  body = [];
  buffer = none;
  data_view = [];
}

unfoldable pub set_error : MessageBase → ℤ → MessageBase
unfolding to_int16
set_error m error = record m { error = to_int16 error }

unfoldable pub get_error : MessageBase → ℤ
unfolding from_int16
get_error m = from_int16 m.error

-- The lengths are converted to uint32_t.
unfoldable pub set_data_view : MessageBase → Bytes → MessageBase
set_data_view m d = record m {
  data_pos = length d % 2 ^ 32;
  data_len = length d % 2 ^ 32;
  buffer = none;
  data_view = d;
}

-- `allocated` is what aligned_alloc answers. A refused allocation leaves the old view behind.
unfoldable pub set_data : Option Bytes → MessageBase → Bytes → MessageBase × Bool
set_data allocated m d =
    let sized = record m {
      data_pos = length d % 2 ^ 32;
      data_len = length d % 2 ^ 32;
      buffer = none;
    } in
    if length d == 0 then (record sized { data_view = [] }, true) else elim allocated [
      | none ↦ (sized, false)
      | some p ↦ (record sized { buffer = some d; data_view = d }, true)
    ]

module _ (host : Endian) where
  -- The head that is appended to a string, and whether it came to 16 bytes.
  unfoldable pub encode_head : MessageBase → Bytes → Bytes × Bool
  unfolding append_int
  encode_head m head =
      let h1 = append_int host 2 head m.magic in
      let h2 = append_int host 2 h1 m.version in
      let h3 = append_int host 2 h2 m.command in
      let h4 = append_int host 2 h3 m.error in
      let h5 = append_int host 4 h4 m.body_len in
      let h6 = append_int host 4 h5 m.data_len in (h6, length h6 == header_size)

  -- decode_int where its result is not looked at: a failure leaves the member and the position.
  unfoldable pub read_member : ℕ → Bytes → ℕ → ℕ → ℕ × ℕ
  unfolding decode_int
  read_member size s old pos = elim (decode_int host size s pos) [
    | none ↦ (old, pos)
    | some (n, p) ↦ (n, p)
  ]

  -- The members read, and true for the result 0, false for -1.
  unfoldable pub decode_head : MessageBase → Bytes → MessageBase × Bool
  decode_head m head =
      if not (length head == header_size)
      then (m, false)
      else let (magic, p1) = read_member 2 head m.magic 0 in
        let (version, p2) = read_member 2 head m.version p1 in
        let (command, p3) = read_member 2 head m.command p2 in
        let (error, p4) = read_member 2 head m.error p3 in
        let (body_len, p5) = read_member 4 head m.body_len p4 in
        let (data_len, p6) = read_member 4 head m.data_len p5 in
        (
          record m {
            magic = magic;
            version = version;
            command = command;
            error = error;
            body_len = body_len;
            data_len = data_len;
          },
          not (
              not (p6 == length head)
              || not (magic == magic_number)
              || not (version == version_number)),
        )
