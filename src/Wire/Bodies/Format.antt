-- ===== src/Wire/Bodies/Format.antt =====
-- The layout of each body, apart from the code that writes and reads it.
use fcopy.Base.{
  ◌^◌, ◌<◌, ◌≡◌, refl, sym, ◌∙◌, Bytes, List, [], ◌∷◌, ◌++◌, length, All, append-nil, append_assoc,
  ◌==◌, if◌then◌else◌,
}
use mathlib.Core.Bool.{Bool, true, false}
use native.Mathlib.Nat.{mod-eq_of_lt}
use fcopy.Wire.Ints.{Endian}
use fcopy.Wire.Ints.Network.{big_endian}
use fcopy.Wire.Ints.Fields.{string_bytes, append_int-eq, append_string-eq}
use fcopy.Wire.Messages.{
  SendFileReq, ChainTarget, Payload, plain, create_req, create_resp, send_req, send_resp, close_req,
  close_resp, delete_req, delete_resp, chain_req, chain_resp,
}
use fcopy.Wire.Bodies.{encode_send_req, encode_targets, encode_body}

-- A string whose length a uint32_t holds.
abbrev pub FitsString : Bytes → Type 0
FitsString s = length s < 2 ^ 32

abbrev pub FitsTarget : ChainTarget → Type 0
FitsTarget t = FitsString t.host × (t.port < 256 ^ 2) × FitsString t.file_token

-- The members are within their C++ types, and no string or vector is longer than its count.
abbrev pub Fits : Payload → Type 0
Fits plain = Unit {0}
Fits (create_req m) =
    (m.chunk_size < 256 ^ 4)
    × (m.file_perm < 256 ^ 4)
    × (m.file_size < 256 ^ 8)
    × FitsString m.partition
    × FitsString m.relative_path
    × FitsString m.file_name
Fits (create_resp m) = FitsString m.file_token
Fits (send_req m) =
    (m.max_chain_len < 256 ^ 2)
    × (m.compress_type < 256 ^ 2)
    × (m.origin_size < 256 ^ 4)
    × (m.crc32 < 256 ^ 4)
    × (m.offset < 256 ^ 8)
    × FitsString m.file_token
Fits send_resp = Unit {0}
Fits (close_req m) = (m.wait_close < 256 ^ 1) × FitsString m.file_token
Fits close_resp = Unit {0}
Fits (delete_req m) = FitsString m.file_token
Fits delete_resp = Unit {0}
Fits (chain_req m) =
    FitsString m.file_token × (length m.targets < 256 ^ 4) × All FitsTarget m.targets
Fits chain_resp = Unit {0}

unfoldable pub targets_bytes : List ChainTarget → Bytes
targets_bytes [] = []
targets_bytes (t ∷ ts) =
    string_bytes t.host ++ (big_endian 2 t.port ++ (string_bytes t.file_token ++ targets_bytes ts))

-- The fields in order, integers big-endian, strings behind their lengths.
unfoldable pub body_bytes : Payload → Bytes
body_bytes plain = []
body_bytes (create_req m) =
    big_endian 4 m.chunk_size
    ++ (big_endian 4 m.file_perm
        ++ (big_endian 8 m.file_size
            ++ (string_bytes m.partition
                ++ (string_bytes m.relative_path ++ string_bytes m.file_name))))
body_bytes (create_resp m) = string_bytes m.file_token
body_bytes (send_req m) =
    big_endian 2 m.max_chain_len
    ++ (big_endian 2 m.compress_type
        ++ (big_endian 4 m.origin_size
            ++ (big_endian 4 m.crc32 ++ (big_endian 8 m.offset ++ string_bytes m.file_token))))
body_bytes send_resp = []
body_bytes (close_req m) = big_endian 1 m.wait_close ++ string_bytes m.file_token
body_bytes close_resp = []
body_bytes (delete_req m) = string_bytes m.file_token
body_bytes delete_resp = []
body_bytes (chain_req m) =
    string_bytes m.file_token ++ (big_endian 4 (length m.targets) ++ targets_bytes m.targets)
body_bytes chain_resp = []

module _ (host : Endian) where
  encode_targets-eq :
      (ts : List ChainTarget) (body : Bytes)
      → All FitsTarget ts
      → encode_targets host ts body ≡ body ++ targets_bytes ts
  unfolding encode_targets targets_bytes
  encode_targets-eq [] body h = sym (append-nil body)
  encode_targets-eq (t ∷ ts) body ((h1, h2, h3), hs) =
      encode_targets-eq ts _ hs
      ∙ simp
          (append_string-eq host _ _ h1, append_int-eq, append_string-eq host _ _ h3, append_assoc)

  pub encode_send_req-eq :
      (m : SendFileReq) (body : Bytes)
      → Fits (send_req m)
      → encode_send_req host m body ≡ body ++ body_bytes (send_req m)
  unfolding encode_send_req body_bytes
  encode_send_req-eq m body (h1, h2, h3, h4, h5, h6) =
      append_string-eq host _ _ h6 ∙ simp (append_int-eq, append_assoc)

  -- encode_body appends the layout to the body.
  pub encode_body-eq :
      (m : Payload) (view body : Bytes)
      → Fits m
      → (encode_body host m view body).0 ≡ body ++ body_bytes m
  unfolding encode_body body_bytes
  encode_body-eq plain view body h = sym (append-nil body)
  encode_body-eq (create_req m) view body (h1, h2, h3, h4, h5, h6) =
      append_string-eq host _ _ h6
      ∙ simp
          (append_string-eq host _ _ h4, append_string-eq host _ _ h5, append_int-eq, append_assoc)
  encode_body-eq (create_resp m) view body h = append_string-eq host body m.file_token h
  encode_body-eq (send_req m) view body h =
      rw (send_req_body (length view == 0)) (encode_send_req-eq m body h)
    where
      send_req_body :
          (b : Bool)
          → (if◌then◌else◌ {A = Bytes × List Bytes} b
              (encode_send_req host m body, encode_send_req host m body ∷ [])
              (encode_send_req host m body, encode_send_req host m body ∷ view ∷ [])).0
            ≡ encode_send_req host m body
      send_req_body true = refl
      send_req_body false = refl
  encode_body-eq send_resp view body h = sym (append-nil body)
  encode_body-eq (close_req m) view body (h1, h2) =
      rw (append_int-eq, append_string-eq host _ _ h2) (simp append_assoc)
  encode_body-eq close_resp view body h = sym (append-nil body)
  encode_body-eq (delete_req m) view body h = append_string-eq host body m.file_token h
  encode_body-eq delete_resp view body h = sym (append-nil body)
  encode_body-eq (chain_req m) view body (h1, h2, h3) =
      encode_targets-eq m.targets _ h3
      ∙ simp (append_string-eq host _ _ h1, append_int-eq, append_assoc, mod-eq_of_lt h2)
  encode_body-eq chain_resp view body h = sym (append-nil body)
