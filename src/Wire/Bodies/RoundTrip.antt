-- ===== src/Wire/Bodies/RoundTrip.antt =====
-- decode_body reads back what encode_body wrote, on hosts of either byte order.
use fcopy.Base.{
  ℕ, ◌≡◌, refl, sym, ap, ◌∙◌, Bytes, List, [], ◌∷◌, ◌++◌, length, All, append-nil, append_assoc,
  some, arith,
}
use fcopy.Wire.Ints.{Endian}
use fcopy.Wire.Ints.Fields.{At, At-end, decode_int-At, decode_string-At}
use fcopy.Wire.Messages.{
  CreateFileReq, SendFileReq, ChainTarget, SetChainReq, Payload, plain, create_req, create_resp,
  send_req, send_resp, close_req, close_resp, delete_req, delete_resp, chain_req, chain_resp,
  finish, fresh,
}
use fcopy.Wire.Bodies.{
  decode_create_req, decode_send_req, decode_targets, decode_chain_req, decode_base, decode_body,
  encode_body,
}
use fcopy.Wire.Bodies.Format.{Fits, FitsTarget, targets_bytes, body_bytes, encode_body-eq}

At-last : (s : Bytes) (pos : ℕ) (field : Bytes) → At s pos field → At s pos (field ++ [])
At-last s pos field (e, h) = (e ∙ sym (append-nil field), h)

finish-end : (m : Payload) (s : Bytes) (pos : ℕ) → At s pos [] → finish m s pos ≡ some m
unfolding finish
finish-end m s pos at = rw (At-end s pos at)

module _ (host : Endian) where
  decode_base-At : (m : Payload) (s : Bytes) → At s 0 [] → decode_base host m s ≡ some m
  unfolding decode_base
  decode_base-At m [] at = refl
  decode_base-At m (b ∷ s) (e, h) = cc

  decode_create_req-At :
      (m : CreateFileReq) (s : Bytes)
      → Fits (create_req m)
      → At s 0 (body_bytes (create_req m))
      → decode_create_req host s ≡ some (create_req m)
  unfolding decode_create_req body_bytes
  decode_create_req-At m s (h1, h2, h3, h4, h5, h6) at =
      let (e1, a1) = decode_int-At host 4 s _ m.chunk_size _ h1 at in
      let (e2, a2) = decode_int-At host 4 s _ m.file_perm _ h2 a1 in
      let (e3, a3) = decode_int-At host 8 s _ m.file_size _ h3 a2 in
      let (e4, a4) = decode_string-At host s _ m.partition _ h4 a3 in
      let (e5, a5) = decode_string-At host s _ m.relative_path _ h5 a4 in
      let (e6, a6) = decode_string-At host s _ m.file_name [] h6 (At-last s _ _ a5) in
      rw (e1, e2, e3, e4, e5, e6) (finish-end (create_req m) s _ a6)

  decode_send_req-At :
      (m : SendFileReq) (s : Bytes)
      → Fits (send_req m)
      → At s 0 (body_bytes (send_req m))
      → decode_send_req host s ≡ some (send_req m)
  unfolding decode_send_req body_bytes
  decode_send_req-At m s (h1, h2, h3, h4, h5, h6) at =
      let (e1, a1) = decode_int-At host 2 s _ m.max_chain_len _ h1 at in
      let (e2, a2) = decode_int-At host 2 s _ m.compress_type _ h2 a1 in
      let (e3, a3) = decode_int-At host 4 s _ m.origin_size _ h3 a2 in
      let (e4, a4) = decode_int-At host 4 s _ m.crc32 _ h4 a3 in
      let (e5, a5) = decode_int-At host 8 s _ m.offset _ h5 a4 in
      let (e6, a6) = decode_string-At host s _ m.file_token [] h6 (At-last s _ _ a5) in
      rw (e1, e2, e3, e4, e5, e6) (finish-end (send_req m) s _ a6)

  decode_targets-At :
      (ts : List ChainTarget) (s : Bytes) (pos : ℕ) (done : List ChainTarget)
      → All FitsTarget ts
      → At s pos (targets_bytes ts)
      → (p : ℕ) × (decode_targets host (length ts) s pos done ≡ some (done ++ ts, p)) × At s p []
  unfolding decode_targets targets_bytes
  decode_targets-At [] s pos done h at =
      (pos, ap (λ ts. some (ts, pos)) (sym (append-nil done)), at)
  decode_targets-At (t ∷ ts) s pos done ((h1, h2, h3), hs) at =
      let (e1, a1) = decode_string-At host s _ t.host _ h1 at in
      let (e2, a2) = decode_int-At host 2 s _ t.port _ h2 a1 in
      let (e3, a3) = decode_string-At host s _ t.file_token _ h3 a2 in
      let (p, e, a) = decode_targets-At ts s _ (done ++ t ∷ []) hs a3 in
      (p, rw (e1, e2, e3) (e ∙ ap (λ us. some (us, p)) (append_assoc done (t ∷ []) ts)), a)

  decode_chain_req-At :
      (m : SetChainReq) (s : Bytes)
      → Fits (chain_req m)
      → At s 0 (body_bytes (chain_req m))
      → decode_chain_req host [] s ≡ some (chain_req m)
  unfolding decode_chain_req body_bytes
  decode_chain_req-At m s (h1, h2, h3) at =
      let (e1, a1) = decode_string-At host s _ m.file_token _ h1 at in
      let (e2, a2) = decode_int-At host 4 s _ (length m.targets) _ h2 a1 in
      let (p, e3, a3) = decode_targets-At m.targets s _ [] h3 a2 in
      rw (e1, e2, e3) (finish-end (chain_req m) s p a3)

  -- A new object reads the layout of its class.
  pub decode_body-At :
      (m : Payload) (s : Bytes)
      → Fits m
      → At s 0 (body_bytes m)
      → decode_body host (fresh m) s ≡ some m
  unfolding fresh decode_body body_bytes
  decode_body-At plain s h at = decode_base-At plain s at
  decode_body-At (create_req m) s h at = decode_create_req-At m s h at
  decode_body-At (create_resp m) s h at =
      let (e1, a1) = decode_string-At host s _ m.file_token [] h (At-last s _ _ at) in
      rw e1 (finish-end (create_resp m) s _ a1)
  decode_body-At (send_req m) s h at = decode_send_req-At m s h at
  decode_body-At send_resp s h at = decode_base-At send_resp s at
  decode_body-At (close_req m) s (h1, h2) at =
      let (e1, a1) = decode_int-At host 1 s _ m.wait_close _ h1 at in
      let (e2, a2) = decode_string-At host s _ m.file_token [] h2 (At-last s _ _ a1) in
      rw (e1, e2) (finish-end (close_req m) s _ a2)
  decode_body-At close_resp s h at = decode_base-At close_resp s at
  decode_body-At (delete_req m) s h at =
      let (e1, a1) = decode_string-At host s _ m.file_token [] h (At-last s _ _ at) in
      rw e1 (finish-end (delete_req m) s _ a1)
  decode_body-At delete_resp s h at = decode_base-At delete_resp s at
  decode_body-At (chain_req m) s h at = decode_chain_req-At m s h at
  decode_body-At chain_resp s h at = decode_base-At chain_resp s at

-- A message whose members fit their types is read back from the body that was written for it,
-- whatever the byte orders of the host that wrote and of the host that reads.
pub decode_body-encode_body :
    (writer reader : Endian) (m : Payload) (view : Bytes)
    → Fits m
    → decode_body reader (fresh m) (encode_body writer m view []).0 ≡ some m
decode_body-encode_body writer reader m view h =
    rw (encode_body-eq writer m view [] h)
      (decode_body-At reader m (body_bytes m) h (refl, omega arith))
