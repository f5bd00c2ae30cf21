-- ===== src/Wire/Bodies/Canonical.antt =====
-- decode_body accepts no other bytes than those that encode_body writes.
use fcopy.Base.{
  ℕ, zero, suc, ◌≡◌, refl, sym, ap, subst, ◌∙◌, Bytes, AllBytes, List, [], ◌∷◌, ◌++◌, length, All,
  append-nil, append_assoc, some, ◌==◌, ==→eq, Bool-cases, inl, inr, drop, drop_all, >>=-eq-some,
  arith,
}
use fcopy.Wire.Ints.{Endian}
use fcopy.Wire.Ints.Fields.{decode_int_inv, decode_string_inv}
use fcopy.Wire.Messages.{
  ChainTarget, Payload, plain, create_req, create_resp, send_req, send_resp, close_req, close_resp,
  delete_req, delete_resp, chain_req, chain_resp, finish, fresh,
}
use fcopy.Wire.Bodies.{
  decode_create_req, decode_create_resp, decode_send_req, decode_close_req, decode_delete_req,
  decode_targets, decode_chain_req, decode_base, decode_body, encode_body,
}
use fcopy.Wire.Bodies.Format.{Fits, FitsTarget, targets_bytes, body_bytes, encode_body-eq}

finish_inv : (m r : Payload) (s : Bytes) (p : ℕ) → finish m s p ≡ some r → (m ≡ r) × (drop p s ≡ [])
unfolding finish
finish_inv m r s p h = elim (Bool-cases (p == length s)) [
  | inl ends ↦ (ground arith, drop_all p s (omega (arith, ==→eq p (length s) ends)))
  | inr more ↦ cc (rw more at h)
]

-- What is read fits, and the bytes are its layout.
abbrev Reads : Bytes → Payload → Type 0
Reads s r = Fits r × (s ≡ body_bytes r)

module _ (host : Endian) (s : Bytes) (bytes : AllBytes s) where
  decode_create_req_inv : (r : Payload) → decode_create_req host s ≡ some r → Reads s r
  unfolding decode_create_req body_bytes
  decode_create_req_inv r h =
      let (v1, e1, h1) = >>=-eq-some _ _ h in
      let (v2, e2, h2) = >>=-eq-some _ _ h1 in
      let (v3, e3, h3) = >>=-eq-some _ _ h2 in
      let (v4, e4, h4) = >>=-eq-some _ _ h3 in
      let (v5, e5, h5) = >>=-eq-some _ _ h4 in
      let (v6, e6, h6) = >>=-eq-some _ _ h5 in
      let i1 = decode_int_inv host 4 s 0 v1.0 v1.1 bytes e1 in
      let i2 = decode_int_inv host 4 s v1.1 v2.0 v2.1 bytes e2 in
      let i3 = decode_int_inv host 8 s v2.1 v3.0 v3.1 bytes e3 in
      let i4 = decode_string_inv host s v3.1 v4.0 v4.1 bytes e4 in
      let i5 = decode_string_inv host s v4.1 v5.0 v5.1 bytes e5 in
      let i6 = decode_string_inv host s v5.1 v6.0 v6.1 bytes e6 in
      let (same, ends) = finish_inv _ r s v6.1 h6 in
      subst (Reads s) same (
        (i1.2, i2.2, i3.2, i4.2, i5.2, i6.2),
        i1.3 ∙ rw (i2.3, i3.3, i4.3, i5.3, i6.3, ends, append-nil),
      )

  decode_create_resp_inv : (r : Payload) → decode_create_resp host s ≡ some r → Reads s r
  unfolding decode_create_resp body_bytes
  decode_create_resp_inv r h =
      let (v1, e1, h1) = >>=-eq-some _ _ h in
      let i1 = decode_string_inv host s 0 v1.0 v1.1 bytes e1 in
      let (same, ends) = finish_inv _ r s v1.1 h1 in
      subst (Reads s) same (i1.2, i1.3 ∙ rw (ends, append-nil))

  decode_send_req_inv : (r : Payload) → decode_send_req host s ≡ some r → Reads s r
  unfolding decode_send_req body_bytes
  decode_send_req_inv r h =
      let (v1, e1, h1) = >>=-eq-some _ _ h in
      let (v2, e2, h2) = >>=-eq-some _ _ h1 in
      let (v3, e3, h3) = >>=-eq-some _ _ h2 in
      let (v4, e4, h4) = >>=-eq-some _ _ h3 in
      let (v5, e5, h5) = >>=-eq-some _ _ h4 in
      let (v6, e6, h6) = >>=-eq-some _ _ h5 in
      let i1 = decode_int_inv host 2 s 0 v1.0 v1.1 bytes e1 in
      let i2 = decode_int_inv host 2 s v1.1 v2.0 v2.1 bytes e2 in
      let i3 = decode_int_inv host 4 s v2.1 v3.0 v3.1 bytes e3 in
      let i4 = decode_int_inv host 4 s v3.1 v4.0 v4.1 bytes e4 in
      let i5 = decode_int_inv host 8 s v4.1 v5.0 v5.1 bytes e5 in
      let i6 = decode_string_inv host s v5.1 v6.0 v6.1 bytes e6 in
      let (same, ends) = finish_inv _ r s v6.1 h6 in
      subst (Reads s) same (
        (i1.2, i2.2, i3.2, i4.2, i5.2, i6.2),
        i1.3 ∙ rw (i2.3, i3.3, i4.3, i5.3, i6.3, ends, append-nil),
      )

  decode_close_req_inv : (r : Payload) → decode_close_req host s ≡ some r → Reads s r
  unfolding decode_close_req body_bytes
  decode_close_req_inv r h =
      let (v1, e1, h1) = >>=-eq-some _ _ h in
      let (v2, e2, h2) = >>=-eq-some _ _ h1 in
      let i1 = decode_int_inv host 1 s 0 v1.0 v1.1 bytes e1 in
      let i2 = decode_string_inv host s v1.1 v2.0 v2.1 bytes e2 in
      let (same, ends) = finish_inv _ r s v2.1 h2 in
      subst (Reads s) same ((i1.2, i2.2), i1.3 ∙ rw (i2.3, ends, append-nil))

  decode_delete_req_inv : (r : Payload) → decode_delete_req host s ≡ some r → Reads s r
  unfolding decode_delete_req body_bytes
  decode_delete_req_inv r h =
      let (v1, e1, h1) = >>=-eq-some _ _ h in
      let i1 = decode_string_inv host s 0 v1.0 v1.1 bytes e1 in
      let (same, ends) = finish_inv _ r s v1.1 h1 in
      subst (Reads s) same (i1.2, i1.3 ∙ rw (ends, append-nil))

  -- The targets that the loop adds to those it began with.
  decode_targets_inv :
      (i pos : ℕ) (old ts : List ChainTarget) (p : ℕ)
      → decode_targets host i s pos old ≡ some (ts, p)
      → (us : List ChainTarget) × (ts ≡ old ++ us)
        × (length us ≡ i)
        × All FitsTarget us
        × (drop pos s ≡ targets_bytes us ++ drop p s)
  unfolding decode_targets targets_bytes
  decode_targets_inv zero pos old ts p h =
      ([], (cc) ∙ sym (append-nil old), refl, tt, ap (λ k. drop k s) (cc))
  decode_targets_inv (suc i) pos old ts p h =
      let (v1, e1, h1) = >>=-eq-some _ _ h in
      let (v2, e2, h2) = >>=-eq-some _ _ h1 in
      let (v3, e3, h3) = >>=-eq-some _ _ h2 in
      let i1 = decode_string_inv host s pos v1.0 v1.1 bytes e1 in
      let i2 = decode_int_inv host 2 s v1.1 v2.0 v2.1 bytes e2 in
      let i3 = decode_string_inv host s v2.1 v3.0 v3.1 bytes e3 in
      let t : ChainTarget = record { host = v1.0; port = v2.0; file_token = v3.0 } in
      let (us, e, len, fit, left) = decode_targets_inv i v3.1 (old ++ t ∷ []) ts p h3 in
      (
        t ∷ us,
        e ∙ append_assoc old (t ∷ []) us,
        ap suc len,
        ((i1.2, i2.2, i3.2), fit),
        i1.3 ∙ rw (i2.3, i3.3, left) (simp append_assoc),
      )

  decode_chain_req_inv : (r : Payload) → decode_chain_req host [] s ≡ some r → Reads s r
  unfolding decode_chain_req body_bytes
  decode_chain_req_inv r h =
      let (v1, e1, h1) = >>=-eq-some _ _ h in
      let (v2, e2, h2) = >>=-eq-some _ _ h1 in
      let (v3, e3, h3) = >>=-eq-some _ _ h2 in
      let i1 = decode_string_inv host s 0 v1.0 v1.1 bytes e1 in
      let i2 = decode_int_inv host 4 s v1.1 v2.0 v2.1 bytes e2 in
      let (us, e, len, fit, left) = decode_targets_inv v2.0 v2.1 [] v3.0 v3.1 e3 in
      let (same, ends) = finish_inv _ r s v3.1 h3 in
      subst (Reads s) same (
        (i1.2, omega (arith, ap length e), rw e fit),
        i1.3 ∙ rw (i2.3, left, ends, append-nil, e, len),
      )

  decode_base_inv :
      (m r : Payload) → body_bytes m ≡ [] → Fits m → decode_base host m s ≡ some r → Reads s r
  unfolding decode_base
  decode_base_inv m r e f h = go s refl h
    where
      go : (t : Bytes) → s ≡ t → decode_base host m t ≡ some r → Reads s r
      go [] es hr = let same : m ≡ r = cc in subst (Reads s) same (f, es ∙ sym e)
      go (b ∷ t) es hr = cc

  decode_body_inv : (m r : Payload) → decode_body host (fresh m) s ≡ some r → Reads s r
  unfolding decode_body fresh body_bytes
  decode_body_inv plain r h = decode_base_inv plain r refl tt h
  decode_body_inv (create_req m) r h = decode_create_req_inv r h
  decode_body_inv (create_resp m) r h = decode_create_resp_inv r h
  decode_body_inv (send_req m) r h = decode_send_req_inv r h
  decode_body_inv send_resp r h = decode_base_inv send_resp r refl tt h
  decode_body_inv (close_req m) r h = decode_close_req_inv r h
  decode_body_inv close_resp r h = decode_base_inv close_resp r refl tt h
  decode_body_inv (delete_req m) r h = decode_delete_req_inv r h
  decode_body_inv delete_resp r h = decode_base_inv delete_resp r refl tt h
  decode_body_inv (chain_req m) r h = decode_chain_req_inv r h
  decode_body_inv chain_resp r h = decode_base_inv chain_resp r refl tt h

-- If a body is accepted for an object of some class, then the members that were read fit their
-- types, and encode_body writes exactly the bytes of that body for them, on a host of either byte
-- order.
pub encode_body-decode_body :
    (reader writer : Endian) (s view : Bytes) (m r : Payload)
    → AllBytes s
    → decode_body reader (fresh m) s ≡ some r
    → Fits r × ((encode_body writer r view []).0 ≡ s)
encode_body-decode_body reader writer s view m r bytes h =
    let (fit, layout) = decode_body_inv reader s bytes m r h in
    (fit, encode_body-eq writer r view [] fit ∙ sym layout)
