-- ===== src/Wire/Stream/Parts.antt =====
-- MessageBase::append_body on a chunk that is cut in two.
use fcopy.Base.{
  ℕ, ◌-◌, ◌≤◌, ◌<◌, ◌≡◌, refl, sym, ap, ◌∙◌, Bytes, [], ◌++◌, Option, some, length, length-append,
  ltb, ltb→lt, ltb→le, lt→ltb, le→ltb, Bool-cases, inl, inr, Option-cases, arith,
}
use fcopy.Wire.Ints.{Endian}
use fcopy.Wire.Messages.{Payload}
use fcopy.Wire.Head.{MessageBase}
use fcopy.Wire.Stream.{
  Stream, Progress, pending, fill, check_body, copy_data, check_data, append_data, append_body,
  data_buffer, finish_body, and_then,
}
use fcopy.Wire.Stream.Copies.{
  fill-short, fill-long, copied, copy_data-short, copy_data-long, copy_data-long_append,
}

module _ (host : Endian) where
  -- A finished message takes no more.
  finish_body-and_then :
      (h : Bytes) (base : MessageBase) (payload : Payload) (next : Stream → Progress)
      → and_then (finish_body host h base payload) next ≡ finish_body host h base payload
  unfolding finish_body
  finish_body-and_then h base payload next = ground arith

  check_data-and_then :
      (h : Bytes) (base : MessageBase) (payload : Payload) (p : Bytes) (at : ℕ)
      (next : Stream → Progress)
      → base.data_len ≤ at
      → and_then (check_data host h base payload (p, at)) next
        ≡ check_data host h base payload (p, at)
  unfolding check_data
  check_data-and_then h base payload p at next full =
      rw (le→ltb at base.data_len full) (finish_body-and_then h _ payload next)

  check_data-pending :
      (h : Bytes) (base : MessageBase) (payload : Payload) (p : Bytes) (at : ℕ)
      → at < base.data_len
      → check_data host h base payload (p, at)
        ≡ pending (record {
          head = h;
          message =
              some (record {
                base = record base { buffer = some p; data_pos = at };
                payload = payload;
              });
        })
  unfolding check_data
  check_data-pending h base payload p at more = rw (lt→ltb at base.data_len more)

module _ (host : Endian) (aligned_alloc : ℕ → Option Bytes) where
  -- An append where the body is complete and a buffer is there.
  resume_data :
      (h : Bytes) (base : MessageBase) (payload : Payload) (p b : Bytes)
      → base.body_len ≤ length base.body
      → base.data_pos < base.data_len
      → data_buffer aligned_alloc base ≡ some p
      → append_body host aligned_alloc h base payload b
        ≡ check_data host h base payload (copy_data base p b)
  unfolding append_body
  resume_data h base payload p b full wants got =
      rw
        (
          le→ltb (length base.body) base.body_len full,
          lt→ltb base.data_pos base.data_len wants,
          got,
        )
        refl

module _ (host : Endian) (aligned_alloc : ℕ → Option Bytes) where
  pub check_body-pending :
      (h : Bytes) (base : MessageBase) (payload : Payload) (body rest : Bytes)
      → length body < base.body_len
      → check_body host aligned_alloc h base payload (body, rest)
        ≡ pending (record {
          head = h;
          message = some (record { base = record base { body = body }; payload = payload });
        })
  unfolding check_body
  check_body-pending h base payload body rest more = rw (lt→ltb (length body) base.body_len more)

  pub check_body-full :
      (h : Bytes) (base : MessageBase) (payload : Payload) (body rest : Bytes)
      → base.body_len ≤ length body
      → check_body host aligned_alloc h base payload (body, rest)
        ≡ append_data host aligned_alloc h (record base { body = body }) payload rest
  unfolding check_body
  check_body-full h base payload body rest full = rw (le→ltb (length body) base.body_len full)

  -- An append where part of the body is there.
  pub resume_body :
      (h : Bytes) (base : MessageBase) (payload : Payload) (body b : Bytes)
      → length body < base.body_len
      → append_body host aligned_alloc h (record base { body = body }) payload b
        ≡ check_body host aligned_alloc h base payload (fill base.body_len body b)
  unfolding append_body
  resume_body h base payload body b wants = rw (lt→ltb (length body) base.body_len wants)

  -- The state that the data part leaves, and what the next append makes of it.
  module _ (next : Bytes → Stream → Progress) (h : Bytes)
      (next-eq : (base : MessageBase) (payload : Payload) (b : Bytes)
        → next b (record { head = h; message = some (record { base = base; payload = payload }) })
          ≡ append_body host aligned_alloc h base payload b) where
    check_data-append :
        (base : MessageBase) (payload : Payload) (p a b : Bytes)
        → base.body_len ≤ length base.body
        → base.data_pos < base.data_len
        → check_data host h base payload (copy_data base p (a ++ b))
          ≡ and_then (check_data host h base payload (copy_data base p a)) (next b)
    unfolding append_body append_data data_buffer
    check_data-append base payload p a b full wants =
        elim (Bool-cases (ltb (length a) (base.data_len - base.data_pos))) [
          | inl short ↦
              let (all, same) = copy_data-short base p a b (ltb→lt _ _ short) in
              ap (check_data host h base payload) same
              ∙ sym (
                  ap (λ r. and_then r (next b))
                    (check_data-pending host h base payload _ _ (omega (arith, ltb→lt _ _ short)))
                  ∙ next-eq (copied base p a) payload b
                  ∙ resume_data host aligned_alloc h (copied base p a) payload _ b full
                      (omega (arith, ltb→lt _ _ short)) refl)
              ∙ sym (ap (λ v. and_then (check_data host h base payload v) (next b)) all)
          | inr long ↦
              ap (check_data host h base payload)
                (copy_data-long_append base p a b (ltb→le _ _ long))
              ∙ (sym (
                  check_data-and_then host h base payload _ _ (next b)
                    (omega (arith, copy_data-long base p a b (ltb→le _ _ long)))))
        ]

    append_data-append :
        (base : MessageBase) (payload : Payload) (a b : Bytes)
        → base.body_len ≤ length base.body
        → append_data host aligned_alloc h base payload (a ++ b)
          ≡ and_then (append_data host aligned_alloc h base payload a) (next b)
    unfolding append_data
    append_data-append base payload a b full = elim (Bool-cases (ltb base.data_pos base.data_len)) [
      | inl wants ↦ elim (Option-cases (data_buffer aligned_alloc base)) [
        | inl null ↦ rw (wants, null) refl
        | inr (p, got) ↦
            rw (wants, got) (check_data-append base payload p a b full (ltb→lt _ _ wants))
      ]
      | inr done ↦ rw done (sym (finish_body-and_then host h base payload (next b)))
    ]

    check_body-append :
        (base : MessageBase) (payload : Payload) (a b : Bytes)
        → length base.body < base.body_len
        → check_body host aligned_alloc h base payload (fill base.body_len base.body (a ++ b))
          ≡ and_then
              (check_body host aligned_alloc h base payload (fill base.body_len base.body a))
              (next b)
    check_body-append base payload a b wants =
        elim (Bool-cases (ltb (length a) (base.body_len - length base.body))) [
          | inl short ↦
              let (all, same) = fill-short base.body_len base.body a b (ltb→lt _ _ short) in
              rw (same, all)
                (sym (
                  ap (λ r. and_then r (next b))
                    (check_body-pending h base payload (base.body ++ a) []
                      (omega (arith, length-append base.body a, ltb→lt _ _ short)))
                  ∙ next-eq (record base { body = base.body ++ a }) payload b
                  ∙ resume_body h base payload (base.body ++ a) b
                      (omega (arith, length-append base.body a, ltb→lt _ _ short))))
          | inr long ↦
              let (full, same) = fill-long base.body_len base.body a b (ltb→le _ _ long) in
              rw same (
                check_body-full h base payload _ _ full
                ∙ append_data-append (record base { body = (fill base.body_len base.body a).0 })
                    payload _ b full
                ∙ sym (ap (λ r. and_then r (next b)) (check_body-full h base payload _ _ full)))
        ]

    pub append_body-append :
        (base : MessageBase) (payload : Payload) (a b : Bytes)
        → append_body host aligned_alloc h base payload (a ++ b)
          ≡ and_then (append_body host aligned_alloc h base payload a) (next b)
    unfolding append_body
    append_body-append base payload a b = elim (Bool-cases (ltb (length base.body) base.body_len)) [
      | inl wants ↦ rw wants (check_body-append base payload a b (ltb→lt _ _ wants))
      | inr full ↦ rw full (append_data-append base payload a b (ltb→le _ _ full))
    ]
