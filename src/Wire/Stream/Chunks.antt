-- ===== src/Wire/Stream/Chunks.antt =====
-- How the bytes of a connection are cut into chunks does not matter to FcopyMessage::append.
use fcopy.Base.{
  ℕ, ◌+◌, ◌-◌, ◌%◌, ◌^◌, ◌≤◌, ◌<◌, ◌≡◌, refl, sym, ap, ◌∙◌, Bytes, List, [], ◌∷◌, ◌++◌, Option,
  some, length, length-append, ltb, ltb→lt, ltb→le, lt→ltb, le→ltb, Bool-cases, inl, inr,
  append-nil, fun_ext, Option-cases, true, false, arith,
}
use fcopy.Base.Int.{pos}
use fcopy.Wire.Ints.{Endian}
use mathlib.Core.List.{flatten}
use mathlib.Core.Bool.{Bool}
use fcopy.Wire.Messages.{Payload, create_message, code, Command}
use fcopy.Wire.Head.{MessageBase, header_size, decode_head, new_message}
use fcopy.Wire.Stream.{
  Stream, Progress, pending, complete, failed, fill, check_head, append_body, enter_message,
  continue_message, append, append_all, empty, and_then,
}
use fcopy.Wire.Stream.Copies.{fill-short, fill-long}
use fcopy.Wire.Stream.Parts.{append_body-append}

module _ (host : Endian) (aligned_alloc : ℕ → Option Bytes) (limit : ℕ) where
  -- An append to a message whose head is complete.
  append-opened :
      (h : Bytes) (base : MessageBase) (payload : Payload) (b : Bytes)
      → header_size ≤ length h
      → append host aligned_alloc limit
          (record { head = h; message = some (record { base = base; payload = payload }) })
          b
        ≡ append_body host aligned_alloc h base payload b
  unfolding append continue_message
  append-opened h base payload b long = rw (le→ltb (length h) header_size long)

  -- The next append, wherever the head is complete.
  resumed :
      (h : Bytes) (base : MessageBase) (payload : Payload) (a b : Bytes)
      → header_size ≤ length h
      → append_body host aligned_alloc h base payload (a ++ b)
        ≡ and_then
            (append_body host aligned_alloc h base payload a)
            (λ s. append host aligned_alloc limit s b)
  resumed h base payload a b long =
      append_body-append host aligned_alloc (λ c s. append host aligned_alloc limit s c) h
        (λ base' payload' c. append-opened h base' payload' c long) base payload a b

  enter_message-append :
      (h : Bytes) (entry : MessageBase × Bool) (a b : Bytes)
      → header_size ≤ length h
      → enter_message host aligned_alloc limit h entry (a ++ b)
        ≡ and_then
            (enter_message host aligned_alloc limit h entry a)
            (λ s. append host aligned_alloc limit s b)
  unfolding enter_message
  enter_message-append h (base, false) a b long = refl
  enter_message-append h (base, true) a b long = elim (Option-cases (create_message base.command)) [
    | inl unknown ↦ rw (unknown, enter_message)
    | inr (payload, made) ↦
        let total = (base.body_len + base.data_len) % 2 ^ 32 + header_size in
        elim (Bool-cases (ltb limit total)) [
          | inl over ↦ rw (made, over, enter_message)
          | inr fits ↦ rw (made, fits, enter_message) (resumed h base payload a b long)
        ]
  ]

  continue_message-append :
      (s : Stream) (a b : Bytes)
      → header_size ≤ length s.head
      → continue_message host aligned_alloc limit s (a ++ b)
        ≡ and_then
            (continue_message host aligned_alloc limit s a)
            (λ s'. append host aligned_alloc limit s' b)
  unfolding continue_message
  continue_message-append s a b long = elim (Option-cases s.message) [
    | inl null ↦ rw (null, continue_message)
    | inr (m, there) ↦ rw (there, continue_message) (resumed s.head m.base m.payload a b long)
  ]

  check_head-pending :
      (s : Stream) (head rest : Bytes)
      → length head < header_size
      → check_head host aligned_alloc limit s (head, rest) ≡ pending (record s { head = head })
  unfolding check_head
  check_head-pending s head rest more = rw (lt→ltb (length head) header_size more)

  pub check_head-full :
      (s : Stream) (head rest : Bytes)
      → header_size ≤ length head
      → check_head host aligned_alloc limit s (head, rest)
        ≡ enter_message host aligned_alloc limit head
            (decode_head host (new_message (code Command.unknown) (pos 0)) head)
            rest
  unfolding check_head
  check_head-full s head rest full = rw (le→ltb (length head) header_size full)

  -- An append where part of the head is there.
  pub resume_head :
      (s : Stream) (head b : Bytes)
      → length head < header_size
      → append host aligned_alloc limit (record s { head = head }) b
        ≡ check_head host aligned_alloc limit s (fill header_size head b)
  unfolding append
  resume_head s head b wants = rw (lt→ltb (length head) header_size wants)

  check_head-append :
      (s : Stream) (a b : Bytes)
      → length s.head < header_size
      → check_head host aligned_alloc limit s (fill header_size s.head (a ++ b))
        ≡ and_then
            (check_head host aligned_alloc limit s (fill header_size s.head a))
            (λ s'. append host aligned_alloc limit s' b)
  check_head-append s a b wants = elim (Bool-cases (ltb (length a) (header_size - length s.head))) [
    | inl short ↦
        let (all, same) = fill-short header_size s.head a b (ltb→lt _ _ short) in
        let grows : length (s.head ++ a) < header_size =
          omega (arith, length-append s.head a, ltb→lt _ _ short) in
        rw (same, all)
          (sym (
            ap (λ r. and_then r (λ s'. append host aligned_alloc limit s' b))
              (check_head-pending s (s.head ++ a) [] grows)
            ∙ resume_head s (s.head ++ a) b grows))
    | inr long ↦
        let (full, same) = fill-long header_size s.head a b (ltb→le _ _ long) in
        rw same (
          check_head-full s _ _ full
          ∙ enter_message-append _ _ _ b full
          ∙ sym (
              ap (λ r. and_then r (λ s'. append host aligned_alloc limit s' b))
                (check_head-full s _ _ full)))
  ]

  -- Two appends, the second of which is made only while the message is not finished, do what one
  -- append of both chunks does, in every state of the parser.
  pub append-append :
      (s : Stream) (a b : Bytes)
      → append host aligned_alloc limit s (a ++ b)
        ≡ and_then
            (append host aligned_alloc limit s a)
            (λ s'. append host aligned_alloc limit s' b)
  unfolding append
  append-append s a b = elim (Bool-cases (ltb (length s.head) header_size)) [
    | inl wants ↦ rw (wants, append) (check_head-append s a b (ltb→lt _ _ wants))
    | inr full ↦ rw (full, append) (continue_message-append s a b (ltb→le _ _ full))
  ]

  and_then-pending : (r : Progress) → and_then r pending ≡ r
  and_then-pending (pending s) = refl
  and_then-pending (complete s) = refl
  and_then-pending (failed e) = refl

  -- The chunks of a connection, at least one, do what one append of them joined does.
  pub append_all-append :
      (s : Stream) (buf : Bytes) (bufs : List Bytes)
      → append_all host aligned_alloc limit s (buf ∷ bufs)
        ≡ append host aligned_alloc limit s (buf ++ flatten bufs)
  unfolding append_all flatten
  append_all-append s buf [] =
      and_then-pending (append host aligned_alloc limit s buf)
      ∙ ap (append host aligned_alloc limit s) (sym (append-nil buf))
  append_all-append s buf (next ∷ bufs) =
      ap (and_then (append host aligned_alloc limit s buf))
        (fun_ext (λ s'. append_all-append s' next bufs))
      ∙ sym (append-append s buf (next ++ flatten bufs))

-- However a connection cuts its bytes into chunks, the parser comes to the state, the message or
-- the refusal that one append of all the bytes comes to.
pub append_all-flatten :
    (host : Endian) (aligned_alloc : ℕ → Option Bytes) (limit : ℕ) (bufs : List Bytes)
    → append_all host aligned_alloc limit empty bufs
      ≡ append host aligned_alloc limit empty (flatten bufs)
unfolding append_all append flatten
append_all-flatten host aligned_alloc limit [] = refl
append_all-flatten host aligned_alloc limit (buf ∷ bufs) =
    append_all-append host aligned_alloc limit empty buf bufs
