-- ===== src/Wire/Stream/Bounds.antt =====
-- The parser stays within its buffers, and a message that it completes has all of its bytes.
use fcopy.Base.{
  ℕ, zero, suc, ◌+◌, ◌%◌, ◌^◌, ◌≤◌, ◌<◌, ◌≡◌, refl, sym, ap, subst, Bytes, List, [], ◌∷◌, Option,
  none, some, Bool, true, false, ltb, lt→ltb, le→ltb, ltb→lt, ltb→le, length, Bool-cases,
  Option-cases, inl, inr, ◌⊎◌, ◌==◌, arith,
}
use fcopy.Base.Int.{pos}
use fcopy.Wire.Ints.{Endian}
use fcopy.Wire.Messages.{code, Command, create_message}
use fcopy.Wire.Head.{MessageBase, header_size, new_message, decode_head}
use fcopy.Wire.Stream.Chunks.{check_head-full}
use fcopy.Wire.Stream.{
  Message, Stream, Progress, pending, complete, failed, empty, and_then, enter_message,
  continue_message, check_head, append, append_all,
}
use fcopy.Wire.Stream.Buffers.{Sized, IsPartial, StreamFits, Sound, append_body-Sound}

and_then-Sound :
    (r : Progress) (next : Stream → Progress)
    → Sound r
    → ((s : Stream) → StreamFits s → Sound (next s))
    → Sound (and_then r next)
and_then-Sound (pending s) next f keep = keep s f
and_then-Sound (complete s) next w keep = w
and_then-Sound (failed e) next u keep = tt

-- A base that has only read its head.
record IsNew (base : MessageBase) : Type 0 where
  body_empty : base.body ≡ []
  pos_zero : base.data_pos ≡ 0
  no_view : base.data_view ≡ []
  no_buffer : base.buffer ≡ none

IsNew-IsPartial : (base : MessageBase) → IsNew base → IsPartial base
IsNew-IsPartial base n = record {
  body_within = omega (arith, ap length n.body_empty);
  data_open = unread base.data_len;
  position_within = omega (arith, n.pos_zero);
  view_empty = n.no_view;
  buffer_fits = rw n.no_buffer tt;
}
  where
    unread : (len : ℕ) → (base.data_pos < len) ⊎ (len ≡ 0)
    unread zero = inr refl
    unread (suc k) = inl (omega (arith, n.pos_zero))

decode_head-IsNew :
    (host : Endian) (head : Bytes)
    → IsNew (decode_head host (new_message (code Command.unknown) (pos 0)) head).0
unfolding decode_head new_message
decode_head-IsNew host head = elim (Bool-cases (length head == header_size)) [
  | inl sized ↦
      rw sized (record { body_empty = refl; pos_zero = refl; no_view = refl; no_buffer = refl })
  | inr other ↦
      rw other (record { body_empty = refl; pos_zero = refl; no_view = refl; no_buffer = refl })
]

module _ (host : Endian) (alloc : ℕ → Option Bytes) (sized : Sized alloc) (limit : ℕ) where
  enter_message-Sound :
      (head : Bytes) (entry : MessageBase × Bool) (buf : Bytes)
      → header_size ≤ length head
      → IsPartial entry.0
      → Sound (enter_message host alloc limit head entry buf)
  unfolding enter_message
  enter_message-Sound head (base, false) buf long v = tt
  enter_message-Sound head (base, true) buf long v =
      elim (Option-cases (create_message base.command)) [
        | inl unknown ↦ rw (unknown, enter_message) tt
        | inr (payload, known) ↦
            elim (Bool-cases (ltb limit ((base.body_len + base.data_len) % 2 ^ 32 + header_size))) [
              | inl over ↦ rw (known, over, enter_message) tt
              | inr room ↦
                  rw (known, room, enter_message)
                    (append_body-Sound host alloc sized head long base payload buf v)
            ]
      ]

  check_head-Sound :
      (s : Stream) (head rest : Bytes)
      → s.message ≡ none
      → Sound (check_head host alloc limit s (head, rest))
  check_head-Sound s head rest null = elim (Bool-cases (ltb (length head) header_size)) [
    | inl more ↦ unfold check_head in rw (more, null) (ltb→lt _ _ more)
    | inr full ↦
        subst Sound (sym (check_head-full host alloc limit s head rest (ltb→le _ _ full))) (
          enter_message-Sound head _ rest (ltb→le _ _ full)
            (IsNew-IsPartial _ (decode_head-IsNew host head)))
  ]

  -- If every buffer of aligned_alloc has the size asked for, then each append to a state within its
  -- bounds leaves such a state, or completes a message with a body and data of exactly the lengths
  -- of its head, or fails.
  pub append-Sound :
      (s : Stream) (buf : Bytes) → StreamFits s → Sound (append host alloc limit s buf)
  append-Sound s buf fits = by_message s.head s.message fits
    where
      by_message :
          (head : Bytes) (message : Option Message)
          → StreamFits (record { head = head; message = message })
          → Sound (append host alloc limit (record { head = head; message = message }) buf)
      by_message head none short =
          unfold append in
          rw (lt→ltb (length head) header_size short)
            (check_head-Sound (record { head = head; message = none }) _ _ refl)
      by_message head (some m) (long, v) =
          unfold append continue_message in
          rw (le→ltb (length head) header_size long)
            (append_body-Sound host alloc sized head long m.base m.payload buf v)

  chunks-Sound :
      (bufs : List Bytes) (s : Stream) → StreamFits s → Sound (append_all host alloc limit s bufs)
  unfolding append_all
  chunks-Sound [] s fits = fits
  chunks-Sound (buf ∷ bufs) s fits =
      and_then-Sound (append host alloc limit s buf) _ (append-Sound s buf fits)
        (λ s' f. chunks-Sound bufs s' f)

  -- If every buffer of aligned_alloc has the size asked for: while the parser waits for more of a
  -- connection's bytes, the body that it has is within the length of the head, the data position
  -- within the data, and the buffer as long as the data; a message that it completes has a body
  -- and data of exactly the lengths of its head, and its copies ended where the data ends.
  pub append_all-Sound : (bufs : List Bytes) → Sound (append_all host alloc limit empty bufs)
  append_all-Sound bufs = chunks-Sound bufs empty (omega arith)
