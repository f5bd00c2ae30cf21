-- ===== src/Wire/Stream/Buffers.antt =====
-- MessageBase::append_body stays within its buffers.
use fcopy.Base.{
  ℕ, zero, suc, ◌-◌, ◌≤◌, ◌<◌, ◌≡◌, refl, ap, ◌∙◌, Bytes, [], ◌∷◌, Option, none, some, ltb, ltb→lt,
  ltb→le, length, length-append, length-take, take, min, Bool-cases, Option-cases, inl, inr, ◌⊎◌,
  arith,
}
use fcopy.Wire.Ints.{Endian}
use fcopy.Wire.Messages.{Payload}
use fcopy.Wire.Bodies.{decode_body}
use fcopy.Wire.Head.{MessageBase, header_size}
use fcopy.Wire.Stream.{
  Stream, Progress, pending, complete, failed, write_at, data_buffer, finish_body, check_data,
  append_data, check_body, append_body,
}

-- Every buffer that aligned_alloc answers has the size that was asked for.
abbrev pub Sized : (ℕ → Option Bytes) → Type 0
Sized alloc = (n : ℕ) (p : Bytes) → alloc n ≡ some p → length p ≡ n

-- A buffer of the message is as long as its data.
abbrev BufferFits : ℕ → Option Bytes → Type 0
BufferFits size none = Unit {0}
BufferFits size (some p) = length p ≡ size

-- What the base of a message that is still read satisfies.
pub record IsPartial (base : MessageBase) : Type 0 where
  pub body_within : length base.body ≤ base.body_len
  pub data_open : (base.data_pos < base.data_len) ⊎ (base.data_len ≡ 0)
  pub position_within : base.data_pos ≤ base.data_len
  pub view_empty : base.data_view ≡ []
  pub buffer_fits : BufferFits base.data_len base.buffer

-- The body and the data are as long as the head says, and the copies ended where the data ends.
pub record IsWhole (base : MessageBase) : Type 0 where
  pub body_whole : length base.body ≡ base.body_len
  pub data_whole : length base.data_view ≡ base.data_len
  pub position_end : base.data_pos ≡ base.data_len

abbrev pub StreamFits : Stream → Type 0
StreamFits s = elim s.message [
  | none ↦ length s.head < header_size
  | some m ↦ (header_size ≤ length s.head) × IsPartial m.base
]

abbrev pub Whole : Stream → Type 0
Whole s = elim s.message [ none ↦ ⊥ | some m ↦ IsWhole m.base ]

-- What an append leaves.
abbrev pub Sound : Progress → Type 0
Sound (pending s) = StreamFits s
Sound (complete s) = Whole s
Sound (failed e) = Unit {0}

length-write_at : (p : Bytes) (at : ℕ) (bs : Bytes) → length (write_at p at bs) ≡ length p
unfolding write_at
length-write_at [] at bs = refl
length-write_at (x ∷ p) zero [] = refl
length-write_at (x ∷ p) zero (b ∷ bs) = ap suc (length-write_at p zero bs)
length-write_at (x ∷ p) (suc at) bs = ap suc (length-write_at p at bs)

module _ (host : Endian) (head : Bytes) (long : header_size ≤ length head) where
  finish_body-Sound :
      (base : MessageBase) (payload : Payload)
      → IsWhole base
      → Sound (finish_body host head base payload)
  unfolding finish_body
  finish_body-Sound base payload w = elim (Option-cases (decode_body host payload base.body)) [
    | inl bad ↦ rw (bad, finish_body) tt
    | inr (m, good) ↦ rw (good, finish_body) w
  ]

  check_data-Sound :
      (base : MessageBase) (payload : Payload) (p : Bytes) (at : ℕ)
      → length base.body ≡ base.body_len
      → base.data_view ≡ []
      → length p ≡ base.data_len
      → at ≤ base.data_len
      → Sound (check_data host head base payload (p, at))
  unfolding check_data
  check_data-Sound base payload p at body view len within =
      elim (Bool-cases (ltb at base.data_len)) [
        | inl more ↦
            rw (more, check_data)
              (
                long,
                record {
                  body_within = omega arith;
                  data_open = inl (ltb→lt _ _ more);
                  position_within = within;
                  view_empty = view;
                  buffer_fits = len;
                },
              )
        | inr full ↦
            rw (full, check_data)
              (finish_body-Sound _ payload (record {
                body_whole = body;
                data_whole = omega (arith, length-take base.data_len p);
                position_end = omega (arith, ltb→le _ _ full);
              }))
      ]

module _ (host : Endian) (alloc : ℕ → Option Bytes) (sized : Sized alloc) (head : Bytes)
    (long : header_size ≤ length head) where
  append_data-Sound :
      (base : MessageBase) (payload : Payload) (buf : Bytes)
      → length base.body ≡ base.body_len
      → IsPartial base
      → Sound (append_data host alloc head base payload buf)
  unfolding append_data
  append_data-Sound base payload buf body v = elim (Bool-cases (ltb base.data_pos base.data_len)) [
    | inl wants ↦ elim (Option-cases (data_buffer alloc base)) [
      | inl null ↦ rw (wants, null) tt
      | inr (p, got) ↦
          rw (wants, got)
            (check_data-Sound host head long base payload _ _ body v.view_empty
              (length-write_at p base.data_pos _
                ∙ buffer_size base.data_len base.buffer v.buffer_fits p got)
              (omega (arith, v.position_within)))
    ]
    | inr full ↦ rw full (
        finish_body-Sound host head long base payload (record {
          body_whole = body;
          data_whole = ends v.data_open (ltb→le _ _ full);
          position_end = omega (arith, v.position_within, ltb→le _ _ full);
        }))
  ]
    where
      buffer_size :
          (size : ℕ) (b : Option Bytes)
          → BufferFits size b
          → (p : Bytes)
          → (elim b as (λ x. Option Bytes) [ none ↦ alloc size | some q ↦ some q ]) ≡ some p
          → length p ≡ size
      buffer_size size none f p e = sized size p e
      buffer_size size (some q) f p e = let same : q ≡ p = cc in rw (← same) f

      ends :
          (base.data_pos < base.data_len) ⊎ (base.data_len ≡ 0)
          → base.data_len ≤ base.data_pos
          → length base.data_view ≡ base.data_len
      ends (inl lt) le = absurd (omega arith)
      ends (inr z) le = omega (arith, ap length v.view_empty)

  check_body-Sound :
      (base : MessageBase) (payload : Payload) (body rest : Bytes)
      → length body ≤ base.body_len
      → IsPartial base
      → Sound (check_body host alloc head base payload (body, rest))
  unfolding check_body
  check_body-Sound base payload body rest within v =
      elim (Bool-cases (ltb (length body) base.body_len)) [
        | inl more ↦ rw (more, check_body) (long, grown)
        | inr full ↦
            rw (full, check_body)
              (append_data-Sound _ payload rest (omega (arith, ltb→le _ _ full)) grown)
      ]
    where
      grown : IsPartial (record base { body = body })
      grown = record {
        body_within = within;
        data_open = v.data_open;
        position_within = v.position_within;
        view_empty = v.view_empty;
        buffer_fits = v.buffer_fits;
      }

  pub append_body-Sound :
      (base : MessageBase) (payload : Payload) (buf : Bytes)
      → IsPartial base
      → Sound (append_body host alloc head base payload buf)
  unfolding append_body
  append_body-Sound base payload buf v = elim (Bool-cases (ltb (length base.body) base.body_len)) [
    | inl wants ↦ rw wants (
        check_body-Sound base payload _ _
          (omega (
            arith,
            v.body_within,
            length-append base.body
                (take (min (length buf) (base.body_len - length base.body)) buf),
            length-take (min (length buf) (base.body_len - length base.body)) buf,
          ))
          v)
    | inr full ↦
        rw full
          (append_data-Sound base payload buf (omega (arith, v.body_within, ltb→le _ _ full)) v)
  ]
