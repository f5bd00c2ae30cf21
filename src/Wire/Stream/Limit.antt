-- ===== src/Wire/Stream/Limit.antt =====
-- The size limit that FcopyMessage::append holds a head against.
use fcopy.Base.{
  ℕ, ◌+◌, ◌-◌, ◌%◌, ◌^◌, ◌≤◌, ◌<◌, ◌≡◌, refl, ap, ◌∙◌, Bytes, [], ◌++◌, Option, some, true, lt→ltb,
  length, ◌==◌, false, min, arith,
}
use fcopy.Base.Int.{pos}
use fcopy.Wire.Ints.{Endian}
use fcopy.Wire.Messages.{
  Payload, fresh, this_cmd, code, Command, create_message, create_message-this_cmd,
}
use fcopy.Wire.Head.{MessageBase, header_size, new_message}
use fcopy.Wire.Head.RoundTrip.{IsHead, head_bytes, length-head_bytes, decode_head-eq, take_head}
use fcopy.Wire.Stream.{pending, failed, emsgsize, empty, append, enter_message, fill, check_body}
use fcopy.Wire.Stream.Parts.{check_body-pending, resume_body}
use fcopy.Wire.Stream.Delivery.{append-head, enter_message-known}

-- A head of some known class of messages.
pub record IsKnown (h : MessageBase) (m : Payload) : Type 0 where
  pub head : IsHead h
  pub class : h.command ≡ code (this_cmd m)
  pub known : (code (this_cmd m) == code Command.unknown) ≡ false

made : (h : MessageBase) (m : Payload) → IsKnown h m → create_message h.command ≡ some (fresh m)
made h m k = ap create_message k.class ∙ create_message-this_cmd m ∙ rw k.known refl

enter_message-over :
    (host : Endian) (alloc : ℕ → Option Bytes) (limit : ℕ) (head rest : Bytes) (base : MessageBase)
    (payload : Payload)
    → create_message base.command ≡ some payload
    → limit < (base.body_len + base.data_len) % 2 ^ 32 + header_size
    → enter_message host alloc limit head (base, true) rest ≡ failed emsgsize
unfolding enter_message
enter_message-over host alloc limit head rest base payload m over =
    let e = lt→ltb limit ((base.body_len + base.data_len) % 2 ^ 32 + header_size) over in
    rw (m, e, enter_message) refl

-- A head of a known class whose lengths do not wrap, and whose message is larger than the limit,
-- is refused with EMSGSIZE as soon as it is complete, whatever bytes follow it.
pub append_over_limit :
    (host : Endian) (alloc : ℕ → Option Bytes) (limit : ℕ) (h : MessageBase) (m : Payload)
    (rest : Bytes)
    → IsKnown h m
    → h.body_len + h.data_len < 2 ^ 32
    → limit < h.body_len + h.data_len + header_size
    → append host alloc limit empty (head_bytes h ++ rest) ≡ failed emsgsize
unfolding new_message
append_over_limit host alloc limit h m rest k small over =
    append-head host alloc limit (head_bytes h) rest (length-head_bytes h)
    ∙ ap (λ d. enter_message host alloc limit (head_bytes h) d rest)
        (decode_head-eq host _ h k.head)
    ∙ enter_message-over host alloc limit (head_bytes h) rest
        (take_head (new_message (code Command.unknown) (pos 0)) h) (fresh m) (made h m k)
        (omega arith)

fill_nothing : (n : ℕ) → fill n [] [] ≡ ([], [])
unfolding fill
fill_nothing n =
    let none_taken : min (length {A = ℕ} []) (n - length {A = ℕ} []) ≡ 0 = omega arith in
    rw none_taken

-- The sum of the two lengths wraps before it meets the limit: a head of a known class, with a body,
-- whose lengths add up to 2 ^ 32 or more is let through whenever the rest of the sum is within the
-- limit, and the parser waits for the body.
pub append_wraps_limit :
    (host : Endian) (alloc : ℕ → Option Bytes) (limit : ℕ) (h : MessageBase) (m : Payload)
    → IsKnown h m
    → 0 < h.body_len
    → 2 ^ 32 ≤ h.body_len + h.data_len
    → h.body_len + h.data_len - 2 ^ 32 + header_size ≤ limit
    → append host alloc limit empty (head_bytes h ++ [])
      ≡ pending (record {
        head = head_bytes h;
        message = some (record {
          base = take_head (new_message (code Command.unknown) (pos 0)) h;
          payload = fresh m;
        });
      })
unfolding new_message
append_wraps_limit host alloc limit h m k body wraps room =
    append-head host alloc limit (head_bytes h) [] (length-head_bytes h)
    ∙ ap (λ d. enter_message host alloc limit (head_bytes h) d []) (decode_head-eq host _ h k.head)
    ∙ enter_message-known host alloc limit (head_bytes h) [] base (fresh m) (made h m k)
        (omega (arith, k.head.body_fits, k.head.data_fits))
    ∙ resume_body host alloc (head_bytes h) base (fresh m) [] [] body
    ∙ ap (check_body host alloc (head_bytes h) base (fresh m)) (fill_nothing h.body_len)
    ∙ check_body-pending host alloc (head_bytes h) base (fresh m) [] [] body
  where
    base : MessageBase
    base = take_head (new_message (code Command.unknown) (pos 0)) h
