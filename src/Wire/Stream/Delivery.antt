-- ===== src/Wire/Stream/Delivery.antt =====
-- A message that FcopyMessage::encode wrote arrives: FcopyMessage::append makes an object of the
-- same class of it, with the same members, error and data.
use fcopy.Base.{
  ℕ, ◌+◌, ◌-◌, ◌%◌, ◌^◌, ◌≤◌, ◌≡◌, refl, sym, ap, ◌∙◌, Bytes, List, [], ◌∷◌, ◌++◌, Option, none,
  some, true, length, length-append, take, take_all, drop_all, take-append_left, drop-append_left,
  min, lt→ltb, le→ltb, arith,
}
use mathlib.Core.List.{flatten}
use fcopy.Base.Int.{pos}
use fcopy.Wire.Ints.{Endian}
use fcopy.Wire.Messages.{Payload, fresh, code, Command, create_message, create_message-this_cmd}
use fcopy.Wire.Bodies.Format.{Fits, body_bytes}
use fcopy.Wire.Bodies.RoundTrip.{decode_body-At}
use fcopy.Wire.Head.{MessageBase, header_size, new_message, decode_head}
use fcopy.Wire.Head.RoundTrip.{head_bytes, length-head_bytes, decode_head-eq, take_head}
use fcopy.Wire.Stream.{
  Message, Stream, empty, Progress, complete, write_at, fill, encode, copy_data, check_data,
  finish_body, append_data, check_body, append_body, enter_message, check_head, append, append_all,
}
use fcopy.Wire.Stream.Chunks.{append_all-flatten, resume_head, check_head-full}
use fcopy.Wire.Stream.Parts.{resume_body, check_body-full}
use fcopy.Wire.Stream.Sent.{IsSendable, sent_base, wire_bytes, sent_base-IsHead, encode-eq}

-- aligned_alloc answers every size with a buffer of that size.
abbrev pub Allocates : (ℕ → Option Bytes) → Type 0
Allocates alloc = (n : ℕ) → (p : Bytes) × (alloc n ≡ some p) × (length p ≡ n)

-- A copy of the whole buffer leaves nothing of what was there.
write_at_all : (p bs : Bytes) → length p ≡ length bs → write_at p 0 bs ≡ bs
unfolding write_at
write_at_all [] [] e = refl
write_at_all [] (b ∷ bs) e = absurd (omega arith)
write_at_all (x ∷ p) [] e = absurd (omega arith)
write_at_all (x ∷ p) (b ∷ bs) e = ap (◌∷◌ b) (write_at_all p bs (omega arith))

fill_exact : (a b : Bytes) → fill (length a) [] (a ++ b) ≡ (a, b)
unfolding fill
fill_exact a b =
    let n : min (length (a ++ b)) (length a - 0) ≡ length a = omega (arith, length-append a b) in
    rw (
      n,
      take-append_left (length a) a b (omega arith),
      drop-append_left (length a) a b (omega arith),
      take_all (length a) a (omega arith),
      drop_all (length a) a (omega arith),
    )

-- The result is a complete message with these members, error and data.
abbrev pub Arrives : Progress → Message → Type 0
Arrives r m =
    (s : Stream) × (base : MessageBase) × (r ≡ complete s)
    × (s.message ≡ some (record { base = base; payload = m.payload }))
    × (base.command ≡ m.base.command)
    × (base.error ≡ m.base.error)
    × (base.data_view ≡ m.base.data_view)

-- A base before its data: the members of a head, and a body.
abbrev arriving : MessageBase → Bytes → MessageBase
arriving h body = record h { data_pos = 0; body = body; buffer = none; data_view = [] }

module _ (host : Endian) (alloc : ℕ → Option Bytes) (allocates : Allocates alloc) where
  finish_body-At :
      (head : Bytes) (base : MessageBase) (m : Payload)
      → Fits m
      → base.body ≡ body_bytes m
      → finish_body host head base (fresh m)
        ≡ complete (record { head = head; message = some (record { base = base; payload = m }) })
  unfolding finish_body
  finish_body-At head base m fits e =
      rw (decode_body-At host m base.body fits (e, omega arith), finish_body)

  copy_data-all :
      (h : MessageBase) (body p view : Bytes)
      → h.data_len ≡ length view
      → length p ≡ length view
      → copy_data (arriving h body) p view ≡ (view, length view)
  unfolding copy_data
  copy_data-all h body p view len room =
      let n : min (length view) (h.data_len - 0) ≡ length view = omega arith in
      rw (n, take_all (length view) view (omega arith), write_at_all p view room)
        (ap (λ k. (view, k)) (omega arith))

  check_data-all :
      (head : Bytes) (base : MessageBase) (m : Payload) (view : Bytes)
      → Fits m
      → base.body ≡ body_bytes m
      → base.data_len ≡ length view
      → check_data host head base (fresh m) (view, length view)
        ≡ complete (record {
          head = head;
          message = some (record {
            base = record base { data_pos = length view; buffer = some view; data_view = view };
            payload = m;
          });
        })
  check_data-all head base m view fits e len =
      check_data-done
      ∙ finish_body-At head _ m fits e
      ∙ ap
          (λ v. complete (record {
            head = head;
            message = some (record {
              base = record base { data_pos = length view; buffer = some view; data_view = v };
              payload = m;
            });
          }))
          (take_all base.data_len view (omega arith))
    where
      check_data-done :
          check_data host head base (fresh m) (view, length view)
          ≡ finish_body host head
              (record base {
                data_pos = length view;
                buffer = some view;
                data_view = take base.data_len view;
              })
              (fresh m)
      check_data-done =
          unfold check_data in rw (le→ltb (length view) base.data_len (omega arith)) refl

  -- The data arrives whole.
  append_data-all :
      (head : Bytes) (h : MessageBase) (body : Bytes) (m : Payload) (view : Bytes)
      → Fits m
      → body ≡ body_bytes m
      → h.data_len ≡ length view
      → (at : ℕ) × (buffer : Option Bytes) × (append_data host alloc head
            (arriving h body)
            (fresh m)
            view
          ≡ complete (record {
            head = head;
            message = some (record {
              base = record h { data_pos = at; body = body; buffer = buffer; data_view = view };
              payload = m;
            });
          }))
  unfolding append_data
  append_data-all head h body m [] fits e len = (
    0,
    none,
    rw (le→ltb 0 h.data_len (omega arith)) (finish_body-At head (arriving h body) m fits e),
  )
  append_data-all head h body m (b ∷ view) fits e len =
      let (p, got, room) = allocates h.data_len in
      (
        length (b ∷ view),
        some (b ∷ view),
        rw (lt→ltb 0 h.data_len (omega arith), got)
            (ap (check_data host head (arriving h body) (fresh m))
                (copy_data-all h body p (b ∷ view) len (omega arith))
              ∙ check_data-all head (arriving h body) m (b ∷ view) fits e len),
      )

  append_body-all :
      (head : Bytes) (h : MessageBase) (m : Payload) (view : Bytes)
      → Fits m
      → h.body_len ≡ length (body_bytes m)
      → h.data_len ≡ length view
      → (at : ℕ) × (buffer : Option Bytes) × (append_body host alloc head
            (arriving h [])
            (fresh m)
            (body_bytes m ++ view)
          ≡ complete (record {
            head = head;
            message = some (record {
              base = record h {
                data_pos = at;
                body = body_bytes m;
                buffer = buffer;
                data_view = view;
              };
              payload = m;
            });
          }))
  append_body-all head h m view fits body_len len =
      let (at, buffer, done) = append_data-all head h (body_bytes m) m view fits refl len in
      (at, buffer, append_body-data head h m (body_bytes m) view body_len ∙ done)
    where
      append_body-data :
          (head : Bytes) (h : MessageBase) (m : Payload) (body view : Bytes)
          → h.body_len ≡ length body
          → append_body host alloc head (arriving h []) (fresh m) (body ++ view)
            ≡ append_data host alloc head (arriving h body) (fresh m) view
      append_body-data head h m [] view e =
          unfold append_body in rw (le→ltb 0 h.body_len (omega arith)) refl
      append_body-data head h m (b ∷ body) view e =
          resume_body host alloc head (arriving h []) (fresh m) [] (b ∷ body ++ view) (omega arith)
          ∙ ap (check_body host alloc head (arriving h []) (fresh m))
              (ap (λ k. fill k [] (b ∷ body ++ view)) e ∙ fill_exact (b ∷ body) view)
          ∙ check_body-full host alloc head (arriving h []) (fresh m) (b ∷ body) view (omega arith)

-- A head that is complete is decoded.
pub append-head :
    (host : Endian) (alloc : ℕ → Option Bytes) (limit : ℕ) (head rest : Bytes)
    → length head ≡ header_size
    → append host alloc limit empty (head ++ rest)
      ≡ enter_message host alloc limit head
          (decode_head host (new_message (code Command.unknown) (pos 0)) head)
          rest
append-head host alloc limit head rest len =
    resume_head host alloc limit empty [] (head ++ rest) (omega arith)
    ∙ ap (check_head host alloc limit empty)
        (ap (λ k. fill k [] (head ++ rest)) (sym len) ∙ fill_exact head rest)
    ∙ check_head-full host alloc limit empty head rest (omega arith)

-- What the message leaves room for in the limit of the receiving server.
abbrev pub WithinLimit : ℕ → Message → Type 0
WithinLimit limit m = length (body_bytes m.payload) + length m.base.data_view + header_size ≤ limit

-- A head within the limit, of a known class, is entered.
pub enter_message-known :
    (host : Endian) (alloc : ℕ → Option Bytes) (limit : ℕ) (head rest : Bytes) (base : MessageBase)
    (payload : Payload)
    → create_message base.command ≡ some payload
    → (base.body_len + base.data_len) % 2 ^ 32 + header_size ≤ limit
    → enter_message host alloc limit head (base, true) rest
      ≡ append_body host alloc head base payload rest
unfolding enter_message
enter_message-known host alloc limit head rest base payload made room =
    let fits = le→ltb limit ((base.body_len + base.data_len) % 2 ^ 32 + header_size) room in
    rw (made, fits, enter_message) refl

append-wire_bytes :
    (writer reader : Endian) (alloc : ℕ → Option Bytes) (limit : ℕ) (m : Message)
    → Allocates alloc
    → IsSendable m
    → WithinLimit limit m
    → Arrives (append reader alloc limit empty (wire_bytes writer m)) m
unfolding new_message
append-wire_bytes writer reader alloc limit m allocates s room =
    let view = m.base.data_view in
    let sent : MessageBase = sent_base writer m in
    let head : Bytes = head_bytes sent in
    let rest : Bytes = body_bytes m.payload ++ view in
    let h : MessageBase = take_head (new_message (code Command.unknown) (pos 0)) sent in
    let (at, buffer, done) =
      append_body-all reader alloc allocates head h m.payload view s.members refl s.data_sized in
    let made : create_message m.base.command ≡ some (fresh m.payload) =
      ap create_message s.class ∙ create_message-this_cmd m.payload ∙ rw s.known refl in
    let small : (length (body_bytes m.payload) + m.base.data_len) % 2 ^ 32 + header_size ≤ limit =
      omega (arith, s.total, s.data_sized) in
    (
      _,
      record h { data_pos = at; body = body_bytes m.payload; buffer = buffer; data_view = view },
      append-head reader alloc limit head rest (length-head_bytes sent)
          ∙ ap (λ d. enter_message reader alloc limit head d rest)
              (decode_head-eq reader _ sent (sent_base-IsHead writer m s))
          ∙ enter_message-known reader alloc limit head rest h (fresh m.payload) made small
          ∙ done,
      refl,
      refl,
      refl,
      refl,
    )

-- FcopyMessage::encode succeeds on a message of a class other than UNKNOWN that its constructor and
-- setters made, whose members fit their types, whose body and data are shorter than 2^32 bytes
-- together, and which has data only if it is a SendFileReq. If the message
-- fits the limit of the receiver, and the receiver has memory for its data, then the
-- bytes of the iovecs, cut into chunks in any way, make the parser of a host of either byte order
-- complete a message of the same class with the same members, command, error and data.
pub append_all-encode :
    (writer reader : Endian) (alloc : ℕ → Option Bytes) (limit : ℕ) (m : Message) (old : Bytes)
    (bufs : List Bytes)
    → Allocates alloc
    → IsSendable m
    → WithinLimit limit m
    → flatten bufs ≡ wire_bytes writer m
    → (vectors : List Bytes) × (sent : Stream) × (encode writer
          (record { head = old; message = some m })
        ≡ some (vectors, sent))
      × (flatten vectors ≡ flatten bufs)
      × Arrives (append_all reader alloc limit empty bufs) m
append_all-encode writer reader alloc limit m old bufs allocates s room cut =
    let (vectors, sent, joined) = encode-eq writer m old s in
    (
      vectors,
      _,
      sent,
      joined ∙ sym cut,
      rw (append_all-flatten reader alloc limit bufs, cut)
          (append-wire_bytes writer reader alloc limit m allocates s room),
    )
