-- ===== src/Server/Service/Forwarding.antt =====
-- What handle_send_file of src/server/service.cpp has done when it answers without an error, and
-- the requests that it passes on.
use fcopy.Base.{
  ℕ, suc, ◌+◌, ◌-◌, ◌%◌, ◌^◌, ◌<◌, ◌≡◌, refl, ap, sym, ◌∙◌, Bytes, List, [], ◌∷◌, length, arith,
  if◌then◌else◌, ◌==◌, leb, ltb, true, false, not, ◌&&◌, All, some, none, Bool-cases, Option-cases,
  inl, inr, ◌⊎◌, ==→eq,
}
use fcopy.Base.Int.{
  ℤ, pos, neg, is_zero, FitsInt16, to_int16, from_int16, from_int16-to_int16, is_zero→eq,
  is_zero→ne,
}
use fcopy.Base.Errno.{enoent, ecanceled}
use fcopy.Wire.Messages.{ChainTarget, SendFileReq, Payload, send_resp, send_req, Command, code}
use fcopy.Wire.Head.{set_data_view, set_error, get_error}
use fcopy.Wire.Stream.{Message, make}
use fcopy.Net.{Reply, broken, answered, received, reply_error}
use fcopy.Server.FileManager.{FileManager, FileInfo, find, get_fd}
use fcopy.Server.Service.{
  Environment, Write, make_write, first_error, send_one, send_chain, chain_request, write_file,
  serve_send, handle_send_file, with_error, padded, padded_size, chunk_base,
}

-- Every error that a network task, an allocation or a write reports fits an int16_t and is not 0,
-- and the error member of a response is an int16_t.
pub record Errors (env : Environment) : Type 0 where
  pub networks :
      (i : ℕ) (host : Bytes) (port : ℕ) (m : Message) (e : ℤ)
      → env.request i host port m ≡ broken e
      → FitsInt16 e × (is_zero e ≡ false)
  pub responses :
      (i : ℕ) (host : Bytes) (port : ℕ) (m r : Message)
      → env.request i host port m ≡ answered r
      → r.base.error < 65536
  pub allocations : (n : ℕ) (e : ℤ) → env.allocates n ≡ some e → FitsInt16 e × (is_zero e ≡ false)
  pub writes : (w : Write) (e : ℤ) → env.pwrite w ≡ some e → FitsInt16 e × (is_zero e ≡ false)

from_int16-FitsInt16 : (n : ℕ) → n < 65536 → FitsInt16 (from_int16 n)
unfolding from_int16
from_int16-FitsInt16 n h = elim (Bool-cases (ltb n 32768)) [
  | inl low ↦ rw low (ground arith)
  | inr high ↦ rw high (ground arith)
]

-- Every task of send_chain ended without an error only if the first error is 0.
first_error-All : (es : List ℤ) → first_error es ≡ pos 0 → All (λ e. e ≡ pos 0) es
unfolding first_error
first_error-All [] h = tt
first_error-All (e ∷ es) h = elim (Bool-cases (is_zero e)) [
  | inl fine ↦ (is_zero→eq e fine, first_error-All es (rw fine at h))
  | inr bad ↦
      let now : e ≡ pos 0 = rw bad at h in
      let wrong : true ≡ false = ap is_zero (sym now) ∙ bad in cc
]

first_error-FitsInt16 : (es : List ℤ) → All FitsInt16 es → FitsInt16 (first_error es)
unfolding first_error
first_error-FitsInt16 [] h = omega arith
first_error-FitsInt16 (e ∷ es) (h, hs) = elim (Bool-cases (is_zero e)) [
  | inl fine ↦ rw fine (first_error-FitsInt16 es hs)
  | inr bad ↦ rw bad h
]

get_error-with_error :
    (p : Payload) (e : ℤ) → get_error (with_error p e).base ≡ from_int16 (to_int16 e)
unfolding with_error get_error set_error
get_error-with_error p e = refl

-- A SendFileResp came back, with the error 0.
abbrev pub Confirms : Reply → Type 0
Confirms reply =
    (r : Message) × (reply ≡ answered r)
    × (r.base.command ≡ code Command.send_file_resp)
    × (get_error r.base ≡ pos 0)

-- Each target, from the i-th on, answered the request that send_chain makes for it.
abbrev pub AllConfirm : Environment → SendFileReq → Bytes → ℕ → List ChainTarget → Type 0
AllConfirm env req content i [] = Unit {0}
AllConfirm env req content i (to ∷ targets) =
    Confirms (env.request i to.host to.port (chain_request req content to))
    × AllConfirm env req content (suc i) targets

-- What a send was to do: nothing was refused, each target confirmed, and the data was written to
-- the file of the token.
pub record IsDone (env : Environment) (m : FileManager) (req : SendFileReq) (content : Bytes)
    (writes : List Write) : Type 0 where
  pub info : FileInfo
  pub present : find req.file_token m.fmap ≡ some info
  pub allowed : (1 < req.max_chain_len) ⊎ (length info.targets ≡ 0)
  pub forwarded : All (λ e. e ≡ pos 0) (send_chain env req content 0 info.targets)
  pub confirmed : AllConfirm env req content 0 info.targets
  pub written : writes ≡ record { fd = info.fd; content = padded content; offset = req.offset } ∷ []
  pub stored :
      env.pwrite (record { fd = info.fd; content = padded content; offset = req.offset }) ≡ none

module _ (env : Environment) (errors : Errors env) where
  send_one-FitsInt16 :
      (i : ℕ) (host : Bytes) (port : ℕ) (m : Message) (reply : Reply)
      → env.request i host port m ≡ reply
      → FitsInt16 (send_one reply)
  unfolding send_one received get_error reply_error
  send_one-FitsInt16 i host port m (broken e) h = elim (Bool-cases (is_zero e)) [
    | inl fine ↦ rw fine (omega arith)
    | inr bad ↦ rw bad (errors.networks i host port m e h).0
  ]
  send_one-FitsInt16 i host port m (answered r) h =
      elim (Bool-cases (r.base.command == code Command.send_file_resp)) [
        | inl fits ↦
            rw fits (from_int16-FitsInt16 r.base.error (errors.responses i host port m r h))
        | inr other ↦ rw other (omega arith)
      ]

  send_chain-FitsInt16 :
      (req : SendFileReq) (content : Bytes) (i : ℕ) (targets : List ChainTarget)
      → All FitsInt16 (send_chain env req content i targets)
  unfolding send_chain
  send_chain-FitsInt16 req content i [] = tt
  send_chain-FitsInt16 req content i (to ∷ targets) = (
    send_one-FitsInt16 i to.host to.port _ _ refl,
    send_chain-FitsInt16 req content (suc i) targets,
  )

  send_one-Confirms :
      (i : ℕ) (host : Bytes) (port : ℕ) (m : Message) (reply : Reply)
      → env.request i host port m ≡ reply
      → send_one reply ≡ pos 0
      → Confirms reply
  unfolding send_one received reply_error
  send_one-Confirms i host port m (broken e) h ok =
      let bad = (errors.networks i host port m e h).1 in
      let now : e ≡ pos 0 = rw bad at ok in
      let wrong : true ≡ false = ap is_zero (sym now) ∙ bad in cc
  send_one-Confirms i host port m (answered r) h ok =
      elim (Bool-cases (r.base.command == code Command.send_file_resp)) [
        | inl fits ↦ (r, refl, ==→eq _ _ fits, rw fits at ok)
        | inr other ↦
            let wrong : pos 74 ≡ pos 0 = rw other at ok in absurd (is_zero→ne _ refl wrong)
      ]

  send_chain-AllConfirm :
      (req : SendFileReq) (content : Bytes) (i : ℕ) (targets : List ChainTarget)
      → All (λ e. e ≡ pos 0) (send_chain env req content i targets)
      → AllConfirm env req content i targets
  unfolding send_chain
  send_chain-AllConfirm req content i [] h = tt
  send_chain-AllConfirm req content i (to ∷ targets) (h, hs) = (
    send_one-Confirms i to.host to.port _ _ refl h,
    send_chain-AllConfirm req content (suc i) targets hs,
  )

  -- An error that fits, and for no error exactly the write `w`.
  abbrev Wrote : Write → ℤ × List Write → Type 0
  Wrote w result =
      FitsInt16 (result.0)
      × (is_zero (result.0) ≡ true → (result.1 ≡ w ∷ []) × (env.pwrite w ≡ none))

  make_write-Wrote : (w : Write) → Wrote w (make_write env w)
  unfolding make_write
  make_write-Wrote w = elim (Option-cases (env.pwrite w)) [
    | inl fine ↦ rw (fine, make_write) (omega arith, λ h. (refl, refl))
    | inr (e, failed) ↦
        let (fits, bad) = errors.writes w e failed in
        rw (failed, make_write) (fits, λ h. absurd (cc (h, bad)))
  ]

  write_file-Wrote :
      (fd offset : ℕ) (content : Bytes)
      → Wrote
          (record { fd = fd; content = padded content; offset = offset })
          (write_file env fd content offset)
  unfolding write_file
  write_file-Wrote fd offset content =
      let w : Write = record { fd = fd; content = padded content; offset = offset } in
      elim (Bool-cases (length content % chunk_base == 0)) [
        | inl whole ↦ rw whole (make_write-Wrote w)
        | inr rest ↦ elim (Option-cases (env.allocates (padded_size (length content)))) [
          | inl fine ↦ rw (rest, fine) (make_write-Wrote w)
          | inr (e, failed) ↦
              let (fits, bad) = errors.allocations (padded_size (length content)) e failed in
              rw (rest, failed) (fits, λ h. absurd (cc (h, bad)))
        ]
      ]

  same_error :
      (p : Payload) (e : ℤ) → FitsInt16 e → get_error (with_error p e).base ≡ pos 0 → e ≡ pos 0
  same_error p e fits h = sym (from_int16-to_int16 e fits) ∙ sym (get_error-with_error p e) ∙ h

  -- The last part of handle_send_file.
  finished :
      (m : FileManager) (req : SendFileReq) (content : Bytes) (info : FileInfo) (r : ℤ × List Write)
      → find req.file_token m.fmap ≡ some info
      → (1 < req.max_chain_len) ⊎ (length info.targets ≡ 0)
      → Wrote (record { fd = info.fd; content = padded content; offset = req.offset }) r
      → let e = first_error (send_chain env req content 0 info.targets) in
        get_error (with_error send_resp (if is_zero e then r.0 else e)).base ≡ pos 0
        → IsDone env m req content r.1
  finished m req content info r present allowed (fits, wrote) ok =
      let e = first_error (send_chain env req content 0 info.targets) in
      let short = first_error-FitsInt16 _ (send_chain-FitsInt16 req content 0 info.targets) in
      elim (Bool-cases (is_zero e)) [
        | inl fine ↦
            let written = same_error send_resp (r.0) fits (rw fine at ok) in
            let sent = first_error-All _ (is_zero→eq e fine) in
            record {
              info = info;
              present = present;
              allowed = allowed;
              forwarded = sent;
              confirmed = send_chain-AllConfirm req content 0 info.targets sent;
              written = (wrote (ap is_zero written)).0;
              stored = (wrote (ap is_zero written)).1;
            }
        | inr bad ↦
            let none_left = same_error send_resp e short (rw bad at ok) in
            absurd (cc (ap is_zero none_left, bad))
      ]

  served :
      (m : FileManager) (req : SendFileReq) (content : Bytes) (info : FileInfo)
      → find req.file_token m.fmap ≡ some info
      → let r = serve_send env (pos info.fd) info.targets req content in
        get_error (r.0).base ≡ pos 0 → IsDone env m req content r.1
  unfolding serve_send
  served m req content info present ok =
      elim (Bool-cases (leb req.max_chain_len 1 && not (length info.targets == 0))) [
        | inl over ↦
            let wrong = same_error send_resp (neg ecanceled) (omega arith) (rw over at ok) in cc
        | inr fine ↦
            let allowed : (1 < req.max_chain_len) ⊎ (length info.targets ≡ 0) = ground arith in
            rw fine (
              finished m req content info (write_file env info.fd content req.offset) present
                allowed (write_file-Wrote info.fd req.offset content) (rw fine at ok))
      ]

  -- Let the errors of network tasks, allocations and writes fit an int16_t and not be 0, and the
  -- error members of responses be int16_t. If the response of handle_send_file then carries the error
  -- 0, the token had a file, the request was allowed to be passed on or the file has no targets, each
  -- target answered the request made for it with a SendFileResp and the error 0, and the padded data
  -- was written once and with success, at its offset, to the file's descriptor.
  pub handle_send_file-IsDone :
      (m : FileManager) (req : SendFileReq) (content : Bytes)
      → get_error (handle_send_file env m req content).0.base ≡ pos 0
      → IsDone env m req content (handle_send_file env m req content).1
  unfolding handle_send_file get_fd
  handle_send_file-IsDone m req content ok = elim (Option-cases (find req.file_token m.fmap)) [
    | inl absent ↦
        let refused = rw (absent, get_fd) at ok in
        let wrong =
          same_error send_resp (neg enoent) (omega arith) (unfold serve_send in refused) in
        cc
    | inr (info, present) ↦
        rw (present, get_fd) (served m req content info present (rw (present, get_fd) at ok))
  ]

-- A request with a max_chain_len above 1, in uint16_t, is passed on to a target with one less, the
-- target's token and the same data; all its other members stay the same.
pub chain_request-payload :
    (req : SendFileReq) (content : Bytes) (to : ChainTarget)
    → 1 < req.max_chain_len
    → req.max_chain_len < 2 ^ 16
    → ((chain_request req content to).payload
        ≡ send_req
            (record req { max_chain_len = req.max_chain_len - 1; file_token = to.file_token }))
      × ((chain_request req content to).base.data_view ≡ content)
unfolding chain_request set_data_view make
chain_request-payload req content to h k =
    let less : (req.max_chain_len + 65535) % 65536 ≡ req.max_chain_len - 1 = omega arith in
    (ap (λ n. send_req (record req { max_chain_len = n; file_token = to.file_token })) less, refl)
