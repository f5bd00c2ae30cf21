-- ===== src/Net.antt =====
-- FcopyClient of src/common/co_fcopy.h: one request to another host and what comes back.
use fcopy.Base.{
  ℕ, Bytes, Option, none, some, if◌then◌else◌, ◌==◌, List, [], ◌∷◌, ◌&&◌, Bool, false, All, arith,
  bytes_eq, bytes_eq_comm, ◌≡◌,
}
use fcopy.Base.Int.{ℤ, pos, is_zero}
use fcopy.Wire.Messages.{Command, code}
use fcopy.Wire.Head.{get_error}
use fcopy.Wire.Stream.{Message}

pub record RemoteTarget : Type 0 where
  pub host : Bytes
  pub port : ℕ

abbrev pub same_address : RemoteTarget → RemoteTarget → Bool
same_address t u = bytes_eq t.host u.host && t.port == u.port

-- No two targets have the same address.
abbrev pub Apart : List RemoteTarget → Type 0
Apart [] = Unit {0}
Apart (t ∷ targets) = All (λ u. same_address t u ≡ false) targets × Apart targets

pub same_address_comm : (t u : RemoteTarget) → same_address t u ≡ same_address u t
same_address_comm t u = ground (arith, bytes_eq_comm t.host u.host)

-- EBADMSG as FcopyClient::request returns it.
abbrev pub bad_message : ℕ
bad_message = 74

-- The outcome of a network task: its error, or the message that came back.
pub data Reply : Type 0 where
  broken : ℤ → Reply
  answered : Message → Reply

-- FcopyClient::request for the response class with command `cmd`: the result, and the response if
-- there is one.
unfoldable pub received : Command → Reply → ℤ × Option Message
unfolding code
received cmd (broken error) = (error, none)
received cmd (answered m) =
    if m.base.command == code cmd then (pos 0, some m) else (pos bad_message, none)

-- What the callers make of both: the error of the task, or else the one in the response. A
-- response that was never filled in has the error 0.
unfoldable pub reply_error : Command → Reply → ℤ
unfolding received get_error
reply_error cmd reply =
    let (error, resp) = received cmd reply in
    if is_zero error then elim resp [ none ↦ pos 0 | some m ↦ get_error m.base ] else error
