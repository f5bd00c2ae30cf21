-- ===== src/Server/Service/Closing.antt =====
-- The two ways in which handle_close_file of src/server/service.cpp closes a file.
use fcopy.Base.{
  ℕ, ◌≡◌, refl, Bytes, arith, if◌then◌else◌, ◌==◌, Bool, true, false, Option-cases, Bool-cases, ◌<◌,
  inl, inr,
}
use fcopy.Base.Int.{pos, neg, to_int16, from_int16, from_int16-to_int16}
use fcopy.Base.Errno.{enoent, err_no_file}
use fcopy.Wire.Messages.{CloseFileReq}
use fcopy.Wire.Head.{set_error, get_error}
use fcopy.Server.FileManager.{FileManager, find, has_file, close_file}
use fcopy.Server.FileManager.Ownership.{IsOwner}
use fcopy.Server.FileManager.Tokens.{close_file-twice}
use fcopy.Server.Service.{Environment, handle_close_file, with_error}

module _ (env : Environment) where
  close_file-result :
      (m : FileManager) (token : Bytes)
      → (close_file env.sys m token).1 ≡ (if has_file m token then pos 0 else neg enoent)
  unfolding close_file has_file
  close_file-result m token = elim (Option-cases (find token m.fmap)) [
    | inl absent ↦ rw (absent, close_file, has_file) refl
    | inr (info, present) ↦ rw (present, close_file, has_file) refl
  ]

  read :
      (b : Bool) (n : ℕ)
      → n < 32768
      → from_int16 (to_int16 (if b then pos 0 else pos n)) ≡ (if b then pos 0 else pos n)
  read true n h = from_int16-to_int16 (pos 0) (omega arith)
  read false n h = from_int16-to_int16 (pos n) h

  read_neg :
      (b : Bool)
      → from_int16 (to_int16 (if b then pos 0 else neg enoent)) ≡ (if b then pos 0 else neg enoent)
  read_neg true = from_int16-to_int16 (pos 0) (omega arith)
  read_neg false = from_int16-to_int16 (neg enoent) (omega arith)

  -- For a manager whose map and open descriptors agree: with wait_close or without it, the handler ends with the manager that close_file leaves, which
  -- has no file for the token; the response carries the error 0 exactly if there was a file when
  -- the request came, and else -ENOENT with wait_close, ERR_NO_FILE without it.
  pub handle_close_file-outcome :
      (m : FileManager) (req : CloseFileReq)
      → IsOwner m
      → let (sent, resp, m') = handle_close_file env m req in
        (m' ≡ (close_file env.sys m req.file_token).0)
        × (has_file m' req.file_token ≡ false)
        × (get_error resp.base ≡ (
            if has_file m req.file_token
            then pos 0
            else if req.wait_close == 0
            then pos err_no_file
            else neg enoent))
  unfolding handle_close_file with_error set_error get_error
  handle_close_file-outcome m req v =
      let gone = (close_file-twice env.sys m req.file_token v).0 in
      elim (Bool-cases (req.wait_close == 0)) [
        | inl later ↦
            rw later (refl, gone, read (has_file m req.file_token) err_no_file (omega arith))
        | inr now ↦
            rw (now, close_file-result m req.file_token)
              (refl, gone, read_neg (has_file m req.file_token))
      ]
