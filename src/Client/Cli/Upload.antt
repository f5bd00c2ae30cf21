-- ===== src/Client/Cli/Upload.antt =====
-- The results of upload_file and main of src/client/fcopy_cli.cpp, and of FileSender::close_file.
use fcopy.Base.{
  ℕ, ◌≤◌, ◌≡◌, ◌↔◌, refl, Bytes, List, [], ◌∷◌, Option, All, arith, Bool-cases, inl, inr,
  if◌then◌else◌, not, ◌&&◌, length, ◌==◌,
}
use fcopy.Base.Int.{ℤ, pos, is_zero, is_zero→eq, is_zero→ne}
use fcopy.Wire.Messages.{Command, close_req}
use fcopy.Wire.Stream.{make}
use fcopy.Net.{RemoteTarget, reply_error}
use fcopy.Client.Targets.{do_check_self}
use fcopy.Client.Files.{Disk}
use fcopy.Client.Sender.{
  SenderParams, FileSender, new_sender, Network, LocalFiles, create_file, close_file, close_tokens,
  remote_close,
}
use fcopy.Client.Cli.{Config, Opt, parse_args, run_config, main, upload_file}
use fcopy.Client.Cli.Checked.{Parsed-cases}

-- The first error of two.
first_of :
    (first error : ℤ)
    → (if is_zero first then error else first) ≡ pos 0
    → (first ≡ pos 0) × (error ≡ pos 0)
first_of first error h = elim (Bool-cases (is_zero first)) [
  | inl fine ↦ (is_zero→eq first fine, rw fine at h)
  | inr failed ↦ absurd (is_zero→ne first failed (rw failed at h))
]

-- A token that is cleared unless there is an error.
clears :
    (error : ℤ) (c : ℕ) (token : Bytes)
    → ◌≡◌ {A = Bytes} (if is_zero error then [] else c ∷ token) []
    → error ≡ pos 0
clears error c token h = elim (Bool-cases (is_zero error)) [
  | inl fine ↦ is_zero→eq error fine
  | inr failed ↦ let wrong : ◌≡◌ {A = Bytes} (c ∷ token) [] = rw failed at h in cc
]

with_first :
    {E F : Type 0} (first error : ℤ) (c : ℕ) (token : Bytes)
    → E ↔ (((if is_zero first then error else first) ≡ pos 0) × F)
    → E ↔ ((first ≡ pos 0) × (◌≡◌ {A = Bytes} (if is_zero error then [] else c ∷ token) [] × F))
with_first first error c token (f, g) = (
  λ e.
      let (none_before, fine) = first_of first error (f e).0 in
      (none_before, (rw fine refl, (f e).1)),
  λ (none_before, (cleared, rest)). g (rw none_before (clears error c token cleared), rest),
)

module _ (net : Network) where
  -- The loop of remote_close, with an error from before: it has no error at the end exactly if it
  -- had none before and every token is cleared.
  close_tokens-cleared :
      (wait : ℕ) (targets : List RemoteTarget) (tokens : List Bytes) (first : ℤ) (w : net.World)
      → length tokens ≤ length targets
      → let (w', error, rest) = close_tokens net wait targets tokens first w in
        (error ≡ pos 0) ↔ ((first ≡ pos 0) × All (λ t. t ≡ []) rest)
  unfolding close_tokens
  close_tokens-cleared wait targets [] first w h = (λ e. (e, tt), λ (e, c). e)
  close_tokens-cleared wait [] (token ∷ tokens) first w h = absurd (omega arith)
  close_tokens-cleared wait (t ∷ targets) ([] ∷ tokens) first w h =
      let rec = close_tokens-cleared wait targets tokens first w (omega arith) in
      (λ e. ((rec.0 e).0, (refl, (rec.0 e).1)), λ (e, c). rec.1 (e, c.1))
  close_tokens-cleared wait (t ∷ targets) ((c ∷ token) ∷ tokens) first w h =
      let (w1, reply) =
        net.request w t (make (close_req (record { wait_close = wait; file_token = c ∷ token }))) in
      let error = reply_error Command.close_file_resp reply in
      let rec =
        close_tokens-cleared wait targets tokens (if is_zero first then error else first) w1
          (omega arith) in
      with_first first error c token rec

  -- With no more tokens than targets, remote_close returns 0 exactly if its loop has cleared every
  -- token.
  pub remote_close-cleared :
      (s : FileSender) (w : net.World)
      → length s.file_tokens ≤ length s.params.targets
      → let wait : ℕ = if s.params.wait_close then 1 else 0 in
        ((remote_close net s w).1 ≡ pos 0)
        ↔ All (λ t. t ≡ []) (close_tokens net wait s.params.targets s.file_tokens (pos 0) w).2
  unfolding remote_close
  remote_close-cleared s w h =
      let wait : ℕ = if s.params.wait_close then 1 else 0 in
      let (f, g) = close_tokens-cleared wait s.params.targets s.file_tokens (pos 0) w h in
      (λ e. (f e).1, λ all. g (refl, all))

-- An error that is reported at once, or else the one of what comes after it.
zero_of :
    {W : Type 0} (e : ℤ) (w : W) (sent : W × ℤ) (close : W × ℤ → ℤ)
    → let r = if is_zero e then sent else (w, e) in
      ((if is_zero r.1 then close r else r.1) ≡ pos 0)
      ↔ ((e ≡ pos 0) × (sent.1 ≡ pos 0) × (close sent ≡ pos 0))
zero_of e w sent close = elim (Bool-cases (is_zero e)) [
  | inr failed ↦ rw failed (rw failed (λ z. absurd (is_zero→ne e failed z), λ all. all.0))
  | inl fine ↦ elim (Bool-cases (is_zero sent.1)) [
    | inr unsent ↦ rw fine (rw unsent (λ z. absurd (is_zero→ne sent.1 unsent z), λ all. all.1))
    | inl done ↦
        rw fine (rw done (λ z. (is_zero→eq e fine, is_zero→eq sent.1 done, z), λ all. all.2))
  ]
]

-- upload_file returns 0 exactly if create_file, the run of send_file and close_file all did.
pub upload_file-zero :
    (net : Network) (files : LocalFiles) (send : FileSender → net.World → net.World × ℤ)
    (params : SenderParams) (w : net.World)
    → let (w1, s) = create_file net files (new_sender params) w in
      let (w2, sent) = send s w1 in
      let (w3, s', closed) = close_file net (record s { error = sent }) w2 in
      ((upload_file net files send params w).1 ≡ pos 0)
      ↔ ((s.error ≡ pos 0) × (sent ≡ pos 0) × (s'.error ≡ pos 0))
unfolding upload_file
upload_file-zero net files send params w =
    let s = (create_file net files (new_sender params) w).1 in
    let w1 = (create_file net files (new_sender params) w).0 in
    zero_of s.error w1 (send s w1) (λ r. (close_file net (record s { error = r.1 }) r.0).1.error)

run_config-status :
    {W V : Type 0} (upload : SenderParams → W → W × ℤ) (upload' : SenderParams → V → V × ℤ)
    (addrs : Option (List Bytes)) (cfg : Config) (w : W) (v : V)
    → (run_config upload addrs cfg w).1 ≡ (run_config upload' addrs cfg v).1
unfolding run_config
run_config-status upload upload' addrs cfg w v = elim (Bool-cases (length cfg.targets == 0)) [
  | inl none_there ↦ rw none_there refl
  | inr there ↦ elim (Bool-cases (cfg.check_self && not (do_check_self addrs cfg.targets))) [
    | inl refused ↦ rw (there, refused) refl
    | inr fine ↦ elim (Bool-cases cfg.dry_run) [
      | inl dry ↦ rw (there, fine, dry) refl
      | inr wet ↦ rw (there, fine, wet) refl
    ]
  ]
]

-- The exit status of main does not depend on what the uploads do or return.
pub main-status :
    {W V : Type 0} (upload : SenderParams → W → W × ℤ) (upload' : SenderParams → V → V × ℤ)
    (read : Bytes → Option Bytes) (disk : Disk) (addrs : Option (List Bytes)) (opts : List Opt)
    (paths : List Bytes) (w : W) (v : V)
    → (main upload read disk addrs opts paths w).1 ≡ (main upload' read disk addrs opts paths v).1
unfolding main
main-status upload upload' read disk addrs opts paths w v =
    elim (Parsed-cases (parse_args read disk opts paths)) [
      | inl (cfg, good) ↦ rw (good, main) (run_config-status upload upload' addrs cfg w v)
      | inr (inl bad) ↦ rw (bad, main) refl
      | inr (inr bad) ↦ rw (bad, main) refl
    ]
