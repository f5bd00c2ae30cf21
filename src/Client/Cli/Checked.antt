-- ===== src/Client/Cli/Checked.antt =====
-- The senders that main of src/client/fcopy_cli.cpp starts.
use fcopy.Base.{
  ◌≤◌, ◌≡◌, ◌≢◌, refl, ap, Bytes, List, [], ◌∷◌, ◌++◌, Option, none, some, true, false, All,
  All-append, arith, Bool-cases, Option-cases, List-cases, inl, inr, subst, ◌⊎◌, length, ◌==◌, ◌||◌,
}
use fcopy.Base.Int.{ℤ, pos, negsuc, is_zero, is_negative}
use fcopy.Net.{RemoteTarget, Apart}
use fcopy.Client.Targets.{parse_target, parse_lines, parse_targets, do_check_self}
use fcopy.Client.Targets.Names.{IsTarget, parse_target-IsTarget}
use fcopy.Client.Targets.Check.{do_check_self-Apart, do_check_self-none}
use fcopy.Client.Files.{FileDesc, Disk, load_files}
use fcopy.Client.Files.Unique.{Loaded-cases}
use fcopy.Client.Sender.{SenderParams}
use fcopy.Client.Cli.{
  Config, default_config, Opt, parallel, target, target_list, send_method, speed_limit, dry_run,
  verbose, help, wait_close, direct_io, check_self, Parsed, configured, returned, exited,
  method_named, parse_option, parse_options, parse_args, clamp_parallel, sender_params, upload_all,
  run_config, main,
}
use fcopy.Text.{lines, hash, skip_space, atol}

-- What a SenderParams of main has.
pub record IsChecked (q : SenderParams) : Type 0 where
  pub some_target : q.targets ≢ []
  pub targets : All IsTarget q.targets
  pub apart : Apart q.targets
  pub tasks : (1 ≤ q.parallel) × (q.parallel ≤ 900)

clamp_parallel-bounds : (n : ℤ) → (1 ≤ clamp_parallel n) × (clamp_parallel n ≤ 900)
unfolding clamp_parallel
clamp_parallel-bounds (negsuc n) = (omega arith, omega arith)
clamp_parallel-bounds (pos n) = (ground arith, ground arith)

parse_lines-IsTarget :
    (ls : List Bytes) (targets : List RemoteTarget)
    → All IsTarget targets
    → All IsTarget (parse_lines ls targets).0
unfolding parse_lines
parse_lines-IsTarget [] targets v = v
parse_lines-IsTarget (line ∷ ls) targets v = elim (List-cases (skip_space line)) [
  | inl blank ↦ rw (blank, parse_lines) (parse_lines-IsTarget ls targets v)
  | inr (c, arg, text) ↦ elim (Bool-cases (c == hash)) [
    | inl comment ↦ rw (text, parse_lines, comment) (parse_lines-IsTarget ls targets v)
    | inr entry ↦ elim (Option-cases (parse_target (c ∷ arg))) [
      | inl bad ↦ rw (text, parse_lines, entry, bad) v
      | inr (t, good) ↦
          rw (text, parse_lines, entry, good)
            (parse_lines-IsTarget ls (targets ++ (t ∷ []))
              (All-append IsTarget targets (t ∷ []) v (parse_target-IsTarget (c ∷ arg) t good, tt)))
    ]
  ]
]

parse_targets-IsTarget :
    (text : Option Bytes) (targets : List RemoteTarget)
    → All IsTarget targets
    → All IsTarget (parse_targets text targets).0
unfolding parse_targets
parse_targets-IsTarget none targets v = v
parse_targets-IsTarget (some text) targets v = parse_lines-IsTarget (lines text) targets v

-- The targets were parsed, and --no-check-self was not given.
abbrev Careful : Config → Type 0
Careful cfg = All IsTarget cfg.targets × (cfg.check_self ≡ true)

abbrev AllCareful : Parsed → Type 0
AllCareful (configured cfg) = Careful cfg
AllCareful returned = Unit {0}
AllCareful exited = Unit {0}

parse_option-Careful :
    (read : Bytes → Option Bytes) (opt : Opt) (cfg : Config)
    → opt ≢ check_self false
    → Careful cfg
    → AllCareful (parse_option read opt cfg)
unfolding parse_option
parse_option-Careful read (parallel arg) cfg h v = v
parse_option-Careful read (target arg) cfg h v = elim (Option-cases (parse_target arg)) [
  | inl bad ↦ rw (bad, parse_option) tt
  | inr (t, good) ↦
      rw (good, parse_option)
        (All-append IsTarget cfg.targets (t ∷ []) v.0 (parse_target-IsTarget arg t good, tt), v.1)
]
parse_option-Careful read (target_list arg) cfg h v =
    elim (Bool-cases (parse_targets (read arg) cfg.targets).1) [
      | inl good ↦ rw (good, parse_option) (parse_targets-IsTarget (read arg) cfg.targets v.0, v.1)
      | inr bad ↦ rw (bad, parse_option) tt
    ]
parse_option-Careful read (send_method arg) cfg h v = elim (Option-cases (method_named arg)) [
  | inl bad ↦ rw (bad, parse_option) tt
  | inr (m, good) ↦ rw (good, parse_option) v
]
parse_option-Careful read (speed_limit arg) cfg h v =
    elim (Bool-cases (is_negative (atol arg) || is_zero (atol arg))) [
      | inl bad ↦ rw (bad, parse_option) tt
      | inr good ↦ rw (good, parse_option) v
    ]
parse_option-Careful read dry_run cfg h v = v
parse_option-Careful read verbose cfg h v = v
parse_option-Careful read help cfg h v = tt
parse_option-Careful read (wait_close b) cfg h v = v
parse_option-Careful read (direct_io b) cfg h v = v
parse_option-Careful read (check_self true) cfg h v = (v.0, refl)
parse_option-Careful read (check_self false) cfg h v = absurd (h refl)

pub Parsed-cases :
    (p : Parsed) → ((cfg : Config) × (p ≡ configured cfg)) ⊎ ((p ≡ returned) ⊎ (p ≡ exited))
Parsed-cases (configured cfg) = inl (cfg, refl)
Parsed-cases returned = inr (inl refl)
Parsed-cases exited = inr (inr refl)

parse_options-Careful :
    (read : Bytes → Option Bytes) (opts : List Opt) (cfg : Config)
    → All (λ o. o ≢ check_self false) opts
    → Careful cfg
    → AllCareful (parse_options read opts cfg)
unfolding parse_options
parse_options-Careful read [] cfg h v = v
parse_options-Careful read (opt ∷ opts) cfg (h, hs) v =
    elim (Parsed-cases (parse_option read opt cfg)) [
      | inl (cfg', good) ↦
          rw (good, parse_options)
            (parse_options-Careful read opts cfg' hs
              (subst AllCareful good (parse_option-Careful read opt cfg h v)))
      | inr (inl bad) ↦ rw (bad, parse_options) tt
      | inr (inr bad) ↦ rw (bad, parse_options) tt
    ]

parse_args-Careful :
    (read : Bytes → Option Bytes) (disk : Disk) (opts : List Opt) (paths : List Bytes)
    → All (λ o. o ≢ check_self false) opts
    → AllCareful (parse_args read disk opts paths)
unfolding parse_args
parse_args-Careful read disk opts paths h =
    let v = parse_options-Careful read opts default_config h (tt, refl) in
    elim (Parsed-cases (parse_options read opts default_config)) [
      | inl (cfg, good) ↦ elim (Loaded-cases (load_files disk paths cfg.files)) [
        | inl (e, bad) ↦ rw (good, parse_args, bad) tt
        | inr (state, found) ↦ rw (good, parse_args, found) (subst AllCareful good v)
      ]
      | inr (inl bad) ↦ rw (bad, parse_args) tt
      | inr (inr bad) ↦ rw (bad, parse_args) tt
    ]

checked_apart :
    (addrs : Option (List Bytes)) (targets : List RemoteTarget)
    → All IsTarget targets
    → do_check_self addrs targets ≡ true
    → Apart targets
checked_apart (some addrs) targets v ok = ((do_check_self-Apart addrs targets v).0 ok).1
checked_apart none targets v ok = absurd (cc (do_check_self-none targets))

module _ {W : Type 0} (upload : SenderParams → W → W × ℤ) (P : W → Type 0)
    (step : (q : SenderParams) (w : W) → IsChecked q → P w → P (upload q w).0) where
  upload_all-IsChecked :
      (cfg : Config) (files : List FileDesc) (w : W)
      → ((file : FileDesc) → IsChecked (sender_params cfg file))
      → P w
      → P (upload_all upload cfg files w)
  unfolding upload_all
  upload_all-IsChecked cfg [] w c p = p
  upload_all-IsChecked cfg (file ∷ files) w c p =
      let next = step (sender_params cfg file) w (c file) p in
      elim (Bool-cases (is_zero (upload (sender_params cfg file) w).1)) [
        | inl fine ↦ rw (fine, upload_all) (upload_all-IsChecked cfg files _ c next)
        | inr failed ↦ rw (failed, upload_all) next
      ]

  run_config-IsChecked :
      (addrs : Option (List Bytes)) (cfg : Config) (w : W)
      → Careful cfg
      → P w
      → P (run_config upload addrs cfg w).0
  unfolding run_config
  run_config-IsChecked addrs cfg w (parsed, careful) p =
      elim (Bool-cases (length cfg.targets == 0)) [
        | inl none_there ↦ rw none_there p
        | inr there ↦ elim (Bool-cases (do_check_self addrs cfg.targets)) [
          | inr refused ↦ rw (there, careful, refused) p
          | inl fine ↦ elim (Bool-cases cfg.dry_run) [
            | inl dry ↦ rw (there, careful, fine, dry) p
            | inr wet ↦
                rw (there, careful, fine, wet)
                  (upload_all-IsChecked cfg cfg.files w
                    (λ file. record {
                      some_target = λ empty. absurd (cc (ap (λ ts. length ts == 0) empty, there));
                      targets = parsed;
                      apart = checked_apart addrs cfg.targets parsed fine;
                      tasks = clamp_parallel-bounds cfg.parallel;
                    })
                    p)
          ]
        ]
      ]

  -- Unless --no-check-self is given, main starts a sender only for one or more targets that
  -- parse_target accepted, no two of them with the same host and port, and with 1 to 900 tasks: what
  -- every upload with such parameters preserves, main preserves.
  pub main-IsChecked :
      (read : Bytes → Option Bytes) (disk : Disk) (addrs : Option (List Bytes)) (opts : List Opt)
      (paths : List Bytes) (w : W)
      → All (λ o. o ≢ check_self false) opts
      → P w
      → P (main upload read disk addrs opts paths w).0
  unfolding main
  main-IsChecked read disk addrs opts paths w h p =
      let v = parse_args-Careful read disk opts paths h in
      elim (Parsed-cases (parse_args read disk opts paths)) [
        | inl (cfg, good) ↦
            rw (good, main) (run_config-IsChecked addrs cfg w (subst AllCareful good v) p)
        | inr (inl bad) ↦ rw (bad, main) p
        | inr (inr bad) ↦ rw (bad, main) p
      ]
