-- ===== src/Client/Cli.antt =====
-- src/client/fcopy_cli.cpp: the options, main, and upload_file.
pub mod Checked
pub mod Upload
use fcopy.Base.{
  ℕ, zero, suc, ◌+◌, ◌≤◌, ◌<◌, Bytes, bytes_eq, codes, List, [], ◌∷◌, Option, none, some, Bool,
  true, false, ltb, if◌then◌else◌, length, ◌==◌, not, ◌&&◌, ◌||◌, ◌++◌,
}
use fcopy.Base.Int.{ℤ, pos, negsuc, is_zero, is_negative}
use fcopy.Net.{RemoteTarget}
use fcopy.Text.{atoi, atol}
use fcopy.Client.Targets.{parse_target, parse_targets, do_check_self}
use fcopy.Client.Files.{FileDesc, Disk, loaded, thrown, load_files}
use fcopy.Client.Sender.{
  SendMethod, chain, tree, SenderParams, FileSender, new_sender, Network, LocalFiles, create_file,
  close_file,
}

-- GlobalConfig
pub record Config : Type 0 where
  pub parallel : ℤ
  pub verbose : ℕ
  pub dry_run : Bool
  pub wait_close : Bool
  pub direct_io : Bool
  pub check_self : Bool
  pub send_method : SendMethod
  pub speed_limit : ℤ
  pub targets : List RemoteTarget
  pub files : List FileDesc

abbrev pub default_config : Config
default_config = record {
  parallel = pos 1;
  verbose = 0;
  dry_run = false;
  wait_close = true;
  direct_io = true;
  check_self = true;
  send_method = chain;
  speed_limit = pos 0;
  targets = [];
  files = [];
}

-- What getopt_long answers: an option and its argument.
pub data Opt : Type 0 where
  parallel target target_list send_method speed_limit : Bytes → Opt
  dry_run verbose help : Opt
  wait_close direct_io check_self : Bool → Opt

-- parse_args has a configuration, returns 1, or exits with 0 behind the usage.
pub data Parsed : Type 0 where
  configured : Config → Parsed
  returned : Parsed
  exited : Parsed

-- The method that --send-method names.
unfoldable pub method_named : Bytes → Option SendMethod
method_named arg =
    if bytes_eq arg (codes "chain")
    then some chain
    else if bytes_eq arg (codes "tree")
    then some tree
    else none

-- The switch of parse_args; `read` answers with the text of a file.
unfoldable pub parse_option : (Bytes → Option Bytes) → Opt → Config → Parsed
unfolding method_named
parse_option read (parallel arg) cfg = configured (record cfg { parallel = atoi arg })
parse_option read (target arg) cfg = elim (parse_target arg) [
  | none ↦ returned
  | some t ↦ configured (record cfg { targets = cfg.targets ++ (t ∷ []) })
]
parse_option read (target_list arg) cfg =
    let (targets, fine) = parse_targets (read arg) cfg.targets in
    if fine then configured (record cfg { targets = targets }) else returned
parse_option read (send_method arg) cfg = elim (method_named arg) [
  | none ↦ returned
  | some m ↦ configured (record cfg { send_method = m })
]
parse_option read (speed_limit arg) cfg =
    let limit = atol arg in
    if is_negative limit || is_zero limit
    then returned
    else configured (record cfg { speed_limit = limit })
parse_option read dry_run cfg = configured (record cfg { dry_run = true })
parse_option read verbose cfg = configured (record cfg { verbose = cfg.verbose + 1 })
parse_option read help cfg = exited
parse_option read (wait_close b) cfg = configured (record cfg { wait_close = b })
parse_option read (direct_io b) cfg = configured (record cfg { direct_io = b })
parse_option read (check_self b) cfg = configured (record cfg { check_self = b })

-- The loop of parse_args.
unfoldable pub parse_options : (Bytes → Option Bytes) → List Opt → Config → Parsed
unfolding parse_option
parse_options read [] cfg = configured cfg
parse_options read (opt ∷ opts) cfg = elim (parse_option read opt cfg) [
  | configured cfg' ↦ parse_options read opts cfg'
  | returned ↦ returned
  | exited ↦ exited
]

-- parse_args, for the options and the other arguments.
unfoldable pub parse_args : (Bytes → Option Bytes) → Disk → List Opt → List Bytes → Parsed
unfolding parse_options
parse_args read disk opts paths = elim (parse_options read opts default_config) [
  | configured cfg ↦ elim (load_files disk paths cfg.files) [
    | loaded state ↦ configured (record cfg { files = state.files })
    | thrown e ↦ returned
  ]
  | returned ↦ returned
  | exited ↦ exited
]

-- What main makes of the number of --parallel.
unfoldable pub clamp_parallel : ℤ → ℕ
clamp_parallel (negsuc n) = 1
clamp_parallel (pos n) = if ltb n 1 then 1 else if ltb 900 n then 900 else n

-- The SenderParams that main makes for a file.
abbrev pub sender_params : Config → FileDesc → SenderParams
sender_params cfg file = record {
  chunk_size = 4194304;
  file_path = file.path;
  partition = [];
  remote_file_dir = codes ".";
  remote_file_name = file.path;
  direct_io = cfg.direct_io;
  wait_close = cfg.wait_close;
  parallel = clamp_parallel cfg.parallel;
  send_method = cfg.send_method;
  targets = cfg.targets;
}

-- main, over what each upload_file changes and returns. `local_addrs` is the answer of
-- get_local_addr.
module _ {W : Type 0} (upload : SenderParams → W → W × ℤ) where
  -- The loop over the files ends at the first error.
  unfoldable pub upload_all : Config → List FileDesc → W → W
  upload_all cfg [] w = w
  upload_all cfg (file ∷ files) w =
      let (w', error) = upload (sender_params cfg file) w in
      elim (is_zero error) [ true ↦ upload_all cfg files w' | false ↦ w' ]

  unfoldable pub run_config : Option (List Bytes) → Config → W → W × ℤ
  unfolding upload_all
  run_config local_addrs cfg w =
      if length cfg.targets == 0
      then (w, pos 1)
      else if cfg.check_self && not (do_check_self local_addrs cfg.targets)
      then (w, negsuc 0)
      else if cfg.dry_run
      then (w, pos 0)
      else (upload_all cfg cfg.files w, pos 0)

  unfoldable pub main :
      (Bytes → Option Bytes) → Disk → Option (List Bytes) → List Opt → List Bytes → W → W × ℤ
  unfolding run_config
  main read disk local_addrs opts paths w = elim (parse_args read disk opts paths) [
    | configured cfg ↦ run_config local_addrs cfg w
    | returned ↦ (w, pos 1)
    | exited ↦ (w, pos 0)
  ]

-- upload_file. `send` stands for a run of send_file, with the error that it returns.
unfoldable pub upload_file :
    (net : Network)
    → LocalFiles
    → (FileSender → net.World → net.World × ℤ)
    → SenderParams
    → net.World
    → net.World × ℤ
upload_file net files send params w =
    let (w1, s) = create_file net files (new_sender params) w in
    let sent = send s w1 in
    let (w2, error) = if is_zero s.error then sent else (w1, s.error) in
    let (w3, s', closed) = close_file net (record s { error = error }) w2 in
    (w3, if is_zero error then s'.error else error)
