-- ===== src/Server/Main.antt =====
-- src/server/fcopy_server.cpp, and FcopyService::start of src/server/service.cpp: from the command
-- line to the server that listens.
pub mod Ports
pub mod Settled
use fcopy.Base.{
  ℕ, ◌+◌, ◌*◌, ◌-◌, ◌^◌, ◌%◌, Bytes, codes, List, [], ◌∷◌, ◌++◌, Bool, true, false, ◌&&◌, Option,
  none, some, if◌then◌else◌, length, ◌==◌, leb, not,
}
use fcopy.Base.Int.{ℤ, pos, negsuc, is_zero}
use fcopy.Text.{atoi}
use fcopy.Server.Config.Values.{Stold}
use fcopy.Server.Config.Load.{
  FcopyConfig, initial_config, LoadResult, loaded, not_opened, bad_line, bad_value,
  load_service_config,
}

-- What getopt_long answers: an option and its argument, or '?'.
pub data Answer : Type 0 where
  config port : Bytes → Answer
  background help unknown : Answer

-- What the program calls and this repository does not implement.
pub record Host : Type 0 where
  -- getenv("HOME")
  pub home : Option Bytes
  -- std::filesystem::path: the operator /
  pub join : Bytes → Bytes → Bytes
  pub is_regular_file : Bytes → Bool
  -- The text of a file that can be opened.
  pub read : Bytes → Option Bytes
  -- std::filesystem::absolute: its error, or the path.
  pub absolute : Bytes → ℤ × Bytes
  -- std::filesystem::current_path
  pub current_path : Option Bytes
  -- std::filesystem::create_directories, for the directory of the path: its error.
  pub create_directories : Bytes → ℤ
  -- The errno of an fopen that fails.
  pub open_log : Bytes → Option ℤ
  pub stold : Stold

-- The program goes on with a configuration, or ends with a status.
pub data Init : Type 0 where
  ready : FcopyConfig → Init
  ends : ℤ → Init

-- The first loop of init_config; `none` is a '?'.
unfoldable pub find_config : List Answer → Bytes → Option Bytes
find_config [] conffile = some conffile
find_config (config arg ∷ answers) conffile = find_config answers arg
find_config (port arg ∷ answers) conffile = find_config answers conffile
find_config (background ∷ answers) conffile = find_config answers conffile
find_config (help ∷ answers) conffile = find_config answers conffile
find_config (unknown ∷ answers) conffile = none

-- The second loop, up to an option that ends the program.
unfoldable pub apply_answers : List Answer → FcopyConfig → Init
apply_answers [] conf = ready conf
apply_answers (config arg ∷ answers) conf = apply_answers answers conf
apply_answers (port arg ∷ answers) conf = apply_answers answers (record conf { port = atoi arg })
apply_answers (background ∷ answers) conf = apply_answers answers (record conf { daemonize = true })
apply_answers (help ∷ answers) conf = ends (pos 0)
apply_answers (unknown ∷ answers) conf = ends (negsuc 0)

abbrev pub is_empty : Bytes → Bool
is_empty s = length s == 0

module _ (host : Host) where
  unfoldable pub default_basedir : Bytes
  default_basedir = elim host.home [ none ↦ [] | some home ↦ host.join home (codes ".fcopy") ]

  unfoldable pub current_dir : Bytes
  current_dir = elim host.current_path [ none ↦ [] | some dir ↦ dir ]

  -- The file to load, given the one that the command line names.
  unfoldable pub choose_config : Bytes → Bytes
  unfolding default_basedir
  choose_config conffile =
      let basedir = default_basedir in
      let default_file = basedir ++ codes "/fcopy.conf" in
      if is_empty conffile && not (is_empty basedir)
      then (if host.is_regular_file default_file then default_file else [])
      else conffile

  unfoldable pub load_config : Bytes → Init
  load_config conffile =
      if is_empty conffile
      then ready initial_config
      else elim (load_service_config host.stold (host.read conffile)
          (record initial_config { conffile = conffile })) [
            | loaded conf ↦ ready conf
            | not_opened ↦ ends (negsuc 0)
            | bad_line n ↦ ends (negsuc 0)
            | bad_value n key ↦ ends (negsuc 0)
          ]

  -- get_abs_path(basedir, path, tmp) for a path that is set.
  unfoldable pub settle_path : Bytes → Bytes → Option Bytes
  settle_path basedir [] = some []
  settle_path basedir (c ∷ path) =
      let (error, abs_path) = host.absolute (host.join basedir (c ∷ path)) in
      if is_zero error then some abs_path else none

  -- init_config behind the options.
  unfoldable pub settle : FcopyConfig → Init
  unfolding default_basedir current_dir
  settle conf =
      let basedir = if is_empty conf.basedir then default_basedir else conf.basedir in
      elim (settle_path basedir conf.logfile) [
        | none ↦ ends (pos 1)
        | some logfile ↦ elim (settle_path basedir conf.pidfile) [
          | none ↦ ends (pos 1)
          | some pidfile ↦ ready (record conf {
            basedir = basedir;
            logfile = logfile;
            pidfile = pidfile;
            default_partition =
                if is_empty conf.default_partition then current_dir else conf.default_partition;
          })
        ]
      ]

  unfoldable pub then_init : Init → (FcopyConfig → Init) → Init
  then_init (ready conf) next = next conf
  then_init (ends status) next = ends status

  -- For what getopt_long answers in the first and in the second loop.
  unfoldable pub init_config : List Answer → List Answer → Init
  unfolding then_init
  init_config first second = elim (find_config first []) [
    | none ↦ ends (negsuc 0)
    | some conffile ↦
        then_init (load_config (choose_config conffile))
          (λ conf. then_init (apply_answers second conf) settle)
  ]

-- size_t, from an int.
abbrev pub to_size : ℤ → ℕ
to_size (pos n) = n
to_size (negsuc n) = 2 ^ 64 - (n + 1)

pub record FcopyServerParams : Type 0 where
  pub max_connections : ℕ
  pub peer_response_timeout : ℤ
  pub receive_timeout : ℤ
  pub keep_alive_timeout : ℤ
  pub request_size_limit : ℕ

pub record FcopyClientParams : Type 0 where
  pub retry_max : ℤ
  pub send_timeout : ℤ
  pub receive_timeout : ℤ
  pub keep_alive_timeout : ℤ

pub record FcopyServiceParams : Type 0 where
  pub directio : Bool
  pub port : ℤ
  pub default_partition : Bytes
  pub partitions : List (Bytes × Bytes)
  pub srv_params : FcopyServerParams
  pub cli_params : FcopyClientParams

unfoldable pub service_params : FcopyConfig → FcopyServiceParams
service_params conf = record {
  directio = conf.directio;
  port = conf.port;
  default_partition = conf.default_partition;
  partitions = conf.partitions;
  srv_params = record {
    max_connections = to_size conf.srv_max_conn;
    peer_response_timeout = conf.srv_peer_response_timeout;
    receive_timeout = conf.srv_receive_timeout;
    keep_alive_timeout = conf.srv_keep_alive_timeout;
    request_size_limit = conf.srv_size_limit;
  };
  cli_params = record {
    retry_max = conf.cli_retry_max;
    send_timeout = conf.cli_send_timeout;
    receive_timeout = conf.cli_receive_timeout;
    keep_alive_timeout = conf.cli_keep_alive_timeout;
  };
}

-- A port to listen on.
unfoldable pub port_fits : ℤ → Bool
port_fits (pos n) = leb 1 n && leb n 65535
port_fits (negsuc n) = false

-- main makes a service for the parameters, or ends with a status.
pub data Start : Type 0 where
  serves : FcopyServiceParams → Start
  exits : ℤ → Start

module _ (host : Host) where
  -- The log file of main: 0, or the error.
  unfoldable pub open_log_file : Bytes → ℤ
  open_log_file [] = pos 0
  open_log_file (c ∷ logfile) =
      let error = host.create_directories (c ∷ logfile) in
      if is_zero error
      then elim (host.open_log (c ∷ logfile)) [ none ↦ pos 0 | some errno ↦ errno ]
      else error

  unfoldable pub start_with : FcopyConfig → Start
  unfolding open_log_file service_params
  start_with conf =
      let error = open_log_file conf.logfile in
      if port_fits conf.port
      then if is_zero error then serves (service_params conf) else exits error
      else exits (pos 1)

  -- main up to service->start(), in the process that serves.
  unfoldable pub main : List Answer → List Answer → Start
  unfolding start_with
  main first second = elim (init_config host first second) [
    | ready conf ↦ start_with conf
    | ends status ↦ exits status
  ]
