-- ===== src/Server/Config/Load.antt =====
-- load_service_config of src/server/load_config.cpp, and FcopyConfig of src/common/structures.h.
use fcopy.Base.{
  ℕ, ◌+◌, ◌*◌, ◌^◌, Bytes, bytes_eq, codes, List, [], ◌∷◌, Bool, true, false, Option, none, some,
  if◌then◌else◌,
}
use fcopy.Base.Int.{ℤ, pos, negsuc}
use fcopy.Text.{lines}
use fcopy.Server.Config.{parse_line, blank, bad, setting}
use fcopy.Server.Config.Values.{
  Stold, parse_bool, parse_signed, parse_size, parse_string, parse_partition,
}

-- A partition stands by its name and its root_path.
pub record FcopyConfig : Type 0 where
  pub daemonize : Bool
  pub directio : Bool
  pub port : ℤ
  pub loglevel : ℤ
  pub srv_max_conn : ℤ
  pub srv_peer_response_timeout : ℤ
  pub srv_receive_timeout : ℤ
  pub srv_keep_alive_timeout : ℤ
  pub srv_size_limit : ℕ
  pub cli_retry_max : ℤ
  pub cli_send_timeout : ℤ
  pub cli_receive_timeout : ℤ
  pub cli_keep_alive_timeout : ℤ
  pub logfile : Bytes
  pub pidfile : Bytes
  pub basedir : Bytes
  pub conffile : Bytes
  pub default_partition : Bytes
  pub partitions : List (Bytes × Bytes)

abbrev pub initial_config : FcopyConfig
initial_config = record {
  daemonize = false;
  directio = true;
  port = pos 5200;
  loglevel = pos 0;
  srv_max_conn = pos 4096;
  srv_peer_response_timeout = pos 10000;
  srv_receive_timeout = negsuc 0;
  srv_keep_alive_timeout = pos 300000;
  srv_size_limit = 128 * 2 ^ 20;
  cli_retry_max = pos 2;
  cli_send_timeout = negsuc 0;
  cli_receive_timeout = negsuc 0;
  cli_keep_alive_timeout = pos 300000;
  logfile = [];
  pidfile = [];
  basedir = [];
  conffile = [];
  default_partition = [];
  partitions = [];
}

-- The members that bool_map, int_map, cap_map and str_map point to. size_map is empty.
pub data BoolKey : Type 0 where
  daemonize directio : BoolKey

pub data IntKey : Type 0 where
  port srv_max_conn srv_peer_response_timeout srv_receive_timeout srv_keep_alive_timeout : IntKey
  cli_retry_max cli_send_timeout cli_receive_timeout cli_keep_alive_timeout : IntKey

pub data CapKey : Type 0 where
  srv_size_limit : CapKey

pub data StrKey : Type 0 where
  logfile pidfile basedir default_partition : StrKey

-- What a key of the file is found in, in the order of load_service_config.
pub data Key : Type 0 where
  int_key : IntKey → Key
  cap_key : CapKey → Key
  str_key : StrKey → Key
  bool_key : BoolKey → Key
  partitions_key : Key
  unknown_key : Key

-- The names under which the members are entered.
abbrev pub key_names : List (Bytes × Key)
key_names =
    (codes "port", int_key port)
    ∷ (codes "srv_max_conn", int_key srv_max_conn)
    ∷ (codes "srv-peer-response-timeout", int_key srv_peer_response_timeout)
    ∷ (codes "srv-receive-timeout", int_key srv_receive_timeout)
    ∷ (codes "srv-keep-alive-timeout", int_key srv_keep_alive_timeout)
    ∷ (codes "cli-retry-max", int_key cli_retry_max)
    ∷ (codes "cli-send-timeout", int_key cli_send_timeout)
    ∷ (codes "cli-receive-timeout", int_key cli_receive_timeout)
    ∷ (codes "cli-keep-alive-timeout", int_key cli_keep_alive_timeout)
    ∷ (codes "request-size-limit", cap_key srv_size_limit)
    ∷ (codes "logfile", str_key logfile)
    ∷ (codes "pidfile", str_key pidfile)
    ∷ (codes "basedir", str_key basedir)
    ∷ (codes "default-partition", str_key default_partition)
    ∷ (codes "daemonize", bool_key daemonize)
    ∷ (codes "directio", bool_key directio)
    ∷ (codes "partitions", partitions_key)
    ∷ []

unfoldable pub find_key : List (Bytes × Key) → Bytes → Key
find_key [] key = unknown_key
find_key ((name, k) ∷ names) key =
    let rest = find_key names key in if bytes_eq name key then k else rest

abbrev pub set_bool : BoolKey → Bool → FcopyConfig → FcopyConfig
set_bool daemonize b p = record p { daemonize = b }
set_bool directio b p = record p { directio = b }

abbrev pub set_int : IntKey → ℤ → FcopyConfig → FcopyConfig
set_int port n p = record p { port = n }
set_int srv_max_conn n p = record p { srv_max_conn = n }
set_int srv_peer_response_timeout n p = record p { srv_peer_response_timeout = n }
set_int srv_receive_timeout n p = record p { srv_receive_timeout = n }
set_int srv_keep_alive_timeout n p = record p { srv_keep_alive_timeout = n }
set_int cli_retry_max n p = record p { cli_retry_max = n }
set_int cli_send_timeout n p = record p { cli_send_timeout = n }
set_int cli_receive_timeout n p = record p { cli_receive_timeout = n }
set_int cli_keep_alive_timeout n p = record p { cli_keep_alive_timeout = n }

abbrev pub set_str : StrKey → Bytes → FcopyConfig → FcopyConfig
set_str logfile s p = record p { logfile = s }
set_str pidfile s p = record p { pidfile = s }
set_str basedir s p = record p { basedir = s }
set_str default_partition s p = record p { default_partition = s }

-- A value that was read, put into its member.
abbrev pub assign :
    {A : Type 0} → (A → FcopyConfig → FcopyConfig) → Option A → FcopyConfig → Option FcopyConfig
assign set none p = none
assign set (some a) p = some (set a p)

module _ (stold : Stold) where
  -- What a setting does to the configuration; `none` is a negative `ret`. An unknown key is passed
  -- over.
  unfoldable pub apply_key : Key → List Bytes → FcopyConfig → Option FcopyConfig
  unfolding parse_bool parse_signed parse_size parse_string parse_partition
  apply_key (int_key k) args p = assign (set_int k) (parse_signed args) p
  apply_key (cap_key srv_size_limit) args p =
      assign (λ n q. record q { srv_size_limit = n }) (parse_size stold args) p
  apply_key (str_key k) args p = assign (set_str k) (parse_string args) p
  apply_key (bool_key k) args p = assign (set_bool k) (parse_bool args) p
  apply_key partitions_key args p =
      assign (λ m q. record q { partitions = m }) (parse_partition args p.partitions) p
  apply_key unknown_key args p = some p

-- The result, or what `err` names: the file, or the number of the line, and the key where it is the
-- value that is refused. What the lines before it have changed is left out: the program ends.
pub data LoadResult : Type 0 where
  loaded : FcopyConfig → LoadResult
  not_opened : LoadResult
  bad_line : ℕ → LoadResult
  bad_value : ℕ → Bytes → LoadResult

module _ (stold : Stold) where
  -- A line and its number.
  unfoldable pub load_line : ℕ → Bytes → FcopyConfig → LoadResult
  load_line lineno line p = elim (parse_line line) [
    | bad ↦ bad_line lineno
    | blank ↦ loaded p
    | setting key args ↦ elim (apply_key stold (find_key key_names key) args p) [
      | none ↦ bad_value lineno key
      | some q ↦ loaded q
    ]
  ]

  -- The loop, behind `lineno` lines.
  unfoldable pub load_lines : ℕ → List Bytes → FcopyConfig → LoadResult
  load_lines lineno [] p = loaded p
  load_lines lineno (line ∷ rest) p = elim (load_line (lineno + 1) line p) [
    | loaded q ↦ load_lines (lineno + 1) rest q
    | e ↦ e
  ]

  -- For the text of the file, if it can be opened.
  unfoldable pub load_service_config : Option Bytes → FcopyConfig → LoadResult
  unfolding load_lines
  load_service_config none p = not_opened
  load_service_config (some text) p = load_lines 0 (lines text) p
