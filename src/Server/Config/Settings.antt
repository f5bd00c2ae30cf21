-- ===== src/Server/Config/Settings.antt =====
-- The settings of a configuration file, for the keys of load_service_config in
-- src/server/load_config.cpp.
use fcopy.Base.{
  ◌/◌, ◌%◌, ◌^◌, ◌≤◌, ◌≡◌, ◌⊎◌, Bytes, bytes_eq, codes, List, [], ◌∷◌, ◌++◌, Bool, true, false, All,
  if◌then◌else◌,
}
use fcopy.Base.Int.{ℤ}
use fcopy.Text.{to_string}
use fcopy.Server.Config.Words.{IsWord}
use fcopy.Server.Config.Numerals.{int_text}
use fcopy.Server.Config.Values.{fits_int}
use fcopy.Server.Config.Load.{
  FcopyConfig, IntKey, port, srv_max_conn, srv_peer_response_timeout, srv_receive_timeout,
  srv_keep_alive_timeout, cli_retry_max, cli_send_timeout, cli_receive_timeout,
  cli_keep_alive_timeout, int_key, key_names, find_key, set_int,
}

abbrev pub Setting : Type 0
Setting = Bytes × List Bytes

abbrev pub yes_no : Bool → Bytes
yes_no b = if b then codes "yes" else codes "no"

-- A string that is empty is left out.
abbrev pub string_setting : Bytes → Bytes → List Setting
string_setting name [] = []
string_setting name (c ∷ s) = (name, (c ∷ s) ∷ []) ∷ []

abbrev pub partition_settings : List (Bytes × Bytes) → List Setting
partition_settings [] = []
partition_settings ((name, root) ∷ m) =
    (codes "partitions", name ∷ root ∷ []) ∷ partition_settings m

abbrev pub int_entries : FcopyConfig → List (Bytes × IntKey × ℤ)
int_entries p =
    (codes "port", port, p.port)
    ∷ (codes "srv_max_conn", srv_max_conn, p.srv_max_conn)
    ∷ (codes "srv-peer-response-timeout", srv_peer_response_timeout, p.srv_peer_response_timeout)
    ∷ (codes "srv-receive-timeout", srv_receive_timeout, p.srv_receive_timeout)
    ∷ (codes "srv-keep-alive-timeout", srv_keep_alive_timeout, p.srv_keep_alive_timeout)
    ∷ (codes "cli-retry-max", cli_retry_max, p.cli_retry_max)
    ∷ (codes "cli-send-timeout", cli_send_timeout, p.cli_send_timeout)
    ∷ (codes "cli-receive-timeout", cli_receive_timeout, p.cli_receive_timeout)
    ∷ (codes "cli-keep-alive-timeout", cli_keep_alive_timeout, p.cli_keep_alive_timeout)
    ∷ []

abbrev pub int_settings : List (Bytes × IntKey × ℤ) → List Setting
int_settings [] = []
int_settings ((key, k, z) ∷ es) = (key, int_text z ∷ []) ∷ int_settings es

abbrev pub set_ints : List (Bytes × IntKey × ℤ) → FcopyConfig → FcopyConfig
set_ints [] p = p
set_ints ((key, k, z) ∷ es) p = set_ints es (set_int k z p)

abbrev pub IsIntEntry : Bytes × IntKey × ℤ → Type 0
IsIntEntry (key, k, z) = IsWord key × (find_key key_names key ≡ int_key k) × (fits_int z ≡ true)

-- The limit is written in units of 2^10.
abbrev pub other_settings : FcopyConfig → List Setting
other_settings p =
    (codes "request-size-limit", (to_string (p.srv_size_limit / 1024) ++ codes "K") ∷ [])
    ∷ (codes "daemonize", yes_no p.daemonize ∷ [])
    ∷ (codes "directio", yes_no p.directio ∷ [])
    ∷ []

abbrev pub string_settings : FcopyConfig → List Setting
string_settings p =
    string_setting (codes "logfile") p.logfile
    ++ (string_setting (codes "pidfile") p.pidfile
        ++ (string_setting (codes "basedir") p.basedir
            ++ string_setting (codes "default-partition") p.default_partition))

-- All members that a file can set.
abbrev pub settings : FcopyConfig → List Setting
settings p =
    int_settings (int_entries p)
    ++ (other_settings p ++ (string_settings p ++ partition_settings p.partitions))

abbrev pub IsString : Bytes → Type 0
IsString s = (s ≡ []) ⊎ IsWord s

-- The names are different.
abbrev pub Named : List (Bytes × Bytes) → Type 0
Named [] = Unit {0}
Named ((name, root) ∷ m) = All (λ p. bytes_eq name p.0 ≡ false) m × Named m

-- A configuration that a file can hold: ints, a limit of whole units up to 2^50, and words.
pub record IsWritable (p : FcopyConfig) : Type 0 where
  pub ints :
      (fits_int p.port ≡ true)
      × (fits_int p.srv_max_conn ≡ true)
      × (fits_int p.srv_peer_response_timeout ≡ true)
      × (fits_int p.srv_receive_timeout ≡ true)
      × (fits_int p.srv_keep_alive_timeout ≡ true)
      × (fits_int p.cli_retry_max ≡ true)
      × (fits_int p.cli_send_timeout ≡ true)
      × (fits_int p.cli_receive_timeout ≡ true)
      × (fits_int p.cli_keep_alive_timeout ≡ true)
  pub limit : (p.srv_size_limit % 1024 ≡ 0) × (p.srv_size_limit ≤ 2 ^ 50)
  pub strings :
      IsString p.logfile × IsString p.pidfile × IsString p.basedir × IsString p.default_partition
  pub words : All (λ e. IsWord e.0 × IsWord e.1) p.partitions
  pub named : Named p.partitions
