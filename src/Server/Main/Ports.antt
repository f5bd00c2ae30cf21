-- ===== src/Server/Main/Ports.antt =====
-- The port that main of src/server/fcopy_server.cpp listens on.
use fcopy.Base.{
  ℕ, ◌≡◌, ◌≤◌, refl, sym, ap, ◌∙◌, Bytes, List, [], ◌∷◌, Bool, true, false, Option, none, some,
  if◌then◌else◌, arith,
}
use fcopy.Base.Int.{ℤ, pos, negsuc, is_zero}
use fcopy.Text.{atoi}
use fcopy.Server.Config.Load.{FcopyConfig}
use fcopy.Server.Main.{
  Answer, config, port, background, help, unknown, Host, Init, ready, ends, find_config,
  apply_answers, choose_config, load_config, settle_path, settle, then_init, init_config,
  FcopyServiceParams, service_params, port_fits, Start, serves, exits, open_log_file, start_with,
  main,
}

-- The argument of the last -p, or else the port that is given.
abbrev pub last_port : List Answer → ℤ → ℤ
last_port [] n = n
last_port (config arg ∷ answers) n = last_port answers n
last_port (port arg ∷ answers) n = last_port answers (atoi arg)
last_port (background ∷ answers) n = last_port answers n
last_port (help ∷ answers) n = last_port answers n
last_port (unknown ∷ answers) n = last_port answers n

apply_answers-port :
    (answers : List Answer) (conf conf' : FcopyConfig)
    → apply_answers answers conf ≡ ready conf'
    → conf'.port ≡ last_port answers conf.port
unfolding apply_answers
apply_answers-port [] conf conf' e = ap port_of (sym e)
  where
    port_of : Init → ℤ
    port_of (ready c) = c.port
    port_of (ends status) = pos 0
apply_answers-port (config arg ∷ answers) conf conf' e = apply_answers-port answers conf conf' e
apply_answers-port (port arg ∷ answers) conf conf' e =
    apply_answers-port answers (record conf { port = atoi arg }) conf' e
apply_answers-port (background ∷ answers) conf conf' e =
    apply_answers-port answers (record conf { daemonize = true }) conf' e
apply_answers-port (help ∷ answers) conf conf' e = cc
apply_answers-port (unknown ∷ answers) conf conf' e = cc

module _ (host : Host) where
  settled-port :
      (conf conf' : FcopyConfig) (basedir dir : Bytes) (logfile pidfile : Option Bytes)
      → elim logfile [
        | none ↦ ends (pos 1)
        | some l ↦ elim pidfile [
          | none ↦ ends (pos 1)
          | some p ↦
              ready (record conf {
                basedir = basedir;
                logfile = l;
                pidfile = p;
                default_partition = dir;
              })
        ]
      ]
        ≡ ready conf'
      → conf'.port ≡ conf.port
  settled-port conf conf' basedir dir none p e = cc
  settled-port conf conf' basedir dir (some l) none e = cc
  settled-port conf conf' basedir dir (some l) (some p) e = ap port_of (sym e)
    where
      port_of : Init → ℤ
      port_of (ready c) = c.port
      port_of (ends status) = pos 0

  settle-port : (conf conf' : FcopyConfig) → settle host conf ≡ ready conf' → conf'.port ≡ conf.port
  unfolding settle
  settle-port conf conf' e =
      settled-port conf conf' _ _ (settle_path host _ conf.logfile)
        (settle_path host _ conf.pidfile) e

  then_init-ready :
      (i : Init) (next : FcopyConfig → Init) (conf' : FcopyConfig)
      → then_init host i next ≡ ready conf'
      → (conf : FcopyConfig) × (i ≡ ready conf) × (next conf ≡ ready conf')
  unfolding then_init
  then_init-ready (ready conf) next conf' e = (conf, refl, e)
  then_init-ready (ends status) next conf' e = cc

  -- The configuration comes from the file that is chosen, and then from the options.
  abbrev pub Comes : List Answer → List Answer → FcopyConfig → Type 0
  Comes first second conf =
      (conffile : Bytes) × (from_file : FcopyConfig) × (with_options : FcopyConfig) × (find_config
          first []
        ≡ some conffile)
      × (load_config host (choose_config host conffile) ≡ ready from_file)
      × (apply_answers second from_file ≡ ready with_options)
      × (settle host with_options ≡ ready conf)

  init_config-Comes :
      (first second : List Answer) (conf : FcopyConfig)
      → init_config host first second ≡ ready conf
      → Comes first second conf
  unfolding init_config
  init_config-Comes first second conf e = comes (find_config first []) refl e
    where
      comes :
          (o : Option Bytes)
          → find_config first [] ≡ o
          → elim o [
            | none ↦ ends (negsuc 0)
            | some conffile ↦
                then_init host
                  (load_config host (choose_config host conffile))
                  (λ c. then_init host (apply_answers second c) (settle host))
          ]
            ≡ ready conf
          → Comes first second conf
      comes none found e = cc
      comes (some conffile) found e =
          let (from_file, read, later) = then_init-ready _ _ conf e in
          let (with_options, applied, settled) = then_init-ready _ _ conf later in
          (conffile, from_file, with_options, found, read, applied, settled)

  start_with-serves :
      (conf : FcopyConfig) (params : FcopyServiceParams)
      → start_with host conf ≡ serves params
      → (port_fits conf.port ≡ true) × (service_params conf ≡ params)
  unfolding start_with
  start_with-serves conf params e =
      started (port_fits conf.port) (is_zero (open_log_file host conf.logfile)) e
    where
      params_of : Start → FcopyServiceParams
      params_of (serves p) = p
      params_of (exits status) = params

      started :
          (b z : Bool)
          → (if b
              then if z
                then serves (service_params conf)
                else exits (open_log_file host conf.logfile)
              else exits (pos 1))
            ≡ serves params
          → (b ≡ true) × (service_params conf ≡ params)
      started false z e = cc
      started true false e = cc
      started true true e = (refl, ap params_of e)

  main-serves :
      (first second : List Answer) (params : FcopyServiceParams)
      → main host first second ≡ serves params
      → (conf : FcopyConfig) × Comes first second conf
        × (port_fits conf.port ≡ true)
        × (service_params conf ≡ params)
  unfolding main
  main-serves first second params e = serving (init_config host first second) refl e
    where
      serving :
          (i : Init)
          → init_config host first second ≡ i
          → elim i [ ready conf ↦ start_with host conf | ends status ↦ exits status ]
            ≡ serves params
          → (conf : FcopyConfig) × Comes first second conf
            × (port_fits conf.port ≡ true)
            × (service_params conf ≡ params)
      serving (ends status) init e = cc
      serving (ready conf) init e =
          let (fits, same) = start_with-serves conf params e in
          (conf, init_config-Comes first second conf init, fits, same)

-- A service is only made for a port from 1 to 65535, the one of the last -p; without a -p it is the
-- port of the configuration file that was chosen, or of the configuration at the start if there is
-- none.
pub main-port :
    (host : Host) (first second : List Answer) (params : FcopyServiceParams)
    → main host first second ≡ serves params
    → (n : ℕ) × (conffile : Bytes) × (conf : FcopyConfig) × (find_config first [] ≡ some conffile)
      × (load_config host (choose_config host conffile) ≡ ready conf)
      × (params.port ≡ pos n)
      × (pos n ≡ last_port second conf.port)
      × (1 ≤ n)
      × (n ≤ 65535)
unfolding service_params port_fits
main-port host first second params e =
    let (conf, (conffile, from_file, with_options, found, read, applied, settled), fits, same) =
      main-serves host first second params e in
    let port =
      settle-port host with_options conf settled
      ∙ apply_answers-port second from_file with_options applied in
    let (n, value, low, high) = in_range conf.port fits in
    (
      n,
      conffile,
      from_file,
      found,
      read,
      sym (ap (λ p. p.port) same) ∙ value,
      sym value ∙ port,
      low,
      high,
    )
  where
    in_range : (z : ℤ) → port_fits z ≡ true → (n : ℕ) × (z ≡ pos n) × (1 ≤ n) × (n ≤ 65535)
    in_range (pos n) h = (n, refl, ground arith, ground arith)
    in_range (negsuc n) h = cc
