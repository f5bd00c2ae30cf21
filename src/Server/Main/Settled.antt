-- ===== src/Server/Main/Settled.antt =====
-- main of src/server/fcopy_server.cpp with a configuration file that states a configuration.
use fcopy.Base.{
  ◌≡◌, ◌/◌, refl, ap, ◌∙◌, Bytes, codes, List, [], ◌∷◌, Bool, true, false, Option, none, some,
  if◌then◌else◌, All, ◌≢◌,
}
use fcopy.Base.Int.{pos, is_zero}
use fcopy.Text.{atoi}
use fcopy.Server.Config.Load.{FcopyConfig, load_service_config}
use fcopy.Server.Config.Words.{text_of}
use fcopy.Server.Config.Numerals.{Reads}
use fcopy.Server.Config.Settings.{settings, IsWritable}
use fcopy.Server.Config.Written.{started, load_service_config-text_of}
use fcopy.Server.Main.{
  Answer, config, port, background, help, unknown, Host, ready, ends, find_config, apply_answers,
  choose_config, load_config, settle_path, default_basedir, is_empty, current_dir, settle,
  then_init, init_config, service_params, port_fits, serves, open_log_file, start_with, main,
}
use fcopy.Server.Main.Ports.{last_port}

-- An option that the second loop goes on behind.
abbrev pub Continues : Answer → Type 0
Continues answer = (answer ≢ help) × (answer ≢ unknown)

abbrev goes_background : List Answer → Bool → Bool
goes_background [] b = b
goes_background (background ∷ answers) b = goes_background answers true
goes_background (config arg ∷ answers) b = goes_background answers b
goes_background (port arg ∷ answers) b = goes_background answers b
goes_background (help ∷ answers) b = goes_background answers b
goes_background (unknown ∷ answers) b = goes_background answers b

apply_answers-Continues :
    (answers : List Answer) (conf : FcopyConfig)
    → All Continues answers
    → apply_answers answers conf
      ≡ ready (record conf {
        port = last_port answers conf.port;
        daemonize = goes_background answers conf.daemonize;
      })
unfolding apply_answers
apply_answers-Continues [] conf h = refl
apply_answers-Continues (config arg ∷ answers) conf (h, hs) =
    apply_answers-Continues answers conf hs
apply_answers-Continues (port arg ∷ answers) conf (h, hs) =
    apply_answers-Continues answers (record conf { port = atoi arg }) hs
apply_answers-Continues (background ∷ answers) conf (h, hs) =
    apply_answers-Continues answers (record conf { daemonize = true }) hs
apply_answers-Continues (help ∷ answers) conf (h, hs) = absurd (h.0 refl)
apply_answers-Continues (unknown ∷ answers) conf (h, hs) = absurd (h.1 refl)

-- The calls on paths succeed, and a log file can be opened.
pub record Succeeds (host : Host) : Type 0 where
  pub absolute : (path : Bytes) → is_zero (host.absolute path).0 ≡ true
  pub create : (path : Bytes) → is_zero (host.create_directories path) ≡ true
  pub opens : (path : Bytes) → host.open_log path ≡ none

module _ (host : Host) (fine : Succeeds host) where
  settle_path-Succeeds :
      (basedir path : Bytes) → (s : Bytes) × (settle_path host basedir path ≡ some s)
  unfolding settle_path
  settle_path-Succeeds basedir [] = ([], refl)
  settle_path-Succeeds basedir (c ∷ path) =
      let e = fine.absolute (host.join basedir (c ∷ path)) in
      ((host.absolute (host.join basedir (c ∷ path))).1, rw e refl)

  open_log_file-Succeeds : (path : Bytes) → is_zero (open_log_file host path) ≡ true
  unfolding open_log_file
  open_log_file-Succeeds [] = refl
  open_log_file-Succeeds (c ∷ path) = rw (fine.create (c ∷ path), fine.opens (c ∷ path)) refl

  settled :
      (conf : FcopyConfig) (basedir dir l p : Bytes) (logfile pidfile : Option Bytes)
      → logfile ≡ some l
      → pidfile ≡ some p
      → dir ≡ conf.default_partition
      → elim logfile [
        | none ↦ ends (pos 1)
        | some l ↦ elim pidfile [
          | none ↦ ends (pos 1)
          | some p ↦
              ready (record conf {
                basedir = basedir;
                logfile = l;
                pidfile = p;
                default_partition = dir;
              })
        ]
      ]
        ≡ ready (record conf { basedir = basedir; logfile = l; pidfile = p })
  settled conf basedir dir l p logfile pidfile e f d = rw (e, f, d) refl

  -- A configuration with the partition directory that the other has, apart from its paths.
  settle-Succeeds :
      (conf : FcopyConfig)
      → is_empty conf.default_partition ≡ false
      → (basedir logfile pidfile : Bytes) × (settle host conf
          ≡ ready (record conf { basedir = basedir; logfile = logfile; pidfile = pidfile }))
  unfolding settle
  settle-Succeeds conf set =
      let basedir = if is_empty conf.basedir then default_basedir host else conf.basedir in
      let (logfile, e) = settle_path-Succeeds basedir conf.logfile in
      let (pidfile, f) = settle_path-Succeeds basedir conf.pidfile in
      let dir : (if is_empty conf.default_partition
            then current_dir host
            else conf.default_partition)
          ≡ conf.default_partition =
        rw set refl in
      (
        basedir,
        logfile,
        pidfile,
        settled conf basedir _ logfile pidfile (settle_path host basedir conf.logfile)
            (settle_path host basedir conf.pidfile) e f dir,
      )

  load_config-text_of :
      (file : Bytes) (q : FcopyConfig)
      → is_empty file ≡ false
      → host.read file ≡ some (text_of (settings q))
      → IsWritable q
      → Reads host.stold (q.srv_size_limit / 1024) (codes "K")
      → load_config host file ≡ ready (record q { loglevel = pos 0; conffile = file })
  unfolding load_config
  load_config-text_of file q named read v reads =
      let e =
        ap (λ t. load_service_config host.stold t (started file)) read
        ∙ load_service_config-text_of host.stold file q v reads in
      rw (named, e) refl

  start_with-fits :
      (conf : FcopyConfig)
      → port_fits conf.port ≡ true
      → start_with host conf ≡ serves (service_params conf)
  unfolding start_with
  start_with-fits conf fits = rw (fits, open_log_file-Succeeds conf.logfile) refl

  init_config-ready :
      (first second : List Answer) (file : Bytes) (c d conf : FcopyConfig)
      → find_config first [] ≡ some file
      → load_config host (choose_config host file) ≡ ready c
      → apply_answers second c ≡ ready d
      → settle host d ≡ ready conf
      → init_config host first second ≡ ready conf
  unfolding init_config then_init
  init_config-ready first second file c d conf found loads applied settles =
      rw (found, init_config)
        (ap (λ i. then_init host i (λ k. then_init host (apply_answers second k) (settle host)))
            loads
          ∙ ap (λ i. then_init host i (settle host)) applied
          ∙ settles)

  -- main with a configuration that comes from the chosen file.
  main-ready :
      (first second : List Answer) (file : Bytes) (conf : FcopyConfig)
      → find_config first [] ≡ some file
      → load_config host (choose_config host file) ≡ ready conf
      → All Continues second
      → is_empty conf.default_partition ≡ false
      → port_fits (last_port second conf.port) ≡ true
      → main host first second
        ≡ serves (record (service_params conf) { port = last_port second conf.port })
  unfolding main service_params
  main-ready first second file conf found loads goes_on set fits =
      let with_options : FcopyConfig = record conf {
        port = last_port second conf.port;
        daemonize = goes_background second conf.daemonize;
      } in
      let (basedir, logfile, pidfile, settles) = settle-Succeeds with_options set in
      let ready_conf : FcopyConfig = record with_options {
        basedir = basedir;
        logfile = logfile;
        pidfile = pidfile;
      } in
      let init =
        init_config-ready first second file conf with_options ready_conf found loads
          (apply_answers-Continues second conf goes_on) settles in
      rw (init, main) (start_with-fits ready_conf fits)

  choose_config-named : (file : Bytes) → is_empty file ≡ false → choose_config host file ≡ file
  unfolding choose_config
  choose_config-named file named = rw named refl

-- With a configuration file that states the configuration q and is named by the last -c, a service
-- is made for exactly the parameters of q, with the port of the last -p if there is one: if the
-- options have no -h and no '?', the port is from 1 to 65535, q names a default partition, the calls
-- on paths and the log file succeed, and std::stold reads the limit exactly.
pub main-text_of :
    (host : Host) (first second : List Answer) (file : Bytes) (q : FcopyConfig)
    → Succeeds host
    → find_config first [] ≡ some file
    → is_empty file ≡ false
    → host.read file ≡ some (text_of (settings q))
    → IsWritable q
    → Reads host.stold (q.srv_size_limit / 1024) (codes "K")
    → All Continues second
    → is_empty q.default_partition ≡ false
    → port_fits (last_port second q.port) ≡ true
    → main host first second ≡ serves (record (service_params q) { port = last_port second q.port })
unfolding service_params
main-text_of host first second file q fine found named read v reads goes_on set fits =
    let conf : FcopyConfig = record q { loglevel = pos 0; conffile = file } in
    let loads =
      ap (load_config host) (choose_config-named host fine file named)
      ∙ load_config-text_of host fine file q named read v reads in
    main-ready host fine first second file conf found loads goes_on set fits
