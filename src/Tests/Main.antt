-- ===== src/Tests/Main.antt =====
-- The theorems on the server's main program, at a configuration file in /etc and a port on the
-- command line.
use fcopy.Base.{
  ℕ, ◌*◌, ◌^◌, ◌≡◌, ◌≢◌, ◌≤◌, refl, Bytes, codes, List, [], ◌∷◌, ◌++◌, true, false, none, some, inl,
  inr, arith, All,
}
use fcopy.Base.Int.{pos}
use fcopy.Text.{
  read_number, read_digits, to_digits, is_space, atoi, atol, to_int32, skip_space, leading,
}
use fcopy.Server.Config.Values.{Stold}
use fcopy.Server.Config.Load.{FcopyConfig, initial_config}
use fcopy.Server.Config.Words.{text_of}
use fcopy.Server.Config.Settings.{settings, IsWritable}
use fcopy.Server.Main.{
  Answer, config, port, background, Host, ready, find_config, choose_config, load_config,
  FcopyServiceParams, service_params, serves, main, port_fits,
}
use fcopy.Server.Main.Ports.{last_port, main-port}
use fcopy.Server.Main.Settled.{Continues, Succeeds, main-text_of}
use fcopy.Server.Life.{step, signal, new_service, run, leaving, ended, blocked}
use fcopy.Server.Life.Running.{is_started, run-started}
use fcopy.Server.Life.Stopping.{run-signal}

abbrev digits_stold : Stold
digits_stold s = elim (read_number s) [
  | none ↦ none
  | some (n, rest) ↦ some (rest, λ m. some (pos (n * 2 ^ m)))
]

abbrev conf : FcopyConfig
conf = record initial_config {
  srv_keep_alive_timeout = pos 60000;
  srv_size_limit = 3 * 1024;
  logfile = codes "log";
  default_partition = codes "/srv";
  partitions = (codes "a", codes "/srv/a") ∷ [];
}

abbrev host : Host
host = record {
  home = some (codes "/home");
  join = λ p q. p ++ (codes "/" ++ q);
  is_regular_file = λ p. false;
  read = λ p. some (text_of (settings conf));
  absolute = λ p. (pos 0, p);
  current_path = some (codes "/");
  create_directories = λ p. pos 0;
  open_log = λ p. none;
  stold = digits_stold;
}

abbrev answers : List Answer
answers = config (codes "/etc/f") ∷ port (codes "80") ∷ background ∷ []

conf-IsWritable : IsWritable conf
unfolding is_space
conf-IsWritable = record {
  ints = (refl, refl, refl, refl, refl, refl, refl, refl, refl);
  limit = (refl, omega arith);
  strings = (inr refl, inl refl, inl refl, inr refl);
  words = ((refl, refl), tt);
  named = (tt, tt);
}

host-Succeeds : Succeeds host
host-Succeeds = record { absolute = λ p. refl; create = λ p. refl; opens = λ p. refl }

answers-Continues : All Continues answers
answers-Continues = ((λ e. cc, λ e. cc), ((λ e. cc, λ e. cc), ((λ e. cc, λ e. cc), tt)))

main-text_of_example :
    main host answers answers
    ≡ serves (record (service_params conf) { port = last_port answers conf.port })
unfolding find_config read_number read_digits to_digits atoi atol to_int32 skip_space is_space
    leading port_fits
main-text_of_example =
    main-text_of host answers answers (codes "/etc/f") conf host-Succeeds refl refl refl
      conf-IsWritable refl answers-Continues refl refl

main-port_example :
    (n : ℕ) × (conffile : Bytes) × (c : FcopyConfig) × (find_config answers [] ≡ some conffile)
    × (load_config host (choose_config host conffile) ≡ ready c)
    × (last_port answers conf.port ≡ pos n)
    × (pos n ≡ last_port answers c.port)
    × (1 ≤ n)
    × (n ≤ 65535)
main-port_example = main-port host answers answers _ main-text_of_example

-- A service whose server starts.
abbrev params : FcopyServiceParams
params = record (service_params conf) { default_partition = codes "/srv" }

run-signal_example :
    let s =
      run params (pos 0) (step ∷ step ∷ step ∷ (signal ∷ step ∷ signal ∷ step ∷ [])) new_service in
    (s.phase ≡ ended (pos 0)) × (s.servers ≡ 0)
unfolding run
run-signal_example =
    run-signal params (pos 0) (step ∷ step ∷ step ∷ []) (step ∷ signal ∷ step ∷ []) refl
      (omega arith)

run-started_example :
    let s = run params (pos 0) (step ∷ step ∷ step ∷ step ∷ []) new_service in
    (is_started s.phase ≡ true → (s.servers ≡ 1) × (s.cli ≡ true) × (s.mng ≡ true))
    × (All (λ e. e ≡ step) (step ∷ step ∷ step ∷ step ∷ [])
        → (s.phase ≢ leaving) × (s.phase ≢ ended (pos 0)))
run-started_example = run-started params (pos 0) (step ∷ step ∷ step ∷ step ∷ [])

-- A signal before start has returned is lost: main then waits.
lost_signal :
    (run params (pos 0) (step ∷ signal ∷ step ∷ step ∷ step ∷ []) new_service).phase ≡ blocked
unfolding run
lost_signal = refl
