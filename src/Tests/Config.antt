-- ===== src/Tests/Config.antt =====
-- The theorems on the configuration file, at the line `"a" b` behind a space.
use fcopy.Base.{codes, inl, inr, ◌^◌, ◌*◌, none, some, true}
use fcopy.Base.Int.{pos, negsuc}
use fcopy.Text.{read_number, is_space, lines, read_digits, to_digits}
use fcopy.Server.Config.Values.{Stold}
use fcopy.Server.Config.Load.{FcopyConfig, initial_config, loaded, bad_value, load_service_config}
use fcopy.Server.Config.Words.{text_of}
use fcopy.Server.Config.Settings.{settings, IsWritable}
use fcopy.Server.Config.Written.{started, load_service_config-text_of}
use fcopy.Server.Config.Refused.{RefusedAt, load_service_config-bad_value}
use fcopy.Base.{Bytes, codes, ◌∷◌, [], ◌≡◌, refl, ◌++◌, arith}
use fcopy.Server.Config.{quote, bad, parse_line}
use fcopy.Text.{skip_space, is_space}
use fcopy.Server.Config.Quotes.{parse_line-quote}

abbrev rest : Bytes
rest = codes "a" ++ (quote ∷ codes " b")

abbrev line : Bytes
line = codes " " ++ (quote ∷ rest)

line-first : skip_space line ≡ quote ∷ rest
unfolding skip_space is_space
line-first = refl

parse_line-quote_example : parse_line line ≡ bad
parse_line-quote_example = parse_line-quote line rest line-first

-- A std::stold for texts of digits.
abbrev digits_stold : Stold
digits_stold s = elim (read_number s) [
  | none ↦ none
  | some (n, rest) ↦ some (rest, λ m. some (pos (n * 2 ^ m)))
]

abbrev some_config : FcopyConfig
some_config = record initial_config {
  daemonize = true;
  port = pos 5300;
  srv_receive_timeout = negsuc 4;
  srv_size_limit = 3 * 1024;
  basedir = codes "/srv";
  default_partition = codes "a";
  partitions = (codes "a", codes "/srv/a") ∷ (codes "b", codes "/srv/b") ∷ [];
}

some_config-IsWritable : IsWritable some_config
unfolding is_space
some_config-IsWritable = record {
  ints = (refl, refl, refl, refl, refl, refl, refl, refl, refl);
  limit = (refl, omega arith);
  strings = (inl refl, inl refl, inr refl, inr refl);
  words = ((refl, refl), ((refl, refl), tt));
  named = ((refl, tt), (tt, tt));
}

load_service_config-text_of_example :
    load_service_config digits_stold (some (text_of (settings some_config))) (started [])
    ≡ loaded (record some_config { loglevel = pos 0; conffile = [] })
unfolding read_number read_digits to_digits
load_service_config-text_of_example =
    load_service_config-text_of digits_stold [] some_config some_config-IsWritable refl

abbrev wrong_port : Bytes
wrong_port = codes "daemonize yes\nport x\n"

load_service_config-bad_value_example :
    (load_service_config digits_stold (some wrong_port) initial_config ≡ bad_value 2 (codes "port")
      → RefusedAt digits_stold 0 2 (codes "port") (lines wrong_port) initial_config)
    × (RefusedAt digits_stold 0 2 (codes "port") (lines wrong_port) initial_config
        → load_service_config digits_stold (some wrong_port) initial_config
          ≡ bad_value 2 (codes "port"))
load_service_config-bad_value_example =
    load_service_config-bad_value digits_stold wrong_port initial_config 2 (codes "port")
