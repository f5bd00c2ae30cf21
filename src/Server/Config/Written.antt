-- ===== src/Server/Config/Written.antt =====
-- A configuration written out as a file, and load_service_config of src/server/load_config.cpp on it.
use fcopy.Base.{Bytes, ◌/◌, ◌≡◌, refl, ap, ◌∙◌, codes, [], ◌∷◌, ◌++◌, some, subst}
use fcopy.Base.Int.{pos}
use fcopy.Text.{is_space, to_string}
use fcopy.Server.Config.Words.{text_of, lines-text_of}
use fcopy.Server.Config.Numerals.{Reads}
use fcopy.Server.Config.Values.{Stold}
use fcopy.Server.Config.Load.{
  FcopyConfig, initial_config, daemonize, directio, logfile, pidfile, basedir, default_partition,
  find_key, loaded, load_lines, load_service_config,
}
use fcopy.Server.Config.Settings.{
  yes_no, string_setting, partition_settings, int_entries, int_settings, set_ints, other_settings,
  string_settings, settings, IsWritable,
}
use fcopy.Server.Config.Steps.{
  insert_all-Named, Applies, Applies-append, load_lines-Applies, Applies-IsLine, ints-Applies,
  int_entries-IsIntEntry, string_setting-Applies, bool_setting, limit_setting,
  partition_settings-Applies,
}

-- The configuration of init_config before the file is read.
abbrev pub started : Bytes → FcopyConfig
started file = record initial_config { conffile = file }

module _ (stold : Stold) (file : Bytes) where
  -- What stands in the configuration after the ints, the limit and the flags, and the strings.
  abbrev with_limit : FcopyConfig → FcopyConfig
  with_limit q = record (set_ints (int_entries q) (started file)) {
    srv_size_limit = q.srv_size_limit;
  }

  abbrev with_flags : FcopyConfig → FcopyConfig
  with_flags q = record (with_limit q) { daemonize = q.daemonize; directio = q.directio }

  abbrev with_strings : FcopyConfig → FcopyConfig
  with_strings q = record (with_flags q) {
    logfile = q.logfile;
    pidfile = q.pidfile;
    basedir = q.basedir;
    default_partition = q.default_partition;
  }

  abbrev with_partitions : FcopyConfig → FcopyConfig
  with_partitions q = record q { loglevel = pos 0; conffile = file }

  others-Applies :
      (q : FcopyConfig)
      → IsWritable q
      → Reads stold (q.srv_size_limit / 1024) (codes "K")
      → Applies stold (other_settings q) (set_ints (int_entries q) (started file)) (with_flags q)
  unfolding find_key is_space
  others-Applies q v reads =
      let ints = set_ints (int_entries q) (started file) in
      Applies-append stold
        ((codes "request-size-limit", (to_string (q.srv_size_limit / 1024) ++ codes "K") ∷ []) ∷ [])
        ((codes "daemonize", yes_no q.daemonize ∷ [])
          ∷ (codes "directio", yes_no q.directio ∷ [])
          ∷ [])
        ints (with_limit q) (with_flags q)
        (limit_setting stold q.srv_size_limit ints reads v.limit.0 v.limit.1)
        (Applies-append stold ((codes "daemonize", yes_no q.daemonize ∷ []) ∷ [])
          ((codes "directio", yes_no q.directio ∷ []) ∷ []) (with_limit q)
          (record (with_limit q) { daemonize = q.daemonize }) (with_flags q)
          (bool_setting stold (codes "daemonize") daemonize q.daemonize (with_limit q) (refl, refl))
          (bool_setting stold (codes "directio") directio q.directio
            (record (with_limit q) { daemonize = q.daemonize }) (refl, refl)))

  strings-Applies :
      (q : FcopyConfig)
      → IsWritable q
      → Applies stold (string_settings q) (with_flags q) (with_strings q)
  unfolding find_key is_space
  strings-Applies q v =
      let p1 : FcopyConfig = record (with_flags q) { logfile = q.logfile } in
      let p2 : FcopyConfig = record p1 { pidfile = q.pidfile } in
      let p3 : FcopyConfig = record p2 { basedir = q.basedir } in
      let s1 = string_setting (codes "logfile") q.logfile in
      let s2 = string_setting (codes "pidfile") q.pidfile in
      let s3 = string_setting (codes "basedir") q.basedir in
      let s4 = string_setting (codes "default-partition") q.default_partition in
      Applies-append stold s1 (s2 ++ (s3 ++ s4)) (with_flags q) p1 (with_strings q)
        (string_setting-Applies stold (codes "logfile") logfile q.logfile (with_flags q)
          (refl, refl) refl v.strings.0)
        (Applies-append stold s2 (s3 ++ s4) p1 p2 (with_strings q)
          (string_setting-Applies stold (codes "pidfile") pidfile q.pidfile p1 (refl, refl) refl
            v.strings.1)
          (Applies-append stold s3 s4 p2 p3 (with_strings q)
            (string_setting-Applies stold (codes "basedir") basedir q.basedir p2 (refl, refl) refl
              v.strings.2)
            (string_setting-Applies stold (codes "default-partition") default_partition
              q.default_partition p3 (refl, refl) refl v.strings.3)))

  settings-Applies :
      (q : FcopyConfig)
      → IsWritable q
      → Reads stold (q.srv_size_limit / 1024) (codes "K")
      → Applies stold (settings q) (started file) (with_partitions q)
  settings-Applies q v reads =
      let parts =
        subst
          (λ m.
            Applies stold (partition_settings q.partitions) (with_strings q)
              (record (with_strings q) { partitions = m }))
          (insert_all-Named q.partitions [] v.named)
          (partition_settings-Applies stold q.partitions (with_strings q) v.words) in
      let ints = set_ints (int_entries q) (started file) in
      Applies-append stold (int_settings (int_entries q))
        (other_settings q ++ (string_settings q ++ partition_settings q.partitions)) (started file)
        ints (with_partitions q)
        (ints-Applies stold (int_entries q) (started file) (int_entries-IsIntEntry stold q v))
        (Applies-append stold (other_settings q)
          (string_settings q ++ partition_settings q.partitions) ints (with_flags q)
          (with_partitions q) (others-Applies q v reads)
          (Applies-append stold (string_settings q) (partition_settings q.partitions) (with_flags q)
            (with_strings q) (with_partitions q) (strings-Applies q v) parts))

-- A configuration that a file can hold, with its log level as it is at the start and the name of the
-- file, is written as a text that load_service_config reads back, when std::stold reads the limit in units
-- of 2^10 exactly.
pub load_service_config-text_of :
    (stold : Stold) (file : Bytes) (q : FcopyConfig)
    → IsWritable q
    → Reads stold (q.srv_size_limit / 1024) (codes "K")
    → load_service_config stold (some (text_of (settings q))) (started file)
      ≡ loaded (record q { loglevel = pos 0; conffile = file })
unfolding load_service_config
load_service_config-text_of stold file q v reads =
    let goes = settings-Applies stold file q v reads in
    let split =
      lines-text_of (settings q) (Applies-IsLine stold (settings q) (started file) _ goes) in
    ap (λ ls. load_lines stold 0 ls (started file)) split
    ∙ load_lines-Applies stold 0 (settings q) (started file) _ goes
