-- ===== src/Examples/Config.antt =====
-- A configuration file that sets the size of the pool only.
use cpp_oj_vbcoding_teach.Prelude.{ℕ, ◌≡◌, refl, true, codes, str_eq, if◌then◌else◌, none, some}
use cpp_oj_vbcoding_teach.Prelude.Int.{pos}
use cpp_oj_vbcoding_teach.Config.{
  new_config, Yaml, steps, after, store_value, if_there, part, setting, load_server, load_database,
  load_logger, load_root, from_file, load,
}
use cpp_oj_vbcoding_teach.Config.Merge.{merged, load_merges}

-- Node 0 is the root, node 1 the database section, node 2 the number 8.
abbrev one_setting : Yaml ℕ
one_setting = record {
  load_file = λ path. some 0;
  child = λ n key.
      if str_eq key (codes "database")
      then some (some 1)
      else if str_eq key (codes "pool_size")
      then some (some 2)
      else some none;
  as_text = λ n. none;
  as_int = λ n. some (pos 8);
}

load_merges_example :
    (root : ℕ) × (some 0 ≡ some root)
    × (load one_setting (codes "config.yaml") new_config
        ≡ (true, merged one_setting root new_config))
unfolding load from_file load_root load_server load_database load_logger steps after part setting
    if_there store_value str_eq
load_merges_example = load_merges one_setting (codes "config.yaml") new_config refl
