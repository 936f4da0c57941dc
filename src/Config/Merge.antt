-- ===== src/Config/Merge.antt =====
-- What a configuration file that is read to its end leaves.
use cpp_oj_vbcoding_teach.Prelude.{◌≡◌, refl, ap, ◌∙◌, true, Bytes, codes, Option, none, some}
use cpp_oj_vbcoding_teach.Config.{
  ServerConfig, DatabaseConfig, LoggerConfig, Config, Yaml, Load, setting, part, load_server,
  load_database, load_logger, load_root, from_file, load,
}
use cpp_oj_vbcoding_teach.Config.Leaves.{
  there, or_old, value_of, Leaves, Leaves-none, Leaves-step, in_section, if_there-true,
  section_true,
}

module _ {N : Type 0} (yaml : Yaml N) where
  abbrev pub section : N → Bytes → Option N
  section root key = there (yaml.child root key)

  -- The value of a setting: that of the file, or the old one where the file has none.
  abbrev pub value_or : {A : Type 0} → (N → Option A) → Option N → Bytes → A → A
  value_or cast none key old = old
  value_or cast (some n) key old = or_old old (value_of cast (section n key))

  abbrev pub server_with : Option N → ServerConfig → ServerConfig
  server_with o c = record {
    host = value_or yaml.as_text o (codes "host") c.host;
    port = value_or yaml.as_int o (codes "port") c.port;
  }

  abbrev pub database_with : Option N → DatabaseConfig → DatabaseConfig
  database_with o c = record {
    host = value_or yaml.as_text o (codes "host") c.host;
    port = value_or yaml.as_int o (codes "port") c.port;
    user = value_or yaml.as_text o (codes "user") c.user;
    password = value_or yaml.as_text o (codes "password") c.password;
    name = value_or yaml.as_text o (codes "name") c.name;
    pool_size = value_or yaml.as_int o (codes "pool_size") c.pool_size;
  }

  abbrev pub logger_with : Option N → LoggerConfig → LoggerConfig
  logger_with o c = record {
    level = value_or yaml.as_text o (codes "level") c.level;
    file = value_or yaml.as_text o (codes "file") c.file;
  }

  -- Every setting of the file over the old configuration.
  abbrev pub merged : N → Config → Config
  merged root c = record {
    server = server_with (section root (codes "server")) c.server;
    database = database_with (section root (codes "database")) c.database;
    logger = logger_with (section root (codes "logger")) c.logger;
  }

module _ {N : Type 0} (yaml : Yaml N) where
  Leaves-setting :
      {A C : Type 0} (cast : N → Option A) (n : N) (key : Bytes) (set : A → C → C) (get : C → A)
      → ((c : C) → set (get c) c ≡ c)
      → Leaves (setting yaml cast n key set) (λ c. set (value_or yaml cast (some n) key (get c)) c)
  unfolding setting part
  Leaves-setting cast n key set get same = record {
    at = if_there-true cast set get same (yaml.child n key);
  }

  Leaves-part :
      {C : Type 0} (n : N) (key : Bytes) (inside : N → Load C) (f : N → C → C)
      → ((m : N) → Leaves (inside m) (f m))
      → Leaves (part yaml n key inside) (in_section f (section yaml n key))
  unfolding part
  Leaves-part n key inside f l = record { at = section_true inside f l (yaml.child n key) }

  Leaves-load_server : (n : N) → Leaves (load_server yaml n) (server_with yaml (some n))
  unfolding load_server
  Leaves-load_server n =
      Leaves-step _ _ _ _
        (Leaves-setting yaml.as_text n (codes "host") (λ v c. record c { host = v }) (λ c. c.host)
          (λ c. refl))
        (Leaves-step _ _ _ _
          (Leaves-setting yaml.as_int n (codes "port") (λ v c. record c { port = v }) (λ c. c.port)
            (λ c. refl))
          Leaves-none)

  Leaves-load_database : (n : N) → Leaves (load_database yaml n) (database_with yaml (some n))
  unfolding load_database
  Leaves-load_database n =
      Leaves-step _ _ _ _
        (Leaves-setting yaml.as_text n (codes "host") (λ v c. record c { host = v }) (λ c. c.host)
          (λ c. refl))
        (Leaves-step _ _ _ _
          (Leaves-setting yaml.as_int n (codes "port") (λ v c. record c { port = v }) (λ c. c.port)
            (λ c. refl))
          (Leaves-step _ _ _ _
            (Leaves-setting yaml.as_text n (codes "user") (λ v c. record c { user = v })
              (λ c. c.user) (λ c. refl))
            (Leaves-step _ _ _ _
              (Leaves-setting yaml.as_text n (codes "password") (λ v c. record c { password = v })
                (λ c. c.password) (λ c. refl))
              (Leaves-step _ _ _ _
                (Leaves-setting yaml.as_text n (codes "name") (λ v c. record c { name = v })
                  (λ c. c.name) (λ c. refl))
                (Leaves-step _ _ _ _
                  (Leaves-setting yaml.as_int n (codes "pool_size")
                    (λ v c. record c { pool_size = v }) (λ c. c.pool_size) (λ c. refl))
                  Leaves-none)))))

  Leaves-load_logger : (n : N) → Leaves (load_logger yaml n) (logger_with yaml (some n))
  unfolding load_logger
  Leaves-load_logger n =
      Leaves-step _ _ _ _
        (Leaves-setting yaml.as_text n (codes "level") (λ v c. record c { level = v })
          (λ c. c.level) (λ c. refl))
        (Leaves-step _ _ _ _
          (Leaves-setting yaml.as_text n (codes "file") (λ v c. record c { file = v }) (λ c. c.file)
            (λ c. refl))
          Leaves-none)

  Leaves-within :
      {S : Type 0} (inner : Load S) (f : S → S) (get : Config → S) (set : S → Config → Config)
      → Leaves inner f
      → Leaves (λ c. let (going, x) = inner (get c) in (going, set x c)) (λ c. set (f (get c)) c)
  Leaves-within inner f get set l = record {
    at = λ c h. ap (λ r. (r.0, set r.1 c)) (l.at (get c) h);
  }

  server_same :
      (o : Option N) (c : Config)
      → in_section (λ n c. record c { server = server_with yaml (some n) c.server }) o c
        ≡ record c { server = server_with yaml o c.server }
  server_same none c = refl
  server_same (some n) c = refl

  database_same :
      (o : Option N) (c : Config)
      → in_section (λ n c. record c { database = database_with yaml (some n) c.database }) o c
        ≡ record c { database = database_with yaml o c.database }
  database_same none c = refl
  database_same (some n) c = refl

  logger_same :
      (o : Option N) (c : Config)
      → in_section (λ n c. record c { logger = logger_with yaml (some n) c.logger }) o c
        ≡ record c { logger = logger_with yaml o c.logger }
  logger_same none c = refl
  logger_same (some n) c = refl

  load_root-true :
      (root : N) (c : Config)
      → (load_root yaml root c).0 ≡ true
      → load_root yaml root c ≡ (true, merged yaml root c)
  unfolding load_root
  load_root-true root c h =
      let all =
        Leaves-step _ _ _ _
          (Leaves-part root (codes "server") _ _ (λ n.
            Leaves-within (load_server yaml n) _ (λ c. c.server) (λ x c. record c { server = x })
              (Leaves-load_server n)))
          (Leaves-step _ _ _ _
            (Leaves-part root (codes "database") _ _ (λ n.
              Leaves-within (load_database yaml n) _ (λ c. c.database)
                (λ x c. record c { database = x }) (Leaves-load_database n)))
            (Leaves-step _ _ _ _
              (Leaves-part root (codes "logger") _ _ (λ n.
                Leaves-within (load_logger yaml n) _ (λ c. c.logger)
                  (λ x c. record c { logger = x }) (Leaves-load_logger n)))
              Leaves-none)) in
      let sections =
        logger_same (section yaml root (codes "logger")) _
        ∙ ap {A = Config}
            (λ x. record x {
              logger = logger_with yaml (section yaml root (codes "logger")) x.logger;
            })
            (database_same (section yaml root (codes "database")) _
              ∙ ap {A = Config}
                  (λ x. record x {
                    database = database_with yaml (section yaml root (codes "database")) x.database;
                  })
                  (server_same (section yaml root (codes "server")) c)) in
      all.at c h ∙ ap {A = Config} (λ x. (true, x)) sections

  load_file_true :
      (o : Option N) (c : Config)
      → (from_file yaml o c).0 ≡ true
      → (root : N) × (o ≡ some root) × (from_file yaml o c ≡ (true, merged yaml root c))
  unfolding from_file
  load_file_true none c h = absurd cc
  load_file_true (some root) c h = (root, refl, load_root-true root c h)

  -- Where `load` succeeds, the file was read, and every setting has the value of the file, or the old one
  -- where the file has no such setting or section.
  pub load_merges :
      (config_path : Bytes) (c : Config)
      → (load yaml config_path c).0 ≡ true
      → (root : N) × (yaml.load_file config_path ≡ some root)
        × (load yaml config_path c ≡ (true, merged yaml root c))
  unfolding load
  load_merges config_path c h = load_file_true (yaml.load_file config_path) c h
