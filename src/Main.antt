-- ===== src/Main.antt =====
-- src/main.cc and startServer of src/server/server.cc: how the server program starts and stops its parts.
-- The lines that main and startServer log are left out.
use cpp_oj_vbcoding_teach.Prelude.{
  Bytes, ℕ, ◌≡◌, refl, Bool, true, false, if◌then◌else◌, [], codes, Option, none, some,
}
use cpp_oj_vbcoding_teach.Prelude.Int.{ℤ, pos}
use cpp_oj_vbcoding_teach.Pool.Mysql.{Client, ConnectParams}
use cpp_oj_vbcoding_teach.Pool as Pool
use cpp_oj_vbcoding_teach.Db.Exec.{Db}
use cpp_oj_vbcoding_teach.Config.{Config, DatabaseConfig, new_config, Yaml, load}
use cpp_oj_vbcoding_teach.Logger as Logger
use cpp_oj_vbcoding_teach.Router.{Library, register_routes}
use cpp_oj_vbcoding_teach.Auth.Cleanup.{
  Service, new_service, replace_thread, start_background_cleanup, stop_background_cleanup,
}

-- The singletons of the process, with what the logger has written.
pub record Process (W : Type 0) : Type 0 where
  pub config : Config
  pub logger : Logger.Logger
  pub written : Logger.Written
  pub db : Db W
  pub cleanup : Service

abbrev pub connect_params : DatabaseConfig → ConnectParams
connect_params c = record {
  host = c.host;
  port = c.port;
  user = c.user;
  password = c.password;
  dbname = c.name;
}

abbrev pub new_process : {W : Type 0} → W → Logger.Written → Process W
new_process w written = record {
  config = new_config;
  logger = Logger.new_logger;
  written = written;
  db = record { pool = Pool.new_pool; world = w };
  cleanup = new_service;
}

module _ {N S W : Type 0} (yaml : Yaml N) (client : Client W) (library : Library S W) where
  -- `none` where a thread that can be joined is replaced, which ends the program. The result of
  -- `server.listen` is not looked at.
  unfoldable pub start_server : Bytes → ℤ → Process W → Option (Process W)
  start_server host port s =
      let mounted = library.set_mount_point (codes "/") (codes "./public") library.new_server in
      let server = register_routes library mounted in
      elim (start_background_cleanup (pos 1800) s.cleanup) [
        | none ↦ none
        | some t ↦ some (record s {
          db = library.listen host port server s.db;
          cleanup = stop_background_cleanup t;
        })
      ]

  -- `opens` says whether the file of the logger can be opened.
  unfoldable pub init_all : Bool → Config → Process W → Process W
  init_all opens config s =
      let (logger, written) =
        Logger.init opens (Logger.level_from_string config.logger.level) config.logger.file s.logger
          s.written in
      let (pool, world) =
        Pool.init client (connect_params config.database) config.database.pool_size s.db.pool
          s.db.world in
      record {
        config = config;
        logger = logger;
        written = written;
        db = record { pool = pool; world = world };
        cleanup = s.cleanup;
      }

  unfoldable pub shutdown_all : Process W → Process W
  shutdown_all s =
      let (pool, world) = Pool.shutdown client s.db.pool s.db.world in
      record s { db = record { pool = pool; world = world }; logger = Logger.shutdown s.logger }

  unfoldable pub served : Option (Process W) → Option (ℕ × Process W)
  served none = none
  served (some s) = some (0, shutdown_all s)

  unfoldable pub with_config : Bool → Bool × Config → Process W → Option (ℕ × Process W)
  with_config opens (false, config) s = some (1, record s { config = config })
  with_config opens (true, config) s =
      served (start_server config.server.host config.server.port (init_all opens config s))

  -- `main`, with the exit code, where it comes to its end.
  unfoldable pub main : Bool → Process W → Option (ℕ × Process W)
  main opens s = with_config opens (load yaml (codes "config/config.yaml") s.config) s

  -- What a process that comes to its end leaves: the exit code 1 where the configuration was not loaded,
  -- and else 0, with the pool and the logger shut down and no thread.
  pub record IsEnd (loaded : Bool) (code : ℕ) (t : Process W) : Type 0 where
    pub code_is : code ≡ (if loaded then 0 else 1)
    pub pool_down : t.db.pool.initialized ≡ false
    pub none_idle : t.db.pool.idle ≡ []
    pub no_file : t.logger ≡ Logger.new_logger
    pub no_thread : t.cleanup.thread ≡ none

  with_config_ends :
      (opens : Bool) (w : W) (written : Logger.Written) (loaded : Bool × Config)
      → (code : ℕ) × (t : Process W) × (with_config opens loaded (new_process w written)
          ≡ some (code, t))
        × IsEnd loaded.0 code t
  unfolding with_config served start_server start_background_cleanup stop_background_cleanup
      replace_thread shutdown_all Pool.shutdown init_all
  with_config_ends opens w written (false, config) = (
    1,
    _,
    refl,
    record { code_is = refl; pool_down = refl; none_idle = refl; no_file = refl; no_thread = refl },
  )
  with_config_ends opens w written (true, config) = (
    0,
    _,
    refl,
    record { code_is = refl; pool_down = refl; none_idle = refl; no_file = refl; no_thread = refl },
  )

  -- Whatever the server does until `server.listen` returns, the program comes to its end: with exit code 1
  -- where the configuration cannot be loaded, and with 0 else, also where no connection could be made. Then
  -- the pool and the logger are shut down and the thread of the clean-up has ended.
  pub main_ends :
      (opens : Bool) (w : W) (written : Logger.Written)
      → (code : ℕ) × (t : Process W) × (main opens (new_process w written) ≡ some (code, t))
        × IsEnd (load yaml (codes "config/config.yaml") new_config).0 code t
  unfolding main
  main_ends opens w written =
      with_config_ends opens w written (load yaml (codes "config/config.yaml") new_config)
