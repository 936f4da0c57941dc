-- ===== src/Config.antt =====
-- Config of src/utils/config.cc and src/utils/config.h. The YAML library is a parameter over its nodes N.
pub mod Leaves
pub mod Merge
use cpp_oj_vbcoding_teach.Prelude.{
  ℕ, ◌≡◌, refl, ap, sym, ◌∙◌, Bool, true, false, List, [], ◌∷◌, Bytes, codes, Option, none, some,
}
use cpp_oj_vbcoding_teach.Prelude.Int.{ℤ, pos}

pub record ServerConfig : Type 0 where
  pub host : Bytes
  pub port : ℤ

pub record DatabaseConfig : Type 0 where
  pub host : Bytes
  pub port : ℤ
  pub user : Bytes
  pub password : Bytes
  pub name : Bytes
  pub pool_size : ℤ

pub record LoggerConfig : Type 0 where
  pub level : Bytes
  pub file : Bytes

pub record Config : Type 0 where
  pub server : ServerConfig
  pub database : DatabaseConfig
  pub logger : LoggerConfig

abbrev pub new_config : Config
new_config = record {
  server = record { host = codes "0.0.0.0"; port = pos 8080 };
  database = record {
    host = codes "127.0.0.1";
    port = pos 3306;
    user = codes "root";
    password = [];
    name = codes "cpp_oj";
    pool_size = pos 4;
  };
  logger = record { level = codes "INFO"; file = codes "logs/oj.log" };
}

-- `none` is a YAML::Exception. `child n key` is `n[key]`, and `some none` a node that is not there.
pub record Yaml (N : Type 0) : Type 0 where
  pub load_file : Bytes → Option N
  pub child : N → Bytes → Option (Option N)
  pub as_text : N → Option Bytes
  pub as_int : N → Option ℤ

-- A part of `load`: false where it throws, with what was set until then.
abbrev pub Load : Type 0 → Type 0
Load C = C → Bool × C

module _ {C : Type 0} where
  -- An exception ends the rest.
  unfoldable pub after : Bool × C → Load C → Bool × C
  after (true, c) rest = rest c
  after (false, c) rest = (false, c)

  unfoldable pub steps : List (Load C) → Load C
  steps [] c = (true, c)
  steps (step ∷ rest) c = after (step c) (steps rest)

  -- `field = value`.
  unfoldable pub store_value : {A : Type 0} → (A → C → C) → Option A → Load C
  store_value set none c = (false, c)
  store_value set (some a) c = (true, set a c)

  -- `if (node) { ... }`.
  unfoldable pub if_there : {N : Type 0} → (N → Load C) → Option (Option N) → Load C
  if_there inside none c = (false, c)
  if_there inside (some none) c = (true, c)
  if_there inside (some (some node)) c = inside node c

module _ {N : Type 0} (yaml : Yaml N) where
  -- `if (n[key]) { ... }`.
  unfoldable pub part : {C : Type 0} → N → Bytes → (N → Load C) → Load C
  part n key inside = if_there inside (yaml.child n key)

  -- `if (s[key]) field = s[key].as<A>();`
  unfoldable pub setting : {A C : Type 0} → (N → Option A) → N → Bytes → (A → C → C) → Load C
  setting cast section key set = part section key (λ node. store_value set (cast node))

  unfoldable pub load_server : N → Load ServerConfig
  load_server n = steps (
      setting yaml.as_text n (codes "host") (λ v c. record c { host = v })
      ∷ setting yaml.as_int n (codes "port") (λ v c. record c { port = v })
      ∷ [])

  unfoldable pub load_database : N → Load DatabaseConfig
  load_database n = steps (
      setting yaml.as_text n (codes "host") (λ v c. record c { host = v })
      ∷ setting yaml.as_int n (codes "port") (λ v c. record c { port = v })
      ∷ setting yaml.as_text n (codes "user") (λ v c. record c { user = v })
      ∷ setting yaml.as_text n (codes "password") (λ v c. record c { password = v })
      ∷ setting yaml.as_text n (codes "name") (λ v c. record c { name = v })
      ∷ setting yaml.as_int n (codes "pool_size") (λ v c. record c { pool_size = v })
      ∷ [])

  unfoldable pub load_logger : N → Load LoggerConfig
  load_logger n = steps (
      setting yaml.as_text n (codes "level") (λ v c. record c { level = v })
      ∷ setting yaml.as_text n (codes "file") (λ v c. record c { file = v })
      ∷ [])

  unfoldable pub load_root : N → Load Config
  load_root root = steps (
      part root (codes "server")
        (λ n c. let (going, s) = load_server n c.server in (going, record c { server = s }))
      ∷ part root (codes "database")
          (λ n c. let (going, d) = load_database n c.database in (going, record c { database = d }))
      ∷ part root (codes "logger")
          (λ n c. let (going, l) = load_logger n c.logger in (going, record c { logger = l }))
      ∷ [])

  unfoldable pub from_file : Option N → Load Config
  from_file none c = (false, c)
  from_file (some root) c = load_root root c

  -- `Config::load`: a file that cannot be read to its end leaves what was set until then.
  unfoldable pub load : Bytes → Load Config
  load config_path = from_file (yaml.load_file config_path)

unfoldable pub reset_config : Config → Config
reset_config c = new_config
