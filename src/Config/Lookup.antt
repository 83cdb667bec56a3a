-- ===== src/Config/Lookup.antt =====
-- `DB_LOOKUP` of tortoise/backends/base/config_generator.py: the backends by the scheme of their URL.
use tortoise_orm_zh_cn.Base.{
  Bool, true, false, String, [], ◌∷◌, Option, none, some, ◌==◌, if◌then◌else◌,
}
use tortoise_orm_zh_cn.Base.Int.{ℤ, pos}
use tortoise_orm_zh_cn.Base.Dict.{Dict}

-- The types that a query value is converted to.
pub data Cast : Type 0 where
  to_int to_float to_bool to_str : Cast

-- The value of a setting; `fraction` holds the text of a float.
pub data Setting : Type 0 where
  text : String → Setting
  number : ℤ → Setting
  fraction : String → Setting
  flag : Bool → Setting
  nothing : Setting

pub record Backend : Type 0 where
  pub engine : String
  pub skip_first_char : Bool
  pub vmap : Dict String
  pub defaults : Dict Setting
  pub cast : Dict Cast

-- The mapping that all backends but SQLite share.
abbrev pub server_vmap : Dict String
server_vmap =
    ("path", "database")
    ∷ ("hostname", "host")
    ∷ ("port", "port")
    ∷ ("username", "user")
    ∷ ("password", "password")
    ∷ []

abbrev pub postgres_cast : Dict Cast
postgres_cast =
    ("min_size", to_int)
    ∷ ("max_size", to_int)
    ∷ ("max_queries", to_int)
    ∷ ("max_inactive_connection_lifetime", to_float)
    ∷ ("timeout", to_int)
    ∷ ("statement_cache_size", to_int)
    ∷ ("max_cached_statement_lifetime", to_int)
    ∷ ("max_cacheable_statement_size", to_int)
    ∷ ("ssl", to_bool)
    ∷ []

abbrev pub psycopg : Backend
psycopg = record {
  engine = "tortoise.backends.psycopg";
  skip_first_char = true;
  vmap = server_vmap;
  defaults = ("port", number (pos 5432)) ∷ [];
  cast = postgres_cast;
}

abbrev pub asyncpg : Backend
asyncpg = record {
  engine = "tortoise.backends.asyncpg";
  skip_first_char = true;
  vmap = server_vmap;
  defaults = ("port", number (pos 5432)) ∷ [];
  cast = postgres_cast;
}

abbrev pub sqlite : Backend
sqlite = record {
  engine = "tortoise.backends.sqlite";
  skip_first_char = false;
  vmap = ("path", "file_path") ∷ [];
  defaults = ("journal_mode", text "WAL") ∷ ("journal_size_limit", number (pos 16384)) ∷ [];
  cast = ("journal_size_limit", to_int) ∷ [];
}

abbrev pub mysql : Backend
mysql = record {
  engine = "tortoise.backends.mysql";
  skip_first_char = true;
  vmap = server_vmap;
  defaults =
      ("port", number (pos 3306))
      ∷ ("charset", text "utf8mb4")
      ∷ ("sql_mode", text "STRICT_TRANS_TABLES")
      ∷ [];
  cast =
      ("minsize", to_int)
      ∷ ("maxsize", to_int)
      ∷ ("connect_timeout", to_float)
      ∷ ("echo", to_bool)
      ∷ ("use_unicode", to_bool)
      ∷ ("pool_recycle", to_int)
      ∷ ("ssl", to_bool)
      ∷ [];
}

abbrev pub pooled_cast : Dict Cast
pooled_cast =
    ("minsize", to_int) ∷ ("maxsize", to_int) ∷ ("echo", to_bool) ∷ ("pool_recycle", to_int) ∷ []

abbrev pub mssql : Backend
mssql = record {
  engine = "tortoise.backends.mssql";
  skip_first_char = true;
  vmap = server_vmap;
  defaults = ("port", number (pos 1433)) ∷ [];
  cast = pooled_cast;
}

abbrev pub oracle : Backend
oracle = record {
  engine = "tortoise.backends.oracle";
  skip_first_char = true;
  vmap = server_vmap;
  defaults = ("port", number (pos 1521)) ∷ [];
  cast = pooled_cast;
}

-- `DB_LOOKUP.get(scheme)`; "postgres" is another name of "asyncpg".
unfoldable pub db_lookup : String → Option Backend
db_lookup scheme =
    if scheme == "psycopg"
    then some psycopg
    else if scheme == "asyncpg"
    then some asyncpg
    else if scheme == "sqlite"
    then some sqlite
    else if scheme == "mysql"
    then some mysql
    else if scheme == "mssql"
    then some mssql
    else if scheme == "oracle"
    then some oracle
    else if scheme == "postgres"
    then some asyncpg
    else none
