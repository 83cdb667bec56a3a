-- ===== src/Config.antt =====
-- tortoise/backends/base/config_generator.py: a database URL becomes the settings of a connection.
-- `urllib.parse` has read the URL already: `Url` holds what the code asks of it. Python's conversions
-- of a query value (`int`, `float`, `bool`, `str`) and `unquote_plus` are arguments, as is what
-- `testing` makes of a path, which takes a random identifier.
pub mod Lookup
pub mod Schemes
pub mod Server
pub mod Expand
mod Tests
use Prim.Native.String.{◌++◌}
use tortoise_orm_zh_cn.Base.{
  ℕ, zero, suc, Bool, true, false, not, ◌&&◌, ◌||◌, String, List, [], ◌∷◌, Option, none, some, ◌==◌,
  contains, if◌then◌else◌,
}
use tortoise_orm_zh_cn.Base.Int.{pos}
use tortoise_orm_zh_cn.Base.Dict.{Dict, lookup, insert}
use tortoise_orm_zh_cn.Base.Errors.{Result, ok, err, configuration_error, Error, value_error, ◌>>=◌}
use tortoise_orm_zh_cn.Config.Lookup.{
  Cast, to_str, Setting, text, number, nothing, Backend, db_lookup,
}

-- `urlparse(db_url)`, and `parse_qs` of its query: each key with its values, the last one apart.
-- `port` is the error that the property raises, or the port if there is one.
pub record Url : Type 0 where
  pub scheme : String
  pub netloc : String
  pub path : String
  pub query : List (String × String)
  pub hostname : Option String
  pub port : Result (Option ℕ)
  pub username : Option String
  pub password : Option String

-- {"engine": …, "credentials": …}
pub record DbInfo : Type 0 where
  pub engine : String
  pub credentials : Dict Setting

-- `path[1:]`
abbrev pub skip_first : String → String
skip_first String.[] = ""
skip_first (String.◌∷◌ c s) = s

-- `value or None`
abbrev pub or_nothing : Option String → Setting
or_nothing none = nothing
or_nothing (some s) = if s == "" then nothing else text s

-- `value or ""`
abbrev pub or_empty : Option String → String
or_empty none = ""
or_empty (some s) = s

-- `if vmap.get(name): params[vmap[name]] = value`
abbrev pub set_mapped : String → Setting → Dict String → Dict Setting → Dict Setting
set_mapped name value vmap params = elim (lookup name vmap) [
  | none ↦ params
  | some key ↦ if key == "" then params else insert key value params
]

-- `if vmap.get("port") and url.port: params[vmap["port"]] = int(url.port)`, where a `ValueError`
-- becomes a `ConfigurationError`; without a mapping the property is not read.
abbrev pub set_port : Result (Option ℕ) → Dict String → Dict Setting → Result (Dict Setting)
set_port port vmap params = elim (lookup "port" vmap) [
  | none ↦ ok params
  | some key ↦ if key == "" then ok params else elim port [
    | err _ ↦ err configuration_error
    | ok none ↦ ok params
    | ok (some zero) ↦ ok params
    | ok (some (suc p)) ↦ ok (insert key (number (pos (suc p))) params)
  ]
]

-- The path, if there is one; only SQLite cannot do without.
abbrev pub path_of : Backend → Url → Result Setting
path_of db url =
    let path = if db.skip_first_char then skip_first url.path else url.netloc ++ url.path in
    if path == ""
    then (if url.scheme == "sqlite" then err configuration_error else ok nothing)
    else ok (text path)

-- `for key, val in parse_qs(url.query).items()`
unfoldable pub query_params :
    (Cast → String → Result Setting)
    → Dict Cast
    → List (String × String)
    → Dict Setting
    → Result (Dict Setting)
query_params convert casts [] params = ok params
query_params convert casts ((key, val) ∷ rest) params = do
  v ← convert (elim (lookup key casts) [ none ↦ to_str | some c ↦ c ]) val
  query_params convert casts rest (insert key v params)

-- `if testing and path`
abbrev pub test_path : (String → String) → Bool → Setting → Setting
test_path fill true (text path) = text (fill path)
test_path fill testing path = path

-- `None if not url.password and db_backend in {…} else unquote_plus(url.password or "")`
abbrev pub password_of : (String → String) → Url → Setting
password_of unquote url =
    if or_empty url.password == "" && contains url.scheme ("postgres" ∷ "asyncpg" ∷ "psycopg" ∷ [])
    then nothing
    else text (unquote (or_empty url.password))

-- The part of `expand_db_url` from `params[vmap["path"]] = path` on
abbrev pub map_url : Url → Dict String → Setting → Setting → Dict Setting → Result (Dict Setting)
map_url url vmap path password params = do
  let with_path = set_mapped "path" path vmap params
  let with_host = set_mapped "hostname" (or_nothing url.hostname) vmap with_path
  with_port ← set_port url.port vmap with_host
  let with_user = set_mapped "username" (or_nothing url.username) vmap with_port
  ok (set_mapped "password" password vmap with_user)

module _ (convert : Cast → String → Result Setting) (unquote : String → String)
    (fill : String → String) where
  unfoldable pub expand_db_url : Url → Bool → Result DbInfo
  expand_db_url url testing = elim (db_lookup url.scheme) [
    | none ↦ err configuration_error
    | some db ↦ do
      path ← path_of db url
      params ← query_params convert db.cast url.query db.defaults
      credentials ←
          map_url url db.vmap (test_path fill testing path) (password_of unquote url) params
      ok (record { engine = db.engine; credentials = credentials })
  ]
