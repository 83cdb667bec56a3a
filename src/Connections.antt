-- ===== src/Connections.antt =====
-- tortoise/connection.py: `ConnectionHandler`, and `_get_connection` of tortoise/transactions.py.
-- `_conn_storage` is a context variable that refers to a dict, and dicts are shared: the handler
-- holds the dicts by address, `current` is the address in the variable, and a token is the address
-- that the variable held before `set`. A token is used once, as `contextvars` demands.
pub mod Store
pub mod Get
pub mod Scope
mod Tests
use tortoise_orm_zh_cn.Base.{
  ℕ, zero, suc, ◌+◌, Bool, true, false, String, List, [], ◌∷◌, ◌++◌, Option, none, some, length,
  ◌==◌, if◌then◌else◌,
}
use tortoise_orm_zh_cn.Base.Dict.{Dict, lookup, has_key, insert, remove, update, keys}
use tortoise_orm_zh_cn.Base.Errors.{Error, Result, ok, err, configuration_error, params_error}
use tortoise_orm_zh_cn.Config.{DbInfo}
use tortoise_orm_zh_cn.Config.Lookup.{Setting, text}

-- An entry of the configuration: a URL, or a dict with an "engine" and "credentials".
pub data DbEntry : Type 0 where
  url : String → DbEntry
  info : DbInfo → DbEntry

-- A client object: which object it is, and what it was made with.
pub record Connection : Type 0 where
  pub serial : ℕ
  pub engine : String
  pub params : Dict Setting

pub record Handler : Type 0 where
  pub db_config : Option (Dict DbEntry)
  pub create_db : Bool
  pub storages : List (Dict Connection)
  pub current : ℕ
  pub made : ℕ

-- The dict at an address; an address that was never handed out is an empty dict.
abbrev pub storage_at : List (Dict Connection) → ℕ → Dict Connection
storage_at [] n = []
storage_at (d ∷ ds) zero = d
storage_at (d ∷ ds) (suc n) = storage_at ds n

-- A dict is changed in place.
abbrev pub put_storage : List (Dict Connection) → ℕ → Dict Connection → List (Dict Connection)
put_storage [] n e = []
put_storage (d ∷ ds) zero e = e ∷ ds
put_storage (d ∷ ds) (suc n) e = d ∷ put_storage ds n e

-- `_get_storage`
abbrev pub get_storage : Handler → Dict Connection
get_storage h = storage_at h.storages h.current

abbrev pub change_storage : (Dict Connection → Dict Connection) → Handler → Handler
change_storage f h = record h { storages = put_storage h.storages h.current (f (get_storage h)) }

-- `_clear_storage`
unfoldable pub clear_storage : Handler → Handler
clear_storage = change_storage (λ d. [])

-- `set`: a copy of the dict with the connection, in a new context; the result is the token.
unfoldable pub set_connection : String → Connection → Handler → ℕ × Handler
set_connection alias conn h = (
  h.current,
  record h {
    storages = h.storages ++ insert alias conn (get_storage h) ∷ [];
    current = length h.storages;
  },
)

-- `discard`
unfoldable pub discard : String → Handler → Option Connection × Handler
discard alias h = (lookup alias (get_storage h), change_storage (remove alias) h)

-- The loop of `reset`: `if alias not in prev_storage: prev_storage[alias] = conn`
abbrev pub add_missing : Dict Connection → Dict Connection → Dict Connection
add_missing [] prev = prev
add_missing ((alias, conn) ∷ rest) prev =
    add_missing rest (if has_key alias prev then prev else insert alias conn prev)

-- `reset`
unfoldable pub reset : ℕ → Handler → Handler
reset token h = change_storage (add_missing (get_storage h)) (record h { current = token })

-- `_get_db_info`, with `db_config`'s error when nothing is configured
unfoldable pub get_db_info : String → Handler → Result DbEntry
get_db_info alias h = elim h.db_config [
  | none ↦ err configuration_error
  | some config ↦ elim (lookup alias config) [
    | none ↦ err configuration_error
    | some entry ↦ ok entry
  ]
]

-- The loop of `close_all` that discards the aliases
unfoldable pub discard_each : List String → Handler → Handler
discard_each [] h = h
discard_each (alias ∷ aliases) h = discard_each aliases (discard alias h).1

abbrev discard_config : Handler → Handler
discard_config h = elim h.db_config [ none ↦ h | some config ↦ discard_each (keys config) h ]

-- `expand` is `expand_db_url` on a URL that is a text; `discover` is `_discover_client_class`, which
-- imports the engine's module: the error of an import, or no client class in it.
module _ (expand : String → Result DbInfo) (discover : String → Result (Unit {0})) where
  abbrev pub expand_entry : DbEntry → Result DbInfo
  expand_entry (url u) = expand u
  expand_entry (info i) = ok i

  -- `_create_connection`: the client is made from the credentials and its alias.
  abbrev pub make_connection :
      String → Handler → DbInfo → Result (Unit {0}) → Result Connection × Handler
  make_connection alias h i (err e) = (err e, h)
  make_connection alias h i (ok _) = (
    ok (record {
      serial = h.made;
      engine = i.engine;
      params = insert "connection_name" (text alias) i.credentials;
    }),
    record h { made = h.made + 1 },
  )

  abbrev pub create_from : String → Handler → Result DbInfo → Result Connection × Handler
  create_from alias h (err e) = (err e, h)
  create_from alias h (ok i) = make_connection alias h i (discover i.engine)

  abbrev expand_result : Result DbEntry → Result DbInfo
  expand_result (err e) = err e
  expand_result (ok entry) = expand_entry entry

  unfoldable pub create_connection : String → Handler → Result Connection × Handler
  unfolding get_db_info
  create_connection alias h = create_from alias h (expand_result (get_db_info alias h))

  -- `storage[conn_alias] = connection`
  abbrev pub store_created : String → Result Connection × Handler → Result Connection × Handler
  store_created alias (err e, h) = (err e, h)
  store_created alias (ok conn, h) = (ok conn, change_storage (insert alias conn) h)

  -- `get`
  unfoldable pub get : String → Handler → Result Connection × Handler
  get alias h = elim (lookup alias (get_storage h)) [
    | some conn ↦ (ok conn, h)
    | none ↦ store_created alias (create_connection alias h)
  ]

  abbrev pub cons_result :
      Result Connection → Result (List Connection) × Handler → Result (List Connection) × Handler
  cons_result (ok c) (ok cs, h) = (ok (c ∷ cs), h)
  cons_result (ok c) (err e, h) = (err e, h)
  cons_result (err e) (r, h) = (err e, h)

  -- `[self.get(alias) for alias in aliases]`, which stops at the first error
  unfoldable pub get_each : List String → Handler → Result (List Connection) × Handler
  get_each [] h = (ok [], h)
  get_each (alias ∷ aliases) h =
      let first = get alias h in
      elim first.0 [
        | err e ↦ (err e, first.1)
        | ok c ↦ cons_result (ok c) (get_each aliases first.1)
      ]

  -- `all`
  unfoldable pub all_connections : Handler → Result (List Connection) × Handler
  all_connections h = elim h.db_config [
    | none ↦ (err configuration_error, h)
    | some config ↦ get_each (keys config) h
  ]

  -- `_init_connections`: `db_create` is that method of a client.
  unfoldable pub init_each :
      (Connection → Result (Unit {0})) → Bool → List String → Handler → Result (Unit {0}) × Handler
  init_each db_create create [] h = (ok tt, h)
  init_each db_create create (alias ∷ aliases) h =
      let (first, h') = get alias h in
      elim first [
        | err e ↦ (err e, h')
        | ok c ↦ elim (if create then db_create c else ok tt) [
          | err e ↦ (err e, h')
          | ok _ ↦ init_each db_create create aliases h'
        ]
      ]

  abbrev merged_config : Option (Dict DbEntry) → Dict DbEntry → Dict DbEntry
  merged_config none config = config
  merged_config (some old) config = update old config

  -- `_init`
  unfoldable pub init_handler :
      (Connection → Result (Unit {0})) → Dict DbEntry → Bool → Handler → Result (Unit {0}) × Handler
  init_handler db_create config create h =
      init_each db_create create (keys (merged_config h.db_config config))
        (record h { db_config = some (merged_config h.db_config config); create_db = create })

  -- The only connection, if the configuration names one.
  abbrev pub get_only : List String → Handler → Result Connection × Handler
  get_only (alias ∷ []) h = get alias h
  get_only _ h = (err params_error, h)

  abbrev get_default : Handler → Result Connection × Handler
  get_default h = elim h.db_config [
    | none ↦ (err configuration_error, h)
    | some config ↦ get_only (keys config) h
  ]

  -- `_get_connection` of tortoise/transactions.py: the named connection, or the only one.
  unfoldable pub get_connection : Option String → Handler → Result Connection × Handler
  get_connection none h = get_default h
  get_connection (some name) h = if name == "" then get_default h else get name h

  -- `close_all`: `close` is what closing all these clients comes to.
  unfoldable pub close_all :
      (List Connection → Result (Unit {0})) → Bool → Handler → Result (Unit {0}) × Handler
  close_all close discards h =
      let (conns, h') = all_connections h in
      elim conns [
        | err e ↦ (err e, h')
        | ok cs ↦ elim (close cs) [
          | err e ↦ (err e, h')
          | ok _ ↦ (ok tt, if discards then discard_config h' else h')
        ]
      ]
