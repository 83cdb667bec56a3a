-- ===== src/Router.antt =====
-- tortoise/router.py, and `_choose_db` of query sets and models: which connection a query goes to.
mod Tests
use tortoise_orm_zh_cn.Base.{
  ◌≡◌, refl, ap, ◌∙◌, Bool, true, false, String, List, [], ◌∷◌, ◌++◌, Option, none, some, ◌==◌,
  if◌then◌else◌, arith, All, append-nil,
}
use tortoise_orm_zh_cn.Base.Dict.{lookup}
use tortoise_orm_zh_cn.Base.Errors.{Error, Result, ok, err, configuration_error}
use tortoise_orm_zh_cn.Config.{DbInfo}
use tortoise_orm_zh_cn.Connections.{Connection, Handler, get, get_storage}

pub data Action : Type 0 where
  db_for_read db_for_write : Action

-- A router of the user: for a model, the method for an action, if it has that method, gives the name
-- of a connection or `None`.
abbrev pub Route : Type 0
Route = Action → Option (String → Option String)

-- `if chosen_db: return chosen_db`
abbrev pub answer : Option (String → Option String) → String → Option String
answer none model = none
answer (some method) model = elim (method model) [
  | none ↦ none
  | some name ↦ if name == "" then none else some name
]

abbrev pub or_next : Option String → Option String → Option String
or_next (some name) next = some name
or_next none next = next

-- `_router_func`
unfoldable pub router_func : List Route → String → Action → Option String
router_func [] model action = none
router_func (r ∷ routers) model action =
    or_next (answer (r action) model) (router_func routers model action)

-- A ConfigurationError means that there is no connection.
abbrev pub routed : Result Connection × Handler → Result (Option Connection) × Handler
routed (ok conn, h) = (ok (some conn), h)
routed (err configuration_error, h) = (ok none, h)
routed (err e, h) = (err e, h)

module _ (expand : String → Result DbInfo) (discover : String → Result (Unit {0})) where
  -- `_db_route`: `connections.get(None)` is a ConfigurationError.
  unfoldable pub db_route :
      List Route → String → Action → Handler → Result (Option Connection) × Handler
  db_route routers model action h = elim (router_func routers model action) [
    | none ↦ (ok none, h)
    | some name ↦ routed (get expand discover name h)
  ]

  -- `db or self.model._meta.db`
  abbrev pub or_default :
      Connection → Result (Option Connection) × Handler → Result Connection × Handler
  or_default conn (ok (some c), h) = (ok c, h)
  or_default conn (ok none, h) = (ok conn, h)
  or_default conn (err e, h) = (err e, h)

  -- `_choose_db`; `given` is the connection that was set on the query, `default` the model's.
  unfoldable pub choose_db :
      Option Connection
      → Connection
      → List Route
      → String
      → Bool
      → Handler
      → Result Connection × Handler
  choose_db (some given) default routers model for_write h = (ok given, h)
  choose_db none default routers model for_write h =
      or_default default
        (db_route routers model (if for_write then db_for_write else db_for_read) h)

  -- A router that lacks the method for the action, or answers nothing.
  abbrev pub IsSilent : String → Action → Route → Type 0
  IsSilent model action r = answer (r action) model ≡ none

  router_func-append :
      (before routers : List Route) (model : String) (action : Action)
      → All (IsSilent model action) before
      → router_func (before ++ routers) model action ≡ router_func routers model action
  unfolding router_func
  router_func-append [] routers model action silent = refl
  router_func-append (r ∷ before) routers model action (s, silent) =
      rw s (router_func-append before routers model action silent)

  -- A query without a connection of its own goes to the connection that the first router to answer
  -- names, if it is open; if no router answers, it goes to the model's. Neither changes the handler.
  choose_db-first :
      (default : Connection) (before after : List Route) (r : Route) (model name : String)
      (for_write : Bool) (c : Connection) (h : Handler)
      → let action = if for_write then db_for_write else db_for_read in
        All (IsSilent model action) before
        → (choose_db none default before model for_write h ≡ (ok default, h))
          × (answer (r action) model ≡ some name
              → lookup name (get_storage h) ≡ some c
              → choose_db none default (before ++ r ∷ after) model for_write h ≡ (ok c, h))
  unfolding choose_db db_route router_func get
  choose_db-first default before after r model name for_write c h silent =
      let action = if for_write then db_for_write else db_for_read in
      let quiet : router_func before model action ≡ none =
        (rw append-nil at (router_func-append before [] model action silent)) in
      (
        rw (choose_db, db_route, quiet),
        λ e stored.
            let found : router_func (before ++ r ∷ after) model action ≡ some name =
              router_func-append before (r ∷ after) model action silent ∙ rw (router_func, e) in
            rw (choose_db, db_route, found) (rw (get, stored)),
      )
