-- ===== src/Router/Tests.antt =====
-- A run of the choice of a connection: the first router has no method for reading.
use tortoise_orm_zh_cn.Base.{◌≡◌, refl, false, String, [], ◌∷◌, none, some}
use tortoise_orm_zh_cn.Base.Errors.{Result, ok, err, configuration_error}
use tortoise_orm_zh_cn.Config.{DbInfo}
use tortoise_orm_zh_cn.Connections.{Connection, Handler, get}
use tortoise_orm_zh_cn.Router.{choose_db, db_route, router_func, db_for_read, db_for_write, Route}

abbrev writer : Route
writer db_for_read = none
writer db_for_write = some (λ model. some "main")

abbrev reader : Route
reader action = some (λ model. some "replica")

abbrev no_url : String → Result DbInfo
no_url u = err configuration_error

abbrev any_engine : String → Result (Unit {0})
any_engine engine = ok tt

abbrev main_connection : Connection
main_connection = record { serial = 0; engine = "e"; params = [] }

abbrev replica : Connection
replica = record { serial = 1; engine = "e"; params = [] }

abbrev opened : Handler
opened = record {
  db_config = none;
  create_db = false;
  storages = (("main", main_connection) ∷ ("replica", replica) ∷ []) ∷ [];
  current = 0;
  made = 2;
}

run_choose :
    choose_db no_url any_engine none main_connection (writer ∷ reader ∷ []) "Event" false opened
    ≡ (ok replica, opened)
unfolding choose_db db_route router_func get
run_choose = refl
