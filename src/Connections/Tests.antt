-- ===== src/Connections/Tests.antt =====
-- A witness for the connection handler, on a configuration with a URL and a dict.
use tortoise_orm_zh_cn.Base.{◌≡◌, false, [], ◌∷◌, none, some, ◌==◌, if◌then◌else◌, arith}
use tortoise_orm_zh_cn.Base.Dict.{Dict, lookup}
use tortoise_orm_zh_cn.Config.{DbInfo}
use tortoise_orm_zh_cn.Config.Lookup.{text}
use tortoise_orm_zh_cn.Connections.{
  DbEntry, url, info, Connection, Handler, get_storage, set_connection, reset,
}
use tortoise_orm_zh_cn.Connections.Store.{or_else}
use tortoise_orm_zh_cn.Connections.Scope.{reset-set_connection}

abbrev sqlite_info : DbInfo
sqlite_info = record {
  engine = "tortoise.backends.sqlite";
  credentials = ("file_path", text "db") ∷ [];
}

abbrev default_connection : Connection
default_connection = record { serial = 0; engine = "e"; params = [] }

abbrev other_connection : Connection
other_connection = record { serial = 7; engine = "e"; params = [] }

abbrev configured : Dict DbEntry
configured = ("default", url "sqlite://db") ∷ ("other", info sqlite_info) ∷ []

abbrev handler : Handler
handler = record {
  db_config = some configured;
  create_db = false;
  storages = (("default", default_connection) ∷ []) ∷ [];
  current = 0;
  made = 1;
}

reset-set_connection_example :
    let (token, h') = set_connection "default" other_connection handler in
    lookup "default" (get_storage (reset token h'))
    ≡ or_else
        (lookup "default" (get_storage handler))
        (if "default" == "default" then some other_connection else none)
reset-set_connection_example =
    reset-set_connection "default" other_connection handler (omega arith) "default"
