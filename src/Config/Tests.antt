-- ===== src/Config/Tests.antt =====
-- Runs of `expand_db_url` on a MySQL and a PostgreSQL URL, and a witness.
use tortoise_orm_zh_cn.Base.{
  ◌≡◌, refl, true, false, String, [], ◌∷◌, Option, none, some, eq_iff, if◌then◌else◌, ◌==◌,
}
use tortoise_orm_zh_cn.Base.Errors.{Result, ok}
use tortoise_orm_zh_cn.Config.{Url, DbInfo, query_params, expand_db_url}
use tortoise_orm_zh_cn.Base.Int.{pos}
use tortoise_orm_zh_cn.Config.Schemes.{engine_of, default_port}
use tortoise_orm_zh_cn.Config.Server.{IsQueried}
use tortoise_orm_zh_cn.Config.Lookup.{Cast, Setting, text, nothing, number, db_lookup}
use tortoise_orm_zh_cn.Config.Expand.{IsServer, expand_db_url-IsServer}

abbrev keep_text : Cast → String → Result Setting
keep_text cast value = ok (text value)

abbrev same : String → String
same s = s

-- `unquote_plus` of one text
abbrev unquote : String → String
unquote s = if s == "p%40ss" then "p@ss" else s

-- mysql://root:p%40ss@db:3307/shop?charset=utf8
abbrev shop : Url
shop = record {
  scheme = "mysql";
  netloc = "root:p%40ss@db:3307";
  path = "/shop";
  query = ("charset", "utf8") ∷ [];
  hostname = some "db";
  port = ok (some 3307);
  username = some "root";
  password = some "p%40ss";
}

abbrev shop_info : DbInfo
shop_info = record {
  engine = "tortoise.backends.mysql";
  credentials =
      ("port", number (pos 3307))
      ∷ ("charset", text "utf8")
      ∷ ("sql_mode", text "STRICT_TRANS_TABLES")
      ∷ ("database", text "shop")
      ∷ ("host", text "db")
      ∷ ("user", text "root")
      ∷ ("password", text "p@ss")
      ∷ [];
}

run_shop : expand_db_url keep_text unquote same shop false ≡ ok shop_info
unfolding expand_db_url db_lookup query_params
run_shop = refl

-- postgres://db/, where the query gives the port
abbrev local : Url
local = record {
  scheme = "postgres";
  netloc = "db";
  path = "/";
  query = ("port", "6000") ∷ [];
  hostname = some "db";
  port = ok none;
  username = none;
  password = none;
}

run_local :
    expand_db_url keep_text unquote same local true
    ≡ ok (record {
      engine = "tortoise.backends.asyncpg";
      credentials =
          ("port", text "6000")
          ∷ ("database", nothing)
          ∷ ("host", text "db")
          ∷ ("user", nothing)
          ∷ ("password", nothing)
          ∷ [];
    })
unfolding expand_db_url db_lookup query_params
run_local = refl

expand_db_url-IsServer_example :
    (port : Option Setting) × (shop_info.engine ≡ engine_of shop.scheme)
    × IsQueried keep_text shop.query (some (number (pos (default_port shop.scheme)))) port
    × IsServer unquote same false shop port shop_info.credentials
expand_db_url-IsServer_example =
    expand_db_url-IsServer keep_text unquote same shop false shop_info
      (λ e. let h : false ≡ true = (eq_iff "mysql" "sqlite").1 e in absurd (cc)) run_shop
