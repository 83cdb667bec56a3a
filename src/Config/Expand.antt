-- ===== src/Config/Expand.antt =====
-- What `expand_db_url` puts into the settings of a connection.
use Prim.Native.String.{◌++◌}
use mathlib.Core.Path.{subst}
use tortoise_orm_zh_cn.Base.{
  ◌∙◌, ℕ, zero, suc, ◌≡◌, ◌≢◌, refl, ap, sym, Bool, String, Option, none, some, eq_iff, arith,
  Option-cases, inl, inr, ◌⊎◌,
}
use tortoise_orm_zh_cn.Base.Dict.{Dict, lookup, insert, lookup-insert}
use tortoise_orm_zh_cn.Base.Errors.{Result, ok, err, configuration_error, ◌>>=◌, >>=-eq-ok}
use tortoise_orm_zh_cn.Config.{
  Url, DbInfo, or_nothing, query_params, map_url, path_of, test_path, password_of, expand_db_url,
}
use tortoise_orm_zh_cn.Base.Int.{pos}
use tortoise_orm_zh_cn.Config.Server.{
  IsGiven, IsPassword, IsDatabase, IsQueried, or_nothing-IsGiven, password_of-IsPassword,
  path_of-IsDatabase, query_params-IsQueried,
}
use tortoise_orm_zh_cn.Config.Schemes.{
  default_port, engine_of, db_lookup-vmap, db_lookup-skip, db_lookup-cast, db_lookup-port,
  db_lookup-engine,
}
use tortoise_orm_zh_cn.Config.Lookup.{
  Cast, Setting, number, Backend, server_vmap, sqlite, db_lookup,
}

-- The port is the URL's, or what the settings held before.
abbrev pub port_or : Result (Option ℕ) → Option Setting → Option Setting
port_or (ok (some (suc p))) before = some (number (pos (suc p)))
port_or _ before = before

-- The settings of a server, when its URL has been read.
abbrev IsMapped : Url → Setting → Setting → Option Setting → Dict Setting → Type 0
IsMapped url path password port out =
    (lookup "database" out ≡ some path)
    × (lookup "host" out ≡ some (or_nothing url.hostname))
    × (lookup "port" out ≡ port)
    × (lookup "user" out ≡ some (or_nothing url.username))
    × (lookup "password" out ≡ some password)

-- The settings have a value under this key, and it is such.
abbrev pub Has : String → Dict Setting → (Setting → Type 0) → Type 0
Has key out IsSuch = (setting : Setting) × (lookup key out ≡ some setting) × IsSuch setting

-- The five settings that a server's URL is to give
abbrev pub IsServer :
    (String → String) → (String → String) → Bool → Url → Option Setting → Dict Setting → Type 0
IsServer unquote fill testing url port out =
    Has "database" out (IsDatabase fill testing url)
    × Has "host" out (IsGiven url.hostname)
    × (lookup "port" out ≡ port_or url.port port)
    × Has "user" out (IsGiven url.username)
    × Has "password" out (IsPassword unquote url)

abbrev mapped : Url → Setting → Dict Setting → Dict Setting
mapped url password params =
    insert "password" password (insert "user" (or_nothing url.username) params)

abbrev located : Url → Setting → Dict Setting → Dict Setting
located url path params = insert "host" (or_nothing url.hostname) (insert "database" path params)

IsMapped-mapped :
    (url : Url) (path password : Setting) (params : Dict Setting)
    → IsMapped url path password
        (lookup "port" params)
        (mapped url password (located url path params))
IsMapped-mapped url path password params = (
  simp lookup-insert,
  simp lookup-insert,
  simp lookup-insert,
  simp lookup-insert,
  simp lookup-insert,
)

IsMapped-mapped_port :
    (url : Url) (path password port : Setting) (params : Dict Setting)
    → IsMapped url path password
        (some port)
        (mapped url password (insert "port" port (located url path params)))
IsMapped-mapped_port url path password port params = (
  simp lookup-insert,
  simp lookup-insert,
  simp lookup-insert,
  simp lookup-insert,
  simp lookup-insert,
)

ok-injective {ℓ} : {A : Type ℓ} {a b : A} → ok a ≡ ok b → a ≡ b
ok-injective h = cc

map_url-IsMapped :
    (url : Url) (port : Result (Option ℕ)) (path password : Setting) (params out : Dict Setting)
    → map_url (record url { port = port }) server_vmap path password params ≡ ok out
    → IsMapped url path password (port_or port (lookup "port" params)) out
map_url-IsMapped url (err e) path password params out h = absurd (cc)
map_url-IsMapped url (ok none) path password params out h =
    rw (← ok-injective h) (IsMapped-mapped url path password params)
map_url-IsMapped url (ok (some zero)) path password params out h =
    rw (← ok-injective h) (IsMapped-mapped url path password params)
map_url-IsMapped url (ok (some (suc k))) path password params out h =
    rw (← ok-injective h) (IsMapped-mapped_port url path password (number (pos (suc k))) params)

expand_db_url-IsMapped :
    (convert : Cast → String → Result Setting) (unquote fill : String → String) (url : Url)
    (testing : Bool) (info : DbInfo)
    → url.scheme ≢ "sqlite"
    → expand_db_url convert unquote fill url testing ≡ ok info
    → (db : Backend) × (path : Setting) × (params : Dict Setting) × (db_lookup url.scheme ≡ some db)
      × (path_of db url ≡ ok path)
      × (query_params convert db.cast url.query db.defaults ≡ ok params)
      × (info.engine ≡ db.engine)
      × IsMapped url
          (test_path fill testing path)
          (password_of unquote url)
          (port_or url.port (lookup "port" params))
          info.credentials
unfolding expand_db_url
expand_db_url-IsMapped convert unquote fill url testing info n h =
    elim (Option-cases (db_lookup url.scheme)) [
      | inl e ↦ absurd (ground arith)
      | inr (db, e) ↦
          let (path, hp, h') = >>=-eq-ok (path_of db url) _ (rw (e, expand_db_url) at h) in
          let (params, hq, h'') =
            >>=-eq-ok (query_params convert db.cast url.query db.defaults) _ h' in
          let (out, hm, h3) =
            >>=-eq-ok
              (map_url url db.vmap (test_path fill testing path) (password_of unquote url) params) _
              h'' in
          (
            db,
            path,
            params,
            e,
            hp,
            hq,
            ap (λ (i : DbInfo). i.engine) (sym (ok-injective h3)),
            rw (ap (λ (i : DbInfo). i.credentials) (sym (ok-injective h3))) (
                map_url-IsMapped url url.port (test_path fill testing path)
                  (password_of unquote url) params out
                  (subst
                    (λ m.
                      map_url url m (test_path fill testing path) (password_of unquote url) params
                      ≡ ok out)
                    (db_lookup-vmap url.scheme db e n) hm)),
          )
    ]

-- A URL that names a server and is accepted gives the backend of its scheme and all five settings of
-- the connection: the database of its path, without the first character and filled in for a test
-- (`None` if empty), its host and user (`None` if absent or empty), its password decoded (if absent or
-- empty `None` for the PostgreSQL drivers, and the decoded empty text for the others), and its port, or
-- else the last `port` that the query gives or the scheme's default.
pub expand_db_url-IsServer :
    (convert : Cast → String → Result Setting) (unquote fill : String → String) (url : Url)
    (testing : Bool) (info : DbInfo)
    → url.scheme ≢ "sqlite"
    → expand_db_url convert unquote fill url testing ≡ ok info
    → (port : Option Setting) × (info.engine ≡ engine_of url.scheme)
      × IsQueried convert url.query (some (number (pos (default_port url.scheme)))) port
      × IsServer unquote fill testing url port info.credentials
expand_db_url-IsServer convert unquote fill url testing info n h =
    let (db, path, params, known, hp, hq, engine, (database, host, port, user, password)) =
      expand_db_url-IsMapped convert unquote fill url testing info n h in
    (
      lookup "port" params,
      engine ∙ db_lookup-engine url.scheme db known,
      subst (λ before. IsQueried convert url.query before (lookup "port" params))
          (db_lookup-port url.scheme db known n)
          (query_params-IsQueried convert db.cast url.query db.defaults params
            (db_lookup-cast url.scheme db known) hq),
      (
        (
          test_path fill testing path,
          database,
          path_of-IsDatabase fill testing db url path url.path refl
              (db_lookup-skip url.scheme db known n) n hp,
        ),
        (or_nothing url.hostname, host, or_nothing-IsGiven url.hostname),
        port,
        (or_nothing url.username, user, or_nothing-IsGiven url.username),
        (password_of unquote url, password, password_of-IsPassword unquote url),
      ),
    )

-- Without a path, SQLite's URL is refused, and so is a scheme that is not known, whatever the rest
-- of the URL says.
expand_db_url-refused :
    (convert : Cast → String → Result Setting) (unquote fill : String → String) (url : Url)
    (testing : Bool)
    → (db_lookup url.scheme ≡ none) ⊎ ((url.scheme ≡ "sqlite") × (url.netloc ++ url.path ≡ ""))
    → expand_db_url convert unquote fill url testing ≡ err configuration_error
unfolding expand_db_url
expand_db_url-refused convert unquote fill url testing (inl e) = rw (e, expand_db_url)
expand_db_url-refused convert unquote fill url testing (inr (e, e')) =
    let known : db_lookup url.scheme ≡ some sqlite = rw e (unfold db_lookup in refl) in
    let no_path : path_of sqlite url ≡ err configuration_error =
      ground (arith, eq_iff url.scheme "sqlite", eq_iff (url.netloc ++ url.path) "") in
    rw (known, expand_db_url) (rw (no_path, ◌>>=◌))
