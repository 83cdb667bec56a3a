-- ===== src/Config/Schemes.antt =====
-- What `DB_LOOKUP` holds for the schemes of the servers, each under its own name.
use Prim.Native.String.{◌++◌}
use mathlib.Core.Path.{subst}
use tortoise_orm_zh_cn.Base.{
  ℕ, ◌≡◌, ◌≢◌, true, String, none, some, eq_iff, arith, if◌then◌else◌, ◌==◌, sym, refl, Bool-cases,
  inl, inr,
}
use tortoise_orm_zh_cn.Base.Int.{pos}
use tortoise_orm_zh_cn.Base.Dict.{lookup}
use tortoise_orm_zh_cn.Config.Lookup.{
  number, Backend, server_vmap, db_lookup, psycopg, asyncpg, sqlite, mysql, mssql, oracle,
}

-- The port that a server of this scheme listens on by default
abbrev pub default_port : String → ℕ
default_port scheme =
    if scheme == "mysql"
    then 3306
    else if scheme == "mssql"
    then 1433
    else if scheme == "oracle"
    then 1521
    else 5432

-- The module of the backend: PostgreSQL's is that of asyncpg.
abbrev pub engine_of : String → String
engine_of scheme = "tortoise.backends." ++ (if scheme == "postgres" then "asyncpg" else scheme)

-- The scheme is this one and the backend this one.
at_scheme :
    (P : String → Backend → Type 0) (s name : String) (b db : Backend)
    → s ≡ name
    → b ≡ db
    → P name b
    → P s db
at_scheme P s name b db e f p = subst (λ t. P t db) (sym e) (subst (λ d. P name d) f p)

-- What holds of every scheme with its backend holds of what `db_lookup` finds.
by_scheme :
    (P : String → Backend → Type 0)
    → P "psycopg" psycopg
    → P "asyncpg" asyncpg
    → P "sqlite" sqlite
    → P "mysql" mysql
    → P "mssql" mssql
    → P "oracle" oracle
    → P "postgres" asyncpg
    → (s : String) (db : Backend) → db_lookup s ≡ some db
    → P s db
unfolding db_lookup
by_scheme P p_psycopg p_asyncpg p_sqlite p_mysql p_mssql p_oracle p_postgres s db h =
    elim (Bool-cases (s == "psycopg")) [
      | inl e ↦
          at_scheme P s "psycopg" psycopg db ((eq_iff s "psycopg").0 e) (ground arith) p_psycopg
      | inr e0 ↦ elim (Bool-cases (s == "asyncpg")) [
        | inl e ↦
            at_scheme P s "asyncpg" asyncpg db ((eq_iff s "asyncpg").0 e) (ground arith) p_asyncpg
        | inr e1 ↦ elim (Bool-cases (s == "sqlite")) [
          | inl e ↦
              at_scheme P s "sqlite" sqlite db ((eq_iff s "sqlite").0 e) (ground arith) p_sqlite
          | inr e2 ↦ elim (Bool-cases (s == "mysql")) [
            | inl e ↦ at_scheme P s "mysql" mysql db ((eq_iff s "mysql").0 e) (ground arith) p_mysql
            | inr e3 ↦ elim (Bool-cases (s == "mssql")) [
              | inl e ↦
                  at_scheme P s "mssql" mssql db ((eq_iff s "mssql").0 e) (ground arith) p_mssql
              | inr e4 ↦ elim (Bool-cases (s == "oracle")) [
                | inl e ↦
                    at_scheme P s "oracle" oracle db ((eq_iff s "oracle").0 e) (ground arith)
                      p_oracle
                | inr e5 ↦ elim (Bool-cases (s == "postgres")) [
                  | inl e ↦
                      at_scheme P s "postgres" asyncpg db ((eq_iff s "postgres").0 e) (ground arith)
                        p_postgres
                  | inr e ↦ absurd (ground arith)
                ]
              ]
            ]
          ]
        ]
      ]
    ]

-- Every scheme but "sqlite" has the mapping of the servers.
pub db_lookup-vmap :
    (s : String) (db : Backend) → db_lookup s ≡ some db → s ≢ "sqlite" → db.vmap ≡ server_vmap
unfolding db_lookup
db_lookup-vmap s db h n = ground (arith, eq_iff s "sqlite")

-- Only SQLite's path begins at its first character.
pub db_lookup-skip :
    (s : String) (db : Backend) → db_lookup s ≡ some db → s ≢ "sqlite" → db.skip_first_char ≡ true
unfolding db_lookup
db_lookup-skip s db h n = ground (arith, eq_iff s "sqlite")

-- No scheme has another conversion of `port` than that to a text.
pub db_lookup-cast :
    (s : String) (db : Backend) → db_lookup s ≡ some db → lookup "port" db.cast ≡ none
unfolding db_lookup
db_lookup-cast s db h = ground arith

pub db_lookup-port :
    (s : String) (db : Backend)
    → db_lookup s ≡ some db
    → s ≢ "sqlite"
    → lookup "port" db.defaults ≡ some (number (pos (default_port s)))
db_lookup-port s db h n =
    by_scheme
      (λ t b. t ≢ "sqlite" → lookup "port" b.defaults ≡ some (number (pos (default_port t))))
      (λ n. refl) (λ n. refl) (λ n. absurd (n refl)) (λ n. refl) (λ n. refl) (λ n. refl) (λ n. refl)
      s db h n

pub db_lookup-engine : (s : String) (db : Backend) → db_lookup s ≡ some db → db.engine ≡ engine_of s
db_lookup-engine s db h =
    by_scheme (λ t b. b.engine ≡ engine_of t) refl refl refl refl refl refl refl s db h
