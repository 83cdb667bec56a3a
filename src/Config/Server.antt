-- ===== src/Config/Server.antt =====
-- What the parts of a URL make of the settings of a server: its host and user, its password, its
-- database and the port that its query gives.
use Prim.Native.Char.{Char}
use mathlib.Core.Path.{subst}
use tortoise_orm_zh_cn.Base.{
  ◌≡◌, ◌≢◌, ◌∙◌, refl, Bool, true, false, String, List, [], ◌∷◌, Option, none, some, eq_iff, arith,
  ap, sym, ◌==◌, contains, Option-cases, Bool-cases, inl, inr, ◌⊎◌, if◌then◌else◌,
}
use tortoise_orm_zh_cn.Base.Dict.{Dict, lookup, insert, lookup-insert}
use tortoise_orm_zh_cn.Base.Errors.{Result, ok, >>=-eq-ok}
use tortoise_orm_zh_cn.Config.{
  or_empty, skip_first, Url, or_nothing, query_params, path_of, test_path, password_of,
}
use tortoise_orm_zh_cn.Config.Lookup.{Cast, to_str, Setting, text, nothing, Backend}

abbrev pub IsAbsent : Option String → Type 0
IsAbsent part = (part ≡ none) ⊎ (part ≡ some "")

-- The setting is the part of the URL, or `None` if that is absent or empty.
abbrev pub IsGiven : Option String → Setting → Type 0
IsGiven part setting =
    ((s : String) × (part ≡ some s) × (s ≢ "") × (setting ≡ text s))
    ⊎ (IsAbsent part × (setting ≡ nothing))

pub or_nothing-IsGiven : (part : Option String) → IsGiven part (or_nothing part)
or_nothing-IsGiven none = inr (inl refl, refl)
or_nothing-IsGiven (some s) = elim (Bool-cases (s == "")) [
  | inl e ↦ inr (inr (ap some ((eq_iff s "").0 e)), rw e refl)
  | inr e ↦ inl (s, refl, λ h. ground (arith, eq_iff s ""), rw e refl)
]

-- The scheme of a PostgreSQL driver
abbrev pub IsPostgres : String → Type 0
IsPostgres scheme = (scheme ≡ "postgres") ⊎ (scheme ≡ "asyncpg") ⊎ (scheme ≡ "psycopg")

-- The setting is the decoded password, if there is one. If not, it is `None` for the PostgreSQL
-- drivers, and the decoding of the empty text for the others.
abbrev pub IsPassword : (String → String) → Url → Setting → Type 0
IsPassword unquote url setting =
    ((s : String) × (url.password ≡ some s) × (s ≢ "") × (setting ≡ text (unquote s)))
    ⊎ (IsAbsent url.password × IsPostgres url.scheme × (setting ≡ nothing))
    ⊎ (IsAbsent url.password × ¬ IsPostgres url.scheme × (setting ≡ text (unquote "")))

-- The setting is the path without its first character, which in a test is filled in, or `None` if
-- nothing is left.
abbrev pub IsDatabase : (String → String) → Bool → Url → Setting → Type 0
IsDatabase fill testing url setting =
    (((url.path ≡ "") ⊎ ((c : Char) × (url.path ≡ String.◌∷◌ c ""))) × (setting ≡ nothing))
    ⊎ ((c : Char) × (s : String) × (url.path ≡ String.◌∷◌ c s)
        × (s ≢ "")
        × (setting ≡ text (if testing then fill s else s)))

-- The setting is the `port` that the query gives, as a text is converted, or what it was before.
abbrev pub IsQueried :
    (Cast → String → Result Setting)
    → List (String × String)
    → Option Setting
    → Option Setting
    → Type 0
IsQueried convert [] before port = port ≡ before
IsQueried convert ((key, val) ∷ query) before port =
    ((key ≡ "port")
      × (v : Setting) × (convert to_str val ≡ ok v)
      × IsQueried convert query (some v) port)
    ⊎ ((key ≢ "port") × IsQueried convert query before port)

contains-IsPostgres :
    (s : String) → contains s ("postgres" ∷ "asyncpg" ∷ "psycopg" ∷ []) ≡ true → IsPostgres s
contains-IsPostgres s h = elim (Bool-cases (s == "postgres")) [
  | inl e ↦ inl ((eq_iff s "postgres").0 e)
  | inr e ↦ elim (Bool-cases (s == "asyncpg")) [
    | inl e' ↦ inr (inl ((eq_iff s "asyncpg").0 e'))
    | inr e' ↦ inr (inr ((eq_iff s "psycopg").0 (ground arith)))
  ]
]

no-IsPostgres :
    (s : String) → contains s ("postgres" ∷ "asyncpg" ∷ "psycopg" ∷ []) ≡ false → ¬ IsPostgres s
no-IsPostgres s h (inl e) = let e' = (eq_iff s "postgres").1 e in absurd (ground arith)
no-IsPostgres s h (inr (inl e)) = let e' = (eq_iff s "asyncpg").1 e in absurd (ground arith)
no-IsPostgres s h (inr (inr e)) = let e' = (eq_iff s "psycopg").1 e in absurd (ground arith)

without_password :
    (unquote : String → String) (url : Url)
    → IsAbsent url.password
    → or_empty url.password ≡ ""
    → IsPassword unquote url (password_of unquote url)
without_password unquote url absent e =
    let empty : (or_empty url.password == "") ≡ true = (eq_iff (or_empty url.password) "").1 e in
    elim (Bool-cases (contains url.scheme ("postgres" ∷ "asyncpg" ∷ "psycopg" ∷ []))) [
      | inl h ↦ inr (inl (absent, contains-IsPostgres url.scheme h, rw (empty, h) refl))
      | inr h ↦ inr (inr (absent, no-IsPostgres url.scheme h, rw (empty, h, e) refl))
    ]

pub password_of-IsPassword :
    (unquote : String → String) (url : Url) → IsPassword unquote url (password_of unquote url)
password_of-IsPassword unquote url = elim (Option-cases url.password) [
  | inl e ↦ without_password unquote url (inl e) (rw e refl)
  | inr (s, e) ↦ elim (Bool-cases (s == "")) [
    | inl h ↦
        let e' : url.password ≡ some "" = e ∙ ap some ((eq_iff s "").0 h) in
        without_password unquote url (inr e') (rw e' refl)
    | inr h ↦ inl (s, e, λ g. ground (arith, eq_iff s ""), rw (e, h) refl)
  ]
]

test_path-nothing :
    (fill : String → String) (testing : Bool) → test_path fill testing nothing ≡ nothing
test_path-nothing fill true = refl
test_path-nothing fill false = refl

test_path-text :
    (fill : String → String) (testing : Bool) (p : String)
    → test_path fill testing (text p) ≡ text (if testing then fill p else p)
test_path-text fill true p = refl
test_path-text fill false p = refl

-- The path of a server's URL
path_of-server :
    (db : Backend) (url : Url) (p : String)
    → url.path ≡ p
    → db.skip_first_char ≡ true
    → url.scheme ≢ "sqlite"
    → path_of db url ≡ ok (if skip_first p == "" then nothing else text (skip_first p))
path_of-server db url p e server other =
    let no_sqlite : (url.scheme == "sqlite") ≡ false = ground (arith, eq_iff url.scheme "sqlite") in
    rw (server, e, no_sqlite)
      (elim (Bool-cases (skip_first p == "")) [ inl h ↦ rw h refl | inr h ↦ rw h refl ])

pub path_of-IsDatabase :
    (fill : String → String) (testing : Bool) (db : Backend) (url : Url) (path : Setting)
    (p : String)
    → url.path ≡ p
    → db.skip_first_char ≡ true
    → url.scheme ≢ "sqlite"
    → path_of db url ≡ ok path
    → IsDatabase fill testing url (test_path fill testing path)
path_of-IsDatabase fill testing db url path p e server other h =
    let found = path_of-server db url p e server other in
    let same : (if skip_first p == "" then nothing else text (skip_first p)) ≡ path = cc in
    subst (λ r. IsDatabase fill testing url (test_path fill testing r)) same (cut p e)
  where
    cut :
        (p : String)
        → url.path ≡ p
        → IsDatabase fill testing url
            (test_path fill testing (if skip_first p == "" then nothing else text (skip_first p)))
    cut String.[] e = inl (inl e, test_path-nothing fill testing)
    cut (String.◌∷◌ c s) e = elim (Bool-cases (s == "")) [
      | inl h ↦
          let empty = (eq_iff s "").0 h in
          inl (inr (c, e ∙ ap (String.◌∷◌ c) empty), rw h (test_path-nothing fill testing))
      | inr h ↦
          inr (c, s, e, λ g. ground (arith, eq_iff s ""), rw h (test_path-text fill testing s))
    ]

pub query_params-IsQueried :
    (convert : Cast → String → Result Setting) (casts : Dict Cast) (query : List (String × String))
    (params out : Dict Setting)
    → lookup "port" casts ≡ none
    → query_params convert casts query params ≡ ok out
    → IsQueried convert query (lookup "port" params) (lookup "port" out)
unfolding query_params
query_params-IsQueried convert casts [] params out n h =
    let e : params ≡ out = cc in ap (lookup "port") (sym e)
query_params-IsQueried convert casts ((key, val) ∷ query) params out n h =
    let cast : Cast = elim (lookup key casts) [ none ↦ to_str | some c ↦ c ] in
    let (v, converted, rest) = >>=-eq-ok (convert cast val) _ h in
    let later = query_params-IsQueried convert casts query (insert key v params) out n rest in
    let looked = lookup-insert key "port" v params in
    elim (Bool-cases (key == "port")) [
      | inl e ↦
          let same = (eq_iff key "port").0 e in
          let none_given : lookup key casts ≡ none = rw same n in
          inl (same, v, rw none_given at converted, rw (looked, e) at later)
      | inr e ↦ inr (λ g. ground (arith, eq_iff key "port"), rw (looked, e) at later)
    ]
