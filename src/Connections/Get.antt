-- ===== src/Connections/Get.antt =====
-- `get` makes a connection once, and returns the same object from then on.
use tortoise_orm_zh_cn.Base.{
  ◌≡◌, refl, ap, ◌∙◌, String, none, some, arith, Option-cases, inl, inr, ◌⊎◌, ◌+◌, ◌==◌, eq_iff,
  eq_refl, if◌then◌else◌,
}
use tortoise_orm_zh_cn.Base.Dict.{Dict, lookup, insert, lookup-insert}
use tortoise_orm_zh_cn.Base.Errors.{Error, Result, ok, err, configuration_error, Result-cases}
use tortoise_orm_zh_cn.Config.{DbInfo}
use tortoise_orm_zh_cn.Connections.{
  DbEntry, Connection, Handler, get_storage, change_storage, get_db_info, get, expand_result,
  create_from, create_connection, make_connection,
}
use tortoise_orm_zh_cn.Connections.Store.{IsValid, get_storage-change_storage}

module _ (expand : String → Result DbInfo) (discover : String → Result (Unit {0})) where
  -- Making a client changes no dict, and an error changes nothing.
  create_from-cases :
      (alias : String) (h : Handler) (r : Result DbInfo)
      → ((e : Error) × (create_from expand discover alias h r ≡ (err e, h)))
        ⊎ ((c : Connection) × (create_from expand discover alias h r
              ≡ (ok c, record h { made = h.made + 1 })))
  create_from-cases alias h (err e) = inl (e, refl)
  create_from-cases alias h (ok i) = elim (Result-cases (discover i.engine)) [
    | inl (_, e) ↦ rw (e, make_connection) (inr (_, refl))
    | inr (e, e') ↦ rw (e', make_connection) (inl (e, refl))
  ]

  -- The three ways that `get` can go.
  get-cases :
      (alias : String) (h : Handler)
      → ((c : Connection) × (lookup alias (get_storage h) ≡ some c)
          × (get expand discover alias h ≡ (ok c, h)))
        ⊎ ((e : Error) × (lookup alias (get_storage h) ≡ none)
            × (get expand discover alias h ≡ (err e, h)))
        ⊎ ((c : Connection) × (lookup alias (get_storage h) ≡ none)
            × (get expand discover alias h
                ≡ (ok c, change_storage (insert alias c) (record h { made = h.made + 1 }))))
  unfolding get create_connection
  get-cases alias h = elim (Option-cases (lookup alias (get_storage h))) [
    | inr (c, e) ↦ inl (c, e, rw (e, get))
    | inl e ↦
        elim (create_from-cases alias h (expand_result expand discover (get_db_info alias h))) [
          | inl (x, e') ↦ inr (inl (x, e, rw (e, get) (rw e' refl)))
          | inr (c, e') ↦ inr (inr (c, e, rw (e, get) (rw e' refl)))
        ]
  ]

  get-stored :
      (alias : String) (h : Handler) (c : Connection)
      → lookup alias (get_storage h) ≡ some c
      → get expand discover alias h ≡ (ok c, h)
  unfolding get
  get-stored alias h c e = rw (e, get)

  lookup-get :
      (alias : String) (h h' : Handler) (c : Connection)
      → IsValid h
      → get expand discover alias h ≡ (ok c, h')
      → (j : String)
      → lookup j (get_storage h') ≡ (if alias == j then some c else lookup j (get_storage h))
  lookup-get alias h h' c v g j = elim (get-cases alias h) [
    | inl (d, e, k) ↦
        let eh : h ≡ h' = cc in
        let ec : d ≡ c = cc in rw (← eh, ← ec) (ground (arith, eq_iff alias j))
    | inr (inl (x, _, k)) ↦ absurd (cc)
    | inr (inr (d, e, k)) ↦
        let eh : change_storage (insert alias d) (record h { made = h.made + 1 }) ≡ h' = cc in
        let ec : d ≡ c = cc in
        rw (← eh, ← ec)
          (ap (lookup j)
              (get_storage-change_storage (insert alias d) (record h { made = h.made + 1 }) v)
            ∙ lookup-insert alias j d (get_storage h))
  ]

  -- The connection that `get` returns is the one that it returns next time too, with no further
  -- change, and it is found under its alias, while all other aliases are as before.
  get-get :
      (alias : String) (h h' : Handler) (c : Connection)
      → IsValid h
      → get expand discover alias h ≡ (ok c, h')
      → (get expand discover alias h' ≡ (ok c, h'))
        × ((j : String)
            → lookup j (get_storage h') ≡ (if alias == j then some c else lookup j (get_storage h)))
  get-get alias h h' c v g = (
    get-stored alias h' c (lookup-get alias h h' c v g alias ∙ rw eq_refl),
    lookup-get alias h h' c v g,
  )

  -- A call of `get` that raises has changed nothing.
  get-err :
      (alias : String) (h h' : Handler) (e : Error)
      → get expand discover alias h ≡ (err e, h')
      → h' ≡ h
  get-err alias h h' e g = elim (get-cases alias h) [
    | inl (c, _, k) ↦ absurd (cc)
    | inr (inl (x, _, k)) ↦ cc
    | inr (inr (c, _, k)) ↦ absurd (cc)
  ]

  -- An alias that has no connection and that the configuration lacks is an error, and so is any such
  -- alias when nothing is configured.
  get-unknown :
      (alias : String) (h : Handler)
      → lookup alias (get_storage h) ≡ none
      → ((config : Dict DbEntry) → h.db_config ≡ some config → lookup alias config ≡ none)
      → get expand discover alias h ≡ (err configuration_error, h)
  unfolding get create_connection get_db_info
  get-unknown alias h e absent = elim (Option-cases h.db_config) [
    | inl unset ↦ rw (e, get, create_connection) (rw (unset, get_db_info))
    | inr (config, set) ↦
        rw (e, get, create_connection) (rw (set, get_db_info) (rw (absent config set) refl))
  ]
