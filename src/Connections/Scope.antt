-- ===== src/Connections/Scope.antt =====
-- `set` and `reset` bracket a change of context, and `close_all` forgets the connections.
use mathlib.Core.Path.{ap₂}
use tortoise_orm_zh_cn.Base.{
  ℕ, ◌<◌, ◌≡◌, refl, ap, contains, ◌∙◌, Bool, String, List, [], ◌∷◌, Option, none, some, length,
  arith, length-append, ◌==◌, eq_iff, if◌then◌else◌,
}
use tortoise_orm_zh_cn.Base.Dict.{lookup, insert, remove, lookup-insert, lookup-remove}
use tortoise_orm_zh_cn.Connections.{
  Connection, Handler, storage_at, get_storage, change_storage, set_connection, reset, discard,
  discard_each, add_missing,
}
use tortoise_orm_zh_cn.Connections.Store.{
  IsValid, get_storage-change_storage, change_storage-IsValid, lookup-add_missing, or_else,
  storage_at-append, storage_at-append_old,
}

-- After `reset` an alias has the connection of the context before `set`, or else the one that it
-- got since: new connections survive, and none of the old ones is replaced.
pub lookup-reset :
    (token : ℕ) (h : Handler)
    → token < length h.storages
    → (j : String)
    → lookup j (get_storage (reset token h))
      ≡ or_else (lookup j (storage_at h.storages token)) (lookup j (get_storage h))
unfolding reset
lookup-reset token h v j =
    ap (lookup j)
      (get_storage-change_storage (add_missing (get_storage h)) (record h { current = token }) v)
    ∙ lookup-add_missing (get_storage h) (storage_at h.storages token) j

-- `set` shows the given connection and all others as before, and does not touch the old context.
pub lookup-set_connection :
    (alias : String) (conn : Connection) (h : Handler)
    → IsValid h
    → let (token, h') = set_connection alias conn h in
      ((j : String)
        → lookup j (get_storage h') ≡ (if alias == j then some conn else lookup j (get_storage h)))
      × (storage_at h'.storages token ≡ get_storage h)
      × (token < length h'.storages)
unfolding set_connection
lookup-set_connection alias conn h v = (
  λ j.
      ap (lookup j) (storage_at-append h.storages (insert alias conn (get_storage h)))
      ∙ lookup-insert alias j conn (get_storage h),
  storage_at-append_old h.storages (insert alias conn (get_storage h)) h.current v,
  omega (arith, length-append h.storages (insert alias conn (get_storage h) ∷ [])),
)

or_else-if :
    (o : Option Connection) (c : Connection) (b : Bool)
    → or_else o (if b then some c else o) ≡ or_else o (if b then some c else none)
or_else-if o c b = ground arith

-- A `set` that is undone by `reset` leaves every alias that had a connection with that connection,
-- and the alias itself with the given one if it had none.
pub reset-set_connection :
    (alias : String) (conn : Connection) (h : Handler)
    → IsValid h
    → (j : String)
    → let (token, h') = set_connection alias conn h in
      lookup j (get_storage (reset token h'))
      ≡ or_else (lookup j (get_storage h)) (if alias == j then some conn else none)
reset-set_connection alias conn h v j =
    let (token, h') = set_connection alias conn h in
    let (shown, kept, fits) = lookup-set_connection alias conn h v in
    lookup-reset token h' fits j
    ∙ ap₂ or_else (ap (lookup j) kept) (shown j)
    ∙ or_else-if (lookup j (get_storage h)) conn (alias == j)

-- Discarding aliases leaves none of them with a connection, and the others as they were.
lookup-discard_each :
    (aliases : List String) (h : Handler)
    → IsValid h
    → (j : String)
    → lookup j (get_storage (discard_each aliases h))
      ≡ (if contains j aliases then none else lookup j (get_storage h))
unfolding discard_each discard
lookup-discard_each [] h v j = refl
lookup-discard_each (alias ∷ aliases) h v j =
    lookup-discard_each aliases (change_storage (remove alias) h)
      (change_storage-IsValid (remove alias) h v) j
    ∙ rw (get_storage-change_storage (remove alias) h v, lookup-remove)
        (ground (arith, eq_iff alias j, eq_iff j alias))
