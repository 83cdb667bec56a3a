-- ===== src/Executor/Update/Cache.antt =====
-- An update that takes its statement from the cache sends what a fresh statement would.
use mathlib.Core.Path.{ap₂}
use tortoise_orm_zh_cn.Base.{
  ◌≡◌, sym, ◌∙◌, String, List, [], ◌∷◌, ◌++◌, Option, some, arith, ◌==◌, eq_iff, get_elem?,
  Option-cases, Bool-cases, inl, inr,
}
use tortoise_orm_zh_cn.Base.Dict.{Dict, lookup, insert, lookup-insert}
use tortoise_orm_zh_cn.Base.Errors.{Result, ok, >>=-eq-ok}
use tortoise_orm_zh_cn.Executor.Update.{
  Held, Statement, Table, chosen, cache_key, make_update, get_update_sql, collect, execute_update,
  cached_or,
}
use tortoise_orm_zh_cn.Executor.Update.Keys.{AreNames, cache_key-chosen}
use tortoise_orm_zh_cn.Executor.Update.Sets.{Assigned, bind_sets}
use tortoise_orm_zh_cn.Executor.Update.Bind.{assignments, make_update-assignments}

module _ {E T : Type 0} (table : Table) (resolve_expression : E → Result T) where
  -- Every statement of the cache is the one that an update of its fields without expressions makes.
  abbrev pub IsValid : Dict (Statement T) → Type 0
  IsValid cache =
      (fields : Option (List String))
      → AreNames fields
      → (s : Statement T) → lookup (cache_key fields) cache ≡ some s
      → make_update table resolve_expression (chosen table fields) [] ≡ ok s

  insert-IsValid :
      (fields : Option (List String)) (s : Statement T) (cache : Dict (Statement T))
      → AreNames fields
      → IsValid cache
      → make_update table resolve_expression (chosen table fields) [] ≡ ok s
      → IsValid (insert (cache_key fields) s cache)
  insert-IsValid fields s cache names v made other names' s' found =
      elim (Bool-cases (cache_key fields == cache_key other)) [
        | inl same ↦
            let e = cache_key-chosen table fields other names names' ((eq_iff _ _).0 same) in
            let e' : s ≡ s' =
              ground (arith, lookup-insert (cache_key fields) (cache_key other) s cache) in
            rw (← e, ← e') made
        | inr differs ↦
            v other names' s'
              (ground (arith, lookup-insert (cache_key fields) (cache_key other) s cache))
      ]

  -- The statement is one that was made for these fields and expressions, now or before.
  get_update_sql-IsValid :
      (fields : Option (List String)) (exprs : Dict E) (cache : Dict (Statement T))
      (s : Statement T) (cache' : Dict (Statement T))
      → AreNames fields
      → IsValid cache
      → get_update_sql table resolve_expression fields exprs cache ≡ ok (s, cache')
      → (make_update table resolve_expression (chosen table fields) exprs ≡ ok s) × IsValid cache'
  unfolding get_update_sql
  get_update_sql-IsValid fields [] cache s cache' names v h =
      elim (Option-cases (lookup (cache_key fields) cache)) [
        | inl missing ↦
            let (made, e, k) =
              >>=-eq-ok (make_update table resolve_expression (chosen table fields) []) _
                (rw (missing, cached_or) at h) in
            let same : made ≡ s = cc in
            let kept : insert (cache_key fields) made cache ≡ cache' = cc in
            (rw same at e, rw (← kept) (insert-IsValid fields made cache names v e))
        | inr (found, e) ↦
            let same : found ≡ s = ground arith in
            let kept : cache ≡ cache' = ground arith in
            (v fields names s (rw same at e), rw (← kept) v)
      ]
  get_update_sql-IsValid fields (e ∷ exprs) cache s cache' names v h =
      let (made, m, k) =
        >>=-eq-ok (make_update table resolve_expression (chosen table fields) (e ∷ exprs)) _ h in
      let same : made ≡ s = cc in let kept : cache ≡ cache' = cc in (rw same at m, rw (← kept) v)

module _ {V W E T : Type 0} (table : Table) (attributes : Dict (Held V E))
    (to_db : String → V → Result W) (resolve_expression : E → Result T) where
  execute_update-parts :
      (pk_value : Result W) (fields : Option (List String)) (cache : Dict (Statement T))
      (s : Statement T) (values : List W) (cache' : Dict (Statement T))
      → execute_update table attributes to_db resolve_expression pk_value fields cache
        ≡ ok ((s, values), cache')
      → (vs : List W) × (exprs : Dict E) × (pk : W) × (collect table attributes to_db
            (chosen table fields)
            []
            []
          ≡ ok (vs, exprs))
        × (pk_value ≡ ok pk)
        × (get_update_sql table resolve_expression fields exprs cache ≡ ok (s, cache'))
        × (values ≡ vs ++ pk ∷ [])
  unfolding execute_update
  execute_update-parts pk_value fields cache s values cache' h =
      let (c0, c, h1) =
        >>=-eq-ok (collect table attributes to_db (chosen table fields) [] []) _ h in
      let (pk, p, h2) = >>=-eq-ok pk_value _ h1 in
      let (u0, u, h3) =
        >>=-eq-ok (get_update_sql table resolve_expression fields c0.1 cache) _ h2 in
      let statement : u0.0 ≡ s = cc in
      let after : u0.1 ≡ cache' = cc in
      let sent : c0.0 ++ pk ∷ [] ≡ values = cc in
      (c0.0, c0.1, pk, c, p, u ∙ ap₂ (λ a b. ok (a, b)) statement after, sym sent)

  -- The statement sets every column of the fields to what its attribute holds, where the primary key
  -- is the object's, and every parameter has its value.
  abbrev pub IsRight : Result W → Option (List String) → Statement T → List W → Type 0
  IsRight pk_value fields s values =
      (out : List (String × Assigned W T)) × (pk : W) × (assignments table resolve_expression
          attributes to_db (chosen table fields)
        ≡ ok out)
      × (bind_sets values s.sets ≡ some out)
      × (s.where_column ≡ table.pk_column)
      × (pk_value ≡ ok pk)
      × (get_elem? values s.where_parameter ≡ some pk)

  parts-IsRight :
      (pk_value : Result W) (fields : Option (List String)) (cache : Dict (Statement T))
      (s : Statement T) (values : List W) (cache' : Dict (Statement T)) (vs : List W)
      (exprs : Dict E) (pk : W)
      → AreNames fields
      → IsValid table resolve_expression cache
      → collect table attributes to_db (chosen table fields) [] [] ≡ ok (vs, exprs)
      → pk_value ≡ ok pk
      → get_update_sql table resolve_expression fields exprs cache ≡ ok (s, cache')
      → values ≡ vs ++ pk ∷ []
      → IsRight pk_value fields s values × IsValid table resolve_expression cache'
  parts-IsRight pk_value fields cache s values cache' vs exprs pk names v c p u e =
      let (made, valid) =
        get_update_sql-IsValid table resolve_expression fields exprs cache s cache' names v u in
      let (out, a, sets, column, last) =
        make_update-assignments table resolve_expression attributes to_db (chosen table fields) vs
          exprs pk s c made in
      ((out, pk, a, rw e sets, column, p, rw e last), valid)

  pub execute_update-assignments :
      (pk_value : Result W) (fields : Option (List String)) (cache : Dict (Statement T))
      (s : Statement T) (values : List W) (cache' : Dict (Statement T))
      → AreNames fields
      → IsValid table resolve_expression cache
      → execute_update table attributes to_db resolve_expression pk_value fields cache
        ≡ ok ((s, values), cache')
      → IsRight pk_value fields s values × IsValid table resolve_expression cache'
  execute_update-assignments pk_value fields cache s values cache' names v h =
      let (vs, exprs, pk, c, p, u, e) =
        execute_update-parts pk_value fields cache s values cache' h in
      parts-IsRight pk_value fields cache s values cache' vs exprs pk names v c p u e
