-- ===== src/Executor/Update/Bind.antt =====
-- The statement and the values of an update fit together: every column gets what its attribute holds.
use tortoise_orm_zh_cn.Base.{
  ℕ, ◌+◌, ◌≡◌, refl, true, false, String, List, [], ◌∷◌, ◌++◌, Option, none, some, arith, eq_iff,
  All, length, length-append, get_elem?, ◌⊎◌, inl, inr, append-nil, append_assoc,
}
use tortoise_orm_zh_cn.Base.Dict.{Dict, lookup, insert, lookup-insert}
use tortoise_orm_zh_cn.Base.Errors.{Result, ok, ◌>>=◌, >>=-eq-ok, key_error, attribute_error}
use tortoise_orm_zh_cn.Executor.Update.{
  Held, plain, expression, Source, parameter, computed, Statement, Table, get_or, build_sets,
  make_update, collect,
}
use tortoise_orm_zh_cn.Executor.Update.Sets.{
  Assigned, value, term, bind_sets, Sets, Sets-parameter, Sets-computed, get_elem?-length,
}

module _ {V W E T : Type 0} (table : Table) (resolve_expression : E → Result T)
    (attributes : Dict (Held V E)) (to_db : String → V → Result W) where
  abbrev assigned : String → Held V E → Result (Assigned W T)
  assigned field (plain v) = do w ← to_db field v; ok (value w)
  assigned field (expression e) = do t ← resolve_expression e; ok (term t)

  -- What an update of these fields is to set: each column but the primary key's to what its
  -- attribute holds, as the database takes it.
  unfoldable pub assignments : List String → Result (List (String × Assigned W T))
  assignments [] = ok []
  assignments (field ∷ fields) = do
    pk ← get_or key_error field table.is_pk
    elim pk [
      | true ↦ assignments fields
      | false ↦ do
        column ← get_or key_error field table.columns
        held ← get_or attribute_error field attributes
        a ← assigned field held
        rest ← assignments fields
        ok ((column, a) ∷ rest)
    ]

  -- The expression that an attribute holds, if it holds one.
  abbrev expression_of : Option (Held V E) → Option E
  expression_of none = none
  expression_of (some (plain v)) = none
  expression_of (some (expression e)) = some e

  -- The dict has the expression of an attribute.
  abbrev Knows : Dict E → String → Type 0
  Knows exprs j = lookup j exprs ≡ expression_of (lookup j attributes)

  -- It has no other expression.
  abbrev IsHonest : Dict E → Type 0
  IsHonest exprs = (j : String) → (lookup j exprs ≡ none) ⊎ Knows exprs j

  insert-Knows :
      (field : String) (e : E) (exprs : Dict E) (j : String)
      → lookup field attributes ≡ some (expression e)
      → Knows exprs j
      → Knows (insert field e exprs) j
  insert-Knows field e exprs j h k = ground (arith, lookup-insert field j e exprs, eq_iff field j)

  insert-IsHonest :
      (field : String) (e : E) (exprs : Dict E)
      → lookup field attributes ≡ some (expression e)
      → IsHonest exprs
      → IsHonest (insert field e exprs)
  insert-IsHonest field e exprs h k j =
      ground (arith, lookup-insert field j e exprs, eq_iff field j, k j)

  -- One round of `collect`, in its three ways to go.
  collect-cons :
      (field : String) (fields : List String) (values values' : List W) (exprs exprs' : Dict E)
      → collect table attributes to_db (field ∷ fields) values exprs ≡ ok (values', exprs')
      → ((lookup field table.is_pk ≡ some true)
          × (collect table attributes to_db fields values exprs ≡ ok (values', exprs')))
        ⊎ ((e : E) × (lookup field table.is_pk ≡ some false)
            × (lookup field attributes ≡ some (expression e))
            × (collect table attributes to_db fields values (insert field e exprs)
                ≡ ok (values', exprs')))
        ⊎ ((v : V) × (w : W) × (lookup field table.is_pk ≡ some false)
            × (lookup field attributes ≡ some (plain v))
            × (to_db field v ≡ ok w)
            × (collect table attributes to_db fields (values ++ w ∷ []) exprs
                ≡ ok (values', exprs')))
  unfolding collect
  collect-cons field fields values values' exprs exprs' h = ground arith

  -- The same of `build_sets`.
  build_sets-cons :
      (field : String) (fields : List String) (exprs : Dict E) (count : ℕ)
      (sets : List (String × Source T)) (out : List (String × Source T) × ℕ)
      → build_sets table resolve_expression (field ∷ fields) exprs count sets ≡ ok out
      → (column : String) × (lookup field table.columns ≡ some column)
        × (((lookup field table.is_pk ≡ some true)
              × (build_sets table resolve_expression fields exprs count sets ≡ ok out))
            ⊎ ((lookup field table.is_pk ≡ some false)
                × (lookup field exprs ≡ none)
                × (build_sets table resolve_expression fields exprs
                      (count + 1)
                      (sets ++ (column, parameter count) ∷ [])
                    ≡ ok out))
            ⊎ ((e : E) × (t : T) × (lookup field table.is_pk ≡ some false)
                × (lookup field exprs ≡ some e)
                × (resolve_expression e ≡ ok t)
                × (build_sets table resolve_expression fields exprs count
                      (sets ++ (column, computed t) ∷ [])
                    ≡ ok out)))
  unfolding build_sets
  build_sets-cons field fields exprs count sets out h = ground arith

  -- `collect` keeps what is known, and comes to know every field of the update.
  collect-Knows :
      (fields : List String) (values values' : List W) (exprs exprs' : Dict E)
      → collect table attributes to_db fields values exprs ≡ ok (values', exprs')
      → (j : String) → Knows exprs j
      → Knows exprs' j
  unfolding collect
  collect-Knows [] values values' exprs exprs' h j k = let e : exprs ≡ exprs' = cc in rw (← e) k
  collect-Knows (field ∷ fields) values values' exprs exprs' h j k =
      elim (collect-cons field fields values values' exprs exprs' h) [
        | inl (_, rest) ↦ collect-Knows fields values values' exprs exprs' rest j k
        | inr (inl (e, _, held, rest)) ↦
            collect-Knows fields values values' (insert field e exprs) exprs' rest j
              (insert-Knows field e exprs j held k)
        | inr (inr (v, w, _, _, _, rest)) ↦
            collect-Knows fields (values ++ w ∷ []) values' exprs exprs' rest j k
      ]

  -- A field that is in the update is known at the end.
  abbrev IsKnown : Dict E → String → Type 0
  IsKnown exprs field = lookup field table.is_pk ≡ some false → Knows exprs field

  collect-IsKnown :
      (fields : List String) (values values' : List W) (exprs exprs' : Dict E)
      → collect table attributes to_db fields values exprs ≡ ok (values', exprs')
      → IsHonest exprs
      → All (IsKnown exprs') fields
  collect-IsKnown [] values values' exprs exprs' h k = tt
  collect-IsKnown (field ∷ fields) values values' exprs exprs' h k =
      elim (collect-cons field fields values values' exprs exprs' h) [
        | inl (pk, rest) ↦
            (λ plain_key. absurd (cc), collect-IsKnown fields values values' exprs exprs' rest k)
        | inr (inl (e, _, held, rest)) ↦ (
          λ plain_key.
              collect-Knows fields values values' (insert field e exprs) exprs' rest field
                (ground (arith, lookup-insert field field e exprs, eq_iff field field)),
          collect-IsKnown fields values values' (insert field e exprs) exprs' rest
              (insert-IsHonest field e exprs held k),
        )
        | inr (inr (v, w, _, held, _, rest)) ↦ (
          λ plain_key.
              collect-Knows fields (values ++ w ∷ []) values' exprs exprs' rest field
                (ground (arith, k field)),
          collect-IsKnown fields (values ++ w ∷ []) values' exprs exprs' rest k,
        )
      ]

  assignments-pk :
      (field : String) (fields : List String) (out : List (String × Assigned W T))
      → lookup field table.is_pk ≡ some true
      → assignments fields ≡ ok out
      → assignments (field ∷ fields) ≡ ok out
  unfolding assignments
  assignments-pk field fields out pk h = ground arith

  assignments-cons :
      (field : String) (fields : List String) (out : List (String × Assigned W T)) (column : String)
      (held : Held V E) (a : Assigned W T)
      → lookup field table.is_pk ≡ some false
      → lookup field table.columns ≡ some column
      → lookup field attributes ≡ some held
      → assigned field held ≡ ok a
      → assignments fields ≡ ok out
      → assignments (field ∷ fields) ≡ ok ((column, a) ∷ out)
  unfolding assignments
  assignments-cons field fields out column held a pk has h e rest = ground arith

  -- The two loops run in step.
  collect-build_sets :
      (fields : List String) (values values' : List W) (exprs exprs' known : Dict E)
      (sets : List (String × Source T)) (built : List (String × Source T) × ℕ)
      (before : List (String × Assigned W T))
      → collect table attributes to_db fields values exprs ≡ ok (values', exprs')
      → All (IsKnown known) fields
      → build_sets table resolve_expression fields known (length values) sets ≡ ok built
      → Sets values sets before
      → (out : List (String × Assigned W T)) × (assignments fields ≡ ok out)
        × (built.1 ≡ length values')
        × Sets values' built.0 (before ++ out)
  unfolding assignments build_sets collect
  collect-build_sets [] values values' exprs exprs' known sets built before c k b s =
      let e : values ≡ values' = cc in
      let f : (sets, length values) ≡ built = cc in
      ([], refl, rw (← f, e) refl, rw (← f, ← e, append-nil) s)
  collect-build_sets (field ∷ fields) values values' exprs exprs' known sets built before c (k, ks)
        b s =
      let (column, has, way) = build_sets-cons field fields known (length values) sets built b in
      elim (collect-cons field fields values values' exprs exprs' c) [
        | inl (pk, c') ↦ elim way [
          | inl (_, b') ↦
              let (out, a, n, t) =
                collect-build_sets fields values values' exprs exprs' known sets built before c' ks
                  b' s in
              (out, assignments-pk field fields out pk a, n, t)
          | inr (inl (plain_key, _, _)) ↦ absurd (cc)
          | inr (inr (_, _, plain_key, _, _, _)) ↦ absurd (cc)
        ]
        | inr (inl (e, plain_key, held, c')) ↦ elim way [
          | inl (pk, _) ↦ absurd (cc)
          | inr (inl (_, missing, _)) ↦ let known_e = k plain_key in absurd (ground arith)
          | inr (inr (e', t, _, found, computes, b')) ↦
              let same : e ≡ e' = let known_e = k plain_key in ground arith in
              let (out, a, n, done) =
                collect-build_sets fields values values' (insert field e exprs) exprs' known
                  (sets ++ (column, computed t) ∷ []) built (before ++ (column, term t) ∷ []) c' ks
                  b' (Sets-computed values sets before column t s) in
              (
                (column, term t) ∷ out,
                assignments-cons field fields out column (expression e) (term t) plain_key has held
                    (rw (same, computes)) a,
                n,
                rw append_assoc at done,
              )
        ]
        | inr (inr (v, w, plain_key, held, converts, c')) ↦ elim way [
          | inl (pk, _) ↦ absurd (cc)
          | inr (inl (_, missing, b')) ↦
              let size : length values + 1 ≡ length (values ++ w ∷ []) =
                omega (arith, length-append values (w ∷ [])) in
              let (out, a, n, done) =
                collect-build_sets fields (values ++ w ∷ []) values' exprs exprs' known
                  (sets ++ (column, parameter (length values)) ∷ []) built
                  (before ++ (column, value w) ∷ []) c' ks (rw size at b')
                  (Sets-parameter values sets before column w s) in
              (
                (column, value w) ∷ out,
                assignments-cons field fields out column (plain v) (value w) plain_key has held
                    (rw converts) a,
                n,
                rw append_assoc at done,
              )
          | inr (inr (e', t, _, found, _, _)) ↦ let known_e = k plain_key in absurd (ground arith)
        ]
      ]

  -- A statement that was made for the collected expressions, with the collected values.
  pub make_update-assignments :
      (fields : List String) (values : List W) (exprs : Dict E) (pk : W) (s : Statement T)
      → collect table attributes to_db fields [] [] ≡ ok (values, exprs)
      → make_update table resolve_expression fields exprs ≡ ok s
      → (out : List (String × Assigned W T)) × (assignments fields ≡ ok out)
        × (bind_sets (values ++ pk ∷ []) s.sets ≡ some out)
        × (s.where_column ≡ table.pk_column)
        × (get_elem? (values ++ pk ∷ []) s.where_parameter ≡ some pk)
  unfolding make_update
  make_update-assignments fields values exprs pk s c h =
      let (built, b, e) = >>=-eq-ok (build_sets table resolve_expression fields exprs 0 []) _ h in
      let known = collect-IsKnown fields [] values [] exprs c (λ j. inl refl) in
      let (out, a, n, sets) =
        collect-build_sets fields [] values [] exprs exprs [] built [] c known b (λ more. refl) in
      let made : record {
        sets = built.0;
        where_column = table.pk_column;
        where_parameter = built.1;
      }
          ≡ s =
        cc in
      rw (← made) (out, a, sets (pk ∷ []), refl, rw n (get_elem?-length values pk []))
