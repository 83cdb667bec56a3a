-- ===== src/Joins/Ordered.antt =====
-- What a query is ordered by stands on a table that the query has.
use mathlib.Core.Path.{subst}
use tortoise_orm_zh_cn.Base.{
  ◌≡◌, refl, ap, sym, ◌∙◌, Bool, true, false, ◌||◌, String, List, [], ◌∷◌, ◌++◌, arith,
  append_assoc, append-nil, Bool-cases, Option-cases, inl, inr, All, contains,
}
use tortoise_orm_zh_cn.Base.Dict.{Dict, lookup}
use tortoise_orm_zh_cn.Base.Keys.{member, same_refl}
use tortoise_orm_zh_cn.Base.Errors.{ok, >>=-eq-ok, key_error}
use tortoise_orm_zh_cn.Executor.Update.{get_or}
use tortoise_orm_zh_cn.Queries.{Order}
use tortoise_orm_zh_cn.Joins.{
  Tables, Join, Kind, many_to_many, backward, forward, ModelInfo, OrderTerm, column, annotation,
  Query, FieldPath, last, via, path_of, add_join, join_table_by_field, order_by_term, order_by_name,
  source_or, resolve_path, resolve_each, chosen_orderings, resolve_ordering,
}

module _ {T : Type 0} (tables : Tables T) (base : T) where
  -- The table is the query's own, or one of these.
  abbrev pub is_known : List T → T → Bool
  is_known seen t = tables.keys.same t base || member tables.keys t seen

  -- Each table is joined once, and on columns of itself, the query's own and those before.
  abbrev pub AreLinked : List T → List (Join T) → Type 0
  AreLinked seen [] = Unit
  AreLinked seen (j ∷ js) =
      (member tables.keys j.table seen ≡ false)
      × (is_known (seen ++ j.table ∷ []) j.left.0 ≡ true)
      × (is_known (seen ++ j.table ∷ []) j.right.0 ≡ true)
      × AreLinked (seen ++ j.table ∷ []) js

  abbrev pub tables_of : List (Join T) → List T
  tables_of [] = []
  tables_of (j ∷ js) = j.table ∷ tables_of js

  member-append :
      (t : T) (xs ys : List T)
      → member tables.keys t (xs ++ ys) ≡ (member tables.keys t xs || member tables.keys t ys)
  member-append t [] ys = refl
  member-append t (x ∷ xs) ys = ground (arith, member-append t xs ys)

  is_known-append : (t : T) (xs ys : List T) → is_known xs t ≡ true → is_known (xs ++ ys) t ≡ true
  is_known-append t xs ys h = ground (arith, member-append t xs ys)

  is_known_self : (t : T) (xs : List T) → is_known (xs ++ t ∷ []) t ≡ true
  is_known_self t xs = ground (arith, member-append t xs (t ∷ []), same_refl tables.keys t)

  AreLinked-append :
      (seen : List T) (js : List (Join T)) (j : Join T)
      → AreLinked seen js
      → AreLinked (seen ++ tables_of js) (j ∷ [])
      → AreLinked seen (js ++ j ∷ [])
  AreLinked-append seen [] j h h' = rw (append-nil seen) at h'
  AreLinked-append seen (i ∷ js) j (new, left, right, h) h' = (
    new,
    left,
    right,
    AreLinked-append (seen ++ i.table ∷ []) js j h
        (rw (← append_assoc seen (i.table ∷ []) (tables_of js)) at h'),
  )

  tables_of-append :
      (js : List (Join T)) (j : Join T) → tables_of (js ++ j ∷ []) ≡ tables_of js ++ j.table ∷ []
  tables_of-append [] j = refl
  tables_of-append (i ∷ js) j = rw (tables_of-append js j)

  module _ {A : Type 0} where
    -- The table of an ordering is known.
    abbrev pub IsPlaced : List T → OrderTerm T A × Order → Type 0
    IsPlaced seen (column t name cast, order) = is_known seen t ≡ true
    IsPlaced seen (annotation a, order) = Unit

    pub record IsSound (q : Query T A) : Type 0 where
      pub joined : q.joined_tables ≡ tables_of q.joins
      pub linked : AreLinked [] q.joins
      pub placed : All (IsPlaced q.joined_tables) q.orderbys

    IsPlaced-append :
        (seen more : List T) (os : List (OrderTerm T A × Order))
        → All (IsPlaced seen) os
        → All (IsPlaced (seen ++ more)) os
    IsPlaced-append seen more [] h = tt
    IsPlaced-append seen more ((column t name cast, order) ∷ os) (here, h) =
        (is_known-append t seen more here, IsPlaced-append seen more os h)
    IsPlaced-append seen more ((annotation a, order) ∷ os) (here, h) =
        (tt, IsPlaced-append seen more os h)

    All-snoc :
        (seen : List T) (os : List (OrderTerm T A × Order)) (o : OrderTerm T A × Order)
        → All (IsPlaced seen) os
        → IsPlaced seen o
        → All (IsPlaced seen) (os ++ o ∷ [])
    All-snoc seen [] o h here = (here, tt)
    All-snoc seen (p ∷ os) o (there, h) here = (there, All-snoc seen os o h here)

    -- A step keeps a query sound, and knows the table and all that was known.
    abbrev Grows : T → Query T A → Query T A → Type 0
    Grows t q q' =
        IsSound q'
        × (is_known q'.joined_tables t ≡ true)
        × ((u : T) → is_known q.joined_tables u ≡ true → is_known q'.joined_tables u ≡ true)

    joined-linked :
        (j : Join T) (seen : List T) (q : Query T A)
        → seen ≡ tables_of q.joins
        → AreLinked [] q.joins
        → AreLinked seen (j ∷ [])
        → AreLinked [] (q.joins ++ j ∷ [])
    joined-linked j seen q e linked h = AreLinked-append [] q.joins j linked (rw e at h)

    abbrev Keeps : Query T A → Query T A → Type 0
    Keeps q q' =
        IsSound q'
        × ((u : T) → is_known q.joined_tables u ≡ true → is_known q'.joined_tables u ≡ true)

    add_join-IsSound :
        (j : Join T) (q : Query T A)
        → IsSound q
        → is_known (q.joined_tables ++ j.table ∷ []) j.left.0 ≡ true
        → is_known (q.joined_tables ++ j.table ∷ []) j.right.0 ≡ true
        → Grows j.table q (add_join tables j q)
    add_join-IsSound j q sound left right =
        elim (Bool-cases (member tables.keys j.table q.joined_tables)) [
          | inl there ↦ rw there (sound, ground arith, λ u h. h)
          | inr new ↦ rw new (
            record {
              joined =
                  ap (λ ts. ts ++ j.table ∷ []) sound.joined ∙ sym (tables_of-append q.joins j);
              linked =
                  joined-linked j q.joined_tables q sound.joined sound.linked
                    (new, left, right, tt);
              placed = IsPlaced-append q.joined_tables (j.table ∷ []) q.orderbys sound.placed;
            },
            is_known_self j.table q.joined_tables,
            λ u h. is_known-append u q.joined_tables (j.table ∷ []) h,
          )
        ]

    join_table_by_field-Grows :
        (table : T) (name : String) (own related : ModelInfo T) (kind : Kind T) (q : Query T A)
        → IsSound q
        → is_known q.joined_tables table ≡ true
        → let (related_table, q') = join_table_by_field tables table name own related kind q in
          Grows related_table q q'
    unfolding join_table_by_field
    join_table_by_field-Grows table name own related (many_to_many through backward_key forward_key)
          q sound h =
        let (sound', there, more) =
          add_join-IsSound
            (record {
              table = through;
              left = (table, own.db_pk_column);
              right = (through, backward_key);
            })
            q sound (is_known-append table q.joined_tables (through ∷ []) h)
            (is_known_self through q.joined_tables) in
        let first : Join T = record {
          table = through;
          left = (table, own.db_pk_column);
          right = (through, backward_key);
        } in
        let middle = add_join tables first q in
        let (sound'', there'', more'') =
          add_join-IsSound
            (record {
              table = related.basetable;
              left = (through, forward_key);
              right = (related.basetable, related.db_pk_column);
            })
            middle sound'
            (is_known-append through middle.joined_tables (related.basetable ∷ []) there)
            (is_known_self related.basetable middle.joined_tables) in
        (sound'', there'', λ u k. more'' u (more u k))
    join_table_by_field-Grows table name own related (backward to_field source) q sound h =
        add_join-IsSound _ q sound (is_known-append table q.joined_tables _ h)
          (is_known_self _ q.joined_tables)
    join_table_by_field-Grows table name own related (forward to_field from_field) q sound h =
        add_join-IsSound _ q sound (is_known_self _ q.joined_tables)
          (is_known-append table q.joined_tables _ h)

    order_by_term-IsSound :
        (term : OrderTerm T A) (order : Order) (q : Query T A)
        → IsSound q
        → IsPlaced q.joined_tables (term, order)
        → IsSound (order_by_term tables term order q)
    order_by_term-IsSound term order q sound here = record {
      joined = sound.joined;
      linked = sound.linked;
      placed = All-snoc q.joined_tables q.orderbys (term, order) sound.placed here;
    }

    order_by_name-Keeps :
        (annotations : Dict A) (model : ModelInfo T) (table : T) (name : String) (order : Order)
        (q q' : Query T A)
        → order_by_name tables annotations model table name order q ≡ ok q'
        → IsSound q
        → is_known q.joined_tables table ≡ true
        → Keeps q q'
    order_by_name-Keeps annotations model table name order q q' made sound h =
        elim (Option-cases (lookup name annotations)) [
          | inr (a, e) ↦
              let same : order_by_term tables (annotation a) order q ≡ q' = ground arith in
              subst (λ r. Keeps q r) same
                (order_by_term-IsSound (annotation a) order q sound tt, λ u k. k)
          | inl e ↦ elim (Option-cases (lookup name model.fields_map)) [
            | inl e' ↦ absurd (ground arith)
            | inr (field, e') ↦
                let same : order_by_term tables
                      (column table (source_or field.source_field name) field.function_cast) order q
                    ≡ q' =
                  ground arith in
                subst (λ r. Keeps q r) same (order_by_term-IsSound _ order q sound h, λ u k. k)
          ]
        ]

    module _ (models : Dict (ModelInfo T)) where
      resolve_path-Keeps :
          (annotations : Dict A) (model : ModelInfo T) (table : T) (path : FieldPath)
          (order : Order) (q q' : Query T A)
          → resolve_path tables models annotations model table path order q ≡ ok q'
          → IsSound q
          → is_known q.joined_tables table ≡ true
          → Keeps q q'
      unfolding resolve_path
      resolve_path-Keeps annotations model table (last name) order q q' made sound h =
          elim (Bool-cases (contains name model.fetch_fields)) [
            | inl e ↦ absurd (ground arith)
            | inr e ↦
                order_by_name-Keeps annotations model table name order q q' (rw e at made) sound h
          ]
      resolve_path-Keeps annotations model table (via name first rest) order q q' made sound h =
          elim (Bool-cases (contains name model.fetch_fields)) [
            | inl e ↦ absurd (ground arith)
            | inr e ↦ elim (Bool-cases (contains first model.fetch_fields)) [
              | inr e' ↦
                  order_by_name-Keeps annotations model table name order q q' (ground arith) sound h
              | inl e' ↦
                  let steps = rw (resolve_path, e, e') at made in
                  let (relation, _, made') =
                    >>=-eq-ok (get_or key_error first model.relations) _ steps in
                  let (related, _, made'') =
                    >>=-eq-ok (get_or key_error relation.related_model models) _ made' in
                  let (sound', there, more) =
                    join_table_by_field-Grows table first model related relation.kind q sound h in
                  let (sound'', more') =
                    resolve_path-Keeps [] related _ rest order _ q' made'' sound' there in
                  (sound'', λ u k. more' u (more u k))
            ]
          ]

      resolve_each-IsSound :
          (annotations : Dict A) (model : ModelInfo T) (table : T)
          (orderings : List (String × Order)) (q q' : Query T A)
          → resolve_each tables models annotations model table orderings q ≡ ok q'
          → IsSound q
          → is_known q.joined_tables table ≡ true
          → IsSound q'
      unfolding resolve_each
      resolve_each-IsSound annotations model table [] q q' made sound h =
          let same : q ≡ q' = cc in subst (λ r. IsSound r) same sound
      resolve_each-IsSound annotations model table ((name, order) ∷ orderings) q q' made sound h =
          let (middle, one, rest) =
            >>=-eq-ok (resolve_path tables models annotations model table (path_of name) order q) _
              made in
          let (sound', more) =
            resolve_path-Keeps annotations model table (path_of name) order q middle one sound h in
          resolve_each-IsSound annotations model table orderings middle q' rest sound'
            (more table h)

      -- A query is sound if its joins are of different tables, each on columns of itself, of the
      -- query's own table or of tables joined before, and if each column that it is ordered by is of
      -- a table that it has. Ordering a sound query, by names of any depth, gives a sound query.
      pub resolve_ordering-IsSound :
          (annotations : Dict A) (defaults : List (String × Order)) (model : ModelInfo T)
          (table : T) (orderings : List (String × Order)) (q q' : Query T A)
          → IsSound q
          → is_known q.joined_tables table ≡ true
          → resolve_ordering tables models annotations defaults model table orderings q ≡ ok q'
          → IsSound q'
      unfolding resolve_ordering
      resolve_ordering-IsSound annotations defaults model table orderings q q' sound h made =
          resolve_each-IsSound annotations model table
            (chosen_orderings tables models annotations defaults orderings) q q' made sound h
