-- ===== src/Updates/Bulk.antt =====
-- The queries of a bulk update name every object once, with its values.
use mathlib.Core.Path.{subst}
use tortoise_orm_zh_cn.Base.{
  ℕ, ◌≡◌, refl, ap, sym, ◌∙◌, String, List, [], ◌∷◌, ◌++◌, Option, All, append-nil, append_assoc,
}
use tortoise_orm_zh_cn.Base.Errors.{Result, ok, >>=-eq-ok}
use tortoise_orm_zh_cn.Executor.Insert.{chunk}
use tortoise_orm_zh_cn.Executor.Insert.Chunks.{concat, Fits, chunk-concat}
use tortoise_orm_zh_cn.Updates.{Batch, Whens, whens, pks, set_cases, make_batches, make_bulk_query}

module _ {I W : Type 0} (pk_value : I → Result W) (field_value : String → I → Result W) where
  -- The pairs of a `Case` are, one for each object and in order, its key and its value of the field.
  abbrev pub IsCase : String → List I → Whens W → Type 0
  IsCase field [] [] = Unit
  IsCase field (i ∷ is) ((pk, v) ∷ case) =
      (pk_value i ≡ ok pk) × (field_value field i ≡ ok v) × IsCase field is case
  IsCase field [] ((pk, v) ∷ case) = ⊥
  IsCase field (i ∷ is) [] = ⊥

  -- The keys are, one for each object and in order, those of the objects.
  abbrev pub AreKeys : List I → List W → Type 0
  AreKeys [] [] = Unit
  AreKeys (i ∷ is) (pk ∷ where_pks) = (pk_value i ≡ ok pk) × AreKeys is where_pks
  AreKeys [] (pk ∷ where_pks) = ⊥
  AreKeys (i ∷ is) [] = ⊥

  -- A query for these objects: for each field in turn, a `Case` for them and a `where` on their keys
  abbrev pub IsBatch : List String → List I → List (String × Whens W) → List (List W) → Type 0
  IsBatch [] is [] [] = Unit
  IsBatch (field ∷ fields) is ((name, case) ∷ sets) (where_pks ∷ wheres) =
      (name ≡ field) × IsCase field is case × AreKeys is where_pks × IsBatch fields is sets wheres
  IsBatch fields is sets wheres = ⊥

  -- One query for each chunk
  abbrev pub AreBatches : List String → List (List I) → List (Batch W) → Type 0
  AreBatches fields [] [] = Unit
  AreBatches fields (is ∷ chunks) (query ∷ queries) =
      IsBatch fields is query.sets query.wheres × AreBatches fields chunks queries
  AreBatches fields [] (query ∷ queries) = ⊥
  AreBatches fields (is ∷ chunks) [] = ⊥

  whens-IsCase :
      (field : String) (is : List I) (case : Whens W)
      → whens pk_value field_value field is ≡ ok case
      → IsCase field is case × AreKeys is (pks pk_value field_value case)
  whens-IsCase field [] case h =
      let e : [] ≡ case = cc in
      subst (λ c. IsCase field [] c × AreKeys [] (pks pk_value field_value c)) e (tt, tt)
  whens-IsCase field (i ∷ is) case h =
      let (pk, key, h') = >>=-eq-ok (pk_value i) _ h in
      let (v, held, h'') = >>=-eq-ok (field_value field i) _ h' in
      let (rest, made, last) = >>=-eq-ok (whens pk_value field_value field is) _ h'' in
      let (pairs, keys) = whens-IsCase field is rest made in
      let e : (pk, v) ∷ rest ≡ case = cc in
      subst (λ c. IsCase field (i ∷ is) c × AreKeys (i ∷ is) (pks pk_value field_value c)) e
        ((key, held, pairs), (key, keys))

  set_cases-IsBatch :
      (fields : List String) (is : List I) (query query' : Batch W)
      → set_cases pk_value field_value fields is query ≡ ok query'
      → (sets : List (String × Whens W)) × (wheres : List (List W)) × (query'.sets
          ≡ query.sets ++ sets)
        × (query'.wheres ≡ query.wheres ++ wheres)
        × IsBatch fields is sets wheres
  unfolding set_cases
  set_cases-IsBatch [] is query query' h =
      let e : query ≡ query' = cc in
      (
        [],
        [],
        ap (λ q. q.sets) (sym e) ∙ sym (append-nil query.sets),
        ap (λ q. q.wheres) (sym e) ∙ sym (append-nil query.wheres),
        tt,
      )
  set_cases-IsBatch (field ∷ fields) is query query' h =
      let (case, made, rest) = >>=-eq-ok (whens pk_value field_value field is) _ h in
      let (sets, wheres, e, e', there) = set_cases-IsBatch fields is _ query' rest in
      (
        (field, case) ∷ sets,
        pks pk_value field_value case ∷ wheres,
        e ∙ append_assoc query.sets ((field, case) ∷ []) sets,
        e' ∙ append_assoc query.wheres (pks pk_value field_value case ∷ []) wheres,
        (let (pairs, keys) = whens-IsCase field is case made in (refl, pairs, keys, there)),
      )

  make_batches-AreBatches :
      (fields : List String) (chunks : List (List I)) (queries queries' : List (Batch W))
      → make_batches pk_value field_value fields chunks queries ≡ ok queries'
      → (more : List (Batch W)) × (queries' ≡ queries ++ more) × AreBatches fields chunks more
  unfolding make_batches
  make_batches-AreBatches fields [] queries queries' h =
      let e : queries ≡ queries' = cc in ([], sym e ∙ sym (append-nil queries), tt)
  make_batches-AreBatches fields (is ∷ chunks) queries queries' h =
      let (query, made, rest) =
        >>=-eq-ok (set_cases pk_value field_value fields is (record { sets = []; wheres = [] })) _
          h in
      let (sets, wheres, e, e', here) = set_cases-IsBatch fields is _ query made in
      let (more, all, there) =
        make_batches-AreBatches fields chunks (queries ++ query ∷ []) queries' rest in
      (query ∷ more, all ∙ append_assoc queries (query ∷ []) more, (rw (e, e') here, there))

  -- If the loop of a bulk update goes through, it adds one query for each chunk of the objects to
  -- those that the query object had. Each query has, for each field in turn, a `Case` that names
  -- each object of its chunk once, in order, with its key and its value of that field, and a `where`
  -- on the keys of just these objects. The chunks together are the objects, in order, and none is longer than the
  -- batch size.
  pub make_bulk_query-batches :
      (fields : List String) (batch_size : Option ℕ) (objects : List I)
      (queries queries' : List (Batch W))
      → make_bulk_query pk_value field_value fields batch_size objects queries ≡ ok queries'
      → (chunks : List (List I)) × (more : List (Batch W)) × (queries' ≡ queries ++ more)
        × AreBatches fields chunks more
        × (concat chunks ≡ objects)
        × All (Fits batch_size) chunks
  unfolding make_bulk_query
  make_bulk_query-batches fields batch_size objects queries queries' h =
      let (more, all, there) =
        make_batches-AreBatches fields (chunk batch_size objects) queries queries' h in
      let (whole, fits) = chunk-concat batch_size objects in
      (chunk batch_size objects, more, all, there, whole, fits)
