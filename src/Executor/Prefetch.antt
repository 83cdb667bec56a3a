-- ===== src/Executor/Prefetch.antt =====
-- `_prefetch_reverse_relation`, `_prefetch_reverse_o2o_relation`, `_prefetch_m2m_relation` and
-- `_prefetch_direct_relation` of tortoise/backends/base/executor.py, with
-- `ReverseRelation._set_result_for_query` of tortoise/fields/relational.py. The related query, the
-- attributes of the objects and the conversions of their keys are arguments. The result lists the
-- instances with what was set on each.
pub mod Reverse
pub mod Many
pub mod Direct
mod Tests
use tortoise_orm_zh_cn.Base.{
  ◌≡◌, Bool, true, false, String, List, [], ◌∷◌, ◌++◌, Option, none, some, map, if◌then◌else◌,
  length, ltb, ◌==◌,
}
use tortoise_orm_zh_cn.Base.Dict.{Dict, lookup, insert, has_key}
use tortoise_orm_zh_cn.Base.Keys.{Keys, member, at, put}
use tortoise_orm_zh_cn.Base.Errors.{Result, ok, err, ◌>>=◌, key_error}

-- What is set on an instance: the relation, and the attribute that `to_attr` names
pub record Written (X : Type 0) : Type 0 where
  pub value : X
  pub extra : Option (String × X)

-- `if to_attr: setattr(…)`
abbrev pub write : {X : Type 0} → Option String → X → Written X
write none x = record { value = x; extra = none }
write (some attr) x = record { value = x; extra = if attr == "" then none else some (attr, x) }

-- The loop that sets a value on each instance
abbrev pub set_each : {I X : Type 0} → (I → X) → List I → List (I × X)
set_each value [] = []
set_each value (i ∷ is) = (i, value i) ∷ set_each value is

abbrev pub or_empty : {E : Type 0} → Option (List E) → List E
or_empty none = []
or_empty (some es) = es

module _ {K E : Type 0} (keys : Keys K) where
  -- `if k in d: d[k].append(e)`, `else: d[k] = [e]`
  abbrev pub append_at : K → E → List (K × List E) → List (K × List E)
  append_at k e d = put keys k (or_empty (at keys k d) ++ e ∷ []) d

  -- The loop that groups the related objects
  abbrev pub group : (E → K) → List E → List (K × List E) → List (K × List E)
  group key [] d = d
  group key (e ∷ es) d = group key es (append_at (key e) e d)

  -- The loop, or the comprehension, that maps each key to its object
  abbrev pub index : (E → K) → List E → List (K × E) → List (K × E)
  index key [] d = d
  index key (e ∷ es) d = index key es (put keys (key e) e d)

-- `_field_to_db` of each instance's key
abbrev pub to_db_each : {I R : Type 0} → (I → Result R) → List I → Result (List R)
to_db_each to_db [] = ok []
to_db_each to_db (i ∷ is) = do r ← to_db i; rs ← to_db_each to_db is; ok (r ∷ rs)

-- The filter of a query on the keys, of which there is none for no instances
abbrev pub conditions : {R : Type 0} → List R → Option (List R)
conditions [] = none
conditions rs = some rs

module _ {K I E R : Type 0} (keys : Keys K) (own_key : I → K) (to_db : I → Result R)
    (relation_key : E → K) (query : Option (List R) → Result (List E)) where
  -- `_prefetch_reverse_relation`
  unfoldable pub prefetch_reverse : Option String → List I → Result (List (I × Written (List E)))
  prefetch_reverse to_attr is = do
    rs ← to_db_each to_db is
    es ← query (conditions rs)
    let related_object_map = group keys relation_key es []
    ok (set_each (λ i. write to_attr (or_empty (at keys (own_key i) related_object_map))) is)

  -- `_prefetch_reverse_o2o_relation`
  unfoldable pub prefetch_reverse_o2o :
      Option String → List I → Result (List (I × Written (Option E)))
  prefetch_reverse_o2o to_attr is = do
    rs ← to_db_each to_db is
    es ← query (conditions rs)
    let related_object_map = index keys relation_key es []
    ok (set_each (λ i. write to_attr (at keys (own_key i) related_object_map)) is)

abbrev pub get_item : {E : Type 0} → Option E → Result E
get_item none = err key_error
get_item (some e) = ok e

module _ {K J I E R W : Type 0} (keys : Keys K) (related_keys : Keys J) (own_pk : I → K)
    (to_db : I → Result R) (query : List R → Result (List W)) (backward : W → K) (forward : W → J)
    (init_from_db : W → E) (pk_of : E → J) (prefetch_nested : List E → Result (List E)) where
  -- The pairs of keys, and the objects, of the rows
  abbrev pub relations : List W → List (K × J)
  relations [] = []
  relations (w ∷ ws) = (backward w, forward w) ∷ relations ws

  -- The loop over the pairs of keys
  abbrev pub add_relations :
      List (K × J) → List (J × E) → List (K × List E) → Result (List (K × List E))
  add_relations [] objects d = ok d
  add_relations ((k, j) ∷ pairs) objects d = do
    e ← get_item (at related_keys j objects)
    add_relations pairs objects (append_at keys k e d)

  -- `_prefetch_m2m_relation`: `query` is the join with the through table, for the rows of the
  -- given backward keys, and `prefetch_nested` the prefetch of the related objects.
  unfoldable pub prefetch_m2m : Option String → List I → Result (List (I × Written (List E)))
  prefetch_m2m to_attr is = do
    rs ← to_db_each to_db is
    ws ← query rs
    es ← prefetch_nested (map init_from_db ws)
    relation_map ← add_relations (relations ws) (index related_keys pk_of es []) []
    ok (set_each (λ i. write to_attr (or_empty (at keys (own_pk i) relation_map))) is)

-- What the first loop of `_prefetch_direct_relation` collects
pub record Wanted (K : Type 0) : Type 0 where
  pub for_fetch : Dict (List K)
  pub model_to_field : Dict String
  pub key : String

-- A condition of the filter: a key, or a key with `__in`
pub data Condition (K : Type 0) : Type 0 where
  equals : String → K → Condition K
  is_in : String → List K → Condition K

module _ {K I E : Type 0} (keys : Keys K) (raw_key : I → Option K) (class_of : I → String)
    (to_field : I → String) (attribute : String → E → K) (class_of_object : E → String)
    (query : List (Condition K) → Result (List E)) where
  -- `if value not in values: values.append(value)`
  abbrev pub add_value : K → List K → List K
  add_value v vs = if member keys v vs then vs else vs ++ v ∷ []

  abbrev pub add_for : String → K → Dict (List K) → Dict (List K)
  add_for key v d = insert key (add_value v (or_empty (lookup key d))) d

  abbrev pub collect_one : I → Option K → Option String → Wanted K → Wanted K
  collect_one i none known w = w
  collect_one i (some v) (some key) w = record {
    for_fetch = add_for key v w.for_fetch;
    model_to_field = w.model_to_field;
    key = key;
  }
  collect_one i (some v) none w = record {
    for_fetch = add_for (to_field i) v w.for_fetch;
    model_to_field = insert (class_of i) (to_field i) w.model_to_field;
    key = to_field i;
  }

  abbrev pub collect_wanted : List I → Wanted K → Wanted K
  collect_wanted [] w = w
  collect_wanted (i ∷ is) w =
      collect_wanted is (collect_one i (raw_key i) (lookup (class_of i) w.model_to_field) w)

  abbrev pub nothing_wanted : Wanted K
  nothing_wanted = record { for_fetch = []; model_to_field = []; key = "" }

  abbrev pub condition_for : String → List K → Condition K
  condition_for key (v ∷ []) = equals key v
  condition_for key vs = is_in key vs

  abbrev pub conditions_for : Dict (List K) → List (Condition K)
  conditions_for [] = []
  conditions_for ((key, vs) ∷ d) = condition_for key vs ∷ conditions_for d

  -- `{getattr(obj, model_to_field[obj.__class__]): obj for obj in …}`
  abbrev pub index_by_class : Dict String → List E → List (K × E) → Result (List (K × E))
  index_by_class fields [] d = ok d
  index_by_class fields (e ∷ es) d = do
    field ← get_item (lookup (class_of_object e) fields)
    index_by_class fields es (put keys (attribute field e) e d)

  unfoldable pub object_map : Wanted K → List E → Result (List (K × E))
  object_map w es =
      if ltb 1 (length w.model_to_field)
      then index_by_class w.model_to_field es []
      else ok (index keys (attribute w.key) es [])

  abbrev pub find_object : Option K → List (K × E) → Option E
  find_object none d = none
  find_object (some k) d = at keys k d

  -- With no keys to fetch, only the first loop has set anything: the relation, to `None`.
  unfoldable pub fetch_wanted :
      Wanted K → Option String → List I → Result (List (I × Written (Option E)))
  fetch_wanted w to_attr is = elim w.for_fetch [
    | [] ↦ ok (set_each (λ i. record { value = none; extra = none }) is)
    | (entry ∷ entries) ↦ (do
      es ← query (conditions_for (entry ∷ entries))
      objects ← object_map w es
      ok (set_each (λ i. write to_attr (find_object (raw_key i) objects)) is))
  ]

  -- `_prefetch_direct_relation`
  unfoldable pub prefetch_direct : Option String → List I → Result (List (I × Written (Option E)))
  prefetch_direct to_attr is = fetch_wanted (collect_wanted is nothing_wanted) to_attr is
