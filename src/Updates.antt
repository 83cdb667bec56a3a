-- ===== src/Updates.antt =====
-- `UpdateQuery` and `BulkUpdateQuery` of tortoise/queryset.py.
-- The filters, the conversions of values and of expressions, and the database are arguments.
pub mod Assign
pub mod Bind
pub mod Bulk
mod Tests
use tortoise_orm_zh_cn.Base.{
  ℕ, zero, suc, ◌+◌, Bool, true, false, ◌&&◌, String, List, [], ◌∷◌, ◌++◌, Option, none, some,
  if◌then◌else◌, length,
}
use tortoise_orm_zh_cn.Base.Dict.{Dict, lookup, insert}
use tortoise_orm_zh_cn.Base.Errors.{Result, ok, err, ◌>>=◌, field_error, integrity_error, key_error}
use tortoise_orm_zh_cn.Executor.Update.{
  Held, plain, expression, Source, parameter, computed, get_or,
}
use tortoise_orm_zh_cn.Executor.Update.Sets.{Assigned, value, term}
use tortoise_orm_zh_cn.Executor.Insert.{chunk}

-- What `_make_query` reads of a field: whether it is the key and, of a foreign key or a one-to-one
-- field, its `source_field` and the `model_field_name` of its `to_field_instance`.
pub record FieldInfo : Type 0 where
  pub pk : Bool
  pub relation : Option (String × String)

-- `fields_map`, the `source_field` of the fields in it, and `fields_db_projection`
pub record Meta : Type 0 where
  pub fields_map : Dict FieldInfo
  pub source_fields : Dict String
  pub columns : Dict String

-- The query, and the values for its parameters
pub record Made (G W T : Type 0) : Type 0 where
  pub limit : Option ℕ
  pub filters : G
  pub sets : List (String × Source T)
  pub values : List W

-- `if self.capabilities.support_update_limit_order_by and self.limit`
abbrev pub limit_of : Bool → Option ℕ → Option ℕ
limit_of true (some (suc n)) = some (suc n)
limit_of true (some zero) = none
limit_of true none = none
limit_of false limit = none

module _ {V W E T : Type 0} (meta : Meta) (get_attribute : String → Held V E → Result V)
    (to_db : String → V → Result W) (resolve_expression : E → Result T) where
  -- The value of a field that is no relation
  abbrev pub resolve_value : String → Held V E → Result (Assigned W T)
  resolve_value key (plain v) = do w ← to_db key v; ok (value w)
  resolve_value key (expression e) = do t ← resolve_expression e; ok (term t)

  -- The column and the value for a keyword argument, by the kind of its field
  abbrev pub resolve_field : String → Held V E → FieldInfo → Result (String × Assigned W T)
  resolve_field key given info = elim info.pk [
    | true ↦ err integrity_error
    | false ↦ elim info.relation [
      | some (fk_field, name) ↦ do
        db_field ← get_or key_error fk_field meta.source_fields
        v ← get_attribute name given
        w ← to_db fk_field v
        ok (db_field, value w)
      | none ↦ do
        db_field ← get_or field_error key meta.columns
        a ← resolve_value key given
        ok (db_field, a)
    ]
  ]

  unfoldable pub resolve_argument : String → Held V E → Result (String × Assigned W T)
  resolve_argument key given = do
    info ← get_or field_error key meta.fields_map
    resolve_field key given info

  -- The end of a round: `query.set`, and for a value its parameter
  abbrev pub next_sets :
      String × Assigned W T
      → List (String × Source T) × List W × ℕ
      → List (String × Source T) × List W × ℕ
  next_sets (column, term t) (sets, values, count) =
      (sets ++ (column, computed t) ∷ [], values, count)
  next_sets (column, value w) (sets, values, count) =
      (sets ++ (column, parameter count) ∷ [], values ++ w ∷ [], count + 1)

  unfoldable pub set_fields :
      Dict (Held V E)
      → List (String × Source T) × List W × ℕ
      → Result (List (String × Source T) × List W × ℕ)
  set_fields [] state = ok state
  set_fields ((key, given) ∷ update_kwargs) state = do
    assigned ← resolve_argument key given
    set_fields update_kwargs (next_sets assigned state)

  -- `UpdateQuery._make_query`: `values` are those of the query object, which the loop appends to.
  unfoldable pub make_query :
      {G : Type 0} → Bool → Option ℕ → Result G → Dict (Held V E) → List W → Result (Made G W T)
  make_query supports_limit limit resolved update_kwargs values = do
    filters ← resolved
    state ← set_fields update_kwargs ([], values, 0)
    ok record {
      limit = limit_of supports_limit limit;
      filters = filters;
      sets = state.0;
      values = state.1;
    }

-- A `Case` of a bulk update: its pairs of a key and a value
abbrev pub Whens : Type 0 → Type 0
Whens W = List (W × W)

-- A query of a bulk update: for each field its `Case`, and the keys of each `where`
pub record Batch (W : Type 0) : Type 0 where
  pub sets : List (String × Whens W)
  pub wheres : List (List W)

module _ {I W : Type 0} (pk_value : I → Result W) (field_value : String → I → Result W) where
  -- The loop over the objects: the `Case` of a field
  abbrev pub whens : String → List I → Result (Whens W)
  whens field [] = ok []
  whens field (i ∷ is) = do
    pk ← pk_value i
    v ← field_value field i
    rest ← whens field is
    ok ((pk, v) ∷ rest)

  -- `pk_list`
  abbrev pub pks : Whens W → List W
  pks [] = []
  pks ((pk, v) ∷ rest) = pk ∷ pks rest

  -- The loop over the fields
  unfoldable pub set_cases : List String → List I → Batch W → Result (Batch W)
  set_cases [] objects_item query = ok query
  set_cases (field ∷ fields) objects_item query = do
    case ← whens field objects_item
    set_cases fields objects_item
        record { sets = query.sets ++ (field, case) ∷ []; wheres = query.wheres ++ pks case ∷ [] }

  -- The loop over the chunks, which appends to `self.queries`
  unfoldable pub make_batches :
      List String → List (List I) → List (Batch W) → Result (List (Batch W))
  make_batches fields [] queries = ok queries
  make_batches fields (objects_item ∷ chunks) queries = do
    query ← set_cases fields objects_item record { sets = []; wheres = [] }
    make_batches fields chunks (queries ++ query ∷ [])

  -- The loop of `BulkUpdateQuery._make_query`; `queries` are those of the query object.
  unfoldable pub make_bulk_query :
      List String → Option ℕ → List I → List (Batch W) → Result (List (Batch W))
  make_bulk_query fields batch_size objects queries =
      make_batches fields (chunk batch_size objects) queries

-- `BulkUpdateQuery._execute`: the sum of the numbers of rows
unfoldable pub execute_bulk : {W : Type 0} → (Batch W → Result ℕ) → List (Batch W) → Result ℕ
execute_bulk execute_query [] = ok 0
execute_bulk execute_query (query ∷ queries) = do
  n ← execute_query query
  count ← execute_bulk execute_query queries
  ok (n + count)
