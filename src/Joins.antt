-- ===== src/Joins.antt =====
-- `_get_joins_for_related_field` of tortoise/query_utils.py, and `_join_table_by_field` and
-- `resolve_ordering` of tortoise/queryset.py. pypika's tables are an argument; the models stand in
-- a dict by name, and a name of a field is read as the parts between its `__`.
pub mod Ordered
mod Tests
use Prim.Native.Char.{Char}
use tortoise_orm_zh_cn.Base.{
  ◌≡◌, ◌↔◌, Bool, true, false, not, ◌&&◌, String, List, [], ◌∷◌, ◌++◌, Option, none, some,
  if◌then◌else◌, ◌==◌, contains,
}
use tortoise_orm_zh_cn.Base.Dict.{Dict, lookup}
use tortoise_orm_zh_cn.Base.Keys.{Keys, member}
use tortoise_orm_zh_cn.Base.Errors.{Result, ok, err, ◌>>=◌, field_error, key_error}
use tortoise_orm_zh_cn.Executor.Update.{get_or}
use tortoise_orm_zh_cn.Queries.{Order}

-- pypika's tables: their equality, `as_` and `get_table_name`
pub record Tables (T : Type 0) : Type 0 where
  pub keys : Keys T
  pub as_ : String → T → T
  pub get_table_name : T → String

-- A table that is joined, and the two columns of the equation that it is joined on
pub record Join (T : Type 0) : Type 0 where
  pub table : T
  pub left : T × String
  pub right : T × String

pub record NamedField : Type 0 where
  pub source_field : String
  pub model_field_name : String

-- The three kinds of relations, with what the joins read of them: a through table with its backward
-- and forward key, or the field that is referred to and the other column
pub data Kind (T : Type 0) : Type 0 where
  many_to_many : T → String → String → Kind T
  backward : NamedField → String → Kind T
  forward : NamedField → NamedField → Kind T

-- A relation, with the name of its `related_model`
pub record Relation (T : Type 0) : Type 0 where
  pub related_model : String
  pub kind : Kind T

-- A field with a column: its `source_field`, if any, and its `function_cast`
pub record ColumnField : Type 0 where
  pub source_field : Option String
  pub function_cast : Option String

pub record ModelInfo (T : Type 0) : Type 0 where
  pub basetable : T
  pub db_pk_column : String
  pub relations : Dict (Relation T)
  pub fetch_fields : List String
  pub fields_map : Dict ColumnField

-- What a query is ordered by: a column, perhaps in a cast, or an annotation
pub data OrderTerm (T A : Type 0) : Type 0 where
  column : T → String → Option String → OrderTerm T A
  annotation : A → OrderTerm T A

-- `_joined_tables`, and the joins and the orderings of the query
pub record Query (T A : Type 0) : Type 0 where
  pub joined_tables : List T
  pub joins : List (Join T)
  pub orderbys : List (OrderTerm T A × Order)

-- A name, cut at its `__`: with each cut the whole name, what stands before, and the rest.
pub data FieldPath : Type 0 where
  last : String → FieldPath
  via : String → String → FieldPath → FieldPath

abbrev pub push : Char → FieldPath → FieldPath
push c (last name) = last (String.◌∷◌ c name)
push c (via name first rest) = via (String.◌∷◌ c name) (String.◌∷◌ c first) rest

abbrev pub full_name : FieldPath → String
full_name (last name) = name
full_name (via name first rest) = name

abbrev pub is_underscore : Char → Bool
is_underscore c = String.◌∷◌ c "" == "_"

-- `field_name.partition("__")`, and so on for what follows
unfoldable pub path_of : String → FieldPath
path_of String.[] = last ""
path_of (String.◌∷◌ c String.[]) = last (String.◌∷◌ c "")
path_of (String.◌∷◌ c (String.◌∷◌ d s)) = elim (is_underscore c && is_underscore d) [
  | true ↦ via (String.◌∷◌ c (String.◌∷◌ d s)) "" (path_of s)
  | false ↦ push c (path_of (String.◌∷◌ d s))
]

-- `field.source_field or field.model_field_name`
abbrev pub column_of : NamedField → String
column_of f = if f.source_field == "" then f.model_field_name else f.source_field

-- `field_object.source_field or field_name`
abbrev pub source_or : Option String → String → String
source_or none name = name
source_or (some source) name = if source == "" then name else source

abbrev pub plus : String → String → String
plus a b = Prim.Native.String.◌++◌ a b

module _ {T : Type 0} (tables : Tables T) where
  abbrev pub alias : T → String → T → T
  alias table name related =
      tables.as_ (plus (tables.get_table_name table) (plus "__" name)) related

  -- `_get_joins_for_related_field`: the joins but the last, and the last
  abbrev pub get_joins : T → String → String → ModelInfo T → Kind T → List (Join T) × Join T
  get_joins table own_pk name related (many_to_many through backward_key forward_key) = (
    record { table = through; left = (table, own_pk); right = (through, backward_key) } ∷ [],
    record {
      table = related.basetable;
      left = (through, forward_key);
      right = (related.basetable, related.db_pk_column);
    },
  )
  get_joins table own_pk name related (backward to_field relation_source_field) =
      let base = related.basetable in
      let related_table = if tables.keys.same table base then alias table name base else base in
      (
        [],
        record {
          table = related_table;
          left = (table, column_of to_field);
          right = (related_table, relation_source_field);
        },
      )
  get_joins table own_pk name related (forward to_field from_field) =
      let related_table = alias table name related.basetable in
      (
        [],
        record {
          table = related_table;
          left = (related_table, column_of to_field);
          right = (table, column_of from_field);
        },
      )

  module _ {A : Type 0} where
    -- A round of the loop over the joins
    abbrev pub add_join : Join T → Query T A → Query T A
    add_join join q = if member tables.keys join.table q.joined_tables then q else record {
      joined_tables = q.joined_tables ++ join.table ∷ [];
      joins = q.joins ++ join ∷ [];
      orderbys = q.orderbys;
    }

    abbrev pub add_joins : List (Join T) → Query T A → Query T A
    add_joins [] q = q
    add_joins (join ∷ joins) q = add_joins joins (add_join join q)

    -- `_join_table_by_field`; `own` is `related_field.model`.
    unfoldable pub join_table_by_field :
        T → String → ModelInfo T → ModelInfo T → Kind T → Query T A → T × Query T A
    join_table_by_field table name own related kind q =
        let (first, join) = get_joins table own.db_pk_column name related kind in
        (join.table, add_join join (add_joins first q))

    abbrev pub order_by_term : OrderTerm T A → Order → Query T A → Query T A
    order_by_term term order q = record {
      joined_tables = q.joined_tables;
      joins = q.joins;
      orderbys = q.orderbys ++ (term, order) ∷ [];
    }

    -- An ordering by an annotation, or by a field of the model
    abbrev pub order_by_name :
        Dict A → ModelInfo T → T → String → Order → Query T A → Result (Query T A)
    order_by_name annotations model table name order q = elim (lookup name annotations) [
      | some a ↦ ok (order_by_term (annotation a) order q)
      | none ↦ do
        field ← get_or field_error name model.fields_map
        ok (
            order_by_term (column table (source_or field.source_field name) field.function_cast)
              order q)
    ]

    module _ (models : Dict (ModelInfo T)) where
      -- A round of `resolve_ordering`
      unfoldable pub resolve_path :
          Dict A → ModelInfo T → T → FieldPath → Order → Query T A → Result (Query T A)
      resolve_path annotations model table (last name) order q =
          if contains name model.fetch_fields
          then err field_error
          else order_by_name annotations model table name order q
      resolve_path annotations model table (via name first rest) order q =
          elim (contains name model.fetch_fields) [
            | true ↦ err field_error
            | false ↦ elim (contains first model.fetch_fields) [
              | false ↦ order_by_name annotations model table name order q
              | true ↦ do
                relation ← get_or key_error first model.relations
                related ← get_or key_error relation.related_model models
                let (related_table, q') =
                    join_table_by_field table first model related relation.kind q
                resolve_path [] related related_table rest order q'
            ]
          ]

      unfoldable pub resolve_each :
          Dict A → ModelInfo T → T → List (String × Order) → Query T A → Result (Query T A)
      resolve_each annotations model table [] q = ok q
      resolve_each annotations model table ((name, order) ∷ orderings) q = do
        q' ← resolve_path annotations model table (path_of name) order q
        resolve_each annotations model table orderings q'

      -- The orderings of the query, or those of the model
      abbrev pub chosen_orderings :
          Dict A → List (String × Order) → List (String × Order) → List (String × Order)
      chosen_orderings annotations defaults (o ∷ orderings) = o ∷ orderings
      chosen_orderings [] defaults [] = defaults
      chosen_orderings (a ∷ annotations) defaults [] = []

      -- `resolve_ordering`
      unfoldable pub resolve_ordering :
          Dict A
          → List (String × Order)
          → ModelInfo T
          → T
          → List (String × Order)
          → Query T A
          → Result (Query T A)
      resolve_ordering annotations defaults model table orderings q =
          resolve_each annotations model table (chosen_orderings annotations defaults orderings) q
