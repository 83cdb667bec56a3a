-- ===== src/Lookups.antt =====
-- How `Q` of tortoise/expressions.py resolves one keyword of a filter: `_get_actual_filter_params`,
-- `_process_filter_kwarg`, `_resolve_nested_filter`, `_resolve_custom_kwarg` and
-- `_resolve_regular_kwarg`, with the encoders of tortoise/filters.py. A value that is a model's
-- object or a term is one of the values here; annotations and pypika are arguments.
pub mod Along
pub mod Joined
pub mod Resolve
mod Tests
use tortoise_orm_zh_cn.Base.{
  Bool, true, false, not, ◌&&◌, ◌||◌, String, List, [], ◌∷◌, ◌++◌, Option, none, some, contains,
  if◌then◌else◌, map,
}
use tortoise_orm_zh_cn.Base.Dict.{Dict, lookup, has_key}
use tortoise_orm_zh_cn.Base.Errors.{Result, ok, err, ◌>>=◌, field_error, key_error}
use tortoise_orm_zh_cn.Criteria.{Pypika, Crit, empty, QueryModifier, no_modifier, and_modifiers}
use tortoise_orm_zh_cn.Executor.Update.{get_or}
use tortoise_orm_zh_cn.Literals.{Text}
use tortoise_orm_zh_cn.Filters.{
  Terms, Operator, Arg, one, several, flag, text, truth_of, apply_operator,
}
use tortoise_orm_zh_cn.Filters.Tables.{
  FilterInfo, Encoder, list_encoder, related_list_encoder, bool_encoder, string_encoder,
  json_encoder, pk_encoder, plus,
}
use tortoise_orm_zh_cn.Joins.{
  Tables, Join, Relation, ModelInfo, FieldPath, last, via, full_name, get_joins,
}

-- Python's own part: the attribute `pk` of a value, if it has one, whether it is a term, iteration,
-- and `str`
pub record Python (V : Type 0) : Type 0 where
  pub pk_of : V → Option (Option V)
  pub is_term : V → Bool
  pub elements : Arg V → Result (List (Option V))
  pub to_text : Arg V → Text

-- The `to_db_value` of a field, for one value and for a list, a flag or a text, and `_field_to_db`
-- of the executor for it
pub record Codec (V : Type 0) : Type 0 where
  pub to_db_value : Option V → Result (Option V)
  pub whole_to_db_value : Arg V → Result (Arg V)
  pub field_to_db : Arg V → Result (Arg V)

-- What is read of a model: its relations and its filters, the columns of its foreign keys, its
-- fields, and for each filter in another table the primary key of the model there
pub record FilterModel (T V : Type 0) : Type 0 where
  pub info : ModelInfo T
  pub fk_columns : Dict String
  pub m2m_fields : List String
  pub filters : Dict FilterInfo
  pub fields : Dict (Codec V)
  pub related_pks : Dict (Codec V)

-- `_custom_filters`: the annotation and the operator of each key
pub record CustomFilter : Type 0 where
  pub annotation : String
  pub operator : Operator

abbrev pub where_modifier : {C J : Type 0} → Crit C → List J → QueryModifier C J
where_modifier criterion joins = record {
  where_criterion = criterion;
  joins = joins;
  having_criterion = empty;
}

abbrev pub having_modifier : {C J : Type 0} → Crit C → QueryModifier C J
having_modifier criterion = record {
  where_criterion = empty;
  joins = [];
  having_criterion = criterion;
}

module _ {P : Pypika} (T : Terms P) (python : Python T.Value) where
  abbrev V : Type 0
  V = T.Value

  -- `value.pk if hasattr(value, "pk") else value`
  abbrev pub pk_or_self : Option V → Option V
  pk_or_self none = none
  pk_or_self (some v) = elim (python.pk_of v) [ none ↦ some v | some pk ↦ pk ]

  abbrev pub pk_or_value : Arg V → Arg V
  pk_or_value (one v) = one (pk_or_self v)
  pk_or_value (several vs) = several vs
  pk_or_value (flag b) = flag b
  pk_or_value (text s) = text s

  -- `[field.to_db_value(element, instance) for element in values]`
  unfoldable pub encode_each : Codec V → List (Option V) → Result (List (Option V))
  encode_each codec [] = ok []
  encode_each codec (v ∷ vs) = do w ← codec.to_db_value v; ws ← encode_each codec vs; ok (w ∷ ws)

  abbrev pub encode_one : Codec V → Arg V → Result (Arg V)
  encode_one codec (one v) = do w ← codec.to_db_value v; ok (one w)
  encode_one codec other = codec.whole_to_db_value other

  -- `value_encoder(value, model, field)`
  unfoldable pub encode : Encoder → Codec V → Arg V → Result (Arg V)
  encode list_encoder codec value = do
    vs ← python.elements value
    ws ← encode_each codec vs
    ok (several ws)
  encode related_list_encoder codec value = do
    vs ← python.elements value
    ws ← encode_each codec (map pk_or_self vs)
    ok (several ws)
  encode bool_encoder codec value = ok (flag (truth_of T value))
  encode string_encoder codec value = ok (text (python.to_text value))
  encode json_encoder codec value = ok value
  encode pk_encoder codec value = encode_one codec value

  -- The first part of a key
  abbrev pub first_name : FieldPath → String
  first_name (last name) = name
  first_name (via name first rest) = first

  -- `_get_actual_filter_params`
  unfoldable pub get_actual_filter_params :
      {X : Type 0}
      → Dict CustomFilter
      → FilterModel X V
      → FieldPath
      → Arg V
      → Result (String × Arg V)
  get_actual_filter_params custom_filters model path value =
      let key = full_name path in
      elim (lookup key model.fk_columns) [
        | some source_field ↦ ok (source_field, pk_or_value value)
        | none ↦
            if contains key model.m2m_fields
            then ok (key, pk_or_value value)
            else if contains (first_name path) model.info.fetch_fields
                || has_key key custom_filters
                || has_key key model.filters
            then ok (key, value)
            else err field_error
      ]

  abbrev pub is_none : Arg V → Bool
  is_none (one none) = true
  is_none value = false

  abbrev pub is_expression : Arg V → Bool
  is_expression (one (some v)) = python.is_term v
  is_expression value = false

  module _ {X : Type 0} (term_at : X → String → T.Term) (table_named : String → X) where
    -- A lookup in another table, which is joined
    abbrev pub filter_through :
        FilterModel X V
        → FilterInfo
        → String
        → X
        → X
        → String
        → Arg V
        → Result (Crit P.Criterion × List (Join X))
    filter_through model param key table other backward_key value = do
      encoded ← elim param.value_encoder [
        | none ↦ ok value
        | some e ↦ do codec ← get_or key_error key model.related_pks; encode e codec value
      ]
      criterion ← apply_operator T param.operator (term_at other param.field) encoded
      ok (
        criterion,
        record {
          table = other;
          left = (table, model.info.db_pk_column);
          right = (other, backward_key);
        }
            ∷ [],
      )

    -- A value for a column: a term, or what the field makes of it
    abbrev pub encode_own : FilterModel X V → FilterInfo → Arg V → Result (Arg V)
    encode_own model param value = if is_expression value then ok value else do
      codec ← get_or key_error param.field model.fields
      elim param.value_encoder [ none ↦ codec.field_to_db value | some e ↦ encode e codec value ]

    -- A lookup in a column of the table
    abbrev pub filter_own :
        FilterModel X V → FilterInfo → X → Arg V → Result (Crit P.Criterion × List (Join X))
    filter_own model param table value = do
      encoded ← encode_own model param value
      source_field ← elim param.source_field [ none ↦ err key_error | some s ↦ ok s ]
      criterion ← apply_operator T param.operator (term_at table source_field) encoded
      ok (criterion, [])

    -- `None` asks for null, where the key has such a lookup.
    abbrev pub null_key : FilterModel X V → String → Arg V → String × Arg V
    null_key model key value =
        if is_none value && has_key (plus key "__isnull") model.filters
        then (plus key "__isnull", flag true)
        else (key, value)

    -- `_process_filter_kwarg`
    unfoldable pub process_filter_kwarg :
        FilterModel X V → String → Arg V → X → Result (Crit P.Criterion × List (Join X))
    process_filter_kwarg model key value table = do
      let (key', value') = null_key model key value
      param ← get_or key_error key' model.filters
      elim param.table [
        | some name ↦ do
          backward_key ← elim param.backward_key [ none ↦ err key_error | some k ↦ ok k ]
          filter_through model param key' table (table_named name) backward_key value'
        | none ↦ filter_own model param table value'
      ]

    module _ (overridden : Operator → Option Operator)
        (resolve_annotation : String → FilterModel X V → X → Result (T.Term × Bool))
        (custom_filters : Dict CustomFilter) where
      abbrev pub actual_operator : Operator → Operator
      actual_operator op = elim (overridden op) [ none ↦ op | some other ↦ other ]

      -- `_resolve_custom_kwarg`
      unfoldable pub resolve_custom_kwarg :
          FilterModel X V → String → Arg V → X → Result (QueryModifier P.Criterion (Join X))
      resolve_custom_kwarg model key value table = do
        having_info ← get_or key_error key custom_filters
        (term, is_aggregate) ← resolve_annotation having_info.annotation model table
        criterion ← apply_operator T (actual_operator having_info.operator) term value
        ok (if is_aggregate then having_modifier criterion else where_modifier criterion [])

      -- The end of `_resolve_regular_kwarg`
      abbrev pub resolve_own_kwarg :
          FilterModel X V → String → Arg V → X → Result (QueryModifier P.Criterion (Join X))
      resolve_own_kwarg model key value table = do
        (criterion, joins) ← process_filter_kwarg model key value table
        ok (where_modifier criterion joins)

      module _ (tables : Tables X) (models : Dict (FilterModel X V)) where
        -- The relation of a name, and the model that it leads to
        abbrev pub related_by : FilterModel X V → String → Result (Relation X × FilterModel X V)
        related_by model name = do
          relation ← get_or key_error name model.info.relations
          related ← get_or key_error relation.related_model models
          ok (relation, related)

        -- A round of the loop of `_resolve_kwargs`, for a key that is read as its parts. A key that is
        -- left empty, after the name of a relation, is no filter.
        unfoldable pub resolve_kwarg :
            FilterModel X V → X → FieldPath → Arg V → Result (QueryModifier P.Criterion (Join X))
        resolve_kwarg model table (last name) raw_value = do
          (key, value) ← get_actual_filter_params custom_filters model (last name) raw_value
          if has_key key custom_filters
              then resolve_custom_kwarg model key value table
              else if not (has_key key model.filters) && contains key model.info.fetch_fields
              then err field_error
              else resolve_own_kwarg model key value table
        resolve_kwarg model table (via name first rest) raw_value = do
          (key, value) ←
              get_actual_filter_params custom_filters model (via name first rest) raw_value
          if has_key key custom_filters
              then resolve_custom_kwarg model key value table
              else elim (not (has_key key model.filters)
                  && contains first model.info.fetch_fields) [
                    | false ↦ resolve_own_kwarg model key value table
                    | true ↦ do
                      (relation, related) ← related_by model first
                      let (joins, join) =
                          get_joins tables table model.info.db_pk_column first related.info
                            relation.kind
                      modifier ← resolve_kwarg related join.table rest value
                      ok (
                          and_modifiers P
                            (record {
                              where_criterion = empty;
                              joins = joins ++ join ∷ [];
                              having_criterion = empty;
                            })
                            (and_modifiers P no_modifier modifier))
                  ]
