-- ===== src/Lookups/Along.antt =====
-- Keys that go along relations: where `_resolve_nested_filter` of tortoise/expressions.py ends, and
-- that `resolve_ordering` of tortoise/queryset.py takes the same way.
use tortoise_orm_zh_cn.Base.{
  ◌≡◌, refl, ap, sym, ◌∙◌, Bool, true, not, ◌&&◌, String, List, [], ◌∷◌, ◌++◌, Option, some,
  contains, arith, append_assoc, inl, inr,
}
use tortoise_orm_zh_cn.Base.Dict.{Dict, lookup, has_key}
use tortoise_orm_zh_cn.Base.Errors.{Result, ok, err, ◌>>=◌, Result-cases}
use tortoise_orm_zh_cn.Criteria.{Pypika, QueryModifier, and_modifiers}
use tortoise_orm_zh_cn.Filters.{Terms, Operator, Arg}
use tortoise_orm_zh_cn.Queries.{Order}
use tortoise_orm_zh_cn.Joins.{
  Tables, Join, Relation, ModelInfo, FieldPath, via, get_joins, Query, add_join, add_joins,
  resolve_path, join_table_by_field,
}
use tortoise_orm_zh_cn.Lookups.{
  Python, FilterModel, CustomFilter, get_actual_filter_params, resolve_kwarg,
}

-- More joins before those of a modifier
abbrev pub with_joins : {C J : Type 0} → List J → QueryModifier C J → QueryModifier C J
with_joins joins m = record {
  where_criterion = m.where_criterion;
  joins = joins ++ m.joins;
  having_criterion = m.having_criterion;
}

module _ {X V : Type 0} (custom_filters : Dict CustomFilter) where
  -- The name of a relation of the model, and no key of it otherwise
  abbrev pub names_relation : FilterModel X V → String → String → Bool
  names_relation model name first =
      not (has_key name model.fk_columns)
      && not (contains name model.m2m_fields)
      && not (has_key name custom_filters)
      && not (has_key name model.filters)
      && not (contains name model.info.fetch_fields)
      && contains first model.info.fetch_fields

module _ {X V : Type 0} (tables : Tables X) (custom_filters : Dict CustomFilter)
    (models : Dict (FilterModel X V)) where
  -- A key at a model and its table leads along relations to a key at another, by these joins.
  pub data Leads
      : FilterModel X V
        → X
        → FieldPath
        → FilterModel X V
        → X
        → FieldPath
        → List (Join X)
        → Type 0 where
    there :
        (model : FilterModel X V) (table : X) (path : FieldPath)
        → Leads model table path model table path []
    along :
        (model related end : FilterModel X V) (table end_table : X) (name first : String)
        (rest end_path : FieldPath) (relation : Relation X) (joins more : List (Join X))
        (join : Join X)
        → names_relation custom_filters model name first ≡ true
        → lookup first model.info.relations ≡ some relation
        → lookup relation.related_model models ≡ some related
        → get_joins tables table model.info.db_pk_column first related.info relation.kind
          ≡ (joins, join)
        → Leads related join.table rest end end_table end_path more
        → Leads model table
            (via name first rest)
            end
            end_table
            end_path
            ((joins ++ join ∷ []) ++ more)

add_joins-append :
    {X A : Type 0} (tables : Tables X) (js ks : List (Join X)) (q : Query X A)
    → add_joins tables (js ++ ks) q ≡ add_joins tables ks (add_joins tables js q)
add_joins-append tables [] ks q = refl
add_joins-append tables (a ∷ js) ks q = add_joins-append tables js ks (add_join tables a q)

-- The models of the orderings are those of the filters.
abbrev pub Agree : {X V : Type 0} → Dict (FilterModel X V) → Dict (ModelInfo X) → Type 0
Agree models infos =
    (name : String) (model : _)
    → lookup name models ≡ some model
    → lookup name infos ≡ some model.info

module _ {P : Pypika} (T : Terms P) (python : Python T.Value) {X : Type 0}
    (term_at : X → String → T.Term) (table_named : String → X)
    (overridden : Operator → Option Operator)
    (resolve_annotation : String → FilterModel X T.Value → X → Result (T.Term × Bool))
    (custom_filters : Dict CustomFilter) (tables : Tables X)
    (models : Dict (FilterModel X T.Value)) where
  abbrev pub filter_by :
      FilterModel X T.Value
      → X
      → FieldPath
      → Arg T.Value
      → Result (QueryModifier P.Criterion (Join X))
  filter_by =
      resolve_kwarg T python term_at table_named overridden resolve_annotation custom_filters tables
        models

  -- A result, with these joins before its own
  abbrev pub adding :
      List (Join X)
      → Result (QueryModifier P.Criterion (Join X))
      → Result (QueryModifier P.Criterion (Join X))
  adding joins r = r >>= λ m. ok (with_joins joins m)

  one_step :
      (model related : FilterModel X T.Value) (table : X) (name first : String) (rest : FieldPath)
      (relation : Relation X) (joins : List (Join X)) (join : Join X) (value : Arg T.Value)
      → names_relation custom_filters model name first ≡ true
      → lookup first model.info.relations ≡ some relation
      → lookup relation.related_model models ≡ some related
      → get_joins tables table model.info.db_pk_column first related.info relation.kind
        ≡ (joins, join)
      → filter_by model table (via name first rest) value
        ≡ adding (joins ++ join ∷ []) (filter_by related join.table rest value)
  unfolding resolve_kwarg get_actual_filter_params and_modifiers
  one_step model related table name first rest relation joins join value names found leads joined =
      elim (Result-cases (filter_by related join.table rest value)) [
        | inl (m, e) ↦ ground arith
        | inr (x, e) ↦ ground arith
      ]

  adding-none : (r : Result (QueryModifier P.Criterion (Join X))) → r ≡ adding [] r
  adding-none (ok m) = refl
  adding-none (err e) = refl

  adding-append :
      (js ks : List (Join X)) (r : Result (QueryModifier P.Criterion (Join X)))
      → adding js (adding ks r) ≡ adding (js ++ ks) r
  adding-append js ks (err e) = refl
  adding-append js ks (ok m) =
      ap
        (λ is. ok (record {
          where_criterion = m.where_criterion;
          joins = is;
          having_criterion = m.having_criterion;
        }))
        (sym (append_assoc js ks m.joins))

  filter_by-Leads :
      (model end : FilterModel X T.Value) (table end_table : X) (path end_path : FieldPath)
      (joins : List (Join X)) (value : Arg T.Value)
      → Leads tables custom_filters models model table path end end_table end_path joins
      → filter_by model table path value ≡ adding joins (filter_by end end_table end_path value)
  filter_by-Leads model end table end_table path end_path joins value (there _ _ _) = adding-none _
  filter_by-Leads model end table end_table path end_path joins value
        (along _ related _ _ _ name first rest _ relation js more join names found leads joined
          walk) =
      one_step model related table name first rest relation js join value names found leads joined
      ∙ ap (adding (js ++ join ∷ []))
          (filter_by-Leads related end join.table end_table rest end_path more value walk)
      ∙ adding-append (js ++ join ∷ []) more (filter_by end end_table end_path value)

  module _ {A : Type 0} (infos : Dict (ModelInfo X)) where
    order_step :
        (model related : FilterModel X T.Value) (table : X) (name first : String) (rest : FieldPath)
        (relation : Relation X) (joins : List (Join X)) (join : Join X) (order : Order)
        (q : Query X A)
        → Agree models infos
        → names_relation custom_filters model name first ≡ true
        → lookup first model.info.relations ≡ some relation
        → lookup relation.related_model models ≡ some related
        → get_joins tables table model.info.db_pk_column first related.info relation.kind
          ≡ (joins, join)
        → resolve_path tables infos [] model.info table (via name first rest) order q
          ≡ resolve_path tables infos [] related.info join.table rest order
              (add_joins tables (joins ++ join ∷ []) q)
    unfolding resolve_path join_table_by_field
    order_step model related table name first rest relation joins join order q agree names found
          leads joined =
        let same = agree relation.related_model related leads in
        let split = add_joins-append tables joins (join ∷ []) q in ground arith

    order-Leads :
        (model end : FilterModel X T.Value) (table end_table : X) (path end_path : FieldPath)
        (joins : List (Join X)) (order : Order) (q : Query X A)
        → Agree models infos
        → Leads tables custom_filters models model table path end end_table end_path joins
        → resolve_path tables infos [] model.info table path order q
          ≡ resolve_path tables infos [] end.info end_table end_path order
              (add_joins tables joins q)
    order-Leads model end table end_table path end_path joins order q agree (there _ _ _) = refl
    order-Leads model end table end_table path end_path joins order q agree
          (along _ related _ _ _ name first rest _ relation js more join names found leads joined
            walk) =
        order_step model related table name first rest relation js join order q agree names found
          leads joined
        ∙ order-Leads related end join.table end_table rest end_path more order _ agree walk
        ∙ ap (resolve_path tables infos [] end.info end_table end_path order)
            (sym (add_joins-append tables (js ++ join ∷ []) more q))

    -- A filter and an ordering whose names lead along the same relations go the same way: each does
    -- what it does for the rest of the name at the table where the relations end, the filter with
    -- the joins on the way before its own, and the ordering after these joins were added to the
    -- query.
    pub filter_by-resolve_path :
        (model end : FilterModel X T.Value) (table end_table : X) (path end_path : FieldPath)
        (joins : List (Join X)) (value : Arg T.Value) (order : Order) (q : Query X A)
        → Agree models infos
        → Leads tables custom_filters models model table path end end_table end_path joins
        → (filter_by model table path value ≡ adding joins (filter_by end end_table end_path value))
          × (resolve_path tables infos [] model.info table path order q
              ≡ resolve_path tables infos [] end.info end_table end_path order
                  (add_joins tables joins q))
    filter_by-resolve_path model end table end_table path end_path joins value order q agree walk =
        (
          filter_by-Leads model end table end_table path end_path joins value walk,
          order-Leads model end table end_table path end_path joins order q agree walk,
        )
