-- ===== src/Lookups/Tests.antt =====
-- Runs and witnesses of the filters by a keyword, and of all those of a query, on tables that are
-- their names.
use tortoise_orm_zh_cn.Criteria.Meaning.{meaning}
use tortoise_orm_zh_cn.Criteria.Sample.{truth_pypika, truth_reading}
use tortoise_orm_zh_cn.Criteria.Truth.{all_of}
use tortoise_orm_zh_cn.Expressions.{Q, nil, node, and_join, resolve, resolve_kwargs}
use tortoise_orm_zh_cn.Joins.{path_of}
use tortoise_orm_zh_cn.Lookups.Joined.{Extends}
use tortoise_orm_zh_cn.Lookups.Resolve.{
  Filtered, resolve_each_node, resolve_filters, asks_all, joins_of, resolve_filters-asks,
}
use tortoise_orm_zh_cn.Base.{
  true, ℕ, ◌≡◌, refl, false, String, [], ◌∷◌, Option, none, some, if◌then◌else◌, ◌==◌, eq_iff,
  arith,
}
use tortoise_orm_zh_cn.Base.Dict.{Dict}
use tortoise_orm_zh_cn.Base.Errors.{Result, ok, err, field_error}
use tortoise_orm_zh_cn.Criteria.{and_modifiers, empty, term, QueryModifier}
use tortoise_orm_zh_cn.Criteria.Truth.{Truth, holds, unknown}
use tortoise_orm_zh_cn.Queries.{asc}
use tortoise_orm_zh_cn.Filters.{Operator, Arg, one, apply_operator}
use tortoise_orm_zh_cn.Filters.Tables.{get_m2m_filters}
use tortoise_orm_zh_cn.Filters.Sample.{row_terms}
use tortoise_orm_zh_cn.Joins.{
  Tables, Join, ModelInfo, Relation, forward, Query, FieldPath, via, last, add_joins, resolve_path,
}
use tortoise_orm_zh_cn.Lookups.{
  Python, Codec, FilterModel, resolve_kwarg, get_actual_filter_params, process_filter_kwarg, encode,
  where_modifier,
}
use tortoise_orm_zh_cn.Lookups.Along.{there, along, filter_by, adding, filter_by-resolve_path}

abbrev by_name : Tables String
by_name = record {
  keys = record { same = ◌==◌; same_iff = eq_iff };
  as_ = λ name table. name;
  get_table_name = λ table. table;
}

abbrev numbers_python : Python ℕ
numbers_python = record {
  pk_of = λ v. none;
  is_term = λ v. false;
  elements = λ value. ok (some 1 ∷ []);
  to_text = λ value. [];
}

abbrev plain_codec : Codec ℕ
plain_codec = record {
  to_db_value = λ v. ok v;
  whole_to_db_value = λ v. ok v;
  field_to_db = λ v. ok v;
}

abbrev tournament : FilterModel String ℕ
tournament = record {
  info = record {
    basetable = "tournament";
    db_pk_column = "id";
    relations = [];
    fetch_fields = "tags" ∷ [];
    fields_map = [];
  };
  fk_columns = [];
  m2m_fields = "tags" ∷ [];
  filters =
      (
        "name",
        record {
          field = "name";
          source_field = some "name_column";
          operator = Operator.eq;
          backward_key = none;
          table = none;
          value_encoder = none;
        },
      )
      ∷ (
        "name__search",
        record {
          field = "name";
          source_field = some "name_column";
          operator = Operator.search;
          backward_key = none;
          table = none;
          value_encoder = none;
        },
      )
      ∷ get_m2m_filters "tags" "tag_id" "tournament_id" "tournament_tag";
  fields = ("name", plain_codec) ∷ [];
  related_pks = ("tags", plain_codec) ∷ [];
}

abbrev tournament_relation : Relation String
tournament_relation = record {
  related_model = "tournament";
  kind =
      forward (record { source_field = ""; model_field_name = "id" })
        (record { source_field = ""; model_field_name = "tournament_id" });
}

abbrev event : FilterModel String ℕ
event = record tournament {
  info = record {
    basetable = "event";
    db_pk_column = "id";
    relations = ("tournament", tournament_relation) ∷ [];
    fetch_fields = "tournament" ∷ [];
    fields_map = [];
  };
  filters = [];
  m2m_fields = [];
}

abbrev tournaments : Dict (FilterModel String ℕ)
tournaments = ("tournament", tournament) ∷ []

abbrev infos : Dict (ModelInfo String)
infos = ("tournament", tournament.info) ∷ []

abbrev column_value : String → String → Option ℕ
column_value table column = if column == "name_column" then some 3 else none

abbrev filter_events :
    FilterModel String ℕ → String → FieldPath → Arg ℕ → Result (QueryModifier Truth (Join String))
filter_events =
    filter_by row_terms numbers_python column_value (λ name. name) (λ op. none)
      (λ name model table. err field_error) [] by_name tournaments

abbrev tournament_join : Join String
tournament_join = record {
  table = "event__tournament";
  left = ("event__tournament", "id");
  right = ("event", "tournament_id");
}

run_nested :
    filter_events event "event" (via "tournament__name" "tournament" (last "name")) (one (some 3))
    ≡ ok (where_modifier (term holds) (tournament_join ∷ []))
unfolding resolve_kwarg get_actual_filter_params process_filter_kwarg apply_operator and_modifiers
run_nested = refl

-- A full-text search asks for nothing, where the backend overrides no operator.
run_search :
    filter_events tournament "tournament" (via "name__search" "name" (last "search")) (one (some 3))
    ≡ ok (where_modifier empty [])
unfolding resolve_kwarg get_actual_filter_params process_filter_kwarg apply_operator and_modifiers
run_search = refl

run_many_to_many :
    filter_events tournament "tournament" (last "tags") (one (some 3))
    ≡ ok (
        where_modifier (term unknown) (
          record {
            table = "tournament_tag";
            left = ("tournament", "id");
            right = ("tournament_tag", "tournament_id");
          }
          ∷ []))
unfolding resolve_kwarg get_actual_filter_params process_filter_kwarg apply_operator get_m2m_filters
    encode
run_many_to_many = refl

run_unknown : filter_events tournament "tournament" (last "title") (one (some 3)) ≡ err field_error
unfolding resolve_kwarg get_actual_filter_params get_m2m_filters
run_unknown = refl

abbrev no_joins : Query String ℕ
no_joins = record { joined_tables = []; joins = []; orderbys = [] }

filter_by-resolve_path_example :
    (filter_events event "event" (via "tournament__name" "tournament" (last "name")) (one (some 3))
      ≡ adding row_terms numbers_python column_value
          (λ name. name)
          (λ op. none)
          (λ name model table. err field_error)
          []
          by_name
          tournaments
          (tournament_join ∷ [])
          (filter_events tournament "event__tournament" (last "name") (one (some 3))))
    × (resolve_path by_name infos [] event.info "event"
          (via "tournament__name" "tournament" (last "name"))
          asc
          no_joins
        ≡ resolve_path by_name infos [] tournament.info "event__tournament"
            (last "name")
            asc
            (add_joins by_name (tournament_join ∷ []) no_joins))
filter_by-resolve_path_example =
    filter_by-resolve_path row_terms numbers_python column_value (λ name. name) (λ op. none)
      (λ name model table. err field_error) [] by_name tournaments infos event tournament "event"
      "event__tournament" (via "tournament__name" "tournament" (last "name")) (last "name")
      (tournament_join ∷ []) (one (some 3)) asc no_joins (λ name model h. ground arith)
      (along event tournament tournament "event" "event__tournament" "tournament__name" "tournament"
        (last "name") (last "name") tournament_relation [] [] tournament_join refl refl refl refl
        (there tournament "event__tournament" (last "name")))

-- A `Q` of two keywords, whose filters are resolved as above
abbrev both_names : Q (Arg ℕ)
both_names =
    node nil (("tournament__name", one (some 3)) ∷ ("tournament__name__search", one (some 4)) ∷ [])
      and_join false

abbrev resolve_event : Q (Arg ℕ) → Result (QueryModifier Truth (Join String))
resolve_event = resolve truth_pypika (λ key value. filter_events event "event" (path_of key) value)

abbrev asked_of_event : QueryModifier Truth (Join String)
asked_of_event = record {
  where_criterion = term holds;
  joins = tournament_join ∷ tournament_join ∷ [];
  having_criterion = empty;
}

run_both_names : resolve_event both_names ≡ ok asked_of_event
unfolding resolve resolve_kwargs resolve_kwarg get_actual_filter_params process_filter_kwarg
    apply_operator and_modifiers path_of
run_both_names = refl

resolved_nodes :
    resolve_each_node truth_pypika by_name resolve_event (both_names ∷ [])
    ≡ ok (asked_of_event ∷ [])
unfolding resolve_each_node
resolved_nodes = rw run_both_names refl

resolve_filters-asks_example :
    (f : Filtered Truth String ℕ) × (resolve_filters truth_pypika by_name resolve_event true "event"
        ("id" ∷ [])
        (both_names ∷ [])
        no_joins
      ≡ ok f)
    × (all_of (meaning truth_reading f.wheres) (meaning truth_reading f.havings)
        ≡ asks_all truth_reading none (asked_of_event ∷ []))
    × Extends by_name no_joins f.query (joins_of (asked_of_event ∷ []))
resolve_filters-asks_example =
    resolve_filters-asks truth_reading by_name resolve_event true "event" ("id" ∷ [])
      (both_names ∷ []) no_joins (asked_of_event ∷ []) tt resolved_nodes
