-- ===== src/Filters/Tables.antt =====
-- The lookups of each kind of field: the dicts of tortoise/filters.py. The part after the name of
-- the field stands for the whole key.
use tortoise_orm_zh_cn.Base.{String, [], ◌∷◌, Option, none, some, if◌then◌else◌, ◌==◌}
use tortoise_orm_zh_cn.Base.Dict.{Dict}
use tortoise_orm_zh_cn.Filters.{
  Operator, eq, not_equal, is_in, not_in, is_null, not_null, ge, le, gt, lt, between_and, contains,
  starts_with, search, ends_with, posix_regex, insensitive_exact, insensitive_contains,
  insensitive_starts_with, insensitive_ends_with, json_contains, json_contained_by, json_filter,
  extract_equal, year, quarter, month, week, day, hour, minute, second, microsecond,
}

-- `value_encoder`
pub data Encoder : Type 0 where
  list_encoder related_list_encoder bool_encoder string_encoder json_encoder pk_encoder : Encoder

-- `FilterInfoDict`, whose `table` is a name
pub record FilterInfo : Type 0 where
  pub field : String
  pub source_field : Option String
  pub operator : Operator
  pub backward_key : Option String
  pub table : Option String
  pub value_encoder : Option Encoder

abbrev pub plus : String → String → String
plus a b = Prim.Native.String.◌++◌ a b

-- `{f"{name}…": info, …}`
abbrev pub named : {A : Type 0} → String → Dict A → Dict A
named name [] = []
named name ((suffix, info) ∷ filters) = (plus name suffix, info) ∷ named name filters

-- A lookup in another table
abbrev pub through : String → String → String → Operator → Option Encoder → FilterInfo
through field backward_key table operator value_encoder = record {
  field = field;
  source_field = none;
  operator = operator;
  backward_key = some backward_key;
  table = some table;
  value_encoder = value_encoder;
}

-- A lookup in a column of the model
abbrev pub own : String → String → Operator → Option Encoder → FilterInfo
own field source_field operator value_encoder = record {
  field = field;
  source_field = some source_field;
  operator = operator;
  backward_key = none;
  table = none;
  value_encoder = value_encoder;
}

abbrev pub m2m_lookups : (Operator → Option Encoder → FilterInfo) → Dict FilterInfo
m2m_lookups info =
    ("", info eq (some pk_encoder))
    ∷ ("__not", info not_equal (some pk_encoder))
    ∷ ("__in", info is_in (some related_list_encoder))
    ∷ ("__not_in", info not_in (some related_list_encoder))
    ∷ []

-- `get_m2m_filters`
unfoldable pub get_m2m_filters : String → String → String → String → Dict FilterInfo
get_m2m_filters field_name forward_key backward_key through_table =
    named field_name (m2m_lookups (through forward_key backward_key through_table))

abbrev pub backward_fk_lookups : (Operator → Option Encoder → FilterInfo) → Dict FilterInfo
backward_fk_lookups info =
    ("", info eq (some pk_encoder))
    ∷ ("__not", info not_equal (some pk_encoder))
    ∷ ("__in", info is_in (some related_list_encoder))
    ∷ ("__not_in", info not_in (some related_list_encoder))
    ∷ ("__isnull", info is_null none)
    ∷ ("__not_isnull", info not_null none)
    ∷ []

-- `get_backward_fk_filters`
unfoldable pub get_backward_fk_filters : String → String → String → String → Dict FilterInfo
get_backward_fk_filters field_name pk_attr relation_field db_table =
    named field_name (backward_fk_lookups (through pk_attr relation_field db_table))

abbrev pub json_lookups : (Operator → Option Encoder → FilterInfo) → Dict FilterInfo
json_lookups info =
    ("", info eq none)
    ∷ ("__not", info not_equal none)
    ∷ ("__isnull", info is_null (some bool_encoder))
    ∷ ("__not_isnull", info not_null (some bool_encoder))
    ∷ ("__contains", info json_contains none)
    ∷ ("__contained_by", info json_contained_by none)
    ∷ ("__filter", info json_filter (some json_encoder))
    ∷ []

-- `get_json_filter`
unfoldable pub get_json_filter : String → String → Dict FilterInfo
get_json_filter field_name source_field =
    named field_name (json_lookups (own field_name source_field))

abbrev pub plain_lookups : (Operator → Option Encoder → FilterInfo) → Dict FilterInfo
plain_lookups info =
    ("", info eq none)
    ∷ ("__not", info not_equal none)
    ∷ ("__in", info is_in (some list_encoder))
    ∷ ("__not_in", info not_in (some list_encoder))
    ∷ ("__isnull", info is_null (some bool_encoder))
    ∷ ("__not_isnull", info not_null (some bool_encoder))
    ∷ ("__gte", info ge none)
    ∷ ("__lte", info le none)
    ∷ ("__gt", info gt none)
    ∷ ("__lt", info lt none)
    ∷ ("__range", info between_and (some list_encoder))
    ∷ ("__contains", info contains (some string_encoder))
    ∷ ("__startswith", info starts_with (some string_encoder))
    ∷ ("__search", info search (some string_encoder))
    ∷ ("__endswith", info ends_with (some string_encoder))
    ∷ ("__iexact", info insensitive_exact (some string_encoder))
    ∷ ("__icontains", info insensitive_contains (some string_encoder))
    ∷ ("__istartswith", info insensitive_starts_with (some string_encoder))
    ∷ ("__iendswith", info insensitive_ends_with (some string_encoder))
    ∷ ("__posix_regex", info posix_regex (some string_encoder))
    ∷ ("__year", info (extract_equal year) none)
    ∷ ("__quarter", info (extract_equal quarter) none)
    ∷ ("__month", info (extract_equal month) none)
    ∷ ("__week", info (extract_equal week) none)
    ∷ ("__day", info (extract_equal day) none)
    ∷ ("__hour", info (extract_equal hour) none)
    ∷ ("__minute", info (extract_equal minute) none)
    ∷ ("__second", info (extract_equal second) none)
    ∷ ("__microsecond", info (extract_equal microsecond) none)
    ∷ []

-- What is read of a field: of a relation, its keys and its table; of any other, its
-- `model_field_name`
pub data Field : Type 0 where
  many_to_many : String → String → String → Field
  backward : String → String → String → Field
  json : Field
  plain : String → Field
  missing : Field

-- `if field_name == "pk" and field`
abbrev pub actual_name : String → Field → String
actual_name field_name (plain model_field_name) =
    if field_name == "pk" then model_field_name else field_name
actual_name field_name other = field_name

-- `get_filters_for_field`
unfoldable pub get_filters_for_field : String → Field → String → Dict FilterInfo
get_filters_for_field field_name (many_to_many forward_key backward_key through_table)
      source_field =
    get_m2m_filters field_name forward_key backward_key through_table
get_filters_for_field field_name (backward pk_attr relation_field db_table) source_field =
    get_backward_fk_filters field_name pk_attr relation_field db_table
get_filters_for_field field_name json source_field = get_json_filter field_name source_field
get_filters_for_field field_name (plain model_field_name) source_field =
    named field_name
      (plain_lookups (own (actual_name field_name (plain model_field_name)) source_field))
get_filters_for_field field_name missing source_field =
    named field_name (plain_lookups (own field_name source_field))
