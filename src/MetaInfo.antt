-- ===== src/MetaInfo.antt =====
-- tortoise/models.py: `MetaInfo` and `ModelMeta`, which make the dicts of a model's fields out of
-- its class, and `Model._init_from_db`, which reads a row with them (MetaInfo/FromDb).
pub mod Sorted
pub mod FromDb
pub mod Create
mod Tests
use tortoise_orm_zh_cn.Base.{
  Bool, true, false, not, ◌&&◌, ◌||◌, String, List, [], ◌∷◌, ◌++◌, Option, none, some, contains,
  if◌then◌else◌,
}
use tortoise_orm_zh_cn.Base.Dict.{Dict, insert, lookup}
use tortoise_orm_zh_cn.Base.Errors.{Result, ok, err, ◌>>=◌, ◌>>◌, key_error}
use tortoise_orm_zh_cn.Executor.Update.{get_or}
use tortoise_orm_zh_cn.Fields.{convert_value}
use tortoise_orm_zh_cn.Filters.{Operator}
use tortoise_orm_zh_cn.Filters.Tables.{FilterInfo}

-- What the reading of a row asks of a field: whether its `field_type` is one of `DB_NATIVE`,
-- whether its class inherits `to_python_value`, `skip_to_python_if_native`, `isinstance` and the
-- call of its `field_type`, `validate`, and the method of a class that does not inherit it. `none`
-- is Python's `None`.
pub record Reader (V : Type 0) : Type 0 where
  pub is_native_field_type : Bool
  pub default_converter : Bool
  pub skip_to_python_if_native : Bool
  pub is_type : V → Bool
  pub field_type : V → Result V
  pub validate : Option V → Result (Unit {0})
  pub own_to_python_value : Option V → Result (Option V)

-- `(key, model_field, field)`
pub record DbField (V : Type 0) : Type 0 where
  pub key : String
  pub model_field : String
  pub field : Reader V

pub record DbFields (V : Type 0) : Type 0 where
  pub db_native_fields : List (DbField V)
  pub db_default_fields : List (DbField V)
  pub db_complex_fields : List (DbField V)

pub data Conversion : Type 0 where
  natively by_type by_field : Conversion

-- A set of texts, as the list of its elements
unfoldable pub to_set : List String → List String
to_set [] = []
to_set (x ∷ xs) = let rest = to_set xs in if contains x rest then rest else x ∷ rest

abbrev pub values_of : Dict String → List String
values_of [] = []
values_of ((name, column) ∷ d) = column ∷ values_of d

-- `{value: key for key, value in ….items()}`
unfoldable pub reverse_onto : Dict String → Dict String → Dict String
reverse_onto [] reversed = reversed
reverse_onto ((name, column) ∷ d) reversed = reverse_onto d (insert column name reversed)

module _ {V : Type 0} where
  -- `field.to_python_value(value)`, that of `Field` or of the field's own class
  unfoldable pub to_python_value : Reader V → Option V → Result (Option V)
  to_python_value f value =
      if f.default_converter
      then (do
        converted ← convert_value f.is_type f.field_type value
        f.validate converted
        ok converted)
      else f.own_to_python_value value

  -- Which of the three lists a field goes to
  unfoldable pub conversion_of : Reader V → Conversion
  conversion_of f =
      if f.is_native_field_type && (f.default_converter || f.skip_to_python_if_native)
      then natively
      else if f.default_converter
      then by_type
      else by_field

  abbrev pub append_to : Conversion → DbField V → DbFields V → DbFields V
  append_to natively c d = record d { db_native_fields = d.db_native_fields ++ c ∷ [] }
  append_to by_type c d = record d { db_default_fields = d.db_default_fields ++ c ∷ [] }
  append_to by_field c d = record d { db_complex_fields = d.db_complex_fields ++ c ∷ [] }

  unfoldable pub generate_onto :
      List String → Dict String → Dict (Reader V) → DbFields V → Result (DbFields V)
  generate_onto [] reversed fields_map d = ok d
  generate_onto (key ∷ keys) reversed fields_map d = do
    model_field ← get_or key_error key reversed
    field ← get_or key_error model_field fields_map
    generate_onto keys reversed fields_map (
        append_to (conversion_of field)
          (record { key = key; model_field = model_field; field = field }) d)

  -- `_generate_db_fields`, with the `db_fields` and `fields_db_projection_reverse` of
  -- `finalise_fields`
  unfoldable pub generate_db_fields : Dict String → Dict (Reader V) → Result (DbFields V)
  generate_db_fields fields_db_projection fields_map =
      generate_onto (to_set (values_of fields_db_projection)) (reverse_onto fields_db_projection [])
        fields_map
        (record { db_native_fields = []; db_default_fields = []; db_complex_fields = [] })

-- `filter_info["operator"] = overridden_operator`, on a copy
abbrev overridden_by : Option Operator → FilterInfo → FilterInfo
overridden_by none filter_info = filter_info
overridden_by (some op) filter_info = record filter_info { operator = op }

-- `_generate_filters`, onto the filters that are there, with the operators that the executor of the
-- backend overrides
unfoldable pub generate_filters :
    (Operator → Option Operator) → Dict FilterInfo → Dict FilterInfo → Dict FilterInfo
generate_filters overridden [] filters = filters
generate_filters overridden ((key, filter_info) ∷ rest) filters =
    generate_filters overridden rest
      (insert key (overridden_by (overridden filter_info.operator) filter_info) filters)
