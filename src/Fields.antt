-- ===== src/Fields.antt =====
-- tortoise/fields/base.py: how a field is set up and how it converts and validates a value, and the
-- validators of tortoise/validators.py for lengths and numbers. Warnings are left out, as are the
-- options that the constructor only stores.
pub mod Setup
pub mod Data
pub mod Enums
pub mod Validation
mod Tests
use tortoise_orm_zh_cn.Base.{
  ℕ, Bool, true, false, not, ◌&&◌, ◌||◌, List, [], ◌∷◌, Option, none, some, is_some, ltb, length,
  if◌then◌else◌,
}
use tortoise_orm_zh_cn.Base.Int.{ℤ, lebℤ}
use tortoise_orm_zh_cn.Base.Errors.{
  Result, ok, err, ◌>>=◌, ◌>>◌, configuration_error, validation_error,
}

-- The arguments of the constructor; `index` and `pk` are the deprecated names of `db_index` and
-- `primary_key`. A validator may raise; `none` is Python's `None`.
pub record Options (V : Type 0) : Type 0 where
  pub generated : Bool
  pub primary_key : Option Bool
  pub null : Bool
  pub default : Option V
  pub unique : Bool
  pub db_index : Option Bool
  pub index : Option Bool
  pub pk : Option Bool
  pub validators : List (Option V → Result (Unit {0}))

pub record Field (V : Type 0) : Type 0 where
  pub generated : Bool
  pub pk : Bool
  pub default : Option V
  pub null : Bool
  pub unique : Bool
  pub index : Bool
  pub validators : List (Option V → Result (Unit {0}))

-- `bool(…)` of an optional flag
abbrev pub is_set : Option Bool → Bool
is_set none = false
is_set (some b) = b

abbrev pub same : Bool → Bool → Bool
same true b = b
same false b = not b

-- A flag under its name and under a deprecated one
abbrev pub one_flag : Option Bool → Option Bool → Result (Option Bool)
one_flag new none = ok new
one_flag none (some old) = ok (some old)
one_flag (some new) (some old) = if same new old then ok (some new) else err configuration_error

abbrev pub refuse_if : Bool → Result (Unit {0})
refuse_if true = err configuration_error
refuse_if false = ok tt

-- `Field.__init__` of a class that is `indexable` or not
unfoldable pub make_field : {V : Type 0} → Bool → Options V → Result (Field V)
make_field indexable o = do
  db_index ← one_flag o.db_index o.index
  refuse_if (not indexable && (o.unique || is_set db_index))
  primary_key ← one_flag o.primary_key o.pk
  refuse_if (o.null && is_set o.pk)
  refuse_if (o.null && is_set primary_key)
  ok (record {
    generated = o.generated;
    pk = is_set primary_key;
    default = o.default;
    null = o.null;
    unique = is_set primary_key || o.unique;
    index = is_set primary_key || is_set db_index;
    validators = o.validators;
  })

-- `required`
unfoldable pub required : {V : Type 0} → Field V → Bool
required f = not (is_some f.default) && not f.null && not f.generated

-- `validate`; `raw` is the value of an enumeration's member, and any other value itself.
unfoldable pub run_validators :
    {V : Type 0}
    → (V → V)
    → Bool
    → List (Option V → Result (Unit {0}))
    → Option V
    → Result (Unit {0})
run_validators raw null [] value = ok tt
run_validators raw null (v ∷ validators) none = do
  (if null then ok tt else v none)
  run_validators raw null validators none
run_validators raw null (v ∷ validators) (some value) = do
  v (some (raw value))
  run_validators raw null validators (some value)

abbrev pub validate : {V : Type 0} → (V → V) → Field V → Option V → Result (Unit {0})
validate raw f value = run_validators raw f.null f.validators value

-- `if value is not None and not isinstance(value, self.field_type): value = self.field_type(value)`
abbrev pub convert_value : {V : Type 0} → (V → Bool) → (V → Result V) → Option V → Result (Option V)
convert_value is_type field_type none = ok none
convert_value is_type field_type (some value) =
    if is_type value then ok (some value) else do v ← field_type value; ok (some v)

-- `to_db_value`, and `to_python_value`, which is the same
unfoldable pub to_db_value :
    {V : Type 0} → (V → Bool) → (V → Result V) → (V → V) → Field V → Option V → Result (Option V)
to_db_value is_type field_type raw f value = do
  converted ← convert_value is_type field_type value
  validate raw f converted
  ok converted

-- `MaxLengthValidator` and `MinLengthValidator`, for lists
unfoldable pub max_length : {A : Type 0} → ℕ → Option (List A) → Result (Unit {0})
max_length n none = err validation_error
max_length n (some value) = if ltb n (length value) then err validation_error else ok tt

unfoldable pub min_length : {A : Type 0} → ℕ → Option (List A) → Result (Unit {0})
min_length n none = err validation_error
min_length n (some value) = if ltb (length value) n then err validation_error else ok tt

-- `MinValueValidator` and `MaxValueValidator`, for integers; `None` is no number.
unfoldable pub min_value : ℤ → Option ℤ → Result (Unit {0})
min_value n none = err validation_error
min_value n (some value) = if lebℤ n value then ok tt else err validation_error

unfoldable pub max_value : ℤ → Option ℤ → Result (Unit {0})
max_value n none = err validation_error
max_value n (some value) = if lebℤ value n then ok tt else err validation_error
