-- ===== src/Fields/Enums.antt =====
-- `IntEnumFieldInstance` and `CharEnumFieldInstance` of tortoise/fields/data.py. An enumeration is the
-- list of its members, their names with their values; a field's `validate` is an argument.
pub mod Members
mod Tests
use tortoise_orm_zh_cn.Base.{
  ℕ, Bool, true, false, not, ◌&&◌, ◌||◌, String, List, [], ◌∷◌, Option, none, some, suc, eqb, ltb,
  length, if◌then◌else◌,
}
use tortoise_orm_zh_cn.Base.Int.{ℤ, pos, negsuc, lebℤ}
use tortoise_orm_zh_cn.Base.Keys.{Keys}
use tortoise_orm_zh_cn.Base.Errors.{Result, ok, err, ◌>>=◌, ◌>>◌, configuration_error, value_error}
use tortoise_orm_zh_cn.Fields.Data.{char_max_length}

abbrev pub Members : Type 0 → Type 0
Members K = List (String × K)

-- A member, by its name and its value, or a plain value
pub data EnumValue (K : Type 0) : Type 0 where
  member : String → K → EnumValue K
  plain : K → EnumValue K

-- `minimum <= value < 32768`, with the minimum of the constructor
abbrev pub in_small_range : Bool → ℤ → Bool
in_small_range generated value =
    lebℤ (if generated then pos 1 else negsuc 32767) value && not (lebℤ (pos 32768) value)

-- The loop of `IntEnumFieldInstance.__init__`; `none` is a value that `int` does not take.
unfoldable pub check_int_members : Bool → Members (Option ℤ) → Result (Unit {0})
check_int_members generated [] = ok tt
check_int_members generated ((name, none) ∷ members) = err configuration_error
check_int_members generated ((name, some value) ∷ members) =
    if in_small_range generated value
    then check_int_members generated members
    else err configuration_error

-- The loop of `CharEnumFieldInstance.__init__`
unfoldable pub longest : {A : Type 0} → Members (List A) → ℕ → ℕ
longest [] max_length = max_length
longest ((name, value) ∷ members) max_length =
    longest members (if ltb max_length (length value) then length value else max_length)

-- `CharEnumFieldInstance.__init__`: the maximal length, that `CharField.__init__` checks
unfoldable pub char_enum_length : {A : Type 0} → Members (List A) → ℕ → Result ℤ
char_enum_length members max_length =
    char_max_length (pos (if eqb max_length 0 then longest members 0 else max_length))

module _ {K : Type 0} (keys : Keys K) (members : Members K) where
  abbrev pub find_in : Members K → K → Result (EnumValue K)
  find_in [] value = err value_error
  find_in ((name, v) ∷ rest) value =
      if keys.same v value then ok (member name v) else find_in rest value

  -- `self.enum_type(value)`
  abbrev pub enum_type : K → Result (EnumValue K)
  enum_type value = find_in members value

  abbrev pub value_of : EnumValue K → K
  value_of (member name value) = value
  value_of (plain value) = value

  module _ (is_int : K → Bool) (validate : Option (EnumValue K) → Result (Unit {0})) where
    -- `IntEnumFieldInstance.to_python_value`
    unfoldable pub int_enum_to_python : Option K → Result (Option (EnumValue K))
    int_enum_to_python none = do validate none; ok none
    int_enum_to_python (some value) = do m ← enum_type value; validate (some m); ok (some m)

    -- `isinstance(value, int)`, which the value of a member of an `IntEnum` is, too
    abbrev pub int_value : EnumValue K → Result K
    int_value value =
        if is_int (value_of value)
        then (do m ← enum_type (value_of value); ok (value_of m))
        else ok (value_of value)

    -- `IntEnumFieldInstance.to_db_value`: the value of a member, too, goes through the enumeration.
    unfoldable pub int_enum_to_db : Option (EnumValue K) → Result (Option K)
    int_enum_to_db none = do validate none; ok none
    int_enum_to_db (some value) = do v ← int_value value; validate (some (plain v)); ok (some v)

  -- `to_str` is Python's `str`, whose result is a value again, and `is_str` tells which values are
  -- texts.
  module _ (is_str : K → Bool) (to_str : K → K)
      (validate : Option (EnumValue K) → Result (Unit {0})) where
    -- `CharEnumFieldInstance.to_python_value`
    unfoldable pub char_enum_to_python : Option K → Result (Option (EnumValue K))
    char_enum_to_python none = do validate none; ok none
    char_enum_to_python (some value) = do
      validate (some (plain value))
      m ← enum_type value
      ok (some m)

    -- The `str` of a member's value; a text goes through the enumeration first, and any other value is
    -- kept.
    abbrev pub char_value : EnumValue K → Result K
    char_value (member name value) = ok (to_str value)
    char_value (plain value) =
        if is_str value then (do m ← enum_type value; ok (to_str (value_of m))) else ok value

    -- `CharEnumFieldInstance.to_db_value`
    unfoldable pub char_enum_to_db : Option (EnumValue K) → Result (Option K)
    char_enum_to_db none = do validate none; ok none
    char_enum_to_db (some value) = do validate (some value); v ← char_value value; ok (some v)
