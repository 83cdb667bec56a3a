-- ===== src/Fields/Data.antt =====
-- tortoise/fields/data.py: the constructors' checks and the conversions of the fields for numbers,
-- texts, dates, times, time differences, JSON and UUIDs. Python's types for these are an argument,
-- with the functions of its library and of tortoise/timezone.py; a field's `validate` is one too.
pub mod HasType
pub mod RoundTrip
mod Tests
use tortoise_orm_zh_cn.Base.{
  ℕ, Bool, true, false, not, ◌&&◌, ◌||◌, String, Option, none, some, ◌+◌, ◌*◌, ◌-◌, suc, leb,
  if◌then◌else◌, is_some,
}
use tortoise_orm_zh_cn.Base.Int.{ℤ, pos, negsuc, lebℤ, difference}
use tortoise_orm_zh_cn.Base.Errors.{Result, ok, err, ◌>>=◌, ◌>>◌, configuration_error, field_error}

-- `datetime.timedelta`, whose days may be negative
pub record Timedelta : Type 0 where
  pub days : ℤ
  pub seconds : ℕ
  pub microseconds : ℕ

pub record Library : Type 1 where
  pub Datetime : Type 0
  pub Date : Type 0
  pub Time : Type 0
  pub Uuid : Type 0
  pub Decimal : Type 0
  pub Json : Type 0
  pub Other : Type 0

-- A value, by its type; `json` is a `dict` or a `list`, and a datetime is a date too.
pub data Value (L : Library) : Type 0 where
  datetime : L.Datetime → Value L
  date : L.Date → Value L
  time : L.Time → Value L
  timedelta : Timedelta → Value L
  uuid : L.Uuid → Value L
  decimal : L.Decimal → Value L
  json : L.Json → Value L
  int : ℤ → Value L
  str : String → Value L
  bytes : String → Value L
  other : L.Other → Value L

-- The functions of Python's library and of tortoise/timezone.py, and iso8601's `parse_datetime`
pub record Functions (L : Library) : Type 0 where
  pub now : L.Datetime
  pub from_timestamp : ℤ → L.Datetime
  pub parse_datetime : Value L → Result L.Datetime
  pub is_naive : L.Datetime → Bool
  pub make_aware : L.Datetime → L.Datetime
  pub make_aware_utc : L.Datetime → L.Datetime
  pub localtime : L.Datetime → L.Datetime
  pub date_of : L.Datetime → L.Date
  pub time_of : L.Datetime → L.Time
  pub time_from_iso : String → Result L.Time
  pub is_naive_time : Value L → Result Bool
  pub with_default_timezone : Value L → Result (Value L)
  pub use_tz : Bool
  pub timedelta_from : Value L → Result Timedelta
  pub quantized : Value L → Result L.Decimal
  pub to_uuid : Value L → Result L.Uuid
  pub uuid_text : Value L → String
  pub is_true : Value L → Bool
  pub decode : String → Result (Value L)
  pub encode : Value L → String

-- `CharField.__init__`: `max_length`
unfoldable pub char_max_length : ℤ → Result ℤ
char_max_length max_length =
    if lebℤ (pos 1) max_length then ok max_length else err configuration_error

-- `TextField.__init__`, with `db_index` or the deprecated `index`
unfoldable pub check_text : Bool → Bool → Result (Unit {0})
check_text unique indexed = if unique || indexed then err configuration_error else ok tt

-- `DecimalField.__init__`: `max_digits` and `decimal_places`
unfoldable pub check_decimal : ℤ → ℤ → Result (Unit {0})
check_decimal max_digits decimal_places =
    if lebℤ (pos 1) max_digits && lebℤ (pos 0) decimal_places
    then ok tt
    else err configuration_error

-- `DatetimeField.__init__` and `TimeField.__init__`: `auto_now` and `auto_now_add`
unfoldable pub auto_flags : Bool → Bool → Result (Bool × Bool)
auto_flags auto_now auto_now_add =
    if auto_now_add && auto_now
    then err configuration_error
    else ok (auto_now, auto_now || auto_now_add)

-- `UUIDField.__init__`: whether the default is `uuid4`
abbrev pub has_uuid_default : Bool → Bool → Bool
has_uuid_default primary_key has_default = primary_key && not has_default

-- `value.days * 86400000000 + value.seconds * 1000000 + value.microseconds`
abbrev pub plus_days : ℤ → ℕ → ℤ
plus_days (pos d) n = pos (d * 86400000000 + n)
plus_days (negsuc d) n = difference n (suc d * 86400000000)

abbrev pub to_microseconds : Timedelta → ℤ
to_microseconds t = plus_days t.days (t.seconds * 1000000 + t.microseconds)

module _ {L : Library} (F : Functions L) (validate : Option (Value L) → Result (Unit {0})) where
  abbrev pub validated : Option (Value L) → Result (Option (Value L))
  validated value = do validate value; ok value

  abbrev pub to_datetime : Value L → Result L.Datetime
  to_datetime (datetime d) = ok d
  to_datetime (int n) = ok (F.from_timestamp n)
  to_datetime value = F.parse_datetime value

  -- `DatetimeField.to_python_value`
  unfoldable pub datetime_to_python : Option (Value L) → Result (Option (Value L))
  datetime_to_python none = validated none
  datetime_to_python (some value) = do
    d ← to_datetime value
    validated (some (datetime (if F.is_naive d then F.make_aware d else F.localtime d)))

  -- Whether the field is set by itself: with an object, whose attribute it reads
  abbrev pub sets_itself : Bool → Bool → Option (Option (Value L)) → Bool
  sets_itself auto_now auto_now_add none = false
  sets_itself auto_now auto_now_add (some attribute) =
      auto_now || (auto_now_add && not (is_some attribute))

  abbrev pub aware : Option (Value L) → Option (Value L)
  aware (some (datetime d)) =
      some (datetime (if F.use_tz && F.is_naive d then F.make_aware_utc d else d))
  aware value = value

  -- `DatetimeField.to_db_value`: what is stored, and what the attribute is set to, if it is
  unfoldable pub datetime_to_db :
      Bool
      → Bool
      → Option (Option (Value L))
      → Option (Value L)
      → Result (Option (Value L) × Option (Value L))
  datetime_to_db auto_now auto_now_add instance value =
      if sets_itself auto_now auto_now_add instance
      then ok (some (datetime F.now), some (datetime F.now))
      else (do v ← validated (aware value); ok (v, none))

  -- `DateField.to_python_value`, and `to_db_value`, which is the same
  abbrev pub date_value : Value L → Result (Value L)
  date_value (date d) = ok (date d)
  date_value (datetime d) = ok (datetime d)
  date_value value = do d ← F.parse_datetime value; ok (date (F.date_of d))

  unfoldable pub date_to_python : Option (Value L) → Result (Option (Value L))
  date_to_python none = validated none
  date_to_python (some value) = do d ← date_value value; validated (some d)

  -- `TimeField.to_python_value`: a text is read first; `is_naive` asks for `utcoffset()`, which a time
  -- and a datetime have, and `with_default_timezone` is `replace`, so that a datetime stays one.
  abbrev pub read_time : Value L → Result (Value L)
  read_time (str s) = do t ← F.time_from_iso s; ok (time t)
  read_time value = ok value

  abbrev pub finish_clock : Value L → Result (Option (Value L))
  finish_clock value = do
    naive ← F.is_naive_time value
    t ← if naive then F.with_default_timezone value else ok value
    validated (some t)

  abbrev pub finish_time : Value L → Result (Option (Value L))
  finish_time (timedelta t) = ok (some (timedelta t))
  finish_time value = finish_clock value

  unfoldable pub time_to_python : Option (Value L) → Result (Option (Value L))
  time_to_python none = validated none
  time_to_python (some value) = do v ← read_time value; finish_time v

  abbrev aware_time : Value L → Result (Value L)
  aware_time value =
      if F.use_tz
      then (do
        naive ← F.is_naive_time value
        if naive then F.with_default_timezone value else ok value)
      else ok value

  abbrev time_stored : Value L → Result (Option (Value L))
  time_stored (timedelta t) = ok (some (timedelta t))
  time_stored value = do v ← aware_time value; validated (some v)

  abbrev time_or_none : Option (Value L) → Result (Option (Value L))
  time_or_none none = validated none
  time_or_none (some value) = time_stored value

  -- `TimeField.to_db_value`: what is stored, and what the attribute is set to, if it is
  unfoldable pub time_to_db :
      Bool
      → Bool
      → Option (Option (Value L))
      → Option (Value L)
      → Result (Option (Value L) × Option (Value L))
  time_to_db auto_now auto_now_add instance value =
      if sets_itself auto_now auto_now_add instance
      then ok (some (time (F.time_of F.now)), some (time (F.time_of F.now)))
      else (do v ← time_or_none value; ok (v, none))

  -- `TimeDeltaField.to_python_value`
  abbrev pub timedelta_value : Value L → Result (Option (Value L))
  timedelta_value (timedelta t) = ok (some (timedelta t))
  timedelta_value value = do t ← F.timedelta_from value; ok (some (timedelta t))

  unfoldable pub timedelta_to_python : Option (Value L) → Result (Option (Value L))
  timedelta_to_python none = validated none
  timedelta_to_python (some value) = do validate (some value); timedelta_value value

  -- `TimeDeltaField.to_db_value`, of a time difference
  unfoldable pub timedelta_to_db : Option Timedelta → Result (Option (Value L))
  timedelta_to_db none = validated none
  timedelta_to_db (some t) = do validate (some (timedelta t)); ok (some (int (to_microseconds t)))

  -- `DecimalField.to_python_value`
  unfoldable pub decimal_to_python : Option (Value L) → Result (Option (Value L))
  decimal_to_python none = validated none
  decimal_to_python (some value) = do d ← F.quantized value; validated (some (decimal d))

  -- `UUIDField.to_python_value`
  unfoldable pub uuid_to_python : Option (Value L) → Result (Option (Value L))
  uuid_to_python none = ok none
  uuid_to_python (some (uuid u)) = ok (some (uuid u))
  uuid_to_python (some value) = do u ← F.to_uuid value; ok (some (uuid u))

  -- `UUIDField.to_db_value`
  unfoldable pub uuid_to_db : Option (Value L) → Option (Value L)
  uuid_to_db none = none
  uuid_to_db (some value) = if F.is_true value then some (str (F.uuid_text value)) else some value

  abbrev or_field_error : Result (Value L) → Result (Option (Value L))
  or_field_error (ok v) = ok (some v)
  or_field_error (err e) = err field_error

  -- `JSONField.to_python_value`
  unfoldable pub json_to_python : Option (Value L) → Result (Option (Value L))
  json_to_python (some (str s)) = or_field_error (F.decode s)
  json_to_python (some (bytes s)) = or_field_error (F.decode s)
  json_to_python value = validated value

  abbrev checked_json : String → Result (Option (Value L))
  checked_json s = or_field_error (F.decode s) >>= λ decoded. ok (some (str s))

  abbrev json_text : Value L → Result (Option (Value L))
  json_text (str s) = checked_json s
  json_text (bytes s) = checked_json s
  json_text value = ok (some (str (F.encode value)))

  -- `JSONField.to_db_value`
  unfoldable pub json_to_db : Option (Value L) → Result (Option (Value L))
  json_to_db none = validated none
  json_to_db (some value) = do validate (some value); json_text value
