-- ===== src/Fields/Data/HasType.antt =====
-- The types of what the `to_python_value` methods of tortoise/fields/data.py return.
use mathlib.Core.Path.{subst}
use tortoise_orm_zh_cn.Base.{
  ◌≡◌, Bool, true, false, Option, none, some, arith, if◌then◌else◌, inl, inr, Bool-cases,
}
use tortoise_orm_zh_cn.Base.Errors.{Result, ok, >>=-eq-ok}
use tortoise_orm_zh_cn.Fields.Data.{
  Library, Value, Functions, datetime, date, time, timedelta, uuid, decimal, datetime_to_python,
  date_to_python, time_to_python, timedelta_to_python, decimal_to_python, uuid_to_python, validated,
  finish_time, finish_clock, read_time,
}

pub data DataField : Type 0 where
  datetime_field date_field time_field timedelta_field decimal_field uuid_field : DataField

-- A time or a datetime
abbrev pub is_clock : {L : Library} → Value L → Bool
is_clock (time t) = true
is_clock (datetime d) = true
is_clock value = false

-- The type of the values, which for a date allows a datetime, and for a time a datetime and a time
-- difference
abbrev pub has_type : {L : Library} → DataField → Value L → Bool
has_type datetime_field (datetime d) = true
has_type date_field (date d) = true
has_type date_field (datetime d) = true
has_type time_field (time t) = true
has_type time_field (datetime d) = true
has_type time_field (timedelta t) = true
has_type timedelta_field (timedelta t) = true
has_type decimal_field (decimal d) = true
has_type uuid_field (uuid u) = true
has_type f value = false

abbrev pub none_or_typed : {L : Library} → DataField → Option (Value L) → Bool
none_or_typed f none = true
none_or_typed f (some value) = has_type f value

-- Of the values, only times and datetimes have `utcoffset`, and with another time zone they stay times
-- and datetimes.
pub record KnowsClocks {L : Library} (F : Functions L) : Type 0 where
  pub only_clocks :
      (value : Value L) (naive : Bool) → F.is_naive_time value ≡ ok naive → is_clock value ≡ true
  pub keeps_clocks :
      (value w : Value L)
      → is_clock value ≡ true
      → F.with_default_timezone value ≡ ok w
      → is_clock w ≡ true

module _ {L : Library} (F : Functions L) (validate : Option (Value L) → Result (Unit {0})) where
  -- `to_python_value`, by the class of the field
  abbrev pub to_python : DataField → Option (Value L) → Result (Option (Value L))
  to_python datetime_field = datetime_to_python F validate
  to_python date_field = date_to_python F validate
  to_python time_field = time_to_python F validate
  to_python timedelta_field = timedelta_to_python F validate
  to_python decimal_field = decimal_to_python F validate
  to_python uuid_field = uuid_to_python F validate

  validated-eq : (v w : Option (Value L)) → validated F validate v ≡ ok w → v ≡ w
  validated-eq v w h = ground arith

  is_clock-has_type : (value : Value L) → is_clock value ≡ true → has_type time_field value ≡ true
  is_clock-has_type value h = ground arith

  finish_clock-HasType :
      (value : Value L) (w : Option (Value L))
      → KnowsClocks F
      → finish_clock F validate value ≡ ok w
      → none_or_typed time_field w ≡ true
  finish_clock-HasType value w clocks h =
      let (naive, known, h') = >>=-eq-ok (F.is_naive_time value) _ h in
      let (v, moved, rest) =
        >>=-eq-ok (if naive then F.with_default_timezone value else ok value) _ h' in
      let clock = clocks.only_clocks value naive known in
      let same = validated-eq (some v) w rest in
      let there : is_clock v ≡ true = elim (Bool-cases naive) [
        | inl e ↦ clocks.keeps_clocks value v clock (rw e at moved)
        | inr e ↦ let e' : ok value ≡ ok v = rw e at moved in ground arith
      ] in
      subst (λ r. none_or_typed time_field r ≡ true) same (is_clock-has_type v there)

  finish_time-HasType :
      (value : Value L) (w : Option (Value L))
      → KnowsClocks F
      → finish_time F validate value ≡ ok w
      → none_or_typed time_field w ≡ true
  finish_time-HasType (timedelta t) w clocks h = ground arith
  finish_time-HasType value w clocks h = finish_clock-HasType value w clocks h

  -- Whatever a field for dates, times, time differences, decimals or UUIDs reads, its
  -- `to_python_value`, if it does not raise, gives `None` or a value of the field's type, which for a
  -- date may be a datetime, and for a time a datetime or a time difference; and it gives `None` for
  -- `None`. Of the values, only times and datetimes have `utcoffset`, and with another time zone they
  -- stay times and datetimes.
  pub to_python-HasType :
      (f : DataField) (value w : Option (Value L))
      → KnowsClocks F
      → to_python f value ≡ ok w
      → (none_or_typed f w ≡ true) × (value ≡ none → w ≡ none)
  unfolding datetime_to_python date_to_python time_to_python timedelta_to_python decimal_to_python
      uuid_to_python
  to_python-HasType datetime_field none w clocks h = ground arith
  to_python-HasType datetime_field (some value) w clocks h = ground arith
  to_python-HasType date_field none w clocks h = ground arith
  to_python-HasType date_field (some value) w clocks h = ground arith
  to_python-HasType time_field none w clocks h = ground arith
  to_python-HasType time_field (some value) w clocks h =
      let (v, _, rest) = >>=-eq-ok (read_time F validate value) _ h in
      (finish_time-HasType v w clocks rest, λ e. absurd (cc))
  to_python-HasType timedelta_field none w clocks h = ground arith
  to_python-HasType timedelta_field (some value) w clocks h = ground arith
  to_python-HasType decimal_field none w clocks h = ground arith
  to_python-HasType decimal_field (some value) w clocks h = ground arith
  to_python-HasType uuid_field value w clocks h = ground arith
