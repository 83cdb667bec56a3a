-- ===== src/Fields/Data/Tests.antt =====
-- Runs and witnesses for the fields for dates, times and time differences: a library of numbers, with
-- a function that makes time differences of their microseconds.
use tortoise_orm_zh_cn.Base.{
  ℕ, ◌≡◌, refl, ap, ◌∙◌, Bool, true, false, Option, none, some, arith, ◌+◌, ◌*◌, ◌-◌, ◌/◌, ◌%◌, suc,
}
use tortoise_orm_zh_cn.Base.Int.{ℤ, pos, negsuc}
use tortoise_orm_zh_cn.Base.Errors.{Result, ok, err, ◌>>=◌, type_error, configuration_error}
use tortoise_orm_zh_cn.Fields.Data.{
  Library, Value, Functions, Timedelta, datetime, timedelta, int, to_microseconds, timedelta_to_db,
  timedelta_to_python, datetime_to_db, auto_flags, char_max_length, time, time_to_db,
  time_to_python,
}
use tortoise_orm_zh_cn.Fields.Data.HasType.{
  time_field, KnowsClocks, is_clock, none_or_typed, to_python-HasType,
}
use tortoise_orm_zh_cn.Fields.Data.RoundTrip.{
  IsNormal, IsExact, negative, timedelta_to_python-timedelta_to_db,
}

abbrev numbers : Library
numbers = record { Datetime = ℕ; Date = ℕ; Time = ℕ; Uuid = ℕ; Decimal = ℕ; Json = ℕ; Other = ℕ }

-- The time difference of whole days and a rest
abbrev normal_timedelta : ℤ → ℕ → Timedelta
normal_timedelta d rest = record {
  days = d;
  seconds = rest / 1000000;
  microseconds = rest % 1000000;
}

abbrev of_microseconds : ℤ → Timedelta
of_microseconds (pos n) = normal_timedelta (pos (n / 86400000000)) (n % 86400000000)
of_microseconds (negsuc n) =
    normal_timedelta (negsuc (n / 86400000000)) (86399999999 - n % 86400000000)

abbrev timedelta_from : Value numbers → Result Timedelta
timedelta_from (int n) = ok (of_microseconds n)
timedelta_from value = err type_error

of_microseconds-IsNormal : (n : ℤ) → IsNormal (of_microseconds n)
of_microseconds-IsNormal (pos n) = (omega arith, omega arith)
of_microseconds-IsNormal (negsuc n) = (omega arith, omega arith)

to_microseconds-of_microseconds : (n : ℤ) → to_microseconds (of_microseconds n) ≡ n
to_microseconds-of_microseconds (pos n) = ap pos (omega arith)
to_microseconds-of_microseconds (negsuc n) =
    let rest = 86399999999 - n % 86400000000 in
    let n' = rest / 1000000 * 1000000 + rest % 1000000 in
    let r = negative (n / 86400000000) n' (omega arith) in r ∙ ap negsuc (omega arith)

-- Every time and every datetime is naive, and the time zone adds 1 to it.
abbrev is_naive_time : Value numbers → Result Bool
is_naive_time (time t) = ok true
is_naive_time (datetime d) = ok true
is_naive_time value = err type_error

abbrev with_default_timezone : Value numbers → Result (Value numbers)
with_default_timezone (time t) = ok (time (suc t))
with_default_timezone (datetime d) = ok (datetime (suc d))
with_default_timezone value = err type_error

abbrev functions : Functions numbers
functions = record {
  now = 100;
  from_timestamp = λ n. 7;
  parse_datetime = λ value. ok 8;
  is_naive = λ d. true;
  make_aware = λ d. suc d;
  make_aware_utc = λ d. d;
  localtime = λ d. d;
  date_of = λ d. d;
  time_of = λ d. d;
  time_from_iso = λ s. ok 9;
  is_naive_time = is_naive_time;
  with_default_timezone = with_default_timezone;
  use_tz = false;
  timedelta_from = timedelta_from;
  quantized = λ value. ok 1;
  to_uuid = λ value. ok 2;
  uuid_text = λ value. "u";
  is_true = λ value. true;
  decode = λ s. err type_error;
  encode = λ value. "j";
}

abbrev accept : Option (Value numbers) → Result (Unit {0})
accept value = ok tt

functions-IsExact : IsExact functions
functions-IsExact t normal range =
    let n = to_microseconds t in
    (of_microseconds n, refl, of_microseconds-IsNormal n, to_microseconds-of_microseconds n)

-- Two days before, and a bit
abbrev past : Timedelta
past = record { days = negsuc 1; seconds = 3; microseconds = 5 }

run_auto_now :
    datetime_to_db functions accept false true (some none) none
    ≡ ok (some (datetime 100), some (datetime 100))
unfolding datetime_to_db
run_auto_now = refl

-- A field that has its value keeps it, if it is only set when it is added.
run_keeps_time :
    time_to_db functions accept false true (some (some (time 5))) (some (time 5))
    ≡ ok (some (time 5), none)
unfolding time_to_db
run_keeps_time = refl

run_both_flags : auto_flags true true ≡ err configuration_error
unfolding auto_flags
run_both_flags = refl

run_no_length : char_max_length (pos 0) ≡ err configuration_error
unfolding char_max_length
run_no_length = refl

functions-KnowsClocks : KnowsClocks functions
functions-KnowsClocks = record {
  only_clocks = λ value naive h. naive_clock value naive h;
  keeps_clocks = λ value w h g. moved_clock value w g;
}
  where
    naive_clock :
        (value : Value numbers) (naive : Bool)
        → is_naive_time value ≡ ok naive
        → is_clock value ≡ true
    naive_clock value naive h = ground arith

    moved_clock : (value w : Value numbers) → with_default_timezone value ≡ ok w → is_clock w ≡ true
    moved_clock value w h = ground arith

-- What a field for times reads of a naive datetime is a datetime.
abbrev stamp : Option (Value numbers)
stamp = some (datetime 3)

abbrev read_back : Option (Value numbers)
read_back = some (datetime 4)

to_python-HasType_example :
    (none_or_typed time_field read_back ≡ true) × (stamp ≡ none → read_back ≡ none)
unfolding time_to_python
to_python-HasType_example =
    to_python-HasType functions accept time_field stamp read_back functions-KnowsClocks refl

timedelta_to_python-timedelta_to_db_example :
    (timedelta_to_db functions accept (some past) >>= timedelta_to_python functions accept)
    ≡ ok (some (timedelta past))
timedelta_to_python-timedelta_to_db_example =
    timedelta_to_python-timedelta_to_db functions accept past functions-IsExact
      (ground arith, ground arith) refl refl refl
