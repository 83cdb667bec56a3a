-- ===== src/Fields/Data/RoundTrip.antt =====
-- A time difference through the database: `TimeDeltaField` of tortoise/fields/data.py.
use tortoise_orm_zh_cn.Base.{
  ℕ, ◌≡◌, ap, Bool, true, ◌&&◌, Option, some, arith, suc, ◌+◌, ◌*◌, ◌-◌, ◌<◌,
}
use tortoise_orm_zh_cn.Base.Int.{ℤ, pos, negsuc, lebℤ}
use tortoise_orm_zh_cn.Base.Errors.{Result, ok, ◌>>=◌}
use tortoise_orm_zh_cn.Fields.Data.{
  Library, Value, Functions, Timedelta, timedelta, int, to_microseconds, plus_days, timedelta_to_db,
  timedelta_to_python,
}

-- Python keeps seconds and microseconds below a day and a second.
abbrev pub IsNormal : Timedelta → Type 0
IsNormal t = (t.seconds < 86400) × (t.microseconds < 1000000)

-- The days that Python allows
abbrev pub in_range : Timedelta → Bool
in_range t = lebℤ (negsuc 999999998) t.days && lebℤ t.days (pos 999999999)

-- `timedelta(microseconds=n)`: the normal time difference of that length
abbrev pub IsExact : {L : Library} → Functions L → Type 0
IsExact F =
    (t : Timedelta)
    → IsNormal t
    → in_range t ≡ true
    → (u : Timedelta) × (F.timedelta_from (int (to_microseconds t)) ≡ ok u)
      × IsNormal u
      × (to_microseconds u ≡ to_microseconds t)

pub negative :
    (d n : ℕ) → n < 86400000000 → plus_days (negsuc d) n ≡ negsuc (suc d * 86400000000 - suc n)
negative d n h = ground arith

same_quotient :
    (a b m n : ℕ)
    → m < 86400000000
    → n < 86400000000
    → a * 86400000000 + m ≡ b * 86400000000 + n
    → a ≡ b
same_quotient a b m n h g e = omega arith

same_complement :
    (a b m n : ℕ)
    → m < 86400000000
    → n < 86400000000
    → suc a * 86400000000 - suc m ≡ suc b * 86400000000 - suc n
    → a ≡ b
same_complement a b m n h g e = omega arith

day_part :
    (a b : ℤ) (m n : ℕ)
    → m < 86400000000
    → n < 86400000000
    → plus_days a m ≡ plus_days b n
    → (a ≡ b) × (m ≡ n)
day_part (pos a) (pos b) m n h g e =
    let f : a * 86400000000 + m ≡ b * 86400000000 + n = ground arith in
    let same = same_quotient a b m n h g f in (ap pos same, omega arith)
day_part (pos a) (negsuc b) m n h g e = let r = negative b n g in absurd (ground arith)
day_part (negsuc a) (pos b) m n h g e = let r = negative a m h in absurd (ground arith)
day_part (negsuc a) (negsuc b) m n h g e =
    let r = negative a m h in
    let s = negative b n g in
    let f : suc a * 86400000000 - suc m ≡ suc b * 86400000000 - suc n = ground arith in
    let same = same_complement a b m n h g f in (ap negsuc same, omega arith)

second_part :
    (a b m n : ℕ)
    → m < 1000000
    → n < 1000000
    → a * 1000000 + m ≡ b * 1000000 + n
    → (a ≡ b) × (m ≡ n)
second_part a b m n h g e = let same : a ≡ b = omega arith in (same, omega arith)

-- A normal time difference is known by its length.
to_microseconds_injective :
    (t u : Timedelta) → IsNormal t → IsNormal u → to_microseconds t ≡ to_microseconds u → t ≡ u
to_microseconds_injective t u (s, m) (s', m') e =
    let (days, rest) =
      day_part t.days u.days (t.seconds * 1000000 + t.microseconds)
        (u.seconds * 1000000 + u.microseconds) (omega arith) (omega arith) e in
    let (seconds, micro) =
      second_part t.seconds u.seconds t.microseconds u.microseconds m m' rest in
    ground arith

-- A time difference that is stored as its microseconds is read back as itself, where the field's
-- validators accept both, for every one that Python can hold.
pub timedelta_to_python-timedelta_to_db :
    {L : Library} (F : Functions L) (validate : Option (Value L) → Result (Unit {0}))
    (t : Timedelta)
    → IsExact F
    → IsNormal t
    → in_range t ≡ true
    → validate (some (timedelta t)) ≡ ok tt
    → validate (some (int (to_microseconds t))) ≡ ok tt
    → (timedelta_to_db F validate (some t) >>= timedelta_to_python F validate)
      ≡ ok (some (timedelta t))
unfolding timedelta_to_db timedelta_to_python
timedelta_to_python-timedelta_to_db F validate t exact normal range a b =
    let (u, made, normal', same) = exact t normal range in
    let back = to_microseconds_injective u t normal' normal same in ground arith
