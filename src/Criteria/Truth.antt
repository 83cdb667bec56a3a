-- ===== src/Criteria/Truth.antt =====
-- The three truth values of SQL, and the same with "no condition".
use tortoise_orm_zh_cn.Base.{◌≡◌, Option, none, some, arith}

pub data Truth : Type 0 where
  holds fails unknown : Truth

abbrev pub and3 : Truth → Truth → Truth
and3 holds b = b
and3 fails b = fails
and3 unknown holds = unknown
and3 unknown fails = fails
and3 unknown unknown = unknown

abbrev pub not3 : Truth → Truth
not3 holds = fails
not3 fails = holds
not3 unknown = unknown

abbrev pub or3 : Truth → Truth → Truth
or3 a b = not3 (and3 (not3 a) (not3 b))

-- A condition that may be absent. An absent one is neutral on both sides.
abbrev pub lift2 : (Truth → Truth → Truth) → Option Truth → Option Truth → Option Truth
lift2 f none b = b
lift2 f (some a) none = some a
lift2 f (some a) (some b) = some (f a b)

abbrev pub all_of : Option Truth → Option Truth → Option Truth
all_of = lift2 and3

abbrev pub any_of : Option Truth → Option Truth → Option Truth
any_of = lift2 or3

abbrev pub none_of : Option Truth → Option Truth
none_of none = none
none_of (some a) = some (not3 a)

pub and3_comm : (a b : Truth) → and3 a b ≡ and3 b a
and3_comm a b = ground arith

pub and3_assoc : (a b c : Truth) → and3 (and3 a b) c ≡ and3 a (and3 b c)
and3_assoc a b c = ground arith

-- Two pairs of conditions may be joined either way round.
pub all_of_exchange :
    (a b c d : Option Truth) → all_of (all_of a b) (all_of c d) ≡ all_of (all_of a c) (all_of b d)
all_of_exchange a b c d = ground arith
