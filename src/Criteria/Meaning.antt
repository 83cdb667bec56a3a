-- ===== src/Criteria/Meaning.antt =====
-- What a modifier asks of a row: its `where` and its `having` both. The operators of
-- tortoise/query_utils.py are the operators of SQL's logic on that, and a modifier with no condition
-- is neutral on both sides.
use tortoise_orm_zh_cn.Base.{◌≡◌, refl, ap, Option, none, some, ◌++◌, arith}
use tortoise_orm_zh_cn.Criteria.{
  Pypika, Crit, empty, term, QueryModifier, and_criteria, or_criteria, and_modifiers, or_modifiers,
  invert_modifier,
}
use tortoise_orm_zh_cn.Criteria.Truth.{
  Truth, and3, or3, not3, all_of, any_of, none_of, all_of_exchange,
}

-- How a database reads pypika's criteria on one row. Nothing is said of an operand that is an
-- `EmptyCriterion`, so what is proved below never rests on one.
pub record Reading (P : Pypika) : Type 0 where
  pub value : P.Criterion → Truth
  pub value-conj : (c d : P.Criterion) → value (P.conj c d) ≡ and3 (value c) (value d)
  pub value-disj : (c d : P.Criterion) → value (P.disj c d) ≡ or3 (value c) (value d)
  pub value-negation : (c : P.Criterion) → value (P.negation c) ≡ not3 (value c)

module _ {P : Pypika} (R : Reading P) where
  -- The value of a criterion, `none` for no condition.
  abbrev pub meaning : Crit P.Criterion → Option Truth
  meaning empty = none
  meaning (term c) = some (R.value c)

  abbrev pub asks : {J : Type 0} → QueryModifier P.Criterion J → Option Truth
  asks m = all_of (meaning m.where_criterion) (meaning m.having_criterion)

  pub meaning-and_criteria :
      (a b : Crit P.Criterion) → meaning (and_criteria P a b) ≡ all_of (meaning a) (meaning b)
  meaning-and_criteria empty b = refl
  meaning-and_criteria (term c) empty = refl
  meaning-and_criteria (term c) (term d) = ap some (R.value-conj c d)

  pub meaning-or_criteria :
      (a b : Crit P.Criterion) → meaning (or_criteria P a b) ≡ any_of (meaning a) (meaning b)
  meaning-or_criteria empty b = refl
  meaning-or_criteria (term c) empty = refl
  meaning-or_criteria (term c) (term d) = ap some (R.value-disj c d)

  module _ {J : Type 0} where
    -- `m & n` asks for what `m` asks and what `n` asks, and has the joins of both.
    pub asks-and_modifiers :
        (m n : QueryModifier P.Criterion J)
        → (asks (and_modifiers P m n) ≡ all_of (asks m) (asks n))
          × ((and_modifiers P m n).joins ≡ m.joins ++ n.joins)
    unfolding and_modifiers
    asks-and_modifiers m n = (
      simp (meaning-and_criteria) (
          all_of_exchange (meaning m.where_criterion) (meaning n.where_criterion)
            (meaning m.having_criterion) (meaning n.having_criterion)),
      refl,
    )

    -- `m | n` asks for what `m` asks or what `n` asks, where a modifier with no condition is neutral,
    -- and has the joins of both.
    pub asks-or_modifiers :
        (m n : QueryModifier P.Criterion J)
        → (asks (or_modifiers P m n) ≡ any_of (asks m) (asks n))
          × ((or_modifiers P m n).joins ≡ m.joins ++ n.joins)
    unfolding or_modifiers
    asks-or_modifiers m n = grind (arith, R.value-conj, R.value-disj)

    -- `~m` asks the opposite of what `m` asks, or nothing if `m` asks nothing, and has its joins.
    pub asks-invert_modifier :
        (m : QueryModifier P.Criterion J)
        → (asks (invert_modifier P m) ≡ none_of (asks m)) × ((invert_modifier P m).joins ≡ m.joins)
    unfolding invert_modifier
    asks-invert_modifier m = grind (arith, R.value-conj, R.value-negation)
