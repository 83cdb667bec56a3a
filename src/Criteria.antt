-- ===== src/Criteria.antt =====
-- tortoise/query_utils.py: `EmptyCriterion`, `_and`, `_or` and `QueryModifier`.
-- A criterion is `empty` (the class `EmptyCriterion`) or a criterion of pypika. pypika is no part of
-- the repository: its `&`, `|` and `negate()` are the fields of `Pypika`.
pub mod Truth
pub mod Meaning
pub mod Sample
mod Tests
use tortoise_orm_zh_cn.Base.{Bool, true, false, not, ◌&&◌, ◌||◌, List, [], ◌++◌, if◌then◌else◌}

-- pypika's criteria. The fields that end in `_empty` are what pypika makes of an operand on the
-- right that is an `EmptyCriterion`, which it does not know; nothing is assumed of them.
pub record Pypika : Type 1 where
  pub Criterion : Type 0
  pub conj : Criterion → Criterion → Criterion
  pub disj : Criterion → Criterion → Criterion
  pub negation : Criterion → Criterion
  pub conj_empty : Criterion → Criterion
  pub disj_empty : Criterion → Criterion
  pub negation_empty : Criterion

pub data Crit (C : Type 0) : Type 0 where
  empty : Crit C
  term : C → Crit C

-- `bool(criterion)`
abbrev pub truthy : {C : Type 0} → Crit C → Bool
truthy empty = false
truthy (term c) = true

-- `joins` holds pairs of a table and a criterion, which nothing here looks into.
pub record QueryModifier (C J : Type 0) : Type 0 where
  pub where_criterion : Crit C
  pub joins : List J
  pub having_criterion : Crit C

-- `QueryModifier()`
abbrev pub no_modifier : {C J : Type 0} → QueryModifier C J
no_modifier = record { where_criterion = empty; joins = []; having_criterion = empty }

module _ (P : Pypika) where
  open P use {Criterion, conj, disj, negation, conj_empty, disj_empty, negation_empty}

  -- `left & right`
  abbrev pub amp : Crit Criterion → Crit Criterion → Crit Criterion
  amp empty right = right
  amp (term c) empty = term (conj_empty c)
  amp (term c) (term d) = term (conj c d)

  -- `left | right`
  abbrev pub bar : Crit Criterion → Crit Criterion → Crit Criterion
  bar empty right = right
  bar (term c) empty = term (disj_empty c)
  bar (term c) (term d) = term (disj c d)

  -- `criterion.negate()`
  abbrev pub negate : Crit Criterion → Crit Criterion
  negate empty = term negation_empty
  negate (term c) = term (negation c)

  -- `_and`
  abbrev pub and_criteria : Crit Criterion → Crit Criterion → Crit Criterion
  and_criteria left right = if truthy left && not (truthy right) then left else amp left right

  -- `_or`
  abbrev pub or_criteria : Crit Criterion → Crit Criterion → Crit Criterion
  or_criteria left right = if truthy left && not (truthy right) then left else bar left right

  -- The `where` of `__or__` when neither side has a `having`: `(a | b) if a and b else (a or b)`
  abbrev or_where : Crit Criterion → Crit Criterion → Crit Criterion
  or_where left right =
      if truthy left && truthy right then bar left right else (if truthy left then left else right)

  module _ {J : Type 0} where
    -- `QueryModifier.__and__`
    unfoldable pub and_modifiers :
        QueryModifier Criterion J → QueryModifier Criterion J → QueryModifier Criterion J
    and_modifiers m n = record {
      where_criterion = and_criteria m.where_criterion n.where_criterion;
      joins = m.joins ++ n.joins;
      having_criterion = and_criteria m.having_criterion n.having_criterion;
    }

    -- `QueryModifier._and_criterion`
    abbrev pub and_criterion : QueryModifier Criterion J → Crit Criterion
    and_criterion m = and_criteria m.where_criterion m.having_criterion

    -- `QueryModifier.__or__`
    unfoldable pub or_modifiers :
        QueryModifier Criterion J → QueryModifier Criterion J → QueryModifier Criterion J
    or_modifiers m n =
        if truthy m.having_criterion || truthy n.having_criterion
        then record {
          where_criterion = empty;
          joins = m.joins ++ n.joins;
          having_criterion = or_criteria (and_criterion m) (and_criterion n);
        }
        else record {
          where_criterion = or_where m.where_criterion n.where_criterion;
          joins = m.joins ++ n.joins;
          having_criterion = empty;
        }

    -- `QueryModifier.__invert__`
    unfoldable pub invert_modifier : QueryModifier Criterion J → QueryModifier Criterion J
    invert_modifier m =
        if truthy m.having_criterion
        then record {
          where_criterion = empty;
          joins = m.joins;
          having_criterion = negate (amp m.where_criterion m.having_criterion);
        }
        else if truthy m.where_criterion
        then record {
          where_criterion = negate m.where_criterion;
          joins = m.joins;
          having_criterion = empty;
        }
        else record { where_criterion = empty; joins = m.joins; having_criterion = empty }
