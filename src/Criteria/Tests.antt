-- ===== src/Criteria/Tests.antt =====
-- A run of the operators of `QueryModifier`.
use tortoise_orm_zh_cn.Base.{◌≡◌, refl, String, [], ◌∷◌}
use tortoise_orm_zh_cn.Criteria.{empty, term, QueryModifier, or_modifiers}
use tortoise_orm_zh_cn.Criteria.Truth.{Truth, holds, fails, unknown, any_of}
use tortoise_orm_zh_cn.Criteria.Meaning.{asks}
use tortoise_orm_zh_cn.Criteria.Sample.{truth_pypika, truth_reading}

-- A condition on the row, with a join.
abbrev on_row : QueryModifier Truth String
on_row = record { where_criterion = term holds; joins = "team" ∷ []; having_criterion = empty }

-- A condition on the row and one on its group.
abbrev on_group : QueryModifier Truth String
on_group = record {
  where_criterion = term unknown;
  joins = "event" ∷ [];
  having_criterion = term fails;
}

run_or :
    asks truth_reading (or_modifiers truth_pypika on_row on_group)
    ≡ any_of (asks truth_reading on_row) (asks truth_reading on_group)
unfolding or_modifiers
run_or = refl
