-- ===== src/Expressions/Tests.antt =====
-- Runs and witnesses for `Q`. A keyword filter is resolved to its value; "missing" is no field.
use tortoise_orm_zh_cn.Base.{◌≡◌, true, false, String, [], ◌∷◌, ◌==◌, if◌then◌else◌}
use tortoise_orm_zh_cn.Base.Errors.{Result, ok, err, field_error}
use tortoise_orm_zh_cn.Criteria.{empty, term, QueryModifier}
use tortoise_orm_zh_cn.Criteria.Truth.{Truth, holds, fails, unknown}
use tortoise_orm_zh_cn.Criteria.Sample.{truth_pypika, truth_reading}
use tortoise_orm_zh_cn.Expressions.{Q, and_join, or_join, node, nil, cons, invert_q, resolve}
use tortoise_orm_zh_cn.Expressions.Value.{read, kwarg_reads, q_value, resolve-q_value}
use tortoise_orm_zh_cn.Expressions.Operators.{invert_q-invert_q}

abbrev resolve_truth : String → Truth → Result (QueryModifier Truth String)
resolve_truth key value =
    if key == "missing"
    then err field_error
    else ok (record { where_criterion = term value; joins = key ∷ []; having_criterion = empty })

abbrev named : Q Truth
named = node nil (("name", fails) ∷ ("year", holds) ∷ []) or_join false

abbrev dated : Q Truth
dated = node nil (("date", unknown) ∷ []) and_join true

resolve-q_value_example :
    read truth_reading
      (resolve truth_pypika resolve_truth (node (cons named (cons dated nil)) [] and_join true))
    ≡ q_value
        (kwarg_reads truth_reading resolve_truth)
        (node (cons named (cons dated nil)) [] and_join true)
resolve-q_value_example =
    resolve-q_value truth_reading resolve_truth
      (node (cons named (cons dated nil)) [] and_join true)

invert_q-invert_q_example : invert_q (invert_q named) ≡ invert_q named
invert_q-invert_q_example = invert_q-invert_q named tt
