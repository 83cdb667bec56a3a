-- ===== src/Criteria/Sample.antt =====
-- SQL's truth values as criteria themselves: what is assumed of pypika can hold.
use tortoise_orm_zh_cn.Base.{refl}
use tortoise_orm_zh_cn.Criteria.{Pypika}
use tortoise_orm_zh_cn.Criteria.Truth.{Truth, unknown, and3, or3, not3}
use tortoise_orm_zh_cn.Criteria.Meaning.{Reading}

abbrev pub truth_pypika : Pypika
truth_pypika = record {
  Criterion = Truth;
  conj = and3;
  disj = or3;
  negation = not3;
  conj_empty = λ c. c;
  disj_empty = λ c. c;
  negation_empty = unknown;
}

abbrev pub truth_reading : Reading truth_pypika
truth_reading = record {
  value = λ c. c;
  value-conj = λ c d. refl;
  value-disj = λ c d. refl;
  value-negation = λ c. refl;
}
