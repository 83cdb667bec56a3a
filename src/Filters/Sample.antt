-- ===== src/Filters/Sample.antt =====
-- The value of a column on a row in place of the column: what is assumed of pypika's terms can hold.
use tortoise_orm_zh_cn.Base.{ℕ, refl, not, Option, eqb, eqb_iff, is_some}
use tortoise_orm_zh_cn.Base.Keys.{Keys}
use tortoise_orm_zh_cn.Base.Errors.{ok}
use tortoise_orm_zh_cn.Criteria.Truth.{holds, fails, unknown, not3}
use tortoise_orm_zh_cn.Criteria.Sample.{truth_pypika, truth_reading}
use tortoise_orm_zh_cn.Filters.{Terms}
use tortoise_orm_zh_cn.Filters.Meaning.{RowReading, as_truth, eq3, in3}

abbrev pub numbers : Keys ℕ
numbers = record { same = eqb; same_iff = eqb_iff }

abbrev pub row_terms : Terms truth_pypika
row_terms = record {
  Term = Option ℕ;
  Value = ℕ;
  is_true = λ n. not (eqb n 0);
  equal = eq3 numbers;
  differ = λ a b. not3 (eq3 numbers a b);
  at_least = λ a b. unknown;
  at_most = λ a b. unknown;
  above = λ a b. unknown;
  below = λ a b. unknown;
  between = λ a b c. unknown;
  isin = in3 numbers;
  notin = λ a bs. not3 (in3 numbers a bs);
  isin_value = λ a b. ok unknown;
  notin_value = λ a b. ok unknown;
  isnull = λ a. as_truth (not (is_some a));
  notnull = λ a. as_truth (is_some a);
  always = holds;
  never = fails;
  like_text = λ a s. unknown;
  like_upper = λ a s. unknown;
  upper_eq = λ a s. unknown;
  extract_eq = λ part a b. unknown;
  compare_any = λ op a value. unknown;
}

abbrev pub row_reading : RowReading row_terms
row_reading = record {
  reading = truth_reading;
  values = numbers;
  column = λ a. a;
  value-equal = λ t v. refl;
  value-differ = λ t v. refl;
  value-isin = λ t vs. refl;
  value-notin = λ t vs. refl;
  value-isnull = λ t. refl;
  value-notnull = λ t. refl;
  value-always = refl;
  value-never = refl;
}
