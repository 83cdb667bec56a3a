-- ===== src/Filters.antt =====
-- The filter operators of tortoise/filters.py, and what each lookup of a field stands for:
-- `get_m2m_filters`, `get_backward_fk_filters`, `get_json_filter` and `get_filters_for_field` are in
-- Filters/Tables. pypika's terms are an argument.
pub mod Tables
pub mod Meaning
pub mod Opposite
pub mod Sample
mod Tests
use tortoise_orm_zh_cn.Base.{
  Bool, true, false, not, String, List, [], ◌∷◌, Option, none, some, if◌then◌else◌,
}
use tortoise_orm_zh_cn.Base.Errors.{
  Result, ok, err, ◌>>=◌, type_error, index_error, not_implemented_error,
}
use tortoise_orm_zh_cn.Criteria.{Pypika, Crit, empty, term}
use tortoise_orm_zh_cn.Literals.{Text, contains_pattern, starts_with_pattern, ends_with_pattern}

pub data DatePart : Type 0 where
  year quarter month week day hour minute second microsecond : DatePart

-- The functions that a lookup can name; `eq`, `ge`, `le`, `gt` and `lt` are those of `operator`.
pub data Operator : Type 0 where
  eq not_equal is_in not_in is_null not_null ge le gt lt between_and : Operator
  contains starts_with search ends_with posix_regex : Operator
  insensitive_exact insensitive_contains insensitive_starts_with insensitive_ends_with : Operator
  json_contains json_contained_by json_filter : Operator
  extract_equal : DatePart → Operator

-- What an operator is given: a value or `None`, a list, a flag, or a text
pub data Arg (V : Type 0) : Type 0 where
  one : Option V → Arg V
  several : List (Option V) → Arg V
  flag : Bool → Arg V
  text : Text → Arg V

-- pypika's terms, and the criteria that it makes of them; `like_text`, `like_upper` and `upper_eq`
-- are the shapes of the operators on texts, with their casts to VARCHAR and their `Upper`.
-- `isin_value` and `notin_value` are `isin` and `notin` of what is no list, such as a subquery, and
-- `compare_any` is a comparison with a list, a flag or a text.
pub record Terms (P : Pypika) : Type 1 where
  pub Term : Type 0
  pub Value : Type 0
  pub is_true : Value → Bool
  pub equal : Term → Option Value → P.Criterion
  pub differ : Term → Option Value → P.Criterion
  pub at_least : Term → Option Value → P.Criterion
  pub at_most : Term → Option Value → P.Criterion
  pub above : Term → Option Value → P.Criterion
  pub below : Term → Option Value → P.Criterion
  pub between : Term → Option Value → Option Value → P.Criterion
  pub isin : Term → List (Option Value) → P.Criterion
  pub notin : Term → List (Option Value) → P.Criterion
  pub isin_value : Term → Value → Result P.Criterion
  pub notin_value : Term → Value → Result P.Criterion
  pub isnull : Term → P.Criterion
  pub notnull : Term → P.Criterion
  pub always : P.Criterion
  pub never : P.Criterion
  pub like_text : Term → Text → P.Criterion
  pub like_upper : Term → Text → P.Criterion
  pub upper_eq : Term → Text → P.Criterion
  pub extract_eq : DatePart → Term → Option Value → P.Criterion
  pub compare_any : Operator → Term → Arg Value → P.Criterion

module _ {P : Pypika} (T : Terms P) where
  open T use {
    Term, Value, is_true, equal, differ, at_least, at_most, above, below, between, isin, notin,
    isin_value, notin_value, isnull, notnull, always, never, like_text, like_upper, upper_eq,
    extract_eq, compare_any,
  }

  -- `bool(value)`
  abbrev pub truth_of : Arg Value → Bool
  truth_of (one none) = false
  truth_of (one (some v)) = is_true v
  truth_of (several []) = false
  truth_of (several (v ∷ vs)) = true
  truth_of (flag b) = b
  truth_of (text []) = false
  truth_of (text (c ∷ s)) = true

  -- `1=0` is never true, and `1=1` always.
  abbrev pub is_in_list : Term → List (Option Value) → P.Criterion
  is_in_list field [] = never
  is_in_list field (v ∷ vs) = isin field (v ∷ vs)

  abbrev pub not_in_list : Term → List (Option Value) → P.Criterion
  not_in_list field [] = always
  not_in_list field (v ∷ vs) = P.disj (notin field (v ∷ vs)) (isnull field)

  -- The same for one value
  abbrev pub is_in_value : Term → Option Value → Result (Crit P.Criterion)
  is_in_value field none = ok (term never)
  is_in_value field (some v) =
      if is_true v then (do c ← isin_value field v; ok (term c)) else ok (term never)

  abbrev pub not_in_value : Term → Option Value → Result (Crit P.Criterion)
  not_in_value field none = ok (term always)
  not_in_value field (some v) =
      if is_true v
      then (do c ← notin_value field v; ok (term (P.disj c (isnull field))))
      else ok (term always)

  abbrev pub null_test : Term → Bool → P.Criterion
  null_test field true = isnull field
  null_test field false = notnull field

  abbrev pub compare_with : Operator → Term → Option Value → Result (Crit P.Criterion)
  compare_with eq field v = ok (term (equal field v))
  compare_with not_equal field v = ok (term (P.disj (differ field v) (isnull field)))
  compare_with is_in field v = is_in_value field v
  compare_with not_in field v = not_in_value field v
  compare_with ge field v = ok (term (at_least field v))
  compare_with le field v = ok (term (at_most field v))
  compare_with gt field v = ok (term (above field v))
  compare_with lt field v = ok (term (below field v))
  compare_with (extract_equal part) field v = ok (term (extract_eq part field v))
  compare_with op field v = err type_error

  -- The comparisons take a value of any shape, the other operators do not.
  abbrev pub compare_other : Operator → Term → Arg Value → Result (Crit P.Criterion)
  compare_other eq field value = ok (term (compare_any eq field value))
  compare_other not_equal field value =
      ok (term (P.disj (compare_any not_equal field value) (isnull field)))
  compare_other ge field value = ok (term (compare_any ge field value))
  compare_other le field value = ok (term (compare_any le field value))
  compare_other gt field value = ok (term (compare_any gt field value))
  compare_other lt field value = ok (term (compare_any lt field value))
  compare_other (extract_equal part) field value =
      ok (term (compare_any (extract_equal part) field value))
  compare_other op field value = err type_error

  abbrev pub compare_list : Operator → Term → List (Option Value) → Result (Crit P.Criterion)
  compare_list is_in field vs = ok (term (is_in_list field vs))
  compare_list not_in field vs = ok (term (not_in_list field vs))
  compare_list between_and field (a ∷ b ∷ vs) = ok (term (between field a b))
  compare_list between_and field vs = err index_error
  compare_list op field vs = compare_other op field (several vs)

  abbrev pub compare_text : Operator → Term → Text → Result (Crit P.Criterion)
  compare_text contains field s = ok (term (like_text field (contains_pattern s)))
  compare_text starts_with field s = ok (term (like_text field (starts_with_pattern s)))
  compare_text ends_with field s = ok (term (like_text field (ends_with_pattern s)))
  compare_text insensitive_exact field s = ok (term (upper_eq field s))
  compare_text insensitive_contains field s = ok (term (like_upper field (contains_pattern s)))
  compare_text insensitive_starts_with field s =
      ok (term (like_upper field (starts_with_pattern s)))
  compare_text insensitive_ends_with field s = ok (term (like_upper field (ends_with_pattern s)))
  compare_text op field s = compare_other op field (text s)

  -- The operators that take any value: the tests for null, those that a backend must override, of
  -- which one raises and the others return `None`, and all others by the shape of their value
  unfoldable pub apply_operator : Operator → Term → Arg Value → Result (Crit P.Criterion)
  apply_operator is_null field value = ok (term (null_test field (truth_of value)))
  apply_operator not_null field value = ok (term (null_test field (not (truth_of value))))
  apply_operator search field value = ok empty
  apply_operator json_contains field value = ok empty
  apply_operator json_contained_by field value = ok empty
  apply_operator json_filter field value = ok empty
  apply_operator posix_regex field value = err not_implemented_error
  apply_operator op field (one v) = compare_with op field v
  apply_operator op field (several vs) = compare_list op field vs
  apply_operator op field (text s) = compare_text op field s
  apply_operator op field (flag b) = compare_other op field (flag b)
