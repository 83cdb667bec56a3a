-- ===== src/Fields/Tests.antt =====
-- Runs for fields. A value is a text, as the list of its code points.
use tortoise_orm_zh_cn.Base.{ℕ, ◌≡◌, refl, true, false, List, [], ◌∷◌, none, some}
use tortoise_orm_zh_cn.Base.Int.{pos, negsuc}
use tortoise_orm_zh_cn.Base.Errors.{ok, err, validation_error, configuration_error}
use tortoise_orm_zh_cn.Fields.{
  Options, Field, make_field, validate, run_validators, max_length, min_value, max_value,
}

abbrev char_options : Options (List ℕ)
char_options = record {
  generated = false;
  primary_key = none;
  null = true;
  default = none;
  unique = false;
  db_index = none;
  index = some true;
  pk = none;
  validators = max_length 2 ∷ [];
}

abbrev char_field : Field (List ℕ)
char_field = record {
  generated = false;
  pk = false;
  default = none;
  null = true;
  unique = false;
  index = true;
  validators = max_length 2 ∷ [];
}

run_make : make_field true char_options ≡ ok char_field
unfolding make_field
run_make = refl

run_both : make_field true (record char_options { pk = some true }) ≡ err configuration_error
unfolding make_field
run_both = refl

run_too_long : validate (λ v. v) char_field (some (1 ∷ 2 ∷ 3 ∷ [])) ≡ err validation_error
unfolding run_validators max_length
run_too_long = refl

run_bounds : min_value (negsuc 4) (some (pos 3)) ≡ max_value (pos 3) (some (pos 3))
unfolding min_value max_value
run_bounds = refl
