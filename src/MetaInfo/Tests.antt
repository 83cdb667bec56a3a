-- ===== src/MetaInfo/Tests.antt =====
-- Runs and witnesses for the making of models and for objects from rows.
use tortoise_orm_zh_cn.Base.{
  ℕ, ◌≡◌, refl, true, false, String, [], ◌∷◌, Option, none, some, suc, All, arith,
}
use tortoise_orm_zh_cn.Base.Dict.{Dict, lookup}
use tortoise_orm_zh_cn.Base.Errors.{Result, ok, err, configuration_error}
use tortoise_orm_zh_cn.Filters.{Operator, eq, insensitive_exact, posix_regex}
use tortoise_orm_zh_cn.Filters.Tables.{FilterInfo}
use tortoise_orm_zh_cn.Filters.Tables
use tortoise_orm_zh_cn.Models.{Instance}
use tortoise_orm_zh_cn.MetaInfo.{
  generate_filters, Reader, DbFields, generate_db_fields, generate_onto, to_set, reverse_onto,
  conversion_of, to_python_value, values_of,
}
use tortoise_orm_zh_cn.MetaInfo.FromDb.{init_from_db, read_columns, read_partial, from_db}
use tortoise_orm_zh_cn.MetaInfo.FromDb.Whole.{ReadsAs, init_from_db-to_python_value}
use tortoise_orm_zh_cn.MetaInfo.Create.{
  ClassField, data_field, ClassAttribute, field, ClassTree, nil, cons, class_of, NewMeta, new_model,
  choose_pk, find_pk, ensure_pk, make_meta, search, no_fields,
}
use tortoise_orm_zh_cn.MetaInfo.Create.PrimaryKey.{HasOnePk, new_model-pk}
use tortoise_orm_zh_cn.MetaInfo.Create.Inherit.{new_model-last_base}

-- A native column, and one whose field adds one to what it reads
abbrev native_reader : Reader ℕ
native_reader = record {
  is_native_field_type = true;
  default_converter = true;
  skip_to_python_if_native = false;
  is_type = λ v. true;
  field_type = λ v. ok v;
  validate = λ v. ok tt;
  own_to_python_value = λ v. ok v;
}

abbrev successor : Option ℕ → Result (Option ℕ)
successor none = ok none
successor (some n) = ok (some (suc n))

abbrev own_reader : Reader ℕ
own_reader = record native_reader { default_converter = false; own_to_python_value = successor }

abbrev projection : Dict String
projection = ("id", "id") ∷ ("name", "name_column") ∷ []

abbrev readers : Dict (Reader ℕ)
readers = ("id", native_reader) ∷ ("name", own_reader) ∷ []

abbrev sorted : DbFields ℕ
sorted = record {
  db_native_fields = record { key = "id"; model_field = "id"; field = native_reader } ∷ [];
  db_default_fields = [];
  db_complex_fields = record { key = "name_column"; model_field = "name"; field = own_reader } ∷ [];
}

abbrev whole_row : Dict (Option ℕ)
whole_row = ("name_column", some 7) ∷ ("id", some 3) ∷ []

-- A partial row, whose values go by the names of the fields
run_partial :
    init_from_db sorted readers "id" ("id" ∷ []) (("name", some 7) ∷ ("extra", some 1) ∷ [])
    ≡ ok (from_db true false (("name", some 8) ∷ []))
unfolding init_from_db read_columns read_partial to_python_value
run_partial = refl

init_from_db-to_python_value_example :
    (object : Instance ℕ) × (init_from_db sorted readers "id" ("id" ∷ []) whole_row ≡ ok object)
    × (object.partial ≡ false)
    × All (ReadsAs projection readers whole_row object.attributes) (to_set (values_of projection))
unfolding generate_db_fields generate_onto to_set reverse_onto conversion_of to_python_value
init_from_db-to_python_value_example =
    init_from_db-to_python_value projection readers whole_row sorted "id" ("id" ∷ [])
      (refl, (refl, tt)) refl
      (
        (
          "id",
          native_reader,
          some 3,
          some 3,
          refl,
          refl,
          refl,
          refl,
          (λ n d. refl, λ n s d. refl, λ v t. refl),
        ),
        (
          (
            "name",
            own_reader,
            some 7,
            some 8,
            refl,
            refl,
            refl,
            refl,
            (λ n d. refl, λ n s d. absurd (ground arith), λ v t. refl),
          ),
          tt,
        ),
      )

abbrev column : Option String → ClassField
column source = record {
  field_class = data_field;
  pk = false;
  generated = false;
  allows_generated = false;
  source_field = source;
  is_json = false;
}

abbrev key_field : ClassField
key_field = record (column (some "key_column")) { pk = true }

-- An abstract model with a field `name`
abbrev abstract_model : String → ClassTree
abstract_model source = class_of nil (some (("name", column (some source)) ∷ [])) []

abbrev own : Dict ClassAttribute
own = ("key", field key_field) ∷ []

abbrev no_meta : NewMeta
no_meta = record {
  collected = no_fields;
  pk_attr = "";
  pk = none;
  db_pk_column = "";
  abstract = true;
}

abbrev made_of : Result NewMeta → NewMeta
made_of (ok meta) = meta
made_of (err e) = no_meta

-- `class Event(Left, Right)`, where both have a field `name`
abbrev event : NewMeta
event =
    made_of (
      new_model "Event" false (cons (abstract_model "left") (cons (abstract_model "right") nil))
        own)

abbrev plain_event : NewMeta
plain_event = made_of (new_model "Event" false nil own)

-- Two primary keys are refused.
run_two_keys : new_model "Event" false nil (("id", field key_field) ∷ own) ≡ err configuration_error
unfolding new_model choose_pk find_pk search
run_two_keys = refl

new_model-pk_example : HasOnePk plain_event
unfolding new_model choose_pk find_pk ensure_pk make_meta search
new_model-pk_example = new_model-pk "Event" nil own plain_event (refl, tt) refl refl

new_model-last_base_example :
    lookup "name" event.collected.fields_map ≡ some (column (some "right"))
unfolding new_model choose_pk find_pk ensure_pk make_meta search
new_model-last_base_example =
    new_model-last_base "Event" false (cons (abstract_model "left") nil) nil
      (("name", column (some "right")) ∷ []) [] own event "name" (column (some "right")) (refl, tt)
      (refl, tt) refl refl refl

abbrev own_info : String → Operator → FilterInfo
own_info name op = Tables.own name name op none

-- A backend with an operator of its own
abbrev own_regex : Operator → Option Operator
own_regex insensitive_exact = some posix_regex
own_regex op = none

run_overridden :
    generate_filters own_regex
      (("name__iexact", own_info "name" insensitive_exact) ∷ ("name", own_info "name" eq) ∷ [])
      []
    ≡ ("name__iexact", own_info "name" posix_regex) ∷ ("name", own_info "name" eq) ∷ []
unfolding generate_filters
run_overridden = refl
