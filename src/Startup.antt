-- ===== src/Startup.antt =====
-- The many-to-many part of `Tortoise._init_relations` of tortoise/__init__.py, with
-- `MetaInfo.add_field` of tortoise/models.py and the constructor `ManyToManyFieldInstance` of
-- tortoise/fields/relational.py. The models stand in a store, by their app and their name; a
-- `related_model` is that address. `str.lower` is an argument.
pub mod Store
pub mod ManyToMany
mod Tests
use tortoise_orm_zh_cn.Base.{
  ◌≡◌, Bool, true, false, ◌||◌, String, List, [], ◌∷◌, Option, none, some, if◌then◌else◌, ◌==◌,
}
use tortoise_orm_zh_cn.Base.Dict.{Dict, lookup, insert, has_key}
use tortoise_orm_zh_cn.Base.Errors.{
  Result, ok, err, ◌>>=◌, configuration_error, key_error, attribute_error,
}
use tortoise_orm_zh_cn.Executor.Update.{get_or}

-- The empty text is Python's `""` or `None`.
pub record ManyField : Type 0 where
  pub model_name : String
  pub related_name : String
  pub forward_key : String
  pub backward_key : String
  pub through : String
  pub generated : Bool
  pub related_model : Option (String × String)

-- A field; of those that are not many-to-many only the presence counts.
pub data Field : Type 0 where
  many : ManyField → Field
  other : Field

-- What is read of a model: `__name__` and, of `_meta`, `db_table` and `fields_map`
pub record Model : Type 0 where
  pub name : String
  pub db_table : String
  pub fields_map : Dict Field

-- `Tortoise.apps`
abbrev pub Apps : Type 0
Apps = Dict (Dict Model)

abbrev pub plus : String → String → String
plus a b = Prim.Native.String.◌++◌ a b

-- `a or b`
abbrev pub or_else : String → String → String
or_else a b = if a == "" then b else a

abbrev pub with_head : Prim.Native.Char.Char → List String → List String
with_head c [] = String.◌∷◌ c "" ∷ []
with_head c (part ∷ parts) = String.◌∷◌ c part ∷ parts

-- `reference.split(".")`
unfoldable pub split_dots : String → List String
split_dots String.[] = "" ∷ []
split_dots (String.◌∷◌ c s) =
    let rest = split_dots s in if String.◌∷◌ c "" == "." then "" ∷ rest else with_head c rest

-- Two parts, or none
abbrev pub two_parts : List String → Option (String × String)
two_parts (a ∷ b ∷ []) = some (a, b)
two_parts parts = none

unfoldable pub split_reference : String → Result (String × String)
split_reference reference = elim (two_parts (split_dots reference)) [
  | none ↦ err configuration_error
  | some parts ↦ ok parts
]

-- `ManyToManyFieldInstance(…)`, with `validate_model_name`
unfoldable pub many_field :
    (String → String) → String → String → String → String → String → Result ManyField
many_field lower model_name through forward_key backward_key related_name =
    elim (two_parts (split_dots model_name)) [
      | none ↦ err configuration_error
      | some (app, model) ↦ ok record {
        model_name = model_name;
        related_name = related_name;
        forward_key = or_else forward_key (plus (lower model) "_id");
        backward_key = backward_key;
        through = through;
        generated = false;
        related_model = none;
      }
    ]

unfoldable pub get_related_model : Apps → String × String → Result Model
get_related_model apps (app, name) = elim (lookup app apps) [
  | none ↦ err configuration_error
  | some models ↦ elim (lookup name models) [
    | none ↦ err configuration_error
    | some model ↦ ok model
  ]
]

-- A change of a field, in the model at an address
abbrev pub with_field : String → Field → Model → Model
with_field field value model = record {
  name = model.name;
  db_table = model.db_table;
  fields_map = insert field value model.fields_map;
}

abbrev pub set_model : String × String → Model → Apps → Apps
set_model (app, name) model apps = elim (lookup app apps) [
  | none ↦ apps
  | some models ↦ insert app (insert name model models) apps
]

-- `add_field`
unfoldable pub add_field : String × String → String → Field → Apps → Result Apps
add_field address name value apps = do
  model ← get_related_model apps address
  if has_key name model.fields_map
      then err configuration_error
      else ok (set_model address (with_field name value model) apps)

-- The key of the model in the through table
abbrev pub backward_key_of : Model → ManyField → String
backward_key_of model m2m =
    if m2m.backward_key == ""
    then (if plus model.db_table "_id" == m2m.forward_key
        then plus model.db_table "_rel_id"
        else plus model.db_table "_id")
    else m2m.backward_key

-- The field, once its relation is known
abbrev pub completed : (String → String) → Model → Model → String × String → ManyField → ManyField
completed lower model related address m2m = record {
  model_name = m2m.model_name;
  related_name = or_else m2m.related_name (plus model.db_table "s");
  forward_key = m2m.forward_key;
  backward_key = backward_key_of model m2m;
  through =
      or_else m2m.through
        (plus model.db_table (plus "_" (or_else related.db_table (lower related.name))));
  generated = m2m.generated;
  related_model = some address;
}

-- The relation in the other direction
abbrev pub generated_from : String × String → ManyField → ManyField
generated_from address m2m = record {
  model_name = m2m.model_name;
  related_name = m2m.related_name;
  forward_key = m2m.forward_key;
  backward_key = m2m.backward_key;
  through = m2m.through;
  generated = true;
  related_model = some address;
}

module _ (lower : String → String) where
  -- A field that is not generated, of the model at the address
  unfoldable pub relate : String × String → String → Model → ManyField → Apps → Result Apps
  relate (app, name) field model m2m apps = do
    address ← split_reference m2m.model_name
    related ← get_related_model apps address
    let m2m' = completed lower model related address m2m
    if has_key m2m'.related_name related.fields_map then err configuration_error else (do
      relation ←
          many_field lower (plus app (plus "." name)) m2m'.through m2m'.backward_key
            m2m'.forward_key field
      add_field address m2m'.related_name (many (generated_from (app, name) relation))
          (set_model (app, name) (with_field field (many m2m') model) apps))

  -- A round of the loop over `m2m_fields`
  unfoldable pub init_m2m_field : String × String → String → Apps → Result Apps
  init_m2m_field address field apps = do
    model ← get_related_model apps address
    value ← get_or key_error field model.fields_map
    elim value [
      | other ↦ err attribute_error
      | many m2m ↦ elim m2m.generated [
        | true ↦ ok apps
        | false ↦ relate address field model m2m apps
      ]
    ]
