-- ===== src/MetaInfo/Create.antt =====
-- `ModelMeta.__new__` of tortoise/models.py: the attributes that a class inherits, its primary key,
-- and the dicts of its fields. The classes of Python are trees here: a class with the others of its
-- `__mro__`, the `fields_map` of its `_meta`, if it has one, and its own `__dict__`.
pub mod Names
pub mod PrimaryKey
pub mod Inherit
use tortoise_orm_zh_cn.Base.{
  Bool, true, false, not, ◌&&◌, ◌||◌, String, List, [], ◌∷◌, ◌++◌, Option, none, some, ◌==◌,
  if◌then◌else◌, is_some,
}
use tortoise_orm_zh_cn.Base.Dict.{Dict, insert, lookup, update, has_key}
use tortoise_orm_zh_cn.Base.Errors.{Result, ok, err, ◌>>=◌, ◌>>◌, configuration_error}
use tortoise_orm_zh_cn.Filters.Tables.{FilterInfo, Field, json, plain, get_filters_for_field}
use tortoise_orm_zh_cn.Joins.{source_or}

pub data FieldClass : Type 0 where
  one_to_one_field foreign_key_field many_to_many_field data_field : FieldClass

pub record ClassField : Type 0 where
  pub field_class : FieldClass
  pub pk : Bool
  pub generated : Bool
  pub allows_generated : Bool
  pub source_field : Option String
  pub is_json : Bool

pub data ClassAttribute : Type 0 where
  field : ClassField → ClassAttribute
  manager : ClassAttribute
  other : ClassAttribute

mutual
  pub data ClassTree : Type 0 where
    class_of : ClassTrees → Option (Dict ClassField) → Dict ClassAttribute → ClassTree

  pub data ClassTrees : Type 0 where
    nil : ClassTrees
    cons : ClassTree → ClassTrees → ClassTrees

-- `for key, value in meta.fields_map.items(): attrs[key] = value`
abbrev pub add_fields : Dict ClassField → Dict ClassAttribute → Dict ClassAttribute
add_fields [] attrs = attrs
add_fields ((key, f) ∷ fields_map) attrs = add_fields fields_map (insert key (field f) attrs)

abbrev pub is_manager : ClassAttribute → Bool
is_manager (field f) = false
is_manager manager = true
is_manager other = false

abbrev pub is_field : ClassAttribute → Bool
is_field (field f) = true
is_field manager = false
is_field other = false

-- Those attributes of a class that are wanted and not in `attrs`
abbrev pub add_missing :
    (ClassAttribute → Bool) → Dict ClassAttribute → Dict ClassAttribute → Dict ClassAttribute
add_missing wanted [] attrs = attrs
add_missing wanted ((key, value) ∷ dict) attrs =
    add_missing wanted dict
      (if wanted value && not (has_key key attrs) then insert key value attrs else attrs)

-- The class itself: one with a `_meta`, or a mixin
abbrev pub own_attributes :
    Option (Dict ClassField) → Dict ClassAttribute → Dict ClassAttribute → Dict ClassAttribute
own_attributes (some fields_map) dict attrs =
    add_missing is_manager dict (add_fields fields_map attrs)
own_attributes none dict attrs = add_missing is_field dict attrs

unfoldable mutual
  -- `__search_for_field_attributes`
  pub search : ClassTree → Dict ClassAttribute → Dict ClassAttribute
  search (class_of parents meta dict) attrs = own_attributes meta dict (search_all parents attrs)

  pub search_all : ClassTrees → Dict ClassAttribute → Dict ClassAttribute
  search_all nil attrs = attrs
  search_all (cons base bases) attrs = search_all bases (search base attrs)

-- `if inherited_attrs: attrs = {**inherited_attrs, **attrs}`
abbrev pub with_inherited : Dict ClassAttribute → Dict ClassAttribute → Dict ClassAttribute
with_inherited [] attrs = attrs
with_inherited (a ∷ inherited) attrs = update (a ∷ inherited) attrs

-- The loop that looks for the primary key: `custom_pk_present` and `pk_attr`
unfoldable pub find_pk : Dict ClassAttribute → Bool → String → Result (Bool × String)
find_pk [] custom_pk_present pk_attr = ok (custom_pk_present, pk_attr)
find_pk ((key, field f) ∷ attrs) custom_pk_present pk_attr =
    if f.pk
    then (if custom_pk_present || (f.generated && not f.allows_generated)
        then err configuration_error
        else find_pk attrs true key)
    else find_pk attrs custom_pk_present pk_attr
find_pk ((key, manager) ∷ attrs) custom_pk_present pk_attr = find_pk attrs custom_pk_present pk_attr
find_pk ((key, other) ∷ attrs) custom_pk_present pk_attr = find_pk attrs custom_pk_present pk_attr

-- `IntField(primary_key=True)`
abbrev pub default_id : ClassField
default_id = record {
  field_class = data_field;
  pk = true;
  generated = true;
  allows_generated = true;
  source_field = none;
  is_json = false;
}

abbrev pub is_pk_field : Option ClassAttribute → Bool
is_pk_field (some (field f)) = f.pk
is_pk_field other_value = false

-- `id`, for a class that has no primary key of its own and is not abstract
unfoldable pub ensure_pk : Bool → Bool → Dict ClassAttribute → Result (Dict ClassAttribute)
ensure_pk abstract custom_pk_present attrs =
    if custom_pk_present || abstract
    then ok attrs
    else (let attrs' = if has_key "id" attrs then attrs else ("id", field default_id) ∷ attrs in
        if is_pk_field (lookup "id" attrs') then ok attrs' else err configuration_error)

-- The part under `if name != "Model"`: the attributes and `pk_attr`
unfoldable pub choose_pk :
    String → Bool → Dict ClassAttribute → Result (Dict ClassAttribute × String)
choose_pk name abstract attrs = if name == "Model" then ok (attrs, "id") else do
  (custom_pk_present, pk_attr) ← find_pk attrs false "id"
  attrs' ← ensure_pk abstract custom_pk_present attrs
  ok (attrs', pk_attr)

pub record Collected : Type 0 where
  pub fields_map : Dict ClassField
  pub fields_db_projection : Dict String
  pub filters : Dict FilterInfo
  pub fk_fields : List String
  pub m2m_fields : List String
  pub o2o_fields : List String

-- The field, as the filters see it
abbrev pub filter_field : String → ClassField → Field
filter_field key f = if f.is_json then json else plain key

-- The filters of a column, and those under `pk` for the primary key
abbrev pub filters_of : String → ClassField → Dict FilterInfo → Dict FilterInfo
filters_of key f filters =
    let source_field = source_or f.source_field key in
    let own = update filters (get_filters_for_field key (filter_field key f) source_field) in
    if f.pk then update own (get_filters_for_field "pk" (filter_field key f) source_field) else own

abbrev pub collect_by_class : FieldClass → String → ClassField → Collected → Collected
collect_by_class one_to_one_field key f c = record c { o2o_fields = key ∷ c.o2o_fields }
collect_by_class foreign_key_field key f c = record c { fk_fields = key ∷ c.fk_fields }
collect_by_class many_to_many_field key f c = record c { m2m_fields = key ∷ c.m2m_fields }
collect_by_class data_field key f c = record c {
  fields_db_projection = insert key (source_or f.source_field key) c.fields_db_projection;
  filters = filters_of key f c.filters;
}

-- The loop over the attributes that sorts the fields
unfoldable pub collect : Dict ClassAttribute → Collected → Collected
collect [] c = c
collect ((key, field f) ∷ attrs) c =
    collect attrs
      (collect_by_class f.field_class key f (record c { fields_map = insert key f c.fields_map }))
collect ((key, manager) ∷ attrs) c = collect attrs c
collect ((key, other) ∷ attrs) c = collect attrs c

-- What the class gets as its `_meta`
pub record NewMeta : Type 0 where
  pub collected : Collected
  pub pk_attr : String
  pub pk : Option ClassField
  pub db_pk_column : String
  pub abstract : Bool

abbrev pub no_fields : Collected
no_fields = record {
  fields_map = [];
  fields_db_projection = [];
  filters = [];
  fk_fields = [];
  m2m_fields = [];
  o2o_fields = [];
}

abbrev pub is_empty : {A : Type 0} → List A → Bool
is_empty [] = true
is_empty (x ∷ xs) = false

abbrev pub pk_column : Option ClassField → String → String
pk_column none pk_attr = ""
pk_column (some f) pk_attr = source_or f.source_field pk_attr

unfoldable pub make_meta : Bool → String → Collected → NewMeta
make_meta abstract pk_attr c = record {
  collected = c;
  pk_attr = pk_attr;
  pk = lookup pk_attr c.fields_map;
  db_pk_column = pk_column (lookup pk_attr c.fields_map) pk_attr;
  abstract = abstract || is_empty c.fields_map;
}

-- `ModelMeta.__new__` with the name, the bases and the attributes of the class, and the `abstract`
-- of its `Meta`
unfoldable pub new_model : String → Bool → ClassTrees → Dict ClassAttribute → Result NewMeta
new_model name abstract bases attrs = do
  (attrs', pk_attr) ← choose_pk name abstract (with_inherited (search_all bases []) attrs)
  ok (make_meta abstract pk_attr (collect attrs' no_fields))
