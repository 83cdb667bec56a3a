-- ===== src/MetaInfo/FromDb/Whole.antt =====
-- A row with every column: the object that `Model._init_from_db` of tortoise/models.py makes of it.
use tortoise_orm_zh_cn.Base.{
  ◌≡◌, refl, ap, sym, ◌∙◌, Bool, true, false, not, String, List, [], ◌∷◌, Option, none, some, arith,
  All, Bool-cases, inl, inr, contains,
}
use tortoise_orm_zh_cn.Base.Dict.{Dict, lookup}
use tortoise_orm_zh_cn.Base.Errors.{Result, ok, err, ◌>>=◌, key_error}
use tortoise_orm_zh_cn.Executor.Update.{get_or}
use tortoise_orm_zh_cn.Fields.{convert_value}
use tortoise_orm_zh_cn.Models.{Attributes, Instance}
use tortoise_orm_zh_cn.MetaInfo.{
  Reader, DbField, DbFields, to_python_value, to_set, values_of, reverse_onto, generate_db_fields,
  Conversion, natively, by_type, by_field, conversion_of,
}
use tortoise_orm_zh_cn.MetaInfo.FromDb.{
  Progress, read_natively, read_by_type, read_row, finish, from_db, init_from_db,
}
use tortoise_orm_zh_cn.MetaInfo.Sorted.{
  AtColumn, AtColumn-found, generate_onto-AllFields, AllFields-generate_onto, NamesOnce,
  lookup-reverse_onto,
}
use tortoise_orm_zh_cn.MetaInfo.FromDb.Loops.{Has, Given, read_row-Has}

-- What the classes of fields promise: a native column has values of the field's type, or such as
-- `to_python_value` leaves alone, and a type, called on one of its own values, returns it.
abbrev pub KeepsPromise : {V : Type 0} → Reader V → Option V → Type 0
KeepsPromise f value =
    (f.is_native_field_type ≡ true
      → f.default_converter ≡ true
      → convert_value f.is_type f.field_type value ≡ ok value)
    × (f.is_native_field_type ≡ true
        → f.skip_to_python_if_native ≡ true
        → f.default_converter ≡ false
        → f.own_to_python_value value ≡ ok value)
    × ((v : _) → f.is_type v ≡ true → f.field_type v ≡ ok v)

-- The name of a column and what `to_python_value` of its field gives for its value
unfoldable pub name_and_value :
    {V : Type 0}
    → Dict String
    → Dict (Reader V)
    → Dict (Option V)
    → String
    → Result (String × Option V)
name_and_value reversed fields_map row key = do
  name ← get_or key_error key reversed
  field ← get_or key_error name fields_map
  value ← get_or key_error key row
  v ← to_python_value field value
  ok (name, v)

read-converted :
    {V : Type 0} (f : Reader V) (value w : Option V)
    → f.default_converter ≡ true
    → to_python_value f value ≡ ok w
    → convert_value f.is_type f.field_type value ≡ ok w
unfolding to_python_value
read-converted f value w d h = ground arith

native-to_python :
    {V : Type 0} (f : Reader V) (value w : Option V)
    → KeepsPromise f value
    → conversion_of f ≡ natively
    → to_python_value f value ≡ ok w
    → read_natively f value ≡ ok w
unfolding to_python_value conversion_of
native-to_python f value w (typed, own, same) c h = elim (Bool-cases f.default_converter) [
  | inl d ↦
      let n : f.is_native_field_type ≡ true = ground arith in
      sym (typed n d) ∙ read-converted f value w d h
  | inr d ↦ ground (arith, own)
]

default-to_python :
    {V : Type 0} (f : Reader V) (value w : Option V)
    → KeepsPromise f value
    → conversion_of f ≡ by_type
    → to_python_value f value ≡ ok w
    → read_by_type f value ≡ ok w
unfolding conversion_of
default-to_python f none w (typed, own, same) c h = read-converted f none w (ground arith) h
default-to_python f (some v) w (typed, own, same) c h =
    let e = read-converted f (some v) w (ground arith) h in ground (arith, same v)

finish_whole :
    {V : Type 0} (d : DbFields V) (fields_map : Dict (Reader V)) (custom : Bool)
    (row : Dict (Option V)) (p : Progress V)
    → p.raised ≡ none
    → finish d fields_map custom row p ≡ ok (from_db false custom p.attributes)
finish_whole d fields_map custom row p h = rw h refl

module _ {V : Type 0} (projection : Dict String) (fields_map : Dict (Reader V))
    (row : Dict (Option V)) where
  abbrev reversed : Dict String
  reversed = reverse_onto projection []

  abbrev value_or_none : Result (String × Option V) → Option V
  value_or_none (err e) = none
  value_or_none (ok (name, v)) = v

  -- The value of an attribute, by its name
  abbrev value_at : String → Option V
  value_at name = elim (lookup name projection) [
    | none ↦ none
    | some key ↦ value_or_none (name_and_value reversed fields_map row key)
  ]

  -- The column is in the row, with a value that its field accepts.
  abbrev pub IsReadable : String → Type 0
  IsReadable key =
      (name : String) × (field : Reader V) × (value v : Option V) × (lookup key reversed
        ≡ some name)
      × (lookup name fields_map ≡ some field)
      × (lookup key row ≡ some value)
      × (to_python_value field value ≡ ok v)
      × KeepsPromise field value

  -- The attribute of the column's field is what `to_python_value` of the field gives.
  abbrev pub ReadsAs : Attributes V → String → Type 0
  ReadsAs attributes key =
      (name : String) × (v : Option V) × (name_and_value reversed fields_map row key ≡ ok (name, v))
      × (lookup name attributes ≡ some v)

  abbrev convert : Conversion → Reader V → Option V → Result (Option V)
  convert natively = read_natively
  convert by_type = read_by_type
  convert by_field = to_python_value

  abbrev IsGiven : Conversion → DbField V → Type 0
  IsGiven k = Given value_at (convert k) row

  abbrev HasValue : Attributes V → Conversion → DbField V → Type 0
  HasValue attributes k c = Has value_at attributes c.model_field

  convert-to_python :
      (field : Reader V) (value v : Option V)
      → KeepsPromise field value
      → to_python_value field value ≡ ok v
      → convert (conversion_of field) field value ≡ ok v
  convert-to_python field value v promise h = go (conversion_of field) refl
    where
      go : (k : Conversion) → conversion_of field ≡ k → convert k field value ≡ ok v
      go natively e = native-to_python field value v promise e h
      go by_type e = default-to_python field value v promise e h
      go by_field e = h

  value_at-readable :
      NamesOnce projection
      → (key name : String) (v : Option V) → lookup key reversed ≡ some name
      → name_and_value reversed fields_map row key ≡ ok (name, v)
      → value_at name ≡ v
  value_at-readable once key name v h g = elim (lookup-reverse_onto projection [] key name once h) [
    | inl e ↦ absurd (ground arith)
    | inr e ↦ rw (value_at, e, g) refl
  ]

  name_and_value-readable :
      (key : String) (r : IsReadable key)
      → name_and_value reversed fields_map row key ≡ ok (r.0, r.3)
  unfolding name_and_value
  name_and_value-readable key (name, field, value, v, n, f, found, reads, promise) = ground arith

  IsGiven-readable :
      NamesOnce projection
      → (ks : List String) → All IsReadable ks
      → All (AtColumn reversed fields_map IsGiven) ks
  IsGiven-readable once [] h = tt
  IsGiven-readable once (key ∷ ks) (here, h) =
      let (name, field, value, v, n, f, found, reads, promise) = here in
      let same = value_at-readable once key name v n (name_and_value-readable key here) in
      (
        AtColumn-found reversed fields_map IsGiven key name field n f
            (value, found, convert-to_python field value v promise reads ∙ ap ok (sym same)),
        IsGiven-readable once ks h,
      )

  ReadsAs-HasValue :
      NamesOnce projection
      → (attributes : Attributes V) (ks : List String) → All IsReadable ks
      → All (AtColumn reversed fields_map (HasValue attributes)) ks
      → All (ReadsAs attributes) ks
  ReadsAs-HasValue once attributes [] h has = tt
  ReadsAs-HasValue once attributes (key ∷ ks) (here, h) (at, has) =
      let (name, field, value, v, n, f, found, reads, promise) = here in
      let named = name_and_value-readable key here in
      (
        (name, v, named, at name field n f ∙ ap some (value_at-readable once key name v n named)),
        ReadsAs-HasValue once attributes ks h has,
      )

  -- Where every column of a model is in the row with a value that its field accepts, and the fields
  -- keep the promises of their classes, the three loops of `_init_from_db` over native, default and
  -- other fields give a whole object, and each attribute has the value that `to_python_value` of its
  -- field gives for its column.
  pub init_from_db-to_python_value :
      (d : DbFields V) (db_pk_column : String) (generated_db_fields : List String)
      → NamesOnce projection
      → generate_db_fields projection fields_map ≡ ok d
      → All IsReadable (to_set (values_of projection))
      → (object : Instance V) × (init_from_db d fields_map db_pk_column generated_db_fields row
          ≡ ok object)
        × (object.partial ≡ false)
        × All (ReadsAs object.attributes) (to_set (values_of projection))
  unfolding generate_db_fields init_from_db
  init_from_db-to_python_value d db_pk_column generated_db_fields once made readable =
      let columns = to_set (values_of projection) in
      let (native, default, complex) =
        generate_onto-AllFields reversed fields_map IsGiven columns _ d made (tt, tt, tt)
          (IsGiven-readable once columns readable) in
      let (raised, has1, has2, has3) = read_row-Has value_at d row native default complex in
      let after = (read_row d row).attributes in
      let (none_left, at) =
        AllFields-generate_onto reversed fields_map (HasValue after) columns _ d made
          (has1, has2, has3) in
      (
        from_db false (not (contains db_pk_column generated_db_fields)) after,
        finish_whole d fields_map (not (contains db_pk_column generated_db_fields)) row
            (read_row d row) raised,
        refl,
        ReadsAs-HasValue once after columns readable at,
      )
