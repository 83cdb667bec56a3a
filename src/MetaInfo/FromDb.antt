-- ===== src/MetaInfo/FromDb.antt =====
-- `Model._init_from_db` of tortoise/models.py: an object from a row. Native columns are taken as
-- they are, default ones are converted without a call, and for the others the field is called; a
-- row that lacks a column gives a partial object, whose values go by the names of the fields.
pub mod Loops
pub mod Whole
use tortoise_orm_zh_cn.Base.{
  ◌≡◌, Bool, true, false, not, ◌&&◌, ◌||◌, String, List, [], ◌∷◌, ◌++◌, Option, none, some,
  contains, if◌then◌else◌, map,
}
use tortoise_orm_zh_cn.Base.Dict.{Dict, insert, lookup}
use tortoise_orm_zh_cn.Base.Errors.{Error, Result, ok, err, ◌>>=◌, key_error}
use tortoise_orm_zh_cn.Models.{Attributes, Instance}
use tortoise_orm_zh_cn.MetaInfo.{Reader, DbField, DbFields, to_python_value}

-- `self`, so far, with `inited_keys`, and what was raised
pub record Progress (V : Type 0) : Type 0 where
  pub raised : Option Error
  pub attributes : Attributes V
  pub inited_keys : List String

module _ {V : Type 0} where
  abbrev pub read_natively : Reader V → Option V → Result (Option V)
  read_natively f value = ok value

  abbrev pub read_by_type : Reader V → Option V → Result (Option V)
  read_by_type f none = ok none
  read_by_type f (some value) = do v ← f.field_type value; ok (some v)

  -- One of the three loops of the `try`
  unfoldable pub read_columns :
      (Reader V → Option V → Result (Option V))
      → List (DbField V)
      → Dict (Option V)
      → Attributes V
      → List String
      → Progress V
  read_columns convert [] kwargs attributes inited_keys = record {
    raised = none;
    attributes = attributes;
    inited_keys = inited_keys;
  }
  read_columns convert (c ∷ cs) kwargs attributes inited_keys = elim (lookup c.key kwargs) [
    | none ↦ record { raised = some key_error; attributes = attributes; inited_keys = inited_keys }
    | some value ↦ elim (convert c.field value) [
      | err e ↦ record { raised = some e; attributes = attributes; inited_keys = inited_keys }
      | ok v ↦
          read_columns convert cs kwargs (insert c.model_field v attributes) (c.key ∷ inited_keys)
    ]
  ]

  abbrev and_then : Progress V → (Attributes V → List String → Progress V) → Progress V
  and_then p next = elim p.raised [ some e ↦ p | none ↦ next p.attributes p.inited_keys ]

  -- The `try`
  abbrev pub read_row : DbFields V → Dict (Option V) → Progress V
  read_row d kwargs =
      and_then
        (and_then (read_columns read_natively d.db_native_fields kwargs [] [])
          (λ a k. read_columns read_by_type d.db_default_fields kwargs a k))
        (λ a k. read_columns to_python_value d.db_complex_fields kwargs a k)

  -- A field is one of a list if its name is that of one of them.
  abbrev pub is_one_of : String → List (DbField V) → Bool
  is_one_of name cs = contains name (map (λ c. c.model_field) cs)

  -- The conversion of a value by the name of its field
  abbrev pub read_named : DbFields V → String → Reader V → Option V → Result (Option V)
  read_named d name field value =
      if is_one_of name d.db_native_fields
      then ok value
      else if is_one_of name d.db_default_fields
      then read_by_type field value
      else to_python_value field value

  -- The loop of the `except`
  unfoldable pub read_partial :
      DbFields V
      → Dict (Reader V)
      → List String
      → Dict (Option V)
      → Attributes V
      → Result (Attributes V)
  read_partial d fields_map inited_keys [] attributes = ok attributes
  read_partial d fields_map inited_keys ((key, value) ∷ kwargs) attributes =
      elim (if contains key inited_keys then none else lookup key fields_map) [
        | none ↦ read_partial d fields_map inited_keys kwargs attributes
        | some field ↦ do
          v ← read_named d key field value
          read_partial d fields_map inited_keys kwargs (insert key v attributes)
      ]

  abbrev pub from_db : Bool → Bool → Attributes V → Instance V
  from_db partial custom_generated_pk attributes = record {
    attributes = attributes;
    partial = partial;
    saved_in_db = true;
    custom_generated_pk = custom_generated_pk;
    await_when_save = [];
  }

  abbrev pub finish :
      DbFields V → Dict (Reader V) → Bool → Dict (Option V) → Progress V → Result (Instance V)
  finish d fields_map custom kwargs p = elim p.raised [
    | none ↦ ok (from_db false custom p.attributes)
    | some key_error ↦ do
      attributes ← read_partial d fields_map p.inited_keys kwargs p.attributes
      ok (from_db true custom attributes)
    | some e ↦ err e
  ]

  -- `_init_from_db`
  unfoldable pub init_from_db :
      DbFields V → Dict (Reader V) → String → List String → Dict (Option V) → Result (Instance V)
  init_from_db d fields_map db_pk_column generated_db_fields kwargs =
      finish d fields_map (not (contains db_pk_column generated_db_fields)) kwargs
        (read_row d kwargs)
