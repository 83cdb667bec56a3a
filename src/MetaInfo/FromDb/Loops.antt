-- ===== src/MetaInfo/FromDb/Loops.antt =====
-- The loops of `_init_from_db` of tortoise/models.py over a row that has their columns.
use tortoise_orm_zh_cn.Base.{
  ◌≡◌, refl, ap, sym, true, String, List, [], ◌∷◌, Option, none, some, ◌==◌, eq_iff, arith, All,
  Bool-cases, inl, inr, ◌⊎◌,
}
use mathlib.Core.Path.{subst}
use tortoise_orm_zh_cn.Base.Dict.{Dict, lookup, insert, lookup-insert}
use tortoise_orm_zh_cn.Base.Errors.{Result, ok}
use tortoise_orm_zh_cn.Models.{Attributes}
use tortoise_orm_zh_cn.MetaInfo.{Reader, DbField, DbFields, to_python_value}
use tortoise_orm_zh_cn.MetaInfo.FromDb.{
  Progress, read_columns, read_natively, read_by_type, read_row,
}

module _ {V : Type 0} (value_at : String → Option V) where
  -- The attribute has its value.
  abbrev pub Has : Attributes V → String → Type 0
  Has attributes name = lookup name attributes ≡ some (value_at name)

  Has-insert :
      (attributes : Attributes V) (m n : String)
      → (Has attributes n ⊎ ((m == n) ≡ true))
      → Has (insert m (value_at m) attributes) n
  Has-insert attributes m n h = elim (Bool-cases (m == n)) [
    | inl e ↦
        ground (arith, lookup-insert m n (value_at m) attributes, ap value_at ((eq_iff m n).0 e))
    | inr e ↦ ground (arith, lookup-insert m n (value_at m) attributes)
  ]

  -- A column that is in the row, with a value for which its conversion gives that of its name
  abbrev pub Given :
      (Reader V → Option V → Result (Option V)) → Dict (Option V) → DbField V → Type 0
  Given convert row c =
      (value : Option V) × (lookup c.key row ≡ some value)
      × (convert c.field value ≡ ok (value_at c.model_field))

  abbrev Keeps : Attributes V → Attributes V → Type 0
  Keeps before after = (n : String) → Has before n → Has after n

  round :
      (convert : Reader V → Option V → Result (Option V)) (c : DbField V) (cs : List (DbField V))
      (row : Dict (Option V)) (attributes : Attributes V) (inited_keys : List String)
      → Given convert row c
      → read_columns convert (c ∷ cs) row attributes inited_keys
        ≡ read_columns convert cs row
            (insert c.model_field (value_at c.model_field) attributes)
            (c.key ∷ inited_keys)
  unfolding read_columns
  round convert c cs row attributes inited_keys (value, found, converts) =
      rw (found, read_columns, converts) refl

  -- What a loop leaves behind
  abbrev Done : Attributes V → List (DbField V) → Progress V → Type 0
  Done attributes cs p =
      (p.raised ≡ none)
      × Keeps attributes p.attributes
      × All (λ c. Has p.attributes c.model_field) cs

  -- A loop sets every attribute and keeps those that have their value.
  loop :
      (convert : Reader V → Option V → Result (Option V)) (cs : List (DbField V))
      (row : Dict (Option V)) (attributes : Attributes V) (inited_keys : List String)
      → All (Given convert row) cs
      → Done attributes cs (read_columns convert cs row attributes inited_keys)
  unfolding read_columns
  loop convert [] row attributes inited_keys h = (refl, λ n g. g, tt)
  loop convert (c ∷ cs) row attributes inited_keys (here, h) =
      let now = insert c.model_field (value_at c.model_field) attributes in
      let (raised, keeps, has) = loop convert cs row now (c.key ∷ inited_keys) h in
      subst (Done attributes (c ∷ cs)) (sym (round convert c cs row attributes inited_keys here)) (
        raised,
        λ n g. keeps n (Has-insert attributes c.model_field n (inl g)),
        (
          keeps c.model_field (
              Has-insert attributes c.model_field c.model_field
                (inr ((eq_iff c.model_field c.model_field).1 refl))),
          has,
        ),
      )

  Keeps-All :
      (a b : Attributes V) (cs : List (DbField V))
      → Keeps a b
      → All (λ c. Has a c.model_field) cs
      → All (λ c. Has b c.model_field) cs
  Keeps-All a b [] k h = tt
  Keeps-All a b (c ∷ cs) k (here, h) = (k c.model_field here, Keeps-All a b cs k h)

  -- The three loops set every attribute.
  pub read_row-Has :
      (d : DbFields V) (row : Dict (Option V))
      → All (Given read_natively row) d.db_native_fields
      → All (Given read_by_type row) d.db_default_fields
      → All (Given to_python_value row) d.db_complex_fields
      → let p = read_row d row in
        (p.raised ≡ none)
        × All (λ c. Has p.attributes c.model_field) d.db_native_fields
        × All (λ c. Has p.attributes c.model_field) d.db_default_fields
        × All (λ c. Has p.attributes c.model_field) d.db_complex_fields
  read_row-Has d row native default complex =
      let p1 = read_columns read_natively d.db_native_fields row [] [] in
      let (raised1, keeps1, has1) = loop read_natively d.db_native_fields row [] [] native in
      let p2 = read_columns read_by_type d.db_default_fields row p1.attributes p1.inited_keys in
      let (raised2, keeps2, has2) =
        loop read_by_type d.db_default_fields row p1.attributes p1.inited_keys default in
      let p3 = read_columns to_python_value d.db_complex_fields row p2.attributes p2.inited_keys in
      let (raised3, keeps3, has3) =
        loop to_python_value d.db_complex_fields row p2.attributes p2.inited_keys complex in
      rw (raised1, raised2)
        (
          raised3,
          Keeps-All p1.attributes p3.attributes d.db_native_fields (λ n g. keeps3 n (keeps2 n g))
              has1,
          Keeps-All p2.attributes p3.attributes d.db_default_fields keeps3 has2,
          has3,
        )
