-- ===== src/MetaInfo/Create/Names.antt =====
-- The attributes of a class as a dict, and its fields by their names.
use tortoise_orm_zh_cn.Base.{
  ◌≡◌, refl, ap, ◌∙◌, Bool, not, ◌&&◌, String, [], ◌∷◌, Option, none, some, ◌==◌, eq_iff, arith,
  Bool-cases, inl, inr,
}
use tortoise_orm_zh_cn.Base.Dict.{Dict, lookup, insert, lookup-insert, update, has_key}
use tortoise_orm_zh_cn.MetaInfo.Sorted.{NamesOnce}
use tortoise_orm_zh_cn.MetaInfo.Create.{
  ClassField, FieldClass, ClassAttribute, field, manager, other, ClassTree, ClassTrees, nil, cons,
  class_of, add_fields, add_missing, search, search_all, with_inherited, Collected, collect,
  collect_by_class, is_manager, is_field,
}

pub insert-NamesOnce :
    {A : Type 0} (k : String) (v : A) (d : Dict A) → NamesOnce d → NamesOnce (insert k v d)
insert-NamesOnce k v [] h = (refl, tt)
insert-NamesOnce k v ((j, w) ∷ d) (new, once) = elim (Bool-cases (j == k)) [
  | inl e ↦ rw e (new, once)
  | inr e ↦
      rw e
        (ground (arith, lookup-insert k j v d, eq_iff k j, eq_iff j k), insert-NamesOnce k v d once)
]

pub update-NamesOnce : {A : Type 0} (d e : Dict A) → NamesOnce d → NamesOnce (update d e)
update-NamesOnce d [] h = h
update-NamesOnce d ((k, v) ∷ e) h = update-NamesOnce (insert k v d) e (insert-NamesOnce k v d h)

add_fields-NamesOnce :
    (m : Dict ClassField) (attrs : Dict ClassAttribute)
    → NamesOnce attrs
    → NamesOnce (add_fields m attrs)
add_fields-NamesOnce [] attrs h = h
add_fields-NamesOnce ((k, f) ∷ m) attrs h =
    add_fields-NamesOnce m (insert k (field f) attrs) (insert-NamesOnce k (field f) attrs h)

add_missing-NamesOnce :
    (wanted : ClassAttribute → Bool) (dict attrs : Dict ClassAttribute)
    → NamesOnce attrs
    → NamesOnce (add_missing wanted dict attrs)
add_missing-NamesOnce wanted [] attrs h = h
add_missing-NamesOnce wanted ((k, v) ∷ dict) attrs h =
    elim (Bool-cases (wanted v && not (has_key k attrs))) [
      | inl e ↦
          rw e (add_missing-NamesOnce wanted dict (insert k v attrs) (insert-NamesOnce k v attrs h))
      | inr e ↦ rw e (add_missing-NamesOnce wanted dict attrs h)
    ]

mutual
  unfolding search search_all

  search-NamesOnce :
      (c : ClassTree) (attrs : Dict ClassAttribute) → NamesOnce attrs → NamesOnce (search c attrs)
  search-NamesOnce (class_of parents (some m) dict) attrs h =
      add_missing-NamesOnce is_manager dict _
        (add_fields-NamesOnce m _ (search_all-NamesOnce parents attrs h))
  search-NamesOnce (class_of parents none dict) attrs h =
      add_missing-NamesOnce is_field dict _ (search_all-NamesOnce parents attrs h)

  search_all-NamesOnce :
      (cs : ClassTrees) (attrs : Dict ClassAttribute)
      → NamesOnce attrs
      → NamesOnce (search_all cs attrs)
  search_all-NamesOnce nil attrs h = h
  search_all-NamesOnce (cons c cs) attrs h =
      search_all-NamesOnce cs (search c attrs) (search-NamesOnce c attrs h)

-- A class has each attribute once, the inherited ones included.
pub with_inherited-NamesOnce :
    (bases : ClassTrees) (attrs : Dict ClassAttribute)
    → NamesOnce attrs
    → NamesOnce (with_inherited (search_all bases []) attrs)
with_inherited-NamesOnce bases attrs h = go (search_all bases []) (search_all-NamesOnce bases [] tt)
  where
    go :
        (inherited : Dict ClassAttribute)
        → NamesOnce inherited
        → NamesOnce (with_inherited inherited attrs)
    go [] g = h
    go (a ∷ inherited) g = update-NamesOnce (a ∷ inherited) attrs g

-- The field that an attribute is, or else another
abbrev pub field_or : Option ClassAttribute → Option ClassField → Option ClassField
field_or none o = o
field_or (some (field f)) o = some f
field_or (some manager) o = o
field_or (some other) o = o

pub lookup-update :
    {A : Type 0} (k : String) (d e : Dict A)
    → NamesOnce e
    → lookup k (update d e) ≡ elim (lookup k e) [ none ↦ lookup k d | some v ↦ some v ]
lookup-update k d [] h = refl
lookup-update k d ((j, v) ∷ e) (new, once) = elim (Bool-cases (j == k)) [
  | inl g ↦ ground (
    arith,
    lookup-update k (insert j v d) e once,
    lookup-insert j k v d,
    ap (λ q. lookup q e) ((eq_iff j k).0 g),
  )
  | inr g ↦ ground (arith, lookup-update k (insert j v d) e once, lookup-insert j k v d)
]

fields_map-collect_by_class :
    (s : FieldClass) (k : String) (f : ClassField) (c : Collected)
    → (collect_by_class s k f c).fields_map ≡ c.fields_map
fields_map-collect_by_class s k f c = ground arith

-- The fields of a class are those of its attributes that are fields.
pub lookup-collect :
    (k : String) (attrs : Dict ClassAttribute) (c : Collected)
    → NamesOnce attrs
    → lookup k (collect attrs c).fields_map ≡ field_or (lookup k attrs) (lookup k c.fields_map)
unfolding collect
lookup-collect k [] c h = refl
lookup-collect k ((j, field f) ∷ attrs) c (new, once) =
    let next = record c { fields_map = insert j f c.fields_map } in
    let rest = lookup-collect k attrs (collect_by_class f.field_class j f next) once in
    let same = fields_map-collect_by_class f.field_class j f next in
    let changed = lookup-insert j k f c.fields_map in
    elim (Bool-cases (j == k)) [
      | inl g ↦
          let absent = ap (λ q. lookup q attrs) ((eq_iff j k).0 g) in
          rest ∙ rw (same, g) (ground (arith, changed, absent))
      | inr g ↦ rest ∙ rw (same, g) (ground (arith, changed))
    ]
lookup-collect k ((j, manager) ∷ attrs) c (new, once) = elim (Bool-cases (j == k)) [
  | inl g ↦
      ground (arith, lookup-collect k attrs c once, ap (λ q. lookup q attrs) ((eq_iff j k).0 g))
  | inr g ↦ ground (arith, lookup-collect k attrs c once)
]
lookup-collect k ((j, other) ∷ attrs) c (new, once) = elim (Bool-cases (j == k)) [
  | inl g ↦
      ground (arith, lookup-collect k attrs c once, ap (λ q. lookup q attrs) ((eq_iff j k).0 g))
  | inr g ↦ ground (arith, lookup-collect k attrs c once)
]
