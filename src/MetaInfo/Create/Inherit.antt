-- ===== src/MetaInfo/Create/Inherit.antt =====
-- Which field a class inherits, of those that `__search_for_field_attributes` of tortoise/models.py
-- meets.
use tortoise_orm_zh_cn.Base.{
  ◌≡◌, refl, ap, ◌∙◌, Bool, false, not, ◌&&◌, ◌||◌, String, [], ◌∷◌, none, some, ◌==◌, eq_iff,
  if◌then◌else◌, arith, Bool-cases, Option-cases, inl, inr,
}
use mathlib.Core.Path.{subst}
use tortoise_orm_zh_cn.Base.Dict.{Dict, lookup, insert, lookup-insert, has_key}
use tortoise_orm_zh_cn.Base.Errors.{ok, >>=-eq-ok, Result-cases}
use tortoise_orm_zh_cn.MetaInfo.Sorted.{NamesOnce}
use tortoise_orm_zh_cn.MetaInfo.Create.{
  ClassField, ClassAttribute, field, ClassTree, ClassTrees, nil, cons, class_of, add_fields,
  add_missing, search, search_all, with_inherited, find_pk, ensure_pk, choose_pk, collect,
  make_meta, new_model, default_id, is_manager, NewMeta, no_fields,
}
use tortoise_orm_zh_cn.MetaInfo.Create.Names.{
  with_inherited-NamesOnce, lookup-collect, lookup-update, field_or,
}

-- The bases of a class, with one more at the end
abbrev pub with_last : ClassTrees → ClassTree → ClassTrees
with_last nil c = cons c nil
with_last (cons b bs) c = cons b (with_last bs c)

search_all-with_last :
    (bs : ClassTrees) (c : ClassTree) (attrs : Dict ClassAttribute)
    → search_all (with_last bs c) attrs ≡ search c (search_all bs attrs)
unfolding search_all
search_all-with_last nil c attrs = refl
search_all-with_last (cons b bs) c attrs = search_all-with_last bs c (search b attrs)

lookup-add_fields :
    (k : String) (m : Dict ClassField) (attrs : Dict ClassAttribute)
    → NamesOnce m
    → lookup k (add_fields m attrs)
      ≡ elim (lookup k m) [ none ↦ lookup k attrs | some f ↦ some (field f) ]
lookup-add_fields k [] attrs h = refl
lookup-add_fields k ((j, f) ∷ m) attrs (new, once) = elim (Bool-cases (j == k)) [
  | inl g ↦ ground (
    arith,
    lookup-add_fields k m (insert j (field f) attrs) once,
    lookup-insert j k (field f) attrs,
    ap (λ q. lookup q m) ((eq_iff j k).0 g),
  )
  | inr g ↦ ground (
    arith,
    lookup-add_fields k m (insert j (field f) attrs) once,
    lookup-insert j k (field f) attrs,
  )
]

-- An attribute that is there is not replaced.
lookup-add_missing :
    (wanted : ClassAttribute → Bool) (dict attrs : Dict ClassAttribute) (k : String)
    (a : ClassAttribute)
    → lookup k attrs ≡ some a
    → lookup k (add_missing wanted dict attrs) ≡ some a
lookup-add_missing wanted [] attrs k a h = h
lookup-add_missing wanted ((j, v) ∷ dict) attrs k a h =
    elim (Bool-cases (wanted v && not (has_key j attrs))) [
      | inl e ↦ rw e (
          lookup-add_missing wanted dict (insert j v attrs) k a (elim (Bool-cases (j == k)) [
            | inl g ↦
                let same = ap (λ q. lookup q attrs) ((eq_iff j k).0 g) in absurd (ground arith)
            | inr g ↦ ground (arith, lookup-insert j k v attrs)
          ]))
      | inr e ↦ rw e (lookup-add_missing wanted dict attrs k a h)
    ]

lookup-search_all :
    (bases parents : ClassTrees) (m : Dict ClassField) (dict attrs : Dict ClassAttribute)
    (k : String) (f : ClassField)
    → NamesOnce m
    → lookup k m ≡ some f
    → lookup k (search_all (with_last bases (class_of parents (some m) dict)) attrs)
      ≡ some (field f)
unfolding search
lookup-search_all bases parents m dict attrs k f once h =
    rw (search_all-with_last bases (class_of parents (some m) dict) attrs)
      (lookup-add_missing is_manager dict _ k (field f) (lookup-add_fields k m _ once ∙ rw h refl))

lookup-with_inherited :
    (inherited attrs : Dict ClassAttribute) (k : String) (a : ClassAttribute)
    → NamesOnce attrs
    → lookup k attrs ≡ none
    → lookup k inherited ≡ some a
    → lookup k (with_inherited inherited attrs) ≡ some a
lookup-with_inherited [] attrs k a once h g = absurd (ground arith)
lookup-with_inherited (i ∷ inherited) attrs k a once h g =
    lookup-update k (i ∷ inherited) attrs once ∙ rw (h, g) refl

-- A class keeps what it has, and each name once.
abbrev Kept : Dict ClassAttribute → String → ClassAttribute → Dict ClassAttribute → Type 0
Kept attrs k a attrs' = (lookup k attrs' ≡ some a) × NamesOnce attrs'

with_id :
    (attrs : Dict ClassAttribute) (k : String) (a : ClassAttribute)
    → NamesOnce attrs
    → lookup k attrs ≡ some a
    → Kept attrs k a (if has_key "id" attrs then attrs else ("id", field default_id) ∷ attrs)
with_id attrs k a once g = elim (Option-cases (lookup "id" attrs)) [
  | inr (v, e) ↦ rw e (g, once)
  | inl e ↦ rw e (
    elim (Bool-cases ("id" == k)) [
      | inl same ↦
          let there = ap (λ q. lookup q attrs) ((eq_iff "id" k).0 same) in absurd (ground arith)
      | inr same ↦ rw same g
    ],
    (e, once),
  )
]

ensure_pk-keeps :
    (abstract present : Bool) (attrs attrs' : Dict ClassAttribute) (k : String) (a : ClassAttribute)
    → ensure_pk abstract present attrs ≡ ok attrs'
    → NamesOnce attrs
    → lookup k attrs ≡ some a
    → Kept attrs k a attrs'
unfolding ensure_pk
ensure_pk-keeps abstract present attrs attrs' k a h once g =
    elim (Bool-cases (present || abstract)) [
      | inl e ↦ let same : attrs ≡ attrs' = ground arith in subst (Kept attrs k a) same (g, once)
      | inr e ↦
          let same : (if has_key "id" attrs then attrs else ("id", field default_id) ∷ attrs)
              ≡ attrs' =
            ground arith in
          subst (Kept attrs k a) same (with_id attrs k a once g)
    ]

choose_pk-keeps :
    (name : String) (abstract : Bool) (attrs attrs' : Dict ClassAttribute) (pk_attr k : String)
    (a : ClassAttribute)
    → choose_pk name abstract attrs ≡ ok (attrs', pk_attr)
    → NamesOnce attrs
    → lookup k attrs ≡ some a
    → Kept attrs k a attrs'
unfolding choose_pk
choose_pk-keeps name abstract attrs attrs' pk_attr k a h once g =
    elim (Bool-cases (name == "Model")) [
      | inl e ↦ let same : attrs ≡ attrs' = ground arith in subst (Kept attrs k a) same (g, once)
      | inr e ↦ elim (Result-cases (find_pk attrs false "id")) [
        | inr (_, failed) ↦ absurd (ground arith)
        | inl ((present, found), chosen) ↦
            ensure_pk-keeps abstract present attrs attrs' k a (ground arith) once g
      ]
    ]

-- Of several bases that are models the last one that has a field of some name wins: unless the class
-- has an attribute of that name itself, its field is the one of the last base, whatever the bases
-- before it have.
pub new_model-last_base :
    (name : String) (abstract : Bool) (bases parents : ClassTrees) (m : Dict ClassField)
    (dict attrs : Dict ClassAttribute) (meta : NewMeta) (k : String) (f : ClassField)
    → NamesOnce attrs
    → NamesOnce m
    → lookup k m ≡ some f
    → lookup k attrs ≡ none
    → new_model name abstract (with_last bases (class_of parents (some m) dict)) attrs ≡ ok meta
    → lookup k meta.collected.fields_map ≡ some f
unfolding new_model make_meta
new_model-last_base name abstract bases parents m dict attrs meta k f once m_once h own made =
    let all_bases = with_last bases (class_of parents (some m) dict) in
    let all = with_inherited (search_all all_bases []) attrs in
    let there =
      lookup-with_inherited (search_all all_bases []) attrs k (field f) once own
        (lookup-search_all bases parents m dict [] k f m_once h) in
    let ((attrs', pk_attr), chosen, end) = >>=-eq-ok (choose_pk name abstract all) _ made in
    let (kept, once') =
      choose_pk-keeps name abstract all attrs' pk_attr k (field f) chosen
        (with_inherited-NamesOnce all_bases attrs once) there in
    let same : make_meta abstract pk_attr (collect attrs' no_fields) ≡ meta = ground arith in
    subst (λ x. lookup k x.collected.fields_map ≡ some f) same
      (lookup-collect k attrs' no_fields once' ∙ ap (λ x. field_or x none) kept)
