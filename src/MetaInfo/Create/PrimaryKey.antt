-- ===== src/MetaInfo/Create/PrimaryKey.antt =====
-- The primary key of a class that `ModelMeta.__new__` of tortoise/models.py makes.
use tortoise_orm_zh_cn.Base.{
  ◌≡◌, refl, ap, sym, ◌∙◌, Bool, true, false, String, [], ◌∷◌, Option, none, some, ◌==◌, eq_iff,
  arith, Bool-cases, Option-cases, inl, inr,
}
use mathlib.Core.Path.{subst}
use tortoise_orm_zh_cn.Base.Dict.{Dict, lookup}
use tortoise_orm_zh_cn.Base.Errors.{ok, >>=-eq-ok, Result-cases}
use tortoise_orm_zh_cn.Joins.{source_or}
use tortoise_orm_zh_cn.MetaInfo.Sorted.{NamesOnce}
use tortoise_orm_zh_cn.MetaInfo.Create.{
  ClassField, ClassAttribute, field, manager, other, ClassTrees, search_all, with_inherited,
  find_pk, ensure_pk, choose_pk, collect, make_meta, new_model, default_id, NewMeta, no_fields,
}
use tortoise_orm_zh_cn.MetaInfo.Create.Names.{with_inherited-NamesOnce, lookup-collect, field_or}

-- No attribute is a primary key.
abbrev NoPk : Dict ClassAttribute → Type 0
NoPk attrs = (k : String) (f : ClassField) → lookup k attrs ≡ some (field f) → f.pk ≡ false

-- One attribute, and no other, is a primary key.
abbrev IsOnlyPk : Dict ClassAttribute → String → Type 0
IsOnlyPk attrs pk_attr =
    (f : ClassField) × (lookup pk_attr attrs ≡ some (field f))
    × (f.pk ≡ true)
    × ((k : String) (g : ClassField) → lookup k attrs ≡ some (field g) → g.pk ≡ true → k ≡ pk_attr)

-- What the loop has found
abbrev Found : Dict ClassAttribute → Bool → String → Bool × String → Type 0
Found attrs true pk_attr (present, result) = (present ≡ true) × (result ≡ pk_attr) × NoPk attrs
Found attrs false pk_attr (true, result) = IsOnlyPk attrs result
Found attrs false pk_attr (false, result) = (result ≡ pk_attr) × NoPk attrs

NoPk-cons :
    (j : String) (a : ClassAttribute) (attrs : Dict ClassAttribute)
    → ((f : ClassField) → a ≡ field f → f.pk ≡ false)
    → NoPk attrs
    → NoPk ((j, a) ∷ attrs)
NoPk-cons j a attrs h free k f found = elim (Bool-cases (j == k)) [
  | inl e ↦ h f (ground arith)
  | inr e ↦ free k f (ground arith)
]

IsOnlyPk-cons :
    (j : String) (a : ClassAttribute) (attrs : Dict ClassAttribute) (pk_attr : String)
    → ((f : ClassField) → a ≡ field f → f.pk ≡ false)
    → lookup j attrs ≡ none
    → IsOnlyPk attrs pk_attr
    → IsOnlyPk ((j, a) ∷ attrs) pk_attr
IsOnlyPk-cons j a attrs pk_attr h new (f, found, is_pk, only) = (
  f,
  elim (Bool-cases (j == pk_attr)) [
    | inl e ↦
        let absent = ap (λ q. lookup q attrs) ((eq_iff j pk_attr).0 e) in absurd (ground arith)
    | inr e ↦ ground arith
  ],
  is_pk,
  λ k g there g_pk. elim (Bool-cases (j == k)) [
    | inl e ↦ let never = h g (ground arith) in absurd (ground arith)
    | inr e ↦ only k g (ground arith) g_pk
  ],
)

IsOnlyPk-here :
    (j : String) (f : ClassField) (attrs : Dict ClassAttribute)
    → f.pk ≡ true
    → NoPk attrs
    → IsOnlyPk ((j, field f) ∷ attrs) j
IsOnlyPk-here j f attrs is_pk free = (
  f,
  ground (arith, eq_iff j j),
  is_pk,
  λ k g there g_pk. elim (Bool-cases (j == k)) [
    | inl e ↦ sym ((eq_iff j k).0 e)
    | inr e ↦ let not_pk = free k g (ground arith) in absurd (ground arith)
  ],
)

Found-cons :
    (j : String) (a : ClassAttribute) (attrs : Dict ClassAttribute) (present : Bool)
    (pk_attr : String) (r : Bool × String)
    → ((f : ClassField) → a ≡ field f → f.pk ≡ false)
    → lookup j attrs ≡ none
    → Found attrs present pk_attr r
    → Found ((j, a) ∷ attrs) present pk_attr r
Found-cons j a attrs true pk_attr r h new (p, e, free) = (p, e, NoPk-cons j a attrs h free)
Found-cons j a attrs false pk_attr (true, result) h new only =
    IsOnlyPk-cons j a attrs result h new only
Found-cons j a attrs false pk_attr (false, result) h new (e, free) = (e, NoPk-cons j a attrs h free)

Found-here :
    (j : String) (f : ClassField) (attrs : Dict ClassAttribute) (pk_attr : String)
    (r : Bool × String)
    → f.pk ≡ true
    → Found attrs true j r
    → Found ((j, field f) ∷ attrs) false pk_attr r
Found-here j f attrs pk_attr (true, result) is_pk (p, e, free) =
    subst (IsOnlyPk ((j, field f) ∷ attrs)) (sym e) (IsOnlyPk-here j f attrs is_pk free)
Found-here j f attrs pk_attr (false, result) is_pk (p, e, free) = absurd (ground arith)

find_pk-Found :
    (attrs : Dict ClassAttribute) (present : Bool) (pk_attr : String) (r : Bool × String)
    → NamesOnce attrs
    → find_pk attrs present pk_attr ≡ ok r
    → Found attrs present pk_attr r
unfolding find_pk
find_pk-Found [] true pk_attr (p, result) once h =
    (ground arith, ground arith, λ k f g. absurd (ground arith))
find_pk-Found [] false pk_attr (true, result) once h = absurd (ground arith)
find_pk-Found [] false pk_attr (false, result) once h =
    (ground arith, λ k f g. absurd (ground arith))
find_pk-Found ((j, field f) ∷ attrs) true pk_attr r (new, once) h = elim (Bool-cases f.pk) [
  | inl e ↦ absurd (ground arith)
  | inr e ↦
      Found-cons j (field f) attrs true pk_attr r (λ g s. ground arith) new
        (find_pk-Found attrs true pk_attr r once (ground arith))
]
find_pk-Found ((j, field f) ∷ attrs) false pk_attr r (new, once) h = elim (Bool-cases f.pk) [
  | inl e ↦ Found-here j f attrs pk_attr r e (find_pk-Found attrs true j r once (ground arith))
  | inr e ↦
      Found-cons j (field f) attrs false pk_attr r (λ g s. ground arith) new
        (find_pk-Found attrs false pk_attr r once (ground arith))
]
find_pk-Found ((j, manager) ∷ attrs) present pk_attr r (new, once) h =
    Found-cons j manager attrs present pk_attr r (λ g s. absurd (ground arith)) new
      (find_pk-Found attrs present pk_attr r once h)
find_pk-Found ((j, other) ∷ attrs) present pk_attr r (new, once) h =
    Found-cons j other attrs present pk_attr r (λ g s. absurd (ground arith)) new
      (find_pk-Found attrs present pk_attr r once h)

-- `id` is added, or is a primary key already.
ensure_pk-IsOnlyPk :
    (attrs attrs' : Dict ClassAttribute)
    → NoPk attrs
    → ensure_pk false false attrs ≡ ok attrs'
    → NamesOnce attrs
    → IsOnlyPk attrs' "id" × NamesOnce attrs'
unfolding ensure_pk
ensure_pk-IsOnlyPk attrs attrs' free h once = elim (Option-cases (lookup "id" attrs)) [
  | inl e ↦
      let same : (("id", field default_id) ∷ attrs) ≡ attrs' = ground arith in
      subst (λ a. IsOnlyPk a "id" × NamesOnce a) same
        (IsOnlyPk-here "id" default_id attrs refl free, (e, once))
  | inr (a, e) ↦ absurd (go a e)
]
  where
    go : (a : ClassAttribute) → lookup "id" attrs ≡ some a → ⊥
    go (field f) e = let not_pk = free "id" f e in ground arith
    go manager e = ground arith
    go other e = ground arith

choose_pk-IsOnlyPk :
    (name : String) (attrs attrs' : Dict ClassAttribute) (pk_attr : String)
    → NamesOnce attrs
    → (name == "Model") ≡ false
    → choose_pk name false attrs ≡ ok (attrs', pk_attr)
    → IsOnlyPk attrs' pk_attr × NamesOnce attrs'
unfolding choose_pk ensure_pk
choose_pk-IsOnlyPk name attrs attrs' pk_attr once named h =
    elim (Result-cases (find_pk attrs false "id")) [
      | inr (e, failed) ↦ absurd (ground arith)
      | inl (found, e) ↦ go found e
    ]
  where
    go :
        (found : Bool × String)
        → find_pk attrs false "id" ≡ ok found
        → IsOnlyPk attrs' pk_attr × NamesOnce attrs'
    go (true, result) e =
        let same : attrs ≡ attrs' = ground arith in
        let key : result ≡ pk_attr = ground arith in
        subst (λ a. IsOnlyPk a pk_attr × NamesOnce a) same
          (subst (IsOnlyPk attrs) key (find_pk-Found attrs false "id" (true, result) once e), once)
    go (false, result) e =
        let (is_id, free) = find_pk-Found attrs false "id" (false, result) once e in
        let chosen : ensure_pk false false attrs ≡ ok attrs' = ground arith in
        let key : "id" ≡ pk_attr = ground arith in
        subst (λ k. IsOnlyPk attrs' k × NamesOnce attrs') key
          (ensure_pk-IsOnlyPk attrs attrs' free chosen once)

abbrev pub HasOnePk : NewMeta → Type 0
HasOnePk meta =
    (f : ClassField) × (meta.pk ≡ some f)
    × (lookup meta.pk_attr meta.collected.fields_map ≡ some f)
    × (f.pk ≡ true)
    × (meta.db_pk_column ≡ source_or f.source_field meta.pk_attr)
    × ((key : String) (g : ClassField)
        → lookup key meta.collected.fields_map ≡ some g
        → g.pk ≡ true
        → key ≡ meta.pk_attr)

field_or-none :
    (a : Option ClassAttribute) (g : ClassField) → field_or a none ≡ some g → a ≡ some (field g)
field_or-none none g h = absurd (ground arith)
field_or-none (some (field f)) g h = ground arith
field_or-none (some manager) g h = absurd (ground arith)
field_or-none (some other) g h = absurd (ground arith)

make_meta-HasOnePk :
    (attrs : Dict ClassAttribute) (pk_attr : String)
    → IsOnlyPk attrs pk_attr
    → NamesOnce attrs
    → HasOnePk (make_meta false pk_attr (collect attrs no_fields))
unfolding make_meta
make_meta-HasOnePk attrs pk_attr (f, found, is_pk, only) once =
    let there = lookup-collect pk_attr attrs no_fields once ∙ ap (λ a. field_or a none) found in
    (
      f,
      there,
      there,
      is_pk,
      rw there refl,
      λ k g h g_pk.
          only k g
            (field_or-none (lookup k attrs) g (sym (lookup-collect k attrs no_fields once) ∙ h))
            g_pk,
    )

-- A model that is made without being abstract, under another name than `Model`, has exactly one
-- primary key: its field stands under `pk_attr`, no other field is one, and `db_pk_column` is its
-- column.
pub new_model-pk :
    (name : String) (bases : ClassTrees) (attrs : Dict ClassAttribute) (meta : NewMeta)
    → NamesOnce attrs
    → (name == "Model") ≡ false
    → new_model name false bases attrs ≡ ok meta
    → HasOnePk meta
unfolding new_model
new_model-pk name bases attrs meta once named h =
    let all = with_inherited (search_all bases []) attrs in
    let ((attrs', pk_attr), chosen, made) = >>=-eq-ok (choose_pk name false all) _ h in
    let (only, once') =
      choose_pk-IsOnlyPk name all attrs' pk_attr (with_inherited-NamesOnce bases attrs once) named
        chosen in
    let same : make_meta false pk_attr (collect attrs' no_fields) ≡ meta = ground arith in
    subst HasOnePk same (make_meta-HasOnePk attrs' pk_attr only once')
