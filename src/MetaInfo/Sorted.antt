-- ===== src/MetaInfo/Sorted.antt =====
-- The lists that `_generate_db_fields` of tortoise/models.py sorts the columns into, and the
-- projection of names to columns with its reverse.
use tortoise_orm_zh_cn.Base.{
  ◌≡◌, ap, sym, String, List, [], ◌∷◌, ◌++◌, none, some, ◌==◌, eq_iff, arith, All, Bool-cases,
  Option-cases, inl, inr, ◌⊎◌, ◌↔◌,
}
use mathlib.Core.Path.{subst}
use tortoise_orm_zh_cn.Base.Dict.{Dict, lookup, insert, lookup-insert}
use tortoise_orm_zh_cn.Base.Errors.{ok}
use tortoise_orm_zh_cn.MetaInfo.{
  Reader, DbField, DbFields, reverse_onto, generate_onto, append_to, Conversion, natively, by_type,
  by_field, conversion_of,
}

All-snoc :
    {A : Type 0} (P : A → Type 0) (xs : List A) (x : A) → All P (xs ++ x ∷ []) ↔ (All P xs × P x)
All-snoc P [] x = (λ h. (tt, h.0), λ h. (h.1, tt))
All-snoc P (y ∷ xs) x = (
  λ h. let (a, b) = (All-snoc P xs x).0 h.1 in ((h.0, a), b),
  λ h. (h.0.0, (All-snoc P xs x).1 (h.0.1, h.1)),
)

-- Something that holds of every field in its list
abbrev pub AllFields : {V : Type 0} → (Conversion → DbField V → Type 0) → DbFields V → Type 0
AllFields P d =
    All (P natively) d.db_native_fields
    × All (P by_type) d.db_default_fields
    × All (P by_field) d.db_complex_fields

AllFields-append_to :
    {V : Type 0} (P : Conversion → DbField V → Type 0) (k : Conversion) (c : DbField V)
    (d : DbFields V)
    → AllFields P (append_to k c d) ↔ (AllFields P d × P k c)
AllFields-append_to P natively c d =
    let (to, from) = All-snoc (P natively) d.db_native_fields c in
    (λ (h, g, k). (((to h).0, g, k), (to h).1), λ ((h, g, k), p). (from (h, p), g, k))
AllFields-append_to P by_type c d =
    let (to, from) = All-snoc (P by_type) d.db_default_fields c in
    (λ (n, h, g). ((n, (to h).0, g), (to h).1), λ ((n, h, g), p). (n, from (h, p), g))
AllFields-append_to P by_field c d =
    let (to, from) = All-snoc (P by_field) d.db_complex_fields c in
    (λ (n, h, g). ((n, h, (to g).0), (to g).1), λ ((n, h, g), p). (n, h, from (g, p)))

module _ {V : Type 0} (reversed : Dict String) (fields_map : Dict (Reader V)) where
  -- Something that holds of the field of a column, in the list that it goes to
  abbrev pub AtColumn : (Conversion → DbField V → Type 0) → String → Type 0
  AtColumn P key =
      (name : String) (field : Reader V)
      → lookup key reversed ≡ some name
      → lookup name fields_map ≡ some field
      → P (conversion_of field) (record { key = key; model_field = name; field = field })

  pub AtColumn-found :
      (P : Conversion → DbField V → Type 0) (key name : String) (field : Reader V)
      → lookup key reversed ≡ some name
      → lookup name fields_map ≡ some field
      → P (conversion_of field) (record { key = key; model_field = name; field = field })
      → AtColumn P key
  AtColumn-found P key name field n f h name' field' n' f' =
      let e : name ≡ name' = ground arith in
      let g : field ≡ field' = ground arith in
      subst (λ x. P (conversion_of field') (record { key = key; model_field = x; field = field' }))
        e
        (subst (λ x. P (conversion_of x) (record { key = key; model_field = name; field = x })) g h)

  generate_onto-cases :
      (key : String) (ks : List String) (d d' : DbFields V)
      → generate_onto (key ∷ ks) reversed fields_map d ≡ ok d'
      → (name : String) × (field : Reader V) × (lookup key reversed ≡ some name)
        × (lookup name fields_map ≡ some field)
        × (generate_onto ks reversed fields_map (
              append_to
                (conversion_of field)
                (record { key = key; model_field = name; field = field })
                d)
            ≡ ok d')
  unfolding generate_onto
  generate_onto-cases key ks d d' h = elim (Option-cases (lookup key reversed)) [
    | inl e ↦ absurd (ground arith)
    | inr (name, e) ↦ elim (Option-cases (lookup name fields_map)) [
      | inl g ↦ absurd (ground arith)
      | inr (field, g) ↦ (name, field, e, g, ground arith)
    ]
  ]

  pub generate_onto-AllFields :
      (P : Conversion → DbField V → Type 0) (ks : List String) (d d' : DbFields V)
      → generate_onto ks reversed fields_map d ≡ ok d'
      → AllFields P d
      → All (AtColumn P) ks
      → AllFields P d'
  unfolding generate_onto
  generate_onto-AllFields P [] d d' h all at =
      let e : d ≡ d' = ground arith in subst (AllFields P) e all
  generate_onto-AllFields P (key ∷ ks) d d' h all (here, at) =
      let (name, field, n, f, rest) = generate_onto-cases key ks d d' h in
      generate_onto-AllFields P ks _ d' rest
        ((AllFields-append_to P (conversion_of field) _ d).1 (all, here name field n f)) at

  pub AllFields-generate_onto :
      (P : Conversion → DbField V → Type 0) (ks : List String) (d d' : DbFields V)
      → generate_onto ks reversed fields_map d ≡ ok d'
      → AllFields P d'
      → AllFields P d × All (AtColumn P) ks
  unfolding generate_onto
  AllFields-generate_onto P [] d d' h all =
      let e : d ≡ d' = ground arith in (subst (AllFields P) (sym e) all, tt)
  AllFields-generate_onto P (key ∷ ks) d d' h all =
      let (name, field, n, f, rest) = generate_onto-cases key ks d d' h in
      let (before, at) = AllFields-generate_onto P ks _ d' rest all in
      let (old, here) = (AllFields-append_to P (conversion_of field) _ d).0 before in
      (old, (AtColumn-found P key name field n f here, at))

-- Every name occurs once.
abbrev pub NamesOnce : {A : Type 0} → Dict A → Type 0
NamesOnce [] = Unit
NamesOnce ((name, column) ∷ d) = (lookup name d ≡ none) × NamesOnce d

pub lookup-reverse_onto :
    (projection reversed : Dict String) (key name : String)
    → NamesOnce projection
    → lookup key (reverse_onto projection reversed) ≡ some name
    → (lookup key reversed ≡ some name) ⊎ (lookup name projection ≡ some key)
unfolding reverse_onto
lookup-reverse_onto [] reversed key name once h = inl h
lookup-reverse_onto ((n, k) ∷ projection) reversed key name (new, once) h =
    elim (lookup-reverse_onto projection (insert k n reversed) key name once h) [
      | inl e ↦ ground (arith, lookup-insert k key n reversed, eq_iff k key, eq_iff n name)
      | inr e ↦ elim (Bool-cases (n == name)) [
        | inl g ↦
            let same : n ≡ name = (eq_iff n name).0 g in
            absurd (ground (arith, ap (λ q. lookup q projection) same))
        | inr g ↦ inr (ground arith)
      ]
    ]
