-- ===== src/Startup/ManyToMany.antt =====
-- The two ends of a many-to-many relation fit together.
use text.Mathlib.TextLemmas.{cons-append, nil-append}
use tortoise_orm_zh_cn.Base.{
  ◌≡◌, refl, ap, sym, ◌∙◌, Bool, true, false, ◌&&◌, String, none, some, if◌then◌else◌, ◌==◌, eq_iff,
  arith, Bool-cases, Option-cases, inl, inr,
}
use tortoise_orm_zh_cn.Base.Dict.{Dict, lookup, has_key}
use tortoise_orm_zh_cn.Base.Errors.{ok, >>=-eq-ok, Result-cases}
use tortoise_orm_zh_cn.Startup.{
  ManyField, Field, many, Model, Apps, split_reference, many_field, get_related_model, completed,
  generated_from, relate, init_m2m_field, plus, two_parts, split_dots, backward_key_of,
}
use tortoise_orm_zh_cn.Startup.Store.{
  Address, same_address, field_in, field_at, field_at-with_field, add_field-field_at,
}

abbrev is_empty_text : String → Bool
is_empty_text String.[] = true
is_empty_text (String.◌∷◌ c s) = false

not_empty : (s : String) → is_empty_text s ≡ false → (s == "") ≡ false
not_empty s h = elim (Bool-cases (s == "")) [
  | inl e ↦ let same = ap is_empty_text ((eq_iff s "").0 e) in absurd (cc)
  | inr e ↦ e
]

is_empty_text-plus :
    (t : String) (u : String) → is_empty_text u ≡ false → is_empty_text (plus t u) ≡ false
is_empty_text-plus String.[] u h = rw nil-append h
is_empty_text-plus (String.◌∷◌ c t) u h = rw cons-append refl

backward_key_of-not_empty :
    (model : Model) (m2m : ManyField) → (backward_key_of model m2m == "") ≡ false
backward_key_of-not_empty model m2m =
    let one =
      not_empty (plus model.db_table "_id") (is_empty_text-plus model.db_table "_id" refl) in
    let two =
      not_empty (plus model.db_table "_rel_id")
        (is_empty_text-plus model.db_table "_rel_id" refl) in
    elim (Bool-cases (m2m.backward_key == "")) [
      | inr e ↦ rw e e
      | inl e ↦ elim (Bool-cases (plus model.db_table "_id" == m2m.forward_key)) [
        | inl g ↦ rw (e, g) two
        | inr g ↦ rw (e, g) one
      ]
    ]

many_field-parts :
    (lower : String → String) (name through forward backward related : String) (r : ManyField)
    → many_field lower name through forward backward related ≡ ok r
    → (forward == "") ≡ false
    → (r.through ≡ through)
      × (r.forward_key ≡ forward)
      × (r.backward_key ≡ backward)
      × (r.related_name ≡ related)
unfolding many_field
many_field-parts lower name through forward backward related r h given =
    elim (Option-cases (two_parts (split_dots name))) [
      | inl e ↦ absurd (ground arith)
      | inr ((app, model), e) ↦ ground arith
    ]

-- The two ends of a relation: the one that was declared, and the one that was generated from it
pub record Ends (address there : Address) (field : String) (m2m end back : ManyField) : Type 0 where
  pub reference : split_reference m2m.model_name ≡ ok there
  pub to_there : end.related_model ≡ some there
  pub to_here : back.related_model ≡ some address
  pub same_table : back.through ≡ end.through
  pub forward : back.forward_key ≡ end.backward_key
  pub backward : back.backward_key ≡ end.forward_key
  pub named : back.related_name ≡ field
  pub marked : back.generated ≡ true

lookup-none : (k : String) (d : Dict Field) → has_key k d ≡ false → lookup k d ≡ none
lookup-none k d h = elim (Option-cases (lookup k d)) [
  | inl e ↦ e
  | inr (v, e) ↦ absurd (ground arith)
]

relate-Ends :
    (lower : String → String) (address : Address) (field : String) (model : Model) (m2m : ManyField)
    (apps apps' : Apps)
    → get_related_model apps address ≡ ok model
    → relate lower address field model m2m apps ≡ ok apps'
    → (there : Address) × (end : ManyField) × (back : ManyField) × Ends address there field m2m end
        back
      × (field_at apps there end.related_name ≡ none)
      × ((b : Address) (g : String)
          → field_at apps' b g ≡ (
              if same_address there b && end.related_name == g
              then some (many back)
              else if same_address address b && field == g
              then some (many end)
              else field_at apps b g))
unfolding relate
relate-Ends lower (app, name) field model m2m apps apps' here h =
    let (there, reference, h1) = >>=-eq-ok (split_reference m2m.model_name) _ h in
    let (related, found, h2) = >>=-eq-ok (get_related_model apps there) _ h1 in
    let end = completed lower model related there m2m in
    elim (Bool-cases (has_key end.related_name related.fields_map)) [
      | inl taken ↦ absurd (ground arith)
      | inr free ↦
          let h3 = rw free at h2 in
          let (relation, made, h4) =
            >>=-eq-ok
              (many_field lower (plus app (plus "." name)) end.through end.backward_key
                end.forward_key field)
              _ h3 in
          let (table, forward, backward, named) =
            many_field-parts lower _ end.through end.backward_key end.forward_key field relation
              made (backward_key_of-not_empty model m2m) in
          let (new, after) =
            add_field-field_at there end.related_name (many (generated_from (app, name) relation)) _
              apps' h4 in
          (
            there,
            end,
            generated_from (app, name) relation,
            record {
              reference = reference;
              to_there = refl;
              to_here = refl;
              same_table = table;
              forward = forward;
              backward = backward;
              named = named;
              marked = refl;
            },
            ap (field_in end.related_name) found
                ∙ lookup-none end.related_name related.fields_map free,
            λ b g.
                after b g
                ∙ ap
                    (λ q.
                      if same_address there b && end.related_name == g
                      then some (many (generated_from (app, name) relation))
                      else q)
                    (field_at-with_field (app, name) b field g (many end) model apps here),
          )
    ]

init_m2m_field-relate :
    (lower : String → String) (address : Address) (field : String) (model : Model) (m2m : ManyField)
    (apps : Apps)
    → get_related_model apps address ≡ ok model
    → lookup field model.fields_map ≡ some (many m2m)
    → m2m.generated ≡ false
    → init_m2m_field lower address field apps ≡ relate lower address field model m2m apps
unfolding init_m2m_field
init_m2m_field-relate lower address field model m2m apps here found declared = ground arith

-- Where the start-up takes a many-to-many field that was not generated, and raises nothing, the
-- field has its relation, and the model that its reference names has a new one, which was generated
-- from it: each names the other's model, both name the same through table, the forward key of each
-- is the backward key of the other, and every other field of every model is as before.
pub init_m2m_field-Ends :
    (lower : String → String) (address : Address) (field : String) (m2m : ManyField)
    (apps apps' : Apps)
    → field_at apps address field ≡ some (many m2m)
    → m2m.generated ≡ false
    → init_m2m_field lower address field apps ≡ ok apps'
    → (there : Address) × (end : ManyField) × (back : ManyField) × Ends address there field m2m end
        back
      × (field_at apps there end.related_name ≡ none)
      × ((b : Address) (g : String)
          → field_at apps' b g ≡ (
              if same_address there b && end.related_name == g
              then some (many back)
              else if same_address address b && field == g
              then some (many end)
              else field_at apps b g))
init_m2m_field-Ends lower address field m2m apps apps' there declared h =
    elim (Result-cases (get_related_model apps address)) [
      | inr (e, bad) ↦ let nowhere = ap (field_in field) (sym bad) ∙ there in absurd (cc)
      | inl (model, here) ↦
          let found : lookup field model.fields_map ≡ some (many m2m) =
            ap (field_in field) (sym here) ∙ there in
          relate-Ends lower address field model m2m apps apps' here
            (sym (init_m2m_field-relate lower address field model m2m apps here found declared) ∙ h)
    ]
