-- ===== src/Startup/Store.antt =====
-- The fields of the models in the store, before and after a change.
use tortoise_orm_zh_cn.Base.{
  ◌≡◌, refl, ap, sym, ◌∙◌, Bool, true, ◌&&◌, String, Option, none, some, if◌then◌else◌, ◌==◌,
  eq_iff, arith, Bool-cases, Option-cases, inl, inr,
}
use tortoise_orm_zh_cn.Base.Dict.{lookup, insert, lookup-insert}
use tortoise_orm_zh_cn.Base.Errors.{Result, ok, err, >>=-eq-ok}
use tortoise_orm_zh_cn.Startup.{
  Field, Model, Apps, get_related_model, with_field, set_model, add_field,
}

abbrev pub Address : Type 0
Address = String × String

-- The same model
abbrev pub same_address : Address → Address → Bool
same_address (app, name) (app', name') = app == app' && name == name'

get_related_model-set_model :
    (a b : Address) (old new : Model) (apps : Apps)
    → get_related_model apps a ≡ ok old
    → get_related_model (set_model a new apps) b
      ≡ (if same_address a b then ok new else get_related_model apps b)
unfolding get_related_model
get_related_model-set_model (app, name) (app', name') old new apps h =
    elim (Option-cases (lookup app apps)) [
      | inl e ↦ absurd (ground arith)
      | inr (models, e) ↦
          let outer = lookup-insert app app' (insert name new models) apps in
          let inner = lookup-insert name name' new models in
          elim (Bool-cases (app == app')) [
            | inl g ↦
                let same = ap (λ q. lookup q apps) ((eq_iff app app').0 g) in
                ground (arith, outer, inner, same)
            | inr g ↦ ground (arith, outer)
          ]
    ]

abbrev pub field_in : String → Result Model → Option Field
field_in f (err e) = none
field_in f (ok model) = lookup f model.fields_map

-- The field of a model
abbrev pub field_at : Apps → Address → String → Option Field
field_at apps a f = field_in f (get_related_model apps a)

same_address-eq : (a b : Address) → same_address a b ≡ true → a ≡ b
same_address-eq (app, name) (app', name') h =
    let e : app ≡ app' = ground (arith, eq_iff app app') in
    let e' : name ≡ name' = ground (arith, eq_iff name name') in cc

pub field_at-with_field :
    (a b : Address) (f g : String) (v : Field) (model : Model) (apps : Apps)
    → get_related_model apps a ≡ ok model
    → field_at (set_model a (with_field f v model) apps) b g
      ≡ (if same_address a b && f == g then some v else field_at apps b g)
field_at-with_field a b f g v model apps h =
    let found = get_related_model-set_model a b model (with_field f v model) apps h in
    let change = lookup-insert f g v model.fields_map in
    elim (Bool-cases (same_address a b)) [
      | inl e ↦
          let here =
            ap (field_in g) (sym (ap (get_related_model apps) (same_address-eq a b e)) ∙ h) in
          rw (found, e) (change ∙ ap (λ q. if f == g then some v else q) (sym here))
      | inr e ↦ rw (found, e) refl
    ]

pub add_field-field_at :
    (a : Address) (name : String) (v : Field) (apps apps' : Apps)
    → add_field a name v apps ≡ ok apps'
    → (field_at apps a name ≡ none)
      × ((b : Address) (g : String)
          → field_at apps' b g
            ≡ (if same_address a b && name == g then some v else field_at apps b g))
unfolding add_field
add_field-field_at a name v apps apps' h =
    let (model, found, rest) = >>=-eq-ok (get_related_model apps a) _ h in
    elim (Option-cases (lookup name model.fields_map)) [
      | inr (w, e) ↦ absurd (ground arith)
      | inl e ↦
          let made : set_model a (with_field name v model) apps ≡ apps' = ground arith in
          (
            ap (field_in name) found ∙ e,
            λ b g.
                ap (λ q. field_at q b g) (sym made)
                ∙ field_at-with_field a b name g v model apps found,
          )
    ]
