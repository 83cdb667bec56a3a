-- ===== src/Fields/Validation.antt =====
-- Which values a field lets pass.
use tortoise_orm_zh_cn.Base.{
  ◌≡◌, ◌↔◌, refl, Bool, true, false, List, [], ◌∷◌, Option, none, some, arith, All, ◌⊎◌, inl, inr,
  Bool-cases,
}
use tortoise_orm_zh_cn.Base.Errors.{Result, ok}
use tortoise_orm_zh_cn.Fields.{Field, run_validators, validate}

-- What the validators are given.
abbrev pub seen : {V : Type 0} → (V → V) → Option V → Option V
seen raw none = none
seen raw (some value) = some (raw value)

-- `None` for a field that may be null; any other value passes if every validator accepts it.
abbrev pub Passes : {V : Type 0} → (V → V) → Field V → Option V → Type 0
Passes raw f value =
    ((f.null ≡ true) × (value ≡ none))
    ⊎ All (λ (v : Option _ → Result (Unit {0})). v (seen raw value) ≡ ok tt) f.validators

module _ {V : Type 0} (raw : V → V) where
  -- Every validator is asked: the value is not `None`, or the field may not be null.
  abbrev IsAsked : Bool → Option V → Type 0
  IsAsked null none = null ≡ false
  IsAsked null (some value) = Unit

  run_validators-null :
      (vs : List (Option V → Result (Unit {0}))) → run_validators raw true vs none ≡ ok tt
  unfolding run_validators
  run_validators-null [] = refl
  run_validators-null (v ∷ vs) = run_validators-null vs

  run_validators-All :
      (null : Bool) (vs : List (Option V → Result (Unit {0}))) (value : Option V)
      → IsAsked null value
      → (run_validators raw null vs value ≡ ok tt)
        ↔ All (λ (v : Option V → Result (Unit {0})). v (seen raw value) ≡ ok tt) vs
  unfolding run_validators
  run_validators-All null [] value a = ((λ h. tt), λ h. refl)
  run_validators-All null (v ∷ vs) none a =
      let rest = run_validators-All null vs none a in
      (λ h. (ground arith, rest.0 (ground arith)), λ h. rw a (rw h.0 (rest.1 h.1)))
  run_validators-All null (v ∷ vs) (some value) a =
      let rest = run_validators-All null vs (some value) a in
      (λ h. (ground arith, rest.0 (ground arith)), λ h. rw h.0 (rest.1 h.1))

-- `validate` accepts a value exactly if the field may be null and the value is `None`, or if every
-- validator of the field accepts it; an enumeration's member is judged by its value.
validate-Passes :
    {V : Type 0} (raw : V → V) (f : Field V) (value : Option V)
    → (validate raw f value ≡ ok tt) ↔ Passes raw f value
validate-Passes raw f (some value) =
    let all = run_validators-All raw f.null f.validators (some value) tt in
    (λ h. inr (all.0 h), λ h. elim h [ inl e ↦ absurd (cc e.1) | inr a ↦ all.1 a ])
validate-Passes raw f none = elim (Bool-cases f.null) [
  | inl nullable ↦
      (λ h. inl (nullable, refl), λ h. rw nullable (run_validators-null raw f.validators))
  | inr required_ ↦
      let all = run_validators-All raw f.null f.validators none required_ in
      (λ h. inr (all.0 h), λ h. elim h [ inl e ↦ absurd (cc e.0) | inr a ↦ all.1 a ])
]
