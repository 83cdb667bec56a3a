-- ===== src/Models/Fetch.antt =====
-- `get_or_create` of tortoise/models.py.
-- `get`, `create` and the state of the database are arguments: `get` is `filter(…).get()`, and
-- `create` is `create(…)` in a transaction of its own.
use tortoise_orm_zh_cn.Base.{
  ◌≡◌, Bool, true, false, not, ◌&&◌, [], ◌∷◌, Option, none, some, if◌then◌else◌, arith, ◌⊎◌, ◌↔◌,
  refl, All, inl, inr, Option-cases, Bool-cases,
}
use tortoise_orm_zh_cn.Base.Dict.{Dict, lookup, update}
use tortoise_orm_zh_cn.Base.Errors.{
  Error, Result, ok, err, params_error, does_not_exist, integrity_error,
}

abbrev pub is_does_not_exist : Error → Bool
is_does_not_exist does_not_exist = true
is_does_not_exist _ = false

abbrev pub is_integrity_error : Error → Bool
is_integrity_error integrity_error = true
is_integrity_error _ = false

module _ {V : Type 0} (eqv : V → V → Bool) where
  abbrev pub agrees_with : V → Option V → Bool
  agrees_with v none = true
  agrees_with v (some w) = eqv v w

  -- `for key in defaults.keys() & kwargs.keys()`: no default differs from the value in the query.
  abbrev pub agree : Dict V → Dict V → Bool
  agree [] kwargs = true
  agree ((key, value) ∷ defaults) kwargs =
      agrees_with value (lookup key kwargs) && agree defaults kwargs

  -- Every default whose name the query has, too, equals the query's value.
  abbrev pub NoneContradicts : Dict V → Dict V → Type 0
  NoneContradicts defaults kwargs =
      All (λ d. (w : V) → lookup d.0 kwargs ≡ some w → eqv d.1 w ≡ true) defaults

  agree-NoneContradicts :
      (defaults kwargs : Dict V) → (agree defaults kwargs ≡ true) ↔ NoneContradicts defaults kwargs
  agree-NoneContradicts [] kwargs = (λ h. tt, λ h. refl)
  agree-NoneContradicts ((key, value) ∷ defaults) kwargs =
      let (to, from) = agree-NoneContradicts defaults kwargs in
      elim (Option-cases (lookup key kwargs)) [
        | inl e ↦ rw e (λ h. (λ w g. absurd (cc), to h), λ h. from h.1)
        | inr (v, e) ↦ rw e (
          λ h. (λ w g. ground arith, to (ground arith)),
          λ h. let here = h.0 v refl in let there = from h.1 in ground arith,
        )
      ]

  module _ {X S : Type 0} (get_object : Dict V → S → Result X)
      (create_object : Dict V → S → Result X × S) where
    -- The `get` after an IntegrityError, which raises that error again if there is no object
    abbrev pub get_again : Dict V → Result X × S → Result (X × Bool) × S
    get_again kwargs (ok x, s) = (ok (x, true), s)
    get_again kwargs (err e, s) =
        if not (is_integrity_error e) then (err e, s) else elim (get_object kwargs s) [
          | ok x ↦ (ok (x, false), s)
          | err d ↦ if is_does_not_exist d then (err e, s) else (err d, s)
        ]

    -- `_create_or_get`
    unfoldable pub create_or_get : Dict V → Dict V → S → Result (X × Bool) × S
    create_or_get defaults kwargs s =
        if not (agree defaults kwargs)
        then (err params_error, s)
        else get_again kwargs (create_object (update kwargs defaults) s)

    -- `get_or_create`
    unfoldable pub get_or_create : Dict V → Dict V → S → Result (X × Bool) × S
    get_or_create defaults kwargs s = elim (get_object kwargs s) [
      | ok x ↦ (ok (x, false), s)
      | err e ↦ if is_does_not_exist e then create_or_get defaults kwargs s else (err e, s)
    ]

    get_or_create-agree :
        (defaults kwargs : Dict V) (s s' : S) (x : X) (created : Bool)
        → get_or_create defaults kwargs s ≡ (ok (x, created), s')
        → ((created ≡ true)
            × (get_object kwargs s ≡ err does_not_exist)
            × (agree defaults kwargs ≡ true)
            × (create_object (update kwargs defaults) s ≡ (ok x, s')))
          ⊎ ((created ≡ false)
              × (get_object kwargs s' ≡ ok x)
              × ((s' ≡ s)
                  ⊎ ((get_object kwargs s ≡ err does_not_exist)
                      × (agree defaults kwargs ≡ true)
                      × (create_object (update kwargs defaults) s ≡ (err integrity_error, s')))))
    unfolding get_or_create create_or_get
    get_or_create-agree defaults kwargs s s' x created h = ground arith

    -- If `get_or_create` says that it created an object, there was none that matched, no default
    -- contradicted the query, that is none differs from the query's value of the same name, and the
    -- object was created from the query's values and the defaults. If it says that it created none, the
    -- object matches in the database as it was; or no default contradicted the query, nothing matched
    -- there, the creation from both failed with an IntegrityError, and the object matches as the
    -- database is then.
    pub get_or_create-origin :
        (defaults kwargs : Dict V) (s s' : S) (x : X) (created : Bool)
        → get_or_create defaults kwargs s ≡ (ok (x, created), s')
        → ((created ≡ true)
            × (get_object kwargs s ≡ err does_not_exist)
            × NoneContradicts defaults kwargs
            × (create_object (update kwargs defaults) s ≡ (ok x, s')))
          ⊎ ((created ≡ false)
              × (get_object kwargs s' ≡ ok x)
              × ((s' ≡ s)
                  ⊎ ((get_object kwargs s ≡ err does_not_exist)
                      × NoneContradicts defaults kwargs
                      × (create_object (update kwargs defaults) s ≡ (err integrity_error, s')))))
    unfolding get_or_create create_or_get
    get_or_create-origin defaults kwargs s s' x created h =
        let to = (agree-NoneContradicts defaults kwargs).0 in
        elim (get_or_create-agree defaults kwargs s s' x created h) [
          | inl (made, missing, e, there) ↦ inl (made, missing, to e, there)
          | inr (found, there, inl same) ↦ inr (found, there, inl same)
          | inr (found, there, inr (missing, e, lost)) ↦
              inr (found, there, inr (missing, to e, lost))
        ]

    -- If no object matches and a default contradicts the query, `get_or_create` raises a ParamsError
    -- and creates nothing.
    get_or_create-contradicted :
        (defaults kwargs : Dict V) (s : S)
        → get_object kwargs s ≡ err does_not_exist
        → ¬ NoneContradicts defaults kwargs
        → get_or_create defaults kwargs s ≡ (err params_error, s)
    unfolding get_or_create create_or_get
    get_or_create-contradicted defaults kwargs s h bad = elim (Bool-cases (agree defaults kwargs)) [
      | inl e ↦ absurd (bad ((agree-NoneContradicts defaults kwargs).0 e))
      | inr e ↦ ground arith
    ]
