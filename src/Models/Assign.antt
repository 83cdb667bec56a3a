-- ===== src/Models/Assign.antt =====
-- `_set_kwargs` of tortoise/models.py: attributes given by keyword, in `__init__` and
-- `update_from_dict`. What a value is, whether a related object was saved and how a field converts a
-- value are arguments. What was set before an error is not followed.
use tortoise_orm_zh_cn.Base.{
  ◌≡◌, Bool, true, false, not, ◌&&◌, ◌||◌, String, List, [], ◌∷◌, ◌++◌, Option, none, some,
  if◌then◌else◌, arith, is_some, All,
}
use tortoise_orm_zh_cn.Base.Dict.{keys, insert, remove}
use tortoise_orm_zh_cn.Base.Errors.{
  Result, ok, err, ◌>>=◌, >>=-eq-ok, operational_error, configuration_error, value_error,
}
use tortoise_orm_zh_cn.Models.{Instance, Attributes}

-- What a name is in the model. A relation has the name of the field that holds its key; a data field
-- says whether it is a generated primary key, and whether it may be null.
pub data Kind : Type 0 where
  relation : String → Kind
  data_field : Bool → Bool → Kind
  backward_relation : Kind
  no_field : Kind

module _ {V : Type 0} (kind : String → Kind) (is_saved : V → Bool)
    (to_python_value : String → Option V → Result (Option V)) where
  -- `value and not value._saved_in_db`
  abbrev pub is_unsaved : Option V → Bool
  is_unsaved none = false
  is_unsaved (some v) = not (is_saved v)

  abbrev pub set_attribute : String → Option V → Instance V → Instance V
  set_attribute key value i = record i {
    attributes = insert key value i.attributes;
    await_when_save = remove key i.await_when_save;
  }

  -- One round of the loop: the object, and the field that counts as passed too, if there is one.
  abbrev pub set_kwarg : String → Option V → Kind → Instance V → Result (Instance V × List String)
  set_kwarg key value (relation source_field) i =
      if is_unsaved value
      then err operational_error
      else ok (set_attribute key value i, source_field ∷ [])
  set_kwarg key value (data_field generated_pk null) i =
      if not (is_some value) && not null then err value_error else do
        v ← to_python_value key value
        ok (
          set_attribute key v
              (record i { custom_generated_pk = i.custom_generated_pk || generated_pk }),
          [],
        )
  set_kwarg key value backward_relation i = err configuration_error
  set_kwarg key value no_field i = ok (i, [])

  unfoldable pub set_each :
      List (String × Option V) → Instance V → List String → Result (Instance V × List String)
  set_each [] i passed = ok (i, passed)
  set_each ((key, value) ∷ kwargs) i passed = do
    next ← set_kwarg key value (kind key) i
    set_each kwargs next.0 (passed ++ next.1)

  -- `_set_kwargs`
  unfoldable pub set_kwargs :
      List String → Attributes V → Instance V → Result (Instance V × List String)
  set_kwargs fetch_fields kwargs i = set_each kwargs i (keys kwargs ++ fetch_fields)

  -- What an accepted value satisfies.
  abbrev pub IsAccepted : Kind → Option V → Type 0
  IsAccepted (relation source_field) value = is_unsaved value ≡ false
  IsAccepted (data_field generated_pk null) value = (is_some value || null) ≡ true
  IsAccepted backward_relation value = ⊥
  IsAccepted no_field value = Unit

  set_kwarg-IsAccepted :
      (key : String) (value : Option V) (k : Kind) (i : Instance V)
      (next : Instance V × List String)
      → set_kwarg key value k i ≡ ok next
      → IsAccepted k value
  set_kwarg-IsAccepted key value (relation source_field) i next h = ground arith
  set_kwarg-IsAccepted key value (data_field generated_pk null) i next h = ground arith
  set_kwarg-IsAccepted key value backward_relation i next h = cc
  set_kwarg-IsAccepted key value no_field i next h = tt

  set_each-IsAccepted :
      (kwargs : Attributes V) (i : Instance V) (passed : List String)
      (out : Instance V × List String)
      → set_each kwargs i passed ≡ ok out
      → All (λ (entry : String × Option V). IsAccepted (kind entry.0) entry.1) kwargs
  unfolding set_each
  set_each-IsAccepted [] i passed out h = tt
  set_each-IsAccepted ((key, value) ∷ kwargs) i passed out h =
      let (next, first, rest) = >>=-eq-ok (set_kwarg key value (kind key) i) _ h in
      (
        set_kwarg-IsAccepted key value (kind key) i next first,
        set_each-IsAccepted kwargs next.0 (passed ++ next.1) out rest,
      )

  -- When attributes are set by keyword without an error, no backward relation was among them, no
  -- field that cannot be null was given `None`, and every related object was saved before.
  set_kwargs-IsAccepted :
      (fetch_fields : List String) (kwargs : Attributes V) (i : Instance V)
      (out : Instance V × List String)
      → set_kwargs fetch_fields kwargs i ≡ ok out
      → All (λ (entry : String × Option V). IsAccepted (kind entry.0) entry.1) kwargs
  unfolding set_kwargs
  set_kwargs-IsAccepted fetch_fields kwargs i out h = set_each-IsAccepted kwargs i _ out h
