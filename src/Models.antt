-- ===== src/Models.antt =====
-- tortoise/models.py: how an object is saved, deleted, cloned, and fetched or created.
-- An object is its attributes and its flags. What the database and the listeners do is an argument:
-- they get the attributes and may change them, or raise. Every message to them is recorded.
pub mod Save
pub mod Fetch
pub mod Assign
mod Tests
use tortoise_orm_zh_cn.Base.{
  ℕ, Bool, true, false, not, ◌&&◌, ◌||◌, String, List, [], ◌∷◌, ◌++◌, Option, none, some, eqb,
  is_some, contains, if◌then◌else◌,
}
use tortoise_orm_zh_cn.Base.Dict.{Dict, lookup, has_key, insert, remove}
use tortoise_orm_zh_cn.Base.Errors.{
  Error, Result, ok, err, ◌>>=◌, operational_error, integrity_error, incomplete_instance_error,
  params_error, does_not_exist, configuration_error, value_error,
}

-- `none` is Python's `None`.
abbrev pub Attributes : Type 0 → Type 0
Attributes V = Dict (Option V)

-- `await_when_save` holds, for each field with an asynchronous default, what that default gives.
pub record Instance (V : Type 0) : Type 0 where
  pub attributes : Attributes V
  pub partial : Bool
  pub saved_in_db : Bool
  pub custom_generated_pk : Bool
  pub await_when_save : Attributes V

-- What is sent to the listeners and to the executor.
pub data Message : Type 0 where
  pre_save : Message
  insert_row : Message
  update_row : Option (List String) → Message
  post_save : Bool → Message
  pre_delete : Message
  delete_row : Message
  post_delete : Message

-- The listeners and the executor, on the attributes of the object; an update returns the number of
-- rows that it changed.
pub record Environment (V : Type 0) : Type 0 where
  pub run : Message → Attributes V → Result (Attributes V)
  pub rows : Option (List String) → Attributes V → Result ℕ

-- An object on its way through a method, with the messages so far.
pub record Saving (V : Type 0) : Type 0 where
  pub object : Instance V
  pub messages : List Message

abbrev pub proceed :
    {A B V : Type 0}
    → Result A × Saving V
    → (A → Saving V → Result B × Saving V)
    → Result B × Saving V
proceed (ok a, s) f = f a s
proceed (err e, s) f = (err e, s)

-- `if update_fields`
abbrev pub is_given : Option (List String) → Bool
is_given none = false
is_given (some []) = false
is_given (some (field ∷ fields)) = true

-- `setattr` for each of them
abbrev pub set_attributes : {V : Type 0} → Attributes V → Attributes V → Attributes V
set_attributes attributes [] = attributes
set_attributes attributes ((key, value) ∷ rest) = set_attributes (insert key value attributes) rest

-- `_set_async_default_field`
unfoldable pub set_async_default_field : {V : Type 0} → Instance V → Instance V
set_async_default_field i = record i {
  attributes = set_attributes i.attributes i.await_when_save;
  await_when_save = [];
}

-- `self.pk`, which is `None` where the attribute is missing
abbrev pub pk_value : {V : Type 0} → String → Attributes V → Option V
pk_value pk attributes = elim (lookup pk attributes) [ none ↦ none | some v ↦ v ]

-- The loop over `update_fields` for a partial object
abbrev pub check_fields : {V : Type 0} → String → List String → Attributes V → Result (Unit {0})
check_fields pk [] attributes = ok tt
check_fields pk (field ∷ fields) attributes =
    let rest = check_fields pk fields attributes in
    if not (has_key pk attributes)
    then err incomplete_instance_error
    else if not (has_key field attributes)
    then err incomplete_instance_error
    else rest

abbrev pub check_partial :
    {V : Type 0} → String → Option (List String) → Instance V → Result (Unit {0})
check_partial pk none i = if i.partial then err incomplete_instance_error else ok tt
check_partial pk (some []) i = if i.partial then err incomplete_instance_error else ok tt
check_partial pk (some (field ∷ fields)) i =
    if i.partial then check_fields pk (field ∷ fields) i.attributes else ok tt

module _ {V : Type 0} (pk : String) (environment : Environment V) where
  abbrev answered : Saving V → Result (Attributes V) → Result (Unit {0}) × Saving V
  answered s (ok attributes) =
      (ok tt, record s { object = record (s.object) { attributes = attributes } })
  answered s (err e) = (err e, s)

  -- A message to the listeners, or an insert or a delete
  abbrev pub send : Message → Saving V → Result (Unit {0}) × Saving V
  send message s =
      answered (record s { messages = s.messages ++ message ∷ [] })
        (environment.run message s.object.attributes)

  -- `executor.execute_update`
  abbrev pub send_update : Option (List String) → Saving V → Result ℕ × Saving V
  send_update fields s = (
    environment.rows fields s.object.attributes,
    record s { messages = s.messages ++ update_row fields ∷ [] },
  )

  -- `await executor.execute_insert(self); created = True`
  abbrev pub insert_it : Saving V → Result Bool × Saving V
  insert_it s = proceed (send insert_row s) (λ _ s'. (ok true, s'))

  -- What `save` does in the database; the result is `created`.
  unfoldable pub write : Option (List String) → Bool → Bool → Saving V → Result Bool × Saving V
  write fields force_create force_update s =
      if force_create
      then insert_it s
      else if force_update
      then proceed (send_update fields s)
          (λ rows s'. if eqb rows 0 then (err integrity_error, s') else (ok false, s'))
      else if s.object.saved_in_db || is_given fields
      then if is_some (pk_value pk s.object.attributes)
        then proceed (send_update fields s) (λ rows s'. (ok false, s'))
        else insert_it s
      else insert_it s

  abbrev pub mark_saved : Saving V → Saving V
  mark_saved s = record s { object = record (s.object) { saved_in_db = true } }

  -- `save`
  unfoldable pub save : Option (List String) → Bool → Bool → Saving V → Result (Unit {0}) × Saving V
  save fields force_create force_update before =
      let s = record before { object = set_async_default_field before.object } in
      proceed (check_partial pk fields s.object, s)
        (λ _ s'. proceed (send pre_save s') (λ _ s'.
          proceed (write fields force_create force_update s')
            (λ created s'. send (post_save created) (mark_saved s'))))

  -- `delete`
  unfoldable pub delete : Saving V → Result (Unit {0}) × Saving V
  delete s =
      if not s.object.saved_in_db
      then (err operational_error, s)
      else proceed (send pre_delete s)
          (λ _ s'. proceed (send delete_row s') (λ _ s'. send post_delete s'))

-- What `clone` reads of the primary key's field
pub record PkField : Type 0 where
  pub name : String
  pub generated : Bool
  pub has_default : Bool

-- `clone`; without a value, `pk` is `EMPTY`.
unfoldable pub clone : {V : Type 0} → PkField → Option (Option V) → Instance V → Result (Instance V)
clone field none i =
    if not field.generated && not field.has_default
    then err params_error
    else ok (record i {
      attributes = insert field.name none i.attributes;
      saved_in_db = false;
      await_when_save = remove field.name i.await_when_save;
    })
clone field (some pk) i = ok (record i {
  attributes = insert field.name pk i.attributes;
  saved_in_db = false;
  await_when_save = remove field.name i.await_when_save;
})

-- `register_listener`, for one class and one signal
unfoldable pub register_listener : Bool → String → List String → Result (List String)
register_listener callable listener listeners =
    if not callable
    then err configuration_error
    else ok (if contains listener listeners then listeners else listeners ++ listener ∷ [])
