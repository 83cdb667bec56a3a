-- ===== src/Models/Save.antt =====
-- Which messages `save` and `delete` send, and when they send none.
use tortoise_orm_zh_cn.Base.{
  ◌≡◌, refl, ap, sym, ◌∙◌, Bool, true, false, ◌||◌, ◌&&◌, not, List, [], ◌∷◌, ◌++◌, Option, arith,
  String, Bool-cases, inl, inr, append_assoc,
}
use tortoise_orm_zh_cn.Base.Errors.{Result, ok, err, operational_error}
use tortoise_orm_zh_cn.Models.{
  Message, pre_save, insert_row, update_row, post_save, pre_delete, delete_row, post_delete,
  Environment, Saving, proceed, proceed, is_given, set_async_default_field, check_partial, send,
  write, save, mark_saved, delete,
}

-- The message for the row: an insert for a new one, an update of the given fields for an old one.
abbrev pub row_message : Option (List String) → Bool → Message
row_message fields true = insert_row
row_message fields false = update_row fields

-- The messages of a call that went through.
abbrev pub messages_of : Option (List String) → Bool → List Message
messages_of fields created = pre_save ∷ row_message fields created ∷ post_save created ∷ []

proceed-ok :
    {A B V : Type 0} (r : Result A × Saving V) (f : A → Saving V → Result B × Saving V) {b : B}
    {s' : Saving V}
    → proceed r f ≡ (ok b, s')
    → (a : A) × (s : Saving V) × (r ≡ (ok a, s)) × (f a s ≡ (ok b, s'))
proceed-ok (ok a, s) f h = (a, s, refl, h)
proceed-ok (err e, s) f h = absurd (cc)

append-three :
    (xs ys zs ts : List Message) (a b c : Message)
    → ys ≡ xs ++ a ∷ []
    → zs ≡ ys ++ b ∷ []
    → ts ≡ zs ++ c ∷ []
    → ts ≡ xs ++ a ∷ b ∷ c ∷ []
append-three xs ys zs ts a b c h k l =
    rw (l, k, h)
      (rw (append_assoc (xs ++ a ∷ []) (b ∷ []) (c ∷ []), append_assoc xs (a ∷ []) (b ∷ c ∷ [])))

module _ {V : Type 0} (pk : String) (environment : Environment V) where
  send-ok :
      (m : Message) (s s' : Saving V)
      → send pk environment m s ≡ (ok tt, s')
      → (s'.messages ≡ s.messages ++ m ∷ []) × (s'.object.saved_in_db ≡ s.object.saved_in_db)
  send-ok m s s' h = ground arith

  write-ok :
      (fields : Option (List String)) (force_create force_update : Bool) (s s' : Saving V)
      (created : Bool)
      → write pk environment fields force_create force_update s ≡ (ok created, s')
      → (s'.messages ≡ s.messages ++ row_message fields created ∷ [])
        × (force_create || (not force_update && not (s.object.saved_in_db || is_given fields))
              ≡ true
            → created ≡ true)
  unfolding write
  write-ok fields force_create force_update s s' created h = ground arith

  -- A call that goes through has made just one of an insert and an update, between the signals, and
  -- tells the listeners which: an insert if that is forced, or if the object is new, no fields are
  -- given and no update is forced. The object counts as saved from then on.
  pub save-messages :
      (fields : Option (List String)) (force_create force_update : Bool) (s s' : Saving V)
      → save pk environment fields force_create force_update s ≡ (ok tt, s')
      → (created : Bool) × (s'.messages ≡ s.messages ++ messages_of fields created)
        × (s'.object.saved_in_db ≡ true)
        × (force_create || (not force_update && not (s.object.saved_in_db || is_given fields))
              ≡ true
            → created ≡ true)
  unfolding save write set_async_default_field
  save-messages fields force_create force_update s s' h =
      let s0 = record s { object = set_async_default_field s.object } in
      let (_, s1, h1, k1) = proceed-ok (check_partial pk fields s0.object, s0) _ h in
      let (_, s2, h2, k2) = proceed-ok (send pk environment pre_save s1) _ k1 in
      let (created, s3, h3, k3) =
        proceed-ok (write pk environment fields force_create force_update s2) _ k2 in
      let e : s0 ≡ s1 = ap (λ (p : Result (Unit {0}) × Saving V). p.1) h1 in
      let before = send-ok pre_save s1 s2 h2 in
      let row = write-ok fields force_create force_update s2 s3 created h3 in
      let last = send-ok (post_save created) (mark_saved pk environment s3) s' k3 in
      let kept : s2.object.saved_in_db ≡ s.object.saved_in_db =
        before.1 ∙ ap (λ (t : Saving V). t.object.saved_in_db) (sym e) in
      (
        created,
        append-three s.messages s2.messages s3.messages s'.messages _ _ _
            (before.0 ∙ ap (λ (t : Saving V). t.messages ++ pre_save ∷ []) (sym e)) row.0 last.0,
        last.1,
        λ c. row.1 (rw kept c),
      )

  -- `delete` of an object that was never saved is an error that sends nothing, and a call that goes
  -- through has sent one delete between the signals.
  delete-messages :
      (s : Saving V)
      → (s.object.saved_in_db ≡ false → delete pk environment s ≡ (err operational_error, s))
        × ((s' : Saving V)
            → delete pk environment s ≡ (ok tt, s')
            → (s.object.saved_in_db ≡ true)
              × (s'.messages ≡ s.messages ++ pre_delete ∷ delete_row ∷ post_delete ∷ []))
  unfolding delete
  delete-messages s = (
    (λ h. ground arith),
    λ s' h. elim (Bool-cases s.object.saved_in_db) [
      | inr unsaved ↦ absurd (ground arith)
      | inl was ↦
          let h' : proceed (send pk environment pre_delete s) (λ _ t.
            proceed (send pk environment delete_row t) (λ _ u. send pk environment post_delete u))
              ≡ (ok tt, s') =
            ground arith in
          let (_, s1, h1, k1) = proceed-ok (send pk environment pre_delete s) _ h' in
          let (_, s2, h2, k2) = proceed-ok (send pk environment delete_row s1) _ k1 in
          (
            was,
            append-three _ _ _ _ _ _ _ (send-ok _ s s1 h1).0 (send-ok _ s1 s2 h2).0
                (send-ok _ s2 s' k2).0,
          )
    ],
  )
