-- ===== src/Updates/Assign.antt =====
-- What the keyword arguments of an update are to set, by the kinds of their fields, and that
-- `resolve_argument` finds it for one of them.
use mathlib.Core.Path.{subst}
use tortoise_orm_zh_cn.Base.{
  ◌≡◌, sym, true, false, String, List, [], ◌∷◌, some, none, arith, inl, inr, Bool-cases,
  Option-cases,
}
use tortoise_orm_zh_cn.Base.Dict.{Dict, lookup}
use tortoise_orm_zh_cn.Base.Errors.{
  Error, Result, ok, err, Result-cases, field_error, integrity_error, key_error,
}
use tortoise_orm_zh_cn.Executor.Update.{Held, plain, expression}
use tortoise_orm_zh_cn.Executor.Update.Sets.{Assigned, value, term}
use tortoise_orm_zh_cn.Updates.{Meta, FieldInfo, resolve_argument}

module _ {V W E T : Type 0} (meta : Meta) (get_attribute : String → Held V E → Result V)
    (to_db : String → V → Result W) (resolve_expression : E → Result T) where
  -- What one keyword argument is to set, its column with a value or a term, or the error that it is
  -- to give, by its field: the key is refused, a relation sets the column of its own key field to the
  -- attribute that it refers to, and any other field its own column.
  pub data IsAssignment : String → Held V E → Result (String × Assigned W T) → Type 0 where
    unknown :
        (key : String) (given : Held V E)
        → lookup key meta.fields_map ≡ none
        → IsAssignment key given (err field_error)
    primary_key :
        (key : String) (given : Held V E) (info : FieldInfo)
        → lookup key meta.fields_map ≡ some info
        → info.pk ≡ true
        → IsAssignment key given (err integrity_error)
    related :
        (key : String) (given : Held V E) (info : FieldInfo) (fk_field name db_field : String)
        (v : V) (w : W)
        → lookup key meta.fields_map ≡ some info
        → info.pk ≡ false
        → info.relation ≡ some (fk_field, name)
        → lookup fk_field meta.source_fields ≡ some db_field
        → get_attribute name given ≡ ok v
        → to_db fk_field v ≡ ok w
        → IsAssignment key given (ok (db_field, value w))
    no_key_field :
        (key : String) (given : Held V E) (info : FieldInfo) (fk_field name : String)
        → lookup key meta.fields_map ≡ some info
        → info.pk ≡ false
        → info.relation ≡ some (fk_field, name)
        → lookup fk_field meta.source_fields ≡ none
        → IsAssignment key given (err key_error)
    no_attribute :
        (key : String) (given : Held V E) (info : FieldInfo) (fk_field name db_field : String)
        (e : Error)
        → lookup key meta.fields_map ≡ some info
        → info.pk ≡ false
        → info.relation ≡ some (fk_field, name)
        → lookup fk_field meta.source_fields ≡ some db_field
        → get_attribute name given ≡ err e
        → IsAssignment key given (err e)
    bad_attribute :
        (key : String) (given : Held V E) (info : FieldInfo) (fk_field name db_field : String)
        (v : V) (e : Error)
        → lookup key meta.fields_map ≡ some info
        → info.pk ≡ false
        → info.relation ≡ some (fk_field, name)
        → lookup fk_field meta.source_fields ≡ some db_field
        → get_attribute name given ≡ ok v
        → to_db fk_field v ≡ err e
        → IsAssignment key given (err e)
    virtual :
        (key : String) (given : Held V E) (info : FieldInfo)
        → lookup key meta.fields_map ≡ some info
        → info.pk ≡ false
        → info.relation ≡ none
        → lookup key meta.columns ≡ none
        → IsAssignment key given (err field_error)
    valued :
        (key : String) (v : V) (info : FieldInfo) (db_field : String) (w : W)
        → lookup key meta.fields_map ≡ some info
        → info.pk ≡ false
        → info.relation ≡ none
        → lookup key meta.columns ≡ some db_field
        → to_db key v ≡ ok w
        → IsAssignment key (plain v) (ok (db_field, value w))
    bad_value :
        (key : String) (v : V) (info : FieldInfo) (db_field : String) (e : Error)
        → lookup key meta.fields_map ≡ some info
        → info.pk ≡ false
        → info.relation ≡ none
        → lookup key meta.columns ≡ some db_field
        → to_db key v ≡ err e
        → IsAssignment key (plain v) (err e)
    resolved :
        (key : String) (x : E) (info : FieldInfo) (db_field : String) (t : T)
        → lookup key meta.fields_map ≡ some info
        → info.pk ≡ false
        → info.relation ≡ none
        → lookup key meta.columns ≡ some db_field
        → resolve_expression x ≡ ok t
        → IsAssignment key (expression x) (ok (db_field, term t))
    bad_expression :
        (key : String) (x : E) (info : FieldInfo) (db_field : String) (e : Error)
        → lookup key meta.fields_map ≡ some info
        → info.pk ≡ false
        → info.relation ≡ none
        → lookup key meta.columns ≡ some db_field
        → resolve_expression x ≡ err e
        → IsAssignment key (expression x) (err e)

  -- What the keyword arguments are to set, in their order, or the first error that one of them gives
  pub data AreAssignments : Dict (Held V E) → Result (List (String × Assigned W T)) → Type 0 where
    all_set : AreAssignments [] (ok [])
    first_error :
        (key : String) (given : Held V E) (e : Error) (rest : Dict (Held V E))
        → IsAssignment key given (err e)
        → AreAssignments ((key, given) ∷ rest) (err e)
    later_error :
        (key : String) (given : Held V E) (a : String × Assigned W T) (e : Error)
        (rest : Dict (Held V E))
        → IsAssignment key given (ok a)
        → AreAssignments rest (err e)
        → AreAssignments ((key, given) ∷ rest) (err e)
    one_set :
        (key : String) (given : Held V E) (a : String × Assigned W T)
        (out : List (String × Assigned W T)) (rest : Dict (Held V E))
        → IsAssignment key given (ok a)
        → AreAssignments rest (ok out)
        → AreAssignments ((key, given) ∷ rest) (ok (a ∷ out))

  given_by :
      (key : String) (given : Held V E) (r : Result (String × Assigned W T))
      → resolve_argument meta get_attribute to_db resolve_expression key given ≡ r
      → IsAssignment key given r
      → IsAssignment key given
          (resolve_argument meta get_attribute to_db resolve_expression key given)
  given_by key given r same h = subst (λ q. IsAssignment key given q) (sym same) h

  resolve_argument-related :
      (key : String) (given : Held V E) (info : FieldInfo) (fk_field name : String)
      → lookup key meta.fields_map ≡ some info
      → info.pk ≡ false
      → info.relation ≡ some (fk_field, name)
      → IsAssignment key given
          (resolve_argument meta get_attribute to_db resolve_expression key given)
  unfolding resolve_argument
  resolve_argument-related key given info fk_field name known ordinary relation =
      elim (Option-cases (lookup fk_field meta.source_fields)) [
        | inl h ↦
            given_by key given (err key_error) (ground arith)
              (no_key_field key given info fk_field name known ordinary relation h)
        | inr (db_field, h) ↦ elim (Result-cases (get_attribute name given)) [
          | inr (e, g) ↦
              given_by key given (err e) (ground arith)
                (no_attribute key given info fk_field name db_field e known ordinary relation h g)
          | inl (v, g) ↦ elim (Result-cases (to_db fk_field v)) [
            | inr (e, f) ↦ given_by key given (err e) (ground arith) (
                bad_attribute key given info fk_field name db_field v e known ordinary relation h g
                  f)
            | inl (w, f) ↦
                given_by key given (ok (db_field, value w)) (ground arith)
                  (related key given info fk_field name db_field v w known ordinary relation h g f)
          ]
        ]
      ]

  resolve_argument-column :
      (key : String) (given : Held V E) (info : FieldInfo) (db_field : String)
      → lookup key meta.fields_map ≡ some info
      → info.pk ≡ false
      → info.relation ≡ none
      → lookup key meta.columns ≡ some db_field
      → IsAssignment key given
          (resolve_argument meta get_attribute to_db resolve_expression key given)
  unfolding resolve_argument
  resolve_argument-column key (plain v) info db_field known ordinary no_relation h =
      elim (Result-cases (to_db key v)) [
        | inr (e, g) ↦
            given_by key (plain v) (err e) (ground arith)
              (bad_value key v info db_field e known ordinary no_relation h g)
        | inl (w, g) ↦
            given_by key (plain v) (ok (db_field, value w)) (ground arith)
              (valued key v info db_field w known ordinary no_relation h g)
      ]
  resolve_argument-column key (expression x) info db_field known ordinary no_relation h =
      elim (Result-cases (resolve_expression x)) [
        | inr (e, g) ↦
            given_by key (expression x) (err e) (ground arith)
              (bad_expression key x info db_field e known ordinary no_relation h g)
        | inl (t, g) ↦
            given_by key (expression x) (ok (db_field, term t)) (ground arith)
              (resolved key x info db_field t known ordinary no_relation h g)
      ]

  -- `resolve_argument` finds what a keyword argument is to set, or the error that it is to give.
  pub resolve_argument-IsAssignment :
      (key : String) (given : Held V E)
      → IsAssignment key given
          (resolve_argument meta get_attribute to_db resolve_expression key given)
  unfolding resolve_argument
  resolve_argument-IsAssignment key given = elim (Option-cases (lookup key meta.fields_map)) [
    | inl h ↦ given_by key given (err field_error) (ground arith) (unknown key given h)
    | inr (info, known) ↦ elim (Bool-cases info.pk) [
      | inl h ↦
          given_by key given (err integrity_error) (ground arith)
            (primary_key key given info known h)
      | inr ordinary ↦ elim (Option-cases info.relation) [
        | inr ((fk_field, name), h) ↦
            resolve_argument-related key given info fk_field name known ordinary h
        | inl no_relation ↦ elim (Option-cases (lookup key meta.columns)) [
          | inl h ↦
              given_by key given (err field_error) (ground arith)
                (virtual key given info known ordinary no_relation h)
          | inr (db_field, h) ↦
              resolve_argument-column key given info db_field known ordinary no_relation h
        ]
      ]
    ]
  ]
