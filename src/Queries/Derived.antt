-- ===== src/Queries/Derived.antt =====
-- The other queries that a `QuerySet` makes: `values`, `count`, `exists`, `update` and
-- `delete`. They take the sets of index hints over by address.
use tortoise_orm_zh_cn.Base.{
  ℕ, ◌≡◌, refl, ap, ◌∙◌, Bool, false, String, List, [], ◌∷◌, ◌++◌, Option, if◌then◌else◌, arith,
  contains, append-nil, append_assoc, Bool-cases, inl, inr,
}
use tortoise_orm_zh_cn.Base.Int.{ℤ}
use tortoise_orm_zh_cn.Base.Dict.{Dict, has_key, insert, keys}
use tortoise_orm_zh_cn.Base.Errors.{Result, ok, err, ◌>>=◌, >>=-eq-ok, field_error}
use tortoise_orm_zh_cn.Expressions.{Q}
use tortoise_orm_zh_cn.Queries.{QuerySet, Order, clone}
use tortoise_orm_zh_cn.Queries.Rows.{offset_or_zero}

pub record CountQuery (V A : Type 0) : Type 0 where
  pub q_objects : List (Q V)
  pub annotations : Dict A
  pub limit : Option ℤ
  pub offset : ℤ
  pub force_indexes : ℕ
  pub use_indexes : ℕ

pub record ExistsQuery (V A : Type 0) : Type 0 where
  pub q_objects : List (Q V)
  pub annotations : Dict A
  pub force_indexes : ℕ
  pub use_indexes : ℕ

-- `UpdateQuery`, and `DeleteQuery`, which has no values
pub record ChangeQuery (V A W : Type 0) : Type 0 where
  pub update_kwargs : Dict W
  pub q_objects : List (Q V)
  pub annotations : Dict A
  pub limit : Option ℤ
  pub orderings : List (String × Order)

-- `ValuesQuery`: the names in the result, each with its field.
pub record ValuesQuery (V A : Type 0) : Type 0 where
  pub fields_for_select : Dict String
  pub q_objects : List (Q V)
  pub annotations : Dict A
  pub single : Bool
  pub raise_does_not_exist : Bool
  pub distinct : Bool
  pub limit : Option ℤ
  pub offset : Option ℤ
  pub orderings : List (String × Order)
  pub group_bys : List String
  pub force_indexes : ℕ
  pub use_indexes : ℕ

-- The loops of `values`, over pairs of a name and its field
abbrev pub add_fields : Dict String → Dict String → Result (Dict String)
add_fields [] selected = ok selected
add_fields ((name, field) ∷ rest) selected =
    if has_key name selected then err field_error else add_fields rest (insert name field selected)

abbrev pub each_as_itself : List String → Dict String
each_as_itself [] = []
each_as_itself (field ∷ fields) = (field, field) ∷ each_as_itself fields

-- `[field for field in … if field in …]`
abbrev pub those_in : List String → List String → List String
those_in fields [] = []
those_in fields (field ∷ rest) =
    let others = those_in fields rest in if contains field fields then field ∷ others else others

-- `fields_for_select` of `values`, for arguments or keywords
unfoldable pub select_fields : List String → Dict String → Result (Dict String)
select_fields args kwargs = do
  selected ← add_fields (each_as_itself args) []
  add_fields kwargs selected

-- The same for a call without either: `{field: field for field in _fields}`, where a name that
-- comes twice is kept once
abbrev pub all_fields : List String → Dict String → Dict String
all_fields [] selected = selected
all_fields (field ∷ fields) selected = all_fields fields (insert field field selected)

module _ {V A : Type 0} where
  -- `all`
  unfoldable pub all : QuerySet V A → QuerySet V A
  all q = clone q

  -- `count`
  unfoldable pub count : QuerySet V A → CountQuery V A
  count q = record {
    q_objects = q.q_objects;
    annotations = q.annotations;
    limit = q.limit;
    offset = offset_or_zero q.offset;
    force_indexes = q.force_indexes;
    use_indexes = q.use_indexes;
  }

  -- `exists`
  unfoldable pub exists : QuerySet V A → ExistsQuery V A
  exists q = record {
    q_objects = q.q_objects;
    annotations = q.annotations;
    force_indexes = q.force_indexes;
    use_indexes = q.use_indexes;
  }

  -- `update`, and `delete` without values
  unfoldable pub update_with : {W : Type 0} → Dict W → QuerySet V A → ChangeQuery V A W
  update_with values q = record {
    update_kwargs = values;
    q_objects = q.q_objects;
    annotations = q.annotations;
    limit = q.limit;
    orderings = q.orderings;
  }

  -- The query of `values`, for the fields that were chosen
  abbrev pub values_query : Dict String → QuerySet V A → ValuesQuery V A
  values_query selected q = record {
    fields_for_select = selected;
    q_objects = q.q_objects;
    annotations = q.annotations;
    single = q.single;
    raise_does_not_exist = q.raise_does_not_exist;
    distinct = q.distinct;
    limit = q.limit;
    offset = q.offset;
    orderings = q.orderings;
    group_bys = q.group_bys;
    force_indexes = q.force_indexes;
    use_indexes = q.use_indexes;
  }

  -- `values`; `names` are the model's fields in the order of `fields_map`, `columns` those of
  -- `fields_db_projection`.
  unfoldable pub values :
      List String
      → List String
      → List String
      → Dict String
      → QuerySet V A
      → Result (ValuesQuery V A)
  values names columns [] [] q =
      ok (values_query (all_fields (those_in columns names ++ keys q.annotations) []) q)
  values names columns [] (kwarg ∷ kwargs) q = do
    selected ← select_fields [] (kwarg ∷ kwargs)
    ok (values_query selected q)
  values names columns (arg ∷ args) kwargs q = do
    selected ← select_fields (arg ∷ args) kwargs
    ok (values_query selected q)

insert-new :
    (k v : String) (d : Dict String) → has_key k d ≡ false → insert k v d ≡ d ++ (k, v) ∷ []
insert-new k v [] h = refl
insert-new k v ((j, w) ∷ d) h = ground (arith, insert-new k v d)

add_fields-append :
    (new selected out : Dict String) → add_fields new selected ≡ ok out → out ≡ selected ++ new
add_fields-append [] selected out h = let e : selected ≡ out = cc in rw (← e, append-nil)
add_fields-append ((name, field) ∷ rest) selected out h =
    elim (Bool-cases (has_key name selected)) [
      | inl there ↦ absurd (ground arith)
      | inr new ↦
          let go : add_fields rest (insert name field selected) ≡ ok out = ground arith in
          add_fields-append rest (insert name field selected) out go
          ∙ ap (λ d. d ++ rest) (insert-new name field selected new)
          ∙ append_assoc selected ((name, field) ∷ []) rest
    ]

-- `values` with names to select takes each under its name, the arguments first, all in the order of
-- the call; it accepts no name twice.
select_fields-order :
    (args : List String) (kwargs selected : Dict String)
    → select_fields args kwargs ≡ ok selected
    → selected ≡ each_as_itself args ++ kwargs
unfolding select_fields
select_fields-order args kwargs selected h =
    let (first, h1, h2) = >>=-eq-ok (add_fields (each_as_itself args) []) _ h in
    add_fields-append kwargs first selected h2
    ∙ ap (λ d. d ++ kwargs) (add_fields-append (each_as_itself args) [] first h1)
