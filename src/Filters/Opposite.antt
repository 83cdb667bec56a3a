-- ===== src/Filters/Opposite.antt =====
-- The lookups of tortoise/filters.py that come in pairs: `__not`, `__not_in` and `__not_isnull`
-- beside the lookups without their `not`.
use tortoise_orm_zh_cn.Base.{
  ◌≡◌, refl, ◌↔◌, ◌≢◌, Bool, true, false, not, String, List, [], ◌∷◌, Option, none, some, arith,
  is_some, ◌∙◌,
}
use tortoise_orm_zh_cn.Base.Dict.{Dict, lookup}
use tortoise_orm_zh_cn.Base.Errors.{ok}
use tortoise_orm_zh_cn.Criteria.{Pypika, term}
use tortoise_orm_zh_cn.Criteria.Truth.{Truth, holds, fails, unknown, not3, or3}
use tortoise_orm_zh_cn.Filters.{
  Terms, Operator, eq, not_equal, is_in, not_in, is_null, not_null, Arg, one, several, flag, text,
  apply_operator,
}
use tortoise_orm_zh_cn.Filters.Tables.{
  FilterInfo, Field, many_to_many, backward, json, plain, missing, plus, named,
  get_filters_for_field, get_m2m_filters, get_backward_fk_filters, get_json_filter, m2m_lookups,
  backward_fk_lookups, json_lookups, plain_lookups, through, own, actual_name,
}
use tortoise_orm_zh_cn.Filters.Meaning.{as_truth, eq3, in3, RowReading, lookup-named}

pub data Pair : Type 0 where
  by_value by_list by_null : Pair

abbrev pub suffix : Pair → String
suffix by_value = ""
suffix by_list = "__in"
suffix by_null = "__isnull"

abbrev pub not_suffix : Pair → String
not_suffix by_value = "__not"
not_suffix by_list = "__not_in"
not_suffix by_null = "__not_isnull"

abbrev pub asked : Pair → Operator
asked by_value = eq
asked by_list = is_in
asked by_null = is_null

abbrev pub not_asked : Pair → Operator
not_asked by_value = not_equal
not_asked by_list = not_in
not_asked by_null = not_null

-- Which pairs the dict of a field has
abbrev pub offers : Field → Pair → Bool
offers (many_to_many f b t) by_null = false
offers json by_list = false
offers f p = true

abbrev pub no_none : {V : Type 0} → List (Option V) → Bool
no_none [] = true
no_none (none ∷ vs) = false
no_none (some v ∷ vs) = no_none vs

-- A value for the lookup that has no `None` in it
abbrev pub plain_arg : {V : Type 0} → Pair → Arg V → Bool
plain_arg by_value (one (some v)) = true
plain_arg by_list (several vs) = no_none vs
plain_arg by_null (flag b) = true
plain_arg p arg = false

-- The same lookup, with another operator
abbrev pub with_operator : Operator → FilterInfo → FilterInfo
with_operator op info = record {
  field = info.field;
  source_field = info.source_field;
  operator = op;
  backward_key = info.backward_key;
  table = info.table;
  value_encoder = info.value_encoder;
}

abbrev HasPair : String → Dict FilterInfo → Pair → Type 0
HasPair name d p =
    (i : FilterInfo) × (lookup (plus name (suffix p)) d ≡ some i)
    × (i.operator ≡ asked p)
    × (lookup (plus name (not_suffix p)) d ≡ some (with_operator (not_asked p) i))

pair-named :
    (name : String) (d : Dict FilterInfo) (p : Pair) (i : FilterInfo)
    → lookup (suffix p) d ≡ some i
    → i.operator ≡ asked p
    → lookup (not_suffix p) d ≡ some (with_operator (not_asked p) i)
    → HasPair name (named name d) p
pair-named name d p i h o g =
    (i, lookup-named name (suffix p) d ∙ h, o, lookup-named name (not_suffix p) d ∙ g)

pair-plain :
    (name field source : String) (p : Pair)
    → HasPair name (named name (plain_lookups (own field source))) p
pair-plain name field source by_value =
    pair-named name (plain_lookups (own field source)) by_value _ refl refl refl
pair-plain name field source by_list =
    pair-named name (plain_lookups (own field source)) by_list _ refl refl refl
pair-plain name field source by_null =
    pair-named name (plain_lookups (own field source)) by_null _ refl refl refl

-- Both lookups of a pair are there, and differ in their operators alone.
pair_of_lookups :
    (name source : String) (f : Field) (p : Pair)
    → offers f p ≡ true
    → HasPair name (get_filters_for_field name f source) p
unfolding get_filters_for_field get_m2m_filters get_backward_fk_filters get_json_filter
pair_of_lookups name source (many_to_many f b t) by_value h =
    pair-named name (m2m_lookups (through f b t)) by_value _ refl refl refl
pair_of_lookups name source (many_to_many f b t) by_list h =
    pair-named name (m2m_lookups (through f b t)) by_list _ refl refl refl
pair_of_lookups name source (many_to_many f b t) by_null h = cc
pair_of_lookups name source (backward k r t) by_value h =
    pair-named name (backward_fk_lookups (through k r t)) by_value _ refl refl refl
pair_of_lookups name source (backward k r t) by_list h =
    pair-named name (backward_fk_lookups (through k r t)) by_list _ refl refl refl
pair_of_lookups name source (backward k r t) by_null h =
    pair-named name (backward_fk_lookups (through k r t)) by_null _ refl refl refl
pair_of_lookups name source json by_value h =
    pair-named name (json_lookups (own name source)) by_value _ refl refl refl
pair_of_lookups name source json by_list h = cc
pair_of_lookups name source json by_null h =
    pair-named name (json_lookups (own name source)) by_null _ refl refl refl
pair_of_lookups name source (plain m) p h = pair-plain name (actual_name name (plain m)) source p
pair_of_lookups name source missing p h = pair-plain name name source p

module _ {P : Pypika} {T : Terms P} (R : RowReading T) where
  open R use {reading, values, column}

  -- Whether the second criterion holds exactly on the rows on which the first does not
  abbrev pub Opposite : Operator → Operator → T.Term → Arg T.Value → Type 0
  Opposite op not_op t arg =
      (c d : P.Criterion) × (apply_operator T op t arg ≡ ok (term c))
      × (apply_operator T not_op t arg ≡ ok (term d))
      × ((reading.value d ≡ holds) ↔ (reading.value c ≢ holds))

  in3-known :
      (a : T.Value) (vs : List (Option T.Value))
      → no_none vs ≡ true
      → in3 values (some a) vs ≢ unknown
  in3-known a [] h = grind arith
  in3-known a (none ∷ vs) h = grind arith
  in3-known a (some v ∷ vs) h = ground (arith, in3-known a vs h)

  in3-null : (vs : List (Option T.Value)) → in3 values none vs ≢ holds
  in3-null [] = grind arith
  in3-null (v ∷ vs) = ground (arith, in3-null vs)

  -- A test that is unknown on NULL alone, against `not … or is null`
  not_or_null :
      (a : Option T.Value) (asks : Option T.Value → Truth)
      → (asks none ≢ holds)
      → ((v : T.Value) → asks (some v) ≢ unknown)
      → (or3 (not3 (asks a)) (as_truth (not (is_some a))) ≡ holds) ↔ (asks a ≢ holds)
  not_or_null none asks h g = ground arith
  not_or_null (some v) asks h g = ground (arith, g v)

  not_value :
      (t : T.Term) (v : T.Value)
      → (reading.value (P.disj (T.differ t (some v)) (T.isnull t)) ≡ holds)
        ↔ (reading.value (T.equal t (some v)) ≢ holds)
  not_value t v =
      rw
        (
          reading.value-disj (T.differ t (some v)) (T.isnull t),
          R.value-differ t (some v),
          R.value-isnull t,
          R.value-equal t (some v),
        )
        (not_or_null (column t) (λ a. eq3 values a (some v)) (grind arith) (λ a. ground arith))

  not_list :
      (t : T.Term) (vs : List (Option T.Value))
      → no_none vs ≡ true
      → (reading.value (P.disj (T.notin t vs) (T.isnull t)) ≡ holds)
        ↔ (reading.value (T.isin t vs) ≢ holds)
  not_list t vs h =
      rw
        (
          reading.value-disj (T.notin t vs) (T.isnull t),
          R.value-notin t vs,
          R.value-isnull t,
          R.value-isin t vs,
        )
        (not_or_null (column t) (λ a. in3 values a vs) (in3-null vs) (λ a. in3-known a vs h))

  opposite :
      (p : Pair) (t : T.Term) (arg : Arg T.Value)
      → plain_arg p arg ≡ true
      → Opposite (asked p) (not_asked p) t arg
  unfolding apply_operator
  opposite by_value t (one (some v)) h = (_, _, refl, refl, not_value t v)
  opposite by_value t (one none) h = cc
  opposite by_value t (several vs) h = cc
  opposite by_value t (flag b) h = cc
  opposite by_value t (text b) h = cc
  opposite by_list t (several []) h =
      (_, _, refl, refl, ground (arith, R.value-always, R.value-never))
  opposite by_list t (several (v ∷ vs)) h = (_, _, refl, refl, not_list t (v ∷ vs) h)
  opposite by_list t (one v) h = cc
  opposite by_list t (flag b) h = cc
  opposite by_list t (text b) h = cc
  opposite by_null t (flag true) h =
      (_, _, refl, refl, ground (arith, R.value-isnull t, R.value-notnull t))
  opposite by_null t (flag false) h =
      (_, _, refl, refl, ground (arith, R.value-isnull t, R.value-notnull t))
  opposite by_null t (one v) h = cc
  opposite by_null t (several b) h = cc
  opposite by_null t (text b) h = cc

  -- Every kind of field that has a lookup by value, by a list or for null has its negation beside
  -- it, on the same column of the same table and with the same encoder; and for a value without a
  -- `None`, the criterion of the negation holds exactly on the rows, those with NULL included, on
  -- which the criterion of the lookup does not hold.
  pub negated_lookup :
      (name source : String) (f : Field) (p : Pair) (t : T.Term) (arg : Arg T.Value)
      → offers f p ≡ true
      → plain_arg p arg ≡ true
      → let d = get_filters_for_field name f source in
        (i j : FilterInfo) × (lookup (plus name (suffix p)) d ≡ some i)
        × (lookup (plus name (not_suffix p)) d ≡ some j)
        × (j ≡ with_operator j.operator i)
        × Opposite i.operator j.operator t arg
  negated_lookup name source f p t arg h g =
      let (i, found, op, found_not) = pair_of_lookups name source f p h in
      (i, with_operator (not_asked p) i, found, found_not, refl, rw op (opposite p t arg g))

  in3-none :
      (a : T.Value) (vs : List (Option T.Value))
      → no_none vs ≡ false
      → in3 values (some a) vs ≢ fails
  in3-none a [] h = cc
  in3-none a (none ∷ vs) h = ground arith
  in3-none a (some v ∷ vs) h = ground (arith, in3-none a vs h)

  -- A test that never fails, against `not … or is null`
  only_null :
      (a : Option T.Value) (asks : Option T.Value → Truth)
      → ((v : T.Value) → asks (some v) ≢ fails)
      → (or3 (not3 (asks a)) (as_truth (not (is_some a))) ≡ holds) ↔ (a ≡ none)
  only_null none asks h = ground arith
  only_null (some v) asks h = ground (arith, h v)

  not_none :
      (t : T.Term)
      → (reading.value (P.disj (T.differ t none) (T.isnull t)) ≡ holds) ↔ (column t ≡ none)
  not_none t =
      rw
        (reading.value-disj (T.differ t none) (T.isnull t), R.value-differ t none, R.value-isnull t)
        (only_null (column t) (λ a. eq3 values a none) (grind arith))

  not_in_none :
      (t : T.Term) (vs : List (Option T.Value))
      → no_none vs ≡ false
      → (reading.value (P.disj (T.notin t vs) (T.isnull t)) ≡ holds) ↔ (column t ≡ none)
  not_in_none t vs h =
      rw (reading.value-disj (T.notin t vs) (T.isnull t), R.value-notin t vs, R.value-isnull t)
        (only_null (column t) (λ a. in3 values a vs) (λ a. in3-none a vs h))

  -- With a `None` as its value, or in its list, a negated lookup selects the rows with NULL and no
  -- others.
  pub negated_none :
      (t : T.Term) (vs : List (Option T.Value))
      → no_none vs ≡ false
      → (c d : P.Criterion) × (apply_operator T not_equal t (one none) ≡ ok (term c))
        × (apply_operator T not_in t (several vs) ≡ ok (term d))
        × ((reading.value c ≡ holds) ↔ (column t ≡ none))
        × ((reading.value d ≡ holds) ↔ (column t ≡ none))
  unfolding apply_operator
  negated_none t [] h = cc
  negated_none t (v ∷ vs) h = (_, _, refl, refl, not_none t, not_in_none t (v ∷ vs) h)
