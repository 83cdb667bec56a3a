-- ===== src/Filters/Meaning.antt =====
-- What the criteria of tortoise/filters.py ask of a row, in SQL's three truth values, and how a
-- lookup is found in the dicts of that file.
use text.Mathlib.TextLemmas.{cons-append, nil-append}
use tortoise_orm_zh_cn.Base.{
  ◌≡◌, refl, Bool, true, false, not, String, List, [], ◌∷◌, Option, none, some, arith, ◌==◌, eq_iff,
  is_some,
}
use tortoise_orm_zh_cn.Base.Dict.{Dict, lookup}
use tortoise_orm_zh_cn.Base.Keys.{Keys}
use tortoise_orm_zh_cn.Criteria.{Pypika}
use tortoise_orm_zh_cn.Criteria.Truth.{Truth, holds, fails, unknown, not3, or3}
use tortoise_orm_zh_cn.Criteria.Meaning.{Reading}
use tortoise_orm_zh_cn.Filters.{Terms}
use tortoise_orm_zh_cn.Filters.Tables.{plus, named}

abbrev pub as_truth : Bool → Truth
as_truth true = holds
as_truth false = fails

module _ {V : Type 0} (values : Keys V) where
  -- `a = b`, unknown if one of them is NULL
  abbrev pub eq3 : Option V → Option V → Truth
  eq3 none b = unknown
  eq3 (some a) none = unknown
  eq3 (some a) (some b) = as_truth (values.same a b)

  -- `a IN (b, …)`
  abbrev pub in3 : Option V → List (Option V) → Truth
  in3 a [] = fails
  in3 a (b ∷ bs) = or3 (eq3 a b) (in3 a bs)

-- How a database reads the terms on one row: the columns, and the criteria that are made of them.
pub record RowReading {P : Pypika} (T : Terms P) : Type 0 where
  pub reading : Reading P
  pub values : Keys T.Value
  pub column : T.Term → Option T.Value
  pub value-equal :
      (t : T.Term) (v : Option T.Value) → reading.value (T.equal t v) ≡ eq3 values (column t) v
  pub value-differ :
      (t : T.Term) (v : Option T.Value)
      → reading.value (T.differ t v) ≡ not3 (eq3 values (column t) v)
  pub value-isin :
      (t : T.Term) (vs : List (Option T.Value))
      → reading.value (T.isin t vs) ≡ in3 values (column t) vs
  pub value-notin :
      (t : T.Term) (vs : List (Option T.Value))
      → reading.value (T.notin t vs) ≡ not3 (in3 values (column t) vs)
  pub value-isnull : (t : T.Term) → reading.value (T.isnull t) ≡ as_truth (not (is_some (column t)))
  pub value-notnull : (t : T.Term) → reading.value (T.notnull t) ≡ as_truth (is_some (column t))
  pub value-always : reading.value T.always ≡ holds
  pub value-never : reading.value T.never ≡ fails

cons-eq : (c : _) (a b : String) → (String.◌∷◌ c a == String.◌∷◌ c b) ≡ (a == b)
cons-eq c a b = ground (arith, eq_iff a b, eq_iff (String.◌∷◌ c a) (String.◌∷◌ c b))

plus-eq : (f a b : String) → (plus f a == plus f b) ≡ (a == b)
plus-eq String.[] a b = rw (nil-append a, nil-append b)
plus-eq (String.◌∷◌ c f) a b =
    rw (cons-append c f a, cons-append c f b, cons-eq c (plus f a) (plus f b)) (plus-eq f a b)

-- The name of the field stands before every key, so what follows it decides.
pub lookup-named :
    {A : Type 0} (f s : String) (d : Dict A) → lookup (plus f s) (named f d) ≡ lookup s d
lookup-named f s [] = refl
lookup-named f s ((suffix, info) ∷ d) = ground (arith, plus-eq f suffix s, lookup-named f s d)
