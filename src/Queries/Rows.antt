-- ===== src/Queries/Rows.antt =====
-- `QuerySet._execute` and `CountQuery._execute`: what is made of the rows that the database returns,
-- and what LIMIT and OFFSET make of all rows.
use tortoise_orm_zh_cn.Base.{
  ℕ, zero, suc, ◌-◌, ◌≡◌, ◌≢◌, refl, ap, ◌∙◌, Bool, true, false, not, List, [], ◌∷◌, Option, none,
  some, length, ltb, take, drop, length-take, length-drop, if◌then◌else◌, arith,
}
use tortoise_orm_zh_cn.Base.Int.{ℤ, pos, negsuc, lebℤ, ◌-ℤ◌}
use tortoise_orm_zh_cn.Base.Dict.{Dict}
use tortoise_orm_zh_cn.Base.Errors.{
  Result, ok, err, >>=-eq-ok, does_not_exist, multiple_objects_returned,
}
use tortoise_orm_zh_cn.Queries.{QuerySet, Arg, filter_or_exclude, get, first}

-- What a query returns: a list of objects, or one object or `None` for a single one.
pub data Answer (X : Type 0) : Type 0 where
  all_of_them : List X → Answer X
  one_of_them : X → Answer X
  no_object : Answer X

-- `QuerySet._execute`, on the objects of `execute_select`
unfoldable pub execute : {V A X : Type 0} → QuerySet V A → List X → Result (Answer X)
execute q xs = if not q.single then ok (all_of_them xs) else elim xs [
  | [] ↦ if q.raise_does_not_exist then err does_not_exist else ok no_object
  | x ∷ rest ↦ elim rest [ [] ↦ ok (one_of_them x) | y ∷ more ↦ err multiple_objects_returned ]
]

-- `if self.limit and count > self.limit: return self.limit`
abbrev pub count_within : Option ℤ → ℤ → ℤ
count_within none count = count
count_within (some (pos zero)) count = count
count_within (some limit) count = if not (lebℤ count limit) then limit else count

-- `offset or 0`
abbrev pub offset_or_zero : Option ℤ → ℤ
offset_or_zero none = pos 0
offset_or_zero (some n) = n

-- `CountQuery._execute`; `result` is the count in the row of the database, if it returns one.
unfoldable pub execute_count : Option ℤ → Option ℤ → Option ℤ → ℤ
execute_count limit offset none = pos 0
execute_count limit offset (some count) = count_within limit (count -ℤ offset_or_zero offset)

-- The rows that LIMIT and OFFSET leave. No method of a query set stores a negative number.
abbrev pub at_most : {X : Type 0} → Option ℤ → List X → List X
at_most (some (pos n)) xs = take n xs
at_most _ xs = xs

abbrev pub skip : {X : Type 0} → Option ℤ → List X → List X
skip (some (pos n)) xs = drop n xs
skip _ xs = xs

abbrev pub window : {X : Type 0} → Option ℤ → Option ℤ → List X → List X
window limit offset xs = at_most limit (skip offset xs)

-- The query, on all rows that match.
abbrev pub run : {V A X : Type 0} → QuerySet V A → List X → Result (Answer X)
run q xs = execute q (window q.limit q.offset xs)

-- One object for one row, and the given answers for none and for more.
abbrev pub exactly_one : {X : Type 0} → Result (Answer X) → List X → Result (Answer X)
exactly_one missing [] = missing
exactly_one missing (x ∷ []) = ok (one_of_them x)
exactly_one missing (x ∷ y ∷ xs) = err multiple_objects_returned

take-two :
    {X : Type 0} (missing : Result (Answer X)) (xs : List X)
    → exactly_one missing (take 2 xs) ≡ exactly_one missing xs
take-two missing [] = refl
take-two missing (x ∷ []) = refl
take-two missing (x ∷ y ∷ xs) = refl

module _ {V A : Type 0} where
  filter-offset :
      (negate : Bool) (args : List (Arg V)) (kwargs : Dict V) (q q' : QuerySet V A)
      → filter_or_exclude negate args kwargs q ≡ ok q'
      → q'.offset ≡ q.offset
  unfolding filter_or_exclude
  filter-offset negate args kwargs q q' h = ground arith

module _ {V A X : Type 0} where
  execute-single :
      (q : QuerySet V A) (xs : List X)
      → q.single ≡ true
      → execute q xs
        ≡ exactly_one (if q.raise_does_not_exist then err does_not_exist else ok no_object) xs
  unfolding execute
  execute-single q [] s = ground arith
  execute-single q (x ∷ []) s = ground arith
  execute-single q (x ∷ y ∷ xs) s = ground arith

  -- `get` returns the object if exactly one row matches after the query's offset, and raises
  -- DoesNotExist for none and MultipleObjectsReturned for more, whatever limit was set before; the
  -- LIMIT of 2 that it sets changes none of this.
  pub get-run :
      (args : List (Arg V)) (kwargs : Dict V) (q q' : QuerySet V A) (xs : List X)
      → get args kwargs q ≡ ok q'
      → run q' xs ≡ exactly_one (err does_not_exist) (skip q.offset xs)
  unfolding get
  get-run args kwargs q q' xs h =
      let (f, hf, e) = >>=-eq-ok (filter_or_exclude false args kwargs q) _ h in
      let e' : record f { limit = some (pos 2); single = true; raise_does_not_exist = true } ≡ q' =
        cc in
      rw (← e') (
        execute-single _ (take 2 (skip f.offset xs)) refl
        ∙ take-two (err does_not_exist) (skip f.offset xs)
        ∙ ap (λ o. exactly_one (err does_not_exist) (skip o xs))
            (filter-offset false args kwargs q f hf))

  -- `first` returns the first of the rows after the query's offset, or `None` where the query does
  -- not raise.
  first-run :
      (q : QuerySet V A) (xs : List X)
      → run (first q) xs ≡ (elim (skip q.offset xs) [
        | [] ↦ if q.raise_does_not_exist then err does_not_exist else ok no_object
        | x ∷ rest ↦ ok (one_of_them x)
      ])
  unfolding first execute
  first-run q xs = ground arith

-- `count` is the number of rows that the query returns, if the offset is not past the last row and
-- the limit is not 0: if there is none, or one above 0. Past the last row it is a negative number.
pub execute_count-window :
    {X : Type 0} (limit : Option ℤ) (offset : ℕ) (xs : List X)
    → limit ≢ some (pos 0)
    → ((n : ℕ) → limit ≢ some (negsuc n))
    → execute_count limit (some (pos offset)) (some (pos (length xs))) ≡ (
        if ltb (length xs) offset
        then negsuc (offset - suc (length xs))
        else pos (length (window limit (some (pos offset)) xs)))
unfolding execute_count
execute_count-window none offset xs n p = ground (arith, length-drop offset xs)
execute_count-window (some (negsuc k)) offset xs n p = absurd (p k refl)
execute_count-window (some (pos zero)) offset xs n p = absurd (n refl)
execute_count-window (some (pos (suc k))) offset xs n p =
    ground (arith, length-drop offset xs, length-take (suc k) (drop offset xs))
