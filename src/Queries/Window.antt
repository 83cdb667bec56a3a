-- ===== src/Queries/Window.antt =====
-- `limit`, `offset` and slices of a query set, by the rows that they leave.
use tortoise_orm_zh_cn.Base.{
  ℕ, zero, suc, ◌-◌, ◌<◌, ◌≡◌, refl, List, [], ◌∷◌, Option, none, some, take, drop, arith,
}
use tortoise_orm_zh_cn.Base.Int.{ℤ, pos, negsuc}
use tortoise_orm_zh_cn.Base.Dict.{Dict}
use tortoise_orm_zh_cn.Base.Errors.{Result, ok, err}
use tortoise_orm_zh_cn.Queries.{
  Meta, QuerySet, Arg, Key, absent, int, slice, set_limit, set_offset, get_item, filter_or_exclude,
  get, first,
}
use tortoise_orm_zh_cn.Queries.Rows.{window}

-- No number, or one that is not negative.
abbrev pub IsNatural : Option ℤ → Type 0
IsNatural none = Unit
IsNatural (some (pos n)) = Unit
IsNatural (some (negsuc n)) = ⊥

abbrev pub IsWindow : {V A : Type 0} → QuerySet V A → Type 0
IsWindow q = IsNatural q.limit × IsNatural q.offset

-- The given result is an error or satisfies the predicate.
abbrev pub IfOk {ℓ κ} : {X : Type ℓ} → (X → Type κ) → Result X → Type κ
IfOk P (ok x) = P x
IfOk P (err e) = Unit

take-nil : {X : Type 0} (n : ℕ) → take {A = X} n [] ≡ []
take-nil zero = refl
take-nil (suc n) = refl

drop-take :
    {X : Type 0} (m n : ℕ) (xs : List X) → m < n → take (n - m) (drop m xs) ≡ drop m (take n xs)
drop-take zero n xs h = ground arith
drop-take (suc m) zero xs h = absurd (omega arith)
drop-take (suc m) (suc n) [] h = take-nil (suc n - suc m)
drop-take (suc m) (suc n) (x ∷ xs) h =
    let e : suc n - suc m ≡ n - m = omega arith in rw e (drop-take m n xs (omega arith))

module _ {V A : Type 0} where
  set_limit-IsWindow : (n : ℤ) (q : QuerySet V A) → IsWindow q → IfOk IsWindow (set_limit n q)
  unfolding set_limit
  set_limit-IsWindow (pos n) q v = (tt, v.1)
  set_limit-IsWindow (negsuc n) q v = tt

  set_offset-IsWindow :
      (meta : Meta) (n : ℤ) (q : QuerySet V A) → IsWindow q → IfOk IsWindow (set_offset meta n q)
  unfolding set_offset
  set_offset-IsWindow meta n q v = ground arith

  get_item-IsWindow :
      (meta : Meta) (key : Key) (q : QuerySet V A)
      → IsWindow q
      → IfOk IsWindow (get_item meta key q)
  unfolding get_item set_offset set_limit
  get_item-IsWindow meta key q v = ground arith

  -- `queryset[start:stop]` is accepted for `0 <= start < stop`, and of all rows it leaves those that
  -- Python's slice `rows[start:stop]` has, whatever limit and offset were set before.
  pub get_item-slice :
      {X : Type 0} (meta : Meta) (start stop : ℕ) (q : QuerySet V A) (xs : List X)
      → start < stop
      → (q' : QuerySet V A) × (get_item meta (slice (int (pos start)) (int (pos stop)) absent) q
          ≡ ok q')
        × (window q'.limit q'.offset xs ≡ drop start (take stop xs))
  unfolding get_item set_offset set_limit
  get_item-slice meta start (suc stop) q xs h = (
    record q { limit = some (pos (suc stop - start)); offset = some (pos start) },
    ground arith,
    drop-take start (suc stop) xs h,
  )
  get_item-slice meta start zero q xs h = absurd (omega arith)

  -- No method stores a negative limit or offset: from a query set without one, `limit`, `offset` and
  -- slices raise an error or return one without, and so do `get` and `first`.
  methods-IsWindow :
      (meta : Meta) (m n : ℤ) (key : Key) (args : List (Arg V)) (kwargs : Dict V) (q : QuerySet V A)
      → IsWindow q
      → IfOk IsWindow (set_limit m q)
        × IfOk IsWindow (set_offset meta n q)
        × IfOk IsWindow (get_item meta key q)
        × IfOk IsWindow (get args kwargs q)
        × IsWindow (first q)
  unfolding get first filter_or_exclude
  methods-IsWindow meta m n key args kwargs q v = (
    set_limit-IsWindow m q v,
    set_offset-IsWindow meta n q v,
    get_item-IsWindow meta key q v,
    ground arith,
    (tt, v.1),
  )
