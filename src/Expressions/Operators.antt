-- ===== src/Expressions/Operators.antt =====
-- `Q.__init__`, `&`, `|` and `~` of tortoise/expressions.py, by what the results ask of a row.
use tortoise_orm_zh_cn.Base.{◌≡◌, refl, ◌∙◌, false, String, [], ◌∷◌, Option, arith}
use tortoise_orm_zh_cn.Base.Dict.{Dict}
use tortoise_orm_zh_cn.Base.Errors.{Result, ok, ◌>>=◌}
use tortoise_orm_zh_cn.Criteria.{Pypika, QueryModifier}
use tortoise_orm_zh_cn.Criteria.Truth.{Truth, none_of}
use tortoise_orm_zh_cn.Criteria.Meaning.{Reading}
use tortoise_orm_zh_cn.Expressions.{
  JoinType, and_join, or_join, Q, Qs, node, nil, cons, make_q, and_q, or_q, negate_q, invert_q,
  resolve,
}
use tortoise_orm_zh_cn.Expressions.Value.{
  join_values, q_value, qs_value, kwargs_value, read, kwarg_reads, resolve-q_value,
}

-- What `__init__` guarantees of a `Q`: it has children or filters, never both.
abbrev pub HasOneKind : {V : Type 0} → Q V → Type 0
HasOneKind (node nil fs j n) = Unit
HasOneKind (node (cons q qs) [] j n) = Unit
HasOneKind (node (cons q qs) (f ∷ fs) j n) = ⊥

abbrev pub joined : JoinType → Result (Option Truth) → Result (Option Truth) → Result (Option Truth)
joined j r s = do a ← r; b ← s; ok (join_values j a b)

abbrev pub opposite : Result (Option Truth) → Result (Option Truth)
opposite r = do a ← r; ok (none_of a)

-- A `Q` without its own negation.
abbrev pub plain : {V : Type 0} → Q V → Q V
plain (node cs fs j n) = node cs fs j false

module _ {V : Type 0} where
  pub make_q-HasOneKind :
      (args : Qs V) (j : JoinType) (kwargs : Dict V) → HasOneKind (make_q args j kwargs)
  make_q-HasOneKind nil j kwargs = tt
  make_q-HasOneKind (cons q qs) j [] = tt
  make_q-HasOneKind (cons q qs) j (f ∷ fs) = tt

  invert_q-node : (q : Q V) → HasOneKind q → invert_q q ≡ negate_q (plain q)
  unfolding invert_q
  invert_q-node (node nil fs j n) h = refl
  invert_q-node (node (cons q qs) [] j n) h = refl
  invert_q-node (node (cons q qs) (f ∷ fs) j n) h = absurd h

  -- `~` forgets that its operand is negated already: `~~q` is `~q`, for every `Q` that the
  -- constructor can make.
  pub invert_q-invert_q : (q : Q V) → HasOneKind q → invert_q (invert_q q) ≡ invert_q q
  unfolding invert_q
  invert_q-invert_q (node nil fs j n) h = refl
  invert_q-invert_q (node (cons q qs) [] j n) h = refl
  invert_q-invert_q (node (cons q qs) (f ∷ fs) j n) h = absurd h

  module _ (f : String → V → Result (Option Truth)) where
    q_value-negate_q : (q : Q V) → q_value f (negate_q (plain q)) ≡ opposite (q_value f (plain q))
    unfolding q_value negate_q
    q_value-negate_q (node cs [] j n) = ground arith
    q_value-negate_q (node cs (k ∷ fs) j n) = ground arith

    q_value-pair :
        (j : JoinType) (a b : Q V)
        → q_value f (make_q (cons a (cons b nil)) j []) ≡ joined j (q_value f a) (q_value f b)
    unfolding q_value
    q_value-pair j a b = ground arith

    q_value-make_q :
        (args : Qs V) (j : JoinType) (kwargs : Dict V)
        → q_value f (make_q args j kwargs) ≡ joined j (kwargs_value f j kwargs) (qs_value f j args)
    unfolding q_value kwargs_value
    q_value-make_q nil j kwargs = ground arith
    q_value-make_q (cons q qs) j [] = ground arith
    q_value-make_q (cons q qs) j (k ∷ fs) = ground arith

module _ {P : Pypika} (R : Reading P) {J V : Type 0}
    (resolve_kwarg : String → V → Result (QueryModifier P.Criterion J)) where
  -- What `q.resolve()` asks, or its error.
  abbrev pub resolved : Q V → Result (Option Truth)
  resolved q = read R (resolve P resolve_kwarg q)

  -- `a & b` asks for what `a` asks and what `b` asks, and `a | b` for either, in SQL's logic; an
  -- operand with no condition is neutral, and the first operand that cannot be resolved is the error.
  resolved-and_q-or_q :
      (a b : Q V)
      → (resolved (and_q a b) ≡ joined and_join (resolved a) (resolved b))
        × (resolved (or_q a b) ≡ joined or_join (resolved a) (resolved b))
  unfolding and_q or_q
  resolved-and_q-or_q a b = (
    simp (resolve-q_value R resolve_kwarg)
        (q_value-pair (kwarg_reads R resolve_kwarg) and_join a b),
    simp (resolve-q_value R resolve_kwarg) (q_value-pair (kwarg_reads R resolve_kwarg) or_join a b),
  )

  -- `Q(*args, join_type=j, **kwargs)` joins the keyword filters, in their order, and then the
  -- arguments, whether or not both are given.
  resolved-make_q :
      (args : Qs V) (j : JoinType) (kwargs : Dict V)
      → resolved (make_q args j kwargs)
        ≡ joined j
            (kwargs_value (kwarg_reads R resolve_kwarg) j kwargs)
            (qs_value (kwarg_reads R resolve_kwarg) j args)
  resolved-make_q args j kwargs =
      resolve-q_value R resolve_kwarg (make_q args j kwargs)
      ∙ q_value-make_q (kwarg_reads R resolve_kwarg) args j kwargs

  -- `~q` asks the opposite of what `q` asks without its own negation, for every `Q` that the
  -- constructor can make. So `~q` is the negation of a `q` that is not negated, and of one that is
  -- negated it asks what `q` itself asks.
  resolved-invert_q :
      (q : Q V) → HasOneKind q → resolved (invert_q q) ≡ opposite (resolved (plain q))
  resolved-invert_q q h =
      rw (invert_q-node q h)
        (simp (resolve-q_value R resolve_kwarg) (q_value-negate_q (kwarg_reads R resolve_kwarg) q))
