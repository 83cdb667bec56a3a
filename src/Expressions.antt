-- ===== src/Expressions.antt =====
-- tortoise/expressions.py: `Q`, its operators and its resolution into a `QueryModifier`.
-- The resolution of one keyword filter is an argument, `resolve_kwarg`; `_annotations` and
-- `_custom_filters`, which the code copies from each node to its children, belong to it.
pub mod Value
pub mod Operators
mod Tests
use tortoise_orm_zh_cn.Base.{
  Bool, true, false, not, ◌&&◌, String, List, [], ◌∷◌, ◌==◌, if◌then◌else◌,
}
use tortoise_orm_zh_cn.Base.Dict.{Dict}
use tortoise_orm_zh_cn.Base.Errors.{Result, ok, err, operational_error, ◌>>=◌}
use tortoise_orm_zh_cn.Criteria.{
  Pypika, QueryModifier, no_modifier, and_modifiers, or_modifiers, invert_modifier,
}

pub data JoinType : Type 0 where
  and_join or_join : JoinType

mutual
  -- `node children filters join_type _is_negated`
  pub data Q (V : Type 0) : Type 0 where
    node : Qs V → Dict V → JoinType → Bool → Q V

  pub data Qs (V : Type 0) : Type 0 where
    nil : Qs V
    cons : Q V → Qs V → Qs V

-- `join_type not in {self.AND, self.OR}`
abbrev pub read_join_type : String → Result JoinType
read_join_type s =
    if s == "AND" then ok and_join else if s == "OR" then ok or_join else err operational_error

module _ {V : Type 0} where
  -- `Q.__init__` for a join type that is one of the two
  abbrev pub make_q : Qs V → JoinType → Dict V → Q V
  make_q nil j kwargs = node nil kwargs j false
  make_q (cons q qs) j [] = node (cons q qs) [] j false
  make_q (cons q qs) j (f ∷ fs) = node (cons (node nil (f ∷ fs) j false) (cons q qs)) [] j false

  -- `Q(*args, join_type=join_type, **kwargs)`
  unfoldable pub init_q : Qs V → String → Dict V → Result (Q V)
  init_q args join_type kwargs = do j ← read_join_type join_type; ok (make_q args j kwargs)

  -- `Q.__and__`
  unfoldable pub and_q : Q V → Q V → Q V
  and_q a b = make_q (cons a (cons b nil)) and_join []

  -- `Q.__or__`
  unfoldable pub or_q : Q V → Q V → Q V
  or_q a b = make_q (cons a (cons b nil)) or_join []

  -- `Q.negate`, which changes the object in place
  unfoldable pub negate_q : Q V → Q V
  negate_q (node cs fs j n) = node cs fs j (not n)

  -- `Q.__invert__`
  unfoldable pub invert_q : Q V → Q V
  unfolding negate_q
  invert_q (node cs fs j n) = negate_q (make_q cs j fs)

module _ (P : Pypika) {J : Type 0} where
  -- `modifier &= …` or `modifier |= …`
  abbrev pub join_modifiers :
      JoinType
      → QueryModifier P.Criterion J
      → QueryModifier P.Criterion J
      → QueryModifier P.Criterion J
  join_modifiers and_join = and_modifiers P
  join_modifiers or_join = or_modifiers P

  -- `if self._is_negated: modifier = ~modifier`
  abbrev pub negate_if : Bool → QueryModifier P.Criterion J → QueryModifier P.Criterion J
  negate_if n m = if n then invert_modifier P m else m

  module _ {V : Type 0} (resolve_kwarg : String → V → Result (QueryModifier P.Criterion J)) where
    -- The loop of `_resolve_kwargs`, over the filters in their order
    unfoldable pub resolve_kwargs :
        JoinType → Dict V → QueryModifier P.Criterion J → Result (QueryModifier P.Criterion J)
    resolve_kwargs j [] modifier = ok modifier
    resolve_kwargs j ((key, value) ∷ fs) modifier = do
      filter_modifier ← resolve_kwarg key value
      resolve_kwargs j fs (join_modifiers j modifier filter_modifier)

    unfoldable mutual
      -- `Q.resolve`, which goes to `_resolve_kwargs` if there are filters
      pub resolve : Q V → Result (QueryModifier P.Criterion J)
      resolve (node cs [] j n) = do
        modifier ← resolve_children j cs no_modifier
        ok (negate_if n modifier)
      resolve (node cs (f ∷ fs) j n) = do
        modifier ← resolve_kwargs j (f ∷ fs) no_modifier
        ok (negate_if n modifier)

      -- The loop of `_resolve_children`
      pub resolve_children :
          JoinType → Qs V → QueryModifier P.Criterion J → Result (QueryModifier P.Criterion J)
      resolve_children j nil modifier = ok modifier
      resolve_children j (cons q qs) modifier = do
        node_modifier ← resolve q
        resolve_children j qs (join_modifiers j modifier node_modifier)
