-- ===== src/Expressions/Value.antt =====
-- What a `Q` asks of a row, by recursion on it, and that `resolve` says just that.
use tortoise_orm_zh_cn.Base.{
  ◌≡◌, refl, ap, ◌∙◌, Bool, true, false, String, [], ◌∷◌, Option, none, arith, if◌then◌else◌,
}
use tortoise_orm_zh_cn.Base.Dict.{Dict}
use tortoise_orm_zh_cn.Base.Errors.{Result, ok, err, ◌>>=◌}
use tortoise_orm_zh_cn.Criteria.{Pypika, QueryModifier, no_modifier}
use tortoise_orm_zh_cn.Criteria.Truth.{Truth, all_of, any_of, none_of}
use tortoise_orm_zh_cn.Criteria.Meaning.{
  Reading, asks, asks-and_modifiers, asks-or_modifiers, asks-invert_modifier,
}
use tortoise_orm_zh_cn.Expressions.{
  JoinType, and_join, or_join, Q, Qs, node, nil, cons, join_modifiers, negate_if, resolve_kwargs,
  resolve, resolve_children,
}

abbrev pub join_values : JoinType → Option Truth → Option Truth → Option Truth
join_values and_join = all_of
join_values or_join = any_of

abbrev pub negate_value_if : Bool → Option Truth → Option Truth
negate_value_if n a = if n then none_of a else a

join_values_assoc :
    (j : JoinType) (a b c : Option Truth)
    → join_values j (join_values j a b) c ≡ join_values j a (join_values j b c)
join_values_assoc and_join a b c = ground arith
join_values_assoc or_join a b c = ground arith

-- The condition that a `Q` states, from those of its keyword filters. The first filter that cannot
-- be resolved, in the order of writing, is the error.
module _ {V : Type 0} (kwarg_value : String → V → Result (Option Truth)) where
  unfoldable pub kwargs_value : JoinType → Dict V → Result (Option Truth)
  kwargs_value j [] = ok none
  kwargs_value j ((k, v) ∷ fs) = do
    a ← kwarg_value k v
    b ← kwargs_value j fs
    ok (join_values j a b)

  unfoldable mutual
    pub q_value : Q V → Result (Option Truth)
    q_value (node cs [] j n) = do a ← qs_value j cs; ok (negate_value_if n a)
    q_value (node cs (f ∷ fs) j n) = do a ← kwargs_value j (f ∷ fs); ok (negate_value_if n a)

    pub qs_value : JoinType → Qs V → Result (Option Truth)
    qs_value j nil = ok none
    qs_value j (cons q qs) = do a ← q_value q; b ← qs_value j qs; ok (join_values j a b)

-- The rest of a loop whose modifier so far asks `a`.
abbrev then_join : JoinType → Option Truth → Result (Option Truth) → Result (Option Truth)
then_join j a r = do b ← r; ok (join_values j a b)

then_join-join :
    (j : JoinType) (a b : Option Truth) (r : Result (Option Truth))
    → then_join j (join_values j a b) r ≡ then_join j a (then_join j b r)
then_join-join j a b (ok c) = ap ok (join_values_assoc j a b c)
then_join-join j a b (err e) = refl

module _ {P : Pypika} (R : Reading P) {J : Type 0} where
  -- What a result asks, or its error.
  abbrev pub read : Result (QueryModifier P.Criterion J) → Result (Option Truth)
  read r = do m ← r; ok (asks R m)

  asks-join_modifiers :
      (j : JoinType) (m n : QueryModifier P.Criterion J)
      → asks R (join_modifiers P j m n) ≡ join_values j (asks R m) (asks R n)
  asks-join_modifiers and_join m n = (asks-and_modifiers R m n).0
  asks-join_modifiers or_join m n = (asks-or_modifiers R m n).0

  asks-negate_if :
      (n : Bool) (m : QueryModifier P.Criterion J)
      → asks R (negate_if P n m) ≡ negate_value_if n (asks R m)
  asks-negate_if true m = (asks-invert_modifier R m).0
  asks-negate_if false m = refl

  -- One round of a loop: `r` is what the round resolves, `rest` the rest of the loop.
  loop_round :
      (j : JoinType) (m : QueryModifier P.Criterion J) (r : Result (QueryModifier P.Criterion J))
      (rest : QueryModifier P.Criterion J → Result (QueryModifier P.Criterion J))
      (v w : Result (Option Truth))
      → read r ≡ v
      → ((n : QueryModifier P.Criterion J)
          → read (rest (join_modifiers P j m n)) ≡ then_join j (asks R (join_modifiers P j m n)) w)
      → read (r >>= λ n. rest (join_modifiers P j m n))
        ≡ then_join j (asks R m) (v >>= λ a. w >>= λ b. ok (join_values j a b))
  loop_round j m (ok n) rest v w h loop =
      loop n
      ∙ ap (λ a. then_join j a w) (asks-join_modifiers j m n)
      ∙ then_join-join j (asks R m) (asks R n) w
      ∙ ap (λ x. then_join j (asks R m) (x >>= λ a. w >>= λ b. ok (join_values j a b))) h
  loop_round j m (err e) rest v w h loop = rw (← h)

  -- The end of `resolve`, after either loop.
  finish :
      (n : Bool) (loop : Result (QueryModifier P.Criterion J)) (j : JoinType)
      (r : Result (Option Truth))
      → read loop ≡ then_join j none r
      → read (loop >>= λ m. ok (negate_if P n m)) ≡ (r >>= λ a. ok (negate_value_if n a))
  finish n (ok m) and_join (ok c) h = cc (asks-negate_if n m)
  finish n (ok m) or_join (ok c) h = cc (asks-negate_if n m)
  finish n (ok m) j (err e) h = cc
  finish n (err e) j (ok c) h = cc
  finish n (err e) j (err d) h = h

module _ {P : Pypika} (R : Reading P) {J V : Type 0}
    (resolve_kwarg : String → V → Result (QueryModifier P.Criterion J)) where
  abbrev pub kwarg_reads : String → V → Result (Option Truth)
  kwarg_reads k v = read R (resolve_kwarg k v)

  kwargs_loop :
      (j : JoinType) (fs : Dict V) (m : QueryModifier P.Criterion J)
      → read R (resolve_kwargs P resolve_kwarg j fs m)
        ≡ then_join j (asks R m) (kwargs_value kwarg_reads j fs)
  unfolding resolve_kwargs kwargs_value
  kwargs_loop j [] m = ground arith
  kwargs_loop j ((k, v) ∷ fs) m =
      loop_round R j m (resolve_kwarg k v) (resolve_kwargs P resolve_kwarg j fs) (kwarg_reads k v) _
        refl (λ n. kwargs_loop j fs (join_modifiers P j m n))

  mutual
    unfolding resolve q_value kwargs_value

    resolve-value : (q : Q V) → read R (resolve P resolve_kwarg q) ≡ q_value kwarg_reads q
    resolve-value (node cs [] j n) = finish R n _ j _ (children_loop j cs no_modifier)
    resolve-value (node cs (f ∷ fs) j n) = finish R n _ j _ (kwargs_loop j (f ∷ fs) no_modifier)

    children_loop :
        (j : JoinType) (qs : Qs V) (m : QueryModifier P.Criterion J)
        → read R (resolve_children P resolve_kwarg j qs m)
          ≡ then_join j (asks R m) (qs_value kwarg_reads j qs)
    children_loop j nil m = ground arith
    children_loop j (cons q qs) m =
        loop_round R j m (resolve P resolve_kwarg q) (resolve_children P resolve_kwarg j qs)
          (q_value kwarg_reads q) _ (resolve-value q)
          (λ n. children_loop j qs (join_modifiers P j m n))

  -- `resolve` succeeds exactly when every filter that it reaches can be resolved, fails with the
  -- error of the first that cannot, and its modifier asks what the `Q` states.
  pub resolve-q_value : (q : Q V) → read R (resolve P resolve_kwarg q) ≡ q_value kwarg_reads q
  resolve-q_value q = resolve-value q
