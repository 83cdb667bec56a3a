-- ===== src/Executor/Plan/Planned.antt =====
-- What `prefetch_related` plans for each relation.
use tortoise_orm_zh_cn.Base.{
  ◌≡◌, refl, ap, ◌∙◌, Bool, true, false, String, List, [], ◌∷◌, ◌++◌, Option, none, some,
  if◌then◌else◌, ◌==◌, eq_iff, arith, contains, Bool-cases, inl, inr,
}
use tortoise_orm_zh_cn.Base.Dict.{lookup, lookup-insert}
use tortoise_orm_zh_cn.Base.Errors.{Result, Error, ok, err}
use tortoise_orm_zh_cn.Executor.Prefetch.{or_empty}
use tortoise_orm_zh_cn.Joins.{path_of}
use tortoise_orm_zh_cn.Executor.Plan.{
  Argument, name, prefetch, Plan, partition, add_to_set, plan_argument, relation_of,
  unknown_relation, plan_each, prefetch_related,
}

-- A step that is for another relation changes nothing.
abbrev pub step_for : {A : Type 0} → Bool → (A → A) → A → A
step_for true step o = step o
step_for false step o = o

module _ {Q : Type 0} where
  -- What is forwarded to a relation, after an argument for it with this rest
  abbrev pub map_step :
      Argument Q → String → Option (List (Argument Q)) → Option (List (Argument Q))
  map_step (name n) rest o =
      some (if rest == "" then or_empty o else add_to_set (name rest) (or_empty o))
  map_step (prefetch r q to_attr) rest o =
      if rest == "" then o else some (add_to_set (prefetch rest q to_attr) (or_empty o))

  -- The queries for a relation, after such an argument
  abbrev pub queries_step :
      Argument Q → String → Option (List (Option String × Q)) → Option (List (Option String × Q))
  queries_step (name n) rest o = o
  queries_step (prefetch r q to_attr) rest o =
      if rest == "" then some (or_empty o ++ (to_attr, q) ∷ []) else o

  -- What a list of arguments forwards to a relation, by the arguments that begin with it alone
  abbrev pub forwarded_to :
      String → List (Argument Q) → Option (List (Argument Q)) → Option (List (Argument Q))
  forwarded_to f [] o = o
  forwarded_to f (x ∷ args) o =
      let (first, rest) = partition (path_of (relation_of x)) in
      forwarded_to f args (step_for (first == f) (map_step x rest) o)

  -- The queries that it gives for the relation
  abbrev pub queries_for :
      String
      → List (Argument Q)
      → Option (List (Option String × Q))
      → Option (List (Option String × Q))
  queries_for f [] o = o
  queries_for f (x ∷ args) o =
      let (first, rest) = partition (path_of (relation_of x)) in
      queries_for f args (step_for (first == f) (queries_step x rest) o)

  -- The error of the first argument whose relation the model does not have
  abbrev pub first_error : List String → List (Argument Q) → Option Error
  first_error fetch_fields [] = none
  first_error fetch_fields (x ∷ args) =
      let more = first_error fetch_fields args in
      if contains ((partition (path_of (relation_of x))).0) fetch_fields
      then more
      else some (unknown_relation x)

  plan_argument-map :
      (x : Argument Q) (first rest f : String) (plan : Plan Q)
      → lookup f (plan_argument x (first, rest) plan).prefetch_map
        ≡ step_for (first == f) (map_step x rest) (lookup f plan.prefetch_map)
  plan_argument-map (name n) first rest f plan =
      let old = or_empty (lookup first plan.prefetch_map) in
      let one = lookup-insert first f old plan.prefetch_map in
      let two = lookup-insert first f (add_to_set (name rest) old) plan.prefetch_map in
      elim (Bool-cases (first == f)) [
        | inl e ↦
            let same = ap (λ k. or_empty (lookup k plan.prefetch_map)) ((eq_iff first f).0 e) in
            grind (arith, one, two, same)
        | inr e ↦ grind (arith, one, two)
      ]
  plan_argument-map (prefetch r q to_attr) first rest f plan =
      let old = or_empty (lookup first plan.prefetch_map) in
      let two =
        lookup-insert first f (add_to_set (prefetch rest q to_attr) old) plan.prefetch_map in
      elim (Bool-cases (first == f)) [
        | inl e ↦
            let same = ap (λ k. or_empty (lookup k plan.prefetch_map)) ((eq_iff first f).0 e) in
            grind (arith, two, same)
        | inr e ↦ grind (arith, two)
      ]

  plan_argument-queries :
      (x : Argument Q) (first rest f : String) (plan : Plan Q)
      → lookup f (plan_argument x (first, rest) plan).prefetch_queries
        ≡ step_for (first == f) (queries_step x rest) (lookup f plan.prefetch_queries)
  plan_argument-queries (name n) first rest f plan = grind arith
  plan_argument-queries (prefetch r q to_attr) first rest f plan =
      let old = or_empty (lookup first plan.prefetch_queries) in
      let two = lookup-insert first f (old ++ (to_attr, q) ∷ []) plan.prefetch_queries in
      elim (Bool-cases (first == f)) [
        | inl e ↦
            let same = ap (λ k. or_empty (lookup k plan.prefetch_queries)) ((eq_iff first f).0 e) in
            grind (arith, two, same)
        | inr e ↦ grind (arith, two)
      ]

  -- A plan with, for each relation, what the arguments for it alone give, or the first error
  abbrev pub IsPlanned : Option Error → List (Argument Q) → Plan Q → Result (Plan Q) → Type 0
  IsPlanned (some e) args plan r = r ≡ err e
  IsPlanned none args plan r =
      (plan' : Plan Q) × (r ≡ ok plan')
      × ((f : String)
          → (lookup f plan'.prefetch_map ≡ forwarded_to f args (lookup f plan.prefetch_map))
            × (lookup f plan'.prefetch_queries
                ≡ queries_for f args (lookup f plan.prefetch_queries)))

  IsPlanned-cons :
      (error : Option Error) (x : Argument Q) (args : List (Argument Q)) (plan : Plan Q)
      (r : Result (Plan Q))
      → IsPlanned error args (plan_argument x (partition (path_of (relation_of x))) plan) r
      → IsPlanned error (x ∷ args) plan r
  IsPlanned-cons (some e) x args plan r h = h
  IsPlanned-cons none x args plan r (plan', made, there) =
      let (first, rest) = partition (path_of (relation_of x)) in
      (
        plan',
        made,
        λ f. (
          (there f).0 ∙ ap (forwarded_to f args) (plan_argument-map x first rest f plan),
          (there f).1 ∙ ap (queries_for f args) (plan_argument-queries x first rest f plan),
        ),
      )

  plan_each-IsPlanned :
      (fetch_fields : List String) (args : List (Argument Q)) (plan : Plan Q)
      → IsPlanned (first_error fetch_fields args) args plan (plan_each fetch_fields args plan)
  unfolding plan_each
  plan_each-IsPlanned fetch_fields [] plan = (plan, refl, λ f. (refl, refl))
  plan_each-IsPlanned fetch_fields (x ∷ args) plan =
      elim (Bool-cases (contains ((partition (path_of (relation_of x))).0) fetch_fields)) [
        | inr e ↦ rw (plan_each, e) refl
        | inl e ↦
            rw (plan_each, e)
              (IsPlanned-cons (first_error fetch_fields args) x args plan _ (
                plan_each-IsPlanned fetch_fields args
                  (plan_argument x (partition (path_of (relation_of x))) plan)))
      ]

  -- `prefetch_related` ends with the error of the first argument whose relation the model does not
  -- have, a FieldError for a name and an OperationalError for a `Prefetch`; or else, for each
  -- relation, it forwards what the arguments that begin with that relation forward, and nothing that
  -- was forwarded before, and adds their queries to those that were there.
  pub prefetch_related-IsPlanned :
      (fetch_fields : List String) (args : List (Argument Q)) (plan : Plan Q)
      → IsPlanned
          (first_error fetch_fields args)
          args
          (record { prefetch_map = []; prefetch_queries = plan.prefetch_queries })
          (prefetch_related fetch_fields args plan)
  unfolding prefetch_related
  prefetch_related-IsPlanned fetch_fields args plan =
      plan_each-IsPlanned fetch_fields args
        (record { prefetch_map = []; prefetch_queries = plan.prefetch_queries })
