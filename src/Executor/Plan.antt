-- ===== src/Executor/Plan.antt =====
-- What is prefetched: `prefetch_related` of tortoise/queryset.py, `Prefetch.resolve_for_queryset` of
-- tortoise/query_utils.py, and `fetch_for_list`, `_make_prefetch_queries`, `_do_prefetch` and
-- `_execute_prefetch_queries` of tortoise/backends/base/executor.py.
pub mod Planned
mod Tests
use tortoise_orm_zh_cn.Base.{
  ◌≡◌, Bool, true, false, ◌||◌, String, List, [], ◌∷◌, ◌++◌, Option, none, some, if◌then◌else◌,
  ◌==◌, contains,
}
use tortoise_orm_zh_cn.Base.Dict.{Dict, lookup, insert, has_key}
use tortoise_orm_zh_cn.Base.Errors.{Result, Error, ok, err, ◌>>=◌, field_error, operational_error}
use tortoise_orm_zh_cn.Executor.Prefetch.{or_empty}
use tortoise_orm_zh_cn.Joins.{FieldPath, last, via, full_name, path_of}

-- An argument: a name, or a `Prefetch` with its relation, its query and its `to_attr`
pub data Argument (Q : Type 0) : Type 0 where
  name : String → Argument Q
  prefetch : String → Q → Option String → Argument Q

-- `_prefetch_map`, of lists as sets, and `_prefetch_queries`
pub record Plan (Q : Type 0) : Type 0 where
  pub prefetch_map : Dict (List (Argument Q))
  pub prefetch_queries : Dict (List (Option String × Q))

-- The first and the last part of `relation.partition("__")`
abbrev pub partition : FieldPath → String × String
partition (last relation) = (relation, "")
partition (via relation first rest) = (first, full_name rest)

-- A set compares names as texts, and each `Prefetch` is equal only to itself.
abbrev pub has_name : {Q : Type 0} → String → List (Argument Q) → Bool
has_name n [] = false
has_name n (name m ∷ xs) = n == m || has_name n xs
has_name n (prefetch r q a ∷ xs) = has_name n xs

-- `s.add(x)`
abbrev pub add_to_set : {Q : Type 0} → Argument Q → List (Argument Q) → List (Argument Q)
add_to_set (name n) xs = if has_name n xs then xs else xs ++ name n ∷ []
add_to_set (prefetch r q a) xs = xs ++ prefetch r q a ∷ []

module _ {Q : Type 0} where
  -- The entry of a first level, and what is forwarded to it
  abbrev pub forward_to : String → Argument Q → Plan Q → Plan Q
  forward_to first x plan = record {
    prefetch_map =
        insert first (add_to_set x (or_empty (lookup first plan.prefetch_map))) plan.prefetch_map;
    prefetch_queries = plan.prefetch_queries;
  }

  abbrev pub enter : String → Plan Q → Plan Q
  enter first plan = record {
    prefetch_map = insert first (or_empty (lookup first plan.prefetch_map)) plan.prefetch_map;
    prefetch_queries = plan.prefetch_queries;
  }

  abbrev pub add_query : String → Option String × Q → Plan Q → Plan Q
  add_query first query plan = record {
    prefetch_map = plan.prefetch_map;
    prefetch_queries =
        insert first (or_empty (lookup first plan.prefetch_queries) ++ query ∷ [])
          plan.prefetch_queries;
  }

  -- What an argument adds, cut at its first `__`: `resolve_for_queryset`, or the loop over the names
  abbrev pub plan_argument : Argument Q → String × String → Plan Q → Plan Q
  plan_argument (name n) (first, forwarded) plan =
      if forwarded == "" then enter first plan else forward_to first (name forwarded) plan
  plan_argument (prefetch r q to_attr) (first, forwarded) plan =
      if forwarded == ""
      then add_query first (to_attr, q) plan
      else forward_to first (prefetch forwarded q to_attr) plan

  abbrev pub relation_of : Argument Q → String
  relation_of (name n) = n
  relation_of (prefetch r q to_attr) = r

  -- The error for a relation that the model does not have
  abbrev pub unknown_relation : Argument Q → Error
  unknown_relation (name n) = field_error
  unknown_relation (prefetch r q to_attr) = operational_error

  unfoldable pub plan_each : List String → List (Argument Q) → Plan Q → Result (Plan Q)
  plan_each fetch_fields [] plan = ok plan
  plan_each fetch_fields (x ∷ args) plan =
      let parts = partition (path_of (relation_of x)) in
      elim (contains parts.0 fetch_fields) [
        | false ↦ err (unknown_relation x)
        | true ↦ plan_each fetch_fields args (plan_argument x parts plan)
      ]

  abbrev pub names_of : List String → List (Argument Q)
  names_of [] = []
  names_of (n ∷ names) = name n ∷ names_of names

  -- `prefetch_related`, on the clone
  unfoldable pub prefetch_related : List String → List (Argument Q) → Plan Q → Result (Plan Q)
  prefetch_related fetch_fields args plan =
      plan_each fetch_fields args
        record { prefetch_map = []; prefetch_queries = plan.prefetch_queries }

-- What the executor reads of the model
pub record Relations : Type 0 where
  pub fetch_fields : List String
  pub backward_fk_fields : List String
  pub backward_o2o_fields : List String
  pub m2m_fields : List String

pub data Way : Type 0 where
  reverse reverse_o2o many_to_many direct : Way

-- `_do_prefetch`
abbrev pub way_of : Relations → String → Way
way_of relations field =
    if contains field relations.backward_fk_fields
    then reverse
    else if contains field relations.backward_o2o_fields
    then reverse_o2o
    else if contains field relations.m2m_fields
    then many_to_many
    else direct

module _ {Q : Type 0} (relations : Relations) (all_related : String → Q)
    (prefetch_on : Q → List (Argument Q) → Result Q) where
  abbrev pub first_query : Option (List (Option String × Q)) → String → Option String × Q
  first_query none field = (none, all_related field)
  first_query (some []) field = (none, all_related field)
  first_query (some (q ∷ qs)) field = q

  abbrev pub extend : Q → List (Argument Q) → Result Q
  extend q [] = ok q
  extend q (x ∷ xs) = prefetch_on q (x ∷ xs)

  -- `_make_prefetch_queries`
  unfoldable pub make_prefetch_queries :
      Dict (List (Argument Q))
      → Dict (List (Option String × Q))
      → Result (Dict (List (Option String × Q)))
  make_prefetch_queries [] queries = ok queries
  make_prefetch_queries ((field, forwarded) ∷ prefetch_map) queries = do
    let (to_attr, query) = first_query (lookup field queries) field
    q ← extend query forwarded
    make_prefetch_queries prefetch_map
        (insert field (or_empty (lookup field queries) ++ (to_attr, q) ∷ []) queries)

  abbrev pub tasks_for :
      String → List (Option String × Q) → List (Way × String × (Option String × Q))
  tasks_for field [] = []
  tasks_for field (query ∷ queries) =
      (way_of relations field, field, query) ∷ tasks_for field queries

  -- The calls of `_do_prefetch` that `_execute_prefetch_queries` makes
  abbrev pub tasks_of : Dict (List (Option String × Q)) → List (Way × String × (Option String × Q))
  tasks_of [] = []
  tasks_of ((field, queries) ∷ rest) = tasks_for field queries ++ tasks_of rest

  -- `if instance_list and (self.prefetch_map or self._prefetch_queries)`
  unfoldable pub prefetch_tasks :
      {I : Type 0} → List I → Plan Q → Result (List (Way × String × (Option String × Q)))
  prefetch_tasks [] plan = ok []
  prefetch_tasks (i ∷ is) plan = do
    queries ← make_prefetch_queries plan.prefetch_map plan.prefetch_queries
    ok (tasks_of queries)

  -- `fetch_for_list`, whose unknown relations are another error
  unfoldable pub fetch_for_list :
      {I : Type 0}
      → List I
      → List String
      → Dict (List (Option String × Q))
      → Result (List (Way × String × (Option String × Q)))
  fetch_for_list is names queries =
      elim (plan_each relations.fetch_fields (names_of names)
        (record { prefetch_map = []; prefetch_queries = queries })) [
          | err e ↦ err operational_error
          | ok plan ↦ prefetch_tasks is plan
        ]
