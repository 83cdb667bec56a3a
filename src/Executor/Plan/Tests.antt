-- ===== src/Executor/Plan/Tests.antt =====
-- Runs and a witness of the planning of prefetches. A query is its name and what was forwarded to it.
use tortoise_orm_zh_cn.Base.{◌≡◌, refl, String, List, [], ◌∷◌, none, some}
use tortoise_orm_zh_cn.Base.Errors.{Result, ok, err, ◌>>=◌, field_error, operational_error}
use tortoise_orm_zh_cn.Joins.{path_of}
use tortoise_orm_zh_cn.Executor.Plan.{
  Argument, name, prefetch, Plan, Relations, reverse, many_to_many, direct, plan_each,
  prefetch_related, make_prefetch_queries, prefetch_tasks, fetch_for_list,
}
use tortoise_orm_zh_cn.Executor.Plan.Planned.{IsPlanned, prefetch_related-IsPlanned}

abbrev relations : Relations
relations = record {
  fetch_fields = "events" ∷ "teams" ∷ "owner" ∷ [];
  backward_fk_fields = "events" ∷ [];
  backward_o2o_fields = [];
  m2m_fields = "teams" ∷ [];
}

abbrev Named : Type 0
Named = String × List (Argument String)

abbrev all_of : String → Named
all_of field = (field, [])

abbrev names : List (Argument Named) → List (Argument String)
names [] = []
names (name n ∷ xs) = name n ∷ names xs
names (prefetch r q a ∷ xs) = names xs

abbrev forward_on : Named → List (Argument Named) → Result Named
forward_on q xs = ok (q.0, names xs)

abbrev new_plan : Plan Named
new_plan = record { prefetch_map = []; prefetch_queries = [] }

abbrev arguments : List (Argument Named)
arguments =
    name "events__teams"
    ∷ name "events"
    ∷ prefetch "teams" ("some teams", []) (some "chosen")
    ∷ name "events__teams"
    ∷ []

abbrev planned : Plan Named
planned = record {
  prefetch_map = ("events", name "teams" ∷ []) ∷ [];
  prefetch_queries = ("teams", (some "chosen", ("some teams", [])) ∷ []) ∷ [];
}

run_plan : prefetch_related relations.fetch_fields arguments new_plan ≡ ok planned
unfolding prefetch_related plan_each path_of
run_plan = refl

run_unknown :
    prefetch_related relations.fetch_fields (name "events" ∷ name "other__x" ∷ []) new_plan
    ≡ err field_error
unfolding prefetch_related plan_each path_of
run_unknown = refl

run_unknown_prefetch :
    prefetch_related relations.fetch_fields (prefetch "other" ("x", []) none ∷ []) new_plan
    ≡ err operational_error
unfolding prefetch_related plan_each path_of
run_unknown_prefetch = refl

run_tasks :
    prefetch_tasks relations all_of forward_on {I = String} ("instance" ∷ []) planned
    ≡ ok (
        (many_to_many, "teams", (some "chosen", ("some teams", [])))
        ∷ (reverse, "events", (none, ("events", name "teams" ∷ [])))
        ∷ [])
unfolding prefetch_tasks make_prefetch_queries
run_tasks = refl

-- The dict of queries is the query set's own: a second run with it has a second query for `events`.
run_queries_again :
    (make_prefetch_queries relations all_of forward_on planned.prefetch_map planned.prefetch_queries
      >>= make_prefetch_queries relations all_of forward_on planned.prefetch_map)
    ≡ ok (
        ("teams", (some "chosen", ("some teams", [])) ∷ [])
        ∷ (
          "events",
          (none, ("events", name "teams" ∷ [])) ∷ (none, ("events", name "teams" ∷ [])) ∷ [],
        )
        ∷ [])
unfolding make_prefetch_queries
run_queries_again = refl

run_fetch :
    fetch_for_list relations all_of forward_on {I = String} ("instance" ∷ []) ("owner" ∷ []) []
    ≡ ok ((direct, "owner", (none, ("owner", []))) ∷ [])
unfolding fetch_for_list plan_each path_of prefetch_tasks make_prefetch_queries
run_fetch = refl

prefetch_related-IsPlanned_example :
    IsPlanned none arguments new_plan (prefetch_related relations.fetch_fields arguments new_plan)
unfolding path_of
prefetch_related-IsPlanned_example =
    prefetch_related-IsPlanned relations.fetch_fields arguments new_plan
