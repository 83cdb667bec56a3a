-- ===== src/Queries/Tests.antt =====
-- Runs and witnesses for query sets.
use tortoise_orm_zh_cn.Base.{
  ℕ, ◌≡◌, refl, true, false, String, List, [], ◌∷◌, none, some, length, ltb, take, drop, ◌-◌, suc,
  if◌then◌else◌, arith,
}
use tortoise_orm_zh_cn.Base.Int.{pos, negsuc}
use tortoise_orm_zh_cn.Base.Errors.{ok, err, does_not_exist, field_error}
use tortoise_orm_zh_cn.Expressions.{nil, and_join, node}
use tortoise_orm_zh_cn.Queries.{
  Meta, QuerySet, Order, asc, desc, Sets, Arg, q_arg, absent, int, slice, get, get_item, order_by,
  force_index, add_all, filter_or_exclude,
}
use tortoise_orm_zh_cn.Queries.Rows.{
  exactly_one, run, skip, window, execute_count, get-run, execute_count-window,
}
use tortoise_orm_zh_cn.Queries.Window.{get_item-slice}
use tortoise_orm_zh_cn.Queries.Derived.{select_fields}
use tortoise_orm_zh_cn.Queries.Hints.{hints, force_index-hints}

abbrev mysql_meta : Meta
mysql_meta = record {
  fields = "name" ∷ "team" ∷ [];
  db_fields = "name" ∷ "team_id" ∷ [];
  requires_limit = true;
  support_for_update = true;
  support_index_hint = true;
}

abbrev all_events : QuerySet String String
all_events = record {
  q_objects = [];
  annotations = ("count", "Count") ∷ [];
  orderings = [];
  limit = none;
  offset = some (pos 1);
  single = false;
  raise_does_not_exist = false;
  distinct = false;
  group_bys = [];
  fields_for_select = [];
  select_for_update = false;
  select_for_update_nowait = false;
  select_for_update_skip_locked = false;
  select_for_update_of = [];
  select_related = 0;
  force_indexes = 1;
  use_indexes = 2;
}

abbrev named : Arg String
named = q_arg (node nil (("name", "a") ∷ []) and_join false)

abbrev one_row : QuerySet String String
one_row = record all_events {
  q_objects = node nil (("name", "a") ∷ []) and_join false ∷ [];
  limit = some (pos 2);
  single = true;
  raise_does_not_exist = true;
}

abbrev rows : List ℕ
rows = 10 ∷ 11 ∷ 12 ∷ []

abbrev orderings : List (String × Order)
orderings = ("name", desc) ∷ ("team__name", asc) ∷ ("count", desc) ∷ []

run_get : get (named ∷ []) [] all_events ≡ ok one_row
unfolding get filter_or_exclude
run_get = refl

run_unknown : order_by mysql_meta ("-year" ∷ []) all_events ≡ err field_error
unfolding order_by
run_unknown = refl

-- A limit of 0 does not limit `count`.
run_count_zero : execute_count (some (pos 0)) none (some (pos 3)) ≡ pos 3
unfolding execute_count
run_count_zero = refl

-- Past the last row, `count` is negative.
run_count_past : execute_count none (some (pos 5)) (some (pos 3)) ≡ negsuc 1
unfolding execute_count
run_count_past = refl

get-run_example : run one_row rows ≡ exactly_one (err does_not_exist) (skip all_events.offset rows)
get-run_example = get-run (named ∷ []) [] all_events one_row rows run_get

execute_count-window_example :
    execute_count (some (pos 1)) (some (pos 1)) (some (pos (length rows))) ≡ (
      if ltb (length rows) 1
      then negsuc (1 - suc (length rows))
      else pos (length (window (some (pos 1)) (some (pos 1)) rows)))
execute_count-window_example =
    execute_count-window (some (pos 1)) 1 rows (λ e. absurd (cc)) (λ n e. absurd (cc))

get_item-slice_example :
    (q' : QuerySet String String) × (get_item mysql_meta
        (slice (int (pos 1)) (int (pos 3)) absent)
        all_events
      ≡ ok q')
    × (window q'.limit q'.offset rows ≡ drop 1 (take 3 rows))
get_item-slice_example = get_item-slice mysql_meta 1 3 all_events rows (omega arith)

abbrev sets : Sets
sets = ("team" ∷ []) ∷ [] ∷ ("by_name" ∷ []) ∷ []

force_index-hints_example :
    let (q', sets') = force_index mysql_meta ("by_date" ∷ []) all_events sets in
    let (related, forced, used) = hints all_events sets in
    (hints all_events sets' ≡ (related, add_all ("by_date" ∷ []) forced, used))
    × (hints q' sets' ≡ (related, add_all ("by_date" ∷ []) forced, used))
force_index-hints_example =
    force_index-hints mysql_meta ("by_date" ∷ []) all_events sets
      (omega arith, omega arith, omega arith, λ e. omega arith, λ e. omega arith, λ e. omega arith)
      refl

run_select :
    select_fields ("id" ∷ []) (("title", "name") ∷ []) ≡ ok (("id", "id") ∷ ("title", "name") ∷ [])
unfolding select_fields
run_select = refl
