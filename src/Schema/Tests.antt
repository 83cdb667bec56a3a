-- ===== src/Schema/Tests.antt =====
-- Runs and witnesses for the order of creation.
use mathlib.Core.List.{Perm}
use tortoise_orm_zh_cn.Base.{
  ℕ, ◌≡◌, refl, inl, inr, String, List, [], ◌∷◌, none, some, ◌==◌, if◌then◌else◌, arith,
}
use tortoise_orm_zh_cn.Base.Errors.{ok, err, configuration_error}
use tortoise_orm_zh_cn.Schema.{
  TableSql, take_ready, create_loop, creation_order, get_create_schema_sql,
}
use tortoise_orm_zh_cn.Schema.Order.{creation_order-total}
use tortoise_orm_zh_cn.Schema.References.{AreOrdered, creation_order-AreOrdered}
use tortoise_orm_zh_cn.Schema.Progress.{creation_order_complete}

abbrev event : TableSql
event = record {
  table = "event";
  table_creation_string = "CREATE event";
  references = "tournament" ∷ "event" ∷ [];
  m2m_tables = "CREATE event_team" ∷ [];
}

abbrev tournament : TableSql
tournament = record {
  table = "tournament";
  table_creation_string = "CREATE tournament";
  references = [];
  m2m_tables = [];
}

-- Two tables that refer to one another.
abbrev left : TableSql
left = record {
  table = "a";
  table_creation_string = "CREATE a";
  references = "b" ∷ [];
  m2m_tables = [];
}

abbrev right : TableSql
right = record {
  table = "b";
  table_creation_string = "CREATE b";
  references = "a" ∷ [];
  m2m_tables = [];
}

abbrev rank : String → ℕ
rank s = if s == "event" then 1 else 0

run_order : creation_order (event ∷ tournament ∷ []) ≡ some (ok (tournament ∷ event ∷ []))
unfolding creation_order create_loop take_ready
run_order = refl

run_statements :
    get_create_schema_sql (event ∷ tournament ∷ [])
    ≡ some (ok ("CREATE tournament" ∷ "CREATE event" ∷ "CREATE event_team" ∷ []))
unfolding get_create_schema_sql creation_order create_loop take_ready mathlib.Core.List.flat_map
run_statements = refl

run_cycle : creation_order (left ∷ right ∷ []) ≡ some (err configuration_error)
unfolding creation_order create_loop take_ready
run_cycle = refl

-- Two tables of one name are reported as a cycle too.
run_same_name : creation_order (tournament ∷ tournament ∷ []) ≡ some (err configuration_error)
unfolding creation_order create_loop take_ready
run_same_name = refl

creation_order-total_example : creation_order (left ∷ right ∷ []) ≡ none → ⊥
creation_order-total_example = creation_order-total (left ∷ right ∷ [])

creation_order-AreOrdered_example :
    Perm (event ∷ tournament ∷ []) (tournament ∷ event ∷ [])
    × AreOrdered [] (tournament ∷ event ∷ [])
creation_order-AreOrdered_example =
    creation_order-AreOrdered (event ∷ tournament ∷ []) (tournament ∷ event ∷ []) run_order

creation_order_complete_example :
    (out : List TableSql) × (creation_order (event ∷ tournament ∷ []) ≡ some (ok out))
creation_order_complete_example =
    creation_order_complete rank (event ∷ tournament ∷ []) (refl, refl, (refl, refl, tt))
      ((inr (omega arith, refl), (inl refl, tt)), (tt, tt))
