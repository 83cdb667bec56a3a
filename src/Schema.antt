-- ===== src/Schema.antt =====
-- tortoise/backends/base/schema_generator.py: the order in which `get_create_schema_sql` creates
-- tables, so that a table comes after those that it refers to.
-- The texts of the statements are made by `_get_table_sql`, and come with the tables.
pub mod Order
pub mod References
pub mod Progress
mod Tests
use tortoise_orm_zh_cn.Base.{
  ℕ, zero, suc, Bool, true, false, ◌&&◌, String, List, [], ◌∷◌, ◌++◌, map, flat_map, Option, none,
  some, length, contains, eqb, if◌then◌else◌,
}
use tortoise_orm_zh_cn.Base.Errors.{Result, ok, err, configuration_error}

-- The dict that `_get_table_sql` returns, without its "model", which the loop does not read.
pub record TableSql : Type 0 where
  pub table : String
  pub table_creation_string : String
  pub references : List String
  pub m2m_tables : List String

-- `xs.issubset(ys)`
abbrev pub subset : List String → List String → Bool
subset [] ys = true
subset (x ∷ xs) ys = contains x ys && subset xs ys

-- `created_tables.add(name)`: a set, so a name that is there adds nothing.
abbrev pub add_name : String → List String → List String
add_name x xs = if contains x xs then xs else x ∷ xs

-- `t["references"].issubset(created_tables | {t["table"]})`
abbrev pub is_ready : List String → TableSql → Bool
is_ready created t = subset t.references (t.table ∷ created)

-- `next(t for t in tables_to_create if …)` and `tables_to_create.remove(t)`: the first table that
-- is ready, and the others.
unfoldable pub take_ready : List String → List TableSql → Option (TableSql × List TableSql)
take_ready created [] = none
take_ready created (t ∷ ts) =
    if is_ready created t
    then some (t, ts)
    else elim (take_ready created ts) [ none ↦ none | some (u, rest) ↦ some (u, t ∷ rest) ]

-- The `while True` loop; `ordered` holds the tables whose statements were appended so far, and
-- `none` means that the fuel ran out.
unfoldable pub create_loop :
    ℕ → ℕ → List TableSql → List String → List TableSql → Option (Result (List TableSql))
create_loop zero count tables created ordered = none
create_loop (suc fuel) count tables created ordered = elim (eqb (length created) count) [
  | true ↦ some (ok ordered)
  | false ↦ elim (take_ready created tables) [
    | none ↦ some (err configuration_error)
    | some (t, rest) ↦ create_loop fuel count rest (add_name t.table created) (ordered ++ t ∷ [])
  ]
]

-- The tables in their order of creation. One round for each table, and one to leave the loop.
unfoldable pub creation_order : List TableSql → Option (Result (List TableSql))
creation_order tables = create_loop (suc (length tables)) (length tables) tables [] []

-- The statements that `get_create_schema_sql` joins with line ends: `ordered_tables_for_create`
-- and then `m2m_tables_to_create`.
abbrev pub statements : List TableSql → List String
statements ordered =
    map (λ t. t.table_creation_string) ordered ++ flat_map (λ t. t.m2m_tables) ordered

abbrev statements_of : Result (List TableSql) → Result (List String)
statements_of (ok ordered) = ok (statements ordered)
statements_of (err e) = err e

unfoldable pub get_create_schema_sql : List TableSql → Option (Result (List String))
get_create_schema_sql tables = elim (creation_order tables) [
  | none ↦ none
  | some r ↦ some (statements_of r)
]
