-- ===== src/Executor/Update.antt =====
-- `get_update_sql` and `execute_update` of tortoise/backends/base/executor.py.
-- A statement numbers its parameters; the values are collected in a second loop, over the same
-- fields. The conversions of values and of expressions are arguments.
pub mod Keys
pub mod Sets
pub mod Bind
pub mod Cache
mod Tests
use tortoise_orm_zh_cn.Base.{
  ℕ, zero, suc, ◌+◌, Bool, true, false, not, ◌&&◌, String, List, [], ◌∷◌, ◌++◌, Option, none, some,
  if◌then◌else◌,
}
use tortoise_orm_zh_cn.Base.Dict.{Dict, lookup, insert, keys}
use tortoise_orm_zh_cn.Base.Errors.{Result, ok, err, ◌>>=◌, Error, key_error, attribute_error}

-- What an attribute holds: a value, or an expression for the database to compute.
pub data Held (V E : Type 0) : Type 0 where
  plain : V → Held V E
  expression : E → Held V E

-- What a column is set to: the parameter of a number, or a term of SQL.
pub data Source (T : Type 0) : Type 0 where
  parameter : ℕ → Source T
  computed : T → Source T

pub record Statement (T : Type 0) : Type 0 where
  pub sets : List (String × Source T)
  pub where_column : String
  pub where_parameter : ℕ

-- `fields_db_projection`, the `pk` of each of `fields_map`, and `db_pk_column`
pub record Table : Type 0 where
  pub columns : Dict String
  pub is_pk : Dict Bool
  pub pk_column : String

-- `d[key]` and `getattr`, with the error of a missing one
abbrev pub get_or {ℓ} : {A : Type ℓ} → Error → String → Dict A → Result A
get_or e key d = elim (lookup key d) [ none ↦ err e | some a ↦ ok a ]

-- `",".join(names)`
abbrev pub join_names : List String → String
join_names [] = ""
join_names (name ∷ []) = name
join_names (name ∷ next ∷ names) =
    Prim.Native.String.◌++◌ name (Prim.Native.String.◌++◌ "," (join_names (next ∷ names)))

-- The key in `update_cache`
abbrev pub cache_key : Option (List String) → String
cache_key none = ""
cache_key (some fields) = join_names fields

-- `update_fields or self.model._meta.fields_db_projection.keys()`
abbrev pub chosen : Table → Option (List String) → List String
chosen table none = keys table.columns
chosen table (some []) = keys table.columns
chosen table (some (field ∷ fields)) = field ∷ fields

abbrev pub is_empty {ℓ} : {A : Type ℓ} → List A → Bool
is_empty [] = true
is_empty (x ∷ xs) = false

module _ {E T : Type 0} (table : Table) (resolve_expression : E → Result T) where
  -- The clause for one column, and the number of parameters after it
  abbrev pub next_set : String → Option E → ℕ → Result ((String × Source T) × ℕ)
  next_set column none count = ok ((column, parameter count), count + 1)
  next_set column (some e) count = do t ← resolve_expression e; ok ((column, computed t), count)

  -- The loop of `get_update_sql`
  unfoldable pub build_sets :
      List String → Dict E → ℕ → List (String × Source T) → Result (List (String × Source T) × ℕ)
  build_sets [] exprs count sets = ok (sets, count)
  build_sets (field ∷ fields) exprs count sets = do
    column ← get_or key_error field table.columns
    pk ← get_or key_error field table.is_pk
    elim pk [
      | true ↦ build_sets fields exprs count sets
      | false ↦ do
        next ← next_set column (lookup field exprs) count
        build_sets fields exprs next.1 (sets ++ next.0 ∷ [])
    ]

  -- The statement that `get_update_sql` makes
  unfoldable pub make_update : List String → Dict E → Result (Statement T)
  make_update fields exprs = do
    built ← build_sets fields exprs 0 []
    ok (record { sets = built.0; where_column = table.pk_column; where_parameter = built.1 })

  abbrev pub store_if : Bool → String → Statement T → Dict (Statement T) → Dict (Statement T)
  store_if true key s cache = insert key s cache
  store_if false key s cache = cache

  abbrev pub cached_or :
      Option (Statement T)
      → Option (List String)
      → Dict E
      → Dict (Statement T)
      → Result (Statement T × Dict (Statement T))
  cached_or (some s) fields exprs cache = ok (s, cache)
  cached_or none fields exprs cache = do
    s ← make_update (chosen table fields) exprs
    ok (s, store_if (is_empty exprs) (cache_key fields) s cache)

  -- `get_update_sql`: the statement, and `update_cache` afterwards
  unfoldable pub get_update_sql :
      Option (List String) → Dict E → Dict (Statement T) → Result (Statement T × Dict (Statement T))
  get_update_sql fields [] cache = cached_or (lookup (cache_key fields) cache) fields [] cache
  get_update_sql fields (e ∷ exprs) cache = cached_or none fields (e ∷ exprs) cache

module _ {V W E : Type 0} (table : Table) (attributes : Dict (Held V E))
    (to_db : String → V → Result W) where
  -- The loop of `execute_update`: the values, and the attributes that hold expressions
  unfoldable pub collect : List String → List W → Dict E → Result (List W × Dict E)
  collect [] values exprs = ok (values, exprs)
  collect (field ∷ fields) values exprs = do
    pk ← get_or key_error field table.is_pk
    elim pk [
      | true ↦ collect fields values exprs
      | false ↦ do
        held ← get_or attribute_error field attributes
        elim held [
          | expression e ↦ collect fields values (insert field e exprs)
          | plain v ↦ do w ← to_db field v; collect fields (values ++ w ∷ []) exprs
        ]
    ]

  -- `execute_update`: the statement and its values, and the cache afterwards. `pk_value` is
  -- `pk.to_db_value(instance.pk, instance)`.
  unfoldable pub execute_update :
      {T : Type 0}
      → (E → Result T)
      → Result W
      → Option (List String)
      → Dict (Statement T)
      → Result ((Statement T × List W) × Dict (Statement T))
  execute_update resolve_expression pk_value fields cache = do
    collected ← collect (chosen table fields) [] []
    pk ← pk_value
    sent ← get_update_sql table resolve_expression fields collected.1 cache
    ok ((sent.0, collected.0 ++ pk ∷ []), sent.1)
