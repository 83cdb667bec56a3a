-- ===== src/Executor/Insert.antt =====
-- `_prepare_insert_columns`, `execute_insert` and `execute_bulk_insert` of
-- tortoise/backends/base/executor.py, `chunk` of tortoise/utils.py, and `BulkCreateQuery._execute` of
-- tortoise/queryset.py, whose loop is that of `execute_bulk_insert`.
-- The conversions (`column_map`) and the database are arguments.
pub mod Chunks
pub mod Rows
pub mod Bulk
pub mod Complete
mod Tests
use tortoise_orm_zh_cn.Base.{
  ℕ, zero, suc, ◌+◌, Bool, true, false, not, ◌&&◌, ◌||◌, String, List, [], ◌∷◌, ◌++◌, Option, none,
  some, if◌then◌else◌, length, take, drop,
}
use tortoise_orm_zh_cn.Base.Errors.{Result, ok, err, ◌>>=◌}

-- A field with a column: its name, the column, and whether the database generates it.
pub record Column : Type 0 where
  pub field : String
  pub column : String
  pub generated : Bool

-- The statement of an insert: its columns, and the number of the parameter for each.
pub record InsertStatement : Type 0 where
  pub columns : List String
  pub parameters : List ℕ

-- `_prepare_insert_columns`
unfoldable pub prepare_insert_columns : Bool → List Column → List String × List String
prepare_insert_columns include_generated [] = ([], [])
prepare_insert_columns include_generated (c ∷ cs) =
    let (fields, columns) = prepare_insert_columns include_generated cs in
    if include_generated || not c.generated
    then (c.field ∷ fields, c.column ∷ columns)
    else (fields, columns)

-- `range(n)`, from a first number on
abbrev pub range_from : ℕ → ℕ → List ℕ
range_from first zero = []
range_from first (suc n) = first ∷ range_from (suc first) n

-- `_prepare_insert_statement`
abbrev pub prepare_insert_statement : List String → InsertStatement
prepare_insert_statement columns = record {
  columns = columns;
  parameters = range_from 0 (length columns);
}

-- `batched`: the fuel is the length of the list.
unfoldable pub batches : {A : Type 0} → ℕ → ℕ → List A → List (List A)
batches zero n xs = []
batches (suc fuel) n xs = elim (take n xs) [
  | [] ↦ []
  | y ∷ ys ↦ (y ∷ ys) ∷ batches fuel n (drop n xs)
]

-- `chunk`
unfoldable pub chunk : {A : Type 0} → Option ℕ → List A → List (List A)
chunk none xs = xs ∷ []
chunk (some zero) xs = xs ∷ []
chunk (some (suc n)) xs = batches (length xs) (suc n) xs

-- What is sent: the rows for the statement with all columns, or for the one without the generated.
pub record Send (W : Type 0) : Type 0 where
  pub all_columns : Bool
  pub rows : List (List W)

module _ {I W : Type 0} (columns : List Column) (custom_generated_pk : I → Bool)
    (to_db : String → I → Result W) where
  -- `[self.column_map[field_name](…) for field_name in fields]`
  abbrev pub row : List String → I → Result (List W)
  row [] i = ok []
  row (field ∷ fields) i = do w ← to_db field i; ws ← row fields i; ok (w ∷ ws)

  -- The values of an object: those of all columns if its generated key was given
  abbrev pub row_of : I → Result (List W)
  row_of i = row (prepare_insert_columns (custom_generated_pk i) columns).0 i

  -- The two lists that the loop over a chunk fills
  unfoldable pub values_lists :
      List I → List (List W) → List (List W) → Result (List (List W) × List (List W))
  values_lists [] all some_ = ok (all, some_)
  values_lists (i ∷ is) all some_ = do
    r ← row_of i
    elim (custom_generated_pk i) [
      | true ↦ values_lists is (all ++ r ∷ []) some_
      | false ↦ values_lists is all (some_ ++ r ∷ [])
    ]

  module _ (execute_many : Send W → Result (Unit {0})) where
    -- `if rows: await self.db.execute_many(…)`; what was sent before an error stays sent.
    abbrev pub send_rows : Bool → List (List W) → List (Send W) → Result (Unit {0}) × List (Send W)
    send_rows all [] sent = (ok tt, sent)
    send_rows all (r ∷ rs) sent = (
      execute_many (record { all_columns = all; rows = r ∷ rs }),
      sent ++ record { all_columns = all; rows = r ∷ rs } ∷ [],
    )

    abbrev pub and_then :
        Result (Unit {0}) × List (Send W)
        → (List (Send W) → Result (Unit {0}) × List (Send W))
        → Result (Unit {0}) × List (Send W)
    and_then (ok _, sent) next = next sent
    and_then (err e, sent) next = (err e, sent)

    abbrev pub send_chunk :
        Result (List (List W) × List (List W)) → List (Send W) → Result (Unit {0}) × List (Send W)
    send_chunk (err e) sent = (err e, sent)
    send_chunk (ok (all, some_)) sent = and_then (send_rows true all sent) (send_rows false some_)

    unfoldable pub send_chunks : List (List I) → List (Send W) → Result (Unit {0}) × List (Send W)
    send_chunks [] sent = (ok tt, sent)
    send_chunks (is ∷ chunks) sent =
        and_then (send_chunk (values_lists is [] []) sent) (send_chunks chunks)

    -- `execute_bulk_insert`
    unfoldable pub execute_bulk_insert : Option ℕ → List I → Result (Unit {0}) × List (Send W)
    execute_bulk_insert batch_size is = send_chunks (chunk batch_size is) []

  -- `execute_insert`: `insert` runs the statement; its result goes to `process`, which sets the
  -- generated key of the object, unless that was given.
  unfoldable pub execute_insert :
      {R : Type 0} → (Send W → Result R) → (R → I → Result I) → I → Result I
  execute_insert insert process i = do
    r ← row_of i
    result ← insert (record { all_columns = custom_generated_pk i; rows = r ∷ [] })
    elim (custom_generated_pk i) [ true ↦ ok i | false ↦ process result i ]
