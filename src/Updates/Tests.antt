-- ===== src/Updates/Tests.antt =====
-- Runs and witnesses of the update queries.
use tortoise_orm_zh_cn.Base.{
  ℕ, ◌≡◌, refl, true, false, String, List, [], ◌∷◌, ◌++◌, none, some, Option, All,
}
use tortoise_orm_zh_cn.Base.Dict.{Dict}
use tortoise_orm_zh_cn.Base.Errors.{Result, ok, err, field_error, integrity_error}
use tortoise_orm_zh_cn.Executor.Update.{Held, plain, expression, parameter, computed}
use tortoise_orm_zh_cn.Executor.Insert.{chunk, batches}
use tortoise_orm_zh_cn.Executor.Insert.Chunks.{concat, Fits}
use tortoise_orm_zh_cn.Updates.{
  Meta, FieldInfo, Batch, make_query, set_fields, resolve_argument, set_cases, make_batches,
  make_bulk_query,
}
use tortoise_orm_zh_cn.Updates.Bind.{IsLimit, IsQuery, make_query-assignments}
use tortoise_orm_zh_cn.Updates.Assign.{AreAssignments}
use tortoise_orm_zh_cn.Executor.Update.Sets.{Assigned}
use tortoise_orm_zh_cn.Updates.Bulk.{AreBatches, make_bulk_query-batches}

abbrev column : FieldInfo
column = record { pk = false; relation = none }

abbrev events : Meta
events = record {
  fields_map =
      ("id", record { pk = true; relation = none })
      ∷ ("name", column)
      ∷ ("count", column)
      ∷ ("tournament", record { pk = false; relation = some ("tournament_id", "id") })
      ∷ ("tags", column)
      ∷ [];
  source_fields = ("tournament_id", "tournament_id") ∷ [];
  columns = ("id", "id") ∷ ("name", "event_name") ∷ ("count", "count") ∷ [];
}

-- A related object is the number of its key.
abbrev key_of : String → Held ℕ String → Result ℕ
key_of name (plain v) = ok v
key_of name (expression e) = err field_error

abbrev as_it_is : String → ℕ → Result ℕ
as_it_is field v = ok v

abbrev resolved : String → Result String
resolved e = ok e

abbrev changes : Dict (Held ℕ String)
changes = ("name", plain 5) ∷ ("count", expression "count + 1") ∷ ("tournament", plain 7) ∷ []

run_update :
    make_query events key_of as_it_is resolved {G = ℕ} true (some 0) (ok 1) changes []
    ≡ ok (record {
      limit = none;
      filters = 1;
      sets =
          ("event_name", parameter 0)
          ∷ ("count", computed "count + 1")
          ∷ ("tournament_id", parameter 1)
          ∷ [];
      values = 5 ∷ 7 ∷ [];
    })
unfolding make_query set_fields resolve_argument
run_update = refl

-- The same query object, made again, as `sql()` and a later `await` do: two parameters, and four
-- values.
run_update_again :
    make_query events key_of as_it_is resolved {G = ℕ} true none (ok 1) changes (5 ∷ 7 ∷ [])
    ≡ ok (record {
      limit = none;
      filters = 1;
      sets =
          ("event_name", parameter 0)
          ∷ ("count", computed "count + 1")
          ∷ ("tournament_id", parameter 1)
          ∷ [];
      values = 5 ∷ 7 ∷ 5 ∷ 7 ∷ [];
    })
unfolding make_query set_fields resolve_argument
run_update_again = refl

run_update_key :
    make_query events key_of as_it_is resolved {G = ℕ} true none (ok 1) (("id", plain 5) ∷ []) []
    ≡ err integrity_error
unfolding make_query set_fields resolve_argument
run_update_key = refl

run_update_virtual :
    make_query events key_of as_it_is resolved {G = ℕ} true none (ok 1) (("tags", plain 5) ∷ []) []
    ≡ err field_error
unfolding make_query set_fields resolve_argument
run_update_virtual = refl

make_query-assignments_example :
    (assigned : Result (List (String × Assigned ℕ String))) × (sent : Option ℕ) × AreAssignments
      events key_of as_it_is resolved changes assigned
    × IsLimit true (some 0) sent
    × IsQuery events key_of as_it_is resolved assigned 1 sent
        (make_query events key_of as_it_is resolved {G = ℕ} true (some 0) (ok 1) changes [])
make_query-assignments_example =
    make_query-assignments events key_of as_it_is resolved true (some 0) 1 changes

-- An object is its key and its count.
abbrev key : ℕ × ℕ → Result ℕ
key i = ok i.0

abbrev field_of : String → ℕ × ℕ → Result ℕ
field_of field i = ok i.1

abbrev objects : List (ℕ × ℕ)
objects = (1, 10) ∷ (2, 20) ∷ (3, 30) ∷ []

abbrev two_queries : List (Batch ℕ)
two_queries =
    record { sets = ("count", (1, 10) ∷ (2, 20) ∷ []) ∷ []; wheres = (1 ∷ 2 ∷ []) ∷ [] }
    ∷ record { sets = ("count", (3, 30) ∷ []) ∷ []; wheres = (3 ∷ []) ∷ [] }
    ∷ []

run_bulk_update : make_bulk_query key field_of ("count" ∷ []) (some 2) objects [] ≡ ok two_queries
unfolding make_bulk_query make_batches set_cases chunk batches
run_bulk_update = refl

-- The same query object, made again, has every query twice.
run_bulk_update_again :
    make_bulk_query key field_of ("count" ∷ []) (some 2) objects two_queries
    ≡ ok (two_queries ++ two_queries)
unfolding make_bulk_query make_batches set_cases chunk batches
run_bulk_update_again = refl

make_bulk_query-batches_example :
    (chunks : List (List (ℕ × ℕ))) × (more : List (Batch ℕ)) × (two_queries ≡ [] ++ more)
    × AreBatches key field_of ("count" ∷ []) chunks more
    × (concat chunks ≡ objects)
    × All (Fits (some 2)) chunks
make_bulk_query-batches_example =
    make_bulk_query-batches key field_of ("count" ∷ []) (some 2) objects [] two_queries
      run_bulk_update
