-- ===== src/Executor/Update/Tests.antt =====
-- A run and a witness for an update, of a row with an expression in one of its columns.
use tortoise_orm_zh_cn.Base.{ℕ, ◌≡◌, refl, true, false, String, [], ◌∷◌, none}
use tortoise_orm_zh_cn.Base.Dict.{Dict}
use tortoise_orm_zh_cn.Base.Errors.{Result, ok}
use tortoise_orm_zh_cn.Executor.Update.{
  Held, plain, expression, parameter, computed, Statement, Table, execute_update, collect,
  get_update_sql, make_update, build_sets,
}
use tortoise_orm_zh_cn.Executor.Update.Cache.{IsValid, IsRight, execute_update-assignments}

abbrev events : Table
events = record {
  columns = ("id", "id") ∷ ("name", "event_name") ∷ ("count", "count") ∷ ("year", "year") ∷ [];
  is_pk = ("id", true) ∷ ("name", false) ∷ ("count", false) ∷ ("year", false) ∷ [];
  pk_column = "id";
}

abbrev final_event : Dict (Held ℕ String)
final_event =
    ("id", plain 7)
    ∷ ("name", plain 1)
    ∷ ("count", expression "count + 1")
    ∷ ("year", plain 2020)
    ∷ []

abbrev as_it_is : String → ℕ → Result ℕ
as_it_is field v = ok v

abbrev resolved : String → Result String
resolved e = ok e

abbrev sent : Statement String
sent = record {
  sets = ("event_name", parameter 0) ∷ ("count", computed "count + 1") ∷ ("year", parameter 1) ∷ [];
  where_column = "id";
  where_parameter = 2;
}

run_update :
    execute_update events final_event as_it_is resolved (ok 7) none []
    ≡ ok ((sent, 1 ∷ 2020 ∷ 7 ∷ []), [])
unfolding execute_update collect get_update_sql make_update build_sets
run_update = refl

execute_update-assignments_example :
    IsRight events final_event as_it_is resolved (ok 7) none sent (1 ∷ 2020 ∷ 7 ∷ [])
    × IsValid events resolved []
execute_update-assignments_example =
    execute_update-assignments events final_event as_it_is resolved (ok 7) none [] sent
      (1 ∷ 2020 ∷ 7 ∷ []) [] tt (λ fields names s h. absurd (cc)) run_update
