-- ===== src/Executor/Insert/Tests.antt =====
-- Runs and witnesses of the inserts.
use tortoise_orm_zh_cn.Base.{
  ℕ, if◌then◌else◌, ◌==◌, ◌≡◌, refl, Bool, true, false, String, List, [], ◌∷◌, some,
}
use tortoise_orm_zh_cn.Base.Errors.{Result, ok, err, integrity_error}
use tortoise_orm_zh_cn.Executor.Insert.{
  Column, Send, chunk, batches, values_lists, send_chunks, execute_bulk_insert, execute_insert,
  prepare_insert_columns,
}
use tortoise_orm_zh_cn.Executor.Insert.Rows.{rows_of, those, sent_rows}
use tortoise_orm_zh_cn.Executor.Insert.Complete.{Convertible, execute_bulk_insert-sends_all}

abbrev event_columns : List Column
event_columns =
    record { field = "id"; column = "id"; generated = true }
    ∷ record { field = "name"; column = "event_name"; generated = false }
    ∷ []

-- An event is its id, whether that was given, and the number of its name.
abbrev Event : Type 0
Event = ℕ × Bool × ℕ

abbrev id_was_given : Event → Bool
id_was_given (id, given, name) = given

abbrev field_of : String → Event → Result ℕ
field_of field (id, given, name) = if field == "id" then ok id else ok name

abbrev three : List Event
three = (0, false, 10) ∷ (7, true, 11) ∷ (0, false, 12) ∷ []

abbrev takes_all : Send ℕ → Result (Unit {0})
takes_all s = ok tt

run_columns : prepare_insert_columns false event_columns ≡ ("name" ∷ [], "event_name" ∷ [])
unfolding prepare_insert_columns
run_columns = refl

run_bulk_insert :
    execute_bulk_insert event_columns id_was_given field_of takes_all (some 2) three ≡ (
      ok tt,
      record { all_columns = true; rows = (7 ∷ 11 ∷ []) ∷ [] }
          ∷ record { all_columns = false; rows = (10 ∷ []) ∷ [] }
          ∷ record { all_columns = false; rows = (12 ∷ []) ∷ [] }
          ∷ [],
    )
unfolding execute_bulk_insert chunk batches values_lists send_chunks prepare_insert_columns
run_bulk_insert = refl

-- A refusal is passed on, and nothing more is sent.
run_bulk_insert_refused :
    (execute_bulk_insert event_columns id_was_given field_of
      (λ s. err integrity_error)
      (some 2)
      three).0
    ≡ err integrity_error
unfolding execute_bulk_insert chunk batches values_lists send_chunks prepare_insert_columns
run_bulk_insert_refused = refl

run_insert :
    execute_insert event_columns id_was_given field_of
      (λ (s : Send ℕ). ok 9)
      (λ (key : ℕ) (e : Event). ok (key, e.1, e.2))
      (0, false, 10)
    ≡ ok (9, false, 10)
unfolding execute_insert prepare_insert_columns
run_insert = refl

events_convert : Convertible event_columns id_was_given field_of three
unfolding prepare_insert_columns
events_convert = ((10 ∷ [], refl), ((7 ∷ 11 ∷ [], refl), ((12 ∷ [], refl), tt)))

execute_bulk_insert-sends_all_example :
    (sent : List (Send ℕ)) × (execute_bulk_insert event_columns id_was_given field_of takes_all
        (some 2)
        three
      ≡ (ok tt, sent))
    × ((k : Bool)
        → rows_of event_columns id_was_given field_of
            (those event_columns id_was_given field_of k three)
          ≡ ok (sent_rows k sent))
execute_bulk_insert-sends_all_example =
    execute_bulk_insert-sends_all event_columns id_was_given field_of takes_all (λ s. refl) (some 2)
      three events_convert
