-- ===== src/Models/Tests.antt =====
-- Runs and witnesses for objects. A value is a text.
use tortoise_orm_zh_cn.Base.{
  ◌≡◌, refl, true, false, String, List, [], ◌∷◌, ◌++◌, Option, none, some, ◌==◌, if◌then◌else◌, ◌⊎◌,
  Bool, ◌||◌, ◌&&◌, not,
}
use tortoise_orm_zh_cn.Base.Dict.{Dict, insert, update}
use tortoise_orm_zh_cn.Base.Errors.{Result, ok, err, does_not_exist, integrity_error, params_error}
use tortoise_orm_zh_cn.Models.{
  Instance, Attributes, Message, Environment, Saving, insert_row, pre_save, post_save, update_row,
  is_given, set_async_default_field, save, write,
}
use tortoise_orm_zh_cn.Models.Save.{messages_of, save-messages}
use tortoise_orm_zh_cn.Models.Fetch.{
  NoneContradicts, create_or_get, get_or_create, get_or_create-origin,
}
use tortoise_orm_zh_cn.Models.Assign.{Kind, data_field, no_field, relation, set_each, set_kwargs}

-- A database that gives a new row the key "1" and changes one row in an update.
abbrev run_message : Message → Attributes String → Result (Attributes String)
run_message insert_row attributes = ok (insert "id" (some "1") attributes)
run_message _ attributes = ok attributes

abbrev database : Environment String
database = record { run = run_message; rows = λ fields attributes. ok 1 }

abbrev event : Instance String
event = record {
  attributes = ("id", none) ∷ ("name", some "Final") ∷ [];
  partial = false;
  saved_in_db = false;
  custom_generated_pk = false;
  await_when_save = [];
}

abbrev new_event : Saving String
new_event = record { object = event; messages = [] }

abbrev saved_event : Saving String
saved_event = record {
  object = record event {
    attributes = ("id", some "1") ∷ ("name", some "Final") ∷ [];
    saved_in_db = true;
  };
  messages = pre_save ∷ insert_row ∷ post_save true ∷ [];
}

run_save : save "id" database none false false new_event ≡ (ok tt, saved_event)
unfolding save write set_async_default_field
run_save = refl

-- The same object again, with a field to update
run_update :
    (save "id" database (some ("name" ∷ [])) false false saved_event).1.messages
    ≡ saved_event.messages ++ pre_save ∷ update_row (some ("name" ∷ [])) ∷ post_save false ∷ []
unfolding save write set_async_default_field
run_update = refl

save-messages_example :
    (created : Bool) × (saved_event.messages ≡ new_event.messages ++ messages_of none created)
    × (saved_event.object.saved_in_db ≡ true)
    × (false || (not false && not (new_event.object.saved_in_db || is_given none)) ≡ true
        → created ≡ true)
save-messages_example = save-messages "id" database none false false new_event saved_event run_save

-- A table of names, where creation can lose a race.
abbrev find : Dict String → List String → Result String
find kwargs [] = err does_not_exist
find kwargs (row ∷ rows) = ok row

abbrev lose_race : Dict String → List String → Result String × List String
lose_race fields rows = (err integrity_error, "Final" ∷ rows)

run_race :
    get_or_create ◌==◌ find lose_race (("year", "2020") ∷ []) (("name", "Final") ∷ []) []
    ≡ (ok ("Final", false), "Final" ∷ [])
unfolding get_or_create create_or_get
run_race = refl

-- A default that contradicts the query creates nothing.
run_contradicted :
    get_or_create ◌==◌ find lose_race (("name", "Semi") ∷ []) (("name", "Final") ∷ []) []
    ≡ (err params_error, [])
unfolding get_or_create create_or_get
run_contradicted = refl

get_or_create-origin_example :
    ((false ≡ true)
      × (find (("name", "Final") ∷ []) [] ≡ err does_not_exist)
      × NoneContradicts ◌==◌ (("year", "2020") ∷ []) (("name", "Final") ∷ [])
      × (lose_race (update (("name", "Final") ∷ []) (("year", "2020") ∷ [])) []
          ≡ (ok "Final", "Final" ∷ [])))
    ⊎ ((false ≡ false)
        × (find (("name", "Final") ∷ []) ("Final" ∷ []) ≡ ok "Final")
        × ((◌≡◌ {A = List String} ("Final" ∷ []) [])
            ⊎ ((find (("name", "Final") ∷ []) [] ≡ err does_not_exist)
                × NoneContradicts ◌==◌ (("year", "2020") ∷ []) (("name", "Final") ∷ [])
                × (lose_race (update (("name", "Final") ∷ []) (("year", "2020") ∷ [])) []
                    ≡ (err integrity_error, "Final" ∷ [])))))
get_or_create-origin_example =
    get_or_create-origin ◌==◌ find lose_race (("year", "2020") ∷ []) (("name", "Final") ∷ []) []
      ("Final" ∷ []) "Final" false run_race

abbrev event_kind : String → Kind
event_kind key =
    if key == "tournament"
    then relation "tournament_id"
    else if key == "name"
    then data_field false false
    else no_field

abbrev all_saved : String → Bool
all_saved v = true

abbrev as_given : String → Option String → Result (Option String)
as_given key value = ok value

abbrev given : Attributes String
given = ("name", some "Semi") ∷ ("tournament", some "Cup") ∷ []

abbrev changed_event : Instance String
changed_event = record event {
  attributes = ("id", none) ∷ ("name", some "Semi") ∷ ("tournament", some "Cup") ∷ [];
}

run_set :
    set_kwargs event_kind all_saved as_given [] given event
    ≡ ok (changed_event, "name" ∷ "tournament" ∷ "tournament_id" ∷ [])
unfolding set_kwargs set_each
run_set = refl
