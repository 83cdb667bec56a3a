-- ===== src/Startup/Tests.antt =====
-- A run of the start-up on two models, and its witness.
use tortoise_orm_zh_cn.Base.{
  ◌≡◌, refl, true, false, ◌&&◌, String, [], ◌∷◌, none, some, if◌then◌else◌, ◌==◌,
}
use tortoise_orm_zh_cn.Base.Errors.{ok, err, configuration_error}
use tortoise_orm_zh_cn.Startup.{
  ManyField, many, other, Apps, many_field, split_dots, split_reference, get_related_model,
  add_field, relate, init_m2m_field,
}
use tortoise_orm_zh_cn.Startup.Store.{Address, same_address, field_at}
use tortoise_orm_zh_cn.Startup.ManyToMany.{Ends, init_m2m_field-Ends}

-- Names that are in lower case
abbrev lower : String → String
lower s = s

abbrev participants : ManyField
participants = record {
  model_name = "models.team";
  related_name = "";
  forward_key = "team_id";
  backward_key = "";
  through = "";
  generated = false;
  related_model = none;
}

abbrev models : Apps
models =
    (
      "models",
      (
        "event",
        record {
          name = "event";
          db_table = "event";
          fields_map = ("participants", many participants) ∷ [];
        },
      )
          ∷ ("team", record { name = "team"; db_table = ""; fields_map = ("id", other) ∷ [] })
          ∷ [],
    )
    ∷ []

abbrev declared : ManyField
declared = record {
  model_name = "models.team";
  related_name = "events";
  forward_key = "team_id";
  backward_key = "event_id";
  through = "event_team";
  generated = false;
  related_model = some ("models", "team");
}

abbrev generated_end : ManyField
generated_end = record {
  model_name = "models.event";
  related_name = "participants";
  forward_key = "event_id";
  backward_key = "team_id";
  through = "event_team";
  generated = true;
  related_model = some ("models", "event");
}

abbrev models_after : Apps
models_after =
    (
      "models",
      (
        "event",
        record {
          name = "event";
          db_table = "event";
          fields_map = ("participants", many declared) ∷ [];
        },
      )
          ∷ (
            "team",
            record {
              name = "team";
              db_table = "";
              fields_map = ("id", other) ∷ ("events", many generated_end) ∷ [];
            },
          )
          ∷ [],
    )
    ∷ []

run_many_field : many_field lower "models.team" "" "" "" "" ≡ ok participants
unfolding many_field split_dots
run_many_field = refl

run_bad_reference : split_reference "models.team.x" ≡ err configuration_error
unfolding split_reference split_dots
run_bad_reference = refl

run_init : init_m2m_field lower ("models", "event") "participants" models ≡ ok models_after
unfolding init_m2m_field relate many_field split_dots split_reference get_related_model add_field
run_init = refl

-- The other end is there now, and is left alone.
run_init_generated : init_m2m_field lower ("models", "team") "events" models_after ≡ ok models_after
unfolding init_m2m_field relate many_field split_dots split_reference get_related_model add_field
run_init_generated = refl

participants_there : field_at models ("models", "event") "participants" ≡ some (many participants)
unfolding get_related_model
participants_there = refl

init_m2m_field-Ends_example :
    (there : Address) × (end : ManyField) × (back : ManyField) × Ends
      ("models", "event")
      there
      "participants"
      participants
      end
      back
    × (field_at models there end.related_name ≡ none)
    × ((b : Address) (g : String)
        → field_at models_after b g ≡ (
            if same_address there b && end.related_name == g
            then some (many back)
            else if same_address ("models", "event") b && "participants" == g
            then some (many end)
            else field_at models b g))
init_m2m_field-Ends_example =
    init_m2m_field-Ends lower ("models", "event") "participants" participants models models_after
      participants_there refl run_init
