-- ===== src/Joins/Tests.antt =====
-- Runs and a witness of the orderings, on tables that are a name and an alias.
use tortoise_orm_zh_cn.Base.{
  ◌≡◌, ◌↔◌, refl, Bool, true, ◌&&◌, String, [], ◌∷◌, none, some, if◌then◌else◌, ◌==◌, eq_iff, ap,
  arith,
}
use tortoise_orm_zh_cn.Base.Dict.{Dict}
use tortoise_orm_zh_cn.Base.Errors.{ok, err, field_error}
use tortoise_orm_zh_cn.Queries.{asc, desc}
use tortoise_orm_zh_cn.Joins.{
  Tables, many_to_many, forward, ModelInfo, column, Query, path_of, via, last, join_table_by_field,
  resolve_path, resolve_each, resolve_ordering,
}
use tortoise_orm_zh_cn.Joins.Ordered.{IsSound, resolve_ordering-IsSound}

abbrev Table : Type 0
Table = String × String

abbrev same_table : Table → Table → Bool
same_table a b = a.0 == b.0 && a.1 == b.1

same_table_iff : (a b : Table) → (same_table a b ≡ true) ↔ (a ≡ b)
same_table_iff (a, a') (b, b') = (
  λ h.
      let e : a ≡ b = ground (arith, eq_iff a b) in
      let e' : a' ≡ b' = ground (arith, eq_iff a' b') in cc,
  λ h.
      let e : a ≡ b = ap (λ (t : Table). t.0) h in
      let e' : a' ≡ b' = ap (λ (t : Table). t.1) h in ground (arith, eq_iff a b, eq_iff a' b'),
)

abbrev named_tables : Tables Table
named_tables = record {
  keys = record { same = same_table; same_iff = same_table_iff };
  as_ = λ name table. (table.0, name);
  get_table_name = λ table. if table.1 == "" then table.0 else table.1;
}

abbrev event : ModelInfo Table
event = record {
  basetable = ("event", "");
  db_pk_column = "id";
  relations =
      (
        "players",
        record {
          related_model = "person";
          kind = many_to_many ("event_player", "") "event_id" "person_id";
        },
      )
      ∷ (
        "guests",
        record {
          related_model = "person";
          kind = many_to_many ("event_guest", "") "event_id" "person_id";
        },
      )
      ∷ (
        "tournament",
        record {
          related_model = "tournament";
          kind =
              forward (record { source_field = ""; model_field_name = "id" })
                (record { source_field = ""; model_field_name = "tournament_id" });
        },
      )
      ∷ [];
  fetch_fields = "players" ∷ "guests" ∷ "tournament" ∷ [];
  fields_map = ("name", record { source_field = some "event_name"; function_cast = none }) ∷ [];
}

abbrev person : ModelInfo Table
person = record {
  basetable = ("person", "");
  db_pk_column = "id";
  relations = [];
  fetch_fields = [];
  fields_map = ("name", record { source_field = none; function_cast = none }) ∷ [];
}

abbrev models : Dict (ModelInfo Table)
models =
    ("event", event)
    ∷ ("person", person)
    ∷ (
      "tournament",
      record {
        basetable = ("tournament", "");
        db_pk_column = "id";
        relations = [];
        fetch_fields = [];
        fields_map = ("name", record { source_field = none; function_cast = none }) ∷ [];
      },
    )
    ∷ []

abbrev new_query : Query Table String
new_query = record { joined_tables = []; joins = []; orderbys = [] }

run_path : path_of "a__b___c" ≡ via "a__b___c" "a" (via "b___c" "b" (last "_c"))
unfolding path_of
run_path = refl

abbrev by_tournament : Query Table String
by_tournament = record {
  joined_tables = ("tournament", "event__tournament") ∷ [];
  joins =
      record {
        table = ("tournament", "event__tournament");
        left = (("tournament", "event__tournament"), "id");
        right = (("event", ""), "tournament_id");
      }
      ∷ [];
  orderbys =
      (column ("tournament", "event__tournament") "name" none, desc)
      ∷ (column ("event", "") "event_name" none, asc)
      ∷ [];
}

run_ordering :
    resolve_ordering named_tables models [] [] event
      ("event", "")
      (("tournament__name", desc) ∷ ("name", asc) ∷ [])
      new_query
    ≡ ok by_tournament
unfolding resolve_ordering resolve_each resolve_path path_of join_table_by_field
run_ordering = refl

run_relation :
    resolve_ordering named_tables {A = String} models [] [] event
      ("event", "")
      (("tournament", desc) ∷ [])
      new_query
    ≡ err field_error
unfolding resolve_ordering resolve_each resolve_path path_of join_table_by_field
run_relation = refl

-- Two relations to one model: the table of persons is joined once, on the first relation, and both
-- orderings read it; nothing is joined on the persons of the second.
run_two_relations :
    resolve_ordering named_tables models [] [] event
      ("event", "")
      (("players__name", asc) ∷ ("guests__name", asc) ∷ [])
      new_query
    ≡ ok (record {
      joined_tables = ("event_player", "") ∷ ("person", "") ∷ ("event_guest", "") ∷ [];
      joins =
          record {
            table = ("event_player", "");
            left = (("event", ""), "id");
            right = (("event_player", ""), "event_id");
          }
          ∷ record {
            table = ("person", "");
            left = (("event_player", ""), "person_id");
            right = (("person", ""), "id");
          }
          ∷ record {
            table = ("event_guest", "");
            left = (("event", ""), "id");
            right = (("event_guest", ""), "event_id");
          }
          ∷ [];
      orderbys =
          (column ("person", "") "name" none, asc) ∷ (column ("person", "") "name" none, asc) ∷ [];
    })
unfolding resolve_ordering resolve_each resolve_path path_of join_table_by_field
run_two_relations = refl

resolve_ordering-IsSound_example : IsSound named_tables ("event", "") by_tournament
resolve_ordering-IsSound_example =
    resolve_ordering-IsSound named_tables ("event", "") models [] [] event ("event", "")
      (("tournament__name", desc) ∷ ("name", asc) ∷ []) new_query by_tournament
      (record { joined = refl; linked = tt; placed = tt }) refl run_ordering
