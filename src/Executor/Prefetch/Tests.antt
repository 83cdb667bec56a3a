-- ===== src/Executor/Prefetch/Tests.antt =====
-- Runs and witnesses of the prefetches.
use tortoise_orm_zh_cn.Base.{
  ℕ, ◌≡◌, refl, ap, sym, String, List, [], ◌∷◌, map, Option, none, some, eqb, eqb_iff, All,
}
use tortoise_orm_zh_cn.Base.Keys.{Keys, with_key, with_keys}
use tortoise_orm_zh_cn.Base.Errors.{Result, ok}
use tortoise_orm_zh_cn.Executor.Prefetch.{
  write, set_each, to_db_each, conditions, prefetch_reverse, prefetch_reverse_o2o, prefetch_m2m,
  prefetch_direct, Condition, equals, is_in, fetch_wanted, object_map,
}
use tortoise_orm_zh_cn.Executor.Prefetch.Many.{AreRelated, prefetch_m2m-rows}
use tortoise_orm_zh_cn.Executor.Prefetch.Direct.{
  keys_of, set_objects, condition, prefetch_direct-rows,
}
use tortoise_orm_zh_cn.Executor.Prefetch.Reverse.{last_or, prefetch_reverse-rows}

abbrev numbers : Keys ℕ
numbers = record { same = eqb; same_iff = eqb_iff }

-- An event is its tournament and its name.
abbrev events : List (ℕ × String)
events = (1, "a") ∷ (2, "b") ∷ (1, "c") ∷ (3, "d") ∷ []

abbrev tournament : ℕ × String → ℕ
tournament e = e.0

abbrev itself : ℕ → ℕ
itself k = k

abbrev to_db : ℕ → Result ℕ
to_db k = ok k

abbrev query : Option (List ℕ) → Result (List (ℕ × String))
query none = ok events
query (some ks) = ok (with_keys numbers tournament ks events)

to_db_all : (is : List ℕ) → to_db_each to_db is ≡ ok is
to_db_all [] = refl
to_db_all (i ∷ is) = rw (to_db_all is)

itself_each : (is : List ℕ) → map itself is ≡ is
itself_each [] = refl
itself_each (i ∷ is) = rw (itself_each is)

query-finds :
    (i : ℕ) (is rs : List ℕ)
    → to_db_each to_db (i ∷ is) ≡ ok rs
    → query (conditions rs) ≡ ok (with_keys numbers tournament (map itself (i ∷ is)) events)
query-finds i is rs h =
    let all = to_db_all (i ∷ is) in
    let e : i ∷ is ≡ rs = cc in
    rw (sym e) (ap (λ ks. ok (with_keys numbers tournament ks events)) (sym (itself_each (i ∷ is))))

run_reverse :
    prefetch_reverse numbers itself to_db tournament query (some "all") (1 ∷ 4 ∷ [])
    ≡ ok (
        (
          1,
          record {
            value = (1, "a") ∷ (1, "c") ∷ [];
            extra = some ("all", (1, "a") ∷ (1, "c") ∷ []);
          },
        )
        ∷ (4, record { value = []; extra = some ("all", []) })
        ∷ [])
unfolding prefetch_reverse
run_reverse = refl

run_reverse_o2o :
    prefetch_reverse_o2o numbers itself to_db tournament query none (2 ∷ 4 ∷ [])
    ≡ ok (
        (2, record { value = some (2, "b"); extra = none })
        ∷ (4, record { value = none; extra = none })
        ∷ [])
unfolding prefetch_reverse_o2o
run_reverse_o2o = refl

prefetch_reverse-rows_example :
    (prefetch_reverse numbers itself to_db tournament query none (1 ∷ 4 ∷ [])
      ≡ ok (set_each (λ j. write none (with_key numbers tournament j events)) (1 ∷ 4 ∷ [])))
    × (prefetch_reverse_o2o numbers itself to_db tournament query none (1 ∷ 4 ∷ [])
        ≡ ok (
            set_each
              (λ j. write none (last_or none (with_key numbers tournament j events)))
              (1 ∷ 4 ∷ [])))
prefetch_reverse-rows_example =
    prefetch_reverse-rows numbers itself to_db tournament query events query-finds none 1 (4 ∷ [])
      (1 ∷ 4 ∷ []) refl

-- A row of a through table, with the related row, is the two keys and a name.
abbrev teams : List (ℕ × ℕ × String)
teams = (1, 10, "x") ∷ (2, 10, "x") ∷ (1, 20, "y") ∷ []

abbrev event_key : ℕ × ℕ × String → ℕ
event_key w = w.0

abbrev team_key : ℕ × ℕ × String → ℕ
team_key w = w.1

abbrev team_of : ℕ × ℕ × String → ℕ × String
team_of w = (w.1, w.2)

abbrev pk_of : ℕ × String → ℕ
pk_of t = t.0

abbrev team_query : List ℕ → Result (List (ℕ × ℕ × String))
team_query ks = ok (with_keys numbers event_key ks teams)

abbrev nothing_more : List (ℕ × String) → Result (List (ℕ × String))
nothing_more es = ok es

run_m2m :
    prefetch_m2m numbers numbers itself to_db team_query event_key team_key team_of pk_of
      nothing_more none
      (1 ∷ 3 ∷ [])
    ≡ ok (
        (1, record { value = (10, "x") ∷ (20, "y") ∷ []; extra = none })
        ∷ (3, record { value = []; extra = none })
        ∷ [])
unfolding prefetch_m2m
run_m2m = refl

prefetch_m2m-rows_example :
    (objects : ℕ → List (ℕ × String)) × (prefetch_m2m numbers numbers itself to_db team_query
        event_key team_key team_of pk_of nothing_more none
        (1 ∷ 3 ∷ [])
      ≡ ok (set_each (λ i. write none (objects i)) (1 ∷ 3 ∷ [])))
    × All
        (λ i.
          AreRelated numbers numbers itself to_db team_query event_key team_key team_of pk_of
            nothing_more
            ((10, "x") ∷ (20, "y") ∷ [])
            (map team_key (with_key numbers event_key i teams))
            (objects i))
        (1 ∷ 3 ∷ [])
prefetch_m2m-rows_example =
    prefetch_m2m-rows numbers numbers itself to_db team_query event_key team_key team_of pk_of
      nothing_more teams (1 ∷ 3 ∷ []) (1 ∷ 3 ∷ []) ((10, "x") ∷ (20, "y") ∷ []) refl refl refl refl
      none

-- A player is a number and the key of the player's team, if any.
abbrev Player : Type 0
Player = ℕ × Option ℕ

abbrev team_id : Player → Option ℕ
team_id p = p.1

abbrev player : Player → String
player p = "Player"

abbrev id_field : Player → String
id_field p = "id"

abbrev key_under : String → ℕ × String → ℕ
key_under field t = t.0

abbrev team_class : ℕ × String → String
team_class t = "Team"

abbrev all_teams : List (ℕ × String)
all_teams = (10, "x") ∷ (20, "y") ∷ (30, "z") ∷ []

abbrev teams_by_id : List (Condition ℕ) → Result (List (ℕ × String))
teams_by_id (equals field k ∷ cs) = ok (with_keys numbers pk_of (k ∷ []) all_teams)
teams_by_id (is_in field ks ∷ cs) = ok (with_keys numbers pk_of ks all_teams)
teams_by_id [] = ok all_teams

abbrev players : List Player
players = (1, some 20) ∷ (2, none) ∷ (3, some 20) ∷ (4, some 10) ∷ []

run_direct :
    prefetch_direct numbers team_id player id_field key_under team_class teams_by_id
      (some "side")
      players
    ≡ ok (
        ((1, some 20), record { value = some (20, "y"); extra = some ("side", some (20, "y")) })
        ∷ ((2, none), record { value = none; extra = some ("side", none) })
        ∷ ((3, some 20), record { value = some (20, "y"); extra = some ("side", some (20, "y")) })
        ∷ ((4, some 10), record { value = some (10, "x"); extra = some ("side", some (10, "x")) })
        ∷ [])
unfolding prefetch_direct fetch_wanted object_map
run_direct = refl

teams_by_id-finds :
    (vs : List ℕ)
    → teams_by_id
        (condition numbers team_id player id_field key_under team_class teams_by_id vs "id" ∷ [])
      ≡ ok (with_keys numbers pk_of vs all_teams)
teams_by_id-finds [] = refl
teams_by_id-finds (v ∷ []) = refl
teams_by_id-finds (v ∷ w ∷ vs) = refl

prefetch_direct-rows_example :
    prefetch_direct numbers team_id player id_field key_under team_class teams_by_id
      (some "side")
      players
    ≡ ok (
        set_objects numbers team_id player id_field key_under team_class teams_by_id "id" all_teams
          (some "side")
          players
          (keys_of numbers team_id player id_field key_under team_class teams_by_id players))
prefetch_direct-rows_example =
    prefetch_direct-rows numbers team_id player id_field key_under team_class teams_by_id "Player"
      "id" all_teams (some "side") players
      ((refl, refl), ((refl, refl), ((refl, refl), ((refl, refl), tt)))) teams_by_id-finds
