-- ===== src/Relations/ManyToMany/Tests.antt =====
-- A through table as a list of pairs, which shows that the laws of `Through` can hold, with runs
-- and witnesses.
use tortoise_orm_zh_cn.Base.{
  ℕ, ◌≡◌, refl, ap, Bool, true, false, not, ◌&&◌, ◌||◌, List, [], ◌∷◌, map, if◌then◌else◌, arith,
  eqb, eqb_iff, Bool-cases, inl, inr,
}
use tortoise_orm_zh_cn.Base.Keys.{Keys, member}
use tortoise_orm_zh_cn.Base.Errors.{Result, ok}
use tortoise_orm_zh_cn.Relations.ManyToMany.{
  Forward, matches, Through, Instance, pks_to_add, pks_of, add, clear, remove, remove_or_clear,
  insert_missing,
}
use tortoise_orm_zh_cn.Relations.ManyToMany.Added.{add-relation}

abbrev numbers : Keys ℕ
numbers = record { same = eqb; same_iff = eqb_iff }

abbrev Table : Type 0
Table = List (ℕ × ℕ)

abbrev has_row : Table → ℕ → ℕ → Bool
has_row [] b f = false
has_row ((c, g) ∷ t) b f = eqb b c && eqb f g || has_row t b f

abbrev select_rows : ℕ → Forward ℕ → Table → List ℕ
select_rows b c [] = []
select_rows b c ((a, f) ∷ t) =
    let rest = select_rows b c t in if eqb b a && matches numbers c f then f ∷ rest else rest

abbrev with_rows : ℕ → List ℕ → Table → Table
with_rows b [] t = t
with_rows b (f ∷ fs) t = (b, f) ∷ with_rows b fs t

abbrev without_rows : ℕ → Table → Table
without_rows b [] = []
without_rows b ((a, f) ∷ t) = let rest = without_rows b t in if eqb a b then rest else (a, f) ∷ rest

abbrev without_some : ℕ → Forward ℕ → Table → Table
without_some b c [] = []
without_some b c ((a, f) ∷ t) =
    let rest = without_some b c t in if eqb a b && matches numbers c f then rest else (a, f) ∷ rest

abbrev itself : ℕ → ℕ
itself k = k

has_row-select :
    (b : ℕ) (c : Forward ℕ) (t : Table) (f : ℕ)
    → member numbers f (map itself (select_rows b c t)) ≡ (has_row t b f && matches numbers c f)
has_row-select b c [] f = refl
has_row-select b c ((a, g) ∷ t) f =
    let ih = has_row-select b c t f in
    elim (Bool-cases (eqb f g)) [
      | inl e ↦ let at_g = ap (matches numbers c) ((eqb_iff f g).0 e) in ground (arith, ih, at_g)
      | inr e ↦ ground (arith, ih)
    ]

has_row-with :
    (b : ℕ) (fs : List ℕ) (t : Table) (b' f : ℕ)
    → has_row (with_rows b fs t) b' f ≡ (has_row t b' f || eqb b' b && member numbers f fs)
has_row-with b [] t b' f = ground arith
has_row-with b (g ∷ fs) t b' f = ground (arith, has_row-with b fs t b' f)

has_row-without :
    (b : ℕ) (t : Table) (b' f : ℕ)
    → has_row (without_rows b t) b' f ≡ (has_row t b' f && not (eqb b' b))
has_row-without b [] b' f = refl
has_row-without b ((a, g) ∷ t) b' f = ground (arith, has_row-without b t b' f)

has_row-without_some :
    (b : ℕ) (c : Forward ℕ) (t : Table) (b' f : ℕ)
    → has_row (without_some b c t) b' f ≡ (has_row t b' f && not (eqb b' b && matches numbers c f))
has_row-without_some b c [] b' f = refl
has_row-without_some b c ((a, g) ∷ t) b' f =
    let ih = has_row-without_some b c t b' f in
    elim (Bool-cases (eqb f g)) [
      | inl e ↦ let at_g = ap (matches numbers c) ((eqb_iff f g).0 e) in ground (arith, ih, at_g)
      | inr e ↦ ground (arith, ih)
    ]

abbrev pairs : Through numbers ℕ Table
pairs = record {
  holds = has_row;
  format = itself;
  select = λ b c t. ok (select_rows b c t);
  insert_rows = λ b fs t. ok (with_rows b fs t);
  delete_rows = λ b t. ok (without_rows b t);
  delete_some = λ b c t. ok (without_some b c t);
  select_lem = λ b c t. (select_rows b c t, refl, has_row-select b c t);
  insert_lem = λ b fs t distinct new. (with_rows b fs t, refl, has_row-with b fs t);
  delete_lem = λ b t. (without_rows b t, refl, has_row-without b t);
  delete_some_lem = λ b c t. (without_some b c t, refl, has_row-without_some b c t);
}

abbrev event : Instance ℕ
event = record { pk = 1; saved_in_db = true }

abbrev team : ℕ → Instance ℕ
team k = record { pk = k; saved_in_db = true }

abbrev taking_part : Table
taking_part = (1, 10) ∷ (2, 20) ∷ []

abbrev as_it_is : ℕ → Result ℕ
as_it_is k = ok k

-- One of the two teams is related already, and the other is given twice.
run_add :
    add pairs as_it_is as_it_is event (team 10 ∷ team 20 ∷ team 20 ∷ []) taking_part
    ≡ ok ((1, 20) ∷ (1, 10) ∷ (2, 20) ∷ [])
unfolding add pks_to_add insert_missing
run_add = refl

run_remove :
    remove pairs as_it_is as_it_is event (team 10 ∷ team 30 ∷ []) taking_part ≡ ok ((2, 20) ∷ [])
unfolding remove remove_or_clear pks_of
run_remove = refl

run_clear : clear pairs as_it_is as_it_is event taking_part ≡ ok ((2, 20) ∷ [])
unfolding clear remove_or_clear
run_clear = refl

two_keys : pks_to_add pairs as_it_is as_it_is (team 10 ∷ team 20 ∷ []) ≡ ok (10 ∷ 20 ∷ [])
unfolding pks_to_add
two_keys = refl

add-relation_example :
    (t' : Table) × (add pairs as_it_is as_it_is event (team 10 ∷ team 20 ∷ []) taking_part ≡ ok t')
    × ((b' f : ℕ)
        → has_row t' b' f
          ≡ (has_row taking_part b' f || eqb b' 1 && member numbers f (10 ∷ 20 ∷ [])))
add-relation_example =
    add-relation pairs as_it_is as_it_is event (team 10 ∷ team 20 ∷ []) 1 (10 ∷ 20 ∷ []) taking_part
      refl refl two_keys
