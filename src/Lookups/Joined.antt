-- ===== src/Lookups/Joined.antt =====
-- What adding joins makes of a query: `add_joins` joins each table that is not there yet, once.
use mathlib.Core.Path.{subst}
use mathlib.Core.List.{map-append}
use tortoise_orm_zh_cn.Base.{
  ◌≡◌, refl, ◌∙◌, sym, true, false, ◌||◌, List, [], ◌∷◌, ◌++◌, map, All, arith, ap, append_assoc,
  append-nil, Bool-cases, inl, inr, ◌⊎◌,
}
use tortoise_orm_zh_cn.Base.Keys.{member, same_refl, same_sym}
use tortoise_orm_zh_cn.Relations.ManyToMany.{AreDistinct}
use tortoise_orm_zh_cn.Joins.{Tables, Join, Query, add_join, add_joins}

module _ {T : Type 0} (tables : Tables T) where
  -- Each join's table is one of these.
  abbrev pub AreJoined : List T → List (Join T) → Type 0
  AreJoined seen = All (λ j. member tables.keys j.table seen ≡ true)

  member-append :
      (t : T) (xs ys : List T)
      → member tables.keys t (xs ++ ys) ≡ (member tables.keys t xs || member tables.keys t ys)
  member-append t [] ys = refl
  member-append t (x ∷ xs) ys = ground (arith, member-append t xs ys)

  AreDistinct-append :
      (xs : List T) (t : T)
      → AreDistinct tables.keys xs
      → member tables.keys t xs ≡ false
      → AreDistinct tables.keys (xs ++ t ∷ [])
  AreDistinct-append [] t h g = (refl, tt)
  AreDistinct-append (x ∷ xs) t (new, h) g = (
    ground (arith, member-append x xs (t ∷ []), same_sym tables.keys x t),
    AreDistinct-append xs t h (ground arith),
  )

  -- The first are some of the second, in their order.
  abbrev pub IsPart : List (Join T) → List (Join T) → Type 0
  IsPart xs [] = xs ≡ []
  IsPart xs (y ∷ ys) = IsPart xs ys ⊎ ((rest : List (Join T)) × (xs ≡ y ∷ rest) × IsPart rest ys)

  IsPart-cons :
      (j : Join T) (xs ys js : List (Join T))
      → IsPart xs (j ∷ [])
      → IsPart ys js
      → IsPart (xs ++ ys) (j ∷ js)
  IsPart-cons j xs ys js (inl none_taken) h = inl (rw none_taken h)
  IsPart-cons j xs ys js (inr (rest, taken, no_more)) h = inr (ys, rw (taken, no_more) refl, h)

  -- The joins and the tables of the query are those that it had and then, for some of these joins, the
  -- join and its table; every join's table is there, and no table is there twice.
  abbrev pub Extends : {A : Type 0} → Query T A → Query T A → List (Join T) → Type 0
  Extends before after js =
      ((more : List (Join T)) × (after.joins ≡ before.joins ++ more)
        × (after.joined_tables ≡ before.joined_tables ++ map (λ j. j.table) more)
        × IsPart more js)
      × AreDistinct tables.keys after.joined_tables
      × AreJoined after.joined_tables js

  add_join-Extends :
      {A : Type 0} (j : Join T) (q : Query T A)
      → AreDistinct tables.keys q.joined_tables
      → Extends q (add_join tables j q) (j ∷ [])
  add_join-Extends j q h = elim (Bool-cases (member tables.keys j.table q.joined_tables)) [
    | inl e ↦
        rw e
          (([], sym (append-nil q.joins), sym (append-nil q.joined_tables), inl refl), h, (e, tt))
    | inr e ↦ rw e (
      (j ∷ [], refl, refl, inr ([], refl, refl)),
      AreDistinct-append q.joined_tables j.table h e,
      (
        ground (
          arith,
          member-append j.table q.joined_tables (j.table ∷ []),
          same_refl tables.keys j.table,
        ),
        tt,
      ),
    )
  ]

  pub add_joins-Extends :
      {A : Type 0} (js : List (Join T)) (q : Query T A)
      → AreDistinct tables.keys q.joined_tables
      → Extends q (add_joins tables js q) js
  add_joins-Extends [] q h =
      (([], sym (append-nil q.joins), sym (append-nil q.joined_tables), refl), h, tt)
  add_joins-Extends (j ∷ js) q h =
      let ((more, joined, grown, part), distinct, (here, _)) = add_join-Extends j q h in
      let ((more', joined', grown', part'), distinct', rest) =
        add_joins-Extends js (add_join tables j q) distinct in
      (
        (
          more ++ more',
          joined' ∙ ap (λ x. x ++ more') joined ∙ append_assoc q.joins more more',
          grown'
              ∙ ap (λ x. x ++ map (λ j. j.table) more') grown
              ∙ append_assoc q.joined_tables (map (λ j. j.table) more) (map (λ j. j.table) more')
              ∙ ap (λ x. q.joined_tables ++ x) (sym (map-append (λ j. j.table) more more')),
          IsPart-cons j more more' js part part',
        ),
        distinct',
        (
          subst (λ x. member tables.keys j.table x ≡ true) (sym grown')
              (ground (
                arith,
                member-append j.table (add_join tables j q).joined_tables
                    (map (λ j. j.table) more'),
              )),
          rest,
        ),
      )
