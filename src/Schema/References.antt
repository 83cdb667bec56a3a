-- ===== src/Schema/References.antt =====
-- The order of creation, said without the loop's own test: every reference points back.
use mathlib.Core.List.{Perm}
use tortoise_orm_zh_cn.Base.{
  ◌≡◌, true, String, List, [], ◌∷◌, some, ◌⊎◌, inl, inr, All, contains, arith, eq_iff, ◌==◌, ◌||◌,
  Bool-cases,
}
use tortoise_orm_zh_cn.Base.Errors.{ok}
use tortoise_orm_zh_cn.Schema.{TableSql, subset, add_name, creation_order}
use tortoise_orm_zh_cn.Schema.Order.{IsOrdered, creation_order-IsOrdered}

abbrev pub IsIn : String → List String → Type 0
IsIn x [] = ⊥
IsIn x (y ∷ ys) = (x ≡ y) ⊎ IsIn x ys

-- Each table's references are the table itself or tables before it, or among `before`.
abbrev pub AreOrdered : List String → List TableSql → Type 0
AreOrdered before [] = Unit
AreOrdered before (t ∷ ts) =
    All (λ r. (r ≡ t.table) ⊎ IsIn r before) t.references × AreOrdered (t.table ∷ before) ts

-- The names in `seen` are among those in `before`.
abbrev Covers : List String → List String → Type 0
Covers seen before = (x : String) → contains x seen ≡ true → IsIn x before

contains-cons :
    (x y : String) (ys : List String)
    → (x == y || contains x ys) ≡ true
    → (x ≡ y) ⊎ (contains x ys ≡ true)
contains-cons x y ys h = elim (Bool-cases (x == y)) [
  | inl same ↦ inl ((eq_iff x y).0 same)
  | inr other ↦ inr (ground arith)
]

Covers-add_name :
    (seen before : List String) (y : String)
    → Covers seen before
    → Covers (add_name y seen) (y ∷ before)
Covers-add_name seen before y covers x h = elim (Bool-cases (contains y seen)) [
  | inl there ↦ inr (covers x (ground arith))
  | inr new ↦ elim (contains-cons x y seen (ground arith)) [
    | inl same ↦ inl same
    | inr old ↦ inr (covers x old)
  ]
]

subset-All :
    (refs seen before : List String) (y : String)
    → Covers seen before
    → subset refs (y ∷ seen) ≡ true
    → All (λ r. (r ≡ y) ⊎ IsIn r before) refs
subset-All [] seen before y covers h = tt
subset-All (r ∷ refs) seen before y covers h = (
  elim (contains-cons r y seen (ground arith)) [
    | inl same ↦ inl same
    | inr old ↦ inr (covers r old)
  ],
  subset-All refs seen before y covers (ground arith),
)

IsOrdered-AreOrdered :
    (ts : List TableSql) (seen before : List String)
    → Covers seen before
    → IsOrdered seen ts
    → AreOrdered before ts
IsOrdered-AreOrdered [] seen before covers h = tt
IsOrdered-AreOrdered (t ∷ ts) seen before covers h = (
  subset-All t.references seen before t.table covers h.0,
  IsOrdered-AreOrdered ts (add_name t.table seen) (t.table ∷ before)
      (Covers-add_name seen before t.table covers) h.1,
)

-- When the loop succeeds, its order is a permutation of the given tables in which every table refers
-- only to itself and to tables before it.
pub creation_order-AreOrdered :
    (tables out : List TableSql)
    → creation_order tables ≡ some (ok out)
    → Perm tables out × AreOrdered [] out
creation_order-AreOrdered tables out h =
    let (perm, ordered) = creation_order-IsOrdered tables out h in
    (perm, IsOrdered-AreOrdered out [] [] (λ x e. cc) ordered)
