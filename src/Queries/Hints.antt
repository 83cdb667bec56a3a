-- ===== src/Queries/Hints.antt =====
-- The index hints of a query set and of those derived from it.
use tortoise_orm_zh_cn.Base.{
  ℕ, zero, suc, ◌+◌, ◌<◌, ◌≡◌, ◌≢◌, refl, ap, sym, true, String, List, [], ◌∷◌, length, arith, ◌++◌,
  length-append,
}
use tortoise_orm_zh_cn.Queries.{
  Meta, QuerySet, Sets, set_at, put_set, add_all, new_query_set, force_index,
}

set_at-put_set :
    (ss : Sets) (n : ℕ) (t : List String) → n < length ss → set_at (put_set ss n t) n ≡ t
set_at-put_set [] n t h = absurd (omega arith)
set_at-put_set (s ∷ ss) zero t h = refl
set_at-put_set (s ∷ ss) (suc n) t h = set_at-put_set ss n t (omega arith)

set_at-put_set_other :
    (ss : Sets) (m n : ℕ) (t : List String) → m ≢ n → set_at (put_set ss n t) m ≡ set_at ss m
set_at-put_set_other [] m n t h = refl
set_at-put_set_other (s ∷ ss) zero zero t h = absurd (h refl)
set_at-put_set_other (s ∷ ss) zero (suc n) t h = refl
set_at-put_set_other (s ∷ ss) (suc m) zero t h = refl
set_at-put_set_other (s ∷ ss) (suc m) (suc n) t h = set_at-put_set_other ss m n t (λ e. h (cc))

-- The hints of a query set: what it selects, forces and uses.
abbrev pub hints : {V A : Type 0} → QuerySet V A → Sets → List String × List String × List String
hints q sets =
    (set_at sets q.select_related, set_at sets q.force_indexes, set_at sets q.use_indexes)

-- The three sets of a query set are in the store, and are three.
abbrev pub IsStored : {V A : Type 0} → QuerySet V A → Sets → Type 0
IsStored q sets =
    (q.select_related < length sets)
    × (q.force_indexes < length sets)
    × (q.use_indexes < length sets)
    × (q.select_related ≢ q.force_indexes)
    × (q.select_related ≢ q.use_indexes)
    × (q.force_indexes ≢ q.use_indexes)

module _ {V A : Type 0} where
  hints-put_set :
      (q : QuerySet V A) (sets : Sets) (t : List String)
      → IsStored q sets
      → hints q (put_set sets q.force_indexes t)
        ≡ (set_at sets q.select_related, t, set_at sets q.use_indexes)
  hints-put_set q sets t (a, b, c, ab, ac, bc) =
      let related = set_at-put_set_other sets q.select_related q.force_indexes t ab in
      let forced = set_at-put_set sets q.force_indexes t b in
      let used = set_at-put_set_other sets q.use_indexes q.force_indexes t (λ e. bc (sym e)) in
      rw (related, forced, used)

  pub force_index-hints :
      (meta : Meta) (names : List String) (q : QuerySet V A) (sets : Sets)
      → IsStored q sets
      → meta.support_index_hint ≡ true
      → let (q', sets') = force_index meta names q sets in
        let (related, forced, used) = hints q sets in
        (hints q sets' ≡ (related, add_all names forced, used))
        × (hints q' sets' ≡ (related, add_all names forced, used))
  unfolding force_index
  force_index-hints meta names q sets v s =
      let both = hints-put_set q sets (add_all names (set_at sets q.force_indexes)) v in
      rw (force_index, s) (both, both)

set_at-append_old : (ss ts : Sets) (n : ℕ) → n < length ss → set_at (ss ++ ts) n ≡ set_at ss n
set_at-append_old [] ts n h = absurd (omega arith)
set_at-append_old (s ∷ ss) ts zero h = refl
set_at-append_old (s ∷ ss) ts (suc n) h = set_at-append_old ss ts n (omega arith)

set_at-append_new : (ss ts : Sets) (k n : ℕ) → k ≡ length ss + n → set_at (ss ++ ts) k ≡ set_at ts n
set_at-append_new [] ts k n h = ap (set_at ts) (omega arith)
set_at-append_new (s ∷ ss) ts zero n h = absurd (omega arith)
set_at-append_new (s ∷ ss) ts (suc k) n h = set_at-append_new ss ts k n (omega arith)

abbrev fresh : Sets
fresh = [] ∷ [] ∷ [] ∷ []

-- A new query set has no hints, and has sets of its own: those of all others stay as they are.
new_query_set-hints :
    (V A : Type 0) (sets : Sets)
    → let (q, sets') = new_query_set {V = V} {A = A} sets in
      IsStored q sets'
      × (hints q sets' ≡ ([], [], []))
      × ((n : ℕ) → n < length sets → set_at sets' n ≡ set_at sets n)
unfolding new_query_set
new_query_set-hints V A sets =
    let count = length-append sets fresh in
    let related = set_at-append_new sets fresh (length sets) 0 (omega arith) in
    let forced = set_at-append_new sets fresh (length sets + 1) 1 (omega arith) in
    let used = set_at-append_new sets fresh (length sets + 2) 2 (omega arith) in
    (
      (omega arith, omega arith, omega arith, λ e. omega arith, λ e. omega arith, λ e. omega arith),
      rw (related, forced, used),
      λ n h. set_at-append_old sets fresh n h,
    )
