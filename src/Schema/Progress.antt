-- ===== src/Schema/Progress.antt =====
-- Tables with different names and references without a cycle can always be ordered, so the error of
-- `get_create_schema_sql` is raised only for the others.
use native.Mathlib.Decide.{dec_le}
use tortoise_orm_zh_cn.Base.{
  ℕ, zero, suc, ◌+◌, ◌≤◌, ◌<◌, ◌≡◌, refl, ◌∙◌, ◌⊎◌, inl, inr, true, false, ◌||◌, String, List, [],
  ◌∷◌, ◌++◌, none, some, length, contains, All, eqb, eqb_iff, Bool-cases, Option-cases, eq_iff,
  ◌==◌, arith,
}
use tortoise_orm_zh_cn.Base.Errors.{ok}
use tortoise_orm_zh_cn.Schema.{
  TableSql, subset, add_name, is_ready, take_ready, create_loop, creation_order,
}
use tortoise_orm_zh_cn.Schema.Order.{
  take_ready-cons, take_ready_lem, create_loop-done, create_loop-step,
}

abbrev pub names : List TableSql → List String
names [] = []
names (t ∷ ts) = t.table ∷ names ts

-- No two tables have one name, and none has a name of `seen`.
abbrev pub AreFresh : List String → List TableSql → Type 0
AreFresh seen [] = Unit
AreFresh seen (t ∷ ts) =
    (contains t.table seen ≡ false) × (contains t.table (names ts) ≡ false) × AreFresh seen ts

-- A reference to the table itself, or to a table of lower rank that is there.
abbrev pub RefersDown : (String → ℕ) → List String → List TableSql → TableSql → String → Type 0
RefersDown rank created rest t r =
    ((r == t.table) ≡ true)
    ⊎ ((rank r < rank t.table) × ((contains r created || contains r (names rest)) ≡ true))

-- Along its references, other than those to itself, the rank of a table falls.
abbrev pub AreRanked : (String → ℕ) → List String → List TableSql → List TableSql → Type 0
AreRanked rank created rest ts = All (λ t. All (RefersDown rank created rest t) t.references) ts

contains-add_name :
    (x y : String) (xs : List String) → contains x (add_name y xs) ≡ (x == y || contains x xs)
contains-add_name x y xs = ground (arith, eq_iff x y)

contains-take_ready :
    (x : String) (created : List String) (ts : List TableSql) (t : TableSql) (rest : List TableSql)
    → take_ready created ts ≡ some (t, rest)
    → contains x (names ts) ≡ (x == t.table || contains x (names rest))
contains-take_ready x created [] t rest h = absurd (unfold take_ready in cc)
contains-take_ready x created (u ∷ ts) t rest h = elim (take_ready-cons created u ts t rest h) [
  | inl (_, e, e') ↦ rw (e, e')
  | inr (r, found, e) ↦ rw (← e) (ground (arith, contains-take_ready x created ts t r found))
]

All-take_ready {κ} :
    (P : TableSql → Type κ) (created : List String) (ts : List TableSql) (t : TableSql)
    (rest : List TableSql)
    → take_ready created ts ≡ some (t, rest)
    → All P ts
    → All P rest
All-take_ready P created [] t rest h a = absurd (unfold take_ready in cc)
All-take_ready P created (u ∷ ts) t rest h a = elim (take_ready-cons created u ts t rest h) [
  | inl (_, _, e) ↦ rw (← e) (a.1)
  | inr (r, found, e) ↦ rw (← e) (a.0, All-take_ready P created ts t r found a.1)
]

AreFresh-add_name :
    (created : List String) (x : String) (ts : List TableSql)
    → contains x (names ts) ≡ false
    → AreFresh created ts
    → AreFresh (add_name x created) ts
AreFresh-add_name created x [] n a = tt
AreFresh-add_name created x (t ∷ ts) n a = (
  rw (contains-add_name t.table x created) (ground (arith, eq_iff t.table x, eq_iff x t.table)),
  a.1,
  AreFresh-add_name created x ts (ground arith) a.2,
)

AreFresh-take_ready :
    (created : List String) (ts : List TableSql) (t : TableSql) (rest : List TableSql)
    → take_ready created ts ≡ some (t, rest)
    → AreFresh created ts
    → AreFresh (add_name t.table created) rest × (contains t.table created ≡ false)
AreFresh-take_ready created [] t rest h a = absurd (unfold take_ready in cc)
AreFresh-take_ready created (u ∷ ts) t rest h a = elim (take_ready-cons created u ts t rest h) [
  | inl (_, e, e') ↦ rw (← e, ← e') (AreFresh-add_name created u.table ts a.1 a.2, a.0)
  | inr (r, found, e) ↦
      let (fresh, new) = AreFresh-take_ready created ts t r found a.2 in
      let k : contains u.table (names ts) ≡ (u.table == t.table || contains u.table (names r)) =
        contains-take_ready u.table created ts t r found in
      rw (← e)
        ((rw (contains-add_name u.table t.table created) (ground arith), ground arith, fresh), new)
]

-- What was ranked stays ranked when a table is created.
RefersDown-step :
    (rank : String → ℕ) (created : List String) (ts : List TableSql) (t : TableSql)
    (rest : List TableSql)
    → take_ready created ts ≡ some (t, rest)
    → (u : TableSql) (r : String) → RefersDown rank created ts u r
    → RefersDown rank (add_name t.table created) rest u r
RefersDown-step rank created ts t rest h u r (inl e) = inl e
RefersDown-step rank created ts t rest h u r (inr (lower, known)) = inr (
  lower,
  rw (contains-add_name r t.table created)
      (ground (arith, contains-take_ready r created ts t rest h)),
)

All-map {ℓ κ μ} :
    {A : Type ℓ} (P : A → Type κ) (S : A → Type μ)
    → ((a : A) → P a → S a)
    → (xs : List A) → All P xs
    → All S xs
All-map P S f [] a = tt
All-map P S f (x ∷ xs) a = (f x a.0, All-map P S f xs a.1)

AreRanked-step :
    (rank : String → ℕ) (created : List String) (ts : List TableSql) (t : TableSql)
    (rest : List TableSql)
    → take_ready created ts ≡ some (t, rest)
    → AreRanked rank created ts ts
    → AreRanked rank (add_name t.table created) rest rest
AreRanked-step rank created ts t rest h ranked =
    All-map (λ u. All (RefersDown rank created ts u) u.references)
      (λ u. All (RefersDown rank (add_name t.table created) rest u) u.references)
      (λ u.
        All-map (RefersDown rank created ts u) (RefersDown rank (add_name t.table created) rest u)
          (RefersDown-step rank created ts t rest h u) u.references)
      rest
      (All-take_ready (λ u. All (RefersDown rank created ts u) u.references) created ts t rest h
        ranked)

take_ready-none :
    (created : List String) (ts : List TableSql)
    → take_ready created ts ≡ none
    → All (λ t. is_ready created t ≡ false) ts
unfolding take_ready
take_ready-none created [] h = tt
take_ready-none created (t ∷ ts) h = elim (Bool-cases (is_ready created t)) [
  | inl ready ↦ absurd (ground arith)
  | inr waits ↦ (waits, take_ready-none created ts (ground arith))
]

module _ (rank : String → ℕ) (created : List String) (rest : List TableSql) where
  -- A name among the remaining tables has at least the rank that all of them have.
  rank_of_name :
      (n : ℕ) (ts : List TableSql) (r : String)
      → All (λ t. n ≤ rank t.table) ts
      → contains r (names ts) ≡ true
      → n ≤ rank r
  rank_of_name n [] r a h = absurd (cc)
  rank_of_name n (t ∷ ts) r a h = elim (Bool-cases (r == t.table)) [
    | inl same ↦ rw ((eq_iff r t.table).0 same) (a.0)
    | inr other ↦ rank_of_name n ts r a.1 (ground arith)
  ]

  -- A table of the lowest rank refers only to what is created.
  lowest_ready :
      (n : ℕ) (t : TableSql) (refs : List String)
      → All (λ u. n ≤ rank u.table) rest
      → rank t.table ≤ n
      → All (RefersDown rank created rest t) refs
      → subset refs (t.table ∷ created) ≡ true
  lowest_ready n t [] low h a = refl
  lowest_ready n t (r ∷ refs) low h (inl self, a) = ground (arith, lowest_ready n t refs low h a)
  lowest_ready n t (r ∷ refs) low h (inr (lower, known), a) =
      elim (Bool-cases (contains r (names rest))) [
        | inl waits ↦ absurd (omega (arith, rank_of_name n rest r low waits))
        | inr gone ↦ ground (arith, lowest_ready n t refs low h a)
      ]

  -- So if no table is ready, the ranks of all of them lie above every number.
  climb_one :
      (n : ℕ) (ts : List TableSql)
      → All (λ u. n ≤ rank u.table) rest
      → All (λ t. is_ready created t ≡ false) ts
      → AreRanked rank created rest ts
      → All (λ t. n ≤ rank t.table) ts
      → All (λ t. suc n ≤ rank t.table) ts
  climb_one n [] low waits ranked a = tt
  climb_one n (t ∷ ts) low waits ranked a = (
    elim (dec_le (suc n) (rank t.table)) [
      | yes p ↦ p
      | no p ↦ absurd (cc (waits.0, lowest_ready n t t.references low (omega arith) ranked.0))
    ],
    climb_one n ts low waits.1 ranked.1 a.1,
  )

  climb :
      (n : ℕ)
      → All (λ t. is_ready created t ≡ false) rest
      → AreRanked rank created rest rest
      → All (λ t. n ≤ rank t.table) rest
  climb zero waits ranked =
      All-map (λ t. is_ready created t ≡ false) (λ t. 0 ≤ rank t.table) (λ t _. omega arith) rest
        waits
  climb (suc n) waits ranked =
      climb_one n rest (climb n waits ranked) waits ranked (climb n waits ranked)

create_loop_complete :
    (rank : String → ℕ) (fuel count : ℕ) (rest : List TableSql) (created : List String)
    (ordered : List TableSql)
    → length created + length rest ≡ count
    → length rest < fuel
    → AreFresh created rest
    → AreRanked rank created rest rest
    → (out : List TableSql) × (create_loop fuel count rest created ordered ≡ some (ok out))
create_loop_complete rank zero count rest created ordered n lt fresh ranked = absurd (omega arith)
create_loop_complete rank (suc fuel) count [] created ordered n lt fresh ranked =
    (ordered, create_loop-done fuel count [] created ordered ((eqb_iff _ _).1 (omega arith)))
create_loop_complete rank (suc fuel) count (u ∷ us) created ordered n lt fresh ranked =
    let more : eqb (length created) count ≡ false = ground arith in
    elim (Option-cases (take_ready created (u ∷ us))) [
      | inl e ↦
          let above : suc (rank u.table) ≤ rank u.table =
            (climb rank created (u ∷ us) (suc (rank u.table)) (take_ready-none created (u ∷ us) e)
              ranked).0 in
          absurd (omega arith)
      | inr ((t, others), e) ↦
          let (fresh', new) = AreFresh-take_ready created (u ∷ us) t others e fresh in
          let size : length (u ∷ us) ≡ suc (length others) =
            (take_ready_lem created (u ∷ us) t others e).2 in
          let (out, done) =
            create_loop_complete rank fuel count others (add_name t.table created)
              (ordered ++ t ∷ []) (rw new (omega arith)) (omega arith) fresh'
              (AreRanked-step rank created (u ∷ us) t others e ranked) in
          (out, create_loop-step fuel count (u ∷ us) created ordered more t others e ∙ done)
    ]

-- Tables with different names, whose references other than to themselves go to given tables and
-- along which some rank falls, are always ordered: the loop returns a list.
pub creation_order_complete :
    (rank : String → ℕ) (tables : List TableSql)
    → AreFresh [] tables
    → AreRanked rank [] tables tables
    → (out : List TableSql) × (creation_order tables ≡ some (ok out))
unfolding creation_order
creation_order_complete rank tables fresh ranked =
    create_loop_complete rank (suc (length tables)) (length tables) tables [] [] (omega arith)
      (omega arith) fresh ranked
