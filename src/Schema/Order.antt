-- ===== src/Schema/Order.antt =====
-- The loop of `get_create_schema_sql` always ends, and the order that it returns is right.
use mathlib.Core.List.{Perm}
use mathlib.Core.List.Perm
use tortoise_orm_zh_cn.Base.{
  ℕ, zero, suc, ◌+◌, ◌≤◌, ◌<◌, ◌≡◌, ◌≢◌, refl, true, false, String, List, [], ◌∷◌, ◌++◌, none, some,
  length, length-append, eqb, arith, Option-cases, Bool-cases, inl, inr, append_assoc, append-nil,
  ◌⊎◌, sym, ◌∙◌, eqb_iff,
}
use tortoise_orm_zh_cn.Base.Errors.{ok, err, configuration_error}
use tortoise_orm_zh_cn.Schema.{
  TableSql, add_name, is_ready, take_ready, create_loop, creation_order,
}

-- Every table is ready when those before it, and those of `seen`, have been created.
abbrev pub IsOrdered : List String → List TableSql → Type 0
IsOrdered seen [] = Unit
IsOrdered seen (t ∷ ts) = (is_ready seen t ≡ true) × IsOrdered (add_name t.table seen) ts

-- The names of the tables of a list, as the loop collects them.
abbrev pub names_after : List String → List TableSql → List String
names_after seen [] = seen
names_after seen (t ∷ ts) = names_after (add_name t.table seen) ts

-- Where the table found stands: in front, or in the tail.
pub take_ready-cons :
    (created : List String) (u : TableSql) (ts : List TableSql) (t : TableSql)
    (rest : List TableSql)
    → take_ready created (u ∷ ts) ≡ some (t, rest)
    → ((is_ready created u ≡ true) × (u ≡ t) × (ts ≡ rest))
      ⊎ ((r : List TableSql) × (take_ready created ts ≡ some (t, r)) × (u ∷ r ≡ rest))
unfolding take_ready
take_ready-cons created u ts t rest h = elim (Bool-cases (is_ready created u)) [
  | inl ready ↦ inl (ready, ground arith, ground arith)
  | inr waits ↦ elim (Option-cases (take_ready created ts)) [
    | inl e ↦ absurd (ground arith)
    | inr (found, e) ↦ inr (found.1, ground arith, ground arith)
  ]
]

-- What `take_ready` finds is ready, and with the rest it makes up the list.
pub take_ready_lem :
    (created : List String) (ts : List TableSql) (t : TableSql) (rest : List TableSql)
    → take_ready created ts ≡ some (t, rest)
    → (is_ready created t ≡ true) × Perm ts (t ∷ rest) × (length ts ≡ suc (length rest))
take_ready_lem created [] t rest h = absurd (unfold take_ready in cc)
take_ready_lem created (u ∷ ts) t rest h = elim (take_ready-cons created u ts t rest h) [
  | inl (ready, e, e') ↦ rw (e, e') (rw e at ready, Perm.refl _, refl)
  | inr (r, found, e) ↦
      let (ready, perm, size) = take_ready_lem created ts t r found in
      rw (← e) (ready, Perm.trans (Perm.cons u perm) (Perm.swap t u r), omega arith)
]

IsOrdered-append :
    (seen : List String) (ts : List TableSql) (t : TableSql)
    → IsOrdered seen ts
    → is_ready (names_after seen ts) t ≡ true
    → IsOrdered seen (ts ++ t ∷ [])
IsOrdered-append seen [] t h r = (r, tt)
IsOrdered-append seen (u ∷ ts) t h r = (h.0, IsOrdered-append (add_name u.table seen) ts t h.1 r)

names_after-append :
    (seen : List String) (ts : List TableSql) (t : TableSql)
    → names_after seen (ts ++ t ∷ []) ≡ add_name t.table (names_after seen ts)
names_after-append seen [] t = refl
names_after-append seen (u ∷ ts) t = names_after-append (add_name u.table seen) ts t

length-add_name : (x : String) (xs : List String) → length (add_name x xs) ≤ suc (length xs)
length-add_name x xs = ground arith

-- What the loop knows: the tables so far are in order, and with the rest they are the tables given.
pub record Invariant (tables : List TableSql) (created : List String) (ordered rest : List TableSql)
    : Type 0 where
  pub in_order : IsOrdered [] ordered
  pub names : created ≡ names_after [] ordered
  pub perm : Perm tables (ordered ++ rest)
  pub size : length ordered + length rest ≡ length tables
  pub few_names : length created ≤ length ordered

pub Invariant-start : (tables : List TableSql) → Invariant tables [] [] tables
Invariant-start tables = record {
  in_order = tt;
  names = refl;
  perm = Perm.refl tables;
  size = omega arith;
  few_names = omega arith;
}

-- A round of the loop keeps it.
pub Invariant-take_ready :
    {tables : List TableSql} {created : List String} {ordered rest : List TableSql}
    → Invariant tables created ordered rest
    → (t : TableSql) (others : List TableSql) → take_ready created rest ≡ some (t, others)
    → Invariant tables (add_name t.table created) (ordered ++ t ∷ []) others
Invariant-take_ready {created = created} {ordered = ordered} {rest = rest} inv t others h =
    let (ready, perm, size) = take_ready_lem created rest t others h in
    record {
      in_order = IsOrdered-append [] ordered t inv.in_order (rw inv.names at ready);
      names = rw (names_after-append [] ordered t, inv.names);
      perm = rw append_assoc (Perm.trans inv.perm (Perm.append_left ordered perm));
      size = omega (arith, size, inv.size, length-append ordered (t ∷ []));
      few_names =
          omega
            (arith, inv.few_names, length-add_name t.table created, length-append ordered (t ∷ []));
    }

-- When as many names are created as there are tables, no table is left.
pub Invariant-end :
    {tables : List TableSql} {created : List String} {ordered rest : List TableSql}
    → Invariant tables created ordered rest
    → length created ≡ length tables
    → Perm tables ordered
Invariant-end {rest = []} inv h = rw append-nil at inv.perm
Invariant-end {rest = t ∷ ts} inv h = absurd (omega (arith, inv.size, inv.few_names))

-- One round of the loop, in its three ways to go.
module _ (fuel count : ℕ) (rest : List TableSql) (created : List String)
    (ordered : List TableSql) where
  pub create_loop-done :
      eqb (length created) count ≡ true
      → create_loop (suc fuel) count rest created ordered ≡ some (ok ordered)
  unfolding create_loop
  create_loop-done h = ground arith

  pub create_loop-stuck :
      eqb (length created) count ≡ false
      → take_ready created rest ≡ none
      → create_loop (suc fuel) count rest created ordered ≡ some (err configuration_error)
  unfolding create_loop
  create_loop-stuck h e = ground arith

  pub create_loop-step :
      eqb (length created) count ≡ false
      → (t : TableSql) (others : List TableSql) → take_ready created rest ≡ some (t, others)
      → create_loop (suc fuel) count rest created ordered
        ≡ create_loop fuel count others (add_name t.table created) (ordered ++ t ∷ [])
  unfolding create_loop
  create_loop-step h t others e = ground arith

create_loop-total :
    (fuel count : ℕ) (rest : List TableSql) (created : List String) (ordered : List TableSql)
    → length rest < fuel
    → create_loop fuel count rest created ordered ≢ none
create_loop-total zero count rest created ordered h = absurd (omega arith)
create_loop-total (suc fuel) count rest created ordered h =
    elim (Bool-cases (eqb (length created) count)) [
      | inl done ↦ rw (create_loop-done fuel count rest created ordered done) (λ p. cc)
      | inr more ↦ elim (Option-cases (take_ready created rest)) [
        | inl e ↦ rw (create_loop-stuck fuel count rest created ordered more e) (λ p. cc)
        | inr ((t, others), e) ↦
            rw (create_loop-step fuel count rest created ordered more t others e) (
              create_loop-total fuel count others (add_name t.table created) (ordered ++ t ∷ [])
                (omega (arith, (take_ready_lem created rest t others e).2)))
      ]
    ]

create_loop_sound :
    (tables : List TableSql) (fuel : ℕ) (rest : List TableSql) (created : List String)
    (ordered out : List TableSql)
    → Invariant tables created ordered rest
    → create_loop fuel (length tables) rest created ordered ≡ some (ok out)
    → Perm tables out × IsOrdered [] out
create_loop_sound tables zero rest created ordered out inv h = absurd (unfold create_loop in cc)
create_loop_sound tables (suc fuel) rest created ordered out inv h =
    elim (Bool-cases (eqb (length created) (length tables))) [
      | inl done ↦
          let same : ordered ≡ out =
            cc (create_loop-done fuel (length tables) rest created ordered done) in
          rw (← same) (Invariant-end inv ((eqb_iff _ _).0 done), inv.in_order)
      | inr more ↦ elim (Option-cases (take_ready created rest)) [
        | inl e ↦ absurd (cc (create_loop-stuck fuel (length tables) rest created ordered more e))
        | inr ((t, others), e) ↦
            create_loop_sound tables fuel others (add_name t.table created) (ordered ++ t ∷ []) out
              (Invariant-take_ready inv t others e)
              (sym (create_loop-step fuel (length tables) rest created ordered more t others e) ∙ h)
      ]
    ]

-- The loop ends: one round more than there are tables is always enough.
pub creation_order-total : (tables : List TableSql) → creation_order tables ≢ none
unfolding creation_order
creation_order-total tables =
    create_loop-total (suc (length tables)) (length tables) tables [] [] (omega arith)

-- An order that is returned holds exactly the given tables, and each was ready in its turn.
pub creation_order-IsOrdered :
    (tables out : List TableSql)
    → creation_order tables ≡ some (ok out)
    → Perm tables out × IsOrdered [] out
unfolding creation_order
creation_order-IsOrdered tables out h =
    create_loop_sound tables (suc (length tables)) tables [] [] out (Invariant-start tables) h
