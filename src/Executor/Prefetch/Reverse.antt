-- ===== src/Executor/Prefetch/Reverse.antt =====
-- Prefetching a reverse relation gives each instance what a query of its own would give it.
use mathlib.Core.Path.{fun_ext}
use tortoise_orm_zh_cn.Base.{
  ◌≡◌, refl, ap, sym, ◌∙◌, true, String, List, [], ◌∷◌, ◌++◌, Option, none, some, map,
  if◌then◌else◌, arith, append_assoc, append-nil, Bool-cases, inl, inr,
}
use tortoise_orm_zh_cn.Base.Keys.{
  Keys, member, at, put, with_key, with_keys, at-put, same_refl, with_key-with_keys,
}
use tortoise_orm_zh_cn.Base.Errors.{Result, ok}
use tortoise_orm_zh_cn.Executor.Prefetch.{
  set_each, write, or_empty, append_at, group, index, to_db_each, conditions, prefetch_reverse,
  prefetch_reverse_o2o,
}

-- The last element, or what came before
abbrev pub last_or : {E : Type 0} → Option E → List E → Option E
last_or before [] = before
last_or before (e ∷ es) = last_or (some e) es

module _ {K E : Type 0} (keys : Keys K) where
  pub at-append_at :
      (k j : K) (e : E) (d : List (K × List E))
      → or_empty (at keys j (append_at keys k e d))
        ≡ (if keys.same k j then or_empty (at keys j d) ++ e ∷ [] else or_empty (at keys j d))
  at-append_at k j e d = elim (Bool-cases (keys.same k j)) [
    | inl h ↦
        let at_j = ap (λ q. at keys q d) ((keys.same_iff k j).0 h) in
        ground (arith, at-put keys k j (or_empty (at keys k d) ++ e ∷ []) d, at_j)
    | inr h ↦ ground (arith, at-put keys k j (or_empty (at keys k d) ++ e ∷ []) d)
  ]

  pub at-group :
      (key : E → K) (k : K) (es : List E) (d : List (K × List E))
      → or_empty (at keys k (group keys key es d))
        ≡ or_empty (at keys k d) ++ with_key keys key k es
  at-group key k [] d = sym (append-nil (or_empty (at keys k d)))
  at-group key k (e ∷ es) d = grind (
    arith,
    at-group key k es (append_at keys (key e) e d),
    at-append_at (key e) k e d,
    append_assoc,
  )

  pub at-index :
      (key : E → K) (k : K) (es : List E) (d : List (K × E))
      → at keys k (index keys key es d) ≡ last_or (at keys k d) (with_key keys key k es)
  at-index key k [] d = refl
  at-index key k (e ∷ es) d =
      grind (arith, at-index key k es (put keys (key e) e d), at-put keys (key e) k e d)

module _ {K I : Type 0} (keys : Keys K) (own_key : I → K) where
  -- The keys of these instances are among these.
  abbrev pub HasKeys : List I → List K → Type 0
  HasKeys [] ks = Unit
  HasKeys (i ∷ is) ks = (member keys (own_key i) ks ≡ true) × HasKeys is ks

  HasKeys-more : (is : List I) (ks : List K) (k : K) → HasKeys is ks → HasKeys is (k ∷ ks)
  HasKeys-more [] ks k h = tt
  HasKeys-more (i ∷ is) ks k (here, h) = (ground arith, HasKeys-more is ks k h)

  pub HasKeys-own : (is : List I) → HasKeys is (map own_key is)
  HasKeys-own [] = tt
  HasKeys-own (i ∷ is) = (
    ground (arith, same_refl keys (own_key i)),
    HasKeys-more is (map own_key is) (own_key i) (HasKeys-own is),
  )

  pub related_objects :
      {E X : Type 0} (key : E → K) (rows : List E) (ks : List K) (set : List E → X) (is : List I)
      → HasKeys is ks
      → set_each (λ i. set (with_key keys key (own_key i) (with_keys keys key ks rows))) is
        ≡ set_each (λ i. set (with_key keys key (own_key i) rows)) is
  related_objects key rows ks set [] h = refl
  related_objects key rows ks set (i ∷ is) (here, h) =
      rw (with_key-with_keys keys key (own_key i) ks rows here)
        (rw (related_objects key rows ks set is h))

-- A query for one-to-many objects by a key, in a table with these rows
module _ {K I E R : Type 0} (keys : Keys K) (own_key : I → K) (to_db : I → Result R)
    (relation_key : E → K) (query : Option (List R) → Result (List E)) (rows : List E)
    (finds : (i : I) (is : List I) (rs : List R)
      → to_db_each to_db (i ∷ is) ≡ ok rs
      → query (conditions rs) ≡ ok (with_keys keys relation_key (map own_key (i ∷ is)) rows)) where
  -- Where the query answers with the rows whose key is one of those asked for, prefetching a
  -- reverse relation sets on each instance, and under `to_attr`, the rows with the key of that
  -- instance, all of them and in their order; prefetching a reverse one-to-one relation sets the
  -- last of them, if any.
  pub prefetch_reverse-rows :
      (to_attr : Option String) (i : I) (is : List I) (rs : List R)
      → to_db_each to_db (i ∷ is) ≡ ok rs
      → (prefetch_reverse keys own_key to_db relation_key query to_attr (i ∷ is)
          ≡ ok (
              set_each (λ j. write to_attr (with_key keys relation_key (own_key j) rows)) (i ∷ is)))
        × (prefetch_reverse_o2o keys own_key to_db relation_key query to_attr (i ∷ is)
            ≡ ok (
                set_each
                  (λ j. write to_attr (last_or none (with_key keys relation_key (own_key j) rows)))
                  (i ∷ is)))
  unfolding prefetch_reverse prefetch_reverse_o2o
  prefetch_reverse-rows to_attr i is rs h =
      let given = HasKeys-own keys own_key (i ∷ is) in
      let found = with_keys keys relation_key (map own_key (i ∷ is)) rows in
      let lists =
        related_objects keys own_key relation_key rows (map own_key (i ∷ is)) (write to_attr)
          (i ∷ is) given in
      let lasts =
        related_objects keys own_key relation_key rows (map own_key (i ∷ is))
          (λ es. write to_attr (last_or none es)) (i ∷ is) given in
      (
        rw h (
            rw (finds i is rs h) (
              ap ok (
                ap (λ f. set_each f (i ∷ is))
                  (fun_ext
                    (λ j. ap (write to_attr) (at-group keys relation_key (own_key j) found [])))
                ∙ lists))),
        rw h (
            rw (finds i is rs h) (
              ap ok (
                ap (λ f. set_each f (i ∷ is))
                  (fun_ext
                    (λ j. ap (write to_attr) (at-index keys relation_key (own_key j) found [])))
                ∙ lasts))),
      )
