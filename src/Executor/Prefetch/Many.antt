-- ===== src/Executor/Prefetch/Many.antt =====
-- Prefetching a many-to-many relation gives each instance its related objects, and meets no key
-- that is missing.
use tortoise_orm_zh_cn.Base.{
  ◌≡◌, refl, sym, Bool, true, false, String, List, [], ◌∷◌, ◌++◌, Option, some, map, All,
  if◌then◌else◌, arith, append_assoc, append-nil, Bool-cases, inl, inr, ◌⊎◌,
}
use tortoise_orm_zh_cn.Base.Keys.{
  Keys, member, at, put, with_key, with_keys, at-put, same_refl, same_sym, with_key-with_keys,
}
use tortoise_orm_zh_cn.Base.Errors.{Result, ok}
use tortoise_orm_zh_cn.Executor.Prefetch.{
  set_each, write, or_empty, append_at, index, to_db_each, relations, add_relations, prefetch_m2m,
}
use tortoise_orm_zh_cn.Executor.Prefetch.Reverse.{at-append_at, HasKeys, HasKeys-own}

-- The object that the index holds under a key
module _ {J E : Type 0} (related_keys : Keys J) (pk_of : E → J) where
  abbrev pub Holds : J → List (J × E) → Type 0
  Holds j d = (e : E) × (at related_keys j d ≡ some e) × (pk_of e ≡ j)

  pub index-Holds :
      (j : J) (es : List E) (d : List (J × E))
      → (member related_keys j (map pk_of es) ≡ true) ⊎ Holds j d
      → Holds j (index related_keys pk_of es d)
  index-Holds j [] d (inl h) = absurd (ground arith)
  index-Holds j [] d (inr h) = h
  index-Holds j (e ∷ es) d h = elim (Bool-cases (related_keys.same (pk_of e) j)) [
    | inl here ↦ index-Holds j es (put related_keys (pk_of e) e d) (
        inr (
          e,
          ground (arith, at-put related_keys (pk_of e) j e d),
          (related_keys.same_iff (pk_of e) j).0 here,
        ))
    | inr past ↦
        let skips = at-put related_keys (pk_of e) j e d in
        index-Holds j es (put related_keys (pk_of e) e d) (elim h [
          | inl m ↦ inl (ground (arith, same_sym related_keys (pk_of e) j))
          | inr (f, found, key) ↦ inr (f, ground (arith, skips), key)
        ])
  ]

module _ {K J I E R W : Type 0} (keys : Keys K) (related_keys : Keys J) (own_pk : I → K)
    (to_db : I → Result R) (query : List R → Result (List W)) (backward : W → K) (forward : W → J)
    (init_from_db : W → E) (pk_of : E → J) (prefetch_nested : List E → Result (List E)) where
  abbrev add_each : List W → List (J × E) → List (K × List E) → Result (List (K × List E))
  add_each ws =
      add_relations keys related_keys own_pk to_db query backward forward init_from_db pk_of
        prefetch_nested
        (relations keys related_keys own_pk to_db query backward forward init_from_db pk_of
          prefetch_nested ws)

  -- The objects are those of the rows, by their keys, and the index holds them.
  abbrev AreOf : List (J × E) → List J → List E → Type 0
  AreOf objects [] [] = Unit
  AreOf objects [] (e ∷ es) = ⊥
  AreOf objects (j ∷ js) [] = ⊥
  AreOf objects (j ∷ js) (e ∷ es) =
      (pk_of e ≡ j) × (at related_keys j objects ≡ some e) × AreOf objects js es

  AreOf-append :
      (objects : List (J × E)) (js : List J) (es : List E) (j : J) (e : E)
      → AreOf objects js es
      → pk_of e ≡ j
      → at related_keys j objects ≡ some e
      → AreOf objects (js ++ j ∷ []) (es ++ e ∷ [])
  AreOf-append objects [] [] j e h key found = (key, found, tt)
  AreOf-append objects [] (f ∷ es) j e h key found = absurd h
  AreOf-append objects (i ∷ js) [] j e h key found = absurd h
  AreOf-append objects (i ∷ js) (f ∷ es) j e (fkey, ffound, h) key found =
      (fkey, ffound, AreOf-append objects js es j e h key found)

  keys_of-snoc :
      (k : K) (before : List W) (w : W)
      → map forward (with_key keys backward k (before ++ w ∷ [])) ≡ (
          if keys.same (backward w) k
          then map forward (with_key keys backward k before) ++ forward w ∷ []
          else map forward (with_key keys backward k before))
  keys_of-snoc k [] w = ground arith
  keys_of-snoc k (v ∷ before) w = ground (arith, keys_of-snoc k before w)

  AreOf-if :
      (b : Bool) (objects : List (J × E)) (js : List J) (es : List E) (j : J) (e : E)
      → AreOf objects js es
      → pk_of e ≡ j
      → at related_keys j objects ≡ some e
      → AreOf objects (if b then js ++ j ∷ [] else js) (if b then es ++ e ∷ [] else es)
  AreOf-if true objects js es j e h key found = AreOf-append objects js es j e h key found
  AreOf-if false objects js es j e h key found = h

  add_each-AreOf :
      (ws before : List W) (objects : List (J × E)) (d : List (K × List E))
      → All (λ w. Holds related_keys pk_of (forward w) objects) ws
      → ((k : K)
          → AreOf objects (map forward (with_key keys backward k before)) (or_empty (at keys k d)))
      → (d' : List (K × List E)) × (add_each ws objects d ≡ ok d')
        × ((k : K)
            → AreOf objects
                (map forward (with_key keys backward k (before ++ ws)))
                (or_empty (at keys k d')))
  add_each-AreOf [] before objects d given here = (d, refl, λ k. rw (append-nil before) (here k))
  add_each-AreOf (w ∷ ws) before objects d ((e, found, key), given) here =
      let next = append_at keys (backward w) e d in
      let grown : (k : K)
          → AreOf objects (map forward (with_key keys backward k (before ++ w ∷ [])))
              (or_empty (at keys k next)) =
        λ k. rw (keys_of-snoc k before w) (
          rw (at-append_at keys (backward w) k e d)
            (AreOf-if (keys.same (backward w) k) objects _ _ (forward w) e (here k) key found)) in
      let (d', added, there) = add_each-AreOf ws (before ++ w ∷ []) objects next given grown in
      (d', rw found added, λ k. rw (sym (append_assoc before (w ∷ []) ws)) (there k))

  -- The rows of an instance that was asked for are among those that were found.
  related_rows :
      (is : List I) (ks : List K) (rows : List W) (d : List (K × List E)) (objects : List (J × E))
      → HasKeys keys own_pk is ks
      → ((k : K)
          → AreOf objects
              (map forward (with_key keys backward k (with_keys keys backward ks rows)))
              (or_empty (at keys k d)))
      → All
          (λ i.
            AreOf objects
              (map forward (with_key keys backward (own_pk i) rows))
              (or_empty (at keys (own_pk i) d)))
          is
  related_rows [] ks rows d objects h there = tt
  related_rows (i ∷ is) ks rows d objects (here, h) there = (
    rw (sym (with_key-with_keys keys backward (own_pk i) ks rows here)) (there (own_pk i)),
    related_rows is ks rows d objects h there,
  )

  -- Every row's object is in the index.
  rows-Holds :
      (ws : List W) (d : List (J × E)) (js : List J)
      → ((j : J) → member related_keys j js ≡ true → Holds related_keys pk_of j d)
      → ((w : W)
          → member related_keys (forward w) (map forward ws) ≡ true
          → member related_keys (forward w) js ≡ true)
      → All (λ w. Holds related_keys pk_of (forward w) d) ws
  rows-Holds [] d js holds among = tt
  rows-Holds (w ∷ ws) d js holds among = (
    holds (forward w) (among w (ground (arith, same_refl related_keys (forward w)))),
    rows-Holds ws d js holds (λ v here. among v (ground arith)),
  )

  -- The objects of one instance: those that were fetched for it, by their keys
  abbrev pub AreRelated : List E → List J → List E → Type 0
  AreRelated fetched js es = AreOf (index related_keys pk_of fetched []) js es

  -- The query answers with the rows of the through table for these instances, in the order of the
  -- related query, and the prefetch of the related objects leaves their keys as they are.
  -- Then the prefetch of a many-to-many relation succeeds, and sets on each instance the related
  -- objects: those of the rows with the key of the instance, in the order of the rows, and each the
  -- one object of its key.
  pub prefetch_m2m-rows :
      (rows : List W) (is : List I) (rs : List R) (es : List E)
      → to_db_each to_db is ≡ ok rs
      → query rs ≡ ok (with_keys keys backward (map own_pk is) rows)
      → prefetch_nested (map init_from_db (with_keys keys backward (map own_pk is) rows)) ≡ ok es
      → map pk_of es ≡ map forward (with_keys keys backward (map own_pk is) rows)
      → (to_attr : Option String)
      → (objects : I → List E) × (prefetch_m2m keys related_keys own_pk to_db query backward forward
            init_from_db pk_of prefetch_nested to_attr is
          ≡ ok (set_each (λ i. write to_attr (objects i)) is))
        × All
            (λ i. AreRelated es (map forward (with_key keys backward (own_pk i) rows)) (objects i))
            is
  unfolding prefetch_m2m
  prefetch_m2m-rows rows is rs es converted found nested same_keys to_attr =
      let ws = with_keys keys backward (map own_pk is) rows in
      let holds =
        rows-Holds ws (index related_keys pk_of es []) (map pk_of es)
          (λ j m. index-Holds related_keys pk_of j es [] (inl m)) (λ w m. rw same_keys m) in
      let (d, added, there) =
        add_each-AreOf ws [] (index related_keys pk_of es []) [] holds (λ k. tt) in
      (
        (λ i. or_empty (at keys (own_pk i) d)),
        rw converted (rw found (rw nested (rw added))),
        related_rows is (map own_pk is) rows d (index related_keys pk_of es [])
            (HasKeys-own keys own_pk is) there,
      )
