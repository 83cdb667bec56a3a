-- ===== src/Executor/Prefetch/Direct.antt =====
-- Prefetching a direct relation gives each instance the object that its key names.
use tortoise_orm_zh_cn.Base.{
  ◌≡◌, refl, ap, ◌∙◌, true, String, List, [], ◌∷◌, ◌++◌, Option, none, some, All, arith, Bool-cases,
  inl, inr, eq_refl, Option-cases, ◌||◌,
}
use tortoise_orm_zh_cn.Base.Keys.{
  Keys, member, with_key, with_keys, same_refl, member-same, with_key-with_keys,
}
use tortoise_orm_zh_cn.Base.Errors.{Result, ok}
use tortoise_orm_zh_cn.Executor.Prefetch.{
  set_each, write, Written, index, Wanted, Condition, add_value, collect_wanted, nothing_wanted,
  condition_for, object_map, find_object, fetch_wanted, prefetch_direct,
}
use tortoise_orm_zh_cn.Executor.Prefetch.Reverse.{last_or, at-index}

-- A key in front of others, if there is one
abbrev pub cons_some : {K : Type 0} → Option K → List K → List K
cons_some none ks = ks
cons_some (some k) ks = k ∷ ks

module _ {K I E : Type 0} (keys : Keys K) (raw_key : I → Option K) (class_of : I → String)
    (to_field : I → String) (attribute : String → E → K) (class_of_object : E → String)
    (query : List (Condition K) → Result (List E)) where
  abbrev collected : List I → Wanted K → Wanted K
  collected is w =
      collect_wanted keys raw_key class_of to_field attribute class_of_object query is w

  -- The instances are of one class.
  abbrev pub AreAlike : String → String → List I → Type 0
  AreAlike cls field is = All (λ i. (class_of i ≡ cls) × (to_field i ≡ field)) is

  -- The keys that the instances have
  abbrev pub keys_of : List I → List K
  keys_of [] = []
  keys_of (i ∷ is) = cons_some (raw_key i) (keys_of is)

  abbrev pub wanted : String → String → List K → Wanted K
  wanted cls field vs = record {
    for_fetch = (field, vs) ∷ [];
    model_to_field = (cls, field) ∷ [];
    key = field;
  }

  abbrev more_keys : K → List K → List K
  more_keys k vs = add_value keys raw_key class_of to_field attribute class_of_object query k vs

  abbrev find : Option K → List (K × E) → Option E
  find k d = find_object keys raw_key class_of to_field attribute class_of_object query k d

  abbrev pub condition : List K → String → Condition K
  condition vs field =
      condition_for keys raw_key class_of to_field attribute class_of_object query field vs

  -- Keys without repetition, added to those before
  abbrev pub add_keys : List K → List K → List K
  add_keys vs [] = vs
  add_keys vs (k ∷ ks) = add_keys (more_keys k vs) ks

  collect_more :
      (cls field : String) (is : List I) (vs : List K)
      → AreAlike cls field is
      → collected is (wanted cls field vs) ≡ wanted cls field (add_keys vs (keys_of is))
  collect_more cls field [] vs alike = refl
  collect_more cls field (i ∷ is) vs ((same_class, same_field), alike) =
      elim (Option-cases (raw_key i)) [
        | inl e ↦ rw e (collect_more cls field is vs alike)
        | inr (k, e) ↦ rw same_class (
            rw e
              (rw (eq_refl cls, eq_refl field) (collect_more cls field is (more_keys k vs) alike)))
      ]

  collect_all :
      (cls field : String) (is : List I)
      → AreAlike cls field is
      → collected is (nothing_wanted keys raw_key class_of to_field attribute class_of_object query)
        ≡ elim (keys_of is) [
          | [] ↦ nothing_wanted keys raw_key class_of to_field attribute class_of_object query
          | k ∷ ks ↦ wanted cls field (add_keys (k ∷ []) ks)
        ]
  collect_all cls field [] alike = refl
  collect_all cls field (i ∷ is) ((same_class, same_field), alike) =
      elim (Option-cases (raw_key i)) [
        | inl e ↦ rw e (collect_all cls field is alike)
        | inr (k, e) ↦
            rw e (rw same_class (rw same_field (collect_more cls field is (k ∷ []) alike)))
      ]

  member-snoc :
      (j k : K) (vs : List K) → member keys j (vs ++ k ∷ []) ≡ (member keys j vs || keys.same j k)
  member-snoc j k [] = ground arith
  member-snoc j k (v ∷ vs) = ground (arith, member-snoc j k vs)

  member-more :
      (j k : K) (vs : List K) → member keys j (more_keys k vs) ≡ (member keys j vs || keys.same j k)
  member-more j k vs = elim (Bool-cases (member keys k vs)) [
    | inl here ↦ elim (Bool-cases (keys.same j k)) [
      | inl e ↦ ground (arith, member-same keys j k vs e)
      | inr e ↦ ground arith
    ]
    | inr new ↦ rw new (member-snoc j k vs)
  ]

  member-add_keys :
      (j : K) (vs ks : List K)
      → member keys j (add_keys vs ks) ≡ (member keys j vs || member keys j ks)
  member-add_keys j vs [] = ground arith
  member-add_keys j vs (k ∷ ks) =
      ground (arith, member-add_keys j (more_keys k vs) ks, member-more j k vs)

  -- The keys of these instances are among these.
  abbrev Asked : List I → List K → Type 0
  Asked is vs = All (λ i. (k : K) → raw_key i ≡ some k → member keys k vs ≡ true) is

  Asked-keys_of :
      (is : List I) (vs : List K)
      → ((k : K) → member keys k (keys_of is) ≡ true → member keys k vs ≡ true)
      → Asked is vs
  Asked-keys_of [] vs among = tt
  Asked-keys_of (i ∷ is) vs among = (
    λ k e. among k (rw e (ground (arith, same_refl keys k))),
    Asked-keys_of is vs (λ k here.
        among k (elim (Option-cases (raw_key i)) [
          | inl e ↦ rw e here
          | inr (j, e) ↦ rw e (ground arith)
        ])),
  )

  -- The last of the objects with the key of the instance
  abbrev pub named_object : String → List E → Option K → Option E
  named_object field rows none = none
  named_object field rows (some k) = last_or none (with_key keys (attribute field) k rows)

  find_object-named :
      (field : String) (rows : List E) (vs : List K) (k : Option K)
      → ((j : K) → k ≡ some j → member keys j vs ≡ true)
      → find k (index keys (attribute field) (with_keys keys (attribute field) vs rows) [])
        ≡ named_object field rows k
  find_object-named field rows vs none among = refl
  find_object-named field rows vs (some k) among =
      at-index keys (attribute field) k (with_keys keys (attribute field) vs rows) []
      ∙ ap (last_or none) (with_key-with_keys keys (attribute field) k vs rows (among k refl))

  set_each-named :
      (field : String) (rows : List E) (vs : List K) (to_attr : Option String) (is : List I)
      → Asked is vs
      → set_each
          (λ i. write to_attr (
            find
              (raw_key i)
              (index keys (attribute field) (with_keys keys (attribute field) vs rows) [])))
          is
        ≡ set_each (λ i. write to_attr (named_object field rows (raw_key i))) is
  set_each-named field rows vs to_attr [] asked = refl
  set_each-named field rows vs to_attr (i ∷ is) (here, asked) =
      rw (find_object-named field rows vs (raw_key i) here)
        (rw (set_each-named field rows vs to_attr is asked))

  -- What is set on the instances with these keys
  abbrev pub set_objects :
      String → List E → Option String → List I → List K → List (I × Written (Option E))
  set_objects field rows to_attr is [] = set_each (λ i. record { value = none; extra = none }) is
  set_objects field rows to_attr is (k ∷ ks) =
      set_each (λ i. write to_attr (named_object field rows (raw_key i))) is

  fetch_all :
      (cls field : String) (rows : List E) (to_attr : Option String) (is : List I) (ks : List K)
      (w : Wanted K)
      → ((vs : List K)
          → query (condition vs field ∷ []) ≡ ok (with_keys keys (attribute field) vs rows))
      → ((k : K) → member keys k (keys_of is) ≡ true → member keys k ks ≡ true)
      → w ≡ elim ks [
        | [] ↦ nothing_wanted keys raw_key class_of to_field attribute class_of_object query
        | k ∷ ks ↦ wanted cls field (add_keys (k ∷ []) ks)
      ]
      → fetch_wanted keys raw_key class_of to_field attribute class_of_object query w to_attr is
        ≡ ok (set_objects field rows to_attr is ks)
  unfolding fetch_wanted object_map
  fetch_all cls field rows to_attr is [] w finds among e = rw e
  fetch_all cls field rows to_attr is (k ∷ ks) w finds among e =
      let vs = add_keys (k ∷ []) ks in
      let asked : Asked is vs =
        Asked-keys_of is vs (λ j m. ground (arith, among j m, member-add_keys j (k ∷ []) ks)) in
      rw e (rw (finds vs) (ap ok (set_each-named field rows vs to_attr is asked)))

  -- Where the instances are of one class, and the query answers with the rows whose key is one of
  -- those asked for, prefetching a direct relation succeeds. If no instance has a key, the relation
  -- of each is set to none, and nothing is set under `to_attr`. Otherwise each instance gets the
  -- last row with its key, if any, or none where it has no key; it is set under `to_attr` too.
  pub prefetch_direct-rows :
      (cls field : String) (rows : List E) (to_attr : Option String) (is : List I)
      → AreAlike cls field is
      → ((vs : List K)
          → query (condition vs field ∷ []) ≡ ok (with_keys keys (attribute field) vs rows))
      → prefetch_direct keys raw_key class_of to_field attribute class_of_object query to_attr is
        ≡ ok (set_objects field rows to_attr is (keys_of is))
  unfolding prefetch_direct
  prefetch_direct-rows cls field rows to_attr is alike finds =
      fetch_all cls field rows to_attr is (keys_of is) _ finds (λ k h. h)
        (collect_all cls field is alike)
