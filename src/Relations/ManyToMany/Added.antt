-- ===== src/Relations/ManyToMany/Added.antt =====
-- What `add` does to the relation.
use tortoise_orm_zh_cn.Base.{
  ◌≡◌, refl, ap, sym, true, false, not, ◌&&◌, ◌||◌, List, [], ◌∷◌, map, All, arith, Bool-cases, inl,
  inr,
}
use tortoise_orm_zh_cn.Base.Keys.{Keys, member, member-same}
use tortoise_orm_zh_cn.Base.Errors.{Result, ok, ◌>>=◌}
use tortoise_orm_zh_cn.Relations.ManyToMany.{
  matches, AreDistinct, difference, Through, Instance, pks_to_add, forward_condition,
  insert_missing, add,
}

module _ {K : Type 0} (keys : Keys K) where
  member-difference :
      (f : K) (ks others : List K)
      → member keys f (difference keys ks others) ≡ (member keys f ks && not (member keys f others))
  member-difference f [] others = refl
  member-difference f (k ∷ ks) others = elim (Bool-cases (keys.same f k)) [
    | inl e ↦ ground (
      arith,
      member-difference f ks others,
      member-same keys f k ks e,
      member-same keys f k others e,
    )
    | inr e ↦ ground (arith, member-difference f ks others)
  ]

  difference-AreDistinct : (ks others : List K) → AreDistinct keys (difference keys ks others)
  difference-AreDistinct [] others = tt
  difference-AreDistinct (k ∷ ks) others =
      ground (arith, difference-AreDistinct ks others, member-difference k ks others)

  All-member : (P : K → Type 0) (ks : List K) → ((k : K) → member keys k ks ≡ true → P k) → All P ks
  All-member P [] given = tt
  All-member P (k ∷ ks) given = (
    given k (ground (arith, (keys.same_iff k k).1 refl)),
    All-member P ks (λ j here. given j (ground arith)),
  )

module _ {K R T P Q : Type 0} {keys : Keys K} (through : Through keys R T)
    (pk_format : P → Result K) (related_pk_format : Q → Result K) where
  pub matches-forward_condition :
      (ks : List K) (f : K)
      → matches keys (forward_condition through pk_format related_pk_format ks) f ≡ member keys f ks
  matches-forward_condition [] f = refl
  matches-forward_condition (k ∷ []) f = ground arith
  matches-forward_condition (k ∷ j ∷ ks) f = refl

  -- What `add` changes
  abbrev Adds : T → T → K → List K → Type 0
  Adds t t' b fs =
      (b' f : K)
      → through.holds t' b' f ≡ (through.holds t b' f || keys.same b' b && member keys f fs)

  insert_missing-Adds :
      (b : K) (fs : List K) (t : T)
      → AreDistinct keys fs
      → All (λ f. through.holds t b f ≡ false) fs
      → (t' : T) × (insert_missing through pk_format related_pk_format b fs t ≡ ok t')
        × Adds t t' b fs
  unfolding insert_missing
  insert_missing-Adds b [] t distinct new = (t, refl, λ b' f. ground arith)
  insert_missing-Adds b (g ∷ fs) t distinct new = through.insert_lem b (g ∷ fs) t distinct new

  -- The database found those of the keys that the relation holds.
  abbrev Finds : T → K → List K → List K → Type 0
  Finds t b ks existing =
      (f : K) → member keys f existing ≡ (through.holds t b f && member keys f ks)

  missing_new :
      (t : T) (b : K) (ks existing : List K)
      → Finds t b ks existing
      → All (λ f. through.holds t b f ≡ false) (difference keys ks existing)
  missing_new t b ks existing found =
      All-member keys _ (difference keys ks existing)
        (λ f here. ground (arith, found f, member-difference keys f ks existing))

  add_missing-Adds :
      (t t' : T) (b : K) (ks existing : List K)
      → Finds t b ks existing
      → Adds t t' b (difference keys ks existing)
      → Adds t t' b ks
  add_missing-Adds t t' b ks existing found added b' f = elim (Bool-cases (keys.same b' b)) [
    | inl e ↦
        let at_b = ap (λ q. through.holds t q f) ((keys.same_iff b' b).0 e) in
        ground (arith, at_b, added b' f, found f, member-difference keys f ks existing)
    | inr e ↦ ground (arith, added b' f)
  ]

  add_keys :
      (b : K) (ks : List K) (t : T)
      → (t' : T) × ((do
        existing ← through.select b (forward_condition through pk_format related_pk_format ks) t
        insert_missing through pk_format related_pk_format b
            (difference keys ks (map through.format existing))
            t)
          ≡ ok t')
        × Adds t t' b ks
  add_keys b ks t =
      let (existing, selected, here) =
        through.select_lem b (forward_condition through pk_format related_pk_format ks) t in
      let found : Finds t b ks (map through.format existing) =
        λ f. rw (sym (matches-forward_condition ks f)) (here f) in
      let (t', inserted, added) =
        insert_missing-Adds b (difference keys ks (map through.format existing)) t
          (difference-AreDistinct keys ks (map through.format existing))
          (missing_new t b ks (map through.format existing) found) in
      (
        t',
        rw selected inserted,
        add_missing-Adds t t' b ks (map through.format existing) found added,
      )

  -- Adding saved objects to the relation of a saved object succeeds. The relation then holds what it
  -- held and those objects, whichever of them it held before or are given twice, and that of every
  -- other object stays as it is.
  pub add-relation :
      (self : Instance P) (is : List (Instance Q)) (b : K) (ks : List K) (t : T)
      → self.saved_in_db ≡ true
      → pk_format self.pk ≡ ok b
      → pks_to_add through pk_format related_pk_format is ≡ ok ks
      → (t' : T) × (add through pk_format related_pk_format self is t ≡ ok t')
        × ((b' f : K)
            → through.holds t' b' f ≡ (through.holds t b' f || keys.same b' b && member keys f ks))
  unfolding add pks_to_add
  add-relation self [] b ks t saved hb hks =
      let e : [] ≡ ks = cc in (t, refl, λ b' f. rw (sym e) (ground arith))
  add-relation self (i ∷ is) b ks t saved hb hks =
      let (t', e, added) = add_keys b ks t in (t', rw saved (rw hb (rw hks e)), added)
