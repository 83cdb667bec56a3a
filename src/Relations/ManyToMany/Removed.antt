-- ===== src/Relations/ManyToMany/Removed.antt =====
-- What `remove` and `clear` do to the relation.
use tortoise_orm_zh_cn.Base.{
  ◌≡◌, refl, ap, sym, true, false, not, ◌&&◌, List, [], ◌∷◌, arith, inl, inr, Bool-cases,
}
use tortoise_orm_zh_cn.Base.Keys.{Keys, member}
use tortoise_orm_zh_cn.Base.Errors.{Result, ok, err, ◌>>=◌, Result-cases, operational_error}
use tortoise_orm_zh_cn.Relations.ManyToMany.{
  Through, Instance, pks_to_add, pks_of, forward_condition, add, clear, remove, remove_or_clear,
}
use tortoise_orm_zh_cn.Relations.ManyToMany.Added.{matches-forward_condition, add-relation}

module _ {K R T P Q : Type 0} {keys : Keys K} (through : Through keys R T)
    (pk_format : P → Result K) (related_pk_format : Q → Result K) where
  -- Removing objects succeeds, and takes those objects, and no others, from the relation of the
  -- one object, where there are any; with no objects it is refused. Clearing takes all of them.
  remove-relation :
      (self : Instance P) (i : Instance Q) (is : List (Instance Q)) (b : K) (ks : List K) (t : T)
      → pk_format self.pk ≡ ok b
      → pks_of through pk_format related_pk_format (i ∷ is) ≡ ok ks
      → ((t' : T) × (remove through pk_format related_pk_format self (i ∷ is) t ≡ ok t')
          × ((b' f : K)
              → through.holds t' b' f
                ≡ (through.holds t b' f && not (keys.same b' b && member keys f ks))))
        × ((t' : T) × (clear through pk_format related_pk_format self t ≡ ok t')
            × ((b' f : K) → through.holds t' b' f ≡ (through.holds t b' f && not (keys.same b' b))))
        × (remove through pk_format related_pk_format self [] t ≡ err operational_error)
  unfolding remove clear remove_or_clear pks_of
  remove-relation self i is b ks t hb hks =
      let c = forward_condition through pk_format related_pk_format ks in
      let (t', deleted, some_left) = through.delete_some_lem b c t in
      let (u, cleared, left) = through.delete_lem b t in
      (
        (
          t',
          rw hb (rw hks deleted),
          λ b' f.
              rw (sym (matches-forward_condition through pk_format related_pk_format ks f))
                (some_left b' f),
        ),
        (u, rw hb cleared, left),
        refl,
      )

  -- The keys of objects that are saved do not depend on the test.
  pks_to_add-pks_of :
      (is : List (Instance Q)) (ks : List K)
      → pks_to_add through pk_format related_pk_format is ≡ ok ks
      → pks_of through pk_format related_pk_format is ≡ ok ks
  unfolding pks_to_add pks_of
  pks_to_add-pks_of [] ks h = h
  pks_to_add-pks_of (i ∷ is) ks h =
      elim (Result-cases (pks_to_add through pk_format related_pk_format is)) [
        | inl (fs, e) ↦ ground (arith, pks_to_add-pks_of is fs e)
        | inr (e, bad) ↦ absurd (ground arith)
      ]

  -- Adding saved objects that were not related before, and removing them again, gives a relation
  -- with the same rows.
  remove-add :
      (self : Instance P) (i : Instance Q) (is : List (Instance Q)) (b : K) (ks : List K) (t : T)
      → self.saved_in_db ≡ true
      → pk_format self.pk ≡ ok b
      → pks_to_add through pk_format related_pk_format (i ∷ is) ≡ ok ks
      → ((f : K) → member keys f ks ≡ true → through.holds t b f ≡ false)
      → (t' : T) × ((add through pk_format related_pk_format self (i ∷ is) t
            >>= remove through pk_format related_pk_format self (i ∷ is))
          ≡ ok t')
        × ((b' f : K) → through.holds t' b' f ≡ through.holds t b' f)
  remove-add self i is b ks t saved hb hks absent =
      let (t', added, with_them) =
        add-relation through pk_format related_pk_format self (i ∷ is) b ks t saved hb hks in
      let ((t'', removed, without), cleared, refused) =
        remove-relation self i is b ks t' hb (pks_to_add-pks_of (i ∷ is) ks hks) in
      (
        t'',
        rw added removed,
        λ b' f. elim (Bool-cases (keys.same b' b)) [
          | inl e ↦
              let at_b = ap (λ q. through.holds t q f) ((keys.same_iff b' b).0 e) in
              elim (Bool-cases (member keys f ks)) [
                | inl m ↦ ground (arith, without b' f, at_b, absent f m)
                | inr m ↦ ground (arith, without b' f, with_them b' f)
              ]
          | inr e ↦ ground (arith, without b' f, with_them b' f)
        ],
      )
