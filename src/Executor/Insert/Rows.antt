-- ===== src/Executor/Insert/Rows.antt =====
-- The rows that the two lists of a chunk hold.
use tortoise_orm_zh_cn.Base.{
  ◌≡◌, refl, ap, sym, ◌∙◌, Bool, true, false, not, List, [], ◌∷◌, ◌++◌, if◌then◌else◌, arith,
  append-nil, append_assoc, String, Bool-cases, inl, inr,
}
use tortoise_orm_zh_cn.Base.Errors.{Result, ok, ◌>>=◌, >>=-eq-ok}
use tortoise_orm_zh_cn.Executor.Insert.{Column, Send, row_of, values_lists}

abbrev pub same : Bool → Bool → Bool
same true b = b
same false true = false
same false false = true

-- The rows that were sent with one of the two statements, in the order of sending
abbrev pub sent_rows : {W : Type 0} → Bool → List (Send W) → List (List W)
sent_rows k [] = []
sent_rows k (s ∷ sent) =
    let more = sent_rows k sent in if same k s.all_columns then s.rows ++ more else more

pub sent_rows-append :
    {W : Type 0} (k : Bool) (xs ys : List (Send W))
    → sent_rows k (xs ++ ys) ≡ sent_rows k xs ++ sent_rows k ys
sent_rows-append k [] ys = refl
sent_rows-append k (s ∷ xs) ys = rw (sent_rows-append k xs ys) (grind (arith, append_assoc))

module _ {I W : Type 0} (columns : List Column) (custom_generated_pk : I → Bool)
    (to_db : String → I → Result W) where
  -- The objects whose generated key was given, or the others
  abbrev pub those : Bool → List I → List I
  those k [] = []
  those k (i ∷ is) =
      let more = those k is in if same k (custom_generated_pk i) then i ∷ more else more

  abbrev pub rows_of : List I → Result (List (List W))
  rows_of [] = ok []
  rows_of (i ∷ is) = do r ← row_of columns custom_generated_pk to_db i; rs ← rows_of is; ok (r ∷ rs)

  -- These rows are those of these objects.
  abbrev pub Rows : Bool → List I → List (List W) → Type 0
  Rows k is rs = rows_of (those k is) ≡ ok rs

  rows_of-append :
      (xs ys : List I) (rs ss : List (List W))
      → rows_of xs ≡ ok rs
      → rows_of ys ≡ ok ss
      → rows_of (xs ++ ys) ≡ ok (rs ++ ss)
  rows_of-append [] ys rs ss h k = ground arith
  rows_of-append (x ∷ xs) ys rs ss h k =
      let (r, hr, h1) = >>=-eq-ok (row_of columns custom_generated_pk to_db x) _ h in
      let (rest, hs, h2) = >>=-eq-ok (rows_of xs) _ h1 in
      let e : r ∷ rest ≡ rs = cc in
      rw hr (rw (rows_of-append xs ys rest ss hs k) (ap (λ q. ok (q ++ ss)) e))

  those-append : (k : Bool) (xs ys : List I) → those k (xs ++ ys) ≡ those k xs ++ those k ys
  those-append k [] ys = refl
  those-append k (x ∷ xs) ys = rw (those-append k xs ys) (ground arith)

  Rows-cons :
      (k : Bool) (i : I) (is : List I) (r : List W) (rs : List (List W))
      → custom_generated_pk i ≡ k
      → row_of columns custom_generated_pk to_db i ≡ ok r
      → Rows k is rs
      → Rows k (i ∷ is) (r ∷ rs)
  Rows-cons true i is r rs custom h hs = rw (custom) (rw h (rw hs))
  Rows-cons false i is r rs custom h hs = rw (custom) (rw h (rw hs))

  -- An object of the one kind does not count for the other.
  Rows-skip :
      (k : Bool) (i : I) (is : List I) (rs : List (List W))
      → custom_generated_pk i ≡ k
      → Rows (not k) is rs
      → Rows (not k) (i ∷ is) rs
  Rows-skip true i is rs custom h = rw custom h
  Rows-skip false i is rs custom h = rw custom h

  pub Rows-append :
      (k : Bool) (xs ys : List I) (rs ss : List (List W))
      → Rows k xs rs
      → Rows k ys ss
      → Rows k (xs ++ ys) (rs ++ ss)
  Rows-append k xs ys rs ss h h' =
      rw (those-append k xs ys) (rows_of-append (those k xs) (those k ys) rs ss h h')

  pub values_lists-Rows :
      (is : List I) (all others all' others' : List (List W))
      → values_lists columns custom_generated_pk to_db is all others ≡ ok (all', others')
      → (rs : List (List W)) × (ss : List (List W)) × Rows true is rs
        × Rows false is ss
        × (all' ≡ all ++ rs)
        × (others' ≡ others ++ ss)
  unfolding values_lists
  values_lists-Rows [] all others all' others' h =
      let e : all ≡ all' = cc in
      let e' : others ≡ others' = cc in
      ([], [], refl, refl, sym (append-nil all ∙ e), sym (append-nil others ∙ e'))
  values_lists-Rows (i ∷ is) all others all' others' h =
      let (r, hr, h1) = >>=-eq-ok (row_of columns custom_generated_pk to_db i) _ h in
      elim (Bool-cases (custom_generated_pk i)) [
        | inl custom ↦
            let h2 : values_lists columns custom_generated_pk to_db is (all ++ r ∷ []) others
                ≡ ok (all', others') =
              ground arith in
            let (rs, ss, hrs, hss, e, e') =
              values_lists-Rows is (all ++ r ∷ []) others all' others' h2 in
            (
              r ∷ rs,
              ss,
              Rows-cons true i is r rs custom hr hrs,
              Rows-skip true i is ss custom hss,
              e ∙ append_assoc all (r ∷ []) rs,
              e',
            )
        | inr plain ↦
            let h2 : values_lists columns custom_generated_pk to_db is all (others ++ r ∷ [])
                ≡ ok (all', others') =
              ground arith in
            let (rs, ss, hrs, hss, e, e') =
              values_lists-Rows is all (others ++ r ∷ []) all' others' h2 in
            (
              rs,
              r ∷ ss,
              Rows-skip false i is rs plain hrs,
              Rows-cons false i is r ss plain hr hss,
              e,
              e' ∙ append_assoc others (r ∷ []) ss,
            )
      ]
