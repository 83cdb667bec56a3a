-- ===== src/Executor/Insert/Complete.antt =====
-- A bulk insert goes through where the objects can be converted and the database takes them.
use tortoise_orm_zh_cn.Base.{
  ℕ, ◌≡◌, refl, ap, Bool, true, false, List, [], ◌∷◌, ◌++◌, Option, All, arith, String, Bool-cases,
  inl, inr,
}
use tortoise_orm_zh_cn.Base.Errors.{Result, ok, err}
use tortoise_orm_zh_cn.Executor.Insert.{
  Column, Send, row_of, values_lists, send_rows, and_then, send_chunk, send_chunks, chunk,
  execute_bulk_insert,
}
use tortoise_orm_zh_cn.Executor.Insert.Chunks.{concat, chunk-concat}
use tortoise_orm_zh_cn.Executor.Insert.Rows.{those, rows_of, sent_rows}
use tortoise_orm_zh_cn.Executor.Insert.Bulk.{execute_bulk_insert-rows}

module _ {I W : Type 0} (columns : List Column) (custom_generated_pk : I → Bool)
    (to_db : String → I → Result W) where
  -- Every object has its values.
  abbrev pub Convertible : List I → Type 0
  Convertible is = All (λ i. (r : List W) × (row_of columns custom_generated_pk to_db i ≡ ok r)) is

  values_lists-runs :
      (is : List I) (all others : List (List W))
      → Convertible is
      → (lists : List (List W) × List (List W)) × (values_lists columns custom_generated_pk to_db is
            all others
          ≡ ok lists)
  unfolding values_lists
  values_lists-runs [] all others given = ((all, others), refl)
  values_lists-runs (i ∷ is) all others ((r, e), given) =
      elim (Bool-cases (custom_generated_pk i)) [
        | inl custom ↦
            let (lists, ih) = values_lists-runs is (all ++ r ∷ []) others given in
            (lists, rw e (rw custom ih))
        | inr plain ↦
            let (lists, ih) = values_lists-runs is all (others ++ r ∷ []) given in
            (lists, rw e (rw plain ih))
      ]

  All-append : (xs ys : List I) → Convertible (xs ++ ys) → Convertible xs × Convertible ys
  All-append [] ys given = (tt, given)
  All-append (x ∷ xs) ys (here, given) =
      let (left, right) = All-append xs ys given in ((here, left), right)

  module _ (execute_many : Send W → Result (Unit {0}))
      (accepts : (s : Send W) → execute_many s ≡ ok tt) where
    and_then-runs :
        (r : Result (Unit {0}) × List (Send W))
        (next : List (Send W) → Result (Unit {0}) × List (Send W))
        → r.0 ≡ ok tt
        → ((sent : List (Send W)) → (next sent).0 ≡ ok tt)
        → (and_then columns custom_generated_pk to_db execute_many r next).0 ≡ ok tt
    and_then-runs (ok tt, sent) next h h' = h' sent
    and_then-runs (err e, sent) next h h' = absurd (ground arith)

    send_rows-runs :
        (k : Bool) (rs : List (List W)) (sent : List (Send W))
        → (send_rows columns custom_generated_pk to_db execute_many k rs sent).0 ≡ ok tt
    send_rows-runs k [] sent = refl
    send_rows-runs k (r ∷ rs) sent = accepts _

    send_chunk-runs :
        (is : List I) (sent : List (Send W))
        → Convertible is
        → (send_chunk columns custom_generated_pk to_db execute_many
            (values_lists columns custom_generated_pk to_db is [] [])
            sent).0
          ≡ ok tt
    send_chunk-runs is sent given =
        let ((all, others), e) = values_lists-runs is [] [] given in
        rw e (
          and_then-runs _ _ (send_rows-runs true all sent)
            (λ sent'. send_rows-runs false others sent'))

    send_chunks-runs :
        (chunks : List (List I)) (sent : List (Send W))
        → Convertible (concat chunks)
        → (send_chunks columns custom_generated_pk to_db execute_many chunks sent).0 ≡ ok tt
    unfolding send_chunks
    send_chunks-runs [] sent given = refl
    send_chunks-runs (is ∷ chunks) sent given =
        let (here, rest) = All-append is (concat chunks) given in
        and_then-runs _ _ (send_chunk-runs is sent here)
          (λ sent'. send_chunks-runs chunks sent' rest)

    execute_bulk_insert-runs :
        (batch_size : Option ℕ) (is : List I)
        → Convertible is
        → (execute_bulk_insert columns custom_generated_pk to_db execute_many batch_size is).0
          ≡ ok tt
    unfolding execute_bulk_insert
    execute_bulk_insert-runs batch_size is given =
        send_chunks-runs (chunk batch_size is) [] (rw ((chunk-concat batch_size is).0) given)

    -- Where every object has its values and the database takes every statement, a bulk insert goes
    -- through. The rows that it sends with the statement of all columns are those of the objects
    -- whose generated key was given, and the rows that it sends with the other statement are those
    -- of the other objects: each once, and in the order of the objects, whatever the batch size.
    pub execute_bulk_insert-sends_all :
        (batch_size : Option ℕ) (is : List I)
        → Convertible is
        → (sent : List (Send W)) × (execute_bulk_insert columns custom_generated_pk to_db
              execute_many batch_size is
            ≡ (ok tt, sent))
          × ((k : Bool)
              → rows_of columns custom_generated_pk to_db
                  (those columns custom_generated_pk to_db k is)
                ≡ ok (sent_rows k sent))
    execute_bulk_insert-sends_all batch_size is given =
        let whole =
          execute_bulk_insert columns custom_generated_pk to_db execute_many batch_size is in
        let runs : whole ≡ (ok tt, whole.1) =
          ap (λ r. (r, whole.1)) (execute_bulk_insert-runs batch_size is given) in
        (
          whole.1,
          runs,
          execute_bulk_insert-rows columns custom_generated_pk to_db execute_many batch_size is
              (whole.1) runs,
        )
