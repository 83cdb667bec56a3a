-- ===== src/Executor/Insert/Bulk.antt =====
-- A bulk insert sends every object once, in order, in the statement that fits it.
use tortoise_orm_zh_cn.Base.{
  ℕ, ◌≡◌, refl, ap, sym, ◌∙◌, Bool, true, false, List, [], ◌∷◌, ◌++◌, Option, if◌then◌else◌, arith,
  append-nil, append_assoc, String,
}
use tortoise_orm_zh_cn.Base.Errors.{Result, ok, err}
use tortoise_orm_zh_cn.Executor.Insert.{
  Column, Send, values_lists, send_rows, and_then, send_chunk, send_chunks, chunk,
  execute_bulk_insert,
}
use tortoise_orm_zh_cn.Executor.Insert.Chunks.{concat, chunk-concat}
use tortoise_orm_zh_cn.Executor.Insert.Rows.{
  same, sent_rows, sent_rows-append, those, rows_of, Rows, Rows-append, values_lists-Rows,
}

module _ {I W : Type 0} (columns : List Column) (custom_generated_pk : I → Bool)
    (to_db : String → I → Result W) where
  -- The rows of these objects, for this statement
  abbrev Of : Bool → List I → List (List W) → Type 0
  Of k is rs = Rows columns custom_generated_pk to_db k is rs

  module _ (execute_many : Send W → Result (Unit {0})) where
    -- The rows of one list, if the database takes them.
    abbrev sends : Bool → List (List W) → List (Send W)
    sends k [] = []
    sends k (r ∷ rs) = record { all_columns = k; rows = r ∷ rs } ∷ []

    sent_rows-sends :
        (k j : Bool) (rs : List (List W)) → sent_rows j (sends k rs) ≡ (if same j k then rs else [])
    sent_rows-sends k j [] = ground arith
    sent_rows-sends k j (r ∷ rs) = grind (arith, append-nil)

    send_rows-ok :
        (k : Bool) (rs : List (List W)) (sent sent' : List (Send W))
        → send_rows columns custom_generated_pk to_db execute_many k rs sent ≡ (ok tt, sent')
        → sent' ≡ sent ++ sends k rs
    send_rows-ok k [] sent sent' h = let e : sent ≡ sent' = cc in sym (append-nil sent ∙ e)
    send_rows-ok k (r ∷ rs) sent sent' h = cc

    and_then-ok :
        (r : Result (Unit {0}) × List (Send W))
        (next : List (Send W) → Result (Unit {0}) × List (Send W)) (sent' : List (Send W))
        → and_then columns custom_generated_pk to_db execute_many r next ≡ (ok tt, sent')
        → (sent : List (Send W)) × (r ≡ (ok tt, sent)) × (next sent ≡ (ok tt, sent'))
    and_then-ok (ok tt, sent) next sent' h = (sent, refl, h)
    and_then-ok (err e, sent) next sent' h = absurd (ground arith)

    -- What a step added: for each statement, the rows of its objects.
    abbrev Adds : List I → List (Send W) → List (Send W) → Type 0
    Adds is sent sent' =
        (k : Bool)
        → (rs : List (List W)) × Of k is rs × (sent_rows k sent' ≡ sent_rows k sent ++ rs)

    both_sent :
        (k : Bool) (rs ss : List (List W)) (sent : List (Send W))
        → sent_rows k (sent ++ sends true rs ++ sends false ss)
          ≡ sent_rows k sent ++ (if k then rs else ss)
    both_sent true rs ss sent =
        simp
          (sent_rows-append true, sent_rows-sends true true, sent_rows-sends false true, append-nil)
          refl
    both_sent false rs ss sent =
        simp
          (
            sent_rows-append false,
            sent_rows-sends true false,
            sent_rows-sends false false,
            append-nil,
          )
          refl

    sends_both :
        (all others : List (List W)) (sent sent' : List (Send W))
        → send_chunk columns custom_generated_pk to_db execute_many (ok (all, others)) sent
          ≡ (ok tt, sent')
        → sent' ≡ sent ++ sends true all ++ sends false others
    sends_both all others sent sent' h =
        let (middle, first, second) =
          and_then-ok (send_rows columns custom_generated_pk to_db execute_many true all sent) _
            sent' h in
        send_rows-ok false others middle sent' second
        ∙ ap (λ q. q ++ sends false others) (send_rows-ok true all sent middle first)

    both_sent-Adds :
        (is : List I) (rs ss : List (List W)) (sent sent' : List (Send W))
        → Of true is rs
        → Of false is ss
        → sent' ≡ sent ++ sends true rs ++ sends false ss
        → Adds is sent sent'
    both_sent-Adds is rs ss sent sent' hrs hss e true =
        (rs, hrs, ap (sent_rows true) e ∙ both_sent true rs ss sent)
    both_sent-Adds is rs ss sent sent' hrs hss e false =
        (ss, hss, ap (sent_rows false) e ∙ both_sent false rs ss sent)

    send_chunk-Adds :
        (is : List I) (lists : Result (List (List W) × List (List W))) (sent sent' : List (Send W))
        → values_lists columns custom_generated_pk to_db is [] [] ≡ lists
        → send_chunk columns custom_generated_pk to_db execute_many lists sent ≡ (ok tt, sent')
        → Adds is sent sent'
    send_chunk-Adds is (err e) sent sent' given h = absurd (ground arith)
    send_chunk-Adds is (ok (all, others)) sent sent' given h =
        let (rs, ss, hrs, hss, e, e') =
          values_lists-Rows columns custom_generated_pk to_db is [] [] all others given in
        let e'' = sends_both all others sent sent' h in
        both_sent-Adds is rs ss sent sent' hrs hss (
          e''
          ∙ ap (λ q. sent ++ sends true q ++ sends false others) e
          ∙ ap (λ q. sent ++ sends true rs ++ sends false q) e')

    send_chunks-Adds :
        (chunks : List (List I)) (sent sent' : List (Send W))
        → send_chunks columns custom_generated_pk to_db execute_many chunks sent ≡ (ok tt, sent')
        → Adds (concat chunks) sent sent'
    unfolding send_chunks
    send_chunks-Adds [] sent sent' h k =
        let e : sent ≡ sent' = cc in
        ([], refl, ap (sent_rows k) (sym e) ∙ sym (append-nil (sent_rows k sent)))
    send_chunks-Adds (is ∷ chunks) sent sent' h k =
        let (middle, first, rest) =
          and_then-ok
            (send_chunk columns custom_generated_pk to_db execute_many
              (values_lists columns custom_generated_pk to_db is [] []) sent)
            _ sent' h in
        let (rs, hrs, e) = send_chunk-Adds is _ sent middle refl first k in
        let (ss, hss, e') = send_chunks-Adds chunks middle sent' rest k in
        (
          rs ++ ss,
          Rows-append columns custom_generated_pk to_db k is (concat chunks) rs ss hrs hss,
          e' ∙ ap (λ q. q ++ ss) e ∙ append_assoc (sent_rows k sent) rs ss,
        )

    -- What was sent when a bulk insert has gone through
    pub execute_bulk_insert-rows :
        (batch_size : Option ℕ) (is : List I) (sent : List (Send W))
        → execute_bulk_insert columns custom_generated_pk to_db execute_many batch_size is
          ≡ (ok tt, sent)
        → (k : Bool)
        → rows_of columns custom_generated_pk to_db (those columns custom_generated_pk to_db k is)
          ≡ ok (sent_rows k sent)
    unfolding execute_bulk_insert
    execute_bulk_insert-rows batch_size is sent h k =
        let (rs, hrs, e) = send_chunks-Adds (chunk batch_size is) [] sent h k in
        let whole : Of k is rs =
          ap
            (λ js.
              rows_of columns custom_generated_pk to_db
                (those columns custom_generated_pk to_db k js))
            (sym ((chunk-concat batch_size is).0))
          ∙ hrs in
        whole ∙ ap ok (sym e)
