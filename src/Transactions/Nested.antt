-- ===== src/Transactions/Nested.antt =====
-- A transaction inside a transaction: it never commits, and its rollback ends both.
use tortoise_orm_zh_cn.Base.{
  ◌≡◌, ap, ◌∙◌, true, false, String, List, [], ◌∷◌, ◌++◌, Option, none, some, arith, append-nil,
}
use tortoise_orm_zh_cn.Base.Errors.{Error}
use tortoise_orm_zh_cn.Connections.{Connection, set_connection, reset}
use tortoise_orm_zh_cn.Transactions.{
  is_tme, rollback, finish_nested, leave, in_nested, in_transaction,
}
use tortoise_orm_zh_cn.Transactions.Exit.{Accepts}
use tortoise_orm_zh_cn.Transactions.Bracket.{entered, in_transaction-after}
use tortoise_orm_zh_cn.Transactions.Monad.{
  done, raised, World, Call, begin_call, commit_call, rollback_call, Exec, continue, raise,
}

module _ (driver : List Call → Call → Option Error) where
  finish_nested-rollback :
      (e : Error) (w : World)
      → w.finalized ≡ false
      → is_tme e ≡ false
      → driver w.calls rollback_call ≡ none
      → finish_nested driver (some e) w
        ≡ (done tt, record w { finalized = true; calls = w.calls ++ rollback_call ∷ [] })
  unfolding finish_nested rollback
  finish_nested-rollback e w open_ fails a = ground arith

  -- A nested transaction that fails is rolled back, and its exception goes on.
  pub in_nested-raised :
      {A : Type 0} (body : Exec A) (w : World) (e : Error) (w' : World)
      → body w ≡ (raised e, w')
      → w'.finalized ≡ false
      → is_tme e ≡ false
      → driver w'.calls rollback_call ≡ none
      → in_nested driver body w
        ≡ (raised e, record w' { finalized = true; calls = w'.calls ++ rollback_call ∷ [] })
  unfolding in_nested
  in_nested-raised body w e w' run unfinished fails a =
      ap (leave (finish_nested driver)) run
      ∙ ap (λ r. continue r (λ _. raise e)) (finish_nested-rollback e w' unfinished fails a)

  -- Take a transaction that can start: its lock is free, its connection is live, and the driver accepts
  -- the calls that start it. If its body is a nested transaction whose own body raises an exception
  -- that is no TransactionManagementError and has not finished the transaction itself, and the driver
  -- accepts the rollback, the exception leaves both, leaving them sends one rollback for both and no
  -- commit, and the lock and the connections are given back.
  pub nested_failure :
      {A : Type 0} (name : String) (conn : Connection) (body : Exec A) (w : World) (e : Error)
      (w' : World)
      → w.locked ≡ false
      → w.connected ≡ true
      → Accepts driver w.calls (commit_call ∷ begin_call ∷ [])
      → body (entered name conn w) ≡ (raised e, w')
      → w'.finalized ≡ false
      → is_tme e ≡ false
      → driver w'.calls rollback_call ≡ none
      → in_transaction driver name conn (in_nested driver body) w ≡ (
        raised e,
        record w' {
          handler = reset (set_connection name conn w.handler).0 w'.handler;
          locked = false;
          finalized = true;
          calls = w'.calls ++ rollback_call ∷ [];
        },
      )
  nested_failure name conn body w e w' free here started run unfinished fails a =
      in_transaction-after driver name conn (in_nested driver body) w (raised e)
        (record w' { finalized = true; calls = w'.calls ++ rollback_call ∷ [] }) free here started
        (in_nested-raised body (entered name conn w) e w' run unfinished fails a) (λ p. cc) tt
      ∙ rw append-nil
