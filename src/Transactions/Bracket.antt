-- ===== src/Transactions/Bracket.antt =====
-- A whole `async with in_transaction()`: what is called, and in what state it leaves the handler
-- and the lock.
use tortoise_orm_zh_cn.Base.{
  ℕ, ◌≡◌, ◌≢◌, refl, ap, ◌∙◌, true, false, String, List, [], ◌∷◌, ◌++◌, Option, none, some, arith,
}
use tortoise_orm_zh_cn.Base.Errors.{Error}
use tortoise_orm_zh_cn.Connections.{Connection, set_connection, reset}
use tortoise_orm_zh_cn.Transactions.{start, enter, exit, in_transaction, leave}
use tortoise_orm_zh_cn.Transactions.Exit.{closing, Accepts, closed, exit-accepted}
use tortoise_orm_zh_cn.Transactions.Monad.{
  Outcome, done, raised, waits, World, Call, begin_call, commit_call, Exec, pure, raise, continue,
}

-- The state in which the body of a transaction starts: the lock is held, the connection of the
-- transaction is the current one, and a transaction has begun on the driver.
abbrev pub entered : String → Connection → World → World
entered name conn w = record w {
  handler = (set_connection name conn w.handler).1;
  locked = true;
  finalized = false;
  calls = w.calls ++ commit_call ∷ [] ++ begin_call ∷ [];
}

-- The exception with which a body ended.
abbrev pub exception : {A : Type 0} → Outcome A → Option Error
exception (raised e) = some e
exception o = none

-- The state after a transaction whose body ended in `w'`.
abbrev pub after : ℕ → Option Error → World → World
after token exc w' = record (closed w' exc) { handler = reset token w'.handler; locked = false }

module _ (driver : List Call → Call → Option Error) where
  enter-entered :
      (name : String) (conn : Connection) (w : World)
      → w.locked ≡ false
      → w.connected ≡ true
      → w.finalized ≡ false
      → Accepts driver w.calls (commit_call ∷ begin_call ∷ [])
      → enter driver name conn w
        ≡ (done (set_connection name conn w.handler).0, entered name conn w)
  unfolding enter start
  enter-entered name conn w free here new a = ground arith

  leave-after :
      {A : Type 0} (token : ℕ) (o : Outcome A) (w' : World)
      → o ≢ waits
      → Accepts driver w'.calls (closing w'.finalized (exception o))
      → leave (exit driver token) (o, w') ≡ (o, after token (exception o) w')
  leave-after token (done x) w' n a =
      ap (λ r. continue r (λ _. pure x)) (exit-accepted driver token none w' a)
  leave-after token (raised e) w' n a =
      ap (λ r. continue r (λ _. raise e)) (exit-accepted driver token (some e) w' a)
  leave-after token waits w' n a = absurd (n refl)

  -- A transaction that starts on a free lock and a live connection runs its body between "commit,
  -- begin" and the closing call that fits the body's end, passes the body's result or exception on,
  -- and leaves the lock free and the context with its connections, provided that the driver accepts
  -- these calls and the body does not stay waiting.
  pub in_transaction-after :
      {A : Type 0} (name : String) (conn : Connection) (body : Exec A) (w : World) (o : Outcome A)
      (w' : World)
      → w.locked ≡ false
      → w.connected ≡ true
      → Accepts driver w.calls (commit_call ∷ begin_call ∷ [])
      → body (entered name conn w) ≡ (o, w')
      → o ≢ waits
      → Accepts driver w'.calls (closing w'.finalized (exception o))
      → in_transaction driver name conn body w
        ≡ (o, after (set_connection name conn w.handler).0 (exception o) w')
  unfolding in_transaction
  in_transaction-after name conn body w o w' free here started run n a =
      ap (λ r. continue r (λ token v. leave (exit driver token) (body v)))
        (enter-entered name conn (record w { finalized = false }) free here refl started)
      ∙ ap (leave (exit driver (set_connection name conn w.handler).0)) run
      ∙ leave-after (set_connection name conn w.handler).0 o w' n a

  -- A task that finds the lock held waits, if the connection is there: the context, the lock
  -- and the calls are as they were, and nothing of the body runs.
  in_transaction-waits :
      {A : Type 0} (name : String) (conn : Connection) (body : Exec A) (w : World)
      → w.locked ≡ true
      → w.connected ≡ true
      → in_transaction driver name conn body w ≡ (waits, record w { finalized = false })
  unfolding in_transaction enter
  in_transaction-waits name conn body w held here = ground arith
