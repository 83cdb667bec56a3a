-- ===== src/Transactions.antt =====
-- The transaction contexts of tortoise/backends/base/client.py, over the `TransactionWrapper` of
-- tortoise/backends/sqlite/client.py.
-- The database driver is no part of the repository: `driver` says whether a call fails, from the
-- calls before it. The calls are recorded in order, so that a transaction is what was called.
pub mod Monad
pub mod Exit
pub mod Bracket
pub mod Nested
mod Tests
use tortoise_orm_zh_cn.Base.{
  ℕ, Bool, true, false, String, List, [], ◌∷◌, ◌++◌, Option, none, some, if◌then◌else◌,
}
use tortoise_orm_zh_cn.Base.Errors.{Error, operational_error, transaction_management_error}
use tortoise_orm_zh_cn.Connections.{Connection, Handler, set_connection, reset}
use tortoise_orm_zh_cn.Transactions.Monad.{
  Outcome, done, raised, waits, World, Call, create_call, begin_call, commit_call, rollback_call,
  acquire_call, release_call, Exec, pure, raise, ◌>>=◌, ◌>>◌, modify, when, get_world,
}

-- `exc_type is not TransactionManagementError`
abbrev pub is_tme : Error → Bool
is_tme transaction_management_error = true
is_tme _ = false

-- `except sqlite3.OperationalError as exc: raise TransactionManagementError(exc)`
abbrev pub start_error : Error → Error
start_error operational_error = transaction_management_error
start_error e = e

abbrev pub set_finalized : Exec (Unit {0})
set_finalized = modify (λ w. record w { finalized = true })

-- `connections.set(name, connection)`; the result is the token.
abbrev pub set_current : String → Connection → Exec ℕ
set_current name conn w =
    let (token, h) = set_connection name conn w.handler in (done token, record w { handler = h })

-- `connections.reset(token)`
abbrev pub reset_current : ℕ → Exec (Unit {0})
reset_current token = modify (λ w. record w { handler = reset token w.handler })

-- `lock.acquire()`: a lock that is held makes the task wait.
abbrev pub acquire_lock : Exec (Unit {0})
acquire_lock w = if w.locked then (waits, w) else (done tt, record w { locked = true })

abbrev pub release_lock : Exec (Unit {0})
release_lock = modify (λ w. record w { locked = false })

-- What `async with` makes of how its body ended: `__aexit__` runs, and then the exception goes on.
abbrev pub leave {ℓ} :
    {A : Type ℓ} → (Option Error → Exec (Unit {0})) → Outcome A × World → Outcome A × World
leave close (done a, w) = (close none >>= λ _. pure a) w
leave close (raised e, w) = (close (some e) >>= λ _. raise e) w
leave close (waits, w) = (waits, w)

module _ (driver : List Call → Call → Option Error) where
  abbrev answer : (Error → Error) → Option Error → Outcome (Unit {0})
  answer f none = done tt
  answer f (some e) = raised (f e)

  -- A call of the driver, whose error is passed on as `f` makes it.
  abbrev pub call_as : (Error → Error) → Call → Exec (Unit {0})
  call_as f c w = (answer f (driver w.calls c), record w { calls = w.calls ++ c ∷ [] })

  abbrev pub call : Call → Exec (Unit {0})
  call = call_as (λ e. e)

  -- `TransactionWrapper.start`
  unfoldable pub start : Exec (Unit {0})
  start = call_as start_error commit_call >> call_as start_error begin_call

  -- `TransactionWrapper.rollback`
  unfoldable pub rollback : Exec (Unit {0})
  rollback w =
      if w.finalized
      then (raised transaction_management_error, w)
      else (call rollback_call >> set_finalized) w

  -- `TransactionWrapper.commit`
  unfoldable pub commit : Exec (Unit {0})
  commit w =
      if w.finalized
      then (raised transaction_management_error, w)
      else (call commit_call >> set_finalized) w

  -- `ensure_connection`: a connection, or a pool, is made if there is none.
  abbrev pub ensure_connection : Exec (Unit {0})
  ensure_connection w =
      if w.connected
      then (done tt, w)
      else (call create_call >> modify (λ v. record v { connected = true })) w

  -- The rollback of every context, for an exception
  abbrev pub rollback_on : Error → Exec (Unit {0})
  rollback_on e w = if is_tme e then (done tt, w) else rollback w

  -- `if not self.connection._finalized: …`, with the commit of the outer contexts
  unfoldable pub finish : Option Error → Exec (Unit {0})
  finish exc w =
      if w.finalized then (done tt, w) else elim exc [ none ↦ commit w | some e ↦ rollback_on e w ]

  -- The same in the nested contexts, which never commit
  unfoldable pub finish_nested : Option Error → Exec (Unit {0})
  finish_nested exc w =
      if w.finalized
      then (done tt, w)
      else elim exc [ none ↦ (done tt, w) | some e ↦ rollback_on e w ]

  -- `TransactionContext.__aenter__`; the result is the token.
  unfoldable pub enter : String → Connection → Exec ℕ
  enter name conn = do
    ensure_connection
    acquire_lock
    token ← set_current name conn
    start
    pure token

  -- `TransactionContext.__aexit__`
  unfoldable pub exit : ℕ → Option Error → Exec (Unit {0})
  exit token exc = do finish exc; reset_current token; release_lock

  -- `TransactionContextPooled.__aenter__`
  unfoldable pub enter_pooled : String → Connection → Exec ℕ
  enter_pooled name conn = do
    ensure_connection
    token ← set_current name conn
    call acquire_call
    start
    pure token

  -- `TransactionContextPooled.__aexit__`
  unfoldable pub exit_pooled : ℕ → Option Error → Exec (Unit {0})
  exit_pooled token exc = do
    finish exc
    w ← get_world
    when w.connected (call release_call)
    reset_current token

  -- `NestedTransactionPooledContext.__aenter__` and `__aexit__`
  unfoldable pub enter_nested_pooled : Exec (Unit {0})
  enter_nested_pooled = acquire_lock

  unfoldable pub exit_nested_pooled : Option Error → Exec (Unit {0})
  exit_nested_pooled exc = do release_lock; finish_nested exc

  -- `async with in_transaction(): body`, on a new `TransactionWrapper`
  unfoldable pub in_transaction : {A : Type 0} → String → Connection → Exec A → Exec A
  in_transaction name conn body = do
    modify (λ w. record w { finalized = false })
    token ← enter name conn
    λ w. leave (exit token) (body w)

  -- The same inside a transaction: `NestedTransactionContext`, which has nothing to do at the start
  unfoldable pub in_nested : {A : Type 0} → Exec A → Exec A
  in_nested body w = leave finish_nested (body w)
