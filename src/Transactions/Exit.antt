-- ===== src/Transactions/Exit.antt =====
-- How a transaction ends, on every path through `__aexit__`.
use tortoise_orm_zh_cn.Base.{
  ℕ, ◌≡◌, ap, Bool, true, false, List, [], ◌∷◌, ◌++◌, Option, none, some, arith, append-nil,
  if◌then◌else◌, ◌||◌,
}
use tortoise_orm_zh_cn.Base.Errors.{Error}
use tortoise_orm_zh_cn.Connections.{reset}
use tortoise_orm_zh_cn.Transactions.{
  is_tme, finish, rollback, commit, exit, reset_current, release_lock,
}
use tortoise_orm_zh_cn.Transactions.Monad.{
  done, raised, World, Call, commit_call, rollback_call, continue, ◌>>◌,
}

-- The call that ends a transaction: none if it has been ended by hand, or if it failed already;
-- a rollback for any other exception, and else a commit.
abbrev pub closing : Bool → Option Error → List Call
closing true exc = []
closing false none = commit_call ∷ []
closing false (some e) = if is_tme e then [] else rollback_call ∷ []

-- The driver accepts the calls of a list, made one after another.
abbrev pub Accepts : (List Call → Call → Option Error) → List Call → List Call → Type 0
Accepts driver before [] = Unit
Accepts driver before (c ∷ cs) = (driver before c ≡ none) × Accepts driver (before ++ c ∷ []) cs

abbrev pub non_empty : List Call → Bool
non_empty [] = false
non_empty (c ∷ cs) = true

-- The state after the closing call.
abbrev pub closed : World → Option Error → World
closed w exc = record w {
  finalized = w.finalized || non_empty (closing w.finalized exc);
  calls = w.calls ++ closing w.finalized exc;
}

module _ (driver : List Call → Call → Option Error) where
  finish-accepted :
      (w : World) (exc : Option Error)
      → Accepts driver w.calls (closing w.finalized exc)
      → finish driver exc w ≡ (done tt, closed w exc)
  unfolding finish rollback commit
  finish-accepted w none a = ground (arith, append-nil w.calls)
  finish-accepted w (some e) a = ground (arith, append-nil w.calls)

  finish-refused :
      (w : World) (exc : Option Error) (c : Call) (e : Error)
      → closing w.finalized exc ≡ c ∷ []
      → driver w.calls c ≡ some e
      → finish driver exc w ≡ (raised e, record w { calls = w.calls ++ c ∷ [] })
  unfolding finish rollback commit
  finish-refused w none c e h r = ground arith
  finish-refused w (some x) c e h r = ground arith

  -- If the driver accepts the closing call, `__aexit__` makes that call and no other, gives the
  -- context its connections back and releases the lock.
  pub exit-accepted :
      (token : ℕ) (exc : Option Error) (w : World)
      → Accepts driver w.calls (closing w.finalized exc)
      → exit driver token exc w
        ≡ (done tt, record (closed w exc) { handler = reset token w.handler; locked = false })
  unfolding exit
  exit-accepted token exc w a =
      ap (λ r. continue r (λ _. reset_current token >> release_lock)) (finish-accepted w exc a)

  -- If the driver refuses the closing call, its error goes out of `__aexit__`, and neither the lock
  -- nor the connections of the context are given back.
  pub exit-refused :
      (token : ℕ) (exc : Option Error) (w : World) (c : Call) (e : Error)
      → closing w.finalized exc ≡ c ∷ []
      → driver w.calls c ≡ some e
      → exit driver token exc w ≡ (raised e, record w { calls = w.calls ++ c ∷ [] })
  unfolding exit
  exit-refused token exc w c e h r =
      ap (λ o. continue o (λ _. reset_current token >> release_lock)) (finish-refused w exc c e h r)
