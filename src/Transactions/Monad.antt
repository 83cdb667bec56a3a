-- ===== src/Transactions/Monad.antt =====
-- Actions of a task on the shared state, which return, raise or wait for a lock. What was done
-- before an error stays done.
use tortoise_orm_zh_cn.Base.{Bool, true, false, List}
use tortoise_orm_zh_cn.Base.Errors.{Error}
use tortoise_orm_zh_cn.Connections.{Handler}

-- The driver's calls.
pub data Call : Type 0 where
  create_call begin_call commit_call rollback_call acquire_call release_call : Call
  -- a statement of the body
  statement : Call

-- What a transaction reads and writes: `connections`, the client's lock, the wrapper's `_finalized`,
-- whether there is a connection (or a pool), and the calls that the driver got.
pub record World : Type 0 where
  pub handler : Handler
  pub locked : Bool
  pub finalized : Bool
  pub connected : Bool
  pub calls : List Call

pub data Outcome {ℓ} (A : Type ℓ) : Type ℓ where
  done : A → Outcome A
  raised : Error → Outcome A
  waits : Outcome A

abbrev pub Exec {ℓ} : Type ℓ → Type ℓ
Exec A = World → Outcome A × World

abbrev pub pure {ℓ} : {A : Type ℓ} → A → Exec A
pure a w = (done a, w)

abbrev pub raise {ℓ} : {A : Type ℓ} → Error → Exec A
raise e w = (raised e, w)

abbrev pub modify : (World → World) → Exec (Unit {0})
modify f w = (done tt, f w)

abbrev pub get_world : Exec World
get_world w = (done w, w)

abbrev pub when : Bool → Exec (Unit {0}) → Exec (Unit {0})
when true m = m
when false m = pure tt

-- The rest of an action, after what its first part came to.
abbrev pub continue {ℓ κ} :
    {A : Type ℓ} {B : Type κ} → Outcome A × World → (A → Exec B) → Outcome B × World
continue (done a, w) f = f a w
continue (raised e, w) f = (raised e, w)
continue (waits, w) f = (waits, w)

infixl 5 ◌>>=◌ ◌>>◌
abbrev pub ◌>>=◌ {ℓ κ} : {A : Type ℓ} {B : Type κ} → Exec A → (A → Exec B) → Exec B
◌>>=◌ m f w = continue (m w) f

abbrev pub ◌>>◌ {ℓ κ} : {A : Type ℓ} {B : Type κ} → Exec A → Exec B → Exec B
m >> k = m >>= λ _. k
