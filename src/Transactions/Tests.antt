-- ===== src/Transactions/Tests.antt =====
-- Witnesses for the transaction contexts, on a driver that accepts everything and on one that
-- refuses to commit.
use tortoise_orm_zh_cn.Base.{ℕ, ◌≡◌, refl, true, false, [], ◌∷◌, ◌++◌, List, Option, none, some}
use tortoise_orm_zh_cn.Base.Errors.{Error, integrity_error, operational_error}
use tortoise_orm_zh_cn.Connections.{Connection, set_connection, reset}
use tortoise_orm_zh_cn.Transactions.{exit, in_transaction, in_nested}
use tortoise_orm_zh_cn.Transactions.Monad.{
  done, raised, World, Call, commit_call, rollback_call, statement, Exec,
}
use tortoise_orm_zh_cn.Transactions.Exit.{exit-refused}
use tortoise_orm_zh_cn.Transactions.Bracket.{entered, after, in_transaction-after}
use tortoise_orm_zh_cn.Transactions.Nested.{nested_failure}

abbrev accepting : List Call → Call → Option Error
accepting calls c = none

abbrev no_commit : List Call → Call → Option Error
no_commit calls commit_call = some operational_error
no_commit calls _ = none

abbrev connection : Connection
connection = record { serial = 1; engine = "sqlite"; params = [] }

abbrev idle : World
idle = record {
  handler = record {
    db_config = none;
    create_db = false;
    storages = [] ∷ [];
    current = 0;
    made = 0;
  };
  locked = false;
  finalized = false;
  connected = true;
  calls = [];
}

-- A body with one statement
abbrev work : Exec ℕ
work w = (done 5, record w { calls = w.calls ++ statement ∷ [] })

-- A body whose statement breaks a constraint
abbrev broken : Exec ℕ
broken w = (raised integrity_error, record w { calls = w.calls ++ statement ∷ [] })

abbrev busy : World
busy = record idle { locked = true }

exit-refused_example :
    exit no_commit 0 none busy
    ≡ (raised operational_error, record busy { calls = busy.calls ++ commit_call ∷ [] })
exit-refused_example = exit-refused no_commit 0 none busy commit_call operational_error refl refl

in_transaction-after_example : in_transaction accepting "default" connection work idle ≡ (
  done 5,
  after
      (set_connection "default" connection idle.handler).0
      none
      (work (entered "default" connection idle)).1,
)
in_transaction-after_example =
    in_transaction-after accepting "default" connection work idle (done 5)
      (work (entered "default" connection idle)).1 refl refl (refl, (refl, tt)) refl (λ p. cc)
      (refl, tt)

nested_failure_example :
    in_transaction accepting "default" connection (in_nested accepting broken) idle ≡ (
      raised integrity_error,
      record ((broken (entered "default" connection idle)).1) {
        handler =
            reset
              (set_connection "default" connection idle.handler).0
              (broken (entered "default" connection idle)).1.handler;
        locked = false;
        finalized = true;
        calls = (broken (entered "default" connection idle)).1.calls ++ rollback_call ∷ [];
      },
    )
nested_failure_example =
    nested_failure accepting "default" connection broken idle integrity_error
      (broken (entered "default" connection idle)).1 refl refl (refl, (refl, tt)) refl refl refl
      refl
