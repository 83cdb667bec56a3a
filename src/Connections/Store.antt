-- ===== src/Connections/Store.antt =====
-- The dicts that contexts share, by address.
use tortoise_orm_zh_cn.Base.{
  ℕ, zero, suc, ◌<◌, ◌≡◌, ◌≢◌, refl, ap, String, List, [], ◌∷◌, ◌++◌, Option, none, some, length,
  arith, eq_iff,
}
use tortoise_orm_zh_cn.Base.Dict.{Dict, lookup, lookup-insert}
use tortoise_orm_zh_cn.Connections.{
  Connection, Handler, storage_at, put_storage, get_storage, change_storage, add_missing,
}

pub length-put_storage :
    (ds : List (Dict Connection)) (n : ℕ) (e : Dict Connection)
    → length (put_storage ds n e) ≡ length ds
length-put_storage [] n e = refl
length-put_storage (d ∷ ds) zero e = refl
length-put_storage (d ∷ ds) (suc n) e = ap suc (length-put_storage ds n e)

pub storage_at-put_storage :
    (ds : List (Dict Connection)) (n : ℕ) (e : Dict Connection)
    → n < length ds
    → storage_at (put_storage ds n e) n ≡ e
storage_at-put_storage [] n e h = elim h [ ]
storage_at-put_storage (d ∷ ds) zero e h = refl
storage_at-put_storage (d ∷ ds) (suc n) e h = storage_at-put_storage ds n e (omega arith)

pub storage_at-put_storage_ne :
    (ds : List (Dict Connection)) (n m : ℕ) (e : Dict Connection)
    → n ≢ m
    → storage_at (put_storage ds n e) m ≡ storage_at ds m
storage_at-put_storage_ne [] n m e h = refl
storage_at-put_storage_ne (d ∷ ds) zero zero e h = absurd (h refl)
storage_at-put_storage_ne (d ∷ ds) zero (suc m) e h = refl
storage_at-put_storage_ne (d ∷ ds) (suc n) zero e h = refl
storage_at-put_storage_ne (d ∷ ds) (suc n) (suc m) e h =
    storage_at-put_storage_ne ds n m e (λ p. h (ap suc p))

-- A new dict gets the next address, and the others keep theirs.
pub storage_at-append :
    (ds : List (Dict Connection)) (e : Dict Connection) → storage_at (ds ++ e ∷ []) (length ds) ≡ e
storage_at-append [] e = refl
storage_at-append (d ∷ ds) e = storage_at-append ds e

pub storage_at-append_old :
    (ds : List (Dict Connection)) (e : Dict Connection) (n : ℕ)
    → n < length ds
    → storage_at (ds ++ e ∷ []) n ≡ storage_at ds n
storage_at-append_old [] e n h = elim h [ ]
storage_at-append_old (d ∷ ds) e zero h = refl
storage_at-append_old (d ∷ ds) e (suc n) h = storage_at-append_old ds e n (omega arith)

-- The context refers to a dict that exists.
abbrev pub IsValid : Handler → Type 0
IsValid h = h.current < length h.storages

pub get_storage-change_storage :
    (f : Dict Connection → Dict Connection) (h : Handler)
    → IsValid h
    → get_storage (change_storage f h) ≡ f (get_storage h)
get_storage-change_storage f h v = storage_at-put_storage h.storages h.current (f (get_storage h)) v

pub change_storage-IsValid :
    (f : Dict Connection → Dict Connection) (h : Handler) → IsValid h → IsValid (change_storage f h)
change_storage-IsValid f h v = rw (length-put_storage h.storages h.current (f (get_storage h))) v

-- What `reset` leaves under an alias: the old dict's entry, or else the newer dict's.
abbrev pub or_else {ℓ} : {A : Type ℓ} → Option A → Option A → Option A
or_else none b = b
or_else (some a) b = some a

pub lookup-add_missing :
    (current prev : Dict Connection) (j : String)
    → lookup j (add_missing current prev) ≡ or_else (lookup j prev) (lookup j current)
lookup-add_missing [] prev j = ground arith
lookup-add_missing ((alias, conn) ∷ rest) prev j =
    rw (lookup-add_missing rest _ j)
      (ground (arith, eq_iff alias j, lookup-insert alias j conn prev))
