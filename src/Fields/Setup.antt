-- ===== src/Fields/Setup.antt =====
-- What `Field.__init__` guarantees.
use tortoise_orm_zh_cn.Base.{◌≡◌, Bool, true, false, Option, none, arith}
use tortoise_orm_zh_cn.Base.Errors.{ok}
use tortoise_orm_zh_cn.Fields.{Options, Field, make_field}

-- A field that was set up is not both a primary key and nullable, a primary key is unique and
-- indexed, and a field of a class that cannot be indexed has an index only as a primary key. The
-- deprecated names mean the same: `pk` and `index` set up the field that `primary_key` and
-- `db_index` do.
make_field-IsConsistent :
    {V : Type 0} (indexable : Bool) (o : Options V) (key place : Option Bool)
    → ((f : Field V)
        → make_field indexable o ≡ ok f
        → (f.pk ≡ true → (f.null ≡ false) × (f.unique ≡ true) × (f.index ≡ true))
          × (indexable ≡ false → f.index ≡ f.pk))
      × (make_field indexable
            (record o { primary_key = none; pk = key; db_index = none; index = place })
          ≡ make_field indexable
              (record o { primary_key = key; pk = none; db_index = place; index = none }))
unfolding make_field
make_field-IsConsistent indexable o key place = ((λ f h. ground arith), ground arith)
