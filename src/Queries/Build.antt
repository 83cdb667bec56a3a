-- ===== src/Queries/Build.antt =====
-- `order_by` reads what an ordering is written as.
use text.Mathlib.TextLemmas.{cons-append, nil-append}
use tortoise_orm_zh_cn.Base.{
  ◌≡◌, ap, sym, ◌∙◌, true, false, String, List, [], ◌∷◌, ◌==◌, All, ◌++◌, map, append-nil,
  append_assoc,
}
use tortoise_orm_zh_cn.Base.Dict.{Dict}
use tortoise_orm_zh_cn.Base.Errors.{ok}
use tortoise_orm_zh_cn.Queries.{
  Meta, QuerySet, Order, asc, desc, order_by, resolve_ordering_string, is_orderable, read_orderings,
}

-- The text for an ordering: a field, or a field after "-".
abbrev pub write_ordering : String × Order → String
write_ordering (field, asc) = field
write_ordering (field, desc) = Prim.Native.String.◌++◌ "-" field

-- What a field may be called: it has a first character that is not "-".
abbrev pub IsName : String → Type 0
IsName String.[] = ⊥
IsName (String.◌∷◌ c s) = (String.◌∷◌ c String.[] == "-") ≡ false

abbrev pub IsOrdering : {A : Type 0} → Meta → Dict A → String × Order → Type 0
IsOrdering meta annotations (field, o) = IsName field × (is_orderable meta annotations field ≡ true)

resolve_ordering_string-write_ordering :
    (o : String × Order) → IsName o.0 → resolve_ordering_string (write_ordering o) ≡ ok o
resolve_ordering_string-write_ordering (String.[], asc) h = absurd h
resolve_ordering_string-write_ordering (String.[], desc) h = absurd h
resolve_ordering_string-write_ordering (String.◌∷◌ c s, asc) h = rw h
resolve_ordering_string-write_ordering (String.◌∷◌ c s, desc) h = rw (cons-append, nil-append)

module _ {A : Type 0} (meta : Meta) (annotations : Dict A) where
  read_orderings-write_ordering :
      (os new : List (String × Order))
      → All (IsOrdering meta annotations) os
      → read_orderings meta annotations (map write_ordering os) new ≡ ok (new ++ os)
  read_orderings-write_ordering [] new h = ap ok (sym (append-nil new))
  read_orderings-write_ordering (o ∷ os) new ((n, k), h) =
      rw (resolve_ordering_string-write_ordering o n, k)
        (read_orderings-write_ordering os (new ++ o ∷ []) h ∙ ap ok (append_assoc new (o ∷ []) os))

-- `order_by`, given the texts for any orderings by known fields or annotations, stores these
-- orderings, in their order and with their directions, in place of the old ones, and changes
-- nothing else.
order_by-write_ordering :
    {V A : Type 0} (meta : Meta) (os : List (String × Order)) (q : QuerySet V A)
    → All (IsOrdering meta q.annotations) os
    → order_by meta (map write_ordering os) q ≡ ok (record q { orderings = os })
unfolding order_by
order_by-write_ordering meta os q h =
    rw (order_by, read_orderings-write_ordering meta q.annotations os [] h)
