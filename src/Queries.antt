-- ===== src/Queries.antt =====
-- tortoise/queryset.py: how a `QuerySet` is built, and what it makes of the rows that it gets.
-- Each method returns a changed clone. The sets of `select_related`, `force_index` and `use_index`
-- are shared objects, so they stand in a store, by their address. The model, its connection and SQL,
-- the custom filters and the prefetch maps, which nothing modelled here changes, are left out.
pub mod Build
pub mod Hints
pub mod Rows
pub mod Window
pub mod Derived
mod Tests
use tortoise_orm_zh_cn.Base.{
  ℕ, zero, suc, ◌+◌, Bool, true, false, not, ◌&&◌, ◌||◌, String, List, [], ◌∷◌, ◌++◌, Option, none,
  some, length, contains, if◌then◌else◌, ◌==◌,
}
use tortoise_orm_zh_cn.Base.Int.{ℤ, pos, negsuc, is_negative, lebℤ, ◌-ℤ◌}
use tortoise_orm_zh_cn.Base.Dict.{Dict, has_key, insert}
use tortoise_orm_zh_cn.Base.Errors.{
  Result, ok, err, ◌>>=◌, params_error, field_error, type_error, index_error,
}
use tortoise_orm_zh_cn.Expressions.{Q, nil, and_join, make_q, invert_q}

pub data Order : Type 0 where
  asc desc : Order

-- What the methods read of the model: its fields and the capabilities of its database.
pub record Meta : Type 0 where
  pub fields : List String
  pub db_fields : List String
  pub requires_limit : Bool
  pub support_for_update : Bool
  pub support_index_hint : Bool

pub record QuerySet (V A : Type 0) : Type 0 where
  pub q_objects : List (Q V)
  pub annotations : Dict A
  pub orderings : List (String × Order)
  pub limit : Option ℤ
  pub offset : Option ℤ
  pub single : Bool
  pub raise_does_not_exist : Bool
  pub distinct : Bool
  pub group_bys : List String
  pub fields_for_select : List String
  pub select_for_update : Bool
  pub select_for_update_nowait : Bool
  pub select_for_update_skip_locked : Bool
  pub select_for_update_of : List String
  pub select_related : ℕ
  pub force_indexes : ℕ
  pub use_indexes : ℕ

-- The store of the shared sets
abbrev pub Sets : Type 0
Sets = List (List String)

abbrev pub set_at : Sets → ℕ → List String
set_at [] n = []
set_at (s ∷ ss) zero = s
set_at (s ∷ ss) (suc n) = set_at ss n

abbrev pub put_set : Sets → ℕ → List String → Sets
put_set [] n t = []
put_set (s ∷ ss) zero t = t ∷ ss
put_set (s ∷ ss) (suc n) t = s ∷ put_set ss n t

-- `for name in names: s.add(name)`
abbrev pub add_all : List String → List String → List String
add_all [] s = s
add_all (name ∷ names) s = add_all names (if contains name s then s else s ++ name ∷ [])

-- An argument of `filter`: a `Q`, or something else.
pub data Arg (V : Type 0) : Type 0 where
  q_arg : Q V → Arg V
  other_arg : Arg V

-- A part of a slice, and the key of `queryset[key]`
pub data Bound : Type 0 where
  absent : Bound
  int : ℤ → Bound
  no_int : Bound

pub data Key : Type 0 where
  -- `start:stop:step`
  slice : Bound → Bound → Bound → Key
  no_slice : Key

-- `_resolve_ordering_string`; an empty text has no first character.
abbrev pub resolve_ordering_string : String → Result (String × Order)
resolve_ordering_string String.[] = err index_error
resolve_ordering_string (String.◌∷◌ c s) =
    if String.◌∷◌ c String.[] == "-" then ok (s, desc) else ok (String.◌∷◌ c s, asc)

-- `field_name.split("__")[0]`
abbrev pub first_part : String → String
first_part String.[] = ""
first_part (String.◌∷◌ c String.[]) = String.◌∷◌ c String.[]
first_part (String.◌∷◌ c (String.◌∷◌ d s)) =
    let rest = first_part (String.◌∷◌ d s) in
    if (String.◌∷◌ c String.[] == "_") && (String.◌∷◌ d String.[] == "_")
    then ""
    else String.◌∷◌ c rest

abbrev pub negated : {V : Type 0} → Bool → Q V → Q V
negated negate q = if negate then invert_q q else q

-- The loops of `_filter_or_exclude`
abbrev pub append_args : {V : Type 0} → Bool → List (Arg V) → List (Q V) → Result (List (Q V))
append_args negate [] qs = ok qs
append_args negate (other_arg ∷ args) qs = err type_error
append_args negate (q_arg q ∷ args) qs = append_args negate args (qs ++ negated negate q ∷ [])

abbrev pub append_kwargs : {V : Type 0} → Bool → Dict V → List (Q V) → List (Q V)
append_kwargs negate [] qs = qs
append_kwargs negate ((key, value) ∷ kwargs) qs =
    append_kwargs negate kwargs
      (qs ++ negated negate (make_q nil and_join ((key, value) ∷ [])) ∷ [])

-- The limit that `offset` sets where the database needs one
abbrev pub limit_or_default : Meta → Option ℤ → Option ℤ
limit_or_default meta none = if meta.requires_limit then some (pos 1000000) else none
limit_or_default meta (some n) = some n

abbrev pub is_one : Bound → Bool
is_one absent = true
is_one (int (pos (suc zero))) = true
is_one _ = false

-- `key.stop is not None and (not isinstance(key.stop, int) or key.stop <= start)`
abbrev pub is_bad_stop : ℤ → Bound → Bool
is_bad_stop start absent = false
is_bad_stop start no_int = true
is_bad_stop start (int stop) = lebℤ stop start

-- `field_name.split("__")[0] in self.model._meta.fields or field_name in self._annotations`
abbrev pub is_orderable : {A : Type 0} → Meta → Dict A → String → Bool
is_orderable meta annotations name =
    contains (first_part name) meta.fields || has_key name annotations

-- `if not …: raise FieldError(…)`
abbrev pub check : Bool → Result (Unit {0})
check true = ok tt
check false = err field_error

-- The loop of `order_by`
abbrev pub read_orderings :
    {A : Type 0}
    → Meta
    → Dict A
    → List String
    → List (String × Order)
    → Result (List (String × Order))
read_orderings meta annotations [] new = ok new
read_orderings meta annotations (ordering ∷ rest) new = do
  parsed ← resolve_ordering_string ordering
  is_known ← check (is_orderable meta annotations parsed.0)
  read_orderings meta annotations rest (new ++ parsed ∷ [])

module _ {V A : Type 0} where
  -- `QuerySet.__init__`
  unfoldable pub new_query_set : Sets → QuerySet V A × Sets
  new_query_set sets = (
    record {
      q_objects = [];
      annotations = [];
      orderings = [];
      limit = none;
      offset = none;
      single = false;
      raise_does_not_exist = false;
      distinct = false;
      group_bys = [];
      fields_for_select = [];
      select_for_update = false;
      select_for_update_nowait = false;
      select_for_update_skip_locked = false;
      select_for_update_of = [];
      select_related = length sets;
      force_indexes = length sets + 1;
      use_indexes = length sets + 2;
    },
    sets ++ [] ∷ [] ∷ [] ∷ [],
  )

  -- `_clone`: the copy has the same shared sets.
  abbrev pub clone : QuerySet V A → QuerySet V A
  clone q = record {
    q_objects = q.q_objects;
    annotations = q.annotations;
    orderings = q.orderings;
    limit = q.limit;
    offset = q.offset;
    single = q.single;
    raise_does_not_exist = q.raise_does_not_exist;
    distinct = q.distinct;
    group_bys = q.group_bys;
    fields_for_select = q.fields_for_select;
    select_for_update = q.select_for_update;
    select_for_update_nowait = q.select_for_update_nowait;
    select_for_update_skip_locked = q.select_for_update_skip_locked;
    select_for_update_of = q.select_for_update_of;
    select_related = q.select_related;
    force_indexes = q.force_indexes;
    use_indexes = q.use_indexes;
  }

  -- `_filter_or_exclude`
  unfoldable pub filter_or_exclude :
      Bool → List (Arg V) → Dict V → QuerySet V A → Result (QuerySet V A)
  filter_or_exclude negate args kwargs q = do
    qs ← append_args negate args (clone q).q_objects
    ok (record (clone q) { q_objects = append_kwargs negate kwargs qs })

  -- `filter` and `exclude`
  abbrev pub filter : List (Arg V) → Dict V → QuerySet V A → Result (QuerySet V A)
  filter = filter_or_exclude false

  abbrev pub exclude : List (Arg V) → Dict V → QuerySet V A → Result (QuerySet V A)
  exclude = filter_or_exclude true

  -- `distinct`, `group_by` and `only`
  unfoldable pub make_distinct : QuerySet V A → QuerySet V A
  make_distinct q = record (clone q) { distinct = true }

  unfoldable pub group_by : List String → QuerySet V A → QuerySet V A
  group_by fields q = record (clone q) { group_bys = fields }

  unfoldable pub only : List String → QuerySet V A → QuerySet V A
  only fields q = record (clone q) { fields_for_select = fields }

  -- `first`
  unfoldable pub first : QuerySet V A → QuerySet V A
  first q = record (clone q) { limit = some (pos 1); single = true }

  -- `get`
  unfoldable pub get : List (Arg V) → Dict V → QuerySet V A → Result (QuerySet V A)
  get args kwargs q = do
    queryset ← filter args kwargs q
    ok (record queryset { limit = some (pos 2); single = true; raise_does_not_exist = true })

  -- `get_or_none`
  unfoldable pub get_or_none : List (Arg V) → Dict V → QuerySet V A → Result (QuerySet V A)
  get_or_none args kwargs q = do
    queryset ← filter args kwargs q
    ok (record queryset { limit = some (pos 2); single = true })

  -- `limit`
  unfoldable pub set_limit : ℤ → QuerySet V A → Result (QuerySet V A)
  set_limit limit q =
      if is_negative limit then err params_error else ok (record (clone q) { limit = some limit })

  -- `select_related`
  unfoldable pub select_related_to : List String → QuerySet V A → Sets → QuerySet V A × Sets
  select_related_to names q sets =
      (clone q, put_set sets q.select_related (add_all names (set_at sets q.select_related)))

  module _ (meta : Meta) where
    -- `offset`
    unfoldable pub set_offset : ℤ → QuerySet V A → Result (QuerySet V A)
    set_offset offset q =
        if is_negative offset
        then err params_error
        else ok (record (clone q) { offset = some offset; limit = limit_or_default meta q.limit })

    -- `if key.stop: queryset = queryset.limit(key.stop - start)`
    abbrev pub limit_to : ℤ → Bound → QuerySet V A → Result (QuerySet V A)
    limit_to start absent q = ok q
    limit_to start no_int q = err params_error
    limit_to start (int (pos zero)) q = ok q
    limit_to start (int stop) q = set_limit (stop -ℤ start) q

    abbrev pub slice_from : ℤ → Bound → QuerySet V A → Result (QuerySet V A)
    slice_from start stop q =
        if is_negative start
        then err params_error
        else if is_bad_stop start stop
        then err params_error
        else do queryset ← set_offset start q; limit_to start stop queryset

    -- `__getitem__`
    unfoldable pub get_item : Key → QuerySet V A → Result (QuerySet V A)
    get_item no_slice q = err params_error
    get_item (slice start stop step) q =
        if not (is_one step) then err params_error else elim start [
          | absent ↦ slice_from (pos 0) stop q
          | int n ↦ slice_from n stop q
          | no_int ↦ err params_error
        ]

    -- `select_for_update`
    unfoldable pub lock_rows : Bool → Bool → List String → QuerySet V A → QuerySet V A
    lock_rows nowait skip_locked tables q =
        if meta.support_for_update
        then record (clone q) {
          select_for_update = true;
          select_for_update_nowait = nowait;
          select_for_update_skip_locked = skip_locked;
          select_for_update_of = add_all tables [];
        }
        else q

    -- `force_index` and `use_index`
    unfoldable pub force_index : List String → QuerySet V A → Sets → QuerySet V A × Sets
    force_index names q sets =
        if meta.support_index_hint
        then (clone q, put_set sets q.force_indexes (add_all names (set_at sets q.force_indexes)))
        else (q, sets)

    unfoldable pub use_index : List String → QuerySet V A → Sets → QuerySet V A × Sets
    use_index names q sets =
        if meta.support_index_hint
        then (clone q, put_set sets q.use_indexes (add_all names (set_at sets q.use_indexes)))
        else (q, sets)

    -- `order_by`
    unfoldable pub order_by : List String → QuerySet V A → Result (QuerySet V A)
    order_by orderings q = do
      new ← read_orderings meta q.annotations orderings []
      ok (record (clone q) { orderings = new })
