-- ===== src/Lookups/Resolve.antt =====
-- `resolve_filters` of tortoise/queryset.py: the conditions, the joins and the grouping of a query.
-- What `_resolve_annotate` finds, whether an annotation is an aggregate, is an argument.
use tortoise_orm_zh_cn.Base.{
  ◌≡◌, refl, ◌∙◌, sym, Bool, true, false, ◌&&◌, ◌||◌, String, List, [], ◌∷◌, ◌++◌, Option, none,
  map, arith, ap, append_assoc, append-nil, if◌then◌else◌, inl, inr,
}
use mathlib.Core.Path.{subst}
use tortoise_orm_zh_cn.Base.Errors.{Result, ok, ◌>>=◌, Result-cases}
use tortoise_orm_zh_cn.Criteria.{Pypika, Crit, truthy, QueryModifier, no_modifier, and_modifiers}
use tortoise_orm_zh_cn.Criteria.Truth.{Truth, all_of}
use tortoise_orm_zh_cn.Criteria.Meaning.{Reading, meaning, asks, asks-and_modifiers}
use tortoise_orm_zh_cn.Relations.ManyToMany.{AreDistinct}
use tortoise_orm_zh_cn.Lookups.Joined.{Extends, add_joins-Extends}
use tortoise_orm_zh_cn.Joins.{Tables, Join, Query, add_joins}

-- The query, with its `_wheres`, its `_havings` and its `_groupbys`
pub record Filtered (C T A : Type 0) : Type 0 where
  pub query : Query T A
  pub wheres : Crit C
  pub havings : Crit C
  pub groupbys : List (T × String)

abbrev is_given : {A : Type 0} → List A → Bool
is_given [] = false
is_given (x ∷ xs) = true

module _ (P : Pypika) {T N : Type 0} (tables : Tables T)
    (resolve : N → Result (QueryModifier P.Criterion (Join T))) where
  -- `modifier &= node.resolve(…)`, for each
  unfoldable pub resolve_nodes :
      List N → QueryModifier P.Criterion (Join T) → Result (QueryModifier P.Criterion (Join T))
  resolve_nodes [] modifier = ok modifier
  resolve_nodes (q ∷ q_objects) modifier = do
    m ← resolve q
    resolve_nodes q_objects (and_modifiers P modifier m)

  module _ {A : Type 0} where
    abbrev pub apply_modifier :
        Bool
        → T
        → List String
        → QueryModifier P.Criterion (Join T)
        → Query T A
        → Filtered P.Criterion T A
    apply_modifier has_aggregate basetable db_fields m query =
        let joined = add_joins tables m.joins query in
        record {
          query = joined;
          wheres = m.where_criterion;
          havings = m.having_criterion;
          groupbys =
              if has_aggregate
                && (is_given joined.joined_tables
                    || truthy m.having_criterion
                    || is_given joined.orderbys)
              then map (λ field. (basetable, field)) db_fields
              else [];
        }

    -- `resolve_filters`
    unfoldable pub resolve_filters :
        Bool → T → List String → List N → Query T A → Result (Filtered P.Criterion T A)
    resolve_filters has_aggregate basetable db_fields q_objects query = do
      m ← resolve_nodes q_objects no_modifier
      ok (apply_modifier has_aggregate basetable db_fields m query)

  -- The modifiers of the nodes
  unfoldable pub resolve_each_node : List N → Result (List (QueryModifier P.Criterion (Join T)))
  resolve_each_node [] = ok []
  resolve_each_node (q ∷ q_objects) = do
    m ← resolve q
    ms ← resolve_each_node q_objects
    ok (m ∷ ms)

  unfoldable together :
      QueryModifier P.Criterion (Join T)
      → List (QueryModifier P.Criterion (Join T))
      → QueryModifier P.Criterion (Join T)
  together m [] = m
  together m (n ∷ ns) = together (and_modifiers P m n) ns

  resolve_nodes-resolve_each_node :
      (q_objects : List N) (m : QueryModifier P.Criterion (Join T))
      → resolve_nodes q_objects m ≡ (resolve_each_node q_objects >>= λ ms. ok (together m ms))
  unfolding resolve_nodes resolve_each_node together
  resolve_nodes-resolve_each_node [] m = refl
  resolve_nodes-resolve_each_node (q ∷ q_objects) m = elim (Result-cases (resolve q)) [
    | inr (e, h) ↦ ground arith
    | inl (n, h) ↦
        let rest = resolve_nodes-resolve_each_node q_objects (and_modifiers P m n) in
        elim (Result-cases (resolve_each_node q_objects)) [
          | inl (ms, g) ↦ ground arith
          | inr (e, g) ↦ ground arith
        ]
  ]

-- All the joins of some modifiers
abbrev pub joins_of : {C J : Type 0} → List (QueryModifier C J) → List J
joins_of [] = []
joins_of (m ∷ ms) = m.joins ++ joins_of ms

module _ {P : Pypika} (R : Reading P) {T : Type 0} where
  -- What some modifiers ask together, after something else
  abbrev pub asks_all : Option Truth → List (QueryModifier P.Criterion (Join T)) → Option Truth
  asks_all a [] = a
  asks_all a (m ∷ ms) = asks_all (all_of a (asks R m)) ms

module _ {P : Pypika} (R : Reading P) {T N : Type 0} (tables : Tables T)
    (resolve : N → Result (QueryModifier P.Criterion (Join T))) where
  asks-together :
      (ms : List (QueryModifier P.Criterion (Join T))) (m : QueryModifier P.Criterion (Join T))
      → (asks R (together P tables resolve m ms) ≡ asks_all R (asks R m) ms)
        × ((together P tables resolve m ms).joins ≡ m.joins ++ joins_of ms)
  unfolding together
  asks-together [] m = (refl, sym (append-nil m.joins))
  asks-together (n ∷ ms) m =
      let (asked, joined) = asks-together ms (and_modifiers P m n) in
      let (a, j) = asks-and_modifiers R m n in
      (
        asked ∙ ap (λ x. asks_all R x ms) a,
        joined ∙ ap (λ x. x ++ joins_of ms) j ∙ append_assoc m.joins n.joins (joins_of ms),
      )

  -- Where every node can be resolved, `resolve_filters` makes a query whose `where` and `having` ask
  -- what all the nodes ask together. If no table was joined twice, none is then: after the joins that
  -- the query had come some of the nodes' joins, in their order, each with its table after the tables
  -- that were joined, and the table of each of the nodes' joins is among the joined ones.
  pub resolve_filters-asks :
      {A : Type 0} (has_aggregate : Bool) (basetable : T) (db_fields : List String)
      (q_objects : List N) (query : Query T A) (ms : List (QueryModifier P.Criterion (Join T)))
      → AreDistinct tables.keys query.joined_tables
      → resolve_each_node P tables resolve q_objects ≡ ok ms
      → (f : Filtered P.Criterion T A) × (resolve_filters P tables resolve has_aggregate basetable
            db_fields q_objects query
          ≡ ok f)
        × (all_of (meaning R f.wheres) (meaning R f.havings) ≡ asks_all R none ms)
        × Extends tables query f.query (joins_of ms)
  unfolding resolve_filters
  resolve_filters-asks has_aggregate basetable db_fields q_objects query ms distinct h =
      let nodes = resolve_nodes-resolve_each_node P tables resolve q_objects no_modifier in
      let m = together P tables resolve no_modifier ms in
      let (asked, joined) = asks-together ms no_modifier in
      let extended = add_joins-Extends tables m.joins query distinct in
      (
        apply_modifier P tables resolve has_aggregate basetable db_fields m query,
        ground arith,
        asked,
        subst (λ js. Extends tables query (add_joins tables m.joins query) js) joined extended,
      )
