-- ===== src/Filters/Tests.antt =====
-- Runs and witnesses for the filters, with a column's value on a row in place of the column.
use tortoise_orm_zh_cn.Base.{ℕ, ◌≡◌, refl, ◌↔◌, [], ◌∷◌, Option, none, some}
use tortoise_orm_zh_cn.Base.Dict.{lookup}
use tortoise_orm_zh_cn.Base.Errors.{ok, err, not_implemented_error}
use tortoise_orm_zh_cn.Criteria.{empty, term}
use tortoise_orm_zh_cn.Criteria.Truth.{Truth, holds, unknown}
use tortoise_orm_zh_cn.Filters.{
  not_equal, not_in, search, posix_regex, is_in, one, several, text, apply_operator, ge,
}
use tortoise_orm_zh_cn.Filters.Tables.{
  FilterInfo, plain, through, related_list_encoder, many_to_many, get_filters_for_field,
  get_m2m_filters, own,
}
use tortoise_orm_zh_cn.Filters.Opposite.{
  Opposite, by_list, with_operator, negated_lookup, negated_none,
}
use tortoise_orm_zh_cn.Filters.Sample.{row_terms, row_reading}

abbrev on_three : Option ℕ
on_three = some 3

run_tags :
    lookup "tags__in"
      (get_filters_for_field "tags" (many_to_many "tag_id" "event_id" "event_tag") "tags")
    ≡ some (through "tag_id" "event_id" "event_tag" is_in (some related_list_encoder))
unfolding get_filters_for_field get_m2m_filters
run_tags = refl

run_pk :
    lookup "pk__gte" (get_filters_for_field "pk" (plain "number") "number")
    ≡ some (own "number" "number" ge none)
unfolding get_filters_for_field
run_pk = refl

-- A backend that overrides nothing has no full-text search: the criterion is absent.
run_search : apply_operator row_terms search (some 3) (text []) ≡ ok empty
unfolding apply_operator
run_search = refl

run_regex : apply_operator row_terms posix_regex (some 3) (text []) ≡ err not_implemented_error
unfolding apply_operator
run_regex = refl

-- A row with 3 is not selected by `__not_in=[1, None]`.
run_not_in :
    apply_operator row_terms not_in (some 3) (several (some 1 ∷ none ∷ [])) ≡ ok (term unknown)
unfolding apply_operator
run_not_in = refl

negated_lookup_example :
    let d = get_filters_for_field "pk" (plain "number") "number_column" in
    (i j : FilterInfo) × (lookup "pk__in" d ≡ some i)
    × (lookup "pk__not_in" d ≡ some j)
    × (j ≡ with_operator j.operator i)
    × Opposite row_reading i.operator j.operator (some 3) (several (some 1 ∷ some 2 ∷ []))
negated_lookup_example =
    negated_lookup row_reading "pk" "number_column" (plain "number") by_list (some 3)
      (several (some 1 ∷ some 2 ∷ [])) refl refl

negated_none_example :
    (c d : Truth) × (apply_operator row_terms not_equal on_three (one none) ≡ ok (term c))
    × (apply_operator row_terms not_in on_three (several (some 1 ∷ none ∷ [])) ≡ ok (term d))
    × ((c ≡ holds) ↔ (on_three ≡ none))
    × ((d ≡ holds) ↔ (on_three ≡ none))
negated_none_example = negated_none row_reading on_three (some 1 ∷ none ∷ []) refl
