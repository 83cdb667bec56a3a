-- ===== src/Updates/Bind.antt =====
-- The query of an update and its values fit together.
use tortoise_orm_zh_cn.Base.{
  ℕ, ◌≡◌, refl, ap, sym, ◌∙◌, Bool, String, List, [], ◌∷◌, ◌++◌, Option, some, arith, length,
  length-append, inl, inr, append-nil, append_assoc, true, false, none, zero, suc, ◌↔◌, ◌≢◌,
}
use tortoise_orm_zh_cn.Base.Dict.{Dict}
use tortoise_orm_zh_cn.Updates.Assign.{
  IsAssignment, AreAssignments, all_set, first_error, later_error, one_set,
  resolve_argument-IsAssignment,
}
use tortoise_orm_zh_cn.Base.Errors.{Result, ok, err, ◌>>=◌, Result-cases}
use tortoise_orm_zh_cn.Executor.Update.{Held, Source}
use tortoise_orm_zh_cn.Executor.Update.Sets.{
  Assigned, value, term, bind_sets, Sets, Sets-parameter, Sets-computed,
}
use tortoise_orm_zh_cn.Updates.{
  Meta, Made, limit_of, resolve_argument, next_sets, set_fields, make_query,
}

-- The query's LIMIT is that of the update, if the database supports one there and it is not 0.
abbrev pub IsLimit : Bool → Option ℕ → Option ℕ → Type 0
IsLimit supports_limit limit sent =
    (n : ℕ) → (sent ≡ some n) ↔ ((supports_limit ≡ true) × (limit ≡ some n) × (n ≢ 0))

limit_of-IsLimit :
    (supports_limit : Bool) (limit : Option ℕ)
    → IsLimit supports_limit limit (limit_of supports_limit limit)
limit_of-IsLimit true none n = (λ h. absurd (cc), λ h. absurd (cc))
limit_of-IsLimit true (some zero) n = (λ h. absurd (cc), λ h. absurd (ground arith))
limit_of-IsLimit true (some (suc k)) n = (λ h. (refl, h, ground arith), λ h. h.1)
limit_of-IsLimit false limit n = (λ h. absurd (cc), λ h. absurd (cc))

module _ {V W E T : Type 0} (meta : Meta) (get_attribute : String → Held V E → Result V)
    (to_db : String → V → Result W) (resolve_expression : E → Result T) where
  abbrev resolved_argument : String → Held V E → Result (String × Assigned W T)
  resolved_argument key given =
      resolve_argument meta get_attribute to_db resolve_expression key given

  -- What the keyword arguments are to set, or the first error that one of them gives
  abbrev assignments : Dict (Held V E) → Result (List (String × Assigned W T))
  assignments [] = ok []
  assignments ((key, given) ∷ update_kwargs) = do
    a ← resolved_argument key given
    rest ← assignments update_kwargs
    ok (a ∷ rest)

  abbrev State : Type 0
  State = List (String × Source T) × List W × ℕ

  -- After a loop that started from this state, the clauses set this besides, or it failed.
  abbrev Ends :
      Result (List (String × Assigned W T)) → List (String × Assigned W T) → Result State → Type 0
  Ends (err e) before r = r ≡ err e
  Ends (ok out) before r =
      (state : State) × (r ≡ ok state) × Sets (state.1) (state.0) (before ++ out)

  next_sets-Sets :
      (a : String × Assigned W T) (sets : List (String × Source T)) (values : List W)
      (before : List (String × Assigned W T))
      → Sets values sets before
      → let next =
          next_sets meta get_attribute to_db resolve_expression a (sets, values, length values) in
        Sets (next.1) (next.0) (before ++ a ∷ []) × (next.2 ≡ length (next.1))
  next_sets-Sets (column, value w) sets values before h =
      (Sets-parameter values sets before column w h, omega (arith, length-append values (w ∷ [])))
  next_sets-Sets (column, term t) sets values before h =
      (Sets-computed values sets before column t h, refl)

  Ends-cons :
      (a : String × Assigned W T) (r : Result (List (String × Assigned W T)))
      (before : List (String × Assigned W T)) (q : Result State)
      → Ends r (before ++ a ∷ []) q
      → Ends (r >>= λ rest. ok (a ∷ rest)) before q
  Ends-cons a (err e) before q h = h
  Ends-cons a (ok out) before q (state, made, there) = (state, made, rw append_assoc at there)

  set_fields-Ends :
      (update_kwargs : Dict (Held V E)) (sets : List (String × Source T)) (values : List W)
      (count : ℕ) (before : List (String × Assigned W T))
      → count ≡ length values
      → Sets values sets before
      → Ends (assignments update_kwargs) before (
          set_fields meta get_attribute to_db resolve_expression update_kwargs
            (sets, values, count))
  unfolding set_fields
  set_fields-Ends [] sets values count before n h =
      ((sets, values, count), refl, rw (append-nil before) h)
  set_fields-Ends ((key, given) ∷ update_kwargs) sets values count before n h =
      elim (Result-cases (resolved_argument key given)) [
        | inr (e, bad) ↦ rw bad refl
        | inl (a, e) ↦
            let next =
              next_sets meta get_attribute to_db resolve_expression a
                (sets, values, length values) in
            let (here, size) = next_sets-Sets a sets values before h in
            rw e (
              rw n (
                Ends-cons a (assignments update_kwargs) before _ (
                  set_fields-Ends update_kwargs (next.0) (next.1) (next.2) (before ++ a ∷ []) size
                    here)))
      ]

  -- What an update is to send: the first error, or a query that sets just the columns of the
  -- keyword arguments, each to its value or its term, in their order.
  abbrev pub IsQuery :
      {G : Type 0}
      → Result (List (String × Assigned W T))
      → G
      → Option ℕ
      → Result (Made G W T)
      → Type 0
  IsQuery (err e) filters limit r = r ≡ err e
  IsQuery (ok out) filters limit r =
      (sets : List (String × Source T)) × (values : List W) × (r
        ≡ ok (record { limit = limit; filters = filters; sets = sets; values = values }))
      × (bind_sets values sets ≡ some out)

  Ends-IsQuery :
      {G : Type 0} (filters : G) (limit : Option ℕ)
      (assigned : Result (List (String × Assigned W T))) (r : Result State)
      → Ends assigned [] r
      → IsQuery assigned filters limit (
          r >>= λ state.
          ok record { limit = limit; filters = filters; sets = state.0; values = state.1 })
  Ends-IsQuery filters limit (err e) r h = rw h refl
  Ends-IsQuery filters limit (ok out) r ((sets, values, count), made, there) =
      (sets, values, rw made refl, ap (λ q. bind_sets q sets) (sym (append-nil values)) ∙ there [])

  following :
      (key : String) (given : Held V E) (a : String × Assigned W T) (rest : Dict (Held V E))
      (out : Result (List (String × Assigned W T)))
      → IsAssignment meta get_attribute to_db resolve_expression key given (ok a)
      → AreAssignments meta get_attribute to_db resolve_expression rest out
      → AreAssignments meta get_attribute to_db resolve_expression
          ((key, given) ∷ rest)
          (out >>= λ more. ok (a ∷ more))
  following key given a rest (err e) here there = later_error key given a e rest here there
  following key given a rest (ok out) here there = one_set key given a out rest here there

  assignments-AreAssignments :
      (update_kwargs : Dict (Held V E))
      → AreAssignments meta get_attribute to_db resolve_expression update_kwargs
          (assignments update_kwargs)
  assignments-AreAssignments [] = all_set
  assignments-AreAssignments ((key, given) ∷ rest) =
      let found =
        resolve_argument-IsAssignment meta get_attribute to_db resolve_expression key given in
      elim (Result-cases (resolved_argument key given)) [
        | inr (e, h) ↦ rw h (first_error key given e rest (rw h at found))
        | inl (a, h) ↦ rw h (
            following key given a rest (assignments rest) (rw h at found)
              (assignments-AreAssignments rest))
      ]

  pub make_query-assignments :
      {G : Type 0} (supports_limit : Bool) (limit : Option ℕ) (filters : G)
      (update_kwargs : Dict (Held V E))
      → (assigned : Result (List (String × Assigned W T))) × (sent : Option ℕ) × AreAssignments meta
          get_attribute to_db resolve_expression update_kwargs assigned
        × IsLimit supports_limit limit sent
        × IsQuery assigned filters sent (
            make_query meta get_attribute to_db resolve_expression supports_limit limit
              (ok filters)
              update_kwargs
              [])
  unfolding make_query
  make_query-assignments supports_limit limit filters update_kwargs = (
    assignments update_kwargs,
    limit_of supports_limit limit,
    assignments-AreAssignments update_kwargs,
    limit_of-IsLimit supports_limit limit,
    Ends-IsQuery filters (limit_of supports_limit limit) (assignments update_kwargs) _
        (set_fields-Ends update_kwargs [] [] 0 [] refl (λ more. refl)),
  )
