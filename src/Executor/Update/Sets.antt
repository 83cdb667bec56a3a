-- ===== src/Executor/Update/Sets.antt =====
-- What the clauses of an update set, once their parameters have values.
use tortoise_orm_zh_cn.Base.{
  ◌≡◌, refl, ◌∙◌, String, List, [], ◌∷◌, ◌++◌, Option, none, some, arith, length, get_elem?,
  append_assoc,
}
use tortoise_orm_zh_cn.Executor.Update.{Source, parameter, computed}

-- What a column is set to in the end.
pub data Assigned (W T : Type 0) : Type 0 where
  value : W → Assigned W T
  term : T → Assigned W T

abbrev push : {A : Type 0} → Option A → Option (List A) → Option (List A)
push none r = none
push (some a) none = none
push (some a) (some more) = some (a ∷ more)

pub get_elem?-length :
    {W : Type 0} (xs : List W) (w : W) (ys : List W) → get_elem? (xs ++ w ∷ ys) (length xs) ≡ some w
get_elem?-length [] w ys = refl
get_elem?-length (x ∷ xs) w ys = get_elem?-length xs w ys

module _ {W T : Type 0} where
  abbrev pub bind_source : List W → Source T → Option (Assigned W T)
  bind_source values (parameter i) = elim (get_elem? values i) [
    | none ↦ none
    | some w ↦ some (value w)
  ]
  bind_source values (computed t) = some (term t)

  abbrev named : String → Option (Assigned W T) → Option (String × Assigned W T)
  named column none = none
  named column (some a) = some (column, a)

  -- What the clauses of a statement set, with these values; `none` if a parameter has no value.
  abbrev pub bind_sets : List W → List (String × Source T) → Option (List (String × Assigned W T))
  bind_sets values [] = some []
  bind_sets values ((column, source) ∷ sets) =
      push (named column (bind_source values source)) (bind_sets values sets)

  abbrev joined :
      Option (List (String × Assigned W T))
      → Option (List (String × Assigned W T))
      → Option (List (String × Assigned W T))
  joined none b = none
  joined (some xs) none = none
  joined (some xs) (some ys) = some (xs ++ ys)

  bind_sets-append :
      (values : List W) (s t : List (String × Source T))
      → bind_sets values (s ++ t) ≡ joined (bind_sets values s) (bind_sets values t)
  bind_sets-append values [] t = ground arith
  bind_sets-append values ((c, source) ∷ s) t = rw (bind_sets-append values s t) (ground arith)

  -- The clauses set this, whatever values follow.
  abbrev pub Sets : List W → List (String × Source T) → List (String × Assigned W T) → Type 0
  Sets values sets out = (more : List W) → bind_sets (values ++ more) sets ≡ some out

  pub Sets-parameter :
      (values : List W) (sets : List (String × Source T)) (out : List (String × Assigned W T))
      (column : String) (w : W)
      → Sets values sets out
      → Sets
          (values ++ w ∷ [])
          (sets ++ (column, parameter (length values)) ∷ [])
          (out ++ (column, value w) ∷ [])
  Sets-parameter values sets out column w h more = rw append_assoc (
      bind_sets-append (values ++ w ∷ more) sets ((column, parameter (length values)) ∷ [])
      ∙ rw (h (w ∷ more)) (rw (joined, bind_sets, get_elem?-length values w more)))

  pub Sets-computed :
      (values : List W) (sets : List (String × Source T)) (out : List (String × Assigned W T))
      (column : String) (t : T)
      → Sets values sets out
      → Sets values (sets ++ (column, computed t) ∷ []) (out ++ (column, term t) ∷ [])
  Sets-computed values sets out column t h more =
      bind_sets-append (values ++ more) sets ((column, computed t) ∷ []) ∙ rw (h more)
