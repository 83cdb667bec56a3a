-- ===== src/Base/Keys.antt =====
-- Keys with their equality, Python's `in` for lists of keys, and `dict` with such keys.
use mathlib.Core.Path.{◌≡◌, refl, ap}
use mathlib.Core.Logic.{◌↔◌, inl, inr}
use mathlib.Core.Bool.{Bool, true, false, ◌||◌}
use mathlib.Core.List.{List, [], ◌∷◌}
use mathlib.Core.Option.{Option, none, some}
use native.Mathlib.Omega.{arith}
use tortoise_orm_zh_cn.Base.Tests.{if◌then◌else◌, Bool-cases}

pub record Keys (K : Type 0) : Type 0 where
  pub same : K → K → Bool
  pub same_iff : (a b : K) → (same a b ≡ true) ↔ (a ≡ b)

module _ {K : Type 0} (keys : Keys K) where
  abbrev pub member : K → List K → Bool
  member k [] = false
  member k (j ∷ js) = keys.same k j || member k js

  -- d.get(k)
  abbrev pub at {ℓ} : {V : Type ℓ} → K → List (K × V) → Option V
  at k [] = none
  at k ((j, v) ∷ d) = if keys.same j k then some v else at k d

  -- d[k] = v
  abbrev pub put {ℓ} : {V : Type ℓ} → K → V → List (K × V) → List (K × V)
  put k v [] = (k, v) ∷ []
  put k v ((j, w) ∷ d) = if keys.same j k then (j, v) ∷ d else (j, w) ∷ put k v d

  -- The elements with this key, in their order
  abbrev pub with_key : {E : Type 0} → (E → K) → K → List E → List E
  with_key key k [] = []
  with_key key k (e ∷ es) =
      let rest = with_key key k es in if keys.same (key e) k then e ∷ rest else rest

  -- The elements with one of these keys, in their order
  abbrev pub with_keys : {E : Type 0} → (E → K) → List K → List E → List E
  with_keys key ks [] = []
  with_keys key ks (e ∷ es) =
      let rest = with_keys key ks es in if member (key e) ks then e ∷ rest else rest

  pub same_refl : (k : K) → keys.same k k ≡ true
  same_refl k = (keys.same_iff k k).1 refl

  pub same-left : (a b c : K) → keys.same a b ≡ true → keys.same a c ≡ keys.same b c
  same-left a b c h = ap (λ q. keys.same q c) ((keys.same_iff a b).0 h)

  pub same-right : (a b c : K) → keys.same a b ≡ true → keys.same c a ≡ keys.same c b
  same-right a b c h = ap (keys.same c) ((keys.same_iff a b).0 h)

  pub same_sym : (a b : K) → keys.same a b ≡ keys.same b a
  same_sym a b = elim (Bool-cases (keys.same a b)) [
    | inl h ↦ ground (arith, same-left a b a h, same-right a b a h)
    | inr h ↦ elim (Bool-cases (keys.same b a)) [
      | inl g ↦ ground (arith, same-left b a b g, same_refl b)
      | inr g ↦ ground arith
    ]
  ]

  pub member-same : (a b : K) (ks : List K) → keys.same a b ≡ true → member a ks ≡ member b ks
  member-same a b ks h = ap (λ q. member q ks) ((keys.same_iff a b).0 h)

  pub at-put {ℓ} :
      {V : Type ℓ} (k j : K) (v : V) (d : List (K × V))
      → at j (put k v d) ≡ (if keys.same k j then some v else at j d)
  at-put k j v [] = refl
  at-put k j v ((i, w) ∷ d) = elim (Bool-cases (keys.same i k)) [
    | inl e ↦ ground (arith, same-left i k j e)
    | inr e ↦ elim (Bool-cases (keys.same k j)) [
      | inl h ↦ ground (arith, at-put k j v d, same-right k j i h)
      | inr h ↦ ground (arith, at-put k j v d)
    ]
  ]

  -- Of the elements with one of some keys, those with a key that is one of them
  pub with_key-with_keys :
      {E : Type 0} (key : E → K) (k : K) (ks : List K) (es : List E)
      → member k ks ≡ true
      → with_key key k (with_keys key ks es) ≡ with_key key k es
  with_key-with_keys key k ks [] h = refl
  with_key-with_keys key k ks (e ∷ es) h = elim (Bool-cases (keys.same (key e) k)) [
    | inl g ↦ ground (arith, with_key-with_keys key k ks es h, member-same (key e) k ks g)
    | inr g ↦ ground (arith, with_key-with_keys key k ks es h)
  ]
