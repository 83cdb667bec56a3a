-- ===== src/Executor/Insert/Chunks.antt =====
-- The chunks of a bulk insert are the list, cut into pieces of the batch size.
use tortoise_orm_zh_cn.Base.{
  ℕ, zero, suc, ◌≤◌, ◌≡◌, refl, ap, ◌∙◌, List, [], ◌∷◌, ◌++◌, Option, none, some, All, length, take,
  drop, take-append-drop, length-take, length-drop, arith, append-nil,
}
use tortoise_orm_zh_cn.Executor.Insert.{batches, chunk}

abbrev pub concat : {A : Type 0} → List (List A) → List A
concat [] = []
concat (xs ∷ xss) = xs ++ concat xss

-- A chunk is not too long.
abbrev pub Fits : {A : Type 0} → Option ℕ → List A → Type 0
Fits none xs = Unit
Fits (some zero) xs = Unit
Fits (some (suc n)) xs = length xs ≤ suc n

batches-concat :
    {A : Type 0} (fuel n : ℕ) (xs : List A)
    → length xs ≤ fuel
    → (concat (batches fuel (suc n) xs) ≡ xs) × All (Fits (some (suc n))) (batches fuel (suc n) xs)
unfolding batches
batches-concat zero n [] h = (refl, tt)
batches-concat zero n (x ∷ xs) h = absurd (omega arith)
batches-concat (suc fuel) n [] h = (refl, tt)
batches-concat (suc fuel) n (x ∷ xs) h =
    let (whole, fits) = batches-concat fuel n (drop n xs) (omega (arith, length-drop n xs)) in
    (
      ap (λ ys. x ∷ (take n xs ++ ys)) whole ∙ ap (λ ys. x ∷ ys) (take-append-drop n xs),
      (omega (arith, length-take n xs), fits),
    )

-- Nothing is lost, repeated or moved, and no chunk is longer than the batch size.
pub chunk-concat :
    {A : Type 0} (batch_size : Option ℕ) (xs : List A)
    → (concat (chunk batch_size xs) ≡ xs) × All (Fits batch_size) (chunk batch_size xs)
unfolding chunk
chunk-concat none xs = (append-nil xs, (tt, tt))
chunk-concat (some zero) xs = (append-nil xs, (tt, tt))
chunk-concat (some (suc n)) xs = batches-concat (length xs) n xs (omega arith)
