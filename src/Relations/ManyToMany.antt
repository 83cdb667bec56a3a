-- ===== src/Relations/ManyToMany.antt =====
-- `ManyToManyRelation` of tortoise/fields/relational.py: `add`, `remove`, `clear` and
-- `_remove_or_clear`. The database with the through table, and the conversion of keys
-- (`to_db_value`), are arguments; `Through` says what the code relies on.
pub mod Added
pub mod Removed
mod Tests
use tortoise_orm_zh_cn.Base.{
  ◌≡◌, ◌↔◌, Bool, true, false, not, ◌&&◌, ◌||◌, List, [], ◌∷◌, map, if◌then◌else◌, All,
}
use tortoise_orm_zh_cn.Base.Keys.{Keys, member}
use tortoise_orm_zh_cn.Base.Errors.{Result, ok, err, ◌>>=◌, operational_error}

-- A condition on the forward key: `==` or `.isin(…)`
pub data Forward (K : Type 0) : Type 0 where
  equals : K → Forward K
  isin : List K → Forward K

module _ {K : Type 0} (keys : Keys K) where
  abbrev pub matches : Forward K → K → Bool
  matches (equals j) k = keys.same k j
  matches (isin js) k = member keys k js

  -- No key occurs twice.
  abbrev pub AreDistinct : List K → Type 0
  AreDistinct [] = Unit
  AreDistinct (k ∷ ks) = (member keys k ks ≡ false) × AreDistinct ks

  -- `set(ks) - others`
  abbrev pub difference : List K → List K → List K
  difference [] others = []
  difference (k ∷ ks) others =
      let rest = difference ks others in
      if member keys k others || member keys k ks then rest else k ∷ rest

-- A through table `T`, whose forward keys are read as values `R`. The statements are the select of
-- `add`, its insert, and the delete of `_remove_or_clear`, for the rows of one backward key.
pub record Through {K : Type 0} (keys : Keys K) (R T : Type 0) : Type 1 where
  pub holds : T → K → K → Bool
  pub format : R → K
  pub select : K → Forward K → T → Result (List R)
  pub insert_rows : K → List K → T → Result T
  pub delete_rows : K → T → Result T
  pub delete_some : K → Forward K → T → Result T
  pub select_lem :
      (b : K) (c : Forward K) (t : T)
      → (rs : List R) × (select b c t ≡ ok rs)
        × ((f : K) → member keys f (map format rs) ≡ (holds t b f && matches keys c f))
  pub insert_lem :
      (b : K) (fs : List K) (t : T)
      → AreDistinct keys fs
      → All (λ f. holds t b f ≡ false) fs
      → (t' : T) × (insert_rows b fs t ≡ ok t')
        × ((b' f : K) → holds t' b' f ≡ (holds t b' f || keys.same b' b && member keys f fs))
  pub delete_lem :
      (b : K) (t : T)
      → (t' : T) × (delete_rows b t ≡ ok t')
        × ((b' f : K) → holds t' b' f ≡ (holds t b' f && not (keys.same b' b)))
  pub delete_some_lem :
      (b : K) (c : Forward K) (t : T)
      → (t' : T) × (delete_some b c t ≡ ok t')
        × ((b' f : K) → holds t' b' f ≡ (holds t b' f && not (keys.same b' b && matches keys c f)))

-- An object: its key, and `_saved_in_db`
pub record Instance (P : Type 0) : Type 0 where
  pub pk : P
  pub saved_in_db : Bool

module _ {K R T P Q : Type 0} {keys : Keys K} (through : Through keys R T)
    (pk_format : P → Result K) (related_pk_format : Q → Result K) where
  -- The loop of `add` over the objects
  unfoldable pub pks_to_add : List (Instance Q) → Result (List K)
  pks_to_add [] = ok []
  pks_to_add (i ∷ is) =
      let rest = pks_to_add is in
      if i.saved_in_db
      then (do pk_f ← related_pk_format i.pk; pks_f ← rest; ok (pk_f ∷ pks_f))
      else err operational_error

  -- `forward_field == pks_f[0] if len(pks_f) == 1 else forward_field.isin(pks_f)`
  abbrev pub forward_condition : List K → Forward K
  forward_condition (k ∷ []) = equals k
  forward_condition ks = isin ks

  unfoldable pub insert_missing : K → List K → T → Result T
  insert_missing b [] t = ok t
  insert_missing b (f ∷ fs) t = through.insert_rows b (f ∷ fs) t

  unfoldable pub add : Instance P → List (Instance Q) → T → Result T
  add self [] t = ok t
  add self (i ∷ is) t =
      if self.saved_in_db
      then (do
        pk_b ← pk_format self.pk
        pks_f ← pks_to_add (i ∷ is)
        existing ← through.select pk_b (forward_condition pks_f) t
        insert_missing pk_b (difference keys pks_f (map through.format existing)) t)
      else err operational_error

  -- `[related_pk_formatting_func(i.pk, i) for i in instances]`
  unfoldable pub pks_of : List (Instance Q) → Result (List K)
  pks_of [] = ok []
  pks_of (i ∷ is) = do pk_f ← related_pk_format i.pk; pks_f ← pks_of is; ok (pk_f ∷ pks_f)

  unfoldable pub remove_or_clear : Instance P → List (Instance Q) → T → Result T
  remove_or_clear self [] t = do pk_b ← pk_format self.pk; through.delete_rows pk_b t
  remove_or_clear self (i ∷ is) t = do
    pk_b ← pk_format self.pk
    pks_f ← pks_of (i ∷ is)
    through.delete_some pk_b (forward_condition pks_f) t

  unfoldable pub clear : Instance P → T → Result T
  clear self t = remove_or_clear self [] t

  unfoldable pub remove : Instance P → List (Instance Q) → T → Result T
  remove self [] t = err operational_error
  remove self (i ∷ is) t = remove_or_clear self (i ∷ is) t
