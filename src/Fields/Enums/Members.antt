-- ===== src/Fields/Enums/Members.antt =====
-- What the fields for enumerations of tortoise/fields/data.py do with the members.
use tortoise_orm_zh_cn.Base.{
  ℕ, ◌≡◌, refl, ap, sym, ◌↔◌, Bool, true, String, List, [], ◌∷◌, Option, none, some, suc, ltb,
  length, map, zero, if◌then◌else◌, All, arith, Bool-cases, inl, inr, ◌≤◌, ◌⊎◌,
}
use tortoise_orm_zh_cn.Base.Int.{ℤ, pos}
use tortoise_orm_zh_cn.Base.Keys.{Keys, same_refl, same-right}
use tortoise_orm_zh_cn.Base.Keys
use mathlib.Core.Path.{subst}
use tortoise_orm_zh_cn.Relations.ManyToMany.{AreDistinct}
use tortoise_orm_zh_cn.Base.Errors.{Result, ok}
use tortoise_orm_zh_cn.Fields.Data.{char_max_length}
use tortoise_orm_zh_cn.Fields.Enums.{
  Members, EnumValue, member, plain, in_small_range, check_int_members, longest, char_enum_length,
  find_in, int_enum_to_python, int_enum_to_db, char_enum_to_python, char_enum_to_db,
}

pub data EnumField : Type 0 where
  int_enum char_enum : EnumField

longest-more : {A : Type 0} (members : Members (List A)) (n : ℕ) → n ≤ longest members n
unfolding longest
longest-more [] n = omega arith
longest-more ((name, value) ∷ members) n =
    grind (arith, longest-more members (if ltb n (length value) then length value else n))

-- Every value is at most as long.
abbrev pub AtMost : {A : Type 0} → ℕ → Members (List A) → Type 0
AtMost n = All (λ m. length m.1 ≤ n)

longest-AtMost :
    {A : Type 0} (members : Members (List A)) (n : ℕ) → AtMost (longest members n) members
unfolding longest
longest-AtMost [] n = tt
longest-AtMost ((name, value) ∷ members) n = (
  ground (arith, longest-more members (if ltb n (length value) then length value else n)),
  longest-AtMost members (if ltb n (length value) then length value else n),
)

-- Some value is as long.
abbrev pub Reaches : {A : Type 0} → ℕ → Members (List A) → Type 0
Reaches n [] = ⊥
Reaches n ((name, value) ∷ members) = (length value ≡ n) ⊎ Reaches n members

longest-Reaches :
    {A : Type 0} (members : Members (List A)) (n : ℕ)
    → (longest members n ≡ n) ⊎ Reaches (longest members n) members
unfolding longest
longest-Reaches [] n = inl refl
longest-Reaches ((name, value) ∷ members) n = elim (Bool-cases (ltb n (length value))) [
  | inl e ↦
      let same : longest members (length value) ≡ longest ((name, value) ∷ members) n =
        ground arith in
      subst (λ r. (r ≡ n) ⊎ Reaches r ((name, value) ∷ members)) same
        (elim (longest-Reaches members (length value)) [
          | inl r ↦ inr (inl (sym r))
          | inr r ↦ inr (inr r)
        ])
  | inr e ↦
      let same : longest members n ≡ longest ((name, value) ∷ members) n = ground arith in
      subst (λ r. (r ≡ n) ⊎ Reaches r ((name, value) ∷ members)) same
        (elim (longest-Reaches members n) [ inl r ↦ inl r | inr r ↦ inr (inr r) ])
]

-- The length of a field for texts of an enumeration that is found from the members is at least 1, no
-- value of a member is longer, and one of them is as long.
pub char_enum_length-tight :
    {A : Type 0} (members : Members (List A)) (n : ℤ)
    → char_enum_length members 0 ≡ ok n
    → (k : ℕ) × (n ≡ pos (suc k)) × AtMost (suc k) members × Reaches (suc k) members
unfolding char_enum_length char_max_length
char_enum_length-tight members n h = go (longest members 0) refl
  where
    go :
        (r : ℕ)
        → longest members 0 ≡ r
        → (k : ℕ) × (n ≡ pos (suc k)) × AtMost (suc k) members × Reaches (suc k) members
    go zero e = absurd (ground arith)
    go (suc k) e = (
      k,
      ground arith,
      subst (λ r. AtMost r members) e (longest-AtMost members 0),
      elim (longest-Reaches members 0) [
        | inl r ↦ absurd (ground arith)
        | inr r ↦ subst (λ q. Reaches q members) e r
      ],
    )

-- The constructor of a field for numbers of an enumeration succeeds if and only if every value is a
-- whole number from -32768, or from 1 for a generated field, to 32767.
pub check_int_members-range :
    (generated : Bool) (members : Members (Option ℤ))
    → (check_int_members generated members ≡ ok tt)
      ↔ All
          (λ m. (value : ℤ) × (m.1 ≡ some value) × (in_small_range generated value ≡ true))
          members
unfolding check_int_members
check_int_members-range generated [] = (λ h. tt, λ h. refl)
check_int_members-range generated ((name, none) ∷ members) =
    (λ h. absurd (ground arith), λ h. absurd (ground arith))
check_int_members-range generated ((name, some value) ∷ members) =
    let (to, from) = check_int_members-range generated members in
    elim (Bool-cases (in_small_range generated value)) [
      | inl e ↦ rw e (λ h. ((value, refl, e), to h), λ h. from h.1)
      | inr e ↦ (λ h. absurd (ground arith), λ h. let (v, f, g) = h.0 in absurd (ground arith))
    ]

module _ {K : Type 0} (keys : Keys K) where
  -- A member of the enumeration
  abbrev pub Has : Members K → String → K → Type 0
  Has [] name value = ⊥
  Has ((n, v) ∷ members) name value = ((n ≡ name) × (v ≡ value)) ⊎ Has members name value

  abbrev pub values : Members K → List K
  values = map (λ m. m.1)

  Has-member :
      (members : Members K) (name : String) (value : K)
      → Has members name value
      → Keys.member keys value (values members) ≡ true
  Has-member [] name value h = absurd h
  Has-member ((n, v) ∷ members) name value (inl (a, b)) = ground (arith, same_refl keys value)
  Has-member ((n, v) ∷ members) name value (inr h) = ground (arith, Has-member members name value h)

  find_in-Has :
      (all members : Members K) (name : String) (value : K)
      → AreDistinct keys (values members)
      → Has members name value
      → find_in keys all members value ≡ ok (member name value)
  find_in-Has all [] name value h g = absurd g
  find_in-Has all ((n, v) ∷ members) name value (new, h) (inl (a, b)) =
      ground (arith, same_refl keys value)
  find_in-Has all ((n, v) ∷ members) name value (new, h) (inr g) =
      let there = Has-member members name value g in
      elim (Bool-cases (keys.same v value)) [
        | inl e ↦
            let same =
              ap (λ k. Keys.member keys k (values members)) ((keys.same_iff v value).0 e) in
            absurd (ground arith)
        | inr e ↦ rw e (find_in-Has all members name value h g)
      ]

  module _ (is_int is_str : K → Bool) (to_str : K → K) where
    -- The value is one that the field is for: a number, or a text, which `str` leaves as it is.
    abbrev pub IsOwn : EnumField → K → Type 0
    IsOwn int_enum value = is_int value ≡ true
    IsOwn char_enum value = to_str value ≡ value

    -- `to_db_value` and `to_python_value`, by the class of the field
    abbrev pub to_db :
        EnumField
        → Members K
        → (Option (EnumValue K) → Result (Unit {0}))
        → Option (EnumValue K)
        → Result (Option K)
    to_db int_enum members validate = int_enum_to_db keys members is_int validate
    to_db char_enum members validate = char_enum_to_db keys members is_str to_str validate

    abbrev pub to_python :
        EnumField
        → Members K
        → (Option (EnumValue K) → Result (Unit {0}))
        → Option K
        → Result (Option (EnumValue K))
    to_python int_enum members validate = int_enum_to_python keys members is_int validate
    to_python char_enum members validate = char_enum_to_python keys members is_str to_str validate

    -- A member of an enumeration whose values differ, and whose own value is a number for the field for
    -- numbers, or is left as it is by `str`, as texts are, for the field for texts, is stored as its
    -- value, and so is that value itself, and the value is read back as the member, where the field's
    -- validators accept both.
    pub enum_to_python-enum_to_db :
        (f : EnumField) (members : Members K) (validate : Option (EnumValue K) → Result (Unit {0}))
        (name : String) (value : K)
        → AreDistinct keys (values members)
        → Has members name value
        → IsOwn f value
        → validate (some (member name value)) ≡ ok tt
        → validate (some (plain value)) ≡ ok tt
        → (to_db f members validate (some (member name value)) ≡ ok (some value))
          × (to_db f members validate (some (plain value)) ≡ ok (some value))
          × (to_python f members validate (some value) ≡ ok (some (member name value)))
    unfolding int_enum_to_db int_enum_to_python char_enum_to_db char_enum_to_python
    enum_to_python-enum_to_db int_enum members validate name value once has own a b =
        let found = find_in-Has members members name value once has in
        (ground arith, ground arith, ground arith)
    enum_to_python-enum_to_db char_enum members validate name value once has own a b =
        let found = find_in-Has members members name value once has in
        (ground arith, ground arith, ground arith)
