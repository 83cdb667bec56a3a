-- ===== src/Fields/Enums/Tests.antt =====
-- Runs and witnesses for the fields for enumerations. A text is the list of its code points.
use tortoise_orm_zh_cn.Base.{
  ℕ, ◌≡◌, ◌↔◌, refl, true, false, List, [], ◌∷◌, Option, some, eqb, eqb_iff, suc, All, inl, inr,
  String, ◌==◌, eq_iff,
}
use tortoise_orm_zh_cn.Base.Int.{ℤ, pos, negsuc}
use tortoise_orm_zh_cn.Base.Keys.{Keys}
use tortoise_orm_zh_cn.Base.Errors.{Result, ok, err, ◌>>=◌, configuration_error, value_error}
use tortoise_orm_zh_cn.Fields.Data.{char_max_length}
use tortoise_orm_zh_cn.Fields.Enums.{
  Members, EnumValue, member, plain, in_small_range, check_int_members, longest, char_enum_length,
  int_enum_to_db, int_enum_to_python, char_enum_to_db, char_enum_to_python,
}
use tortoise_orm_zh_cn.Fields.Enums.Members.{
  AtMost, Reaches, char_enum_length-tight, check_int_members-range, enum_to_python-enum_to_db,
  char_enum,
}

abbrev words : Members (List ℕ)
words = ("A", 1 ∷ []) ∷ ("B", 1 ∷ 2 ∷ 3 ∷ []) ∷ []

abbrev levels : Members (Option ℤ)
levels = ("LOW", some (negsuc 32767)) ∷ ("HIGH", some (pos 32767)) ∷ []

abbrev colours : Members ℕ
colours = ("RED", 1) ∷ ("BLUE", 2) ∷ []

abbrev numbers : Keys ℕ
numbers = record { same = eqb; same_iff = eqb_iff }

abbrev accept : Option (EnumValue ℕ) → Result (Unit {0})
accept value = ok tt

run_unknown : int_enum_to_python numbers colours (λ v. true) accept (some 3) ≡ err value_error
unfolding int_enum_to_python
run_unknown = refl

abbrev no_words : Members (List ℕ)
no_words = ("A", []) ∷ ("B", []) ∷ []

-- An enumeration of empty texts has no length.
run_empty : char_enum_length no_words 0 ≡ err configuration_error
unfolding char_enum_length longest char_max_length
run_empty = refl

char_enum_length-tight_example :
    (k : ℕ) × (pos 3 ≡ pos (suc k)) × AtMost (suc k) words × Reaches (suc k) words
unfolding char_enum_length longest char_max_length
char_enum_length-tight_example = char_enum_length-tight words (pos 3) refl

check_int_members-range_example :
    (check_int_members false levels ≡ ok tt)
    ↔ All (λ m. (value : ℤ) × (m.1 ≡ some value) × (in_small_range false value ≡ true)) levels
check_int_members-range_example = check_int_members-range false levels

-- The same for texts
abbrev texts : Keys String
texts = record { same = ◌==◌; same_iff = eq_iff }

abbrev shades : Members String
shades = ("RED", "r") ∷ ("BLUE", "b") ∷ []

abbrev accept_text : Option (EnumValue String) → Result (Unit {0})
accept_text value = ok tt

-- A value that `str` changes is not found again: `mark` stands for the `str` of what is no text.
abbrev mark : String → String
mark value = Prim.Native.String.◌++◌ "b" value

run_other_values :
    (char_enum_to_db texts shades (λ v. false) mark accept_text (some (member "RED" "r"))
      >>= char_enum_to_python texts shades (λ v. false) mark accept_text)
    ≡ err value_error
unfolding char_enum_to_db char_enum_to_python
run_other_values = refl

run_number :
    (int_enum_to_db numbers colours (λ v. true) accept (some (member "BLUE" 2))
      >>= int_enum_to_python numbers colours (λ v. true) accept)
    ≡ ok (some (member "BLUE" 2))
unfolding int_enum_to_db int_enum_to_python
run_number = refl

enum_to_python-enum_to_db_example :
    (char_enum_to_db texts shades (λ v. true) (λ v. v) accept_text (some (member "BLUE" "b"))
      ≡ ok (some "b"))
    × (char_enum_to_db texts shades (λ v. true) (λ v. v) accept_text (some (plain "b"))
        ≡ ok (some "b"))
    × (char_enum_to_python texts shades (λ v. true) (λ v. v) accept_text (some "b")
        ≡ ok (some (member "BLUE" "b")))
enum_to_python-enum_to_db_example =
    enum_to_python-enum_to_db texts (λ v. false) (λ v. true) (λ v. v) char_enum shades accept_text
      "BLUE" "b" (refl, (refl, tt)) (inr (inl (refl, refl))) refl refl refl
