-- ===== src/Literals/Tests.antt =====
-- Runs and witnesses for literals and patterns.
use tortoise_orm_zh_cn.Base.{◌≡◌, ◌↔◌, refl, [], ◌∷◌, ◌++◌, some}
use tortoise_orm_zh_cn.Literals.{
  Text, quote, backslash, escape_str, escape_string, escape_char, contains_pattern,
}
use tortoise_orm_zh_cn.Literals.Escape.{read_literal, read-escape_str}
use tortoise_orm_zh_cn.Literals.Like.{Matches, contains_pattern-Matches}

-- `a' OR 1`, in which the quote must not end the literal
abbrev attack : Text
attack = b'a' ∷ quote ∷ b' ' ∷ b'O' ∷ b'R' ∷ b' ' ∷ b'1' ∷ []

abbrev half_off : Text
half_off = b'5' ∷ b'0' ∷ b'%' ∷ []

run_escape : escape_str (quote ∷ []) ≡ quote ∷ backslash ∷ quote ∷ quote ∷ []
unfolding escape_str escape_string escape_char
run_escape = refl

read-escape_str_example :
    (t : Text) × (escape_str attack ++ b')' ∷ [] ≡ quote ∷ t)
    × (read_literal t ≡ some (attack, b')' ∷ []))
read-escape_str_example = read-escape_str attack (b')' ∷ []) refl

contains_pattern-Matches_example :
    Matches (contains_pattern half_off) attack
    ↔ ((u : Text) × (t : Text) × (attack ≡ u ++ (half_off ++ t)))
contains_pattern-Matches_example = contains_pattern-Matches half_off attack
