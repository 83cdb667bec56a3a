-- ===== src/Literals.antt =====
-- Text in SQL: tortoise/converters.py, which writes string literals, and `escape_like` and the
-- `LIKE` filters of tortoise/filters.py. A text is the list of its code points.
pub mod Escape
pub mod Like
mod Tests
use tortoise_orm_zh_cn.Base.{
  ℕ, ◌+◌, ◌*◌, ◌/◌, ◌%◌, Bool, true, false, List, [], ◌∷◌, ◌++◌, eqb, ltb, if◌then◌else◌,
}

abbrev pub Text : Type 0
Text = List ℕ

abbrev pub backslash : ℕ
backslash = 92

abbrev pub quote : ℕ
quote = 39

-- `_escape_table`: what stands for a character. Those beyond the table's 128 entries are kept by
-- `str.translate`, as are those whose entry is the character itself.
unfoldable pub escape_char : ℕ → Text
escape_char c =
    if eqb c 0
    then backslash ∷ b'0' ∷ []
    else if eqb c backslash
    then backslash ∷ backslash ∷ []
    else if eqb c 10
    then backslash ∷ b'n' ∷ []
    else if eqb c 13
    then backslash ∷ b'r' ∷ []
    else if eqb c 26
    then backslash ∷ b'Z' ∷ []
    else if eqb c 34
    then backslash ∷ 34 ∷ []
    else if eqb c quote
    then backslash ∷ quote ∷ []
    else c ∷ []

-- `_escape_unicode`, which is `escape_string`: `value.translate(_escape_table)`
unfoldable pub escape_string : Text → Text
escape_string [] = []
escape_string (c ∷ s) = escape_char c ++ escape_string s

-- `escape_str`: `"'%s'" % escape_string(value)`
unfoldable pub escape_str : Text → Text
escape_str s = quote ∷ (escape_string s ++ quote ∷ [])

-- `s.replace(old, new)` for an `old` of one character
unfoldable pub replace_char : ℕ → Text → Text → Text
replace_char old new [] = []
replace_char old new (c ∷ s) = (if eqb c old then new else c ∷ []) ++ replace_char old new s

-- `escape_like`
unfoldable pub escape_like : Text → Text
unfolding replace_char
escape_like val = replace_char b'_' (backslash ∷ b'_' ∷ []) (
    replace_char b'%' (backslash ∷ b'%' ∷ [])
      (replace_char backslash (backslash ∷ backslash ∷ []) val))

-- The patterns of `contains`, `starts_with` and `ends_with`
unfoldable pub contains_pattern : Text → Text
contains_pattern value = b'%' ∷ (escape_like value ++ b'%' ∷ [])

unfoldable pub starts_with_pattern : Text → Text
starts_with_pattern value = escape_like value ++ b'%' ∷ []

unfoldable pub ends_with_pattern : Text → Text
ends_with_pattern value = b'%' ∷ escape_like value
