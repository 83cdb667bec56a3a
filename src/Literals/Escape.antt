-- ===== src/Literals/Escape.antt =====
-- `escape_str` writes a literal that is read back as the text, and that the text cannot end early.
use tortoise_orm_zh_cn.Base.{
  ℕ, ◌≡◌, ◌≢◌, refl, ap, ◌∙◌, true, false, [], ◌∷◌, ◌++◌, Option, none, some, eqb, if◌then◌else◌,
  Bool, ◌||◌, arith, append_assoc, Option-cases, inl, inr,
}
use tortoise_orm_zh_cn.Literals.{Text, backslash, quote, escape_char, escape_string, escape_str}

-- What MySQL's manual says that a character after a backslash stands for.
abbrev pub escaped_char : ℕ → ℕ
escaped_char c =
    if eqb c b'0'
    then 0
    else if eqb c b'n'
    then 10
    else if eqb c b'r'
    then 13
    else if eqb c b'Z'
    then 26
    else if eqb c b't'
    then 9
    else if eqb c b'b'
    then 8
    else c

abbrev read_char : ℕ → Option (Text × Text) → Option (Text × Text)
read_char c none = none
read_char c (some (t, rest)) = some (c ∷ t, rest)

-- What a backslash and the character after it are read as: `\%` and `\_` stand for themselves, both
-- characters, everything else for one character.
abbrev read_escaped : ℕ → Option (Text × Text) → Option (Text × Text)
read_escaped d r =
    if eqb d b'%' || eqb d b'_'
    then read_char backslash (read_char d r)
    else read_char (escaped_char d) r

-- Whether SQL that follows a literal would go on with it
abbrev pub begins_with_quote : Text → Bool
begins_with_quote [] = false
begins_with_quote (c ∷ s) = eqb c quote

-- How a literal is read, after its first quote: up to the first quote that is neither escaped by a
-- backslash nor doubled, where two quotes stand for one. The result is the text and what follows the
-- literal.
unfoldable pub read_literal : Text → Option (Text × Text)
read_literal [] = none
read_literal (c ∷ []) = if eqb c quote then some ([], []) else none
read_literal (c ∷ d ∷ s) = elim (eqb c quote) [
  | true ↦ elim (eqb d quote) [ true ↦ read_char quote (read_literal s) | false ↦ some ([], d ∷ s) ]
  | false ↦ elim (eqb c backslash) [
    | true ↦ read_escaped d (read_literal s)
    | false ↦ read_char c (read_literal (d ∷ s))
  ]
]

read_literal-plain :
    (c d : ℕ) (s : Text)
    → eqb c quote ≡ false
    → eqb c backslash ≡ false
    → read_literal (c ∷ d ∷ s) ≡ read_char c (read_literal (d ∷ s))
unfolding read_literal
read_literal-plain c d s h k = rw (read_literal, h, k)

read_literal-backslash :
    (d : ℕ) (s : Text) → read_literal (backslash ∷ d ∷ s) ≡ read_escaped d (read_literal s)
unfolding read_literal
read_literal-backslash d s = refl

-- The letter that stands after a backslash for a character, if one does.
letter : ℕ → Option ℕ
letter c =
    if eqb c 0
    then some b'0'
    else if eqb c backslash
    then some backslash
    else if eqb c 10
    then some b'n'
    else if eqb c 13
    then some b'r'
    else if eqb c 26
    then some b'Z'
    else if eqb c 34
    then some 34
    else if eqb c quote
    then some quote
    else none

abbrev spelled : ℕ → Option ℕ → Text
spelled c none = c ∷ []
spelled c (some d) = backslash ∷ d ∷ []

escape_char-letter : (c : ℕ) → escape_char c ≡ spelled c (letter c)
unfolding escape_char letter
escape_char-letter c = ground arith

letter-some :
    (c d : ℕ) (r : Option (Text × Text)) → letter c ≡ some d → read_escaped d r ≡ read_char c r
unfolding letter
letter-some c d r h =
    let plain : (eqb d b'%' || eqb d b'_') ≡ false = ground arith in
    let stands_for : escaped_char d ≡ c = ground arith in
    rw plain (ap (λ x. read_char x r) stands_for)

letter-none : (c : ℕ) → letter c ≡ none → (eqb c quote ≡ false) × (eqb c backslash ≡ false)
unfolding letter
letter-none c h = ground arith

append-ne-nil : (x : Text) (c : ℕ) (r : Text) → x ++ c ∷ r ≢ []
append-ne-nil [] c r h = cc
append-ne-nil (d ∷ x) c r h = cc

-- Read after what stands for a character, a literal begins with that character.
read-escape_char :
    (c : ℕ) (s : Text) → s ≢ [] → read_literal (escape_char c ++ s) ≡ read_char c (read_literal s)
read-escape_char c [] h = absurd (h refl)
read-escape_char c (d ∷ s) h = elim (Option-cases (letter c)) [
  | inl e ↦
      let (q, b) = letter-none c e in rw (escape_char-letter, e) (read_literal-plain c d s q b)
  | inr (l, e) ↦
      rw (escape_char-letter, e)
        (read_literal-backslash l (d ∷ s) ∙ letter-some c l (read_literal (d ∷ s)) e)
]

read_literal-end :
    (rest : Text) → begins_with_quote rest ≡ false → read_literal (quote ∷ rest) ≡ some ([], rest)
unfolding read_literal
read_literal-end [] h = refl
read_literal-end (d ∷ s) h = rw (read_literal, h) refl

read-escape_string :
    (s rest : Text)
    → begins_with_quote rest ≡ false
    → read_literal (escape_string s ++ quote ∷ rest) ≡ some (s, rest)
unfolding escape_string
read-escape_string [] rest h = read_literal-end rest h
read-escape_string (c ∷ s) rest h =
    rw (append_assoc (escape_char c) (escape_string s) (quote ∷ rest)) (
      read-escape_char c _ (append-ne-nil (escape_string s) quote rest)
      ∙ ap (read_char c) (read-escape_string s rest h))

-- The literal that `escape_str` writes begins with a quote, and whatever SQL follows it that does not
-- itself begin with a quote, reading it by MySQL's rules gives back the text and that SQL: no text
-- ends its literal early or swallows what follows.
pub read-escape_str :
    (s rest : Text)
    → begins_with_quote rest ≡ false
    → (t : Text) × (escape_str s ++ rest ≡ quote ∷ t) × (read_literal t ≡ some (s, rest))
unfolding escape_str
read-escape_str s rest h =
    (escape_string s ++ quote ∷ rest, rw append_assoc, read-escape_string s rest h)
