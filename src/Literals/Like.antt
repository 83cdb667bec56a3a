-- ===== src/Literals/Like.antt =====
-- The patterns of `contains`, `startswith` and `endswith` match just the texts that they are for,
-- whatever characters the value holds.
use tortoise_orm_zh_cn.Base.{
  ℕ, ◌≡◌, ◌↔◌, refl, ap, sym, ◌∙◌, true, false, [], ◌∷◌, ◌++◌, eqb, arith, append_assoc, append-nil,
  ◌⊎◌, inl, inr, if◌then◌else◌,
}
use tortoise_orm_zh_cn.Literals.{
  Text, backslash, replace_char, escape_like, contains_pattern, starts_with_pattern,
  ends_with_pattern,
}

abbrev percent : ℕ
percent = b'%'

abbrev underscore : ℕ
underscore = b'_'

-- `s LIKE p ESCAPE '\'`: `%` is any text, `_` any character, and a character after a backslash is
-- itself. A backslash at the end of a pattern matches nothing.
abbrev pub Matches : Text → Text → Type 0
Matches [] s = s ≡ []
Matches (c ∷ []) s = elim (eqb c percent) [
  | true ↦ Unit
  | false ↦ elim (eqb c underscore) [
    | true ↦ (d : ℕ) × (s ≡ d ∷ [])
    | false ↦ elim (eqb c backslash) [ true ↦ ⊥ | false ↦ s ≡ c ∷ [] ]
  ]
]
Matches (c ∷ d ∷ p) s = elim (eqb c percent) [
  | true ↦ (u : Text) × (t : Text) × (s ≡ u ++ t) × Matches (d ∷ p) t
  | false ↦ elim (eqb c underscore) [
    | true ↦ (e : ℕ) × (t : Text) × (s ≡ e ∷ t) × Matches (d ∷ p) t
    | false ↦ elim (eqb c backslash) [
      | true ↦ (t : Text) × (s ≡ d ∷ t) × Matches p t
      | false ↦ (t : Text) × (s ≡ c ∷ t) × Matches (d ∷ p) t
    ]
  ]
]

-- What `escape_like` writes for one character.
like_char : ℕ → Text
like_char c =
    if eqb c backslash
    then backslash ∷ c ∷ []
    else if eqb c percent
    then backslash ∷ c ∷ []
    else if eqb c underscore
    then backslash ∷ c ∷ []
    else c ∷ []

-- The three passes of `escape_like` are one.
escape_like-cons : (c : ℕ) (v : Text) → escape_like (c ∷ v) ≡ like_char c ++ escape_like v
unfolding escape_like replace_char like_char
escape_like-cons c v = ground arith

like_char-cases :
    (c : ℕ)
    → (like_char c ≡ backslash ∷ c ∷ [])
      ⊎ ((like_char c ≡ c ∷ [])
          × (eqb c percent ≡ false)
          × (eqb c underscore ≡ false)
          × (eqb c backslash ≡ false))
unfolding like_char
like_char-cases c = ground arith

-- A text that begins with a character that is matched, and goes on as the pattern does.
abbrev Then : ℕ → Text → Text → Type 0
Then c p s = (t : Text) × (s ≡ c ∷ t) × Matches p t

Matches-plain :
    (c : ℕ) (p s : Text)
    → eqb c percent ≡ false
    → eqb c underscore ≡ false
    → eqb c backslash ≡ false
    → Matches (c ∷ p) s ↔ Then c p s
Matches-plain c [] s hp hu hb =
    rw (hp, hu, hb, Matches) (λ h. ([], h, refl), λ h. h.1 ∙ ap (λ t. c ∷ t) h.2)
Matches-plain c (d ∷ p) s hp hu hb = rw (hp, hu, hb, Matches) (λ h. h, λ h. h)

-- A character of the value matches itself, whatever pattern follows.
Matches-like_char : (c : ℕ) (p s : Text) → Matches (like_char c ++ p) s ↔ Then c p s
Matches-like_char c p s = elim (like_char-cases c) [
  | inl e ↦ rw e (λ h. h, λ h. h)
  | inr (e, hp, hu, hb) ↦ rw e (Matches-plain c p s hp hu hb)
]

Matches-percent :
    (p s : Text) → Matches (percent ∷ p) s ↔ ((u : Text) × (t : Text) × (s ≡ u ++ t) × Matches p t)
Matches-percent [] s = (λ h. (s, [], sym (append-nil s), refl), λ h. tt)
Matches-percent (d ∷ p) s = (λ h. h, λ h. h)

-- The value, and then the pattern that follows it.
Matches-escape_like :
    (v p s : Text) → Matches (escape_like v ++ p) s ↔ ((t : Text) × (s ≡ v ++ t) × Matches p t)
Matches-escape_like [] p s =
    unfold escape_like in unfold replace_char in (λ h. (s, refl, h), λ h. rw h.1 h.2)
Matches-escape_like (c ∷ v) p s =
    rw (escape_like-cons, append_assoc (like_char c) (escape_like v) p)
      (
        λ h.
            let (t, e, m) = (Matches-like_char c (escape_like v ++ p) s).0 h in
            let (u, e', m') = (Matches-escape_like v p t).0 m in (u, e ∙ ap (λ x. c ∷ x) e', m'),
        λ h.
            let (t, e, m) = h in
            (Matches-like_char c (escape_like v ++ p) s).1
              (v ++ t, e, (Matches-escape_like v p (v ++ t)).1 (t, refl, m)),
      )

Matches-exact : (v s : Text) → Matches (escape_like v) s ↔ (s ≡ v)
Matches-exact v s = (
  λ h. let (t, e, e') = (Matches-escape_like v [] s).0 (rw append-nil h) in rw (e, e', append-nil),
  λ h. rw append-nil at (Matches-escape_like v [] s).1 ([], h ∙ sym (append-nil v), refl),
)

-- `startswith` matches exactly the texts that begin with the value.
starts_with_pattern-Matches :
    (v s : Text) → Matches (starts_with_pattern v) s ↔ ((t : Text) × (s ≡ v ++ t))
unfolding starts_with_pattern
starts_with_pattern-Matches v s = (
  λ h. let (t, e, m) = (Matches-escape_like v (percent ∷ []) s).0 h in (t, e),
  λ h. (Matches-escape_like v (percent ∷ []) s).1 (h.0, h.1, tt),
)

-- `endswith` matches exactly the texts that end with the value.
ends_with_pattern-Matches :
    (v s : Text) → Matches (ends_with_pattern v) s ↔ ((u : Text) × (s ≡ u ++ v))
unfolding ends_with_pattern
ends_with_pattern-Matches v s = (
  λ h.
      let (u, t, e, m) = (Matches-percent (escape_like v) s).0 h in
      (u, e ∙ ap (λ x. u ++ x) ((Matches-exact v t).0 m)),
  λ h. (Matches-percent (escape_like v) s).1 (h.0, v, h.1, (Matches-exact v v).1 refl),
)

-- `contains` matches exactly the texts that hold the value somewhere.
pub contains_pattern-Matches :
    (v s : Text) → Matches (contains_pattern v) s ↔ ((u : Text) × (t : Text) × (s ≡ u ++ (v ++ t)))
unfolding contains_pattern
contains_pattern-Matches v s = (
  λ h.
      let (u, w, e, m) = (Matches-percent (escape_like v ++ percent ∷ []) s).0 h in
      let (t, e', m') = (Matches-escape_like v (percent ∷ []) w).0 m in
      (u, t, e ∙ ap (λ x. u ++ x) e'),
  λ h.
      let (u, t, e) = h in
      (Matches-percent (escape_like v ++ percent ∷ []) s).1
        (u, v ++ t, e, (Matches-escape_like v (percent ∷ []) (v ++ t)).1 (t, refl, tt)),
)
