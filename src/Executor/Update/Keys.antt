-- ===== src/Executor/Update/Keys.antt =====
-- The key of the statement cache tells lists of field names apart.
use Prim.Native.Char.{Char}
use text.Mathlib.TextLemmas.{cons-append, nil-append}
use tortoise_orm_zh_cn.Base.{
  ◌≡◌, refl, ap, sym, ◌∙◌, false, String, List, [], ◌∷◌, Option, none, some, All, if◌then◌else◌,
  ◌==◌,
}
use tortoise_orm_zh_cn.Executor.Update.{Table, join_names, cache_key, chosen}

-- A text that may be a field's name: not empty, and without a comma.
abbrev pub HasNoComma : String → Type 0
HasNoComma String.[] = Unit
HasNoComma (String.◌∷◌ c s) = ((String.◌∷◌ c String.[] == ",") ≡ false) × HasNoComma s

abbrev pub IsName : String → Type 0
IsName String.[] = ⊥
IsName (String.◌∷◌ c s) = HasNoComma (String.◌∷◌ c s)

abbrev to_head : Char → List String → List String
to_head c [] = String.◌∷◌ c String.[] ∷ []
to_head c (x ∷ xs) = String.◌∷◌ c x ∷ xs

-- The parts of a text between its commas
split_commas : String → List String
split_commas String.[] = "" ∷ []
split_commas (String.◌∷◌ c s) =
    let rest = split_commas s in if String.◌∷◌ c String.[] == "," then "" ∷ rest else to_head c rest

IsName-HasNoComma : (s : String) → IsName s → HasNoComma s
IsName-HasNoComma String.[] h = tt
IsName-HasNoComma (String.◌∷◌ c s) h = h

split_commas-name : (s : String) → HasNoComma s → split_commas s ≡ s ∷ []
unfolding split_commas
split_commas-name String.[] h = refl
split_commas-name (String.◌∷◌ c s) (n, h) = rw n (rw (split_commas-name s h))

split_commas-cons :
    (s t : String)
    → HasNoComma s
    → split_commas (Prim.Native.String.◌++◌ s (Prim.Native.String.◌++◌ "," t)) ≡ s ∷ split_commas t
unfolding split_commas
split_commas-cons String.[] t h = rw (nil-append, cons-append, nil-append)
split_commas-cons (String.◌∷◌ c s) t (n, h) = rw cons-append (rw n (rw (split_commas-cons s t h)))

split_commas-join_names :
    (name : String) (names : List String)
    → HasNoComma name
    → All IsName names
    → split_commas (join_names (name ∷ names)) ≡ name ∷ names
split_commas-join_names name [] h hs = split_commas-name name h
split_commas-join_names name (next ∷ names) h (h', hs) =
    split_commas-cons name (join_names (next ∷ names)) h
    ∙ ap (λ ns. name ∷ ns) (split_commas-join_names next names (IsName-HasNoComma next h') hs)

-- The fields of an update are names.
abbrev pub AreNames : Option (List String) → Type 0
AreNames none = Unit
AreNames (some fields) = All IsName fields

join_names-empty :
    (name : String) (names : List String)
    → All IsName (name ∷ names)
    → join_names (name ∷ names) ≡ ""
    → ⊥
join_names-empty name names (h, hs) e =
    let both : name ∷ names ≡ "" ∷ [] =
      sym (split_commas-join_names name names (IsName-HasNoComma name h) hs)
      ∙ ap split_commas e
      ∙ (unfold split_commas in refl) in
    let first : name ≡ "" = cc in rw first at h

-- Two updates have one key only if they choose the same fields.
pub cache_key-chosen :
    (table : Table) (f g : Option (List String))
    → AreNames f
    → AreNames g
    → cache_key f ≡ cache_key g
    → chosen table f ≡ chosen table g
cache_key-chosen table none none hf hg e = refl
cache_key-chosen table none (some []) hf hg e = refl
cache_key-chosen table (some []) none hf hg e = refl
cache_key-chosen table (some []) (some []) hf hg e = refl
cache_key-chosen table none (some (y ∷ ys)) hf hg e = absurd (join_names-empty y ys hg (sym e))
cache_key-chosen table (some []) (some (y ∷ ys)) hf hg e = absurd (join_names-empty y ys hg (sym e))
cache_key-chosen table (some (x ∷ xs)) none hf hg e = absurd (join_names-empty x xs hf e)
cache_key-chosen table (some (x ∷ xs)) (some []) hf hg e = absurd (join_names-empty x xs hf e)
cache_key-chosen table (some (x ∷ xs)) (some (y ∷ ys)) (hx, hxs) (hy, hys) e =
    sym (split_commas-join_names x xs (IsName-HasNoComma x hx) hxs)
    ∙ ap split_commas e
    ∙ split_commas-join_names y ys (IsName-HasNoComma y hy) hys
