-- ===== src/Common/Strings.antt =====
-- More `str` operations that the source uses: splitting, stripping, slicing and searching.
use Prim.Native.Nat.{ℕ, zero, suc, pred}
use mathlib.Core.Bool.{Bool, true, false, ◌&&◌, ◌||◌}
use mathlib.Core.List.{List, [], ◌∷◌, ◌++◌, reverse}
use mathlib.Core.Option.{Option, none, some}
use sih_ulpf.Common.Tests.{◌==◌, ltb, if◌then◌else◌}
use sih_ulpf.Common.Lists.{drop, length}
use sih_ulpf.Common.Text.{Text, starts_with}

-- one more character before the first of the parts
abbrev onto : ℕ → List Text → List Text
onto c [] = (c ∷ []) ∷ []
onto c (w ∷ ws) = (c ∷ w) ∷ ws

-- `s.split(c)` at one character
unfoldable pub split_on : ℕ → Text → List Text
split_on c [] = [] ∷ []
split_on c (a ∷ s) = let rest = split_on c s in if a == c then [] ∷ rest else onto a rest

-- `s.split(c, 1)` of a text that has the character, and `none` of another
unfoldable pub split_once : ℕ → Text → Option (Text × Text)
split_once c [] = none
split_once c (a ∷ s) =
    let rest = split_once c s in
    if a == c
    then some ([], s)
    else elim rest as (λ _. Option (Text × Text)) [ none ↦ none | some p ↦ some (a ∷ p.0, p.1) ]

-- the text behind the characters of which `p` holds: `s.lstrip()`
unfoldable pub drop_while : (ℕ → Bool) → Text → Text
drop_while p [] = []
drop_while p (c ∷ s) = let rest = drop_while p s in if p c then rest else c ∷ s

-- `s.rstrip()`
abbrev pub drop_last_while : (ℕ → Bool) → Text → Text
drop_last_while p s = reverse (drop_while p (reverse s))

-- `s.strip()`, of the characters of which `p` holds
abbrev pub strip : (ℕ → Bool) → Text → Text
strip p s = drop_last_while p (drop_while p s)

-- `s.endswith(p)`
abbrev pub ends_with : Text → Text → Bool
ends_with s p = starts_with (reverse s) (reverse p)

-- `s.endswith(ps)` of a tuple
abbrev pub ends_with_any : Text → List Text → Bool
ends_with_any s [] = false
ends_with_any s (p ∷ ps) = ends_with s p || ends_with_any s ps

abbrev pub starts_with_any : Text → List Text → Bool
starts_with_any s [] = false
starts_with_any s (p ∷ ps) = starts_with s p || starts_with_any s ps

-- `s.removeprefix(p)`
abbrev pub remove_prefix : Text → Text → Text
remove_prefix s p = if starts_with s p then drop (length p) s else s

-- `s.find(p)`, for a text that holds it
unfoldable pub find : Text → Text → Option ℕ
find [] p = if starts_with [] p then some 0 else none
find (c ∷ s) p =
    let rest = find s p in
    if starts_with (c ∷ s) p
    then some 0
    else elim rest as (λ _. Option ℕ) [ none ↦ none | some i ↦ some (suc i) ]

-- `s.isdigit()` and the like: at least one character, and `p` holds of all
abbrev pub all_of : (ℕ → Bool) → Text → Bool
all_of p [] = false
all_of p (c ∷ []) = p c
all_of p (c ∷ d ∷ s) = p c && all_of p (d ∷ s)

-- the order of texts by code points, as `str` and SQLite compare them
unfoldable pub leb_text : Text → Text → Bool
leb_text [] t = true
leb_text (c ∷ s) [] = false
leb_text (c ∷ s) (d ∷ t) = ltb c d || ((c == d) && leb_text s t)

-- `s.split(sep)` for a non-empty `sep`: `skip` characters of a match are still to be passed
unfoldable pub split_from : Text → ℕ → Text → List Text
unfolding starts_with
split_from sep skip [] = [] ∷ []
split_from sep (suc skip) (c ∷ s) = split_from sep skip s
split_from sep zero (c ∷ s) =
    let hit = [] ∷ split_from sep (pred (length sep)) s in
    let miss = onto c (split_from sep zero s) in if starts_with (c ∷ s) sep then hit else miss

abbrev pub split_by : Text → Text → List Text
split_by sep s = split_from sep 0 s

abbrev pub is_empty : Text → Bool
is_empty [] = true
is_empty (c ∷ s) = false

-- the words of `s.split()`: `word` is the one that is being read
unfoldable pub split_words : (ℕ → Bool) → Text → Text → List Text
split_words p word [] = if is_empty word then [] else word ∷ []
split_words p word (c ∷ s) =
    let closed = word ∷ split_words p [] s in
    let skipped = split_words p [] s in
    let longer = split_words p (word ++ (c ∷ [])) s in
    if p c then if is_empty word then skipped else closed else longer

-- the parts of `s.split(sep, 1)`, for a non-empty `sep` that the text has
unfoldable pub cut_once : Text → Text → Option (Text × Text)
unfolding starts_with
cut_once sep [] = none
cut_once sep (c ∷ s) =
    let rest = cut_once sep s in
    if starts_with (c ∷ s) sep
    then some ([], drop (length sep) (c ∷ s))
    else elim rest as (λ _. Option (Text × Text)) [ none ↦ none | some p ↦ some (c ∷ p.0, p.1) ]
