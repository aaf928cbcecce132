-- ===== src/Regex/Prefix.antt =====
-- The matches of a pattern at the start of a text, in the order in which the backtracking of `re`
-- finds them. Each is given by the text that it leaves over.
use sih_ulpf.Common.{
  ℕ, zero, suc, List, [], ◌∷◌, ◌++◌, Option, none, some, ltb, if◌then◌else◌, length,
}
use sih_ulpf.Common.Text.{Text}
use sih_ulpf.Regex.Defs.{Re, empty, eps, one_of, seq, alt, star}

unfoldable pub concat_map : (Text → List Text) → List Text → List Text
concat_map f [] = []
concat_map f (t ∷ ts) = f t ++ concat_map f ts

-- A round of `*` has to consume something, so the length of the text bounds the rounds.
unfoldable pub star_runs : (Text → List Text) → ℕ → Text → List Text
unfolding concat_map
star_runs f zero s = s ∷ []
star_runs f (suc n) s =
    concat_map (λ t. let more = star_runs f n t in if ltb (length t) (length s) then more else [])
      (f s)
    ++ (s ∷ [])

unfoldable pub runs : Re → Text → List Text
unfolding star_runs
runs empty s = []
runs eps s = s ∷ []
runs (one_of p) [] = []
runs (one_of p) (c ∷ s) = if p c then s ∷ [] else []
runs (seq r q) s = concat_map (runs q) (runs r s)
runs (alt r q) s = runs r s ++ runs q s
runs (star r) s = star_runs (runs r) (length s) s

first_of : List Text → Option Text
first_of [] = none
first_of (t ∷ ts) = some t

-- `pat.match(s)`: the text behind the match that is taken
unfoldable pub match_prefix : Re → Text → Option Text
unfolding runs first_of
match_prefix r s = first_of (runs r s)
