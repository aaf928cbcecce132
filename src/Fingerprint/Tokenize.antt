-- ===== src/Fingerprint/Tokenize.antt =====
-- `tokenize` of uli/fingerprint.py. `none` is the `IndexError` of `protected[pi]`.
pub mod Total
use mathlib.Core.Option
use sih_ulpf.Common.{
  ℕ, zero, suc, Bool, true, false, ◌&&◌, ◌||◌, not, List, [], ◌∷◌, ◌++◌, Option, none, some, leb,
  ltb, ◌==◌, if◌then◌else◌, length, drop, take, ◌-◌,
}
use sih_ulpf.Common.Text.{Text, codes, contains, all_chars, replace_all}
use sih_ulpf.Regex.Prefix.{match_prefix}
use sih_ulpf.Fingerprint.Unicode.{Unicode}
use sih_ulpf.Fingerprint.Patterns.{re_ts_atom}

-- `_MAX_TOKENS`
abbrev pub max_tokens : ℕ
max_tokens = 512

-- `_TS_SENTINEL`
abbrev pub ts_sentinel : Text
ts_sentinel = 0 ∷ b'T' ∷ b'S' ∷ 0 ∷ []

-- the delimiters of `_SPLIT` that are single characters
abbrev pub is_delimiter : ℕ → Bool
is_delimiter c =
    c == b'='
    || (c == b':'
        || (c == b','
            || (c == b'|'
                || (c == b'['
                    || (c == b']'
                        || (c == b'('
                            || (c == b')'
                                || (c == 34
                                    || (c == b'<'
                                        || (c == b'>' || (c == b'{' || c == b'}')))))))))))

-- `m.group(0)`, from the text and what the match leaves over
unfoldable pub matched : Text → Text → Text
matched s rest = take (length s - length rest) s

-- A part that holds the sentinel gets the next stashed text, in place of each sentinel in it.
unfoldable pub put_back : Text → List Text → Option (Text × List Text)
put_back part [] = if contains part ts_sentinel then none else some (part, [])
put_back part (p ∷ protected) =
    if contains part ts_sentinel
    then some (replace_all part ts_sentinel p, protected)
    else some (part, p ∷ protected)

module _ (u : Unicode) where
  -- `_RE_TS_ATOM.sub(_stash, text)`: the guarded text and what was stashed. `skip` characters of a
  -- match are still to be passed.
  unfoldable pub stash : ℕ → Text → Text × List Text
  unfolding match_prefix matched
  stash skip [] = ([], [])
  stash (suc skip) (c ∷ s) = stash skip s
  stash zero (c ∷ s) = elim (match_prefix (re_ts_atom u) (c ∷ s)) [
    | none ↦ let (g, p) = stash zero s in (c ∷ g, p)
    | some rest ↦
        let m = matched (c ∷ s) rest in
        let (g, p) = stash (length (drop 1 m)) s in (ts_sentinel ++ g, m ∷ p)
  ]

  -- `_SPLIT.split(guarded)`: the pieces and, between them, the delimiters. `in_space` says that
  -- `cur` is a run of whitespace.
  unfoldable pub split : Bool → Text → Text → List Text
  split true cur [] = cur ∷ [] ∷ []
  split false cur [] = cur ∷ []
  split true cur (c ∷ s) =
      let longer = split true (cur ++ c ∷ []) s in
      let single = cur ∷ [] ∷ (c ∷ []) ∷ split false [] s in
      let piece = cur ∷ split false (c ∷ []) s in
      if u.is_space c then longer else if is_delimiter c then single else piece
  split false cur (c ∷ s) =
      let space = cur ∷ split true (c ∷ []) s in
      let single = cur ∷ (c ∷ []) ∷ split false [] s in
      let longer = split false (cur ++ c ∷ []) s in
      if u.is_space c then space else if is_delimiter c then single else longer

  -- `not part or part.isspace()`
  abbrev pub is_blank : Text → Bool
  is_blank part = all_chars u.is_space part

  -- The loop over the parts: `room` is how many more tokens `out` takes, `protected` what is not
  -- yet put back.
  unfoldable pub restore : ℕ → List Text → List Text → Option (List Text)
  unfolding put_back
  restore room protected [] = some []
  restore room protected (part ∷ parts) =
      let skipped = restore room protected parts in
      let kept = (elim (put_back part protected) as (λ _. Option (List Text)) [
        | none ↦ none
        | some (token, left) ↦
            let more = restore (room - 1) left parts in
            Option.map (λ out. token ∷ out) (if leb room 1 then some [] else more)
      ]) in
      if is_blank part then skipped else kept

  unfoldable pub tokenize : Text → Option (List Text)
  unfolding stash split restore
  tokenize text =
      let (guarded, protected) = stash 0 text in
      restore max_tokens protected (split false [] guarded)
