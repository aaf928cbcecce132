-- ===== src/Similarity/Index.antt =====
-- The index of shapes. A set is a list without repetitions, in an order that nothing depends on.
use mathlib.Core.Option
use sih_ulpf.Common.{
  ℕ, zero, suc, ◌+◌, ◌-◌, Bool, false, ◌||◌, List, [], ◌∷◌, ◌++◌, Option, none, some, length, take,
  drop, ltb, ◌==◌, if◌then◌else◌,
}
use sih_ulpf.Common.Text.{Text, mem_text, join, text_eq}
use sih_ulpf.Common.Dict
use sih_ulpf.Common.Dict.{Dict}
use sih_ulpf.Common.Eq.{text_key}
use sih_ulpf.Fingerprint.Unicode.{Unicode}

-- What the module uses of Python's floats.
pub record Scores (F : Type 0) : Type 0 where
  pub lt : F → F → Bool
  pub ratio : ℕ → ℕ → F  -- `a / b`
  pub zero_f : F
  pub f_095 : F

-- `s.split()`, with the word before `s` in `cur`
unfoldable pub words : Unicode → Text → Text → List Text
words u cur [] = if text_eq cur [] then [] else cur ∷ []
words u cur (c ∷ s) =
    let ended = words u [] s in
    let longer = words u (cur ++ (c ∷ [])) s in
    if u.is_space c then (if text_eq cur [] then ended else cur ∷ ended) else longer

-- the runs of `n` parts from each of the first `count` places on
unfoldable pub windows : ℕ → ℕ → List Text → List Text
windows n zero parts = []
windows n (suc count) [] = []
windows n (suc count) (p ∷ parts) =
    let rest = windows n count parts in
    let gram = join (32 ∷ []) (take n (p ∷ parts)) in
    if mem_text gram rest then rest else gram ∷ rest

-- `shape_ngrams`, with `n = 3`
unfoldable pub shape_ngrams : Unicode → Text → List Text
unfolding words windows
shape_ngrams u shape =
    let parts = words u [] shape in
    if ltb (length parts) 3
    then (if length parts == 0 then [] else join (32 ∷ []) parts ∷ [])
    else windows 3 (length parts - 3 + 1) parts

unfoldable pub common : List Text → List Text → ℕ
common [] b = 0
common (x ∷ a) b = let rest = common a b in if mem_text x b then suc rest else rest

abbrev pub Index : Type 0
Index = Dict Text (List (List Text))

module _ {F : Type 0} (num : Scores F) where
  unfoldable pub jaccard : List Text → List Text → F
  unfolding common
  jaccard a b =
      if length a == 0 || length b == 0
      then num.zero_f
      else num.ratio (common a b) (length a + length b - common a b)

  -- `any(jaccard(ng, existing) > 0.95 for existing in ..)`
  unfoldable pub known : List Text → List (List Text) → Bool
  unfolding jaccard
  known ng [] = false
  known ng (ref ∷ refs) = num.lt num.f_095 (jaccard ng ref) || known ng refs

  -- the references of one parser with one more shape; the oldest goes when there are more than 200
  unfoldable pub with_reference : List Text → List (List Text) → List (List Text)
  unfolding known
  with_reference ng refs =
      let longer = refs ++ (ng ∷ []) in
      if known ng refs then refs else if ltb 200 (length longer) then drop 1 longer else longer

  unfoldable pub add_reference : Unicode → Text → Text → Index → Index
  unfolding shape_ngrams with_reference
  add_reference u parser_id shape index =
      Dict.put parser_id
        (with_reference (shape_ngrams u shape) (Option.get_or (Dict.get parser_id index) [])) index

  -- the loop over the references of one parser
  unfoldable pub best_ref : List Text → Text → List (List Text) → Option Text × F → Option Text × F
  unfolding jaccard
  best_ref ng pid [] best = best
  best_ref ng pid (ref ∷ refs) best =
      let s = jaccard ng ref in
      let better = best_ref ng pid refs (some pid, s) in
      let same = best_ref ng pid refs best in if num.lt best.1 s then better else same

  unfoldable pub best_entry : List Text → Index → Option Text × F → Option Text × F
  unfolding best_ref
  best_entry ng [] best = best
  best_entry ng ((pid, refs) ∷ index) best = best_entry ng index (best_ref ng pid refs best)

  -- `(best_id, best_score) if best_id else None`
  abbrev named : Option Text × F → Option (Text × F)
  named (none, s) = none
  named (some [], s) = none
  named (some (c ∷ pid), s) = some (c ∷ pid, s)

  unfoldable pub best_match : Unicode → Index → Text → Option (Text × F)
  unfolding shape_ngrams best_entry
  best_match u index shape = named (best_entry (shape_ngrams u shape) index (none, num.zero_f))
