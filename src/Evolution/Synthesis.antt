-- ===== src/Evolution/Synthesis.antt =====
-- `synthesize_pack_yaml` of uli/drift/evolution.py.
use sih_ulpf.Common.{ℕ, ◌+◌, List, [], ◌∷◌, ◌++◌, Option, none, some, if◌then◌else◌, leb, take}
use sih_ulpf.Common.Text.{Text, codes, join}
use sih_ulpf.Common.Strings.{split_on, strip}
use sih_ulpf.Fingerprint.Unicode.{Unicode}
use sih_ulpf.Normalization.Tree
use sih_ulpf.Normalization.Tree.{
  Tree, Members, string, float, array, object, nil, cons, end, member,
}
use sih_ulpf.Structural.Flatten.{decimal}

-- `yaml.safe_dump`, `int` of a text, the score with two digits, `round(max(0.5, min(0.85, score)), 2)`
-- and `round(score, 4)`, the floats by their bits.
pub record YamlCalls (F : Type 0) : Type 0 where
  pub safe_dump : Members → Text
  pub int_of : Text → Option ℕ
  pub two_digits : F → Text
  pub bounded_base : F → ℕ
  pub round_4 : F → ℕ

infixl 1 ◌>>=◌
-- an exception ends the function
abbrev ◌>>=◌ : {A B : Type 0} → Option A → (A → Option B) → Option B
none >>= k = none
some a >>= k = k a

-- `sorted(new_positions.items())`
unfoldable pub insert_position : ℕ × Text → List (ℕ × Text) → List (ℕ × Text)
insert_position p [] = p ∷ []
insert_position p (q ∷ qs) =
    let later = insert_position p qs in if leb p.0 q.0 then p ∷ q ∷ qs else q ∷ later

unfoldable pub sorted_positions : List (ℕ × Text) → List (ℕ × Text)
unfolding insert_position
sorted_positions [] = []
sorted_positions (p ∷ ps) = insert_position p (sorted_positions ps)

-- `{str(idx): name ..}`
abbrev pub positions_map : List (ℕ × Text) → Members
positions_map [] = end
positions_map ((i, name) ∷ ps) = member (decimal i) (string name) (positions_map ps)

-- `d.get(k, default)` of a text; `none` is a value of another kind, on which the source raises
abbrev pub text_member : Text → Option Tree → Option Text
text_member default none = some default
text_member default (some (string s)) = some s
text_member default (some v) = none

-- `spec.setdefault("confidence", {})`
abbrev pub members_or : Option Tree → Option Members
members_or none = some end
members_or (some (object m)) = some m
members_or (some v) = none

module _ {F : Type 0} (u : Unicode) (calls : YamlCalls F) where
  abbrev pub raised_minor : Option ℕ → Option ℕ → Option ℕ → Option Text
  raised_minor (some major) (some minor) (some patch) =
      some (decimal major ++ (codes "." ++ (decimal (minor + 1) ++ codes ".0")))
  raised_minor _ _ _ = none

  -- `f"{major}.{minor + 1}.0"`; other than three parts raise
  abbrev pub next_version : List Text → Option Text
  next_version (a ∷ b ∷ c ∷ []) = raised_minor (calls.int_of a) (calls.int_of b) (calls.int_of c)
  next_version _ = none

  abbrev pub extraction : List (ℕ × Text) → Tree
  extraction ps = array (
      cons
        (object (
          member (codes "kind") (string (codes "positional")) (
            member (codes "field") (string (codes "message"))
              (member (codes "positions") (object (positions_map ps)) end))))
        nil)

  abbrev pub provenance : F → Text → List Text → Tree
  provenance score old_version toks = object (
      member (codes "origin") (string (codes "drift_evolution")) (
        member (codes "score") (float (calls.round_4 score)) (
          member (codes "based_on_version") (string old_version) (
            member (codes "new_template_preview") (string (join (codes " ") (take 40 toks))) end))))

  -- the assignments to `spec`, once its version, description and confidence are read
  abbrev pub candidate :
      Members → List (ℕ × Text) → List Text → F → Text → Text → Text → Members → Members
  candidate base ps toks score old_version version description confidence =
      Tree.put (codes "provenance") (provenance score old_version toks) (
        Tree.put (codes "confidence")
          (object (Tree.put (codes "base") (float (calls.bounded_base score)) confidence))
          (Tree.put (codes "extract") (extraction ps) (
            Tree.put (codes "description")
              (string (
                strip u.is_space (
                  description
                  ++ (codes " [auto-evolved candidate, label-transfer score="
                      ++ (calls.two_digits score ++ codes "]")))))
              (Tree.put (codes "version") (string version) base))))

  -- `synthesize_pack_yaml`; `none` is an exception
  unfoldable pub synthesize_pack_yaml : Members → List (ℕ × Text) → List Text → F → Option Text
  unfolding sorted_positions Tree.get Tree.put split_on join
  synthesize_pack_yaml base positions toks score = do
    old_version ← text_member (codes "1.0.0") (Tree.get (codes "version") base)
    version ← next_version (split_on b'.' old_version)
    id ← Tree.get (codes "parser_id") base
    description ← text_member [] (Tree.get (codes "description") base)
    confidence ← members_or (Tree.get (codes "confidence") base)
    some (
        calls.safe_dump (
          candidate base (sorted_positions positions) toks score old_version version description
            confidence))
