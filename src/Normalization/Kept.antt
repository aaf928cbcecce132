-- ===== src/Normalization/Kept.antt =====
-- What the body of a normalized event holds.
use sih_ulpf.Common.{
  ◌≡◌, refl, ◌∙◌, true, false, [], ◌∷◌, Option, none, some, if◌then◌else◌, Bool-cases, inl, inr,
  arith,
}
use sih_ulpf.Common.Text.{Text, text_eq}
use sih_ulpf.Common.Dict
use sih_ulpf.Common.Dict.{Dict, Distinct}
use sih_ulpf.Common.Eq.{text_key}
use sih_ulpf.Normalization.Tree
use sih_ulpf.Normalization.Tree.{Tree, Members, end, member, object, set_default}
use sih_ulpf.Normalization.Body.{Fields, unmapped, unmapped_from, is_kept, plain}

pub get-put :
    (k j : Text) (v : Tree) (d : Members)
    → Tree.get j (Tree.put k v d) ≡ (if text_eq k j then some v else Tree.get j d)
unfolding Tree.get Tree.put
get-put k j v end = refl
get-put k j v (member i w d) =
    ground
      (arith, text_key.beq_iff k j, text_key.beq_iff i k, text_key.beq_iff i j, get-put k j v d)

-- what is there, or else the new value
abbrev pub or_new : Text → Text → Tree → Option Tree → Option Tree
or_new k j v (some old) = some old
or_new k j v none = if text_eq k j then some v else none

module _ (str_of : Tree → Text) where
  -- what the value of a field becomes
  abbrev pub kept_as : Text → Option Tree → Option Tree
  kept_as k none = none
  kept_as k (some v) = if is_kept str_of k v then some (plain str_of v) else none

  abbrev or_else : Option Tree → Option Tree → Option Tree
  or_else (some v) o = some v
  or_else none o = o

  abbrev out_with : Text → Tree → Members → Members
  out_with j v out = if is_kept str_of j v then Tree.put j (plain str_of v) out else out

  one_field :
      (k j : Text) (v : Tree) (o : Option Tree) (out : Members)
      → (text_eq j k ≡ true → o ≡ none)
      → or_else (kept_as k o) (Tree.get k (out_with j v out))
        ≡ or_else (kept_as k (if text_eq j k then some v else o)) (Tree.get k out)
  one_field k j v o out fresh = elim (Bool-cases (text_eq j k)) [
    | inl same ↦
        let e = (text_key.beq_iff j k).0 same in
        elim (Bool-cases (is_kept str_of j v)) [
          | inl kept ↦
              let kept' : is_kept str_of k v ≡ true = rw (← e) kept in
              rw (kept, same, fresh same, kept', get-put j k (plain str_of v) out, same) refl
          | inr passed ↦
              let passed' : is_kept str_of k v ≡ false = rw (← e) passed in
              rw (passed, same, fresh same, passed') refl
        ]
    | inr other ↦ elim (Bool-cases (is_kept str_of j v)) [
      | inl kept ↦ rw (kept, other, get-put j k (plain str_of v) out, other) refl
      | inr passed ↦ rw (passed, other) refl
    ]
  ]

  get-unmapped_from :
      (k : Text) (fields : Fields) (out : Members)
      → Distinct fields
      → Tree.get k (unmapped_from str_of fields out)
        ≡ or_else (kept_as k (Dict.get k fields)) (Tree.get k out)
  unfolding unmapped_from Dict.get Distinct
  get-unmapped_from k [] out h = refl
  get-unmapped_from k ((j, v) ∷ fields) out (fresh, h) =
      get-unmapped_from k fields (out_with j v out) h
      ∙ one_field k j v (Dict.get k fields) out (λ same. rw (← (text_key.beq_iff j k).0 same) fresh)

  pub get-unmapped :
      (k : Text) (fields : Fields)
      → Distinct fields
      → Tree.get k (unmapped str_of fields) ≡ kept_as k (Dict.get k fields)
  unfolding Tree.get
  get-unmapped k fields h = get-unmapped_from k fields end h ∙ alone (kept_as k (Dict.get k fields))
    where
      alone : (o : Option Tree) → or_else o none ≡ o
      alone (some v) = refl
      alone none = refl
