-- ===== src/Similarity/Room.antt =====
-- The similarity index keeps at most 200 references of a parser.
use mathlib.Core.Option
use mathlib.Core.Path.{subst}
use sih_ulpf.Common.{
  ℕ, suc, ◌≤◌, ◌≡◌, sym, ◌∙◌, List, [], ◌∷◌, ◌++◌, Option, some, length, length-append, drop, ltb,
  arith, Bool-cases, Option-cases, inl, inr,
}
use sih_ulpf.Common.Text.{Text}
use sih_ulpf.Common.Dict
use sih_ulpf.Common.Eq.{text_key}
use sih_ulpf.Fingerprint.Unicode.{Unicode}
use sih_ulpf.Similarity.Index.{Scores, Index, shape_ngrams, known, with_reference, add_reference}

-- every parser has at most 200 references
pub record HasRoom (index : Index) : Type 0 where
  pub at_most :
      (pid : Text) (refs : List (List Text)) → Dict.get pid index ≡ some refs → length refs ≤ 200

length-drop_one : (n : ℕ) (xs : List (List Text)) → length xs ≤ suc n → length (drop 1 xs) ≤ n
length-drop_one n [] h = omega arith
length-drop_one n (x ∷ xs) h = omega arith

module _ {F : Type 0} (num : Scores F) where
  with_reference-room :
      (ng : List Text) (refs : List (List Text))
      → length refs ≤ 200
      → length (with_reference num ng refs) ≤ 200
  unfolding with_reference
  with_reference-room ng refs h =
      let longer = refs ++ (ng ∷ []) in
      elim (Bool-cases (known num ng refs)) [
        | inl e ↦ rw e h
        | inr e ↦ elim (Bool-cases (ltb 200 (length longer))) [
          | inl f ↦
              rw (e, f) (length-drop_one 200 longer (omega (arith, length-append refs (ng ∷ []))))
          | inr f ↦ rw (e, f) (ground arith)
        ]
      ]

  old_room :
      (pid : Text) (index : Index)
      → HasRoom index
      → length (Option.get_or (Dict.get pid index) []) ≤ 200
  old_room pid index h = elim (Option-cases (Dict.get pid index)) [
    | inl e ↦ rw e (omega arith)
    | inr (refs, e) ↦ rw e (h.at_most pid refs e)
  ]

  -- `add_reference` keeps at most 200 references of every parser, whatever the shape.
  pub add_reference-HasRoom :
      (u : Unicode) (parser_id shape : Text) (index : Index)
      → HasRoom index
      → HasRoom (add_reference num u parser_id shape index)
  unfolding add_reference
  add_reference-HasRoom u parser_id shape index h =
      let refs = Option.get_or (Dict.get parser_id index) [] in
      let new = with_reference num (shape_ngrams u shape) refs in
      record {
        at_most = λ pid found e. elim (Bool-cases (text_key.beq parser_id pid)) [
          | inl same ↦
              subst (λ (z : List (List Text)). length z ≤ 200)
                (some_inj new found (sym (rw same at (Dict.get-put parser_id pid new index)) ∙ e))
                (with_reference-room (shape_ngrams u shape) refs (old_room parser_id index h))
          | inr other ↦
              h.at_most pid found (sym (rw other at (Dict.get-put parser_id pid new index)) ∙ e)
        ];
      }
    where
      some_inj :
          (x y : List (List Text)) → ◌≡◌ {A = Option (List (List Text))} (some x) (some y) → x ≡ y
      some_inj x y q = cc
