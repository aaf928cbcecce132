-- ===== src/Normalization/Unmapped.antt =====
-- What of the fields of the parser stands in the event under `unmapped`.
use mathlib.Core.Option
use sih_ulpf.Common.{
  ℕ, ◌≡◌, refl, ◌∙◌, ap, true, List, [], ◌∷◌, Option, none, some, Bool-cases, inl, inr,
}
use sih_ulpf.Common.Text.{Text, text_eq, codes}
use sih_ulpf.Common.Dict
use sih_ulpf.Common.Dict.{Dict, Distinct}
use sih_ulpf.Common.Eq.{text_key}
use sih_ulpf.Models.{Value, Ir}
use sih_ulpf.Normalization.Tree
use sih_ulpf.Normalization.Tree.{
  Tree, Members, int, string, end, member, object, set_default, of_value,
}
use sih_ulpf.Normalization.Body.{unmapped, is_kept, plain}
use sih_ulpf.Normalization.Kept.{get-unmapped}
use sih_ulpf.Normalization.Normalize.{
  Builtins, Circumstances, field_trees, add_unmapped, ocsf_body, normalize,
}
use sih_ulpf.Normalization.Header.{skip, get-put_self, apart_raw_data_unmapped}

-- `ocsf[name][k]`
abbrev pub inside : Text → Option Tree → Option Tree
inside k (some (object m)) = Tree.get k m
inside k _ = none

module _ (opened : ℕ → Tree) where
  pub get-field_trees :
      (k : Text) (fields : List (Text × Value))
      → Dict.get k (field_trees opened fields) ≡ Option.map (of_value opened) (Dict.get k fields)
  unfolding Dict.get
  get-field_trees k [] = refl
  get-field_trees k ((j, v) ∷ fields) = elim (Bool-cases (text_eq j k)) [
    | inl same ↦ rw same refl
    | inr other ↦ rw other (get-field_trees k fields)
  ]

  field_trees-Distinct :
      (fields : List (Text × Value)) → Distinct fields → Distinct (field_trees opened fields)
  unfolding Distinct
  field_trees-Distinct [] h = tt
  field_trees-Distinct ((j, v) ∷ fields) (fresh, h) =
      (get-field_trees j fields ∙ rw fresh refl, field_trees-Distinct fields h)

inside-add_unmapped :
    (k : Text) (m d : Members) (v : Tree)
    → Tree.get k m ≡ some v
    → inside k (Tree.get (codes "unmapped") (add_unmapped m d)) ≡ some v
unfolding Tree.get
inside-add_unmapped k end d v h = cc
inside-add_unmapped k (member j w m) d v h =
    rw (get-put_self (codes "unmapped") (object (member j w m)) d) h

pub normalize_keeps :
    {F : Type 0} (b : Builtins F) (event_id : Text) (now : ℕ) (ir : Ir F) (c : Circumstances)
    (k : Text) (v : Value)
    → Distinct ir.fields
    → Dict.get k ir.fields ≡ some v
    → is_kept b.str_of k (of_value b.opened v) ≡ true
    → inside k (Tree.get (codes "unmapped") (normalize b event_id now ir c).ocsf)
      ≡ some (plain b.str_of (of_value b.opened v))
unfolding normalize ocsf_body
normalize_keeps b event_id now ir c k v distinct found kept =
    let got : Tree.get k (unmapped b.str_of (field_trees b.opened ir.fields))
        ≡ some (plain b.str_of (of_value b.opened v)) =
      get-unmapped b.str_of k (field_trees b.opened ir.fields)
        (field_trees-Distinct b.opened ir.fields distinct)
      ∙ rw (get-field_trees b.opened k ir.fields, found, kept) refl in
    ap (inside k) (skip (codes "raw_data") (codes "unmapped") _ _ apart_raw_data_unmapped)
    ∙ inside-add_unmapped k _ _ _ got
