-- ===== src/Structural/Flat.antt =====
-- The fields of a JSON object hold no nested object.
use sih_ulpf.Common.{
  ℕ, zero, suc, ◌++◌, ◌≡◌, refl, sym, Bool, true, false, [], ◌∷◌, if◌then◌else◌, Bool-cases, inl,
  inr,
}
use sih_ulpf.Common.Text.{Text, codes, text_eq}
use sih_ulpf.Common.Dict
use sih_ulpf.Common.Dict.{Dict}
use sih_ulpf.Common.Eq.{text_key}
use sih_ulpf.Normalization.Tree.{
  Tree, Items, Members, null, flag, int, float, string, array, object, nil, cons, end, member,
}
use sih_ulpf.Normalization.Body.{Fields}
use sih_ulpf.Structural.Flatten.{
  is_container, no_container, decimal, leaf, flatten, flatten_members, flatten_items, flattened,
}

-- a value that is no dictionary, and no list with a dictionary or a list in it
abbrev pub is_leaf : Tree → Bool
is_leaf (array vs) = no_container vs
is_leaf (object m) = false
is_leaf _ = true

abbrev pub Flat : Fields → Type 0
Flat [] = Unit
Flat ((k, v) ∷ f) = (is_leaf v ≡ true) × Flat f

put-Flat : (k : Text) (v : Tree) (f : Fields) → is_leaf v ≡ true → Flat f → Flat (Dict.put k v f)
unfolding Dict.put
put-Flat k v [] h _ = (h, tt)
put-Flat k v ((j, w) ∷ f) h (hw, hs) = elim (Bool-cases (text_eq j k)) [
  | inl same ↦ rw same (h, hs)
  | inr other ↦ rw other (hw, put-Flat k v f h hs)
]

either-Flat : (b : Bool) (f g : Fields) → Flat f → Flat g → Flat (if b then f else g)
either-Flat true f g hf hg = hf
either-Flat false f g hf hg = hg

leaf_of : (v : Tree) → is_container v ≡ false → is_leaf v ≡ true
leaf_of null h = refl
leaf_of (flag b) h = refl
leaf_of (int n) h = refl
leaf_of (float b) h = refl
leaf_of (string s) h = refl
leaf_of (array vs) h = cc
leaf_of (object m) h = cc

step-Flat :
    (k : Text) (v : Tree) (deeper out : Fields)
    → Flat deeper
    → Flat out
    → Flat (if is_container v then deeper else Dict.put k v out)
step-Flat k v deeper out hd ho = elim (Bool-cases (is_container v)) [
  | inl nested ↦ rw nested hd
  | inr single ↦ rw single (put-Flat k v out (leaf_of v single) ho)
]

put_or_go :
    (b : Bool) (vs : Items) (prefix : Text) (out filled : Fields)
    → b ≡ no_container vs
    → Flat out
    → Flat filled
    → Flat (if b then leaf prefix (array vs) out else filled)
put_or_go true vs prefix out filled e ho hf = put-Flat _ (array vs) out (sym e) ho
put_or_go false vs prefix out filled e ho hf = hf

mutual
  unfolding flatten flatten_members flatten_items

  flatten-Flat :
      (dumps : Tree → Text) (room : ℕ) (prefix : Text) (v : Tree) (out : Fields)
      → Flat out
      → Flat (flatten dumps room prefix v out)
  flatten-Flat dumps zero prefix (object m) out h = either-Flat _ out _ h (put-Flat _ _ out refl h)
  flatten-Flat dumps (suc room) prefix (object m) out h =
      either-Flat _ out _ h (members-Flat dumps room prefix m out h)
  flatten-Flat dumps zero prefix (array vs) out h = either-Flat _ out _ h (put-Flat _ _ out refl h)
  flatten-Flat dumps (suc room) prefix (array vs) out h =
      either-Flat _ out _ h (
        put_or_go (no_container vs) vs prefix out _ refl h
          (items-Flat dumps room prefix 0 vs out h))
  flatten-Flat dumps zero prefix null out h = either-Flat _ out _ h (put-Flat _ _ out refl h)
  flatten-Flat dumps (suc room) prefix null out h = either-Flat _ out _ h (put-Flat _ _ out refl h)
  flatten-Flat dumps zero prefix (flag b) out h = either-Flat _ out _ h (put-Flat _ _ out refl h)
  flatten-Flat dumps (suc room) prefix (flag b) out h =
      either-Flat _ out _ h (put-Flat _ _ out refl h)
  flatten-Flat dumps zero prefix (int n) out h = either-Flat _ out _ h (put-Flat _ _ out refl h)
  flatten-Flat dumps (suc room) prefix (int n) out h =
      either-Flat _ out _ h (put-Flat _ _ out refl h)
  flatten-Flat dumps zero prefix (float b) out h = either-Flat _ out _ h (put-Flat _ _ out refl h)
  flatten-Flat dumps (suc room) prefix (float b) out h =
      either-Flat _ out _ h (put-Flat _ _ out refl h)
  flatten-Flat dumps zero prefix (string s) out h = either-Flat _ out _ h (put-Flat _ _ out refl h)
  flatten-Flat dumps (suc room) prefix (string s) out h =
      either-Flat _ out _ h (put-Flat _ _ out refl h)

  members-Flat :
      (dumps : Tree → Text) (room : ℕ) (prefix : Text) (m : Members) (out : Fields)
      → Flat out
      → Flat (flatten_members dumps room prefix m out)
  members-Flat dumps room prefix end out h = h
  members-Flat dumps room prefix (member k v m) out h = members-Flat dumps room prefix m _ (
      step-Flat (prefix ++ k) v _ out (flatten-Flat dumps room (prefix ++ (k ++ codes ".")) v out h)
        h)

  items-Flat :
      (dumps : Tree → Text) (room : ℕ) (prefix : Text) (i : ℕ) (vs : Items) (out : Fields)
      → Flat out
      → Flat (flatten_items dumps room prefix i vs out)
  items-Flat dumps room prefix i nil out h = h
  items-Flat dumps room prefix i (cons v vs) out h =
      either-Flat _ _ out
        (items-Flat dumps room prefix (suc i) vs _
          (flatten-Flat dumps room (prefix ++ (decimal i ++ codes ".")) v out h))
        h

-- Flattening any value gives fields that hold no dictionary, and no list with a dictionary or a list
-- in it, however deep the value is nested.
pub flattened-Flat : (dumps : Tree → Text) (obj : Tree) → Flat (flattened dumps obj)
flattened-Flat dumps obj = flatten-Flat dumps 8 [] obj [] tt
