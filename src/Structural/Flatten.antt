-- ===== src/Structural/Flatten.antt =====
-- `_flatten` of uli/parsers/structural.py.
use sih_ulpf.Common.{
  ℕ, zero, suc, ◌+◌, ◌/◌, ◌%◌, Bool, true, false, not, ◌&&◌, [], ◌∷◌, ◌++◌, ltb, leb, ◌==◌,
  if◌then◌else◌, length, take,
}
use sih_ulpf.Common.Text.{Text, codes}
use sih_ulpf.Common.Strings.{drop_last_while}
use sih_ulpf.Common.Dict
use sih_ulpf.Common.Dict.{Dict}
use sih_ulpf.Common.Eq.{text_key}
use sih_ulpf.Normalization.Tree.{
  Tree, Items, Members, null, flag, int, float, string, array, object, nil, cons, end, member,
}
use sih_ulpf.Normalization.Body.{Fields}

-- `isinstance(v, (dict, list))`
abbrev pub is_container : Tree → Bool
is_container (array vs) = true
is_container (object m) = true
is_container _ = false

abbrev pub no_container : Items → Bool
no_container nil = true
no_container (cons v vs) = not (is_container v) && no_container vs

-- `obj[:n]`
abbrev pub take_items : ℕ → Items → Items
take_items zero vs = nil
take_items (suc n) nil = nil
take_items (suc n) (cons v vs) = cons v (take_items n vs)

-- an index below 100 in decimal
abbrev pub decimal : ℕ → Text
decimal n = if ltb n 10 then (48 + n) ∷ [] else (48 + n / 10) ∷ (48 + n % 10) ∷ []

-- `prefix.rstrip(".")`
abbrev pub bare : Text → Text
bare prefix = drop_last_while (λ c. c == b'.') prefix

abbrev pub leaf : Text → Tree → Fields → Fields
leaf prefix v out = Dict.put (bare prefix) v out

-- `_flatten` with its defaults, `max_depth` 8 and `max_keys` 500: `room` is `max_depth - depth`, and
-- `dumps` is `json.dumps`.
unfoldable mutual
  unfolding Dict.put

  pub flatten : (Tree → Text) → ℕ → Text → Tree → Fields → Fields
  flatten dumps zero prefix (object m) out =
      if leb 500 (length out) then out else leaf prefix (string (take 2000 (dumps (object m)))) out
  flatten dumps (suc room) prefix (object m) out =
      let filled = flatten_members dumps room prefix m out in
      if leb 500 (length out) then out else filled
  flatten dumps zero prefix (array vs) out =
      if leb 500 (length out) then out else leaf prefix (string (take 2000 (dumps (array vs)))) out
  flatten dumps (suc room) prefix (array vs) out =
      let filled = flatten_items dumps room prefix 0 vs out in
      if leb 500 (length out)
      then out
      else if no_container vs
      then leaf prefix (array vs) out
      else filled
  flatten dumps room prefix null out = if leb 500 (length out) then out else leaf prefix null out
  flatten dumps room prefix (flag b) out =
      if leb 500 (length out) then out else leaf prefix (flag b) out
  flatten dumps room prefix (int n) out =
      if leb 500 (length out) then out else leaf prefix (int n) out
  flatten dumps room prefix (float b) out =
      if leb 500 (length out) then out else leaf prefix (float b) out
  flatten dumps room prefix (string s) out =
      if leb 500 (length out) then out else leaf prefix (string s) out

  -- the loop over the items of a dictionary
  pub flatten_members : (Tree → Text) → ℕ → Text → Members → Fields → Fields
  flatten_members dumps room prefix end out = out
  flatten_members dumps room prefix (member k v m) out =
      let deeper = flatten dumps room (prefix ++ (k ++ codes ".")) v out in
      flatten_members dumps room prefix m
        (if is_container v then deeper else Dict.put (prefix ++ k) v out)

  -- the loop over the first 50 values of a list, from the one at `i` on
  pub flatten_items : (Tree → Text) → ℕ → Text → ℕ → Items → Fields → Fields
  flatten_items dumps room prefix i nil out = out
  flatten_items dumps room prefix i (cons v vs) out =
      let deeper = flatten dumps room (prefix ++ (decimal i ++ codes ".")) v out in
      let rest = flatten_items dumps room prefix (suc i) vs deeper in if ltb i 50 then rest else out

-- `_flatten(obj)`
abbrev pub flattened : (Tree → Text) → Tree → Fields
flattened dumps obj = flatten dumps 8 [] obj []
