-- ===== src/Normalization/Body.antt =====
-- `_set_path`, `_ocsf_field`, `_unmapped` and `_endpoints` of uli/normalization/ocsf.py, over the
-- fields of the parser's result as trees.
use sih_ulpf.Common.{
  Bool, false, ◌||◌, not, List, [], ◌∷◌, Option, none, some, if◌then◌else◌, length, drop, take,
}
use sih_ulpf.Common.Int.{ℤ}
use sih_ulpf.Common.Text.{Text, codes, starts_with}
use sih_ulpf.Common.Strings.{split_on, starts_with_any}
use sih_ulpf.Common.Dict
use sih_ulpf.Common.Dict.{Dict}
use sih_ulpf.Common.Eq.{text_key}
use sih_ulpf.Normalization.Tree
use sih_ulpf.Normalization.Tree.{
  Tree, Members, null, int, string, object, end, member, truthy, is_scalar,
}

abbrev pub Fields : Type 0
Fields = Dict Text Tree

-- `_ALWAYS_RESERVED_FIELD_PREFIXES`
abbrev pub always_reserved_field_prefixes : List Text
always_reserved_field_prefixes =
    codes "__"
    ∷ codes "syslog."
    ∷ codes "cef."
    ∷ codes "leef."
    ∷ codes "sd."
    ∷ codes "inferred."
    ∷ []

abbrev pub is_ocsf : Text → Bool
is_ocsf k = starts_with k (codes "ocsf.")

-- along the parts of the path; a value on the way that is no dictionary ends it
unfoldable pub set_parts : List Text → Tree → Members → Members
unfolding Tree.put
set_parts [] value cur = cur
set_parts (p ∷ []) value cur = Tree.put p value cur
set_parts (p ∷ q ∷ parts) value cur = elim (Tree.get p cur) as (λ _. Members) [
  | none ↦ Tree.put p (object (set_parts (q ∷ parts) value end)) cur
  | some (object inner) ↦ Tree.put p (object (set_parts (q ∷ parts) value inner)) cur
  | some other ↦ cur
]

-- `_set_path`
unfoldable pub set_path : Members → Text → Tree → Members
unfolding set_parts split_on
set_path d path value = set_parts (split_on b'.' path) value d

unfoldable pub ocsf_field_from : Fields → Members → Members
unfolding set_path
ocsf_field_from [] out = out
ocsf_field_from ((k, v) ∷ fields) out =
    let here = set_path out (drop (length (codes "ocsf.")) k) v in
    ocsf_field_from fields (if is_ocsf k then here else out)

-- `_ocsf_field`
abbrev pub ocsf_field : Fields → Members
ocsf_field fields = ocsf_field_from fields end

module _ (str_of : Tree → Text) where
  -- what is kept of a value that has no mapping
  abbrev pub plain : Tree → Tree
  plain v = if is_scalar v then v else string (take 2000 (str_of v))

  -- what `continue` does not pass over
  unfoldable pub is_kept : Text → Tree → Bool
  is_kept k null = false
  is_kept k v = not (is_ocsf k || starts_with_any k always_reserved_field_prefixes)

  unfoldable pub unmapped_from : Fields → Members → Members
  unfolding is_kept
  unmapped_from [] out = out
  unmapped_from ((k, v) ∷ fields) out =
      unmapped_from fields (if is_kept k v then Tree.put k (plain v) out else out)

  -- `_unmapped`
  abbrev pub unmapped : Fields → Members
  unmapped fields = unmapped_from fields end

-- `not in ocsf_body and fields.get(key)`: the value, when the member is to be set
abbrev pub wanted : Text → Text → Fields → Members → Option Tree
wanted name key fields body = elim (Tree.get name body) as (λ _. Option Tree) [
  | some there ↦ none
  | none ↦ elim (Dict.get key fields) as (λ _. Option Tree) [
    | none ↦ none
    | some v ↦ if truthy v then some v else none
  ]
]

module _ (int_of : Tree → Option ℤ) where
  -- `{"ip": .., "port": ..}`; a port that `int` does not read is left out
  abbrev pub endpoint : Tree → Option Tree → Members
  endpoint ip none = member (codes "ip") ip end
  endpoint ip (some port) = elim (if truthy port then int_of port else none) as (λ _. Members) [
    | none ↦ member (codes "ip") ip end
    | some n ↦ member (codes "ip") ip (member (codes "port") (int n) end)
  ]

  abbrev pub add_endpoint : Text → Text → Text → Fields → Members → Members
  add_endpoint name ip_key port_key fields body =
      elim (wanted name ip_key fields body) as (λ _. Members) [
        | none ↦ body
        | some ip ↦ Tree.put name (object (endpoint ip (Dict.get port_key fields))) body
      ]

  abbrev pub add_connection : Fields → Members → Members
  add_connection fields body =
      elim (wanted (codes "connection_info") (codes "__proto") fields body) as (λ _. Members) [
        | none ↦ body
        | some p ↦
            Tree.put (codes "connection_info") (object (member (codes "protocol_name") p end)) body
      ]

  -- `_endpoints`
  unfoldable pub endpoints : Fields → Members → Members
  unfolding Tree.put Tree.get Dict.get
  endpoints fields body = add_connection fields (
      add_endpoint (codes "dst_endpoint") (codes "__dst_ip") (codes "__dst_port") fields
        (add_endpoint (codes "src_endpoint") (codes "__src_ip") (codes "__src_port") fields body))
