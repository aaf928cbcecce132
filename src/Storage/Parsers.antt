-- ===== src/Storage/Parsers.antt =====
-- The parsers, the suggestions and the fingerprints of uli/storage/sql.py.
use sih_ulpf.Common.{
  ℕ, ◌+◌, Bool, true, false, List, [], ◌∷◌, Option, none, some, if◌then◌else◌, take,
}
use sih_ulpf.Common.Text.{Text, text_eq, codes}
use sih_ulpf.Common.Strings.{leb_text}
use sih_ulpf.Common.Dict
use sih_ulpf.Common.Dict.{Dict}
use sih_ulpf.Common.Eq.{text_key}
use sih_ulpf.Common.Int.{pos}
use sih_ulpf.Normalization.Tree
use sih_ulpf.Normalization.Tree.{Tree, Members, string, int, end, member, set_default}
use sih_ulpf.Storage.Tables.{filter, rows, insert, update, order_desc}

-- A row as the dictionary of its columns; one that is not there is NULL.
abbrev pub Row : Type 0
Row = Members

-- rows by their primary key
abbrev pub RowTable : Type 0
RowTable = Dict Text Row

-- `SET`: `vals` over what the row has
unfoldable pub set_all : Members → Row → Row
unfolding Tree.put
set_all end r = r
set_all (member k v vals) r = set_all vals (Tree.put k v r)

abbrev pub has_text : Text → Text → Row → Bool
has_text column s r = elim (Tree.get column r) as (λ _. Bool) [
  | some (string t) ↦ text_eq t s
  | _ ↦ false
]

-- the number in a column; NULL is the least
abbrev pub nat_column : Text → Row → ℕ
nat_column column r = elim (Tree.get column r) as (λ _. ℕ) [ some (int (pos n)) ↦ n | _ ↦ 0 ]

abbrev pub text_column : Text → Row → Text
text_column column r = elim (Tree.get column r) as (λ _. Text) [ some (string t) ↦ t | _ ↦ [] ]

-- `if status: .. where(status == ..)`
abbrev pub has_status : Option Text → Row → Bool
has_status none r = true
has_status (some []) r = true
has_status (some (c ∷ s)) r = has_text (codes "status") (c ∷ s) r

unfoldable pub insert_by : (Row → Text) → Row → List Row → List Row
unfolding leb_text
insert_by key v [] = v ∷ []
insert_by key v (w ∷ ws) =
    let later = insert_by key v ws in if leb_text (key v) (key w) then v ∷ w ∷ ws else w ∷ later

unfoldable pub order_by : (Row → Text) → List Row → List Row
unfolding insert_by
order_by key [] = []
order_by key (v ∷ vs) = insert_by key v (order_by key vs)

-- `upsert_parser`, where `fields` holds `parser_id`
unfoldable pub upsert_parser : ℕ → Text → Members → RowTable → RowTable
unfolding set_all
upsert_parser now pid fields t = elim (Dict.get pid t) as (λ _. RowTable) [
  | none ↦ Dict.put pid (set_all fields (member (codes "created_at") (int (pos now)) end)) t
  | some r ↦ Dict.put pid (set_all fields r) t
]

unfoldable pub list_parsers : Option Text → RowTable → List Row
unfolding filter rows order_by
list_parsers status t =
    order_by (text_column (codes "parser_id")) (filter (has_status status) (rows t))

unfoldable pub get_parser : Text → RowTable → Option Row
get_parser parser_id t = Dict.get parser_id t

-- `add_suggestion`, with a fresh id; a given id that is there raises
unfoldable pub add_suggestion : Text → ℕ → Members → RowTable → Option RowTable
unfolding Tree.put Tree.get set_default insert
add_suggestion fresh now fields t =
    let row = set_default (codes "status") (string (codes "pending")) (
      set_default (codes "created_at") (int (pos now))
        (set_default (codes "suggestion_id") (string fresh) fields)) in
    insert (text_column (codes "suggestion_id") row) row t

unfoldable pub list_suggestions : Option Text → RowTable → List Row
unfolding filter rows order_desc
list_suggestions status t =
    order_desc (nat_column (codes "created_at")) (filter (has_status status) (rows t))

unfoldable pub get_suggestion : Text → RowTable → Option Row
get_suggestion suggestion_id t = Dict.get suggestion_id t

unfoldable pub update_suggestion : Text → Members → RowTable → RowTable
unfolding set_all update
update_suggestion suggestion_id fields t = update suggestion_id (set_all fields) t

-- A row of `fingerprints`.
pub record FingerprintRow : Type 0 where
  pub shape_hash : Text
  pub family_hash : Text
  pub shape : Text
  pub example_raw_event_id : Option Text
  pub first_seen : ℕ
  pub last_seen : ℕ
  pub count : ℕ
  pub routed_parser_id : Option Text

-- `if routed_parser_id:` over the one that the row has
abbrev routed_or : Option Text → Option Text → Option Text
routed_or none old = old
routed_or (some []) old = old
routed_or (some (c ∷ s)) old = some (c ∷ s)

abbrev pub seen :
    ℕ → Text → Text → Text → Option Text → Option Text → ℕ → Option FingerprintRow → FingerprintRow
seen now shape_hash family_hash shape example routed inc none = record {
  shape_hash = shape_hash;
  family_hash = family_hash;
  shape = take 4000 shape;
  example_raw_event_id = example;
  first_seen = now;
  last_seen = now;
  count = inc;
  routed_parser_id = routed;
}
seen now shape_hash family_hash shape example routed inc (some r) = record r {
  last_seen = now;
  count = r.count + inc;
  routed_parser_id = routed_or routed r.routed_parser_id;
}

unfoldable pub upsert_fingerprint :
    ℕ
    → Text
    → Text
    → Text
    → Option Text
    → Option Text
    → ℕ
    → Dict Text FingerprintRow
    → Dict Text FingerprintRow
upsert_fingerprint now shape_hash family_hash shape example routed inc t =
    Dict.put shape_hash
      (seen now shape_hash family_hash shape example routed inc (Dict.get shape_hash t)) t

unfoldable pub list_fingerprints : ℕ → Dict Text FingerprintRow → List FingerprintRow
unfolding rows order_desc
list_fingerprints limit t = take limit (order_desc (λ r. r.count) (rows t))
