-- ===== src/Storage/FirstWins.antt =====
-- The raw index refines a map from tenant and digest to the location that was noted first.
use mathlib.Core.Option
use sih_ulpf.Common.{◌≡◌, refl, ◌∙◌, ap, List, [], ◌∷◌, Option, none, some, Bool-cases, inl, inr}
use sih_ulpf.Common.Text.{Text}
use sih_ulpf.Common.Dict
use sih_ulpf.Common.Eq.{text_key, pair_eq}
use sih_ulpf.Models.{RawRecord, RawLocation}
use sih_ulpf.Storage.Tables.{or_at, insert_ignore, get-insert_ignore}
use sih_ulpf.Storage.Raw.{
  RawTable, RawKey, RawRow, row_of, index_raw, index_raw_bulk, get_raw_location,
}

-- The abstract index: where the payload of a tenant with a digest is.
abbrev pub Spec : Type 0
Spec = Text → Text → Option RawLocation

-- the location that is noted first stays
abbrev pub note_first : RawRecord → RawLocation → Spec → Spec
note_first rec loc spec tenant id =
    or_at {K = RawKey} (rec.raw_event_id, rec.tenant_id) (id, tenant) loc (spec tenant id)

abbrev pub note_all : List (RawRecord × RawLocation) → Spec → Spec
note_all [] spec = spec
note_all ((rec, loc) ∷ items) spec = note_all items (note_first rec loc spec)

-- The table stands for the map.
abbrev pub Refines : RawTable → Spec → Type 0
Refines t spec = (tenant id : Text) → get_raw_location tenant id t ≡ spec tenant id

map-or_at :
    (k j : RawKey) (row : RawRow) (o : Option RawRow)
    → Option.map (λ r. r.loc) (or_at k j row o) ≡ or_at k j row.loc (Option.map (λ r. r.loc) o)
map-or_at k j row none = elim (Bool-cases (pair_eq.beq k j)) [
  | inl e ↦ rw e refl
  | inr e ↦ rw e refl
]
map-or_at k j row (some r) = refl

index_one :
    (rec : RawRecord) (loc : RawLocation) (t : RawTable) (spec : Spec)
    → Refines t spec
    → Refines
        (insert_ignore (rec.raw_event_id, rec.tenant_id) (row_of rec loc) t)
        (note_first rec loc spec)
unfolding get_raw_location
index_one rec loc t spec h tenant id =
    let k : RawKey = (rec.raw_event_id, rec.tenant_id) in
    let j : RawKey = (id, tenant) in
    ap (λ (o : Option RawRow). Option.map (λ r. r.loc) o) (get-insert_ignore k j (row_of rec loc) t)
    ∙ map-or_at k j (row_of rec loc) (Dict.get j t)
    ∙ ap (λ (o : Option RawLocation). or_at k j loc o) (h tenant id)

-- `index_raw` refines the map: a digest of a tenant that is there keeps its location, another one gets
-- the new location, and no other entry changes.
pub index_raw-Refines :
    (rec : RawRecord) (loc : RawLocation) (t : RawTable) (spec : Spec)
    → Refines t spec
    → Refines (index_raw rec loc t) (note_first rec loc spec)
unfolding index_raw
index_raw-Refines rec loc t spec h = index_one rec loc t spec h

-- If the table of raw rows implements a map from a tenant and a digest to the first location noted
-- for them, it still does after `index_raw_bulk`, with the rows of the batch noted in turn, duplicates
-- within the batch included.
pub index_raw_bulk-Refines :
    (items : List (RawRecord × RawLocation)) (t : RawTable) (spec : Spec)
    → Refines t spec
    → Refines (index_raw_bulk items t) (note_all items spec)
unfolding index_raw_bulk
index_raw_bulk-Refines [] t spec h = h
index_raw_bulk-Refines ((rec, loc) ∷ items) t spec h =
    index_raw_bulk-Refines items
      (insert_ignore (rec.raw_event_id, rec.tenant_id) (row_of rec loc) t) (note_first rec loc spec)
      (index_one rec loc t spec h)
