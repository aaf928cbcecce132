-- ===== src/Storage/Raw.antt =====
-- `index_raw`, `index_raw_bulk`, `find_raw_locations` and `get_raw_location` of uli/storage/sql.py.
use mathlib.Core.Option
use sih_ulpf.Common.{ℕ, ◌&&◌, List, [], ◌∷◌, Option, map}
use sih_ulpf.Common.Text.{Text, text_eq, mem_text}
use sih_ulpf.Common.Dict
use sih_ulpf.Common.Dict.{Dict}
use sih_ulpf.Common.Eq.{text_key, pair_eq}
use sih_ulpf.Models.{RawRecord, RawLocation}
use sih_ulpf.Storage.Tables.{insert_ignore, filter, rows}

-- A row of `raw_index`.
pub record RawRow : Type 0 where
  pub raw_event_id : Text
  pub tenant_id : Text
  pub source_id : Text
  pub loc : RawLocation
  pub received_at : ℕ

-- the primary key: digest and tenant
abbrev pub RawKey : Type 0
RawKey = Text × Text

abbrev pub RawTable : Type 0
RawTable = Dict RawKey RawRow

abbrev pub row_of : RawRecord → RawLocation → RawRow
row_of rec loc = record {
  raw_event_id = rec.raw_event_id;
  tenant_id = rec.tenant_id;
  source_id = rec.source_id;
  loc = loc;
  received_at = rec.received_at;
}

unfoldable pub index_raw : RawRecord → RawLocation → RawTable → RawTable
index_raw rec loc t = insert_ignore (rec.raw_event_id, rec.tenant_id) (row_of rec loc) t

-- One statement for all rows; a key that an earlier row of it has brought in conflicts as well.
unfoldable pub index_raw_bulk : List (RawRecord × RawLocation) → RawTable → RawTable
index_raw_bulk [] t = t
index_raw_bulk ((rec, loc) ∷ items) t =
    index_raw_bulk items (insert_ignore (rec.raw_event_id, rec.tenant_id) (row_of rec loc) t)

unfoldable pub get_raw_location : Text → Text → RawTable → Option RawLocation
get_raw_location tenant_id raw_event_id t =
    Option.map (λ r. r.loc) (Dict.get (raw_event_id, tenant_id) t)

-- The result as a dictionary from digests to locations.
unfoldable pub find_raw_locations : Text → List Text → RawTable → List (Text × RawLocation)
unfolding filter rows
find_raw_locations tenant_id [] t = []
find_raw_locations tenant_id (id ∷ ids) t =
    map (λ r. (r.raw_event_id, r.loc))
      (filter (λ r. text_eq r.tenant_id tenant_id && mem_text r.raw_event_id (id ∷ ids)) (rows t))
