-- ===== src/Tests/StorageTests.antt =====
-- A raw row and events of two tenants.
use sih_ulpf.Common.{ℕ, ◌≡◌, refl, true, leb, [], ◌∷◌, Option, none, some}
use sih_ulpf.Common.Text.{Text, codes}
use sih_ulpf.Common.Dict
use sih_ulpf.Common.Int.{pos}
use sih_ulpf.Models.{RawRecord, RawLocation, SegmentName}
use sih_ulpf.Normalization.Tree.{Tree}
use sih_ulpf.Normalization.Normalize.{NormalizedEvent, normalize}
use sih_ulpf.Storage.Tables.{rows}
use sih_ulpf.Storage.Raw.{index_raw_bulk, get_raw_location}
use sih_ulpf.Storage.FirstWins.{Spec, note_all, index_raw_bulk-Refines}
use sih_ulpf.Storage.Events.{
  EventTables, EventQuery, Search, event_row, query_events, write_events_bulk,
}
use sih_ulpf.Storage.Isolation.{All, Coherent, query_events_own}
use sih_ulpf.Storage.Writes.{write_singly, write_events_bulk-singly}
use sih_ulpf.Tests.NormalizationTests.{builtins, parsed, circumstances}

abbrev rec : RawRecord
rec = record {
  raw_event_id = codes "d";
  tenant_id = codes "t";
  source_id = codes "s";
  transport = codes "tcp";
  peer = none;
  received_at = 0;
  payload = [];
}

abbrev at : ℕ → RawLocation
at n = record { segment = SegmentName.unrecoverable; offset = n; length = 3 }

abbrev nothing : Spec
nothing tenant id = none

is_empty : (tenant id : Text) → get_raw_location tenant id [] ≡ nothing tenant id
unfolding get_raw_location Dict.get
is_empty tenant id = refl

index_raw_bulk-Refines_example :
    get_raw_location (codes "t") (codes "d") (index_raw_bulk ((rec, at 7) ∷ (rec, at 9) ∷ []) [])
    ≡ note_all ((rec, at 7) ∷ (rec, at 9) ∷ []) nothing (codes "t") (codes "d")
index_raw_bulk-Refines_example =
    index_raw_bulk-Refines ((rec, at 7) ∷ (rec, at 9) ∷ []) [] nothing is_empty (codes "t")
      (codes "d")

abbrev timestamp : Tree → Option ℕ
timestamp v = some 4

abbrev ev : NormalizedEvent ℕ
ev = normalize builtins (codes "e1") 9 parsed circumstances

abbrev other : NormalizedEvent ℕ
other = normalize builtins (codes "e2") 9 parsed (record circumstances { tenant_id = codes "u" })

abbrev tables : EventTables ℕ
tables = record {
  events =
      (codes "e1", event_row timestamp 3 (ev, (codes "sh", codes "fh")))
      ∷ (codes "e2", event_row timestamp 3 (other, (codes "sh", codes "fh")))
      ∷ [];
  events_fts = none;
}

says : Coherent tables
unfolding Coherent rows normalize
says = (refl, (refl, tt))

abbrev search_in : Search ℕ
search_in = record {
  leb_f = leb;
  fts_matches = λ q fts. [];
  ilike = λ q s. true;
  tree_eq = λ v w. true;
  split_words = λ s. s ∷ [];
}

abbrev everything : EventQuery ℕ
everything = record {
  source_id = none;
  tier = some 2;
  class_uid = none;
  parser_id = none;
  min_confidence = some 50;
  max_confidence = none;
  q = none;
  since = none;
  until = none;
  limit = pos 100;
  offset = 0;
  descending = true;
}

query_events_own_example :
    All (λ ev. ev.tenant_id ≡ codes "t") (query_events search_in (codes "t") everything tables)
query_events_own_example = query_events_own search_in (codes "t") everything tables says

write_events_bulk-singly_example :
    write_events_bulk timestamp 3
      ((ev, (codes "sh", codes "fh")) ∷ (other, (codes "sh", codes "fh")) ∷ [])
      tables
    ≡ write_singly timestamp 3
        ((ev, (codes "sh", codes "fh")) ∷ (other, (codes "sh", codes "fh")) ∷ [])
        tables
write_events_bulk-singly_example =
    write_events_bulk-singly timestamp 3
      ((ev, (codes "sh", codes "fh")) ∷ (other, (codes "sh", codes "fh")) ∷ []) tables
