-- ===== src/Storage/Sources.antt =====
-- `upsert_source`, `upsert_sources_bulk`, `get_source` and `list_sources` of uli/storage/sql.py.
use mathlib.Core.Option
use sih_ulpf.Common.{ℕ, ◌+◌, List, [], ◌∷◌, Option, none, some}
use sih_ulpf.Common.Text.{Text, codes, text_eq}
use sih_ulpf.Common.Dict
use sih_ulpf.Common.Dict.{Dict}
use sih_ulpf.Common.Eq.{text_key, pair_eq}
use sih_ulpf.Pipeline.Parts.{Agg}
use sih_ulpf.Storage.Tables.{filter, rows, order_desc}

-- A row of `sources`, as far as the program writes it.
pub record SourceRow : Type 0 where
  pub tenant_id : Text
  pub source_id : Text
  pub display_name : Text
  pub transport : Option Text
  pub first_seen : ℕ
  pub last_seen : ℕ
  pub event_count : ℕ
  pub active_parser_id : Option Text
  pub parser_health : Text

-- the primary key: tenant and source
abbrev pub SourceKey : Type 0
SourceKey = Text × Text

abbrev pub SourceTable : Type 0
SourceTable = Dict SourceKey SourceRow

-- `**fields`: what is not given is left as it is
pub record SourceFields : Type 0 where
  pub inc : ℕ
  pub transport : Option Text
  pub active_parser_id : Option Text
  pub parser_health : Option Text

abbrev pub given_or : Option Text → Option Text → Option Text
given_or (some x) old = some x
given_or none old = old

-- the row behind the statement, from the row before it
unfoldable pub upserted : ℕ → Text → Text → SourceFields → Option SourceRow → SourceRow
upserted now tenant_id source_id f none = record {
  tenant_id = tenant_id;
  source_id = source_id;
  display_name = source_id;
  transport = f.transport;
  first_seen = now;
  last_seen = now;
  event_count = f.inc;
  active_parser_id = f.active_parser_id;
  parser_health = Option.get_or f.parser_health (codes "unknown");
}
upserted now tenant_id source_id f (some r) = record r {
  last_seen = now;
  transport = given_or f.transport r.transport;
  active_parser_id = given_or f.active_parser_id r.active_parser_id;
  parser_health = Option.get_or f.parser_health r.parser_health;
  event_count = r.event_count + f.inc;
}

unfoldable pub upsert_source : ℕ → Text → Text → SourceFields → SourceTable → SourceTable
unfolding upserted
upsert_source now tenant_id source_id f t =
    Dict.put (tenant_id, source_id)
      (upserted now tenant_id source_id f (Dict.get (tenant_id, source_id) t)) t

-- one row of the statement of `upsert_sources_bulk`: inserted, or `set_` on a conflict
unfoldable pub merged : ℕ → Text → Text → Agg → Option SourceRow → SourceRow
merged now tenant_id source_id a none = record {
  tenant_id = tenant_id;
  source_id = source_id;
  display_name = source_id;
  transport = some a.transport;
  first_seen = now;
  last_seen = now;
  event_count = a.inc;
  active_parser_id = some a.active_parser_id;
  parser_health = codes "unknown";
}
merged now tenant_id source_id a (some r) = record r {
  last_seen = now;
  transport = some a.transport;
  active_parser_id = some a.active_parser_id;
  event_count = r.event_count + a.inc;
}

unfoldable pub upsert_sources_bulk : ℕ → Text → Dict Text Agg → SourceTable → SourceTable
unfolding merged
upsert_sources_bulk now tenant_id [] t = t
upsert_sources_bulk now tenant_id ((source_id, a) ∷ aggs) t =
    upsert_sources_bulk now tenant_id aggs (
      Dict.put (tenant_id, source_id)
        (merged now tenant_id source_id a (Dict.get (tenant_id, source_id) t)) t)

unfoldable pub get_source : Text → Text → SourceTable → Option SourceRow
get_source tenant_id source_id t = Dict.get (tenant_id, source_id) t

unfoldable pub list_sources : Text → SourceTable → List SourceRow
unfolding filter rows order_desc
list_sources tenant_id t =
    order_desc (λ r. r.last_seen) (filter (λ r. text_eq r.tenant_id tenant_id) (rows t))
