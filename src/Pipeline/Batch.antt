-- ===== src/Pipeline/Batch.antt =====
-- `process_batch` of uli/pipeline.py.
use mathlib.Core.Option
use sih_ulpf.Common.{ℕ, suc, List, [], ◌∷◌, ◌++◌, Option, none, some}
use sih_ulpf.Common.Text.{Text}
use sih_ulpf.Common.Dict
use sih_ulpf.Common.Dict.{Dict}
use sih_ulpf.Common.Eq.{text_key, pair_eq}
use sih_ulpf.Models.{RawRecord, RawLocation}
use sih_ulpf.Fingerprint.Unicode.{Unicode}
use sih_ulpf.Fingerprint.Shape.{Digest}
use sih_ulpf.Pipeline.Parts.{RawEnvelope, Event, Agg, Done, and_then, rescue, Parts}
use sih_ulpf.Pipeline.Single.{raw_record, unkept, compute, emergency}

-- tenant and digest
abbrev pub RawKey : Type 0
RawKey = Text × Text

-- One envelope with what phase 1 has found out about it.
pub record Placed : Type 0 where
  pub env : RawEnvelope
  pub rec : RawRecord
  pub loc : RawLocation
  pub duplicate_of : Option Text

-- `by_tenant`, with the digests in place of the indices
unfoldable pub by_tenant :
    List (RawEnvelope × RawRecord) → Dict Text (List Text) → Dict Text (List Text)
by_tenant [] groups = groups
by_tenant ((env, rec) ∷ items) groups = by_tenant items (
    Dict.put env.tenant_id
      (Option.get_or (Dict.get env.tenant_id groups) [] ++ (rec.raw_event_id ∷ [])) groups)

unfoldable pub note_found :
    Text → List (Text × RawLocation) → Dict RawKey RawLocation → Dict RawKey RawLocation
note_found tenant [] existing = existing
note_found tenant ((rid, loc) ∷ found) existing =
    note_found tenant found (Dict.put (tenant, rid) loc existing)

-- `source_incs`
abbrev pub Incs : Type 0
Incs = Dict Text (Dict Text Agg)

abbrev agg_inc : Option Agg → ℕ
agg_inc none = 0
agg_inc (some a) = a.inc

unfoldable pub bump : RawEnvelope → Event → Incs → Incs
bump env ev incs =
    let aggs = Option.get_or (Dict.get env.tenant_id incs) [] in
    Dict.put env.tenant_id
      (Dict.put env.source_id
        (record {
          inc = suc (agg_inc (Dict.get env.source_id aggs));
          transport = env.transport;
          active_parser_id = ev.parser_id;
        })
        aggs)
      incs

-- `results`, `event_rows` and `source_incs`
pub record Results : Type 0 where
  pub results : List Event
  pub event_rows : List (Event × (Text × Text))
  pub source_incs : Incs

module _ {F D W : Type 0} (u : Unicode) (sha1_hex : Digest) (parts : Parts F D W) where
  -- `payloads`, `raw_ids` and `recs`; the first payload that does not decode raises
  unfoldable pub records : List RawEnvelope → Option (List (RawEnvelope × RawRecord))
  records [] = some []
  records (env ∷ envs) =
      let rest = records envs in
      elim (parts.b64decode env.payload_b64) as (λ _. Option (List (RawEnvelope × RawRecord))) [
        | none ↦ none
        | some payload ↦
            Option.map (λ items. (env, raw_record (parts.sha256_hex payload) env payload) ∷ items)
              rest
      ]

  -- the lookup of every tenant's digests; one that raises finds nothing
  unfoldable pub look_up :
      Dict Text (List Text) → Dict RawKey RawLocation → W → Dict RawKey RawLocation × W
  unfolding note_found
  look_up [] existing w = (existing, w)
  look_up ((tenant, ids) ∷ groups) existing w =
      let (found, w') = parts.find_raw_locations tenant ids w in
      look_up groups (note_found tenant (Option.get_or found []) existing) w'

  -- The loop that gives every envelope a location, and the rows that are new.
  unfoldable pub place :
      List (RawEnvelope × RawRecord)
      → Dict RawKey RawLocation
      → W
      → (List Placed × List (RawRecord × RawLocation)) × W
  place [] existing w = (([], []), w)
  place ((env, rec) ∷ items) existing w =
      let key : RawKey = (env.tenant_id, rec.raw_event_id) in
      elim (Dict.get key existing) as (λ _. (List Placed × List (RawRecord × RawLocation)) × W) [
        | some loc ↦
            let ((placed, rows), w') = place items existing w in
            (
              (
                record { env = env; rec = rec; loc = loc; duplicate_of = some rec.raw_event_id }
                    ∷ placed,
                rows,
              ),
              w',
            )
        | none ↦
            let (kept, w1) = parts.append rec w in
            let loc = Option.get_or kept (unkept rec.payload) in
            let ((placed, rows), w') = place items (Dict.put key loc existing) w1 in
            (
              (
                record { env = env; rec = rec; loc = loc; duplicate_of = none } ∷ placed,
                (rec, loc) ∷ rows,
              ),
              w',
            )
      ]

  -- what phase 2 notes of an event that `_compute` returns
  abbrev pub note_row : RawEnvelope → Event × (Text × Text) → Results → Results
  note_row env row r = record {
    results = r.results ++ (row.0 ∷ []);
    event_rows = r.event_rows ++ (row ∷ []);
    source_incs = bump env row.0 r.source_incs;
  }

  abbrev pub note_emergency : Event → Results → Results
  note_emergency ev r = record r { results = r.results ++ (ev ∷ []) }

  -- one round of phase 2
  unfoldable pub emit : Placed → Results → W → Done W Results
  unfolding bump
  emit p r w =
      rescue
        (and_then (compute u sha1_hex parts p.env p.rec p.loc p.duplicate_of w)
          (λ row w'. (some (note_row p.env row r), w')))
        (λ w'.
          and_then (emergency u sha1_hex parts p.env p.rec w')
            (λ ev w''. (some (note_emergency ev r), w'')))

  unfoldable pub emit_all : List Placed → Results → W → Done W Results
  unfolding emit
  emit_all [] r w = (some r, w)
  emit_all (p ∷ ps) r w = and_then (emit p r w) (emit_all ps)

  -- the writes one by one; none of them raises
  unfoldable pub write_each : List (Event × (Text × Text)) → W → W
  write_each [] w = w
  write_each (row ∷ rows) w = write_each rows (parts.write_event row w).1

  unfoldable pub write_rows : List (Event × (Text × Text)) → W → W
  unfolding write_each
  write_rows [] w = w
  write_rows (row ∷ rows) w =
      (rescue (parts.write_events_bulk (row ∷ rows) w)
        (λ w'. (some tt, write_each (row ∷ rows) w'))).1

  unfoldable pub write_sources : Incs → W → W
  write_sources [] w = w
  write_sources ((tenant, aggs) ∷ incs) w =
      write_sources incs (parts.upsert_sources_bulk tenant aggs w).1

  abbrev pub index_rows : List (RawRecord × RawLocation) → W → W
  index_rows [] w = w
  index_rows (row ∷ rows) w = (parts.index_raw_bulk (row ∷ rows) w).1

  unfoldable pub process_batch : List RawEnvelope → W → Done W (List Event)
  unfolding records by_tenant look_up place emit_all write_rows write_sources
  process_batch envs w = elim (records envs) as (λ _. Done W (List Event)) [
    | none ↦ (none, w)
    | some items ↦
        let (existing, w1) = look_up (by_tenant items []) [] w in
        let ((placed, rows), w2) = place items existing w1 in
        and_then
          (emit_all placed (record { results = []; event_rows = []; source_incs = [] })
            (index_rows rows w2))
          (λ r w3. (some r.results, write_sources r.source_incs (write_rows r.event_rows w3)))
  ]
