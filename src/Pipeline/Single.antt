-- ===== src/Pipeline/Single.antt =====
-- `_compute`, `_process_inner`, `_emergency_event` and `process` of uli/pipeline.py.
use mathlib.Core.Option
use sih_ulpf.Common.{false, ◌&&◌, [], ◌∷◌, Option, none, some, leb, length, take, if◌then◌else◌}
use sih_ulpf.Common.Text.{Text, codes}
use sih_ulpf.Models.{Bytes, RawRecord, RawLocation, unrecoverable, Ir, new_ir}
use sih_ulpf.Fingerprint.Unicode.{Unicode}
use sih_ulpf.Fingerprint.Shape.{Fingerprint, Digest, fingerprint}
use sih_ulpf.Engine.Ladder.{ParseContext}
use sih_ulpf.Pipeline.Parts.{RawEnvelope, Event, Done, and_then, rescue, Parts}

abbrev pub raw_record : Text → RawEnvelope → Bytes → RawRecord
raw_record raw_id env payload = record {
  raw_event_id = raw_id;
  tenant_id = env.tenant_id;
  source_id = env.source_id;
  transport = env.transport;
  peer = env.peer;
  received_at = env.received_at;
  payload = payload;
}

-- a location for a payload that could not be kept
abbrev pub unkept : Bytes → RawLocation
unkept payload = record { segment = unrecoverable; offset = 0; length = length payload }

abbrev pub context_of : RawEnvelope → Text → Bytes → Fingerprint → ParseContext
context_of env text payload fp = record {
  raw = payload;
  text = text;
  shape_of = fp;
  tenant_id = env.tenant_id;
  source_id = env.source_id;
  transport = env.transport;
  hints = env.hints;
  truncated = false;
}

module _ {F D W : Type 0} (u : Unicode) (sha1_hex : Digest) (parts : Parts F D W) where
  -- the parser's result, or what stands in for it when the engine raises
  unfoldable pub run_or_error : RawEnvelope → Text → Bytes → W → Done W (ParseContext × Ir F)
  run_or_error env text payload w = rescue (parts.run env text payload w) (λ w'. (
    Option.map
        (λ fp. (
          context_of env text payload fp,
          new_ir text 7 parts.zero_f (codes "engine.error") (codes "0")
              (codes "engine_exception" ∷ []),
        ))
        (fingerprint u sha1_hex text),
    w',
  ))

  -- the update of a drift event with what explains it; nothing of it is raised
  unfoldable pub explain : Option D → W → W
  explain none w = w
  explain (some d) w =
      (and_then (parts.correlate d w) (λ found w'. elim found as (λ _. Done W Unit) [
        | [] ↦ (some tt, w')
        | x ∷ xs ↦ parts.update_parser_drift d (x ∷ xs) w'
      ])).1

  -- drift and unknown sources; nothing of them is raised
  unfoldable pub note : RawEnvelope → Text → ParseContext × Ir F → W → W
  unfolding explain
  note env raw_id (ctx, ir) w =
      let (drift, w1) =
        parts.observe env.tenant_id env.source_id ir.parser_id ctx.shape_of.shape_hash ir.confidence
          w in
      let w2 = explain (Option.get_or drift none) w1 in
      if leb 4 ir.tier && parts.below_tau ir.confidence
      then (parts.record_unknown env ctx ir raw_id w2).1
      else w2

  -- what `_compute` returns behind them
  unfoldable pub normalized :
      RawEnvelope
      → Text
      → RawLocation
      → Option Text
      → ParseContext × Ir F
      → Option (Event × (Text × Text))
  normalized env raw_id loc duplicate_of (ctx, ir) =
      Option.map (λ ev. (ev, (ctx.shape_of.shape_hash, ctx.shape_of.family_hash)))
        (parts.normalize env
          (record {
            raw_event_id = raw_id;
            raw_loc = loc;
            shape_hash = ctx.shape_of.shape_hash;
            family_hash = ctx.shape_of.family_hash;
            duplicate_of = duplicate_of;
          })
          ir)

  unfoldable pub compute :
      RawEnvelope → RawRecord → RawLocation → Option Text → W → Done W (Event × (Text × Text))
  unfolding run_or_error note normalized
  compute env rec loc duplicate_of w =
      and_then (run_or_error env (parts.decode_utf8 rec.payload) rec.payload w) (λ parsed w'. (
        normalized env rec.raw_event_id loc duplicate_of parsed,
        note env rec.raw_event_id parsed w',
      ))

  -- the location of a payload that is new, or of the one that is there already
  unfoldable pub locate : RawRecord → Option RawLocation → W → Done W (RawLocation × Option Text)
  locate rec (some loc) w = (some (loc, some rec.raw_event_id), w)
  locate rec none w =
      and_then (parts.append rec w)
        (λ loc w'. and_then (parts.index_raw rec loc w') (λ _ w''. (some (loc, none), w'')))

  -- `_process_inner`, for a payload that has been decoded
  unfoldable pub inner : RawEnvelope → RawRecord → W → Done W Event
  unfolding compute locate
  inner env rec w =
      and_then (parts.get_raw_location env.tenant_id rec.raw_event_id w) (λ existing w1.
        and_then (locate rec existing w1) (λ place w2.
          and_then (compute env rec place.0 place.1 w2) (λ row w3.
            and_then (parts.write_event row w3) (λ _ w4.
              and_then
                (parts.upsert_source env.tenant_id env.source_id
                  (record {
                    inc = 1;
                    transport = env.transport;
                    active_parser_id = row.0.parser_id;
                  })
                  w4)
                (λ _ w5. (some row.0, w5))))))

  -- where `_emergency_event` says that the payload is
  unfoldable pub emergency_place : RawRecord → W → RawLocation × W
  emergency_place rec w =
      let (kept, w') =
        and_then (parts.append rec w)
          (λ loc w1. and_then (parts.index_raw rec loc w1) (λ _ w2. (some loc, w2))) in
      (Option.get_or kept (unkept rec.payload), w')

  -- `_emergency_event`, for a payload that has been decoded
  unfoldable pub emergency : RawEnvelope → RawRecord → W → Done W Event
  unfolding emergency_place normalized
  emergency env rec w =
      let text = parts.decode_utf8 rec.payload in
      let (loc, w') = emergency_place rec w in
      let made = Option.bind (fingerprint u sha1_hex (take 200 text)) (λ fp.
        normalized env rec.raw_event_id loc none (
          context_of env text rec.payload fp,
          new_ir (take 2000 text) 7 parts.zero_f (codes "engine.emergency") (codes "0")
              (codes "pipeline_failure" ∷ []),
        )) in
      and_then (made, w') (λ row w1. (some row.0, (parts.write_event row w1).1))

  -- `process`. The payload is decoded once in it and once more in the handler.
  unfoldable pub process : RawEnvelope → W → Done W Event
  unfolding inner emergency
  process env w = elim (parts.b64decode env.payload_b64) as (λ _. Done W Event) [
    | none ↦ (none, w)
    | some payload ↦
        let rec = raw_record (parts.sha256_hex payload) env payload in
        rescue (inner env rec w) (emergency env rec)
  ]
