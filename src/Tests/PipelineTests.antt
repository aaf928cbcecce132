-- ===== src/Tests/PipelineTests.antt =====
-- Runs of the pipeline over components that raise whenever they can.
use sih_ulpf.Common.{ℕ, ◌≡◌, refl, true, List, [], ◌∷◌, none, some}
use sih_ulpf.Common.Text.{Text, codes, count_char}
use sih_ulpf.Fingerprint.Unicode.{ascii}
use sih_ulpf.Models.{RawRecord}
use sih_ulpf.Pipeline.Parts.{RawEnvelope, Event, Parts}
use sih_ulpf.Pipeline.Single.{raw_record, process}
use sih_ulpf.Pipeline.Batch.{records, process_batch}
use sih_ulpf.Pipeline.Total.{NormalizeLaws, process_total}
use sih_ulpf.Pipeline.Complete.{ids, process_batch_total}

-- Nothing but the decoders and `normalize` returns; the world counts nothing.
abbrev pub broken : Parts ℕ ℕ ℕ
broken = record {
  b64decode = λ s. some s;
  sha256_hex = λ b. b;
  decode_utf8 = λ b. b;
  zero_f = 0;
  below_tau = λ x. true;
  get_raw_location = λ t r w. (none, w);
  find_raw_locations = λ t r w. (none, w);
  append = λ r w. (none, w);
  index_raw = λ r l w. (none, w);
  index_raw_bulk = λ rows w. (none, w);
  run = λ env t b w. (none, w);
  observe = λ t s p h c w. (none, w);
  correlate = λ d w. (none, w);
  update_parser_drift = λ d x w. (none, w);
  record_unknown = λ env ctx ir r w. (none, w);
  normalize = λ env o ir. some (record {
    event_id = codes "e";
    raw_event_id = o.raw_event_id;
    parser_id = ir.parser_id;
    tier = ir.tier;
  });
  write_event = λ row w. (none, w);
  write_events_bulk = λ rows w. (none, w);
  upsert_source = λ t s a w. (none, w);
  upsert_sources_bulk = λ t a w. (none, w);
}

pub broken_laws : NormalizeLaws broken
broken_laws = record { normalizes = λ env o ir. (_, refl, refl) }

abbrev envelope : Text → RawEnvelope
envelope payload = record {
  tenant_id = codes "t";
  project_id = codes "p";
  source_id = codes "s";
  transport = codes "tcp";
  received_at = 0;
  peer = none;
  payload_b64 = payload;
  payload_sha256 = none;
  hints = [];
}

process_total_example :
    (ev : Event) × ((process ascii (λ s. s) broken (envelope (codes "up")) 0).0 ≡ some ev)
    × (ev.raw_event_id ≡ codes "up")
unfolding count_char
process_total_example =
    process_total ascii (λ s. s) broken broken_laws (envelope (codes "up")) (codes "up") 0 refl refl

abbrev two_items : List (RawEnvelope × RawRecord)
two_items =
    (envelope (codes "a"), raw_record (codes "a") (envelope (codes "a")) (codes "a"))
    ∷ (envelope (codes "b"), raw_record (codes "b") (envelope (codes "b")) (codes "b"))
    ∷ []

process_batch_total_example :
    (evs : List Event) × ((process_batch ascii
        (λ s. s)
        broken
        (envelope (codes "a") ∷ envelope (codes "b") ∷ [])
        0).0
      ≡ some evs)
    × (ids evs ≡ codes "a" ∷ codes "b" ∷ [])
unfolding count_char records
process_batch_total_example =
    process_batch_total ascii (λ s. s) broken broken_laws
      (envelope (codes "a") ∷ envelope (codes "b") ∷ []) two_items 0 refl (refl, (refl, tt))
