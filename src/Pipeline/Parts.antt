-- ===== src/Pipeline/Parts.antt =====
-- What uli/pipeline.py calls, and how it handles exceptions: a call gives `none` when it raises, and
-- the state of the world that it leaves in any case.
use sih_ulpf.Common.{ℕ, Bool, List, Option, none, some}
use sih_ulpf.Common.Text.{Text}
use sih_ulpf.Models.{Bytes, RawRecord, RawLocation, Value, Ir}
use sih_ulpf.Engine.Ladder.{ParseContext}

-- `RawEnvelope`
pub record RawEnvelope : Type 0 where
  pub tenant_id : Text
  pub project_id : Text
  pub source_id : Text
  pub transport : Text
  pub received_at : ℕ
  pub peer : Option Text
  pub payload_b64 : Text
  pub payload_sha256 : Option Text
  pub hints : List (Text × Value)

-- `NormalizedEvent`, as far as the pipeline looks into it
pub record Event : Type 0 where
  pub event_id : Text
  pub raw_event_id : Text
  pub parser_id : Text
  pub tier : ℕ

-- The arguments of `normalize` besides the envelope and the result of the parser.
pub record Origin : Type 0 where
  pub raw_event_id : Text
  pub raw_loc : RawLocation
  pub shape_hash : Text
  pub family_hash : Text
  pub duplicate_of : Option Text

-- What a batch adds to a source.
pub record Agg : Type 0 where
  pub inc : ℕ
  pub transport : Text
  pub active_parser_id : Text

-- What a call gives: `none` when it raises.
abbrev pub Done : Type 0 → Type 0 → Type 0
Done W A = Option A × W

abbrev pub and_then : {W A B : Type 0} → Done W A → (A → W → Done W B) → Done W B
and_then (none, w) k = (none, w)
and_then (some a, w) k = k a w

-- `try: .. except Exception: ..`
abbrev pub rescue : {W A : Type 0} → Done W A → (W → Done W A) → Done W A
rescue (some a, w) h = (some a, w)
rescue (none, w) h = h w

-- The base64 and UTF-8 decoders, SHA-256, and the other components, over the confidences `F`, the
-- drift events `D` and the world `W`.
pub record Parts (F D W : Type 0) : Type 0 where
  pub b64decode : Text → Option Bytes
  pub sha256_hex : Bytes → Text
  pub decode_utf8 : Bytes → Text
  pub zero_f : F
  pub below_tau : F → Bool
  pub get_raw_location : Text → Text → W → Done W (Option RawLocation)
  pub find_raw_locations : Text → List Text → W → Done W (List (Text × RawLocation))
  pub append : RawRecord → W → Done W RawLocation
  pub index_raw : RawRecord → RawLocation → W → Done W Unit
  pub index_raw_bulk : List (RawRecord × RawLocation) → W → Done W Unit
  pub run : RawEnvelope → Text → Bytes → W → Done W (ParseContext × Ir F)
  pub observe : Text → Text → Text → Text → F → W → Done W (Option D)
  pub correlate : D → W → Done W (List Text)
  pub update_parser_drift : D → List Text → W → Done W Unit
  pub record_unknown : RawEnvelope → ParseContext → Ir F → Text → W → Done W Unit
  pub normalize : RawEnvelope → Origin → Ir F → Option Event
  pub write_event : Event × (Text × Text) → W → Done W Unit
  pub write_events_bulk : List (Event × (Text × Text)) → W → Done W Unit
  pub upsert_source : Text → Text → Agg → W → Done W Unit
  pub upsert_sources_bulk : Text → List (Text × Agg) → W → Done W Unit
