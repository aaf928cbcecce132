-- ===== src/Normalization/Link.antt =====
-- `normalize` as the pipeline calls it.
use sih_ulpf.Common.{ℕ, refl, Bool, Option, some}
use sih_ulpf.Common.Text.{Text}
use sih_ulpf.Models.{Bytes}
use sih_ulpf.Pipeline.Parts.{RawEnvelope, Event, Origin, Parts}
use sih_ulpf.Pipeline.Total.{NormalizeLaws}
use sih_ulpf.Normalization.Normalize.{Builtins, Circumstances, NormalizedEvent, normalize}

-- what the pipeline looks at
abbrev pub as_event : {F : Type 0} → NormalizedEvent F → Event
as_event ev = record {
  event_id = ev.event_id;
  raw_event_id = ev.provenance.raw_event_id;
  parser_id = ev.provenance.parser_id;
  tier = ev.provenance.tier;
}

abbrev circumstances : RawEnvelope → Origin → Bool → Option Bytes → Circumstances
circumstances env o embed_raw payload = record {
  tenant_id = env.tenant_id;
  project_id = env.project_id;
  source_id = env.source_id;
  raw_event_id = o.raw_event_id;
  raw_loc = o.raw_loc;
  received_at = env.received_at;
  transport = env.transport;
  peer = env.peer;
  shape_hash = o.shape_hash;
  family_hash = o.family_hash;
  embed_raw = embed_raw;
  raw_bytes_for_embed = payload;
  duplicate_of = o.duplicate_of;
}

module _ {F D W : Type 0} (b : Builtins F) (embed_raw : Bool) (fresh_id : Origin → Text)
    (now : ℕ) where
  -- the parts of the pipeline with this `normalize`, which embeds the payload that it decodes
  abbrev pub with_normalize : Parts F D W → Parts F D W
  with_normalize parts = record parts {
    normalize = λ env o ir. some (
        as_event (
          normalize b (fresh_id o) now ir
            (circumstances env o embed_raw (parts.b64decode env.payload_b64))));
  }

  -- `normalize` keeps what the pipeline relies on.
  pub normalize_laws : (parts : Parts F D W) → NormalizeLaws (with_normalize parts)
  unfolding normalize
  normalize_laws parts = record { normalizes = λ env o ir. (_, refl, refl) }
