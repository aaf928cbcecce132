-- ===== src/Engine/Run.antt =====
-- `run` of uli/engine.py.
use mathlib.Core.Option
use sih_ulpf.Common.{Bool, List, [], ◌∷◌, ◌++◌, Option, some, if◌then◌else◌}
use sih_ulpf.Common.Text.{Text, codes}
use sih_ulpf.Models.{Bytes, Value, Ir}
use sih_ulpf.Fingerprint.Unicode.{Unicode}
use sih_ulpf.Fingerprint.Shape.{Fingerprint, Digest, fingerprint}
use sih_ulpf.Engine.Ladder.{
  Floats, ParseContext, Parser, Services, Settings, Engine, clip, or_else, route,
}
use sih_ulpf.Engine.Fallback.{Call, fallback, set_default}

-- The arguments of `run`.
pub record Input : Type 0 where
  pub tenant_id : Text
  pub source_id : Text
  pub transport : Text
  pub text : Text
  pub raw : Bytes
  pub hints : List (Text × Value)

abbrev pub context : Input → Text × Bool → Fingerprint → ParseContext
context i (text, truncated) fp = record {
  raw = i.raw;
  text = text;
  shape_of = fp;
  tenant_id = i.tenant_id;
  source_id = i.source_id;
  transport = i.transport;
  hints = i.hints;
  truncated = truncated;
}

-- the handler around `infer`
unfoldable pub note_infer : {F : Type 0} → Ir F × Bool → Ir F
note_infer (ir, raised) =
    if raised then record ir { errors = ir.errors ++ (codes "infer_wrapper_error" ∷ []) } else ir

module _ {F P I S : Type 0} (num : Floats F) (srv : Services F P I S) (set : Settings F) where
  abbrev pub with_latency :
      ParseContext → Value → Ir F × Engine F P I S → (ParseContext × Ir F) × Engine F P I S
  with_latency ctx latency (ir, e) =
      ((ctx, record ir { fields = set_default (codes "__latency_ms") latency ir.fields }), e)

  -- what `run` does behind `_route`, which raises when the fallback does; `latency` is the time that it has taken
  unfoldable pub finish :
      ParseContext
      → Call
      → Value
      → Ir F × Engine F P I S
      → Option ((ParseContext × Ir F) × Engine F P I S)
  unfolding note_infer fallback
  finish ctx c latency (routed, e) =
      let ir = note_infer (srv.infer ctx routed) in
      let fallen = fallback num srv set ctx c ir e in
      Option.map (with_latency ctx latency)
        (if num.lt ir.confidence set.tau_known then fallen else some (ir, e))

  -- `none` when `run` raises
  unfoldable pub run :
      Unicode
      → Digest
      → List (Parser F)
      → Input
      → Call
      → Value
      → Engine F P I S
      → Option ((ParseContext × Ir F) × Engine F P I S)
  unfolding clip fingerprint route finish
  run u sha1_hex structural i c latency e =
      let clipped = clip set.max_line_bytes i.text in
      Option.bind (or_else (fingerprint u sha1_hex clipped.0) (fingerprint u sha1_hex [])) (λ fp.
        Option.bind (route num srv set structural (context i clipped fp) e)
          (finish (context i clipped fp) c latency))
