-- ===== src/Pipeline/Total.antt =====
-- `process` and one event of a batch return, whatever the other components do.
use mathlib.Core.Option
use sih_ulpf.Common.{ℕ, zero, suc, ◌≡◌, refl, [], ◌∷◌, Option, none, some, take, arith}
use sih_ulpf.Common.Text.{Text, codes, count_char}
use sih_ulpf.Models.{Bytes, RawRecord, RawLocation, Ir, new_ir}
use sih_ulpf.Fingerprint.Unicode.{Unicode}
use sih_ulpf.Fingerprint.Shape.{Fingerprint, Digest, fingerprint, of_tokens}
use sih_ulpf.Fingerprint.Tokenize.Total.{tokenize_total}
use sih_ulpf.Engine.Ladder.{ParseContext}
use sih_ulpf.Pipeline.Parts.{RawEnvelope, Event, Origin, Done, and_then, rescue, Parts}
use sih_ulpf.Pipeline.Single.{
  raw_record, run_or_error, normalized, compute, locate, inner, emergency, emergency_place, process,
}

-- what holds of the value that a call gives, if it gives one
abbrev pub Holds : {A : Type 0} → (A → Type 0) → Option A → Type 0
Holds P none = Unit
Holds P (some a) = P a

pub Holds-and_then :
    {W A B : Type 0} (P : B → Type 0) (d : Done W A) (k : A → W → Done W B)
    → ((a : A) (w : W) → Holds P (k a w).0)
    → Holds P (and_then d k).0
Holds-and_then P (none, w) k h = tt
Holds-and_then P (some a, w) k h = h a w

Holds-bind :
    {W A B : Type 0} (Q : A → Type 0) (P : B → Type 0) (d : Done W A) (k : A → W → Done W B)
    → Holds Q d.0
    → ((a : A) (w : W) → Q a → Holds P (k a w).0)
    → Holds P (and_then d k).0
Holds-bind Q P (none, w) k q h = tt
Holds-bind Q P (some a, w) k q h = h a w q

nuls-take : (n : ℕ) (s : Text) → count_char 0 s ≡ 0 → count_char 0 (take n s) ≡ 0
unfolding count_char
nuls-take zero s h = refl
nuls-take (suc n) [] h = refl
nuls-take (suc n) (c ∷ s) h = ground (arith, nuls-take n s)

pub fingerprint_total :
    (u : Unicode) (sha1_hex : Digest) (text : Text)
    → count_char 0 text ≡ 0
    → (fp : Fingerprint) × (fingerprint u sha1_hex text ≡ some fp)
unfolding fingerprint
fingerprint_total u sha1_hex text h =
    let (toks, e) = tokenize_total u text h in (of_tokens u sha1_hex toks, rw e refl)

-- `normalize` returns, with the identity that it is given.
pub record NormalizeLaws {F D W : Type 0} (parts : Parts F D W) : Type 0 where
  pub normalizes :
      (env : RawEnvelope) (o : Origin) (ir : Ir F)
      → (ev : Event) × (parts.normalize env o ir ≡ some ev) × (ev.raw_event_id ≡ o.raw_event_id)

module _ {F D W : Type 0} (u : Unicode) (sha1_hex : Digest) (parts : Parts F D W)
    (laws : NormalizeLaws parts) where
  normalized-Holds :
      (env : RawEnvelope) (id : Text) (loc : RawLocation) (dup : Option Text)
      (p : ParseContext × Ir F)
      → Holds (λ row. row.0.raw_event_id ≡ id) (normalized u sha1_hex parts env id loc dup p)
  unfolding normalized
  normalized-Holds env id loc dup (ctx, ir) =
      let (ev, e, f) =
        laws.normalizes env
          (record {
            raw_event_id = id;
            raw_loc = loc;
            shape_hash = ctx.shape_of.shape_hash;
            family_hash = ctx.shape_of.family_hash;
            duplicate_of = dup;
          })
          ir in
      rw e f

  pub compute-Holds :
      (env : RawEnvelope) (rec : RawRecord) (loc : RawLocation) (dup : Option Text) (w : W)
      → Holds
          (λ row. row.0.raw_event_id ≡ rec.raw_event_id)
          (compute u sha1_hex parts env rec loc dup w).0
  unfolding compute
  compute-Holds env rec loc dup w =
      Holds-and_then (λ row. row.0.raw_event_id ≡ rec.raw_event_id)
        (run_or_error u sha1_hex parts env (parts.decode_utf8 rec.payload) rec.payload w) _
        (λ p w'. normalized-Holds env rec.raw_event_id loc dup p)

  inner-Holds :
      (env : RawEnvelope) (rec : RawRecord) (w : W)
      → Holds (λ ev. ev.raw_event_id ≡ rec.raw_event_id) (inner u sha1_hex parts env rec w).0
  unfolding inner
  inner-Holds env rec w =
      let Own : Event → Type 0 = (λ ev. ev.raw_event_id ≡ rec.raw_event_id) in
      Holds-and_then Own (parts.get_raw_location env.tenant_id rec.raw_event_id w) _ (λ existing w1.
        Holds-and_then Own (locate u sha1_hex parts rec existing w1) _ (λ place w2.
          Holds-bind (λ row. row.0.raw_event_id ≡ rec.raw_event_id) Own
            (compute u sha1_hex parts env rec place.0 place.1 w2) _
            (compute-Holds env rec place.0 place.1 w2)
            (λ row w3 own. Holds-and_then Own (parts.write_event row w3) _ (λ _ w4.
              Holds-and_then Own
                (parts.upsert_source env.tenant_id env.source_id
                  (record {
                    inc = 1;
                    transport = env.transport;
                    active_parser_id = row.0.parser_id;
                  })
                  w4)
                _ (λ _ w5. own)))))

  abbrev pub Returns : Text → Done W Event → Type 0
  Returns id d = (ev : Event) × (d.0 ≡ some ev) × (ev.raw_event_id ≡ id)

  pub emergency-Returns :
      (env : RawEnvelope) (rec : RawRecord) (w : W)
      → count_char 0 (parts.decode_utf8 rec.payload) ≡ 0
      → Returns rec.raw_event_id (emergency u sha1_hex parts env rec w)
  unfolding emergency normalized Option.bind
  emergency-Returns env rec w clean =
      let text = parts.decode_utf8 rec.payload in
      let (fp, e) = fingerprint_total u sha1_hex (take 200 text) (nuls-take 200 text clean) in
      let (ev, f, own) =
        laws.normalizes env
          (record {
            raw_event_id = rec.raw_event_id;
            raw_loc = (emergency_place u sha1_hex parts rec w).0;
            shape_hash = fp.shape_hash;
            family_hash = fp.family_hash;
            duplicate_of = none;
          })
          (new_ir (take 2000 text) 7 parts.zero_f (codes "engine.emergency") (codes "0")
            (codes "pipeline_failure" ∷ [])) in
      (ev, rw (e, f) refl, own)

  rescue-Returns :
      (id : Text) (d : Done W Event) (h : W → Done W Event)
      → Holds (λ ev. ev.raw_event_id ≡ id) d.0
      → ((w : W) → Returns id (h w))
      → Returns id (rescue d h)
  rescue-Returns id (none, w) h q k = k w
  rescue-Returns id (some ev, w) h q k = (ev, refl, q)

  -- `process` returns an event that carries the digest of the payload, whatever the storage, the raw
  -- store, the engine and the drift monitor raise, as long as the payload decodes, its text has no
  -- NUL character, and `normalize` returns an event of the identity that it is given.
  pub process_total :
      (env : RawEnvelope) (payload : Bytes) (w : W)
      → parts.b64decode env.payload_b64 ≡ some payload
      → count_char 0 (parts.decode_utf8 payload) ≡ 0
      → (ev : Event) × ((process u sha1_hex parts env w).0 ≡ some ev)
        × (ev.raw_event_id ≡ parts.sha256_hex payload)
  unfolding process
  process_total env payload w h clean =
      let rec = raw_record (parts.sha256_hex payload) env payload in
      rw (h, process)
        (rescue-Returns (parts.sha256_hex payload) (inner u sha1_hex parts env rec w)
          (emergency u sha1_hex parts env rec) (inner-Holds env rec w)
          (λ w'. emergency-Returns env rec w' clean))
