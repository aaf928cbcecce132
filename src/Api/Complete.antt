-- ===== src/Api/Complete.antt =====
-- What a client of the ingest handler can count on, with the pipeline behind it.
use sih_ulpf.Common.{
  ℕ, ◌≡◌, refl, sym, ◌∙◌, ap, false, List, [], ◌∷◌, map, Option, none, some, ltb, length, arith,
}
use sih_ulpf.Common.Text.{Text, text_eq, codes, count_char}
use sih_ulpf.Models.{Bytes, RawRecord}
use sih_ulpf.Fingerprint.Unicode.{Unicode}
use sih_ulpf.Fingerprint.Shape.{Digest}
use sih_ulpf.Pipeline.Parts.{RawEnvelope, Event, Done, Parts}
use sih_ulpf.Pipeline.Single.{raw_record}
use sih_ulpf.Pipeline.Batch.{records, process_batch}
use sih_ulpf.Pipeline.Total.{NormalizeLaws}
use sih_ulpf.Pipeline.Complete.{Clean, ids, item_ids, process_batch_total}
use sih_ulpf.Api.Auth.{ok, Settings}
use sih_ulpf.Api.Handlers.{
  IngestParts, IngestRequest, IngestResponse, given_lines, total_bytes, from_bytes, envelopes,
  answered, accept, ingest,
}

-- The queue, and the codecs on the side of the clients.
pub record Codecs (W : Type 0) : Type 0 where
  pub encode_utf8 : Text → Bytes
  pub b64encode : Bytes → Text
  pub publish : RawEnvelope → W → W

length-map : {A B : Type 0} (g : A → B) (xs : List A) → length (map g xs) ≡ length xs
length-map g [] = refl
length-map g (a ∷ xs) = omega (arith, length-map g xs)

module _ {F D W : Type 0} (u : Unicode) (sha1_hex : Digest) (parts : Parts F D W) (c : Codecs W)
    (set : Settings) where
  -- the handler's parts with the pipeline for `process_batch`
  abbrev pub wired : IngestParts W
  wired = record {
    encode_utf8 = c.encode_utf8;
    b64encode = c.b64encode;
    sha256_hex = parts.sha256_hex;
    publish = c.publish;
    process_batch = process_batch u sha1_hex parts;
  }

  -- what Base64 decodes is what was encoded
  abbrev pub RoundTrips : Type 0
  RoundTrips = (bytes : Bytes) → parts.b64decode (c.b64encode bytes) ≡ some bytes

  -- no line has a NUL character once it is decoded again
  abbrev pub CleanLines : List Text → Type 0
  CleanLines [] = Unit
  CleanLines (l ∷ ls) = (count_char 0 (parts.decode_utf8 (c.encode_utf8 l)) ≡ 0) × CleanLines ls

  abbrev item : Text → ℕ → IngestRequest → Text → RawEnvelope × RawRecord
  item tid now req l =
      let env = from_bytes wired set tid now req (c.encode_utf8 l) in
      (env, raw_record (parts.sha256_hex (c.encode_utf8 l)) env (c.encode_utf8 l))

  records-envelopes :
      (tid : Text) (now : ℕ) (req : IngestRequest) (ls : List Text)
      → RoundTrips
      → records u sha1_hex parts (envelopes wired set tid now req ls)
        ≡ some (map (item tid now req) ls)
  unfolding records
  records-envelopes tid now req [] trips = refl
  records-envelopes tid now req (l ∷ ls) trips =
      rw (trips (c.encode_utf8 l), records-envelopes tid now req ls trips) refl

  items-Clean :
      (tid : Text) (now : ℕ) (req : IngestRequest) (ls : List Text)
      → CleanLines ls
      → Clean u sha1_hex parts (map (item tid now req) ls)
  items-Clean tid now req [] h = tt
  items-Clean tid now req (l ∷ ls) (h, hs) = (h, items-Clean tid now req ls hs)

  ids-length :
      (evs : List Event) (items : List (RawEnvelope × RawRecord))
      → ids evs ≡ item_ids items
      → length evs ≡ length items
  ids-length evs items e =
      sym (length-map (λ (ev : Event). ev.raw_event_id) evs)
      ∙ ap length e
      ∙ length-map (λ (i : RawEnvelope × RawRecord). i.1.raw_event_id) items

  -- A request with lines, none of them with a NUL character and together not too large, is answered
  -- in local mode with one event id for every line, whatever the storage, the raw store and the
  -- parsers raise, if Base64 decodes what it encoded and `normalize` returns an event of the
  -- identity that it is given.
  pub ingest_complete :
      (laws : NormalizeLaws parts) (tid : Text) (now : ℕ) (req : IngestRequest) (l : Text)
      (ls : List Text) (w : W)
      → RoundTrips
      → given_lines req.lines req.text ≡ l ∷ ls
      → CleanLines (l ∷ ls)
      → ltb set.max_ingest_body_bytes (total_bytes wired set (l ∷ ls)) ≡ false
      → text_eq set.mode (codes "distributed") ≡ false
      → (r : IngestResponse) × ((ingest wired set tid now req w).0 ≡ ok r)
        × (r.accepted ≡ length (l ∷ ls))
        × (length r.event_ids ≡ r.accepted)
  unfolding ingest accept
  ingest_complete laws tid now req l ls w trips lines clean small local =
      let (evs, done, same) =
        process_batch_total u sha1_hex parts laws (envelopes wired set tid now req (l ∷ ls))
          (map (item tid now req) (l ∷ ls)) w (records-envelopes tid now req (l ∷ ls) trips)
          (items-Clean tid now req (l ∷ ls) clean) in
      rw (lines, ingest, small, accept, local)
        (go evs _ done (
          length-map (λ (ev : Event). ev.event_id) evs
          ∙ ids-length evs (map (item tid now req) (l ∷ ls)) same
          ∙ length-map (item tid now req) (l ∷ ls)))
    where
      go :
          (evs : List Event) (d : Done W (List Event))
          → d.0 ≡ some evs
          → length (map (λ (ev : Event). ev.event_id) evs) ≡ length (l ∷ ls)
          → (r : IngestResponse) × ((answered wired set (length (l ∷ ls)) d).0 ≡ ok r)
            × (r.accepted ≡ length (l ∷ ls))
            × (length r.event_ids ≡ r.accepted)
      go evs (none, v) e n = absurd (clash e)
        where
          clash : ◌≡◌ {A = Option (List Event)} none (some evs) → ⊥
          clash q = cc
      go evs (some out, v) e n = (_, refl, refl, (rw (some_inj e) n))
        where
          some_inj : ◌≡◌ {A = Option (List Event)} (some out) (some evs) → out ≡ evs
          some_inj q = cc
