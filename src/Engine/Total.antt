-- ===== src/Engine/Total.antt =====
-- `run` always returns, if the storage does.
use mathlib.Core.Option
use sih_ulpf.Common.{
  ℕ, ap, ◌≡◌, refl, List, [], Option, none, some, inl, inr, Bool-cases, Option-cases,
}
use sih_ulpf.Common.Text.{Text, all_chars, contains, replace_from}
use sih_ulpf.Models.{Ir, Value}
use sih_ulpf.Fingerprint.Unicode.{Unicode}
use sih_ulpf.Fingerprint.Shape.{Fingerprint, Digest, fingerprint, of_tokens}
use sih_ulpf.Fingerprint.Tokenize.{tokenize}
use sih_ulpf.Engine.Ladder.{
  Floats, ParseContext, Parser, Services, Settings, Engine, best_of, note_route, parse_with, route,
  candidates, clip, or_else,
}
use sih_ulpf.Engine.Fallback.{Call}
use sih_ulpf.Engine.Run.{Input, context, note_infer, run, finish}
use sih_ulpf.Engine.Breaker.{
  BreakerSettings, Breaker, Outcome, refused, garbled, answered, Usable, reply_of, available, call,
  classify_and_score,
}
use sih_ulpf.Engine.Tier.{fallback-own}

fingerprint_empty :
    (u : Unicode) (sha1_hex : Digest) → fingerprint u sha1_hex [] ≡ some (of_tokens u sha1_hex [])
unfolding fingerprint tokenize all_chars contains replace_from
fingerprint_empty u sha1_hex = refl

fingerprint_returns :
    (u : Unicode) (sha1_hex : Digest) (text : Text)
    → (fp : Fingerprint) × (or_else (fingerprint u sha1_hex text) (fingerprint u sha1_hex [])
        ≡ some fp)
fingerprint_returns u sha1_hex text = elim (Option-cases (fingerprint u sha1_hex text)) [
  | inl e ↦ (of_tokens u sha1_hex [], rw (e, fingerprint_empty u sha1_hex) refl)
  | inr (fp, e) ↦ (fp, rw e refl)
]

call-Usable :
    (set : BreakerSettings) (later : ℕ) (o : Outcome) (c : Breaker)
    → Usable (reply_of o)
    → Usable (call set later o c).1
unfolding call
call-Usable set later refused c h = tt
call-Usable set later garbled c h = tt
call-Usable set later (answered r) c h = h

-- what the client passes on is usable when the answer is
Usable-answer :
    (set : BreakerSettings) (now later : ℕ) (o : Outcome) (c : Breaker)
    → Usable (reply_of o)
    → Usable (classify_and_score set now later o c).1
unfolding classify_and_score call
Usable-answer set now later o c usable = elim (Bool-cases (available set now c)) [
  | inl on ↦ rw on (call-Usable set later o c usable)
  | inr off ↦ rw off tt
]

module _ {F P I S : Type 0} (num : Floats F) (srv : Services F P I S) (set : Settings F) where
  finish-returns :
      (ctx : ParseContext) (c : Call) (latency : Value) (r : Ir F × Engine F P I S)
      → Usable (reply_of c.outcome)
      → (q : (ParseContext × Ir F) × Engine F P I S) × (finish num srv set ctx c latency r ≡ some q)
        × (q.0.0 ≡ ctx)
  unfolding finish
  finish-returns ctx c latency (routed, e) usable =
      let ir = note_infer (srv.infer ctx routed) in
      let (r, returned, named) =
        fallback-own num srv set ctx c ir e
          (Usable-answer set.breaker c.asked c.over c.outcome e.ml usable) in
      elim (Bool-cases (num.lt ir.confidence set.tau_known)) [
        | inl low ↦ rw (low, returned) (_, refl, refl)
        | inr high ↦ rw high (_, refl, refl)
      ]

  module _
      (writes : (h f s p : Text) (st : S)
        → (st' : S) × (srv.upsert_fingerprint h f s p st ≡ some st')) where
    note_route-returns :
        (ctx : ParseContext) (id : Text) (ir : Ir F) (e : Engine F P I S)
        → (r : Ir F × Engine F P I S) × (note_route num srv set ctx id ir e ≡ some r)
    unfolding note_route
    note_route-returns ctx id ir e =
        let (s, f) =
          writes ctx.shape_of.shape_hash ctx.shape_of.family_hash ctx.shape_of.shape id e.storage in
        elim (Bool-cases (num.lt ir.confidence set.tau_known)) [
          | inl low ↦ rw low ((ir, e), refl)
          | inr high ↦ rw (high, f) (_, refl)
        ]

    parse_with-returns :
        (ctx : ParseContext) (best : Option (Parser F) × F) (e : Engine F P I S)
        → (r : Ir F × Engine F P I S) × (parse_with num srv set ctx best e ≡ some r)
    unfolding parse_with
    parse_with-returns ctx (none, score) e = (_, refl)
    parse_with-returns ctx (some p, score) e = elim (Bool-cases (num.lt num.zero_f score)) [
      | inl e1 ↦ elim (Option-cases (p.parse ctx)) [
        | inl f ↦ rw (e1, f) (_, refl)
        | inr (ir, f) ↦ let (r, g) = note_route-returns ctx p.id ir e in (r, rw (e1, f) g)
      ]
      | inr e1 ↦ rw e1 (_, refl)
    ]

    -- `run` returns on every input, whatever the parsers, the miner and the inference do, as long as
    -- the storage takes the fingerprint and the sidecar fails, answers with no JSON, or answers with
    -- a JSON object or a value that is not truthy; and what `run` returns carries the tenant and the
    -- source it was asked for.
    pub run_total :
        (u : Unicode) (sha1_hex : Digest) (structural : List (Parser F)) (i : Input) (c : Call)
        (latency : Value) (e : Engine F P I S)
        → Usable (reply_of c.outcome)
        → (r : (ParseContext × Ir F) × Engine F P I S) × (run num srv set u sha1_hex structural i c
              latency e
            ≡ some r)
          × (r.0.0.tenant_id ≡ i.tenant_id)
          × (r.0.0.source_id ≡ i.source_id)
    unfolding run route Option.bind
    run_total u sha1_hex structural i c latency e usable =
        let clipped = clip set.max_line_bytes i.text in
        let (fp, f) = fingerprint_returns u sha1_hex clipped.0 in
        let ctx = context i clipped fp in
        let (r, g) =
          parse_with-returns ctx
            (best_of num ctx (candidates num srv set structural fp.shape_hash e) none num.zero_f)
            e in
        let (q, h, same) = finish-returns ctx c latency r usable in
        (
          q,
          rw f (rw g h),
          ap (λ (k : ParseContext). k.tenant_id) same,
          ap (λ (k : ParseContext). k.source_id) same,
        )
