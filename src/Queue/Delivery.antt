-- ===== src/Queue/Delivery.antt =====
-- What a round of the stream consumer yields and what it acknowledges.
use sih_ulpf.Common.{
  Bool, false, ℕ, ◌≡◌, refl, ap, ◌∙◌, List, [], ◌∷◌, Option, none, some, Option-cases, inl, inr,
}
use sih_ulpf.Common.Text.{Text}
use sih_ulpf.Queue.Stream.{Entry, Redis, StreamMessage, put_first, decode_all, consume_stream}
use sih_ulpf.Pipeline.Parts.{Done, and_then}

module _ {W : Type 0} (redis : Redis W) where
  -- the entries that decode, as messages
  abbrev pub messages : List Entry → List StreamMessage
  messages [] = []
  messages ((mid, e) ∷ entries) = elim (redis.decode e) as (λ _. List StreamMessage) [
    | none ↦ messages entries
    | some env ↦ record { id = mid; envelope = env } ∷ messages entries
  ]

  -- the ids of the others
  abbrev pub poison : List Entry → List Text
  poison [] = []
  poison ((mid, e) ∷ entries) = elim (redis.decode e) as (λ _. List Text) [
    | none ↦ mid ∷ poison entries
    | some env ↦ poison entries
  ]

  -- the acknowledgement of one after the other, up to the first that raises
  abbrev pub ack_each : List Text → W → Done W Unit
  ack_each [] w = (some tt, w)
  ack_each (id ∷ ids) w = and_then (redis.xack (id ∷ []) w) (λ u w'. ack_each ids w')

  -- what is yielded when they are acknowledged
  abbrev pub yielded : List StreamMessage → Done W Unit → Done W (List StreamMessage)
  yielded ms (none, w) = (none, w)
  yielded ms (some u, w) = (some ms, w)

  put_first-yielded :
      (m : StreamMessage) (ms : List StreamMessage) (d : Done W Unit)
      → put_first redis m (yielded ms d) ≡ yielded (m ∷ ms) d
  put_first-yielded m ms (none, w) = refl
  put_first-yielded m ms (some u, w) = refl

  after_ack :
      (entries : List Entry)
      → ((w : W)
          → decode_all redis entries w ≡ yielded (messages entries) (ack_each (poison entries) w))
      → (d : Done W Unit)
      → and_then d (λ u w. decode_all redis entries w)
        ≡ yielded (messages entries) (and_then d (λ u w. ack_each (poison entries) w))
  after_ack entries rest (none, w) = refl
  after_ack entries rest (some u, w) = rest w

  decode_all-splits :
      (entries : List Entry) (w : W)
      → decode_all redis entries w ≡ yielded (messages entries) (ack_each (poison entries) w)
  unfolding decode_all
  decode_all-splits [] w = refl
  decode_all-splits ((mid, e) ∷ entries) w = elim (Option-cases (redis.decode e)) [
    | inl h ↦
        rw (h, decode_all, messages, poison)
          (after_ack entries (decode_all-splits entries) (redis.xack (mid ∷ []) w))
    | inr (env, h) ↦
        rw (h, decode_all, messages, poison)
          (ap (put_first redis (record { id = mid; envelope = env })) (decode_all-splits entries w)
            ∙ put_first-yielded _ _ (ack_each (poison entries) w))
  ]

  -- A round whose read succeeds acknowledges the entries that do not decode one after the other, up
  -- to the first acknowledgement that raises: then it yields nothing and the generator ends. If none
  -- raises it yields the entries that decode, in order, and turns to new entries from then on: also
  -- when more are pending than `count`.
  pub round_splits :
      (count : ℕ) (first : Bool) (entries : List Entry) (w w' : W)
      → redis.xreadgroup first count w ≡ (some entries, w')
      → consume_stream redis count first w
        ≡ let (acknowledged, w'') = ack_each (poison entries) w' in
          (
            elim acknowledged as (λ _. Option (List StreamMessage)) [
              | none ↦ none
              | some u ↦ some (messages entries)
            ],
            (false, w''),
          )
  unfolding consume_stream
  round_splits count first entries w w' h =
      rw
        (
          ap (λ (z : Option (List Entry) × W). z.0) h,
          ap (λ (z : Option (List Entry) × W). z.1) h,
          consume_stream,
        )
        (ap (λ (z : Done W (List StreamMessage)). (z.0, (false, z.1)))
            (decode_all-splits entries w')
          ∙ parts (ack_each (poison entries) w'))
    where
      parts :
          (d : Done W Unit)
          → ◌≡◌ {A = Option (List StreamMessage) × (Bool × W)}
              ((yielded (messages entries) d).0, (false, (yielded (messages entries) d).1))
              (
                elim d.0 as (λ _. Option (List StreamMessage)) [
                  | none ↦ none
                  | some u ↦ some (messages entries)
                ],
                (false, d.1),
              )
      parts (none, v) = refl
      parts (some u, v) = refl
