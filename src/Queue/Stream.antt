-- ===== src/Queue/Stream.antt =====
-- `consume` and `ack` of `RedisStreamsQueue` of uli/ingestion/queue.py, with the server as a parameter.
use sih_ulpf.Common.{ℕ, Bool, false, List, [], ◌∷◌, Option, none, some}
use sih_ulpf.Common.Text.{Text}
use sih_ulpf.Pipeline.Parts.{RawEnvelope, Done, and_then}

-- An entry of the stream: its id and its field `e`.
abbrev pub Entry : Type 0
Entry = Text × Text

-- redis-py over the state `W` of the server, and the decoder of envelopes. A read is either of the
-- entries that this consumer has not acknowledged (`"0"`, for `pending`) or of new ones (`">"`);
-- it gives `none` when it raises,
-- as an acknowledgement does.
pub record Redis (W : Type 0) : Type 0 where
  pub xreadgroup : Bool → ℕ → W → Option (List Entry) × W
  pub xack : List Text → W → Done W Unit
  pub decode : Text → Option RawEnvelope

-- `Message`
pub record StreamMessage : Type 0 where
  pub id : Text
  pub envelope : RawEnvelope

module _ {W : Type 0} (redis : Redis W) where
  abbrev pub put_first : StreamMessage → Done W (List StreamMessage) → Done W (List StreamMessage)
  put_first m (none, w) = (none, w)
  put_first m (some batch, w) = (some (m ∷ batch), w)

  -- the loop over the entries of a response: one that does not decode is acknowledged at once, and
  -- if that raises the loop ends
  unfoldable pub decode_all : List Entry → W → Done W (List StreamMessage)
  decode_all [] w = (some [], w)
  decode_all ((mid, e) ∷ entries) w = elim (redis.decode e) as (λ _. Done W (List StreamMessage)) [
    | none ↦ and_then (redis.xack (mid ∷ []) w) (λ u w'. decode_all entries w')
    | some env ↦ put_first (record { id = mid; envelope = env }) (decode_all entries w)
  ]

  -- One round of the loop: what is yielded, the flag `first` and the server behind it. Nothing is
  -- yielded, and the generator ends, when an acknowledgement raises.
  unfoldable pub consume_stream : ℕ → Bool → W → Option (List StreamMessage) × (Bool × W)
  unfolding decode_all
  consume_stream count first w =
      let (resp, w') = redis.xreadgroup first count w in
      elim resp as (λ _. Option (List StreamMessage) × (Bool × W)) [
        | none ↦ (some [], (first, w'))
        | some entries ↦ let (batch, w'') = decode_all entries w' in (batch, (false, w''))
      ]

  -- `ack`
  unfoldable pub ack : List Text → W → Done W Unit
  ack [] w = (some tt, w)
  ack (id ∷ ids) w = redis.xack (id ∷ ids) w
