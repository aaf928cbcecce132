-- ===== src/Tests/QueueTests.antt =====
-- Runs of the queues.
use sih_ulpf.Common.{◌≡◌, refl, true, false, List, [], ◌∷◌, ◌++◌, Option, none, some}
use sih_ulpf.Common.Text.{Text, codes, text_eq}
use sih_ulpf.Pipeline.Parts.{RawEnvelope}
use sih_ulpf.Queue.Memory.{Message, MemoryQueue, publish, consume_round}
use sih_ulpf.Queue.Order.{Reached, start, published, consumed, delivered_in_order}
use sih_ulpf.Queue.Stream.{Redis, Entry, StreamMessage, consume_stream}
use sih_ulpf.Queue.Delivery.{messages, poison, ack_each, round_splits}

abbrev envelope : Text → RawEnvelope
envelope payload = record {
  tenant_id = codes "t";
  project_id = codes "p";
  source_id = codes "s";
  transport = codes "tcp";
  received_at = 0;
  peer = none;
  payload_b64 = payload;
  payload_sha256 = none;
  hints = [];
}

abbrev one : Message
one = record { id = 1; envelope = envelope (codes "a") }

abbrev two : Message
two = record { id = 2; envelope = envelope (codes "b") }

abbrev both : MemoryQueue
both = record { items = one ∷ two ∷ []; seq = 2 }

both-Reached : Reached (one ∷ two ∷ []) [] both
unfolding publish
both-Reached =
    published 5 2 (envelope (codes "b")) both refl
      (published 5 1 (envelope (codes "a")) (record { items = one ∷ []; seq = 1 }) refl start)

-- One of the two has been delivered.
delivered_in_order_example : (one ∷ []) ++ (two ∷ []) ≡ one ∷ two ∷ []
unfolding consume_round
delivered_in_order_example = delivered_in_order (consumed 1 both-Reached)

-- A server with two entries, of which one does not decode.
abbrev server : Redis (List Text)
server = record {
  xreadgroup =
      λ first count w. (some ((codes "1-0", codes "ok") ∷ (codes "2-0", codes "bad") ∷ []), w);
  xack = λ ids w. (some tt, ids ++ w);
  decode = λ e. elim (text_eq e (codes "bad")) as (λ _. Option RawEnvelope) [
    | true ↦ none
    | false ↦ some (envelope e)
  ];
}

abbrev entries : List Entry
entries = (codes "1-0", codes "ok") ∷ (codes "2-0", codes "bad") ∷ []

round_splits_example :
    consume_stream server 10 true []
    ≡ let (acknowledged, w) = ack_each server (poison server entries) [] in
      (
        elim acknowledged as (λ _. Option (List StreamMessage)) [
          | none ↦ none
          | some u ↦ some (messages server entries)
        ],
        (false, w),
      )
round_splits_example = round_splits server 10 true entries [] [] refl
