-- ===== src/Queue/Memory.antt =====
-- `MemoryQueue` of uli/ingestion/queue.py. The number of a message is that in its id `m-<number>`.
use sih_ulpf.Common.{
  ℕ, suc, List, [], ◌∷◌, ◌++◌, Option, none, some, length, ltb, if◌then◌else◌, ◌-◌, ◌==◌, take,
  drop,
}
use sih_ulpf.Pipeline.Parts.{RawEnvelope}

-- `Message`
pub record Message : Type 0 where
  pub id : ℕ
  pub envelope : RawEnvelope

pub record MemoryQueue : Type 0 where
  pub items : List Message
  pub seq : ℕ

abbrev pub new_queue : MemoryQueue
new_queue = record { items = []; seq = 0 }

-- `publish`; `none` while the queue is full and the call waits. A `maxsize` of 0 is no bound.
unfoldable pub publish : ℕ → RawEnvelope → MemoryQueue → Option (ℕ × MemoryQueue)
publish maxsize env q =
    let mid = suc q.seq in
    let taken =
      some (
        mid,
        record { items = q.items ++ (record { id = mid; envelope = env } ∷ []); seq = mid },
      ) in
    if maxsize == 0 then taken else if ltb (length q.items) maxsize then taken else none

-- One round of the loop of `consume`: the first message, if there is one, and more up to `count`.
unfoldable pub consume_round : ℕ → MemoryQueue → List Message × MemoryQueue
consume_round count q = elim q.items as (λ _. List Message × MemoryQueue) [
  | [] ↦ ([], q)
  | m ∷ rest ↦ (m ∷ take (count - 1) rest, record q { items = drop (count - 1) rest })
]

unfoldable pub depth : MemoryQueue → ℕ
depth q = length q.items
