-- ===== src/Worker.antt =====
-- `main` of uli/workers/runner.py: the loop over the batches of a queue.
pub mod Acks
use mathlib.Core.Option
use sih_ulpf.Common.{ℕ, ◌-◌, Bool, true, false, List, [], ◌∷◌, ltb, if◌then◌else◌, map, none, some}
use sih_ulpf.Common.Text.{Text}
use sih_ulpf.Pipeline.Parts.{RawEnvelope, Event, Done}

-- A message of a queue, `Message` of uli/ingestion/queue.py.
abbrev pub Delivery : Type 0
Delivery = Text × RawEnvelope

-- What the loop calls. It goes on when `process_batch` or `tick` raises; an `ack` that raises ends it.
pub record Stack (W : Type 0) : Type 0 where
  pub process_batch : List RawEnvelope → W → Done W (List Event)
  pub ack : List Text → W → Done W Unit
  pub tick : W → Done W Unit
  pub save_all : W → W

-- One round: what the queue has yielded, the clock, and whether the stop flag is set by then.
-- A queue whose generator raises ends the loop as an `ack` that raises does; that is left out.
pub record Round : Type 0 where
  pub batch : List Delivery
  pub now : ℕ
  pub stop : Bool

module _ {W : Type 0} (stack : Stack W) where
  abbrev process_if_any : List Delivery → W → W
  process_if_any [] w = w
  process_if_any (d ∷ batch) w = (stack.process_batch (map (λ (x : Delivery). x.1) (d ∷ batch)) w).1

  abbrev ack_if_any : List Text → W → Done W Unit
  ack_if_any [] w = (some tt, w)
  ack_if_any (id ∷ ids) w = stack.ack (id ∷ ids) w

  unfoldable pub handle : List Delivery → W → Done W Unit
  handle batch w = ack_if_any (map (λ (x : Delivery). x.0) batch) (process_if_any batch w)

  -- the loop, with the time of the last tick of the resource drift, and what follows it unless an
  -- `ack` raises
  unfoldable pub work : ℕ → List Round → ℕ → W → Done W Unit
  unfolding handle
  work interval [] last w = (some tt, stack.save_all w)
  work interval (r ∷ rounds) last w =
      let handled = handle r.batch w in
      let ticked = work interval rounds r.now (stack.tick handled.1).1 in
      let quiet = work interval rounds last handled.1 in
      if r.stop then (some tt, stack.save_all w) else elim handled.0 as (λ _. Done W Unit) [
        | none ↦ (none, handled.1)
        | some u ↦ if ltb interval (r.now - last) then ticked else quiet
      ]
