-- ===== src/Engine/Open.antt =====
-- When the circuit of the sidecar client is open.
use sih_ulpf.Common.{ℕ, suc, ◌+◌, ◌≤◌, ◌<◌, ◌≡◌, refl, true, false, ◌⊎◌, inl, arith, none}
use sih_ulpf.Engine.Breaker.{
  BreakerSettings, Breaker, Outcome, Reply, refused, garbled, answered, new_breaker, available,
  note_failure, call, classify_and_score,
}

-- The states that calls of `classify_and_score` reach on a clock that never goes back, with the
-- time of the last of them, and how many failures have come in since the last answer.
pub data Reached (set : BreakerSettings) : ℕ → ℕ → Breaker → Type 0 where
  start : (now : ℕ) → Reached set now 0 new_breaker
  wait :
      {now n : ℕ} {c : Breaker} (later : ℕ)
      → now ≤ later
      → Reached set now n c
      → Reached set later n c
  skipped :
      {now n : ℕ} {c : Breaker}
      → available set now c ≡ false
      → Reached set now n c
      → Reached set now n c
  failed :
      {now n : ℕ} {c : Breaker} (later : ℕ)
      → now ≤ later
      → available set now c ≡ true
      → Reached set now n c
      → Reached set later (suc n) (classify_and_score set now later refused c).0
  broken :
      {now n : ℕ} {c : Breaker} (later : ℕ)
      → now ≤ later
      → available set now c ≡ true
      → Reached set now n c
      → Reached set later 1 (classify_and_score set now later garbled c).0
  done :
      {now n : ℕ} {c : Breaker} (later : ℕ) (out : Reply)
      → now ≤ later
      → available set now c ≡ true
      → Reached set now n c
      → Reached set later 0 (classify_and_score set now later (answered out) c).0

module _ (set : BreakerSettings) where
  abbrev Sound : ℕ → ℕ → Breaker → Type 0
  Sound now n c =
      (c.failures ≡ n)
      × ((c.open_until ≤ now)
          ⊎ ((set.ml_circuit_failures ≤ n) × (c.open_until ≤ now + set.ml_circuit_reset)))

  Reached-Sound : {now n : ℕ} {c : Breaker} → Reached set now n c → Sound now n c
  unfolding classify_and_score call note_failure available
  Reached-Sound (start now) = (refl, inl (omega arith))
  Reached-Sound (wait {c = c} later le h) = ground (arith, Reached-Sound h)
  Reached-Sound (skipped off h) = Reached-Sound h
  Reached-Sound (failed {c = c} later le on h) = rw on (ground (arith, Reached-Sound h))
  Reached-Sound (broken {c = c} later le on h) = rw on (ground (arith, Reached-Sound h))
  Reached-Sound (done {c = c} later out le on h) = rw on (ground (arith, Reached-Sound h))

-- The circuit is open only while at least `ml_circuit_failures` failures have come in since the last
-- answer, and then for no longer than `ml_circuit_reset` after the last call: with the sidecar
-- enabled, a client that is not available has both.
pub open_after_failures :
    (set : BreakerSettings) {now n : ℕ} {c : Breaker}
    → Reached set now n c
    → set.ml_enabled ≡ true
    → available set now c ≡ false
    → (set.ml_circuit_failures ≤ n) × (available set (now + set.ml_circuit_reset) c ≡ true)
unfolding available
open_after_failures set {c = c} h on off = ground (arith, Reached-Sound set h)

-- A failure that brings the count to `ml_circuit_failures` opens the circuit: until
-- `ml_circuit_reset` after it, no request is made, whatever it would do, and the state stays.
pub failure_opens :
    (set : BreakerSettings) (now later t t' : ℕ) (outcome : Outcome) (c : Breaker)
    → available set now c ≡ true
    → set.ml_circuit_failures ≤ suc c.failures
    → t < later + set.ml_circuit_reset
    → classify_and_score set t t' outcome (classify_and_score set now later refused c).0
      ≡ ((classify_and_score set now later refused c).0, none)
unfolding classify_and_score call note_failure available
failure_opens set now later t t' outcome c on enough early = ground arith
