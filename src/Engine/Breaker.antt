-- ===== src/Engine/Breaker.antt =====
-- `MLClient` of uli/engine.py: the circuit breaker around the optional sidecar.
use sih_ulpf.Common.{
  ℕ, suc, ◌+◌, Bool, ◌&&◌, Option, none, some, leb, if◌then◌else◌, List, ◌≡◌, false,
}
use sih_ulpf.Common.Text.{Text}
use sih_ulpf.Models.{Value}

-- The settings that the client reads; times are in one unit of the monotonic clock.
pub record BreakerSettings : Type 0 where
  pub ml_enabled : Bool
  pub ml_circuit_failures : ℕ
  pub ml_circuit_reset : ℕ

pub record Breaker : Type 0 where
  pub failures : ℕ
  pub open_until : ℕ

abbrev pub new_breaker : Breaker
new_breaker = record { failures = 0; open_until = 0 }

-- A JSON answer: an object, or any other value, by whether it is truthy.
pub data Reply : Type 0 where
  object : List (Text × Value) → Reply
  other : Bool → Reply

-- What the request does: it raises before or in `raise_for_status`, it answers with a body that is
-- no JSON, or it answers.
pub data Outcome : Type 0 where
  refused : Outcome
  garbled : Outcome
  answered : Reply → Outcome

unfoldable pub available : BreakerSettings → ℕ → Breaker → Bool
available set now c = set.ml_enabled && leb c.open_until now

-- the `except` clause, at the time `later`
unfoldable pub note_failure : BreakerSettings → ℕ → Breaker → Breaker
note_failure set later c =
    let failures = suc c.failures in
    record {
      failures = failures;
      open_until =
          if leb set.ml_circuit_failures failures
          then later + set.ml_circuit_reset
          else c.open_until;
    }

unfoldable pub call : BreakerSettings → ℕ → Outcome → Breaker → Breaker × Option Reply
unfolding note_failure
call set later refused c = (note_failure set later c, none)
call set later garbled c = (note_failure set later (record c { failures = 0 }), none)
call set later (answered out) c = (record c { failures = 0 }, some out)

-- `classify_and_score`; `none` is the empty answer `{}`
unfoldable pub classify_and_score :
    BreakerSettings → ℕ → ℕ → Outcome → Breaker → Breaker × Option Reply
unfolding available call
classify_and_score set now later outcome c =
    if available set now c then call set later outcome c else (c, none)

-- what the request answers, if it answers
abbrev pub reply_of : Outcome → Option Reply
reply_of refused = none
reply_of garbled = none
reply_of (answered r) = some r

-- an answer that `_fallback` takes: an object, or a value that is not truthy
abbrev pub Usable : Option Reply → Type 0
Usable none = Unit
Usable (some (object out)) = Unit
Usable (some (other truthy)) = truthy ≡ false
