-- ===== src/Tests/EngineTests.antt =====
-- Runs of the engine with confidences in hundredths.
use sih_ulpf.Common.{
  ℕ, suc, ◌*◌, ◌/◌, ◌≤◌, ◌≡◌, ◌≢◌, refl, true, false, List, [], ◌∷◌, Option, none, some, ltb, arith,
  ◌⊎◌, get_elem?,
}
use sih_ulpf.Common.Text.{Text, codes, text_eq}
use sih_ulpf.Common.Dict
use sih_ulpf.Common.Eq.{text_key}
use sih_ulpf.Models.{int, Ir, new_ir}
use sih_ulpf.Fingerprint.Unicode.{ascii}
use sih_ulpf.Fingerprint.Shape.{of_tokens}
use sih_ulpf.Engine.Breaker.{
  BreakerSettings, Breaker, refused, answered, object, Usable, new_breaker, available, note_failure,
  call, classify_and_score,
}
use sih_ulpf.Engine.Open.{Reached, start, failed, open_after_failures, failure_opens}
use sih_ulpf.Engine.Ladder.{
  Floats, ParseContext, Parser, Services, Settings, Engine, best_of, route,
}
use sih_ulpf.Engine.Fallback.{Call, fallback}
use sih_ulpf.Engine.Run.{Input, run}
use sih_ulpf.Engine.Best.{FloatLaws, Recorded, score_of, best_of-chosen, Remembers, route-Remembers}
use sih_ulpf.Engine.Tier.{answer, fallback-drain3, fallback-own}
use sih_ulpf.Engine.Total.{run_total}
use sih_ulpf.Engine.Registry.{
  Signing, RegistrySettings, Registry, register_pack, retire_pack, verify_signature, verify_with,
  key_at,
}
use sih_ulpf.Engine.Trust.{Verified, register_pack-Verified, retire_pack-gone}

abbrev pub hundredths : Floats ℕ
hundredths = record {
  lt = ltb;
  mul = λ a b. a * b / 100;
  zero_f = 0;
  f_02 = 20;
  f_04 = 40;
  f_05 = 50;
}

hundredths_laws : FloatLaws hundredths
hundredths_laws = record { asym = λ a b h. ground arith; not_lt_trans = λ a b c h k. ground arith }

-- two failures open the circuit for ten units
abbrev two_failures : BreakerSettings
two_failures = record { ml_enabled = true; ml_circuit_failures = 2; ml_circuit_reset = 10 }

abbrev once_failed : Breaker
once_failed = record { failures = 1; open_until = 0 }

abbrev twice_failed : Breaker
twice_failed = record { failures = 2; open_until = 16 }

twice : Reached two_failures 6 2 twice_failed
unfolding available classify_and_score call note_failure
twice =
    failed {c = once_failed} 6 (omega arith) refl
      (failed {c = new_breaker} 5 (omega arith) refl (start 4))

open_after_failures_example : (2 ≤ 2) × (available two_failures 16 twice_failed ≡ true)
unfolding available
open_after_failures_example = open_after_failures two_failures twice refl refl

failure_opens_example :
    classify_and_score two_failures 12 13
      (answered (object []))
      (classify_and_score two_failures 5 6 refused once_failed).0
    ≡ ((classify_and_score two_failures 5 6 refused once_failed).0, none)
unfolding available
failure_opens_example =
    failure_opens two_failures 5 6 12 13 (answered (object [])) once_failed refl (omega arith)
      (omega arith)

abbrev parser_of : Text → ℕ → ℕ → Parser ℕ
parser_of id score confidence = record {
  id = id;
  version = codes "1";
  can_parse = λ ctx. some score;
  parse = λ ctx. some (new_ir ctx.text 2 confidence id (codes "1") []);
}

abbrev pub services : Services ℕ ℕ ℕ ℕ
services = record {
  mine = λ n ctx t. (suc n, none);
  best_match = λ i shape. some (codes "b", 90);
  add_reference = λ id shape i. suc i;
  upsert_fingerprint = λ h f s p n. some (suc n);
  infer = λ ctx ir. (ir, false);
}

abbrev pub settings : Settings ℕ
settings = record {
  tau_known = 70;
  similarity_threshold = 60;
  max_line_bytes = 100;
  breaker = two_failures;
}

abbrev two_packs : List (Text × Parser ℕ)
two_packs = (codes "a", parser_of (codes "a") 30 20) ∷ (codes "b", parser_of (codes "b") 60 90) ∷ []

abbrev pub engine : Engine ℕ ℕ ℕ ℕ
engine = record {
  declarative = two_packs;
  routing_cache = [];
  templates = 0;
  similarity = 0;
  ml = new_breaker;
  storage = 0;
}

abbrev pub ctx : ParseContext
ctx = record {
  raw = [];
  text = codes "up";
  shape_of = of_tokens ascii (λ s. s) (codes "up" ∷ []);
  tenant_id = codes "t";
  source_id = codes "s";
  transport = codes "tcp";
  hints = [];
  truncated = false;
}

abbrev asked : Call
asked = record { asked = 1; over = 2; outcome = refused }

abbrev two_parsers : List (Parser ℕ)
two_parsers = parser_of (codes "a") 30 20 ∷ parser_of (codes "b") 60 90 ∷ []

best_of-chosen_example :
    Recorded hundredths ctx two_parsers none 0 (best_of hundredths ctx two_parsers none 0)
    × ((i : ℕ) (p : Parser ℕ)
        → get_elem? two_parsers i ≡ some p
        → ltb (best_of hundredths ctx two_parsers none 0).1 (score_of hundredths ctx p) ≡ false)
best_of-chosen_example = best_of-chosen hundredths hundredths_laws ctx two_parsers

abbrev unparsed : Ir ℕ
unparsed = new_ir (codes "up") 7 0 (codes "none") (codes "0") []

asked-Usable : Usable (answer hundredths services settings ctx asked unparsed engine)
unfolding classify_and_score available call note_failure
asked-Usable = tt

fallback-drain3_example :
    (r : Ir ℕ × Engine ℕ ℕ ℕ ℕ) × (fallback hundredths services settings ctx asked unparsed engine
      ≡ some r)
    × (r.0.parser_id ≡ codes "engine.drain3")
fallback-drain3_example =
    fallback-drain3 hundredths services settings ctx asked unparsed engine refl (omega arith)
      asked-Usable

fallback-own_example :
    (r : Ir ℕ × Engine ℕ ℕ ℕ ℕ) × (fallback hundredths services settings ctx asked unparsed engine
      ≡ some r)
    × ((r.0.parser_id ≡ codes "none")
        ⊎ ((r.0.parser_id ≡ codes "engine.drain3") ⊎ (r.0.parser_id ≡ codes "engine.quarantine")))
fallback-own_example =
    fallback-own hundredths services settings ctx asked unparsed engine asked-Usable

abbrev input : Input
input = record {
  tenant_id = codes "t";
  source_id = codes "s";
  transport = codes "tcp";
  text = codes "up";
  raw = [];
  hints = [];
}

run_total_example :
    (r : (ParseContext × Ir ℕ) × Engine ℕ ℕ ℕ ℕ) × (run hundredths services settings ascii
        (λ s. s)
        []
        input
        asked
        (int 3)
        engine
      ≡ some r)
    × (r.0.0.tenant_id ≡ codes "t")
    × (r.0.0.source_id ≡ codes "s")
run_total_example =
    run_total hundredths services settings (λ h f s p st. (suc st, refl)) ascii (λ s. s) [] input
      asked (int 3) engine tt

-- a key is a text that a valid signature repeats
abbrev signing : Signing Text
signing = record {
  read_key = λ path. some path;
  verify_bytes = λ yaml signature key. text_eq signature key;
  sha256_hex = λ s. s;
}

abbrev strict : RegistrySettings
strict = record { bundle_pubkey_path = some (codes "k"); bundle_require_signature = true }

abbrev registry : Registry ℕ Text
registry = record {
  declarative = two_packs;
  routing_cache = (codes "x", codes "a") ∷ [];
  pubkey_cache = none;
  writes = [];
}

register_pack-Verified_example : Verified signing strict none (codes "yaml") (some (codes "k"))
unfolding register_pack verify_signature verify_with key_at text_eq
register_pack-Verified_example =
    register_pack-Verified signing strict (λ yaml status. some (parser_of (codes "c") 1 1))
      (codes "yaml") (codes "api") (codes "active") (some (codes "k")) registry
      (parser_of (codes "c") 1 1) refl refl

retire_pack-gone_example :
    (◌≡◌ {A = Option (Parser ℕ)}
      (Dict.get (codes "a") (retire_pack (codes "a") registry).1.declarative)
      none)
    × (Dict.get (codes "x") (retire_pack (codes "a") registry).1.routing_cache ≢ some (codes "a"))
retire_pack-gone_example = retire_pack-gone (codes "a") (codes "x") registry

route-Remembers_example :
    Remembers hundredths services settings ctx engine
      (route hundredths services settings [] ctx engine)
route-Remembers_example = route-Remembers hundredths services settings ctx [] engine
