-- ===== src/Tests/SecretsTests.antt =====
-- A line with a password, from the inference to the event; and the state files of two miners.
use mathlib.Core.Option
use sih_ulpf.Common.{ℕ, ◌≡◌, refl, ◌⊎◌, true, false, [], ◌∷◌, none, some}
use sih_ulpf.Common.Text.{codes, starts_with, text_eq, contains, join}
use sih_ulpf.Common.Strings.{drop_while}
use sih_ulpf.Common.Dict
use sih_ulpf.Common.Dict.{Distinct}
use sih_ulpf.Common.Eq.{text_key}
use sih_ulpf.Models.{Ir, Value, new_ir}
use sih_ulpf.Fingerprint.Unicode.{ascii}
use sih_ulpf.Timestamps.{parse_timestamp}
use sih_ulpf.Inference.Observe.{Draft, Finders, infer_users_from}
use sih_ulpf.Inference.Roles.{is_private, infer}
use sih_ulpf.Inference.Redacted.{redacted}
use sih_ulpf.Normalization.Tree
use sih_ulpf.Normalization.Tree.{string, of_value}
use sih_ulpf.Normalization.Body.{is_kept}
use sih_ulpf.Normalization.Normalize.{field_trees, normalize}
use sih_ulpf.Normalization.Unmapped.{inside}
use sih_ulpf.Normalization.Secrets.{normalize-redacts}
use sih_ulpf.Templates.{key_path}
use sih_ulpf.Tests.InferenceTests.{dates, scalars}
use sih_ulpf.Engine.Breaker.{Reply, answered, classify_and_score}
use sih_ulpf.Engine.Ladder.{ParseContext, Services, Engine}
use sih_ulpf.Engine.Fallback.{Call, fallback}
use sih_ulpf.Engine.Run.{finish}
use sih_ulpf.Tests.EngineTests.{hundredths, services, settings, ctx, engine}
use sih_ulpf.Tests.NormalizationTests.{builtins, circumstances}

abbrev nothing_found : Finders
nothing_found = record {
  kv_any = λ s. [];
  user_patterns = [];
  hashes = λ s. [];
  sev_any = λ s. none;
}

abbrev login : Draft
login = record {
  fields = (codes "password", string (codes "x")) ∷ [];
  observables = [];
  timestamp = none;
  severity = none;
  errors = [];
}

-- what the parser gave, with a low confidence
abbrev routed : Ir ℕ
routed = record (new_ir (codes "line") 7 30 (codes "p") (codes "1") []) {
  fields = (codes "password", Value.string (codes "x")) ∷ [];
}

-- the inference of the model on this line
abbrev inferring : Services ℕ ℕ ℕ ℕ
inferring = record services {
  infer = λ ctx ir. (
    record ir { fields = (codes "password", Value.string (codes "***REDACTED***")) ∷ [] },
    false,
  );
}

-- the sidecar guesses a vendor
abbrev guessing : Call
guessing = record {
  asked = 1;
  over = 2;
  outcome = answered (Reply.object ((codes "vendor_guess", Value.string (codes "v")) ∷ []));
}

abbrev result : (ParseContext × Ir ℕ) × Engine ℕ ℕ ℕ ℕ
result =
    Option.get_or (finish hundredths inferring settings ctx guessing (Value.int 3) (routed, engine))
      ((ctx, routed), engine)

is_result :
    finish hundredths inferring settings ctx guessing (Value.int 3) (routed, engine) ≡ some result
unfolding finish fallback classify_and_score
is_result = refl

no_error :
    (infer ascii dates scalars nothing_found (codes "line") [] [] login).errors ≡ login.errors
unfolding infer Option.bind infer_users_from drop_while parse_timestamp starts_with
no_error = refl

same_fields :
    field_trees builtins.opened (inferring.infer ctx routed).0.fields
    ≡ (infer ascii dates scalars nothing_found (codes "line") [] [] login).fields
unfolding infer Option.bind infer_users_from drop_while parse_timestamp starts_with
same_fields = refl

distinct : Distinct result.0.1.fields
unfolding Distinct Dict.get text_eq finish fallback classify_and_score contains join Dict.put
distinct = (refl, (refl, (refl, tt)))

secret : is_private ascii scalars.str_of (codes "password") ≡ true
unfolding starts_with
secret = refl

found : Dict.get (codes "password") result.0.1.fields ≡ some (Value.string (codes "***REDACTED***"))
unfolding Dict.get text_eq finish fallback classify_and_score contains join Dict.put
found = refl

kept : is_kept builtins.str_of (codes "password") (string (codes "***REDACTED***")) ≡ true
unfolding is_kept starts_with
kept = refl

normalize-redacts_example :
    (inside (codes "password") (
        Tree.get
          (codes "unmapped")
          (normalize builtins (codes "e1") 9 result.0.1 circumstances).ocsf)
      ≡ some redacted)
    ⊎ (inside (codes "password") (
          Tree.get
            (codes "unmapped")
            (normalize builtins (codes "e1") 9 result.0.1 circumstances).ocsf)
        ≡ some (string []))
normalize-redacts_example =
    normalize-redacts hundredths inferring settings ctx guessing (Value.int 3) routed engine result
      ascii dates scalars nothing_found (codes "line") [] [] login builtins (codes "e1") 9
      circumstances (codes "password") (Value.string (codes "***REDACTED***")) is_result same_fields
      no_error distinct secret found kept

-- Two sources of two tenants keep their miners in one file.
key_path_collision :
    key_path ascii (codes "a__b") (codes "c") ≡ key_path ascii (codes "a") (codes "b__c")
unfolding key_path
key_path_collision = refl
