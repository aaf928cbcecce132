-- ===== src/Tests/InferenceTests.antt =====
-- A line with an address and a password.
use mathlib.Core.Option
use sih_ulpf.Common.{◌≡◌, refl, ◌⊎◌, true, List, [], ◌∷◌, none, some, arith}
use sih_ulpf.Common.Text.{Text, codes, starts_with}
use sih_ulpf.Common.Strings.{drop_while}
use sih_ulpf.Common.Dict
use sih_ulpf.Common.Eq.{text_key}
use sih_ulpf.Common.Int.{pos}
use sih_ulpf.Models.{TokenType, word, ip4}
use sih_ulpf.Fingerprint.Unicode.{ascii}
use sih_ulpf.Timestamps.{Dates, parse_timestamp}
use sih_ulpf.Structural.Severity.{Scalars}
use sih_ulpf.Inference.Observe.{Draft, Finders, infer_users_from}
use sih_ulpf.Inference.Roles.{is_unset, is_private, infer}
use sih_ulpf.Inference.Redacted.{redacted, infer-redacts}
use sih_ulpf.Inference.Bounded.{IsTidy, infer-IsTidy}

abbrev pub dates : Dates
dates = record {
  search = λ g s. none;
  int_of = λ s. none;
  year_now = 2026;
  lower = ascii.lower;
  datetime = λ ns us z. none;
  from_seconds = λ s. none;
  from_millis = λ n. none;
  dateutil = λ s. none;
}

abbrev pub scalars : Scalars
scalars = record { trunc = λ b. some (pos b); str_of = λ v. codes "value" }

abbrev finders : Finders
finders = record {
  kv_any = λ s. (codes "password", codes "x") ∷ [];
  user_patterns = (λ s. some (codes "root")) ∷ [];
  hashes = λ s. codes "ab" ∷ codes "ab" ∷ [];
  sev_any = λ s. some (codes "ERROR");
}

abbrev draft : Draft
draft = record { fields = []; observables = []; timestamp = none; severity = none; errors = [] }

abbrev tokens : List Text
tokens = codes "from" ∷ codes "10.0.0.1:22" ∷ []

abbrev classes : List TokenType
classes = word ∷ ip4 ∷ []

no_error :
    (infer ascii dates scalars finders (codes "line") tokens classes draft).errors ≡ draft.errors
unfolding infer Option.bind infer_users_from drop_while parse_timestamp starts_with
no_error = refl

found :
    Dict.get
      (codes "inferred.password")
      (infer ascii dates scalars finders (codes "line") tokens classes draft).fields
    ≡ some redacted
unfolding infer Option.bind infer_users_from drop_while parse_timestamp starts_with
found = refl

secret : is_private ascii scalars.str_of (codes "inferred.password") ≡ true
unfolding starts_with
secret = refl

infer-redacts_example : (is_unset redacted ≡ true) ⊎ (redacted ≡ redacted)
infer-redacts_example =
    infer-redacts ascii dates scalars finders (codes "line") tokens classes draft
      (codes "inferred.password") redacted no_error secret found

few : IsTidy []
few = record { few = omega arith; unrepeated = tt }

infer-IsTidy_example :
    IsTidy (infer ascii dates scalars finders (codes "line") tokens classes draft).observables
infer-IsTidy_example =
    infer-IsTidy ascii dates scalars finders (codes "line") tokens classes draft few
