-- ===== src/Tests/DeclarativeTests.antt =====
-- A pack with an optional and a required signature on a line of its vendor.
use sih_ulpf.Common.{ℕ, ◌*◌, ◌≡◌, ◌≢◌, refl, some, true, false, List, [], ◌∷◌, none, ltb, arith}
use sih_ulpf.Common.Text.{Text, codes, starts_with}
use sih_ulpf.Fingerprint.Unicode.{ascii}
use mathlib.Core.Option
use sih_ulpf.Common.Dict
use sih_ulpf.Common.Eq.{text_key}
use sih_ulpf.Common.Int.{pos}
use sih_ulpf.Normalization.Tree.{int, string}
use sih_ulpf.Declarative.Mapping.{
  Rule, const_rule, from_rule, as_it_is, value, uncaught, MapCalls, Mapped, apply_map,
}
use sih_ulpf.Declarative.Kept.{apply_map-keeps}
use sih_ulpf.Tests.InferenceTests.{dates, scalars}
use sih_ulpf.Declarative.Signatures.{
  Signature, Sight, SigCalls, prefix, holds, sig_ok, pack_can_parse,
}
use sih_ulpf.Declarative.Required.{pack_can_parse-required}

abbrev calls : SigCalls ℕ
calls = record {
  found = λ re s. false;
  app_name = λ s. none;
  lt = ltb;
  mul = λ a b. a * b;
  pct = λ n. n;
}

abbrev sight : Sight
sight = record { text = codes "%ASA-6: built"; family_hash = []; tokens = 2; hints = [] }

abbrev asa : Signature
asa = record { kind = prefix (codes "%ASA"); required = true }

abbrev built : Signature
built = record { kind = holds (codes "built") 512; required = false }

is_scored : pack_can_parse ascii calls (built ∷ asa ∷ []) 90 sight ≢ 0
unfolding pack_can_parse
is_scored = omega arith

pack_can_parse-required_example : sig_ok ascii calls (prefix (codes "%ASA")) sight ≡ true
pack_can_parse-required_example =
    pack_can_parse-required ascii calls (built ∷ asa ∷ []) 90 sight 1 asa is_scored refl refl

abbrev map_calls : MapCalls
map_calls = record {
  int_of_float = λ v. uncaught;
  float_of = λ v. value v;
  level_error = λ v. none;
  of_time = λ t. int (pos t);
  as_time = λ v. none;
}

abbrev rules : List (Text × Rule)
rules =
    (codes "severity_id", const_rule (int (pos 3)))
    ∷ (
      codes "actor",
      from_rule (record {
        from = codes "user";
        default = none;
        lower = false;
        enum = none;
        enum_default = string [];
        conversion = as_it_is;
      }),
    )
    ∷ []

abbrev extracted : Mapped
extracted = record {
  fields = (codes "user", string (codes "root")) ∷ [];
  message = [];
  timestamp = none;
  severity = none;
  errors = [];
}

abbrev mapped : Mapped
mapped = record extracted {
  fields =
      (codes "user", string (codes "root"))
      ∷ (codes "ocsf.severity_id", int (pos 3))
      ∷ (codes "ocsf.actor", string (codes "root"))
      ∷ [];
  severity = some (pos 3);
}

is_mapped : apply_map ascii dates scalars map_calls rules none extracted ≡ some mapped
unfolding apply_map Option.bind Dict.put
is_mapped = refl

no_target : starts_with (codes "user") (codes "ocsf.") ≡ false
unfolding starts_with
no_target = refl

apply_map-keeps_example :
    Dict.get (codes "user") mapped.fields ≡ Dict.get (codes "user") extracted.fields
apply_map-keeps_example =
    apply_map-keeps ascii dates scalars map_calls (codes "user") rules none extracted mapped
      no_target is_mapped
