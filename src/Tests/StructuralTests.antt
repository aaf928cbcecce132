-- ===== src/Tests/StructuralTests.antt =====
-- A nested object, a Docker line and a line that no grammar matches.
use sih_ulpf.Common.{ℕ, ◌≡◌, ◌≢◌, refl, [], ◌∷◌, none, some, ◌∷◌}
use sih_ulpf.Common.Text.{codes, text_eq}
use sih_ulpf.Common.Int.{pos}
use sih_ulpf.Fingerprint.Unicode.{ascii}
use sih_ulpf.Normalization.Tree.{Tree, int, string, array, object, nil, cons, end, member}
use sih_ulpf.Structural.Flatten.{flatten, flattened}
use sih_ulpf.Structural.Flat.{Flat, flattened-Flat}
use sih_ulpf.Structural.Parts.{Calls, Line, Parsed}
use sih_ulpf.Structural.Cef.{cef_parse}
use sih_ulpf.Structural.Dispatch.{cef_format, parse_as}
use sih_ulpf.Structural.Errors.{IsLow, parse_as-errors}
use sih_ulpf.Tests.InferenceTests.{dates, scalars}

abbrev nested : Tree
nested = object (
    member (codes "a") (object (member (codes "b") (int (pos 1)) end)) (
      member (codes "c") (array (cons (object (member (codes "d") (string (codes "x")) end)) nil))
        end))

flattened-nested :
    flattened (λ v. []) nested
    ≡ (codes "a.b", int (pos 1)) ∷ (codes "c.0.d", string (codes "x")) ∷ []
unfolding flatten text_eq
flattened-nested = refl

flattened-Flat_example : Flat (flattened (λ v. []) nested)
flattened-Flat_example = flattened-Flat (λ v. []) nested

abbrev no_match : Calls ℕ
no_match = record {
  match_at = λ p s. none;
  search = λ p s. none;
  find_iter = λ p s. [];
  loads = λ s. none;
  load_error = λ s. codes "JSONDecodeError";
  dumps = λ v. [];
  int_of = λ s. none;
  digits_of = λ s. 0;
  chr_hex = λ s. none;
  pct = λ n. n;
}

abbrev line : Line
line = record { text = codes "CEF:bad"; classes = []; token_count = 2 }

abbrev mismatched : Parsed ℕ
mismatched = record {
  fields = [];
  message = codes "CEF:bad";
  timestamp = none;
  severity = none;
  vendor = none;
  product = none;
  product_version = none;
  class_uid = none;
  confidence = 30;
  errors = codes "cef_header_mismatch" ∷ [];
}

parsed : parse_as ascii dates scalars no_match cef_format line ≡ some mismatched
unfolding parse_as cef_parse
parsed = refl

has_error : mismatched.errors ≢ []
has_error h = cc

parse_as-errors_example : IsLow ascii dates scalars no_match mismatched.confidence
parse_as-errors_example =
    parse_as-errors ascii dates scalars no_match cef_format line mismatched parsed has_error
