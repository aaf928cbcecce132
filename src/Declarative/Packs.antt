-- ===== src/Declarative/Packs.antt =====
-- `parse` and `_score` of `DeclarativeParser` of uli/parsers/declarative.py.
use mathlib.Core.Option
use sih_ulpf.Common.{
  ℕ, zero, suc, Bool, true, false, ◌∷◌, List, [], ◌++◌, Option, none, some, if◌then◌else◌, length,
}
use sih_ulpf.Common.Text.{Text, codes, starts_with, join}
use sih_ulpf.Common.Strings.{ends_with}
use sih_ulpf.Common.Dict
use sih_ulpf.Common.Dict.{Dict}
use sih_ulpf.Common.Eq.{text_key}
use sih_ulpf.Common.Int.{pos}
use sih_ulpf.Storage.Tables.{filter}
use sih_ulpf.Fingerprint.Unicode.{Unicode}
use sih_ulpf.Normalization.Tree.{Tree, null}
use sih_ulpf.Normalization.Body.{Fields}
use sih_ulpf.Timestamps.{Dates}
use sih_ulpf.Structural.Severity.{Scalars}
use sih_ulpf.Structural.Parts.{Calls, Line, Parsed, fresh_ir}
use sih_ulpf.Structural.Dispatch.{Format, parse_as}
use sih_ulpf.Inference.Roles.{is_unset}
use sih_ulpf.Declarative.Extracts.{Extraction, ExtractCalls, run_extracts, update_fields}
use sih_ulpf.Declarative.Mapping.{Rule, MapCalls, Mapped, apply_map}

-- The parts of a pack that `parse` reads, with their defaults put in; a `pre` that names no
-- structural parser is none.
pub record Pack (F : Type 0) : Type 0 where
  pub vendor : Option Text
  pub product : Option Text
  pub product_version : Option Text
  pub class_uid : Option ℕ
  pub activity_id : Option ℕ
  pub base : F
  pub require : List Text
  pub pre : Option Format
  pub extract : List (Text × Extraction)
  pub rules : List (Text × Rule)
  pub message_from : Option Text

-- The floats of `_score`: `n / d`, the square root, the product, the lesser and the greater of two,
-- and `n` hundredths.
pub record ScoreCalls (F : Type 0) : Type 0 where
  pub ratio : ℕ → ℕ → F
  pub sqrt : F → F
  pub mul : F → F → F
  pub min : F → F → F
  pub max : F → F → F
  pub pct : ℕ → F

-- What `parse` returns, without what it copies from the pack.
pub record PackIr (F : Type 0) : Type 0 where
  pub mapped : Mapped
  pub confidence : F
  pub factors : Dict Text F

-- the required fields that are not set
unfoldable pub missing_of : List Text → Fields → List Text
unfolding Dict.get filter
missing_of req f = filter (λ r. is_unset (Option.get_or (Dict.get r f) null)) req

abbrev pub is_nil : List Text → Bool
is_nil [] = true
is_nil (t ∷ ts) = false

abbrev pub is_set : Option ℕ → Bool
is_set none = false
is_set (some t) = true

-- the fields under `ocsf.`
abbrev pub is_target : Text × Tree → Bool
is_target (k, v) = starts_with k (codes "ocsf.")

-- `len(..) or 1`
abbrev pub or_one : ℕ → ℕ
or_one zero = 1
or_one (suc n) = suc n

unfoldable pub any_nomatch : List Text → Bool
unfolding starts_with
any_nomatch [] = false
any_nomatch (e ∷ es) =
    let rest = any_nomatch es in if ends_with e (codes "_nomatch") then true else rest

-- `{k: v for .. if v is not None}`
unfoldable pub without_null : Fields → Fields
without_null [] = []
without_null ((k, null) ∷ f) = without_null f
without_null ((k, v) ∷ f) = (k, v) ∷ without_null f

module _ {F : Type 0} (calls : ScoreCalls F) where
  -- the four factors of every result
  abbrev pub factors_of : Pack F → Mapped → Dict Text F
  factors_of pack ir =
      let targets = length (filter is_target ir.fields) in
      let fill = calls.min (calls.pct 100) (calls.ratio targets (or_one (length pack.rules))) in
      (codes "base", pack.base)
      ∷ (codes "fill", calls.sqrt fill)
      ∷ (
        codes "require",
        if is_nil (missing_of pack.require ir.fields) then calls.pct 100 else calls.pct 50,
      )
      ∷ (codes "ts", if is_set ir.timestamp then calls.pct 100 else calls.pct 85)
      ∷ []

  -- `conf *= v` for all of them
  unfoldable pub product_of : Dict Text F → F → F
  product_of [] conf = conf
  product_of ((k, v) ∷ factors) conf = product_of factors (calls.mul conf v)

  -- the errors and the factors of expressions that did not match
  abbrev pub halved : Bool → Dict Text F → Dict Text F
  halved true factors = Dict.put (codes "nomatch") (calls.pct 50) factors
  halved false factors = factors

  abbrev pub missing_error : List Text → List Text
  missing_error [] = []
  missing_error (r ∷ rs) = (codes "missing_required:" ++ join (codes ",") (r ∷ rs)) ∷ []

  -- `_score`
  unfoldable pub score_pack : Pack F → Mapped → PackIr F
  unfolding missing_of filter starts_with any_nomatch product_of Dict.put join
  score_pack pack ir =
      let factors = halved (any_nomatch ir.errors) (factors_of pack ir) in
      record {
        mapped = record ir {
          errors = ir.errors ++ missing_error (missing_of pack.require ir.fields);
        };
        confidence =
            calls.max (calls.pct 0)
              (calls.min (calls.pct 100) (product_of factors (calls.pct 100)));
        factors = factors;
      }

-- what `parse` calls
pub record PackCalls (F : Type 0) : Type 0 where
  pub structural : Calls F
  pub extracts : ExtractCalls
  pub maps : MapCalls
  pub scores : ScoreCalls F

module _ {F : Type 0} (u : Unicode) (dates : Dates) (sc : Scalars) (calls : PackCalls F) where
  -- the parser named by `pre`; `none` is an exception
  abbrev pub peeled : Pack F → Line → Option (Parsed F) → Option (Parsed F)
  peeled pack line none = none
  peeled pack line (some pre) = some (record (fresh_ir line pack.base) {
    fields = update_fields u calls.extracts (without_null pre.fields) [];
    timestamp = pre.timestamp;
    severity = pre.severity;
    message = pre.message;
    errors = pre.errors;
  })

  abbrev pub pre_parsed : Pack F → Line → Option (Parsed F)
  pre_parsed pack line = elim pack.pre as (λ _. Option (Parsed F)) [
    | none ↦ some (fresh_ir line pack.base)
    | some f ↦ peeled pack line (parse_as u dates sc calls.structural f line)
  ]

  abbrev pub to_mapped : Parsed F → Mapped
  to_mapped ir = record {
    fields = ir.fields;
    message = ir.message;
    timestamp = ir.timestamp;
    severity = Option.map pos ir.severity;
    errors = ir.errors;
  }

  abbrev pub extracted : Pack F → Line → Parsed F → Mapped
  extracted pack line ir = to_mapped (run_extracts u calls.extracts pack.extract line.text ir)

  -- `parse`; `none` is an exception
  unfoldable pub pack_parse : Pack F → Line → Option (PackIr F)
  unfolding update_fields without_null parse_as run_extracts apply_map score_pack
  pack_parse pack line = Option.bind (pre_parsed pack line) (λ ir.
      Option.map (score_pack calls.scores pack)
        (apply_map u dates sc calls.maps pack.rules pack.message_from (extracted pack line ir)))
