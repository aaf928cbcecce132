-- ===== src/Declarative/Mapping.antt =====
-- `_apply_map` of `DeclarativeParser` of uli/parsers/declarative.py.
use mathlib.Core.Option
use sih_ulpf.Common.{
  ℕ, Bool, true, false, ◌||◌, List, [], ◌∷◌, ◌++◌, Option, none, some, if◌then◌else◌,
}
use sih_ulpf.Common.Text.{Text, codes, text_eq}
use sih_ulpf.Common.Dict
use sih_ulpf.Common.Dict.{Dict}
use sih_ulpf.Common.Eq.{text_key}
use sih_ulpf.Common.Int.{ℤ, pos}
use sih_ulpf.Fingerprint.Unicode.{Unicode}
use sih_ulpf.Normalization.Tree.{Tree, null, flag, int, truthy}
use sih_ulpf.Normalization.Body.{Fields}
use sih_ulpf.Timestamps.{Dates, parse_timestamp, parse_any}
use sih_ulpf.Structural.Severity.{Scalars, level_to_severity}
use sih_ulpf.Inference.Roles.{is_unset}

-- The `type` of a rule.
pub data Conversion : Type 0 where
  to_int to_float to_bool to_ts to_severity as_it_is : Conversion

-- A rule of `map.fields` with `from`; `enum` with `enum_default`.
pub record FromRule : Type 0 where
  pub from : Text
  pub default : Option Tree
  pub lower : Bool
  pub enum : Option (Dict Text Tree)
  pub enum_default : Tree
  pub conversion : Conversion

pub data Rule : Type 0 where
  const_rule : Tree → Rule
  from_rule : FromRule → Rule

-- What a step on a value comes to: a value, `continue`, the name of an exception that `_apply_map`
-- catches, or one that it does not.
pub data Outcome : Type 0 where
  value : Tree → Outcome
  skipped : Outcome
  caught : Text → Outcome
  uncaught : Outcome

-- `int(float(val))` and `float(val)`; the exception of `int` of a float that is no number, if
-- `_apply_map` catches it; and how a `datetime` stands among the fields.
pub record MapCalls : Type 0 where
  pub int_of_float : Tree → Outcome
  pub float_of : Tree → Outcome
  pub level_error : Tree → Option Text
  pub of_time : ℕ → Tree
  pub as_time : Tree → Option ℕ

-- What `_apply_map` reads and writes of an `IR`; a severity that a mapping sets may be any number.
pub record Mapped : Type 0 where
  pub fields : Fields
  pub message : Text
  pub timestamp : Option ℕ
  pub severity : Option ℤ
  pub errors : List Text

-- `isinstance(val, int)`, which a flag is as well
abbrev pub as_int : Tree → Option ℤ
as_int (int n) = some n
as_int (flag true) = some (pos 1)
as_int (flag false) = some (pos 0)
as_int _ = none

abbrev pub or_skip : Tree → Outcome
or_skip null = skipped
or_skip v = value v

abbrev pub target_key : Text → Text
target_key target = codes "ocsf." ++ target

module _ (u : Unicode) (dates : Dates) (sc : Scalars) (calls : MapCalls) where
  abbrev pub lowered_if : Bool → Tree → Tree
  lowered_if true v = Tree.string (u.lower (sc.str_of v))
  lowered_if false v = v

  abbrev pub enum_key : Bool → Tree → Text
  enum_key true v = u.lower (sc.str_of v)
  enum_key false v = sc.str_of v

  -- `rule["enum"].get(..)`; null is skipped
  abbrev pub through_enum : FromRule → Tree → Outcome
  through_enum r v = elim r.enum as (λ _. Outcome) [
    | none ↦ value v
    | some names ↦ or_skip (Option.get_or (Dict.get (enum_key r.lower v) names) r.enum_default)
  ]

  abbrev pub of_stamp : Option ℕ → Outcome
  of_stamp none = skipped
  of_stamp (some t) = value (calls.of_time t)

  -- `parse_any(s) or parse_timestamp(s)[0]`
  abbrev pub time_in : Text → Option ℕ
  time_in s = elim (parse_any dates s) as (λ _. Option ℕ) [
    | none ↦ Option.map (λ found. found.0) (parse_timestamp dates s 96)
    | some t ↦ some t
  ]

  abbrev pub of_level : Option Text → Option (Option ℕ) → Outcome
  of_level (some e) none = caught e
  of_level none none = uncaught
  of_level e (some none) = skipped
  of_level e (some (some n)) = value (int (pos n))

  abbrev pub is_yes : Text → Bool
  is_yes s =
      text_eq s (codes "1")
      || (text_eq s (codes "true") || (text_eq s (codes "yes") || text_eq s (codes "y")))

  -- the conversion of a value
  unfoldable pub convert : Conversion → Tree → Outcome
  unfolding parse_any parse_timestamp level_to_severity text_eq
  convert to_int v = calls.int_of_float v
  convert to_float v = calls.float_of v
  convert to_bool v = value (flag (is_yes (u.lower (sc.str_of v))))
  convert to_ts v = of_stamp (time_in (sc.str_of v))
  convert to_severity v = of_level (calls.level_error v) (level_to_severity u sc v)
  convert as_it_is v = value v

  abbrev pub and_convert : Conversion → Outcome → Outcome
  and_convert c (value v) = convert c v
  and_convert c skipped = skipped
  and_convert c (caught e) = caught e
  and_convert c uncaught = uncaught

  abbrev pub converted : FromRule → Tree → Outcome
  converted r v = and_convert r.conversion (through_enum r (lowered_if r.lower v))

  -- the field, or the default of one that is not set
  abbrev pub read_field : FromRule → Fields → Option Tree
  read_field r f =
      let v = Option.get_or (Dict.get r.from f) null in if is_unset v then r.default else some v

  -- the value of a rule
  unfoldable pub rule_value : Rule → Fields → Outcome
  unfolding convert Dict.get
  rule_value (const_rule v) f = value v
  rule_value (from_rule r) f = elim (read_field r f) as (λ _. Outcome) [
    | none ↦ skipped
    | some v ↦ converted r v
  ]

  abbrev pub or_keep : {A : Type 0} → Option A → Option A → Option A
  or_keep none old = old
  or_keep (some a) old = some a

  -- the assignments for one target
  abbrev pub set_target : Text → Tree → Mapped → Mapped
  set_target target v ir = record ir {
    fields = Dict.put (target_key target) v ir.fields;
    timestamp =
        if text_eq target (codes "time")
        then or_keep (calls.as_time v) ir.timestamp
        else ir.timestamp;
    severity =
        if text_eq target (codes "severity_id")
        then or_keep (as_int v) ir.severity
        else ir.severity;
  }

  abbrev pub set_outcome : Text → Outcome → Mapped → Option Mapped
  set_outcome target (value v) ir = some (set_target target v ir)
  set_outcome target skipped ir = some ir
  set_outcome target (caught e) ir = some (record ir {
    errors = ir.errors ++ ((codes "map_" ++ (target ++ (codes "_error:" ++ e))) ∷ []);
  })
  set_outcome target uncaught ir = none

  -- the loop over `map.fields`; `none` is an exception that leaves it
  unfoldable pub map_fields : List (Text × Rule) → Mapped → Option Mapped
  unfolding rule_value text_eq
  map_fields [] ir = some ir
  map_fields ((target, rule) ∷ rules) ir =
      Option.bind (set_outcome target (rule_value rule ir.fields) ir) (map_fields rules)

  abbrev pub message_of : Option Tree → Text → Text
  message_of none old = old
  message_of (some v) old = if truthy v then sc.str_of v else old

  -- `message_from`
  abbrev pub set_message : Option Text → Mapped → Mapped
  set_message none ir = ir
  set_message (some []) ir = ir
  set_message (some (c ∷ k)) ir = record ir {
    message = message_of (Dict.get (c ∷ k) ir.fields) ir.message;
  }

  -- `_apply_map`
  unfoldable pub apply_map : List (Text × Rule) → Option Text → Mapped → Option Mapped
  unfolding map_fields Dict.get
  apply_map rules message_from ir = Option.map (set_message message_from) (map_fields rules ir)
