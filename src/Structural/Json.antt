-- ===== src/Structural/Json.antt =====
-- `JSONParser` of uli/parsers/structural.py.
use mathlib.Core.Option
use sih_ulpf.Common.{
  ℕ, Bool, true, false, ◌&&◌, ◌||◌, List, [], ◌∷◌, ◌++◌, Option, none, some, if◌then◌else◌, ◌==◌,
}
use sih_ulpf.Common.Text.{Text, codes, starts_with}
use sih_ulpf.Common.Strings.{drop_while, drop_last_while, ends_with}
use sih_ulpf.Common.Dict
use sih_ulpf.Common.Eq.{text_key}
use sih_ulpf.Fingerprint.Unicode.{Unicode}
use sih_ulpf.Normalization.Tree
use sih_ulpf.Normalization.Tree.{Tree, Members, null, flag, int, float, string, object}
use sih_ulpf.Timestamps.{Dates, parse_any}
use sih_ulpf.Structural.Severity.{Scalars, level_to_severity}
use sih_ulpf.Structural.Flatten.{flattened}
use sih_ulpf.Structural.Parts.{Calls, Line, Parsed, fresh_ir, set_text, stamp_of}

abbrev pub ts_keys : List Text
ts_keys =
    codes "timestamp"
    ∷ codes "@timestamp"
    ∷ codes "time"
    ∷ codes "ts"
    ∷ codes "eventTime"
    ∷ codes "event_time"
    ∷ codes "date"
    ∷ codes "datetime"
    ∷ codes "Timestamp"
    ∷ codes "TimeGenerated"
    ∷ codes "_time"
    ∷ codes "log_time"
    ∷ codes "logged_at"
    ∷ []

abbrev pub msg_keys : List Text
msg_keys =
    codes "message"
    ∷ codes "msg"
    ∷ codes "log"
    ∷ codes "body"
    ∷ codes "text"
    ∷ codes "event"
    ∷ codes "Message"
    ∷ codes "description"
    ∷ []

abbrev pub sev_keys : List Text
sev_keys =
    codes "severity"
    ∷ codes "level"
    ∷ codes "loglevel"
    ∷ codes "log_level"
    ∷ codes "levelname"
    ∷ codes "sev"
    ∷ codes "priority"
    ∷ codes "Severity"
    ∷ codes "level_name"
    ∷ []

-- `isinstance(v, (int, float))`
abbrev pub is_number : Tree → Bool
is_number (flag b) = true
is_number (int n) = true
is_number (float b) = true
is_number _ = false

-- `v in (None, "")`
abbrev pub is_blank : Tree → Bool
is_blank null = true
is_blank (string []) = true
is_blank _ = false

abbrev pub has : Text → Members → Bool
has k m = elim (Tree.get k m) as (λ _. Bool) [ none ↦ false | some v ↦ true ]

-- `obj.get(k)` if it is a `str`
abbrev pub text_at : Text → Members → Option Text
text_at k m = elim (Tree.get k m) as (λ _. Option Text) [ some (string s) ↦ some s | _ ↦ none ]

-- the first of the keys with a text
unfoldable pub first_text : List Text → Members → Option Text
unfolding Tree.get
first_text [] m = none
first_text (k ∷ ks) m =
    let later = first_text ks m in
    elim (text_at k m) as (λ _. Option Text) [ none ↦ later | some s ↦ some s ]

unfoldable pub first_value : List Text → Members → Option Tree
unfolding Tree.get
first_value [] m = none
first_value (k ∷ ks) m =
    let later = first_value ks m in
    elim (Tree.get k m) as (λ _. Option Tree) [ none ↦ later | some v ↦ some v ]

module _ {F : Type 0} (u : Unicode) (dates : Dates) (sc : Scalars) (calls : Calls F) where
  -- `can_parse`
  unfoldable pub json_can_parse : Line → F
  unfolding starts_with drop_while
  json_can_parse line =
      let t = drop_while u.is_space line.text in
      if starts_with t (codes "{") && ends_with (drop_last_while u.is_space t) (codes "}")
      then calls.pct 90
      else calls.pct 0

  -- the time that a value names
  abbrev pub time_of : Tree → Option ℕ
  time_of v =
      if is_number v then stamp_of u dates calls (sc.str_of v) else parse_any dates (sc.str_of v)

  -- the loop over `_TS_KEYS`: the key and the time
  unfoldable pub first_time : List Text → Members → Option (Text × ℕ)
  unfolding Tree.get
  first_time [] m = none
  first_time (k ∷ ks) m =
      let later = first_time ks m in
      elim (Tree.get k m) as (λ _. Option (Text × ℕ)) [
        | none ↦ later
        | some v ↦ elim (if is_blank v then none else time_of v) as (λ _. Option (Text × ℕ)) [
          | none ↦ later
          | some t ↦ some (k, t)
        ]
      ]

  -- a line of Docker's json-file
  abbrev pub docker : Members → Text → Parsed F → Parsed F
  docker m log ir = record ir {
    product = some (codes "docker-json-file");
    fields =
        Dict.put (codes "container.stream") (Option.get_or (Tree.get (codes "stream") m) null)
          (flattened calls.dumps (object m));
    message = drop_last_while (λ c. c == 10) log;
    timestamp = Option.bind (Tree.get (codes "time") m) (λ v. parse_any dates (sc.str_of v));
    confidence = calls.pct 85;
  }

  abbrev pub is_otlp : Members → Bool
  is_otlp m = has (codes "resourceLogs") m || (has (codes "body") m && has (codes "attributes") m)

  abbrev pub set_time : Option (Text × ℕ) → Parsed F → Parsed F
  set_time none ir = record ir { confidence = calls.pct 70 }
  set_time (some (k, t)) ir = record ir {
    timestamp = some t;
    fields = set_text (codes "__ts_field") k ir.fields;
    confidence = calls.pct 80;
  }

  abbrev pub severity_of : Option Tree → Option (Option ℕ)
  severity_of none = some none
  severity_of (some v) = level_to_severity u sc v

  -- any other object, once its severity is known
  abbrev pub generic_with : Members → Parsed F → Option ℕ → Parsed F
  generic_with m ir sev = set_time (first_time ts_keys m) (record ir {
    product = if is_otlp m then some (codes "otlp-json") else ir.product;
    fields = flattened calls.dumps (object m);
    message = Option.get_or (first_text msg_keys m) ir.message;
    severity = sev;
  })

  -- `none` is the exception of `level_to_severity`
  abbrev pub generic : Members → Parsed F → Option (Parsed F)
  generic m ir = Option.map (generic_with m ir) (severity_of (first_value sev_keys m))

  abbrev pub of_object : Members → Parsed F → Option (Parsed F)
  of_object m ir =
      elim (if has (codes "stream") m && has (codes "time") m
          then text_at (codes "log") m
          else none)
        as (λ _. Option (Parsed F)) [ none ↦ generic m ir | some log ↦ some (docker m log ir) ]

  abbrev pub of_loaded : Option Tree → Line → Parsed F → Option (Parsed F)
  of_loaded none line ir = some (record ir {
    errors = ir.errors ++ ((codes "json_invalid:" ++ calls.load_error line.text) ∷ []);
    confidence = calls.pct 0;
  })
  of_loaded (some (object m)) line ir = of_object m ir
  of_loaded (some v) line ir =
      some (record ir { fields = Dict.put (codes "value") v ir.fields; confidence = calls.pct 50 })

  -- `parse`
  unfoldable pub json_parse : Line → Option (Parsed F)
  unfolding first_time first_text first_value Dict.put Tree.get
  json_parse line = of_loaded (calls.loads line.text) line (fresh_ir line (calls.pct 75))
