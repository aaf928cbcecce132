-- ===== src/Structural/Errors.antt =====
-- How sure a structural parser is of a line with an error.
use mathlib.Core.Option
use sih_ulpf.Common.{
  ℕ, ◌≡◌, ◌≢◌, refl, ◌∙◌, ◌⊎◌, Bool, true, false, List, [], ◌∷◌, Option, none, some, if◌then◌else◌,
  inl, inr,
}
use sih_ulpf.Common.Text.{Text, codes}
use sih_ulpf.Common.Strings.{is_empty}
use sih_ulpf.Fingerprint.Unicode.{Unicode}
use sih_ulpf.Normalization.Tree.{Tree, Members, null, flag, int, float, string, array, object}
use sih_ulpf.Timestamps.{Dates}
use sih_ulpf.Structural.Severity.{Scalars}
use sih_ulpf.Structural.Parts.{
  syslog5424, syslog3164, syslog3164_iso, Match, Calls, Line, Parsed, fresh_ir, given, set_pri,
  strip_space,
}
use sih_ulpf.Structural.Json.{
  set_time, generic, generic_with, docker, of_loaded, json_parse, first_time, ts_keys,
}
use sih_ulpf.Structural.Cef.{set_prefix, cef_of, cef_parse, leef_of, leef_parse}
use sih_ulpf.Structural.Syslog.{
  either_match, syslog5424_of, syslog5424_parse, syslog3164_of, syslog3164_parse,
}
use sih_ulpf.Structural.Lines.{
  kv_of, kv_parse, clf_of, clf_parse, apache_of, apache_parse, log4j_of, log4j_parse,
}
use sih_ulpf.Structural.Dispatch.{
  Format, json_format, cef_format, leef_format, syslog5424_format, syslog3164_format, clf_format,
  apache_format, log4j_format, kv_format, parse_as,
}

module _ {F : Type 0} (u : Unicode) (dates : Dates) (sc : Scalars) (calls : Calls F) where
  -- a confidence of 0, 0.2 or 0.3
  abbrev pub IsLow : F → Type 0
  IsLow x = (x ≡ calls.pct 0) ⊎ ((x ≡ calls.pct 20) ⊎ (x ≡ calls.pct 30))

  abbrev Quiet : Parsed F → Type 0
  Quiet ir = (ir.errors ≡ []) ⊎ IsLow ir.confidence

  either-errors :
      (b : Bool) (x y : Parsed F) → x.errors ≡ y.errors → (if b then x else y).errors ≡ y.errors
  either-errors true x y h = h
  either-errors false x y h = refl

  prefix-errors :
      (prefix : Text) (ir : Parsed F) → (set_prefix u dates sc calls prefix ir).errors ≡ ir.errors
  prefix-errors prefix ir = either-errors (is_empty (strip_space u dates calls prefix)) ir _ refl

  pri-errors : (o : Option Text) (ir : Parsed F) → (set_pri u dates calls o ir).errors ≡ ir.errors
  pri-errors none ir = refl
  pri-errors (some s) ir = refl

  time-errors :
      (o : Option (Text × ℕ)) (ir : Parsed F) → (set_time u dates sc calls o ir).errors ≡ ir.errors
  time-errors none ir = refl
  time-errors (some p) ir = refl

  cef-Quiet :
      (prefix : Text) (o : Option Match) (ir : Parsed F)
      → ir.errors ≡ []
      → Quiet (cef_of u dates sc calls prefix o ir)
  cef-Quiet prefix none ir h = inr (inr (inr refl))
  cef-Quiet prefix (some m) ir h = inl (prefix-errors prefix _ ∙ h)

  leef-Quiet :
      (prefix : Text) (o : Option Match) (ir : Parsed F)
      → ir.errors ≡ []
      → Quiet (leef_of u dates sc calls prefix o ir)
  leef-Quiet prefix none ir h = inr (inr (inr refl))
  leef-Quiet prefix (some m) ir h = inl h

  syslog5424-Quiet :
      (o : Option Match) (ir : Parsed F) → ir.errors ≡ [] → Quiet (syslog5424_of u dates calls o ir)
  syslog5424-Quiet none ir h = inr (inr (inr refl))
  syslog5424-Quiet (some m) ir h = inl (pri-errors (given (codes "pri") m) ir ∙ h)

  syslog3164-Quiet :
      (o : Option Match) (ir : Parsed F) → ir.errors ≡ [] → Quiet (syslog3164_of u dates calls o ir)
  syslog3164-Quiet none ir h = inr (inr (inr refl))
  syslog3164-Quiet (some m) ir h = inl (pri-errors (given (codes "pri") m) ir ∙ h)

  clf-Quiet :
      (o : Option Match) (ir : Parsed F) → ir.errors ≡ [] → Quiet (clf_of u dates sc calls o ir)
  clf-Quiet none ir h = inr (inr (inr refl))
  clf-Quiet (some m) ir h = inl h

  apache-Quiet :
      (o : Option Match) (ir : Parsed F) → ir.errors ≡ [] → Quiet (apache_of u dates sc calls o ir)
  apache-Quiet none ir h = inr (inr (inr refl))
  apache-Quiet (some m) ir h = inl h

  log4j-Quiet :
      (o : Option Match) (ir : Parsed F) → ir.errors ≡ [] → Quiet (log4j_of u dates sc calls o ir)
  log4j-Quiet none ir h = inr (inr (inr refl))
  log4j-Quiet (some m) ir h = inl h

  kv-Quiet : (ms : List Match) (line : Line) → Quiet (kv_of u dates sc calls ms line)
  kv-Quiet [] line = inr (inr (inl refl))
  kv-Quiet (m ∷ ms) line = inl refl

  abbrev QuietOption : Option (Parsed F) → Type 0
  QuietOption none = Unit
  QuietOption (some ir) = Quiet ir

  map-Quiet :
      (m : Members) (ir : Parsed F) (o : Option (Option ℕ))
      → ir.errors ≡ []
      → QuietOption (Option.map (generic_with u dates sc calls m ir) o)
  map-Quiet m ir none h = tt
  map-Quiet m ir (some sev) h = inl (time-errors (first_time u dates sc calls ts_keys m) _ ∙ h)

  object_or :
      (m : Members) (ir : Parsed F) (o : Option Text)
      → ir.errors ≡ []
      → QuietOption (elim o as (λ _. Option (Parsed F)) [
        | none ↦ generic u dates sc calls m ir
        | some log ↦ some (docker u dates sc calls m log ir)
      ])
  object_or m ir none h = map-Quiet m ir _ h
  object_or m ir (some log) h = inl h

  json-Quiet :
      (v : Option Tree) (line : Line) (ir : Parsed F)
      → ir.errors ≡ []
      → QuietOption (of_loaded u dates sc calls v line ir)
  json-Quiet none line ir h = inr (inl refl)
  json-Quiet (some (object m)) line ir h = object_or m ir _ h
  json-Quiet (some null) line ir h = inl h
  json-Quiet (some (flag b)) line ir h = inl h
  json-Quiet (some (int n)) line ir h = inl h
  json-Quiet (some (float b)) line ir h = inl h
  json-Quiet (some (string s)) line ir h = inl h
  json-Quiet (some (array vs)) line ir h = inl h

  parse_as-Quiet : (f : Format) (line : Line) → QuietOption (parse_as u dates sc calls f line)
  unfolding parse_as json_parse cef_parse leef_parse syslog5424_parse syslog3164_parse clf_parse
      apache_parse log4j_parse kv_parse
  parse_as-Quiet json_format line = json-Quiet (calls.loads line.text) line _ refl
  parse_as-Quiet cef_format line = cef-Quiet _ _ _ refl
  parse_as-Quiet leef_format line = leef-Quiet _ _ _ refl
  parse_as-Quiet syslog5424_format line =
      syslog5424-Quiet (calls.match_at syslog5424 line.text) (fresh_ir line (calls.pct 80)) refl
  parse_as-Quiet syslog3164_format line =
      syslog3164-Quiet
        (either_match u dates calls (calls.match_at syslog3164 line.text)
          (calls.match_at syslog3164_iso line.text))
        (fresh_ir line (calls.pct 70)) refl
  parse_as-Quiet clf_format line = clf-Quiet _ _ refl
  parse_as-Quiet apache_format line = apache-Quiet _ _ refl
  parse_as-Quiet log4j_format line = log4j-Quiet _ _ refl
  parse_as-Quiet kv_format line = kv-Quiet _ line

  loud_result :
      (o : Option (Parsed F)) (ir : Parsed F)
      → QuietOption o
      → o ≡ some ir
      → ir.errors ≢ []
      → IsLow ir.confidence
  loud_result none ir q h loud = cc
  loud_result (some x) ir q h loud = quiet ir (rw (← some_inj h) q) loud
    where
      some_inj : ◌≡◌ {A = Option (Parsed F)} (some x) (some ir) → x ≡ ir
      some_inj e = cc

      quiet : (y : Parsed F) → Quiet y → (y.errors ≡ [] → ⊥) → IsLow y.confidence
      quiet y (inl none_there) z = absurd (z none_there)
      quiet y (inr low) z = low

  -- Whenever a structural parser returns a result in which it has noted an error, such as a grammar
  -- that does not match, its confidence is 0, 0.2 or 0.3, whatever the regular expressions find.
  pub parse_as-errors :
      (f : Format) (line : Line) (ir : Parsed F)
      → parse_as u dates sc calls f line ≡ some ir
      → ir.errors ≢ []
      → IsLow ir.confidence
  parse_as-errors f line ir h loud =
      loud_result (parse_as u dates sc calls f line) ir (parse_as-Quiet f line) h loud
