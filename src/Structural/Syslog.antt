-- ===== src/Structural/Syslog.antt =====
-- `Syslog5424Parser` and `Syslog3164Parser` of uli/parsers/structural.py.
use sih_ulpf.Common.{
  Bool, true, false, ◌&&◌, ◌||◌, List, [], ◌∷◌, ◌++◌, Option, none, some, if◌then◌else◌, ◌==◌, take,
  drop, get_elem?,
}
use sih_ulpf.Common.Text.{Text, codes, contains, replace_all, starts_with, text_eq}
use sih_ulpf.Common.Strings.{all_of, drop_last_while}
use sih_ulpf.Common.Dict
use sih_ulpf.Common.Eq.{text_key}
use sih_ulpf.Models.{TokenType, ts, type_eq}
use sih_ulpf.Fingerprint.Unicode.{Unicode}
use sih_ulpf.Normalization.Tree.{Tree, null, string}
use sih_ulpf.Normalization.Body.{Fields}
use sih_ulpf.Timestamps.{Dates, parse_any}
use sih_ulpf.Structural.Parts.{
  Pattern, syslog5424, sd, sdp, syslog3164, syslog3164_iso, head_bsd, head_iso, head_bsd_loose,
  head_iso_loose, Match, Calls, Line, Parsed, fresh_ir, at, given, set_text, set_given, stamp_of,
  set_pri, mismatch,
}

-- `None` for a dash
abbrev pub dashed : Text → Tree
dashed s = if text_eq s (codes "-") then null else string s

unfoldable pub set_params : Text → List Match → Fields → Fields
set_params id [] f = f
set_params id (p ∷ ps) f = set_params id ps (
    set_text (codes "sd." ++ (id ++ (codes "." ++ at (codes "key") p)))
      (replace_all (at (codes "value") p) (codes "\\\"") (codes "\"")) f)

abbrev pub is_ts : Option TokenType → Bool
is_ts none = false
is_ts (some cls) = type_eq cls ts

module _ {F : Type 0} (u : Unicode) (dates : Dates) (calls : Calls F) where
  -- the elements of the structured data
  unfoldable pub set_elements : List Match → Fields → Fields
  unfolding set_params Dict.get
  set_elements [] f = f
  set_elements (m ∷ ms) f =
      set_elements ms
        (set_params (at (codes "id") m) (calls.find_iter sdp (at (codes "params") m)) f)

  -- `Syslog5424Parser.can_parse`
  unfoldable pub syslog5424_can_parse : Line → F
  unfolding starts_with contains
  syslog5424_can_parse line =
      if starts_with line.text (codes "<") && contains (take 8 line.text) (codes ">1 ")
      then calls.pct 95
      else if starts_with line.text (codes "1 ") && is_ts (get_elem? line.classes 1)
      then calls.pct 80
      else calls.pct 0

  abbrev pub syslog5424_matched : Match → Parsed F → Parsed F
  syslog5424_matched m ir =
      let with_pri = set_pri u dates calls (given (codes "pri") m) ir in
      let fields : Fields = Dict.put (codes "syslog.msgid") (dashed (at (codes "msgid") m)) (
        Dict.put (codes "syslog.procid") (dashed (at (codes "procid") m)) (
          Dict.put (codes "syslog.appname") (dashed (at (codes "app") m))
            (set_text (codes "syslog.hostname") (at (codes "host") m) with_pri.fields))) in
      record with_pri {
        fields =
            if text_eq (at (codes "sd") m) (codes "-")
            then fields
            else set_elements (calls.find_iter sd (at (codes "sd") m)) fields;
        timestamp =
            if text_eq (at (codes "ts") m) (codes "-")
            then none
            else parse_any dates (at (codes "ts") m);
        message = at (codes "msg") m;
      }

  abbrev pub syslog5424_of : Option Match → Parsed F → Parsed F
  syslog5424_of none ir = mismatch u dates calls (codes "syslog5424_mismatch") ir
  syslog5424_of (some m) ir = syslog5424_matched m ir

  -- `Syslog5424Parser.parse`
  unfoldable pub syslog5424_parse : Line → Parsed F
  unfolding set_elements Dict.get Dict.put text_eq
  syslog5424_parse line =
      syslog5424_of (calls.match_at syslog5424 line.text) (fresh_ir line (calls.pct 80))

  abbrev pub hits : Pattern → Text → Bool
  hits p s = elim (calls.match_at p s) as (λ _. Bool) [ none ↦ false | some m ↦ true ]

  -- `Syslog3164Parser.can_parse`
  unfoldable pub syslog3164_can_parse : Line → F
  unfolding starts_with
  syslog3164_can_parse line =
      let head = take 160 line.text in
      if starts_with line.text (codes "<")
        && all_of u.is_digit (drop_last_while (λ c. c == b'>') (take 3 (drop 1 line.text)))
      then calls.pct 85
      else if hits head_bsd head
      then calls.pct 80
      else if hits head_iso head
      then calls.pct 75
      else if hits head_bsd_loose head || hits head_iso_loose head
      then calls.pct 40
      else calls.pct 0

  abbrev pub either_match : Option Match → Option Match → Option Match
  either_match none later = later
  either_match (some m) later = some m

  abbrev pub app_confidence : Option Text → F
  app_confidence none = calls.pct 60
  app_confidence (some s) = calls.pct 75

  abbrev pub syslog3164_matched : Match → Parsed F → Parsed F
  syslog3164_matched m ir =
      let with_pri = set_pri u dates calls (given (codes "pri") m) ir in
      record with_pri {
        timestamp = stamp_of u dates calls (at (codes "ts") m);
        fields = set_given (codes "syslog.procid") (given (codes "pid") m) (
            set_given (codes "syslog.module") (given (codes "mod") m) (
              set_given (codes "syslog.appname") (given (codes "app") m)
                (set_text (codes "syslog.hostname") (at (codes "host") m) with_pri.fields)));
        message = at (codes "msg") m;
        confidence = app_confidence (given (codes "app") m);
      }

  abbrev pub syslog3164_of : Option Match → Parsed F → Parsed F
  syslog3164_of none ir = mismatch u dates calls (codes "syslog3164_mismatch") ir
  syslog3164_of (some m) ir = syslog3164_matched m ir

  -- `Syslog3164Parser.parse`
  unfoldable pub syslog3164_parse : Line → Parsed F
  unfolding Dict.get Dict.put
  syslog3164_parse line =
      syslog3164_of
        (either_match (calls.match_at syslog3164 line.text)
          (calls.match_at syslog3164_iso line.text))
        (fresh_ir line (calls.pct 70))
