-- ===== src/Structural/Lines.antt =====
-- `KVParser`, `CLFParser`, `ApacheErrorParser` and `Log4jParser` of uli/parsers/structural.py.
use mathlib.Core.Option
use sih_ulpf.Common.{
  ℕ, suc, Bool, true, false, ◌&&◌, List, [], ◌∷◌, ◌++◌, Option, none, some, if◌then◌else◌, leb, ltb,
  take,
}
use sih_ulpf.Common.Text.{Text, codes, contains, starts_with, text_eq}
use sih_ulpf.Common.Strings.{find, split_on}
use sih_ulpf.Common.Dict
use sih_ulpf.Common.Eq.{text_key}
use sih_ulpf.Common.Int.{pos}
use sih_ulpf.Models.{TokenType, type_eq}
use sih_ulpf.Fingerprint.Unicode.{Unicode}
use sih_ulpf.Normalization.Tree.{Tree, null, int, string}
use sih_ulpf.Normalization.Body.{Fields}
use sih_ulpf.Timestamps.{Dates, parse_any}
use sih_ulpf.Structural.Severity.{Scalars, level_of_word}
use sih_ulpf.Inference.Observe.{unquoted}
use sih_ulpf.Structural.Parts.{
  Pattern, kv_pair, clf, apache_error, apache_head, log4j, log4j_2, log4j_head, log4j_level, Match,
  Calls, Line, Parsed, fresh_ir, at, given, or_none, set_text, set_given, text_or, stamp_of,
  mismatch,
}
use sih_ulpf.Structural.Syslog.{either_match, hits}

-- the classes of a kind
unfoldable pub count_kv : List TokenType → ℕ
count_kv [] = 0
count_kv (c ∷ cs) = let rest = count_kv cs in if type_eq c TokenType.kv then suc rest else rest

unfoldable pub set_kv : List Match → Fields → Fields
unfolding unquoted Dict.get
set_kv [] f = f
set_kv (m ∷ ms) f = set_kv ms (set_text (at (codes "k") m) (unquoted (at (codes "v") m)) f)

-- a field that is a text
abbrev pub text_field : Text → Fields → Option Text
text_field k f = elim (Dict.get k f) as (λ _. Option Text) [ some (string s) ↦ some s | _ ↦ none ]

-- the first of the keys that is a field
unfoldable pub first_field : List Text → Fields → Option Text
unfolding Dict.get
first_field [] f = none
first_field (k ∷ ks) f =
    let later = first_field ks f in
    elim (text_field k f) as (λ _. Option Text) [ none ↦ later | some s ↦ some s ]

abbrev pub kv_ts_keys : List Text
kv_ts_keys =
    codes "time"
    ∷ codes "ts"
    ∷ codes "timestamp"
    ∷ codes "date"
    ∷ codes "eventtime"
    ∷ codes "devTime"
    ∷ []

abbrev pub kv_sev_keys : List Text
kv_sev_keys = codes "level" ∷ codes "severity" ∷ codes "lvl" ∷ codes "sev" ∷ []

-- `None` for a dash
abbrev pub user_of : Text → Tree
user_of s = if text_eq s (codes "-") then null else string s

-- the position of the first bracket: after the first character and before the 80th
abbrev pub bracket_near : Option ℕ → Bool
bracket_near none = false
bracket_near (some n) = ltb n 80 && ltb 0 n

abbrev pub last_part : List Text → Text
last_part [] = []
last_part (s ∷ []) = s
last_part (s ∷ t ∷ ss) = last_part (t ∷ ss)

abbrev pub head_part : List Text → Tree
head_part (s ∷ t ∷ ss) = string s
head_part _ = null

module _ {F : Type 0} (u : Unicode) (dates : Dates) (sc : Scalars) (calls : Calls F) where
  -- `KVParser.can_parse`
  unfoldable pub kv_can_parse : Line → F
  unfolding count_kv
  kv_can_parse line =
      let n = count_kv line.classes in
      if leb 3 n
      then calls.pct 70
      else if leb 2 n && leb line.token_count 12
      then calls.pct 55
      else calls.pct 0

  -- the first of the keys that names a time
  unfoldable pub kv_time : List Text → Fields → Option ℕ
  unfolding Dict.get
  kv_time [] f = none
  kv_time (k ∷ ks) f =
      let later = kv_time ks f in
      elim (Option.bind (text_field k f) (parse_any dates)) as (λ _. Option ℕ) [
        | none ↦ later
        | some t ↦ some t
      ]

  -- a line without a pair
  abbrev pub kv_checked : List Match → Parsed F → Parsed F
  kv_checked [] ir = record ir {
    confidence = calls.pct 20;
    errors = ir.errors ++ (codes "kv_none" ∷ []);
  }
  kv_checked (m ∷ ms) ir = ir

  abbrev pub kv_timed : Option ℕ → Text → Option ℕ
  kv_timed none text = stamp_of u dates calls text
  kv_timed (some t) text = some t

  abbrev pub kv_of : List Match → Line → Parsed F
  kv_of ms line =
      let fields = set_kv ms [] in
      let ir = kv_checked ms (fresh_ir line (calls.pct 60)) in
      record ir {
        fields = fields;
        timestamp = kv_timed (kv_time kv_ts_keys fields) line.text;
        severity = Option.bind (first_field kv_sev_keys fields) (level_of_word u sc);
        message =
            text_or (Dict.get (codes "msg") fields)
              (text_or (Dict.get (codes "message") fields) line.text);
      }

  -- `KVParser.parse`
  unfoldable pub kv_parse : Line → Parsed F
  unfolding set_kv kv_time first_field Dict.get
  kv_parse line = kv_of (calls.find_iter kv_pair line.text) line

  -- `CLFParser.can_parse`
  unfoldable pub clf_can_parse : Line → F
  unfolding contains find
  clf_can_parse line =
      if contains line.text (codes " \"")
        && (contains line.text (codes "HTTP/") && bracket_near (find line.text (codes "[")))
      then calls.pct 85
      else calls.pct 0

  abbrev pub clf_fields : Match → Fields
  clf_fields m =
      (codes "client.ip", string (at (codes "ip") m))
      ∷ (codes "user", user_of (at (codes "user") m))
      ∷ (codes "http.method", string (at (codes "method") m))
      ∷ (codes "url.path", string (at (codes "path") m))
      ∷ (codes "http.version", or_none (Dict.get (codes "proto") m))
      ∷ (codes "http.status", int (pos (calls.digits_of (at (codes "status") m))))
      ∷ (
        codes "http.bytes",
        int (
            pos (
              if text_eq (at (codes "bytes") m) (codes "-")
              then 0
              else calls.digits_of (at (codes "bytes") m))),
      )
      ∷ (codes "http.referrer", or_none (Dict.get (codes "ref") m))
      ∷ (codes "http.user_agent", or_none (Dict.get (codes "ua") m))
      ∷ []

  abbrev pub clf_of : Option Match → Parsed F → Parsed F
  clf_of none ir = mismatch u dates calls (codes "clf_mismatch") ir
  clf_of (some m) ir = record ir {
    fields = clf_fields m;
    timestamp = stamp_of u dates calls (at (codes "ts") m);
    message =
        at (codes "method") m
        ++ (codes " " ++ (at (codes "path") m ++ (codes " " ++ at (codes "status") m)));
    product = some (codes "http-server");
    class_uid = some 4002;
  }

  -- `CLFParser.parse`
  unfoldable pub clf_parse : Line → Parsed F
  unfolding Dict.get text_eq
  clf_parse line = clf_of (calls.match_at clf line.text) (fresh_ir line (calls.pct 85))

  -- `ApacheErrorParser.can_parse`
  unfoldable pub apache_can_parse : Line → F
  unfolding starts_with
  apache_can_parse line =
      if starts_with line.text (codes "[") && hits u dates calls apache_head line.text
      then calls.pct 85
      else calls.pct 0

  abbrev pub apache_of : Option Match → Parsed F → Parsed F
  apache_of none ir = mismatch u dates calls (codes "apache_error_mismatch") ir
  apache_of (some m) ir =
      let parts = split_on b':' (at (codes "lvl") m) in
      record ir {
        timestamp = stamp_of u dates calls (at (codes "ts") m);
        fields =
            (codes "level", string (last_part parts))
            ∷ (codes "module", head_part parts)
            ∷ (codes "pid", or_none (Dict.get (codes "pid") m))
            ∷ (codes "client", or_none (Dict.get (codes "client") m))
            ∷ [];
        severity = level_of_word u sc (last_part parts);
        message = at (codes "msg") m;
        vendor = some (codes "Apache");
        product = some (codes "httpd");
      }

  -- `ApacheErrorParser.parse`
  unfoldable pub apache_parse : Line → Parsed F
  unfolding Dict.get split_on
  apache_parse line =
      apache_of (calls.match_at apache_error line.text) (fresh_ir line (calls.pct 80))

  abbrev pub finds : Pattern → Text → Bool
  finds p s = elim (calls.search p s) as (λ _. Bool) [ none ↦ false | some m ↦ true ]

  -- `Log4jParser.can_parse`
  unfoldable pub log4j_can_parse : Line → F
  log4j_can_parse line =
      if hits u dates calls log4j_head (take 80 line.text) && finds log4j_level (take 80 line.text)
      then calls.pct 80
      else calls.pct 0

  abbrev pub log4j_of : Option Match → Parsed F → Parsed F
  log4j_of none ir = mismatch u dates calls (codes "log4j_mismatch") ir
  log4j_of (some m) ir = record ir {
    timestamp = stamp_of u dates calls (at (codes "ts") m);
    severity = level_of_word u sc (at (codes "lvl") m);
    fields = set_given (codes "logger") (given (codes "logger") m) (
        set_given (codes "thread") (given (codes "thread") m)
          (set_text (codes "level") (at (codes "lvl") m) []));
    message = at (codes "msg") m;
  }

  -- `Log4jParser.parse`
  unfoldable pub log4j_parse : Line → Parsed F
  unfolding Dict.get Dict.put
  log4j_parse line =
      log4j_of
        (either_match u dates calls (calls.match_at log4j line.text)
          (calls.match_at log4j_2 line.text))
        (fresh_ir line (calls.pct 75))
