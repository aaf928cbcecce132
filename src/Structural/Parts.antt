-- ===== src/Structural/Parts.antt =====
-- What the parsers of uli/parsers/structural.py read and write, and what they call.
use mathlib.Core.Option
use sih_ulpf.Common.{
  ℕ, ◌/◌, ◌%◌, List, [], ◌∷◌, ◌++◌, Option, none, some, if◌then◌else◌, length, take, drop, ◌-◌,
}
use sih_ulpf.Common.Text.{Text, codes}
use sih_ulpf.Common.Strings.{find, strip, is_empty}
use sih_ulpf.Common.Dict
use sih_ulpf.Common.Dict.{Dict}
use sih_ulpf.Common.Eq.{text_key, nat_eq}
use sih_ulpf.Common.Int.{ℤ, pos}
use sih_ulpf.Models.{TokenType}
use sih_ulpf.Fingerprint.Unicode.{Unicode}
use sih_ulpf.Normalization.Tree.{Tree, null, int, string}
use sih_ulpf.Normalization.Body.{Fields}
use sih_ulpf.Timestamps.{Dates, parse_timestamp}
use sih_ulpf.Structural.Severity.{sev_syslog}

-- The regular expressions of the module, by the names of their places.
pub data Pattern : Type 0 where
  cef_hdr cef_ext leef_hdr syslog5424 sd sdp syslog3164 syslog3164_iso : Pattern
  head_bsd head_iso head_bsd_loose head_iso_loose kv_pair clf : Pattern
  apache_error apache_head log4j log4j_2 log4j_head log4j_level : Pattern

-- `m.groupdict()` without the groups that took no part. The groups of `_SD` are `id` and `params`,
-- those of `_SDP` are `key` and `value`.
abbrev pub Match : Type 0
Match = Dict Text Text

-- The `re` module on a pattern, `orjson.loads` (a value, or the name of its exception), `json.dumps`,
-- `int` of a text, of digits alone and of a hexadecimal text with `chr` of it, and the floats that are
-- `n` hundredths.
pub record Calls (F : Type 0) : Type 0 where
  pub match_at : Pattern → Text → Option Match
  pub search : Pattern → Text → Option Match
  pub find_iter : Pattern → Text → List Match
  pub loads : Text → Option Tree
  pub load_error : Text → Text
  pub dumps : Tree → Text
  pub int_of : Text → Option ℤ
  pub digits_of : Text → ℕ
  pub chr_hex : Text → Option ℕ
  pub pct : ℕ → F

-- What a parser reads of a `ParseContext`.
pub record Line : Type 0 where
  pub text : Text
  pub classes : List TokenType
  pub token_count : ℕ

-- What a parser writes of an `IR`.
pub record Parsed (F : Type 0) : Type 0 where
  pub fields : Fields
  pub message : Text
  pub timestamp : Option ℕ
  pub severity : Option ℕ
  pub vendor : Option Text
  pub product : Option Text
  pub product_version : Option Text
  pub class_uid : Option ℕ
  pub confidence : F
  pub errors : List Text

-- `new_ir`
abbrev pub fresh_ir : {F : Type 0} → Line → F → Parsed F
fresh_ir line confidence = record {
  fields = [];
  message = line.text;
  timestamp = none;
  severity = none;
  vendor = none;
  product = none;
  product_version = none;
  class_uid = none;
  confidence = confidence;
  errors = [];
}

-- `m[name]` of a group that always takes part
abbrev pub at : Text → Match → Text
at name m = Option.get_or (Dict.get name m) []

-- `gd.get(name)` if it is a text with characters
abbrev pub given : Text → Match → Option Text
given name m = elim (Dict.get name m) as (λ _. Option Text) [
  | none ↦ none
  | some s ↦ if is_empty s then none else some s
]

-- `None` for a group that took no part
abbrev pub or_none : Option Text → Tree
or_none none = null
or_none (some s) = string s

abbrev pub set_text : Text → Text → Fields → Fields
set_text k s f = Dict.put k (string s) f

abbrev pub set_given : Text → Option Text → Fields → Fields
set_given k none f = f
set_given k (some s) f = set_text k s f

-- `text[:idx]` and `text[idx:]` for `idx = text.find(word)`; an absent word counts as -1
unfoldable pub cut_at : Text → Text → Text × Text
unfolding find
cut_at text word =
    let idx = Option.get_or (find text word) (length text - 1) in (take idx text, drop idx text)

-- `fields.get(k)` where it is a text with characters, and else the other
abbrev pub text_or : Option Tree → Text → Text
text_or (some (string (c ∷ s))) other = c ∷ s
text_or _ other = other

module _ {F : Type 0} (u : Unicode) (dates : Dates) (calls : Calls F) where
  abbrev pub strip_space : Text → Text
  strip_space s = strip u.is_space s

  -- `parse_timestamp(s)[0]`
  abbrev pub stamp_of : Text → Option ℕ
  stamp_of s = Option.map (λ found. found.0) (parse_timestamp dates s 96)

  -- what the priority of a syslog line sets: `pri >> 3`, `pri & 7` and the severity
  abbrev pub set_pri : Option Text → Parsed F → Parsed F
  set_pri none ir = ir
  set_pri (some s) ir =
      let pri = calls.digits_of s in
      record ir {
        fields =
            Dict.put (codes "syslog.severity") (int (pos (pri % 8)))
              (Dict.put (codes "syslog.facility") (int (pos (pri / 8))) ir.fields);
        severity = Dict.get (pri % 8) sev_syslog;
      }

  -- a line that the grammar does not match
  abbrev pub mismatch : Text → Parsed F → Parsed F
  mismatch error ir = record ir { confidence = calls.pct 30; errors = ir.errors ++ (error ∷ []) }
