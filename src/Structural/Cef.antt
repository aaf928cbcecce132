-- ===== src/Structural/Cef.antt =====
-- `CEFParser` and `LEEFParser` of uli/parsers/structural.py.
use sih_ulpf.Common.{
  ℕ, ◌&&◌, ◌||◌, not, List, [], ◌∷◌, Option, none, some, if◌then◌else◌, ◌==◌, leb, take,
}
use sih_ulpf.Common.Text.{Text, codes, contains, replace_all, starts_with}
use sih_ulpf.Common.Strings.{drop_while, split_by, split_once, is_empty}
use sih_ulpf.Common.Dict
use sih_ulpf.Common.Eq.{text_key}
use sih_ulpf.Common.Int.{ℤ, pos, negsuc}
use sih_ulpf.Fingerprint.Unicode.{Unicode}
use sih_ulpf.Normalization.Tree.{Tree, string}
use sih_ulpf.Normalization.Body.{Fields}
use sih_ulpf.Timestamps.{Dates, parse_any}
use sih_ulpf.Structural.Severity.{Scalars, level_of_word}
use sih_ulpf.Structural.Parts.{
  cef_hdr, cef_ext, leef_hdr, Match, Calls, Line, Parsed, fresh_ir, at, given, set_text, cut_at,
  text_or, strip_space, stamp_of, mismatch,
}

-- `un`
abbrev pub unescaped : Text → Text
unescaped s = replace_all (replace_all s (codes "\\|") (codes "|")) (codes "\\\\") (codes "\\")

-- the value of an extension
abbrev pub ext_value : Text → Text
ext_value v =
    replace_all (replace_all (replace_all v (codes "\\=") (codes "=")) (codes "\\n") (codes "\n"))
      (codes "\\\\") (codes "\\")

-- the severity of a CEF number
abbrev pub cef_level : ℤ → ℕ
cef_level (negsuc n) = 1
cef_level (pos n) =
    if leb n 3 then 1 else if leb n 5 then 2 else if leb n 6 then 3 else if leb n 8 then 4 else 5

unfoldable pub set_extensions : List Match → Fields → Fields
unfolding Dict.get
set_extensions [] f = f
set_extensions (em ∷ ems) f =
    set_extensions ems (set_text (at (codes "k") em) (ext_value (at (codes "v") em)) f)

-- `k, v = part.split("=", 1)` for the parts with an equals sign
unfoldable pub set_attrs : (Text → Text) → List Text → Fields → Fields
unfolding split_once
set_attrs strip [] f = f
set_attrs strip (part ∷ parts) f =
    let rest : Fields → Fields = set_attrs strip parts in
    elim (split_once b'=' part) as (λ _. Fields) [
      | none ↦ rest f
      | some p ↦ rest (set_text (strip p.0) (strip p.1) f)
    ]

module _ {F : Type 0} (u : Unicode) (dates : Dates) (sc : Scalars) (calls : Calls F) where
  -- the time of a field that may be there: `parse_any(v) or parse_timestamp(v)[0]`
  abbrev pub time_at : Option Tree → Option ℕ
  time_at (some (string s)) = elim (parse_any dates s) as (λ _. Option ℕ) [
    | none ↦ stamp_of u dates calls s
    | some t ↦ some t
  ]
  time_at _ = none

  -- the loop over `rt`, `end` and `start`
  unfoldable pub later_time : List Text → Fields → Option ℕ → Option ℕ
  unfolding Dict.get
  later_time keys f (some t) = some t
  later_time [] f none = none
  later_time (k ∷ ks) f none = later_time ks f (time_at (Dict.get k f))

  -- `CEFParser.can_parse`
  unfoldable pub cef_can_parse : Line → F
  unfolding contains
  cef_can_parse line =
      if contains (take 160 line.text) (codes "CEF:") then calls.pct 95 else calls.pct 0

  abbrev pub cef_severity : Text → Option ℕ
  cef_severity s = elim (calls.int_of s) as (λ _. Option ℕ) [
    | none ↦ level_of_word u sc s
    | some n ↦ some (cef_level n)
  ]

  -- the part of the line before the header
  abbrev pub set_prefix : Text → Parsed F → Parsed F
  set_prefix prefix ir = if is_empty (strip_space u dates calls prefix) then ir else record ir {
    timestamp = stamp_of u dates calls prefix;
    fields = set_text (codes "syslog.prefix") (strip_space u dates calls prefix) ir.fields;
  }

  abbrev pub set_later_time : Parsed F → Parsed F
  set_later_time ir = record ir {
    timestamp = later_time (codes "rt" ∷ codes "end" ∷ codes "start" ∷ []) ir.fields ir.timestamp;
  }

  -- the fields of the header
  abbrev pub cef_header : Match → Fields
  cef_header m = set_text (codes "cef.severity") (unescaped (at (codes "sev") m)) (
      set_text (codes "cef.name") (unescaped (at (codes "name") m)) (
        set_text (codes "cef.signature_id") (unescaped (at (codes "sig") m))
          (set_text (codes "cef.version") (at (codes "v") m) [])))

  abbrev pub cef_matched : Text → Match → Parsed F → Parsed F
  cef_matched prefix m ir =
      let fields : Fields =
        set_extensions (calls.find_iter cef_ext (strip_space u dates calls (at (codes "ext") m)))
          (cef_header m) in
      set_later_time (
        set_prefix prefix (record ir {
          vendor = some (unescaped (at (codes "vendor") m));
          product = some (unescaped (at (codes "product") m));
          product_version = some (unescaped (at (codes "version") m));
          fields = fields;
          severity = cef_severity (at (codes "sev") m);
          message = text_or (Dict.get (codes "msg") fields) (unescaped (at (codes "name") m));
        }))

  abbrev pub cef_of : Text → Option Match → Parsed F → Parsed F
  cef_of prefix none ir = mismatch u dates calls (codes "cef_header_mismatch") ir
  cef_of prefix (some m) ir = cef_matched prefix m ir

  -- `CEFParser.parse`
  unfoldable pub cef_parse : Line → Parsed F
  unfolding cut_at later_time set_extensions Dict.get
  cef_parse line =
      let parts = cut_at line.text (codes "CEF:") in
      cef_of parts.0 (calls.match_at cef_hdr parts.1) (fresh_ir line (calls.pct 85))

  -- `LEEFParser.can_parse`
  unfoldable pub leef_can_parse : Line → F
  unfolding contains
  leef_can_parse line =
      if contains (take 160 line.text) (codes "LEEF:") then calls.pct 95 else calls.pct 0

  -- `d.lstrip("0x")`
  abbrev pub hex_part : Text → Text
  hex_part d = drop_while (λ c. (c == b'0') || (c == b'x')) d

  -- the delimiter that the header names
  abbrev pub named_delimiter : Text → Text
  named_delimiter d =
      let by_code = elim (calls.chr_hex (hex_part d)) as (λ _. Text) [
        | none ↦ d
        | some c ↦ c ∷ []
      ] in
      if starts_with d (codes "x") || starts_with d (codes "0x") then by_code else d

  abbrev pub delimiter : Match → Text
  delimiter m = elim (given (codes "delim") m) as (λ _. Text) [
    | none ↦ codes "\t"
    | some d ↦ if starts_with (at (codes "v") m) (codes "2") then named_delimiter d else codes "\t"
  ]

  -- the delimiter that splits the attributes
  abbrev pub attr_delimiter : Text → Text → Text
  attr_delimiter delim attrs =
      if not (contains attrs delim) && not (contains attrs (codes "\t")) then codes " " else delim

  abbrev pub leef_time : Text → Parsed F → Parsed F
  leef_time prefix ir =
      let found =
        if is_empty (strip_space u dates calls prefix)
        then none
        else stamp_of u dates calls prefix in
      record ir {
        timestamp = elim found as (λ _. Option ℕ) [
          | some t ↦ some t
          | none ↦ elim (Dict.get (codes "devTime") ir.fields) as (λ _. Option ℕ) [
            | some (string s) ↦ parse_any dates s
            | _ ↦ none
          ]
        ];
      }

  abbrev pub leef_matched : Text → Match → Parsed F → Parsed F
  leef_matched prefix m ir =
      let attrs = at (codes "attrs") m in
      let fields : Fields =
        set_attrs (strip_space u dates calls) (split_by (attr_delimiter (delimiter m) attrs) attrs)
          (set_text (codes "leef.event_id") (at (codes "eid") m) []) in
      leef_time prefix (record ir {
        vendor = some (at (codes "vendor") m);
        product = some (at (codes "product") m);
        product_version = some (at (codes "version") m);
        fields = fields;
        message = text_or (Dict.get (codes "msg") fields) (at (codes "eid") m);
      })

  abbrev pub leef_of : Text → Option Match → Parsed F → Parsed F
  leef_of prefix none ir = mismatch u dates calls (codes "leef_header_mismatch") ir
  leef_of prefix (some m) ir = leef_matched prefix m ir

  -- `LEEFParser.parse`
  unfoldable pub leef_parse : Line → Parsed F
  unfolding cut_at set_attrs Dict.get
  leef_parse line =
      let parts = cut_at line.text (codes "LEEF:") in
      leef_of parts.0 (calls.match_at leef_hdr parts.1) (fresh_ir line (calls.pct 85))
