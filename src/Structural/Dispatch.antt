-- ===== src/Structural/Dispatch.antt =====
-- `STRUCTURAL_PARSERS` of uli/parsers/structural.py: the parsers under their names.
use sih_ulpf.Common.{List, [], ◌∷◌, Option, some}
use sih_ulpf.Fingerprint.Unicode.{Unicode}
use sih_ulpf.Timestamps.{Dates}
use sih_ulpf.Structural.Severity.{Scalars}
use sih_ulpf.Structural.Parts.{Calls, Line, Parsed}
use sih_ulpf.Structural.Json.{json_can_parse, json_parse}
use sih_ulpf.Structural.Cef.{cef_can_parse, cef_parse, leef_can_parse, leef_parse}
use sih_ulpf.Structural.Syslog.{
  syslog5424_can_parse, syslog5424_parse, syslog3164_can_parse, syslog3164_parse,
}
use sih_ulpf.Structural.Lines.{
  kv_can_parse, kv_parse, clf_can_parse, clf_parse, apache_can_parse, apache_parse, log4j_can_parse,
  log4j_parse,
}

-- the classes of the parsers
pub data Format : Type 0 where
  json_format cef_format leef_format syslog5424_format syslog3164_format : Format
  clf_format apache_format log4j_format kv_format : Format

abbrev pub structural_parsers : List Format
structural_parsers =
    json_format ∷ cef_format ∷ leef_format ∷ syslog5424_format ∷ syslog3164_format ∷ clf_format
    ∷ apache_format ∷ log4j_format ∷ kv_format ∷ []

module _ {F : Type 0} (u : Unicode) (dates : Dates) (sc : Scalars) (calls : Calls F) where
  unfoldable pub can_parse_as : Format → Line → F
  can_parse_as json_format line = json_can_parse u dates sc calls line
  can_parse_as cef_format line = cef_can_parse u dates sc calls line
  can_parse_as leef_format line = leef_can_parse u dates sc calls line
  can_parse_as syslog5424_format line = syslog5424_can_parse u dates calls line
  can_parse_as syslog3164_format line = syslog3164_can_parse u dates calls line
  can_parse_as clf_format line = clf_can_parse u dates sc calls line
  can_parse_as apache_format line = apache_can_parse u dates sc calls line
  can_parse_as log4j_format line = log4j_can_parse u dates sc calls line
  can_parse_as kv_format line = kv_can_parse u dates sc calls line

  -- `none` is an exception
  unfoldable pub parse_as : Format → Line → Option (Parsed F)
  parse_as json_format line = json_parse u dates sc calls line
  parse_as cef_format line = some (cef_parse u dates sc calls line)
  parse_as leef_format line = some (leef_parse u dates sc calls line)
  parse_as syslog5424_format line = some (syslog5424_parse u dates calls line)
  parse_as syslog3164_format line = some (syslog3164_parse u dates calls line)
  parse_as clf_format line = some (clf_parse u dates sc calls line)
  parse_as apache_format line = some (apache_parse u dates sc calls line)
  parse_as log4j_format line = some (log4j_parse u dates sc calls line)
  parse_as kv_format line = some (kv_parse u dates sc calls line)
