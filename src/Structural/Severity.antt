-- ===== src/Structural/Severity.antt =====
-- `_SEV_SYSLOG`, `_LEVEL_WORDS` and `level_to_severity` of uli/parsers/structural.py.
use mathlib.Core.Option
use sih_ulpf.Common.{ℕ, true, false, ◌∷◌, [], Option, none, some, leb, if◌then◌else◌}
use sih_ulpf.Common.Text.{Text, codes}
use sih_ulpf.Common.Strings.{strip}
use sih_ulpf.Common.Dict
use sih_ulpf.Common.Dict.{Dict}
use sih_ulpf.Common.Eq.{text_key, nat_eq}
use sih_ulpf.Common.Int.{ℤ, pos, negsuc}
use sih_ulpf.Fingerprint.Unicode.{Unicode}
use sih_ulpf.Normalization.Tree.{Tree, null, flag, int, float, string, array, object}

abbrev pub sev_syslog : Dict ℕ ℕ
sev_syslog = (0, 1) ∷ (1, 6) ∷ (2, 5) ∷ (3, 4) ∷ (4, 3) ∷ (5, 2) ∷ (6, 1) ∷ (7, 1) ∷ []

abbrev pub level_words : Dict Text ℕ
level_words =
    (codes "emerg", 6)
    ∷ (codes "emergency", 6)
    ∷ (codes "panic", 6)
    ∷ (codes "fatal", 6)
    ∷ (codes "alert", 5)
    ∷ (codes "crit", 5)
    ∷ (codes "critical", 5)
    ∷ (codes "severe", 5)
    ∷ (codes "error", 4)
    ∷ (codes "err", 4)
    ∷ (codes "warn", 3)
    ∷ (codes "warning", 3)
    ∷ (codes "notice", 2)
    ∷ (codes "info", 1)
    ∷ (codes "informational", 1)
    ∷ (codes "debug", 1)
    ∷ (codes "trace", 1)
    ∷ (codes "fine", 1)
    ∷ []

-- `int` of the bits of a float, `none` where it raises, and `str` of a value.
pub record Scalars : Type 0 where
  pub trunc : ℕ → Option ℤ
  pub str_of : Tree → Text

-- `i if 0 <= i <= 6 else None`
abbrev pub in_range : ℤ → Option ℕ
in_range (pos n) = if leb n 6 then some n else none
in_range (negsuc n) = none

module _ (u : Unicode) (sc : Scalars) where
  unfoldable pub level_of_word : Text → Option ℕ
  unfolding Dict.get
  level_of_word s = Dict.get (u.lower (strip u.is_space s)) level_words

  -- `level_to_severity`; the outer `none` is the exception of `int` on a float that is no number
  unfoldable pub level_to_severity : Tree → Option (Option ℕ)
  unfolding level_of_word
  level_to_severity null = some none
  level_to_severity (flag true) = some (some 1)
  level_to_severity (flag false) = some (some 0)
  level_to_severity (int n) = some (in_range n)
  level_to_severity (float b) = Option.map in_range (sc.trunc b)
  level_to_severity (string s) = some (level_of_word s)
  level_to_severity (array vs) = some (level_of_word (sc.str_of (array vs)))
  level_to_severity (object m) = some (level_of_word (sc.str_of (object m)))
