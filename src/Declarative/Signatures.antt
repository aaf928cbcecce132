-- ===== src/Declarative/Signatures.antt =====
-- `can_parse` and `_sig_ok` of `DeclarativeParser`, with `_syslog_app`, of uli/parsers/declarative.py.
use sih_ulpf.Common.{
  ℕ, Bool, true, false, ◌&&◌, ◌||◌, not, List, [], ◌∷◌, ◌++◌, Option, none, some, if◌then◌else◌,
  leb, take,
}
use sih_ulpf.Common.Text.{Text, codes, contains, starts_with, text_eq}
use sih_ulpf.Common.Strings.{drop_while, is_empty}
use sih_ulpf.Common.Dict
use sih_ulpf.Common.Dict.{Dict}
use sih_ulpf.Common.Eq.{text_key}
use sih_ulpf.Models.{Value}
use sih_ulpf.Models
use sih_ulpf.Fingerprint.Unicode.{Unicode}

-- One entry of `signatures` by its `kind`; `within`, `min` and `max` with their defaults put in. A
-- regular expression is a number.
pub data Kind : Type 0 where
  syslog_app : Option Text → Option Text → Kind
  prefix : Text → Kind
  holds : Text → ℕ → Kind
  regex : ℕ → ℕ → Kind
  shape_family : Text → Kind
  json_keys : List Text → Kind
  token_count : ℕ → ℕ → Kind
  other_kind : Kind

pub record Signature : Type 0 where
  pub kind : Kind
  pub required : Bool

-- What a signature reads of a `ParseContext`.
pub record Sight : Type 0 where
  pub text : Text
  pub family_hash : Text
  pub tokens : ℕ
  pub hints : Dict Text Value

-- `guarded_search` on a signature's expression, the name that the expression of `_syslog_app` finds,
-- and the floats: their order, product and the weights in hundredths.
pub record SigCalls (F : Type 0) : Type 0 where
  pub found : ℕ → Text → Bool
  pub app_name : Text → Option Text
  pub lt : F → F → Bool
  pub mul : F → F → F
  pub pct : ℕ → F

-- `if h: return h` of the hint, and else the name in the text. A hint that is no text is taken as
-- absent; the source returns it, and a `startswith` on it would raise.
abbrev pub hinted : Option Value → Option Text → Option Text
hinted (some (Models.Value.string (c ∷ s))) other = some (c ∷ s)
hinted _ other = other

-- `app and (app == equals or (startswith and app.startswith(startswith)))`
abbrev pub is_app : Option Text → Option Text → Option Text → Bool
is_app none equals start = false
is_app (some []) equals start = false
is_app (some (c ∷ app)) equals start =
    elim equals as (λ _. Bool) [ none ↦ false | some e ↦ text_eq (c ∷ app) e ]
    || elim start as (λ _. Bool) [
      | none ↦ false
      | some p ↦ not (is_empty p) && starts_with (c ∷ app) p
    ]

-- the key in quotes stands in the text
unfoldable pub has_keys : Text → List Text → Bool
unfolding contains
has_keys t [] = true
has_keys t (k ∷ ks) = contains t (codes "\"" ++ (k ++ codes "\"")) && has_keys t ks

module _ {F : Type 0} (u : Unicode) (calls : SigCalls F) where
  -- `_syslog_app`
  unfoldable pub syslog_app_of : Sight → Option Text
  unfolding Dict.get
  syslog_app_of x =
      hinted (Dict.get (codes "syslog_app") x.hints) (calls.app_name (take 160 x.text))

  -- `_sig_ok` of a kind
  unfoldable pub sig_ok : Kind → Sight → Bool
  unfolding syslog_app_of starts_with contains text_eq has_keys
  sig_ok (syslog_app equals start) x = is_app (syslog_app_of x) equals start
  sig_ok (prefix p) x = starts_with x.text p
  sig_ok (holds v within) x = contains (take within x.text) v
  sig_ok (regex re within) x = calls.found re (take within x.text)
  sig_ok (shape_family h) x = text_eq x.family_hash h
  sig_ok (json_keys keys) x = has_keys x.text keys
  sig_ok (token_count lo hi) x = leb lo x.tokens && leb x.tokens hi
  sig_ok other_kind x = true

  -- the weight of a kind
  abbrev pub weight : Kind → F
  weight (syslog_app equals start) = calls.pct 100
  weight (prefix p) = calls.pct 95
  weight (holds v within) = calls.pct 85
  weight (regex re within) = calls.pct 90
  weight (shape_family h) = calls.pct 80
  weight (json_keys keys) = calls.pct 90
  weight (token_count lo hi) = calls.pct 50
  weight other_kind = calls.pct 0

  -- the test of the loop of `can_parse`: keys count only in a text that begins like an object
  abbrev pub scores : Kind → Sight → Bool
  scores (json_keys keys) x =
      starts_with (drop_while u.is_space x.text) (codes "{") && sig_ok (json_keys keys) x
  scores k x = sig_ok k x

  abbrev pub score : Kind → Sight → F
  score k x = if scores k x then weight k else calls.pct 0

  -- `best` of the loop
  unfoldable pub best_score : List Signature → Sight → F → F
  best_score [] x best = best
  best_score (s ∷ ss) x best =
      best_score ss x (if calls.lt best (score s.kind x) then score s.kind x else best)

  -- no required signature fails
  unfoldable pub required_hold : List Signature → Sight → Bool
  unfolding sig_ok
  required_hold [] x = true
  required_hold (s ∷ ss) x = (not s.required || sig_ok s.kind x) && required_hold ss x

  -- `can_parse`, with the `base` of the pack; no score is below 0, so that `if best` asks for more
  unfoldable pub pack_can_parse : List Signature → F → Sight → F
  unfolding best_score required_hold
  pack_can_parse sigs base x =
      let best = best_score sigs x (calls.pct 0) in
      if required_hold sigs x
      then if calls.lt (calls.pct 0) best then calls.mul best base else calls.pct 0
      else calls.pct 0
