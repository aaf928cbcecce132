-- ===== src/Models.antt =====
-- uli/models.py: the token classes, and a raw record with the place where it is kept.
use sih_ulpf.Common.{ℕ, Bool, ◌==◌, List, [], Option, none}
use sih_ulpf.Common.Text.{Text}

-- `TokenType`
pub data TokenType : Type 0 where
  punct word num hex ip4 ip6 mac ts uuid url email path kv quote port host : TokenType

-- The value of the `IntEnum`.
abbrev pub token_value : TokenType → ℕ
token_value punct = 0
token_value word = 1
token_value num = 2
token_value hex = 3
token_value ip4 = 4
token_value ip6 = 5
token_value mac = 6
token_value ts = 7
token_value uuid = 8
token_value url = 9
token_value email = 10
token_value path = 11
token_value kv = 12
token_value quote = 13
token_value port = 14
token_value host = 15

-- `a == b` of two members of an `IntEnum` compares their values.
abbrev pub type_eq : TokenType → TokenType → Bool
type_eq a b = token_value a == token_value b

abbrev pub Bytes : Type 0
Bytes = List ℕ

-- `RawRecord`. A `datetime` is the number of microseconds since the epoch.
pub record RawRecord : Type 0 where
  pub raw_event_id : Text
  pub tenant_id : Text
  pub source_id : Text
  pub transport : Text
  pub peer : Option Text
  pub received_at : ℕ
  pub payload : Bytes

-- <tenant slug>/<source slug>/<day>
abbrev pub Dir : Type 0
Dir = Text × (Text × Text)

-- The `segment` of a location is a path below the raw root, or the word that stands for a payload
-- that could not be kept.
pub data SegmentName : Type 0 where
  file : Dir → ℕ → SegmentName
  unrecoverable : SegmentName

-- `RawLocation`
pub record RawLocation : Type 0 where
  pub segment : SegmentName
  pub offset : ℕ
  pub length : ℕ

-- A value of a `dict[str, Any]`. Nested values are not looked into, and stand as a number each.
pub data Value : Type 0 where
  null : Value
  flag : Bool → Value
  int : ℕ → Value
  string : Text → Value
  nested : ℕ → Value

-- `Observable`
pub record Observable : Type 0 where
  pub name : Text
  pub type_id : ℕ
  pub value : Text

-- `IR`, over the type of its confidence
pub record Ir (F : Type 0) : Type 0 where
  pub fields : List (Text × Value)
  pub typed : List (Text × TokenType)
  pub observables : List Observable
  pub timestamp : Option ℕ
  pub severity : Option ℕ
  pub message : Text
  pub template_id : Option Text
  pub template : Option Text
  pub params : List Text
  pub tier : ℕ
  pub confidence : F
  pub confidence_factors : List (Text × F)
  pub parser_id : Text
  pub parser_version : Text
  pub class_uid : Option ℕ
  pub activity_id : Option ℕ
  pub vendor : Option Text
  pub product : Option Text
  pub product_version : Option Text
  pub errors : List Text
  pub candidates : List (Text × F)
  pub ml : List (Text × Value)
  pub shadow : Option Value

-- `IR(message=.., tier=.., confidence=.., parser_id=.., parser_version=..)` with `errors`
abbrev pub new_ir : {F : Type 0} → Text → ℕ → F → Text → Text → List Text → Ir F
new_ir message tier confidence parser_id version errors = record {
  fields = [];
  typed = [];
  observables = [];
  timestamp = none;
  severity = none;
  message = message;
  template_id = none;
  template = none;
  params = [];
  tier = tier;
  confidence = confidence;
  confidence_factors = [];
  parser_id = parser_id;
  parser_version = version;
  class_uid = none;
  activity_id = none;
  vendor = none;
  product = none;
  product_version = none;
  errors = errors;
  candidates = [];
  ml = [];
  shadow = none;
}
