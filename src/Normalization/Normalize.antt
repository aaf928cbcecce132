-- ===== src/Normalization/Normalize.antt =====
-- `normalize` of uli/normalization/ocsf.py, and the records of uli/models.py that it fills.
use mathlib.Core.Option
use sih_ulpf.Common.{
  ℕ, ◌+◌, ◌*◌, ◌||◌, Bool, true, false, List, [], ◌∷◌, map, Option, none, some, if◌then◌else◌, take,
  ◌==◌,
}
use sih_ulpf.Common.Int.{ℤ, pos}
use sih_ulpf.Common.Text.{Text, codes}
use sih_ulpf.Common.Dict
use sih_ulpf.Common.Dict.{Dict}
use sih_ulpf.Common.Eq.{text_key}
use sih_ulpf.Models.{Bytes, RawLocation, Value, Observable, Ir}
use sih_ulpf.Normalization.Tree
use sih_ulpf.Normalization.Tree.{
  Tree, Items, Members, null, int, string, array, object, nil, cons, end, member, of_option,
  of_value, set_default,
}
use sih_ulpf.Normalization.Body.{Fields, ocsf_field, unmapped, endpoints}

-- `Provenance`
pub record Provenance (F : Type 0) : Type 0 where
  pub raw_event_id : Text
  pub raw_loc : RawLocation
  pub received_at : ℕ
  pub processed_at : ℕ
  pub transport : Text
  pub peer : Option Text
  pub parser_id : Text
  pub parser_version : Text
  pub normalizer_version : Text
  pub template_id : Option Text
  pub tier : ℕ
  pub confidence : F
  pub confidence_factors : List (Text × F)
  pub shape_hash : Text
  pub family_hash : Text
  pub duplicate_of : Option Text
  pub shadow_of : Option Text
  pub processing_errors : List Text

-- `NormalizedEvent`; the values of `anomaly` are its score, model and suppressed reason
pub record NormalizedEvent (F : Type 0) : Type 0 where
  pub event_id : Text
  pub schema_version : Text
  pub tenant_id : Text
  pub project_id : Text
  pub source_id : Text
  pub provenance : Provenance F
  pub ocsf : Members
  pub message : Text
  pub anomaly : Option Value × (Option Value × Option Value)

-- The arguments of `normalize` besides the result of the parser.
pub record Circumstances : Type 0 where
  pub tenant_id : Text
  pub project_id : Text
  pub source_id : Text
  pub raw_event_id : Text
  pub raw_loc : RawLocation
  pub received_at : ℕ
  pub transport : Text
  pub peer : Option Text
  pub shape_hash : Text
  pub family_hash : Text
  pub embed_raw : Bool
  pub raw_bytes_for_embed : Option Bytes
  pub duplicate_of : Option Text

-- What is not code of the program: the tree behind a numbered value, `str` and `int` of a value, the
-- UTF-8 decoder, the float arithmetic of `to_epoch_ms`, `round(.., 4)`, and `shadow.get("of")`.
pub record Builtins (F : Type 0) : Type 0 where
  pub opened : ℕ → Tree
  pub str_of : Tree → Text
  pub int_of : Tree → Option ℤ
  pub decode_utf8 : Bytes → Text
  pub epoch_ms : ℕ → ℕ
  pub round_4 : F → F
  pub shadow_of : Option Value → Option Text

-- `_CLASS_META`
abbrev pub class_meta : ℕ → Text × ℕ
class_meta class_uid =
    if class_uid == 1001
    then (codes "File System Activity", 1)
    else if class_uid == 2004
    then (codes "Detection Finding", 2)
    else if class_uid == 4001
    then (codes "Network Activity", 4)
    else if class_uid == 4002
    then (codes "HTTP Activity", 4)
    else if class_uid == 4003
    then (codes "DNS Activity", 4)
    else if class_uid == 3002
    then (codes "Authentication", 3)
    else if class_uid == 5001
    then (codes "Device Config State", 5)
    else if class_uid == 6003
    then (codes "Web Resources Activity", 6)
    else (codes "Base Event", 0)

abbrev pub nat : ℕ → Tree
nat n = int (pos n)

abbrev pub set_given : Text → Option Tree → Members → Members
set_given k none body = body
set_given k (some v) body = set_default k v body

-- `if x:` of an optional text
abbrev is_given : Option Text → Bool
is_given none = false
is_given (some []) = false
is_given (some (c ∷ s)) = true

abbrev observable_items : List Observable → Items
observable_items [] = nil
observable_items (o ∷ os) =
    cons
      (object (
        member (codes "name") (string o.name)
          (member (codes "type_id") (nat o.type_id) (member (codes "value") (string o.value) end))))
      (observable_items os)

-- `dict.get` of the parser's measures
abbrev pub field_trees : (ℕ → Tree) → List (Text × Value) → Fields
field_trees opened fields = map (λ kv. (kv.0, of_value opened kv.1)) fields

abbrev pub metadata_of : Option Tree → Members
metadata_of (some (object m)) = m
metadata_of _ = end

abbrev pub add_observables : List Observable → Members → Members
add_observables [] body = body
add_observables (o ∷ os) body =
    Tree.put (codes "observables") (array (observable_items (o ∷ os))) body

abbrev pub add_unmapped : Members → Members → Members
add_unmapped end body = body
add_unmapped (member k v d) body = Tree.put (codes "unmapped") (object (member k v d)) body

module _ {F : Type 0} where
  abbrev pub event_time : Ir F → ℕ → ℕ
  event_time ir received_at = Option.get_or ir.timestamp received_at

  -- the members up to `time`
  unfoldable pub classified : (ℕ → ℕ) → Ir F → ℕ → Members → Members
  unfolding Tree.put Tree.get set_default
  classified epoch_ms ir received_at body =
      let class_uid = Option.get_or ir.class_uid 0 in
      let meta = class_meta class_uid in
      Tree.put (codes "time") (nat (epoch_ms (event_time ir received_at))) (
        set_default (codes "severity_id") (nat (Option.get_or ir.severity 0)) (
          set_default (codes "type_uid") (nat (class_uid * 100 + Option.get_or ir.activity_id 0)) (
            set_given (codes "activity_id") (Option.map nat ir.activity_id) (
              set_default (codes "category_uid") (nat meta.1) (
                set_default (codes "class_name") (string meta.0)
                  (set_default (codes "class_uid") (nat class_uid) body))))))

  -- `metadata`
  unfoldable pub described : Ir F → Fields → Text → Members → Members
  unfolding Tree.put Tree.get set_default Dict.get
  described ir fields raw_event_id body =
      let product : Tree = object (
        member (codes "vendor_name") (of_option string ir.vendor) (
          member (codes "name") (of_option string ir.product)
            (member (codes "version") (of_option string ir.product_version) end))) in
      let versioned : Members =
        set_default (codes "version") (string (codes "1.9.0"))
          (metadata_of (Tree.get (codes "metadata") body)) in
      let with_product : Members = set_default (codes "product") product versioned in
      Tree.put (codes "metadata")
        (object (
          set_default (codes "uid") (string raw_event_id) (
            set_default (codes "original_time")
              (Option.get_or (Dict.get (codes "__ts_original") fields) null)
              (if is_given ir.vendor || is_given ir.product then with_product else versioned))))
        body

  module _ (b : Builtins F) where
    -- `raw_data`
    abbrev pub embedded : Bool → Option Bytes → Tree
    embedded true (some bytes) = string (take 65536 (b.decode_utf8 bytes))
    embedded true none = null
    embedded false bytes = null

    -- `ocsf_body`
    unfoldable pub ocsf_body : Ir F → Circumstances → Members
    unfolding Tree.put classified described
    ocsf_body ir c =
        let fields = field_trees b.opened ir.fields in
        Tree.put (codes "raw_data") (embedded c.embed_raw c.raw_bytes_for_embed) (
          add_unmapped (unmapped b.str_of fields) (
            add_observables ir.observables (
              endpoints b.int_of fields (
                described ir fields c.raw_event_id
                  (classified b.epoch_ms ir c.received_at (ocsf_field fields))))))

    -- `normalize`, at the time `now` and with the id `event_id` for the event
    unfoldable pub normalize : Text → ℕ → Ir F → Circumstances → NormalizedEvent F
    unfolding ocsf_body
    normalize event_id now ir c = record {
      event_id = event_id;
      schema_version = codes "uli.v1";
      tenant_id = c.tenant_id;
      project_id = c.project_id;
      source_id = c.source_id;
      provenance = record {
        raw_event_id = c.raw_event_id;
        raw_loc = c.raw_loc;
        received_at = c.received_at;
        processed_at = now;
        transport = c.transport;
        peer = c.peer;
        parser_id = ir.parser_id;
        parser_version = ir.parser_version;
        normalizer_version = codes "1.0.0";
        template_id = ir.template_id;
        tier = ir.tier;
        confidence = b.round_4 ir.confidence;
        confidence_factors = ir.confidence_factors;
        shape_hash = c.shape_hash;
        family_hash = c.family_hash;
        duplicate_of = c.duplicate_of;
        shadow_of = b.shadow_of ir.shadow;
        processing_errors = ir.errors;
      };
      ocsf = ocsf_body ir c;
      message = take 8192 ir.message;
      anomaly = (
        Dict.get (codes "anomaly_score") ir.ml,
        (Dict.get (codes "anomaly_model") ir.ml, Dict.get (codes "suppressed_reason") ir.ml),
      );
    }
