-- ===== src/Tests/NormalizationTests.antt =====
-- The result of a parser with a mapped class, a field without a mapping and a reserved field.
use mathlib.Core.Option
use sih_ulpf.Common.{ℕ, ◌≡◌, refl, true, [], ◌∷◌, none, some, ◌/◌, take}
use sih_ulpf.Common.Text.{codes, text_eq, starts_with}
use sih_ulpf.Common.Dict
use sih_ulpf.Common.Eq.{text_key}
use sih_ulpf.Common.Int.{pos}
use sih_ulpf.Models
use sih_ulpf.Models.{Ir, RawLocation, SegmentName, new_ir}
use sih_ulpf.Normalization.Tree
use sih_ulpf.Normalization.Tree.{Tree, null, int, string, of_value}
use sih_ulpf.Normalization.Body.{ocsf_field, ocsf_field_from, unmapped_from, endpoints}
use sih_ulpf.Normalization.Normalize.{Builtins, Circumstances, field_trees, nat, normalize}
use sih_ulpf.Normalization.Header.{normalize_header}

abbrev pub builtins : Builtins ℕ
builtins = record {
  opened = λ n. null;
  str_of = λ v. codes "value";
  int_of = λ v. some (pos 1);
  decode_utf8 = λ s. s;
  epoch_ms = λ t. t / 1000;
  round_4 = λ x. x;
  shadow_of = λ v. none;
}

abbrev pub parsed : Ir ℕ
parsed = record (new_ir (codes "up") 2 90 (codes "p") (codes "1") []) {
  fields =
      (codes "ocsf.class_uid", Models.Value.int 4001)
      ∷ (codes "user", Models.Value.string (codes "root"))
      ∷ (codes "__proto", Models.Value.string (codes "tcp"))
      ∷ [];
  timestamp = some 1700000000000000;
}

abbrev pub circumstances : Circumstances
circumstances = record {
  tenant_id = codes "t";
  project_id = codes "p";
  source_id = codes "s";
  raw_event_id = codes "digest";
  raw_loc = record { segment = SegmentName.unrecoverable; offset = 0; length = 2 };
  received_at = 5;
  transport = codes "tcp";
  peer = none;
  shape_hash = codes "sh";
  family_hash = codes "fh";
  embed_raw = true;
  raw_bytes_for_embed = some (codes "up");
  duplicate_of = none;
}

-- the class of the mapping stands in the event
mapped_class :
    Tree.get (codes "class_uid") (normalize builtins (codes "e") 9 parsed circumstances).ocsf
    ≡ some (nat 4001)
unfolding normalize unmapped_from starts_with endpoints ocsf_field_from text_eq
mapped_class = refl

normalize_header_example :
    let mapped = ocsf_field (field_trees builtins.opened parsed.fields) in
    let ocsf = (normalize builtins (codes "e") 9 parsed circumstances).ocsf in
    (Tree.get (codes "time") ocsf
      ≡ some (nat (builtins.epoch_ms (Option.get_or parsed.timestamp 5))))
    × (Tree.get (codes "class_uid") ocsf
        ≡ some (
            Option.get_or
              (Tree.get (codes "class_uid") mapped)
              (nat (Option.get_or parsed.class_uid 0))))
    × (Tree.get (codes "severity_id") ocsf
        ≡ some (
            Option.get_or
              (Tree.get (codes "severity_id") mapped)
              (nat (Option.get_or parsed.severity 0))))
    × (Tree.get (codes "raw_data") ocsf
        ≡ some (string (take 65536 (builtins.decode_utf8 (codes "up")))))
normalize_header_example = normalize_header builtins (codes "e") 9 parsed circumstances
