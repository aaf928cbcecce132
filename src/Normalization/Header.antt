-- ===== src/Normalization/Header.antt =====
-- What a normalized event holds, whatever the parser found.
use mathlib.Core.Option
use sih_ulpf.Common.{
  ℕ, ◌≡◌, refl, ◌∙◌, ap, Bool, true, false, ◌||◌, List, [], ◌∷◌, Option, none, some, Option-cases,
  inl, inr, if◌then◌else◌, take,
}
use sih_ulpf.Common.Text.{Text, text_eq, codes}
use sih_ulpf.Common.Dict
use sih_ulpf.Common.Dict.{Dict, Distinct}
use sih_ulpf.Common.Eq.{text_key, beq_refl}
use sih_ulpf.Models.{Bytes, Ir, Observable}
use sih_ulpf.Normalization.Tree
use sih_ulpf.Normalization.Tree.{
  Tree, Members, int, null, string, end, member, object, set_default, of_value,
}
use sih_ulpf.Normalization.Body.{
  Fields, ocsf_field, endpoints, endpoint, add_endpoint, add_connection, wanted,
}
use sih_ulpf.Normalization.Kept.{get-put}
use sih_ulpf.Normalization.Normalize.{
  Builtins, Circumstances, field_trees, nat, set_given, classified, described, add_observables,
  add_unmapped, embedded, ocsf_body, normalize,
}

pub skip :
    (j k : Text) (v : Tree) (d : Members)
    → text_eq j k ≡ false
    → Tree.get k (Tree.put j v d) ≡ Tree.get k d
skip j k v d h = get-put j k v d ∙ rw h refl

pub get-put_self : (k : Text) (v : Tree) (d : Members) → Tree.get k (Tree.put k v d) ≡ some v
get-put_self k v d = get-put k k v d ∙ rw (beq_refl k) refl

get-set_default_self :
    (k : Text) (v : Tree) (d : Members)
    → Tree.get k (set_default k v d) ≡ some (Option.get_or (Tree.get k d) v)
unfolding set_default
get-set_default_self k v d = elim (Option-cases (Tree.get k d)) [
  | inl fresh ↦ rw (fresh, set_default) (get-put_self k v d)
  | inr (old, found) ↦ rw (found, set_default) found
]

skip_default :
    (j k : Text) (v : Tree) (d : Members)
    → text_eq j k ≡ false
    → Tree.get k (set_default j v d) ≡ Tree.get k d
unfolding set_default
skip_default j k v d h = elim (Option-cases (Tree.get j d)) [
  | inl fresh ↦ rw (fresh, set_default) (skip j k v d h)
  | inr (old, found) ↦ rw (found, set_default) refl
]

-- the members that are set once the class is known
abbrev is_later : Text → Bool
is_later k =
    text_eq (codes "metadata") k
    || (text_eq (codes "src_endpoint") k
        || (text_eq (codes "dst_endpoint") k
            || (text_eq (codes "connection_info") k
                || (text_eq (codes "observables") k
                    || (text_eq (codes "unmapped") k || text_eq (codes "raw_data") k)))))

apart_time_class_uid : text_eq (codes "time") (codes "class_uid") ≡ false
unfolding text_eq
apart_time_class_uid = refl

apart_severity_id_class_uid : text_eq (codes "severity_id") (codes "class_uid") ≡ false
unfolding text_eq
apart_severity_id_class_uid = refl

apart_type_uid_class_uid : text_eq (codes "type_uid") (codes "class_uid") ≡ false
unfolding text_eq
apart_type_uid_class_uid = refl

apart_activity_id_class_uid : text_eq (codes "activity_id") (codes "class_uid") ≡ false
unfolding text_eq
apart_activity_id_class_uid = refl

apart_category_uid_class_uid : text_eq (codes "category_uid") (codes "class_uid") ≡ false
unfolding text_eq
apart_category_uid_class_uid = refl

apart_name_class_uid : text_eq (codes "class_name") (codes "class_uid") ≡ false
unfolding text_eq
apart_name_class_uid = refl

apart_time_severity_id : text_eq (codes "time") (codes "severity_id") ≡ false
unfolding text_eq
apart_time_severity_id = refl

apart_type_uid_severity_id : text_eq (codes "type_uid") (codes "severity_id") ≡ false
unfolding text_eq
apart_type_uid_severity_id = refl

apart_activity_id_severity_id : text_eq (codes "activity_id") (codes "severity_id") ≡ false
unfolding text_eq
apart_activity_id_severity_id = refl

apart_category_uid_severity_id : text_eq (codes "category_uid") (codes "severity_id") ≡ false
unfolding text_eq
apart_category_uid_severity_id = refl

apart_name_severity_id : text_eq (codes "class_name") (codes "severity_id") ≡ false
unfolding text_eq
apart_name_severity_id = refl

apart_class_uid_severity_id : text_eq (codes "class_uid") (codes "severity_id") ≡ false
unfolding text_eq
apart_class_uid_severity_id = refl

pub apart_raw_data_unmapped : text_eq (codes "raw_data") (codes "unmapped") ≡ false
unfolding text_eq
apart_raw_data_unmapped = refl

before_time : is_later (codes "time") ≡ false
unfolding text_eq
before_time = refl

before_class_uid : is_later (codes "class_uid") ≡ false
unfolding text_eq
before_class_uid = refl

before_severity_id : is_later (codes "severity_id") ≡ false
unfolding text_eq
before_severity_id = refl

or_false : (a b : Bool) → (a || b) ≡ false → (a ≡ false) × (b ≡ false)
or_false false b h = (refl, h)
or_false true b h = cc

skip_optional :
    (j k : Text) (o : Option Tree) (f : Tree → Tree) (d : Members)
    → text_eq j k ≡ false
    → Tree.get k (elim o as (λ _. Members) [ none ↦ d | some v ↦ Tree.put j (f v) d ])
      ≡ Tree.get k d
skip_optional j k none f d h = refl
skip_optional j k (some v) f d h = skip j k (f v) d h

skip_unmapped :
    (k : Text) (m d : Members)
    → text_eq (codes "unmapped") k ≡ false
    → Tree.get k (add_unmapped m d) ≡ Tree.get k d
skip_unmapped k end d h = refl
skip_unmapped k (member j v m) d h = skip (codes "unmapped") k _ d h

skip_observables :
    (k : Text) (os : List Observable) (d : Members)
    → text_eq (codes "observables") k ≡ false
    → Tree.get k (add_observables os d) ≡ Tree.get k d
skip_observables k [] d h = refl
skip_observables k (o ∷ os) d h = skip (codes "observables") k _ d h

module _ {F : Type 0} (b : Builtins F) where
  skip_endpoint :
      (name ip_key port_key k : Text) (fields : Fields) (d : Members)
      → text_eq name k ≡ false
      → Tree.get k (add_endpoint b.int_of name ip_key port_key fields d) ≡ Tree.get k d
  skip_endpoint name ip_key port_key k fields d h =
      skip_optional name k (wanted name ip_key fields d)
        (λ ip. object (endpoint b.int_of ip (Dict.get port_key fields))) d h

  skip_connection :
      (k : Text) (fields : Fields) (d : Members)
      → text_eq (codes "connection_info") k ≡ false
      → Tree.get k (add_connection b.int_of fields d) ≡ Tree.get k d
  skip_connection k fields d h =
      skip_optional (codes "connection_info") k
        (wanted (codes "connection_info") (codes "__proto") fields d)
        (λ p. object (member (codes "protocol_name") p end)) d h

  skip_endpoints :
      (k : Text) (fields : Fields) (d : Members)
      → text_eq (codes "src_endpoint") k ≡ false
      → text_eq (codes "dst_endpoint") k ≡ false
      → text_eq (codes "connection_info") k ≡ false
      → Tree.get k (endpoints b.int_of fields d) ≡ Tree.get k d
  unfolding endpoints
  skip_endpoints k fields d src dst conn =
      skip_connection k fields _ conn
      ∙ (skip_endpoint (codes "dst_endpoint") (codes "__dst_ip") (codes "__dst_port") k fields _ dst
          ∙ skip_endpoint (codes "src_endpoint") (codes "__src_ip") (codes "__src_port") k fields d
              src)

  body_at :
      (ir : Ir F) (c : Circumstances) (k : Text)
      → is_later k ≡ false
      → Tree.get k (ocsf_body b ir c)
        ≡ Tree.get k
            (classified b.epoch_ms ir c.received_at (ocsf_field (field_trees b.opened ir.fields)))
  unfolding ocsf_body described
  body_at ir c k h =
      let (meta, h1) = or_false _ _ h in
      let (src, h2) = or_false _ _ h1 in
      let (dst, h3) = or_false _ _ h2 in
      let (conn, h4) = or_false _ _ h3 in
      let (obs, h5) = or_false _ _ h4 in
      let (unm, raw) = or_false _ _ h5 in
      skip (codes "raw_data") k _ _ raw
      ∙ skip_unmapped k _ _ unm
      ∙ skip_observables k ir.observables _ obs
      ∙ skip_endpoints k _ _ src dst conn
      ∙ skip (codes "metadata") k _ _ meta

  skip_given :
      (j k : Text) (o : Option Tree) (d : Members)
      → text_eq j k ≡ false
      → Tree.get k (set_given j o d) ≡ Tree.get k d
  skip_given j k none d h = refl
  skip_given j k (some v) d h = skip_default j k v d h

  -- the text of the raw bytes, at most 65536 characters of it
  abbrev pub string_of_raw : Option Bytes → Tree
  string_of_raw raw = elim raw as (λ _. Tree) [
    | none ↦ null
    | some bytes ↦ string (take 65536 (b.decode_utf8 bytes))
  ]

  embedded_at :
      (embed : Bool) (raw : Option Bytes)
      → embedded b embed raw ≡ (if embed then string_of_raw raw else null)
  embedded_at true none = refl
  embedded_at true (some bytes) = refl
  embedded_at false raw = refl

  module _ (ir : Ir F) (received_at : ℕ) (mapped : Members) where
    class_uid_at :
        Tree.get (codes "class_uid") (classified b.epoch_ms ir received_at mapped)
        ≡ some (
            Option.get_or
              (Tree.get (codes "class_uid") mapped)
              (nat (Option.get_or ir.class_uid 0)))
    unfolding classified
    class_uid_at =
        let k = codes "class_uid" in
        skip (codes "time") k _ _ apart_time_class_uid
        ∙ skip_default (codes "severity_id") k _ _ apart_severity_id_class_uid
        ∙ skip_default (codes "type_uid") k _ _ apart_type_uid_class_uid
        ∙ skip_given (codes "activity_id") k _ _ apart_activity_id_class_uid
        ∙ skip_default (codes "category_uid") k _ _ apart_category_uid_class_uid
        ∙ skip_default (codes "class_name") k _ _ apart_name_class_uid
        ∙ get-set_default_self k _ mapped

    severity_id_at :
        Tree.get (codes "severity_id") (classified b.epoch_ms ir received_at mapped)
        ≡ some (
            Option.get_or
              (Tree.get (codes "severity_id") mapped)
              (nat (Option.get_or ir.severity 0)))
    unfolding classified
    severity_id_at =
        let k = codes "severity_id" in
        skip (codes "time") k _ _ apart_time_severity_id
        ∙ get-set_default_self k _ _
        ∙ ap (λ (o : Option Tree). some (Option.get_or o (nat (Option.get_or ir.severity 0))))
            (skip_default (codes "type_uid") k _ _ apart_type_uid_severity_id
              ∙ skip_given (codes "activity_id") k _ _ apart_activity_id_severity_id
              ∙ skip_default (codes "category_uid") k _ _ apart_category_uid_severity_id
              ∙ skip_default (codes "class_name") k _ _ apart_name_severity_id
              ∙ skip_default (codes "class_uid") k _ mapped apart_class_uid_severity_id)

  -- Every normalized event says when it was, of what class and how severe it is, and has a member for the raw
  -- data: the time is the parser's, or else that of the receipt, whatever a mapping says; a mapped
  -- class or severity stands, and else it is the parser's, or 0; the raw data are the first 65536
  -- characters of the bytes if they are to be embedded and there are any, and null otherwise.
  pub normalize_header :
      (event_id : Text) (now : ℕ) (ir : Ir F) (c : Circumstances)
      → let mapped = ocsf_field (field_trees b.opened ir.fields) in
        let ocsf = (normalize b event_id now ir c).ocsf in
        (Tree.get (codes "time") ocsf
          ≡ some (nat (b.epoch_ms (Option.get_or ir.timestamp c.received_at))))
        × (Tree.get (codes "class_uid") ocsf
            ≡ some (
                Option.get_or
                  (Tree.get (codes "class_uid") mapped)
                  (nat (Option.get_or ir.class_uid 0))))
        × (Tree.get (codes "severity_id") ocsf
            ≡ some (
                Option.get_or
                  (Tree.get (codes "severity_id") mapped)
                  (nat (Option.get_or ir.severity 0))))
        × (Tree.get (codes "raw_data") ocsf
            ≡ some (if c.embed_raw then string_of_raw c.raw_bytes_for_embed else null))
  unfolding normalize ocsf_body classified
  normalize_header event_id now ir c = (
    body_at ir c (codes "time") before_time ∙ get-put_self (codes "time") _ _,
    body_at ir c (codes "class_uid") before_class_uid ∙ class_uid_at ir c.received_at _,
    body_at ir c (codes "severity_id") before_severity_id ∙ severity_id_at ir c.received_at _,
    get-put_self (codes "raw_data") _ _
        ∙ ap (λ (t : Tree). some t) (embedded_at c.embed_raw c.raw_bytes_for_embed),
  )
