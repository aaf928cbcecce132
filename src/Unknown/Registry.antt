-- ===== src/Unknown/Registry.antt =====
-- `record_unknown` and `_merge_inferred` of uli/detection/unknown.py.
use mathlib.Core.Option
use sih_ulpf.Common.{
  ℕ, suc, Bool, true, false, ◌&&◌, ◌||◌, ◌==◌, List, [], ◌∷◌, Option, none, some, if◌then◌else◌,
  take,
}
use sih_ulpf.Common.Text.{Text, text_eq, codes, starts_with}
use sih_ulpf.Common.Strings.{leb_text}
use sih_ulpf.Common.Dict
use sih_ulpf.Common.Dict.{Dict}
use sih_ulpf.Common.Eq.{text_key}
use sih_ulpf.Models.{Ir}
use sih_ulpf.Normalization.Tree.{Tree, null, flag, int, float, string, array, object}
use sih_ulpf.Normalization.Body.{Fields}
use sih_ulpf.Normalization.Normalize.{Builtins, field_trees}
use sih_ulpf.Storage.Clusters.{
  Inferred, Cluster, ClusterTable, upsert_unknown_cluster, find_unknown_cluster,
}

-- `type(v).__name__`
abbrev pub type_name : Tree → Text
type_name null = codes "NoneType"
type_name (flag b) = codes "bool"
type_name (int n) = codes "int"
type_name (float b) = codes "float"
type_name (string s) = codes "str"
type_name (array vs) = codes "list"
type_name (object d) = codes "dict"

-- `v in (None, "")`
abbrev pub is_blank : Tree → Bool
is_blank null = true
is_blank (string []) = true
is_blank _ = false

-- a set as its sorted list: `s.add(x)`
unfoldable pub add_sorted : Text → List Text → List Text
unfolding text_eq leb_text
add_sorted x [] = x ∷ []
add_sorted x (y ∷ ys) =
    let later = add_sorted x ys in
    if text_eq x y then y ∷ ys else if leb_text x y then x ∷ y ∷ ys else y ∷ later

-- `set(xs)`
unfoldable pub to_set : List Text → List Text
unfolding add_sorted
to_set [] = []
to_set (x ∷ xs) = add_sorted x (to_set xs)

-- `if x: s.add(x)`
abbrev pub add_given : Option Text → List Text → List Text
add_given none s = s
add_given (some []) s = s
add_given (some (c ∷ x)) s = add_sorted (c ∷ x) s

-- `if ir.template_id and ir.template:`
abbrev pub add_template : Option Text → Option Text → Dict Text Text → Dict Text Text
add_template (some (c ∷ k)) (some (d ∷ v)) templates = Dict.put (c ∷ k) (d ∷ v) templates
add_template _ _ templates = templates

-- one more of a field
abbrev pub filled : Option Inferred → Inferred → Inferred
filled none fresh = record fresh { fill = suc fresh.fill }
filled (some e) fresh = record e { fill = suc e.fill }

module _ (str_of : Tree → Text) where
  -- `_merge_inferred`
  unfoldable pub merge_inferred : Fields → Dict Text Inferred → Dict Text Inferred
  merge_inferred [] out = out
  merge_inferred ((k, v) ∷ fields) out =
      let e =
        filled (Dict.get k out)
          (record { fill = 0; example = take 200 (str_of v); type_name = type_name v }) in
      merge_inferred fields
        (if starts_with k (codes "__") || is_blank v then out else Dict.put k e out)

-- `existing.get("example_raw_event_id") or raw_event_id`
abbrev pub or_text : Text → Text → Text
or_text [] t = t
or_text (c ∷ s) t = c ∷ s

-- One unknown event: where it is from, its hashes, and what the parsers found.
pub record Observed (F : Type 0) : Type 0 where
  pub tenant_id : Text
  pub source_id : Text
  pub family_hash : Text
  pub shape_hash : Text
  pub ir : Ir F
  pub raw_event_id : Text

module _ {F : Type 0} (b : Builtins F) where
  -- the first cluster of a family, before its first event; `fresh` is the next id
  abbrev pub fresh_cluster : Text → ℕ → Observed F → Cluster F
  fresh_cluster fresh now o = record {
    cluster_id = fresh;
    tenant_id = o.tenant_id;
    source_id = o.source_id;
    family_hash = o.family_hash;
    shape_hashes = [];
    template_ids = [];
    templates = [];
    inferred_fields = [];
    candidate_parsers = [];
    confidence = o.ir.confidence;
    status = codes "open";
    event_count = 0;
    example_raw_event_id = [];
    first_seen = now;
    last_seen = now;
  }

  abbrev pub next_cluster : ℕ → Observed F → Cluster F → Cluster F
  next_cluster now o c = record {
    cluster_id = c.cluster_id;
    tenant_id = o.tenant_id;
    source_id = o.source_id;
    family_hash = o.family_hash;
    shape_hashes = take 100 (add_sorted o.shape_hash (to_set c.shape_hashes));
    template_ids = take 100 (add_given o.ir.template_id (to_set c.template_ids));
    templates = add_template o.ir.template_id o.ir.template c.templates;
    inferred_fields = merge_inferred b.str_of (field_trees b.opened o.ir.fields) c.inferred_fields;
    candidate_parsers = c.candidate_parsers;
    confidence = o.ir.confidence;
    status = c.status;
    event_count = suc c.event_count;
    example_raw_event_id = or_text c.example_raw_event_id o.raw_event_id;
    first_seen = c.first_seen;
    last_seen = now;
  }

  -- the cluster behind an event
  unfoldable pub recorded : Text → ℕ → Observed F → ClusterTable F → Cluster F
  unfolding find_unknown_cluster merge_inferred to_set
  recorded fresh now o t = next_cluster now o (
      Option.get_or (find_unknown_cluster o.tenant_id o.source_id o.family_hash t)
        (fresh_cluster fresh now o))

  -- `record_unknown`: the id when a parser is to be suggested
  unfoldable pub record_unknown :
      ℕ → Text → ℕ → Observed F → ClusterTable F → Option Text × ClusterTable F
  unfolding recorded upsert_unknown_cluster text_eq
  record_unknown min_events fresh now o t =
      let c = recorded fresh now o t in
      (
        if (c.event_count == min_events) && text_eq c.status (codes "open")
            then some c.cluster_id
            else none,
        upsert_unknown_cluster c t,
      )
