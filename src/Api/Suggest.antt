-- ===== src/Api/Suggest.antt =====
-- `suggest` of `create_app` of uli/api/app.py.
use sih_ulpf.Common.{
  ℕ, suc, Bool, ◌||◌, ◌==◌, List, [], ◌∷◌, ◌++◌, map, Option, none, some, if◌then◌else◌, ltb,
  length, take, true,
}
use sih_ulpf.Common.Text.{Text, codes, text_eq, replace_all}
use sih_ulpf.Common.Strings.{strip, is_empty}
use sih_ulpf.Common.Eq.{text_key}
use sih_ulpf.Fingerprint.Unicode.{Unicode}
use sih_ulpf.Fingerprint.Tokenize.{tokenize}
use sih_ulpf.Normalization.Tree.{
  Tree, Members, null, flag, string, array, object, nil, cons, end, member,
}
use sih_ulpf.Structural.Flatten.{decimal}
use sih_ulpf.Storage.Clusters.{Cluster, ClusterTable, get_unknown, set_cluster_status}
use sih_ulpf.Storage.Parsers.{RowTable, add_suggestion}
use sih_ulpf.Evolution.Synthesis.{YamlCalls, synthesize_pack_yaml}
use sih_ulpf.Api.Auth.{Answer, ok, http_error, raised}

-- `max(.., key=len)`: the longest of the templates, and the first of several
unfoldable pub longest : Text → List Text → Text
longest best [] = best
longest best (t ∷ ts) = longest (if ltb (length best) (length t) then t else best) ts

-- the characters that `t.strip(" :,|=[]()\"")` takes off
abbrev pub is_trim : ℕ → Bool
is_trim c =
    c == b' '
    || (c == b':'
        || (c == b','
            || (c == b'|'
                || (c == b'='
                    || (c == b'[' || (c == b']' || (c == b'(' || (c == b')' || c == b'"'))))))))

-- the positions of `suggest`, counted from `i`
unfoldable pub field_positions : ℕ → List Text → List (ℕ × Text)
unfolding text_eq
field_positions i [] = []
field_positions i (t ∷ ts) =
    let rest = field_positions (suc i) ts in
    if text_eq t (codes "<*>") || is_empty (strip is_trim t)
    then rest
    else (i, codes "field_" ++ decimal i) ∷ rest

-- what `suggest` answers with
pub record Suggested : Type 0 where
  pub cluster_id : Text
  pub parser_id : Text
  pub yaml : Text

-- `cluster.get("confidence") or 0.5`, and a float as a value of a row
pub record SuggestCalls (F : Type 0) : Type 0 where
  pub or_half : F → F
  pub float_tree : F → Tree
  pub dumps : YamlCalls F

-- What `suggest` writes to.
pub record SuggestTables (F : Type 0) : Type 0 where
  pub clusters : ClusterTable F
  pub suggestions : RowTable

module _ {F : Type 0} (u : Unicode) (calls : SuggestCalls F) where
  abbrev pub suggested_id : Cluster F → Text → Text
  suggested_id c cluster_id =
      replace_all
        (u.lower (codes "suggested." ++ (c.source_id ++ (codes "." ++ take 8 cluster_id))))
        (codes ":") (codes "_")

  abbrev pub base_spec : Cluster F → Text → Members
  base_spec c id = member (codes "parser_id") (string id) (
      member (codes "version") (string (codes "0.1.0")) (
        member (codes "vendor") (string (codes "unknown")) (
          member (codes "product") (string c.source_id) (
            member (codes "signatures")
              (array (
                cons
                  (object (
                    member (codes "kind") (string (codes "shape_family")) (
                      member (codes "equals") (string c.family_hash)
                        (member (codes "required") (flag true) end))))
                  nil))
              (member (codes "map") (object (member (codes "fields") (object end) end)) end)))))

  -- the row of the suggestion
  abbrev pub suggestion_row : Cluster F → Text → Text → Text → Text → Text → Members
  suggestion_row c cluster_id tid id yaml template =
      member (codes "cluster_id") (string cluster_id) (
        member (codes "tenant_id") (string tid) (
          member (codes "source_id") (string c.source_id) (
            member (codes "origin") (string (codes "unknown")) (
              member (codes "base_parser_id") null (
                member (codes "parser_id") (string id) (
                  member (codes "yaml") (string yaml) (
                    member (codes "score") (calls.float_tree (calls.or_half c.confidence)) (
                      member (codes "details")
                        (object (member (codes "template") (string template) end)) end))))))))

  abbrev pub noted :
      Text → Text → Text → SuggestTables F → Option RowTable → Answer Suggested × SuggestTables F
  noted cluster_id id yaml t none = (raised, t)
  noted cluster_id id yaml t (some suggestions) = (
    ok (record { cluster_id = cluster_id; parser_id = id; yaml = yaml }),
    record {
      clusters = set_cluster_status cluster_id (codes "suggested") t.clusters;
      suggestions = suggestions;
    },
  )

  abbrev pub synthesized :
      Text
      → ℕ
      → Text
      → Text
      → Cluster F
      → Text
      → SuggestTables F
      → Option Text
      → Answer Suggested × SuggestTables F
  synthesized fresh now tid cluster_id c template t none = (raised, t)
  synthesized fresh now tid cluster_id c template t (some yaml) =
      let id = suggested_id c cluster_id in
      noted cluster_id id yaml t
        (add_suggestion fresh now (suggestion_row c cluster_id tid id yaml template) t.suggestions)

  abbrev pub tokenized :
      Text
      → ℕ
      → Text
      → Text
      → Cluster F
      → Text
      → SuggestTables F
      → Option (List Text)
      → Answer Suggested × SuggestTables F
  tokenized fresh now tid cluster_id c template t none = (raised, t)
  tokenized fresh now tid cluster_id c template t (some toks) =
      synthesized fresh now tid cluster_id c template t (
        synthesize_pack_yaml u calls.dumps (base_spec c (suggested_id c cluster_id))
          (field_positions 0 toks) toks (calls.or_half c.confidence))

  abbrev pub of_templates :
      Text
      → ℕ
      → Text
      → Text
      → Cluster F
      → SuggestTables F
      → List Text
      → Answer Suggested × SuggestTables F
  of_templates fresh now tid cluster_id c t [] = (http_error 422, t)
  of_templates fresh now tid cluster_id c t (template ∷ templates) =
      let best = longest template templates in
      tokenized fresh now tid cluster_id c best t (tokenize u best)

  abbrev pub of_cluster :
      Text
      → ℕ
      → Text
      → Text
      → SuggestTables F
      → Option (Cluster F)
      → Answer Suggested × SuggestTables F
  of_cluster fresh now tid cluster_id t none = (http_error 404, t)
  of_cluster fresh now tid cluster_id t (some c) =
      of_templates fresh now tid cluster_id c t (map (λ kv. kv.1) c.templates)

  -- `suggest`, with a fresh id for the suggestion
  unfoldable pub suggest :
      Text → ℕ → Text → Text → SuggestTables F → Answer Suggested × SuggestTables F
  unfolding get_unknown set_cluster_status add_suggestion longest field_positions tokenize
      synthesize_pack_yaml
  suggest fresh now tid cluster_id t =
      of_cluster fresh now tid cluster_id t (get_unknown cluster_id t.clusters)
