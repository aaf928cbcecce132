-- ===== src/Storage/Clusters.antt =====
-- The clusters of unknown events of uli/storage/sql.py.
use sih_ulpf.Common.{ℕ, Bool, ◌&&◌, List, [], ◌∷◌, Option, none, some}
use sih_ulpf.Common.Text.{Text, text_eq}
use sih_ulpf.Common.Dict
use sih_ulpf.Common.Dict.{Dict}
use sih_ulpf.Common.Eq.{text_key}
use sih_ulpf.Storage.Tables.{filter, rows, update, order_desc}
use sih_ulpf.Storage.Events.{when_text}

-- what is noted of a field: how often it was there, an example, and the name of its type
pub record Inferred : Type 0 where
  pub fill : ℕ
  pub example : Text
  pub type_name : Text

-- A row of `unknown_clusters`, over the confidences `F`.
pub record Cluster (F : Type 0) : Type 0 where
  pub cluster_id : Text
  pub tenant_id : Text
  pub source_id : Text
  pub family_hash : Text
  pub shape_hashes : List Text
  pub template_ids : List Text
  pub templates : Dict Text Text
  pub inferred_fields : Dict Text Inferred
  pub candidate_parsers : List Text
  pub confidence : F
  pub status : Text
  pub event_count : ℕ
  pub example_raw_event_id : Text
  pub first_seen : ℕ
  pub last_seen : ℕ

abbrev pub ClusterTable : Type 0 → Type 0
ClusterTable F = Dict Text (Cluster F)

module _ {F : Type 0} where
  -- `upsert_unknown_cluster` with all columns
  unfoldable pub upsert_unknown_cluster : Cluster F → ClusterTable F → ClusterTable F
  upsert_unknown_cluster c t = Dict.put c.cluster_id c t

  -- `upsert_unknown_cluster` with the status alone, of a cluster that is there
  unfoldable pub set_cluster_status : Text → Text → ClusterTable F → ClusterTable F
  unfolding update
  set_cluster_status cluster_id status t = update cluster_id (λ c. record c { status = status }) t

  abbrev pub is_cluster : Text → Text → Text → Cluster F → Bool
  is_cluster tenant_id source_id family_hash c =
      text_eq c.tenant_id tenant_id
      && (text_eq c.source_id source_id && text_eq c.family_hash family_hash)

  abbrev pub first : List (Cluster F) → Option (Cluster F)
  first [] = none
  first (c ∷ cs) = some c

  unfoldable pub find_unknown_cluster : Text → Text → Text → ClusterTable F → Option (Cluster F)
  unfolding filter rows
  find_unknown_cluster tenant_id source_id family_hash t =
      first (filter (is_cluster tenant_id source_id family_hash) (rows t))

  unfoldable pub list_unknown : Text → Option Text → ClusterTable F → List (Cluster F)
  unfolding filter rows order_desc
  list_unknown tenant_id status t =
      order_desc (λ c. c.event_count)
        (filter (λ c. text_eq c.tenant_id tenant_id && when_text status (text_eq c.status))
          (rows t))

  unfoldable pub get_unknown : Text → ClusterTable F → Option (Cluster F)
  get_unknown cluster_id t = Dict.get cluster_id t
