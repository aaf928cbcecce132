-- ===== src/Tests/UnknownTests.antt =====
-- A family of unknown events is recorded three times, with an event of another between.
use sih_ulpf.Common.{ℕ, suc, ◌≡◌, refl, List, [], ◌∷◌, none, some}
use sih_ulpf.Common.Text.{Text, codes, text_eq}
use sih_ulpf.Storage.Clusters.{Cluster, ClusterTable, find_unknown_cluster, upsert_unknown_cluster}
use sih_ulpf.Common.Dict
use sih_ulpf.Common.Dict.{Distinct}
use sih_ulpf.Common.Eq.{text_key}
use sih_ulpf.Storage.Tables.{filter, rows}
use sih_ulpf.Unknown.Registry.{Observed, recorded, record_unknown}
use sih_ulpf.Unknown.Rows.{Keyed}
use sih_ulpf.Unknown.Counts.{Fresh, count_family, record_all, record_unknown_suggests}
use sih_ulpf.Tests.NormalizationTests.{builtins, parsed}

abbrev seen : Observed ℕ
seen = record {
  tenant_id = codes "t";
  source_id = codes "s";
  family_hash = codes "fh";
  shape_hash = codes "sh";
  ir = parsed;
  raw_event_id = codes "digest";
}

abbrev elsewhere : Observed ℕ
elsewhere = record seen { tenant_id = codes "u" }

-- between the two events of the family is one of another tenant
abbrev three : List (Text × (ℕ × Observed ℕ))
three = (codes "c1", (1, seen)) ∷ (codes "c2", (2, elsewhere)) ∷ (codes "c3", (3, seen)) ∷ []

abbrev no_clusters : ClusterTable ℕ
no_clusters = []

no_keys : Keyed no_clusters
unfolding Keyed
no_keys = tt

no_twice : Distinct no_clusters
unfolding Distinct
no_twice = tt

three-Fresh : Fresh builtins 3 three no_clusters
unfolding Fresh record_unknown recorded upsert_unknown_cluster find_unknown_cluster Dict.get
    Dict.put text_eq filter rows
three-Fresh = (refl, (refl, (refl, tt)))

new_family : find_unknown_cluster (codes "t") (codes "s") (codes "fh") no_clusters ≡ none
unfolding find_unknown_cluster
new_family = refl

two_seen : suc (count_family builtins 3 (codes "t") (codes "s") (codes "fh") three) ≡ 3
unfolding text_eq
two_seen = refl

record_unknown_suggests_example :
    (c : Cluster ℕ) × ((record_unknown builtins 3
        (codes "c4")
        3
        seen
        (record_all builtins 3 three no_clusters)).0
      ≡ some c.cluster_id)
    × (find_unknown_cluster
          (codes "t")
          (codes "s")
          (codes "fh")
          (record_unknown builtins 3
            (codes "c4")
            3
            seen
            (record_all builtins 3 three no_clusters)).1
        ≡ some c)
    × (c.event_count ≡ 3)
record_unknown_suggests_example =
    record_unknown_suggests builtins 3 three (codes "c4") 3 seen no_clusters no_keys no_twice
      three-Fresh new_family two_seen
