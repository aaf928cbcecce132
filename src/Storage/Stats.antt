-- ===== src/Storage/Stats.antt =====
-- `stats` of uli/storage/sql.py.
use mathlib.Core.Option
use sih_ulpf.Common.{
  ℕ, suc, ◌+◌, ◌≡◌, refl, ◌&&◌, List, [], ◌∷◌, length, Bool-cases, inl, inr, arith,
}
use sih_ulpf.Common.Text.{Text, text_eq, codes}
use sih_ulpf.Common.Dict
use sih_ulpf.Common.Dict.{Dict}
use sih_ulpf.Common.Eq.{nat_eq}
use sih_ulpf.Storage.Tables.{filter, rows}
use sih_ulpf.Storage.Events.{EventRow, EventTables}
use sih_ulpf.Storage.Clusters.{ClusterTable}
use sih_ulpf.Storage.Sources.{SourceTable}

pub record Stats : Type 0 where
  pub events : ℕ
  pub by_tier : Dict ℕ ℕ
  pub open_unknown_clusters : ℕ
  pub sources : ℕ

module _ {F : Type 0} where
  -- `GROUP BY tier`
  unfoldable pub by_tier : List (EventRow F) → Dict ℕ ℕ
  by_tier [] = []
  by_tier (r ∷ rs) =
      let groups = by_tier rs in
      Dict.put r.tier (suc (Option.get_or (Dict.get r.tier groups) 0)) groups

  unfoldable pub stats : Text → EventTables F → ClusterTable F → SourceTable → Stats
  unfolding filter rows by_tier
  stats tenant_id events clusters sources =
      let own = filter (λ r. text_eq r.tenant_id tenant_id) (rows events.events) in
      record {
        events = length own;
        by_tier = by_tier own;
        open_unknown_clusters = length (
            filter (λ c. text_eq c.tenant_id tenant_id && text_eq c.status (codes "open"))
              (rows clusters));
        sources = length (filter (λ r. text_eq r.tenant_id tenant_id) (rows sources));
      }

-- the sum of the numbers of a dictionary
unfoldable pub total : {K : Type 0} → Dict K ℕ → ℕ
total [] = 0
total ((k, n) ∷ d) = n + total d

total-put :
    (k m : ℕ) (d : Dict ℕ ℕ) → total (Dict.put k m d) + Option.get_or (Dict.get k d) 0 ≡ m + total d
unfolding total Dict.put Dict.get
total-put k m [] = omega arith
total-put k m ((j, n) ∷ d) = elim (Bool-cases (nat_eq.beq j k)) [
  | inl same ↦ rw same (omega arith)
  | inr other ↦ rw other (omega (arith, total-put k m d))
]

module _ {F : Type 0} where
  total-by_tier : (rs : List (EventRow F)) → total (by_tier rs) ≡ length rs
  unfolding by_tier total
  total-by_tier [] = refl
  total-by_tier (r ∷ rs) = omega (
    arith,
    total-put r.tier (suc (Option.get_or (Dict.get r.tier (by_tier rs)) 0)) (by_tier rs),
    total-by_tier rs,
  )

  -- The counts by tier add up to the number of the tenant's events.
  pub stats-total :
      (tenant_id : Text) (events : EventTables F) (clusters : ClusterTable F)
      (sources : SourceTable)
      → let s = stats tenant_id events clusters sources in total s.by_tier ≡ s.events
  unfolding stats
  stats-total tenant_id events clusters sources =
      total-by_tier (filter (λ r. text_eq r.tenant_id tenant_id) (rows events.events))
