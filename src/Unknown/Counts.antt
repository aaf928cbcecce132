-- ===== src/Unknown/Counts.antt =====
-- The cluster of a family counts the events that were recorded of it.
use mathlib.Core.Path.{subst}
use mathlib.Core.Option
use sih_ulpf.Common.{
  ℕ, suc, ◌+◌, ◌≡◌, refl, sym, ◌∙◌, ap, Bool, true, false, List, [], ◌∷◌, Option, none, some,
  ==_iff, Bool-cases, inl, inr, arith, if◌then◌else◌, ◌&&◌,
}
use sih_ulpf.Common.Text.{Text, codes, text_eq, text_eq_refl}
use sih_ulpf.Common.Dict
use sih_ulpf.Common.Dict.{Dict, Distinct}
use sih_ulpf.Common.Eq.{text_key}
use sih_ulpf.Normalization.Normalize.{Builtins}
use sih_ulpf.Storage.Clusters.{
  Cluster, ClusterTable, find_unknown_cluster, upsert_unknown_cluster, is_cluster,
}
use sih_ulpf.Unknown.Rows.{
  Keyed, put-Keyed, find_first, Agrees, find-put, find-put_other, find_first-get, no_row, same_row,
}
use sih_ulpf.Unknown.Registry.{Observed, fresh_cluster, next_cluster, recorded, record_unknown}

and_both : (a b : Bool) → (a && b) ≡ true → (a ≡ true) × (b ≡ true)
and_both true b h = (refl, h)
and_both false b h = cc

-- the number of events and the status of a family, which without a cluster has none and is open
abbrev pub state : {F : Type 0} → Option (Cluster F) → ℕ × Text
state none = (0, codes "open")
state (some c) = (c.event_count, c.status)

no_more : (s : ℕ × Text) → ◌≡◌ {A = ℕ × Text} s (s.0 + 0, s.1)
no_more s = let zero_more : s.0 ≡ s.0 + 0 = omega arith in λ i. (zero_more i, s.1)

one_more :
    (s s' : ℕ × Text) (n : ℕ)
    → ◌≡◌ {A = ℕ × Text} s' (suc s.0, s.1)
    → ◌≡◌ {A = ℕ × Text} (s'.0 + n, s'.1) (s.0 + suc n, s.1)
one_more s s' n e =
    let moved : suc s.0 + n ≡ s.0 + suc n = omega arith in
    ap (λ (z : ℕ × Text). (z.0 + n, z.1)) e ∙ (λ i. (moved i, s.1))

module _ {F : Type 0} (b : Builtins F) (min_events : ℕ) where
  -- `record_unknown` for one event after another, each with the next id and the time
  unfoldable pub record_all : List (Text × (ℕ × Observed F)) → ClusterTable F → ClusterTable F
  record_all [] t = t
  record_all ((fresh, (now, o)) ∷ obs) t =
      record_all obs (record_unknown b min_events fresh now o t).1

  is_own :
      (fresh : Text) (now : ℕ) (o : Observed F) (t : ClusterTable F)
      → is_cluster o.tenant_id o.source_id o.family_hash (recorded b fresh now o t) ≡ true
  unfolding recorded
  is_own fresh now o t =
      rw (text_eq_refl o.tenant_id, text_eq_refl o.source_id, text_eq_refl o.family_hash) refl

  recorded-Agrees :
      (fresh : Text) (now : ℕ) (o : Observed F) (t : ClusterTable F)
      → Agrees
          (recorded b fresh now o t).cluster_id
          (find_first (is_cluster o.tenant_id o.source_id o.family_hash) t)
  unfolding recorded find_unknown_cluster
  recorded-Agrees fresh now o t =
      go (find_first (is_cluster o.tenant_id o.source_id o.family_hash) t)
    where
      go :
          (c : Option (Cluster F))
          → Agrees (Option.get_or c (fresh_cluster b fresh now o)).cluster_id c
      go none = tt
      go (some c) = refl

  find-record :
      (fresh : Text) (now : ℕ) (o : Observed F) (t : ClusterTable F)
      → Keyed t
      → find_unknown_cluster o.tenant_id o.source_id o.family_hash
          (record_unknown b min_events fresh now o t).1
        ≡ some (recorded b fresh now o t)
  unfolding record_unknown upsert_unknown_cluster find_unknown_cluster
  find-record fresh now o t keyed =
      find-put (is_cluster o.tenant_id o.source_id o.family_hash) (recorded b fresh now o t) t
        (is_own fresh now o t) keyed (recorded-Agrees fresh now o t)

  state-recorded :
      (fresh : Text) (now : ℕ) (o : Observed F) (t : ClusterTable F)
      → let before = state (find_unknown_cluster o.tenant_id o.source_id o.family_hash t) in
        state (some (recorded b fresh now o t)) ≡ (suc before.0, before.1)
  unfolding recorded
  state-recorded fresh now o t = go (find_unknown_cluster o.tenant_id o.source_id o.family_hash t)
    where
      go :
          (c : Option (Cluster F))
          → state (some (next_cluster b now o (Option.get_or c (fresh_cluster b fresh now o))))
            ≡ (suc (state c).0, (state c).1)
      go none = refl
      go (some c) = refl

  record-Keyed :
      (fresh : Text) (now : ℕ) (o : Observed F) (t : ClusterTable F)
      → Keyed t
      → Keyed (record_unknown b min_events fresh now o t).1
  unfolding record_unknown upsert_unknown_cluster
  record-Keyed fresh now o t keyed = put-Keyed (recorded b fresh now o t) t keyed

  record_all-Keyed :
      (obs : List (Text × (ℕ × Observed F))) (t : ClusterTable F)
      → Keyed t
      → Keyed (record_all obs t)
  unfolding record_all
  record_all-Keyed [] t keyed = keyed
  record_all-Keyed ((fresh, (now, o)) ∷ obs) t keyed =
      record_all-Keyed obs (record_unknown b min_events fresh now o t).1
        (record-Keyed fresh now o t keyed)

  record-Distinct :
      (fresh : Text) (now : ℕ) (o : Observed F) (t : ClusterTable F)
      → Distinct t
      → Distinct (record_unknown b min_events fresh now o t).1
  unfolding record_unknown upsert_unknown_cluster
  record-Distinct fresh now o t distinct =
      Dict.put-Distinct (recorded b fresh now o t).cluster_id (recorded b fresh now o t) t distinct

  -- every new id is of no cluster yet when it is drawn
  unfoldable pub Fresh : List (Text × (ℕ × Observed F)) → ClusterTable F → Type 0
  Fresh [] t = Unit
  Fresh ((fresh, (now, o)) ∷ obs) t =
      (◌≡◌ {A = Option (Cluster F)} (Dict.get fresh t) none)
      × Fresh obs (record_unknown b min_events fresh now o t).1

  module _ (tenant_id source_id family_hash : Text) where
    -- the event is of the family
    abbrev pub of_family : Observed F → Bool
    of_family o =
        text_eq o.tenant_id tenant_id
        && (text_eq o.source_id source_id && text_eq o.family_hash family_hash)

    -- how many of the events are
    abbrev pub count_family : List (Text × (ℕ × Observed F)) → ℕ
    count_family [] = 0
    count_family ((fresh, (now, o)) ∷ obs) =
        let rest = count_family obs in if of_family o then suc rest else rest

    of_family-equal :
        (o : Observed F)
        → of_family o ≡ true
        → (o.tenant_id ≡ tenant_id) × (o.source_id ≡ source_id) × (o.family_hash ≡ family_hash)
    of_family-equal o h =
        let (one, two) = and_both (text_eq o.tenant_id tenant_id) _ h in
        let (two', three) = and_both (text_eq o.source_id source_id) _ two in
        (
          (text_key.beq_iff o.tenant_id tenant_id).0 one,
          (text_key.beq_iff o.source_id source_id).0 two',
          (text_key.beq_iff o.family_hash family_hash).0 three,
        )

    -- the row that another family had is of that family
    row_of_other :
        (o : Observed F) (w : Cluster F)
        → of_family o ≡ false
        → is_cluster o.tenant_id o.source_id o.family_hash w ≡ true
        → is_cluster tenant_id source_id family_hash w ≡ false
    row_of_other o w other own =
        let (one, two) = and_both (text_eq w.tenant_id o.tenant_id) _ own in
        let (two', three) = and_both (text_eq w.source_id o.source_id) _ two in
        rw
          (
            (text_key.beq_iff w.tenant_id o.tenant_id).0 one,
            (text_key.beq_iff w.source_id o.source_id).0 two',
            (text_key.beq_iff w.family_hash o.family_hash).0 three,
          )
          other

    -- an event of another family leaves the cluster of this one as it is
    find-record_other :
        (fresh : Text) (now : ℕ) (o : Observed F) (t : ClusterTable F)
        → Keyed t
        → Distinct t
        → Dict.get fresh t ≡ none
        → of_family o ≡ false
        → find_unknown_cluster tenant_id source_id family_hash
            (record_unknown b min_events fresh now o t).1
          ≡ find_unknown_cluster tenant_id source_id family_hash t
    unfolding record_unknown upsert_unknown_cluster find_unknown_cluster recorded
    find-record_other fresh now o t keyed distinct free other =
        find-put_other (is_cluster tenant_id source_id family_hash)
          (recorded b fresh now o t).cluster_id (recorded b fresh now o t) t other
          (go (find_first (is_cluster o.tenant_id o.source_id o.family_hash) t) refl)
      where
        go :
            (found : Option (Cluster F))
            → find_first (is_cluster o.tenant_id o.source_id o.family_hash) t ≡ found
            → (w : Cluster F)
            → Dict.get (Option.get_or found (fresh_cluster b fresh now o)).cluster_id t ≡ some w
            → is_cluster tenant_id source_id family_hash w ≡ false
        go none h w at = absurd (no_row w (sym free ∙ at))
        go (some v) h w at =
            let (own, at_v) =
              find_first-get (is_cluster o.tenant_id o.source_id o.family_hash) t v keyed distinct
                h in
            row_of_other o w other (
              subst (λ z. is_cluster o.tenant_id o.source_id o.family_hash z ≡ true)
                (same_row v w (sym at_v ∙ at)) own)

    -- The cluster of a family counts every event that is recorded of it, and keeps its status,
    -- whatever events of other families are recorded in between.
    pub record_all_counts :
        (obs : List (Text × (ℕ × Observed F))) (t : ClusterTable F)
        → Keyed t
        → Distinct t
        → Fresh obs t
        → let before = state (find_unknown_cluster tenant_id source_id family_hash t) in
          state (find_unknown_cluster tenant_id source_id family_hash (record_all obs t))
          ≡ (before.0 + count_family obs, before.1)
    unfolding record_all Fresh
    record_all_counts [] t keyed distinct free =
        no_more (state (find_unknown_cluster tenant_id source_id family_hash t))
    record_all_counts ((fresh, (now, o)) ∷ obs) t keyed distinct (free, rest) =
        let t' = (record_unknown b min_events fresh now o t).1 in
        let later =
          record_all_counts obs t' (record-Keyed fresh now o t keyed)
            (record-Distinct fresh now o t distinct) rest in
        let before = state (find_unknown_cluster tenant_id source_id family_hash t) in
        elim (Bool-cases (of_family o)) [
          | inl own ↦
              let (e1, e2, e3) = of_family-equal o own in
              let step : state (find_unknown_cluster tenant_id source_id family_hash t')
                  ≡ (suc before.0, before.1) =
                rw (← e1, ← e2, ← e3)
                  (ap state (find-record fresh now o t keyed) ∙ state-recorded fresh now o t) in
              rw own (later ∙ one_more before _ (count_family obs) step)
          | inr other ↦ rw other (
              later
              ∙ ap (λ (c : Option (Cluster F)). ((state c).0 + count_family obs, (state c).1))
                  (find-record_other fresh now o t keyed distinct free other))
        ]

  -- A parser is suggested for a new family when its event number `min_events` is recorded, whatever
  -- events of this and of other families came before: `record_unknown` then returns an id, and this
  -- is the id of the cluster that is found for the family behind it, with a count of `min_events`.
  -- The ids of new clusters are taken to be fresh.
  pub record_unknown_suggests :
      (obs : List (Text × (ℕ × Observed F))) (fresh : Text) (now : ℕ) (o : Observed F)
      (t : ClusterTable F)
      → Keyed t
      → Distinct t
      → Fresh obs t
      → find_unknown_cluster o.tenant_id o.source_id o.family_hash t ≡ none
      → suc (count_family o.tenant_id o.source_id o.family_hash obs) ≡ min_events
      → (c : Cluster F) × ((record_unknown b min_events fresh now o (record_all obs t)).0
          ≡ some c.cluster_id)
        × (find_unknown_cluster o.tenant_id o.source_id o.family_hash
              (record_unknown b min_events fresh now o (record_all obs t)).1
            ≡ some c)
        × (c.event_count ≡ min_events)
  unfolding record_unknown
  record_unknown_suggests obs fresh now o t keyed distinct free new enough =
      let n = count_family o.tenant_id o.source_id o.family_hash obs in
      let c = recorded b fresh now o (record_all obs t) in
      let counted : state
            (find_unknown_cluster o.tenant_id o.source_id o.family_hash (record_all obs t))
          ≡ (0 + n, codes "open") =
        rw new at
          (record_all_counts o.tenant_id o.source_id o.family_hash obs t keyed distinct free) in
      let reached : state (some c) ≡ (suc (0 + n), codes "open") =
        state-recorded fresh now o (record_all obs t)
        ∙ ap (λ (z : ℕ × Text). (suc z.0, z.1)) counted in
      let count : c.event_count ≡ min_events =
        ap (λ (z : ℕ × Text). z.0) reached ∙ omega (arith, enough) in
      let is_open : c.status ≡ codes "open" = ap (λ (z : ℕ × Text). z.1) reached in
      (
        c,
        rw ((==_iff _ _).1 count, is_open) refl,
        find-record fresh now o (record_all obs t) (record_all-Keyed obs t keyed),
        count,
      )
