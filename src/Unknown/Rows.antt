-- ===== src/Unknown/Rows.antt =====
-- The rows of clusters by their ids: what a written row changes for a family, and what it does not.
use mathlib.Core.Path.{subst}
use sih_ulpf.Common.{
  ◌≡◌, refl, sym, ◌∙◌, Bool, true, false, [], ◌∷◌, Option, none, some, Bool-cases, inl, inr,
}
use sih_ulpf.Common.Text.{Text, text_eq}
use sih_ulpf.Common.Dict
use sih_ulpf.Common.Dict.{Dict, Distinct}
use sih_ulpf.Common.Eq.{text_key}
use sih_ulpf.Storage.Tables.{filter, rows}
use sih_ulpf.Storage.Clusters.{Cluster, ClusterTable, first}

module _ {F : Type 0} where
  -- every row stands under its own id
  unfoldable pub Keyed : ClusterTable F → Type 0
  Keyed [] = Unit
  Keyed ((k, c) ∷ t) = (k ≡ c.cluster_id) × Keyed t

  pub put-Keyed : (c : Cluster F) (t : ClusterTable F) → Keyed t → Keyed (Dict.put c.cluster_id c t)
  unfolding Keyed Dict.put
  put-Keyed c [] h = (refl, tt)
  put-Keyed c ((j, w) ∷ t) (own, h) = elim (Bool-cases (text_eq j c.cluster_id)) [
    | inl same ↦ rw same ((text_key.beq_iff j c.cluster_id).0 same, h)
    | inr other ↦ rw other (own, put-Keyed c t h)
  ]

  -- the first row of which `p` holds
  abbrev pub find_first : (Cluster F → Bool) → ClusterTable F → Option (Cluster F)
  find_first p t = first (filter p (rows t))

  -- the row that is found has the id of the row that is put, if one is found
  abbrev pub Agrees : Text → Option (Cluster F) → Type 0
  Agrees id none = Unit
  Agrees id (some w) = w.cluster_id ≡ id

  pub find-put :
      (p : Cluster F → Bool) (c : Cluster F) (t : ClusterTable F)
      → p c ≡ true
      → Keyed t
      → Agrees c.cluster_id (find_first p t)
      → find_first p (Dict.put c.cluster_id c t) ≡ some c
  unfolding Keyed Dict.put filter rows
  find-put p c [] h keyed agrees = rw h refl
  find-put p c ((j, w) ∷ t) h (own, keyed) agrees = elim (Bool-cases (text_eq j c.cluster_id)) [
    | inl same ↦ rw (same, h) refl
    | inr other ↦ elim (Bool-cases (p w)) [
      | inl hit ↦
          let w_id : w.cluster_id ≡ c.cluster_id = rw hit at agrees in
          absurd (clash (sym other ∙ (text_key.beq_iff j c.cluster_id).1 (own ∙ w_id)))
      | inr miss ↦
          let rest : Agrees c.cluster_id (find_first p t) = rw miss at agrees in
          rw (other, miss) (find-put p c t h keyed rest)
    ]
  ]
    where
      clash : false ≡ true → ⊥
      clash z = cc

  -- a written row of which `p` does not hold changes nothing, if it did not hold of the row before it
  pub find-put_other :
      (p : Cluster F → Bool) (id : Text) (c : Cluster F) (t : ClusterTable F)
      → p c ≡ false
      → ((w : Cluster F) → Dict.get id t ≡ some w → p w ≡ false)
      → find_first p (Dict.put id c t) ≡ find_first p t
  unfolding Dict.put Dict.get filter rows
  find-put_other p id c [] h before = rw h refl
  find-put_other p id c ((j, w) ∷ t) h before = elim (Bool-cases (text_eq j id)) [
    | inl same ↦ let off : p w ≡ false = before w (rw same refl) in rw (same, h, off) refl
    | inr other ↦
        let rest = find-put_other p id c t h (λ v at. before v (rw other at)) in
        elim (Bool-cases (p w)) [
          | inl hit ↦ rw (other, hit) refl
          | inr miss ↦ rw (other, miss) rest
        ]
  ]

  pub no_row : (w : Cluster F) → ◌≡◌ {A = Option (Cluster F)} none (some w) → ⊥
  no_row w q = cc

  pub same_row : (v w : Cluster F) → ◌≡◌ {A = Option (Cluster F)} (some v) (some w) → v ≡ w
  same_row v w q = cc

  -- the row that is found is of the kind, and stands under its id
  pub find_first-get :
      (p : Cluster F → Bool) (t : ClusterTable F) (w : Cluster F)
      → Keyed t
      → Distinct t
      → find_first p t ≡ some w
      → (p w ≡ true) × (Dict.get w.cluster_id t ≡ some w)
  unfolding Keyed Distinct Dict.get filter rows
  find_first-get p [] w keyed distinct h = absurd (no_row w h)
  find_first-get p ((j, v) ∷ t) w (own, keyed) (alone, distinct) h = elim (Bool-cases (p v)) [
    | inl hit ↦
        subst (λ (z : Cluster F). (p z ≡ true) × (Dict.get z.cluster_id ((j, v) ∷ t) ≡ some z))
          (same_row v w (rw hit at h)) (hit, rw ((text_key.beq_iff j v.cluster_id).1 own) refl)
    | inr miss ↦
        let (holds, at) = find_first-get p t w keyed distinct (rw miss at h) in
        (
          holds,
          elim (Bool-cases (text_eq j w.cluster_id)) [
            | inl same ↦
                absurd (no_row w (sym alone ∙ rw ((text_key.beq_iff j w.cluster_id).0 same) at))
            | inr other ↦ rw other at
          ],
        )
  ]
