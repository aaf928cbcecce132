-- ===== src/Storage/Tables.antt =====
-- Tables with a primary key are dictionaries, the other ones lists in the order of their inserts. A
-- statement on one table has the meaning that SQL gives it.
use sih_ulpf.Common.{
  ℕ, Bool, false, List, [], ◌∷◌, Option, none, some, if◌then◌else◌, leb, ◌≡◌, refl, sym, ◌∙◌,
  Bool-cases, Option-cases, inl, inr,
}
use sih_ulpf.Common.Dict
use sih_ulpf.Common.Dict.{Dict}
use sih_ulpf.Common.Eq.{Eq}

module _ {K V : Type 0} ⦃e : Eq K⦄ where
  -- `INSERT`: a key that is there already raises
  unfoldable pub insert : K → V → Dict K V → Option (Dict K V)
  insert k v t = elim (Dict.get k t) as (λ _. Option (Dict K V)) [
    | none ↦ some (Dict.put k v t)
    | some old ↦ none
  ]

  -- `INSERT .. ON CONFLICT DO NOTHING`, of one row
  unfoldable pub insert_ignore : K → V → Dict K V → Dict K V
  insert_ignore k v t = elim (Dict.get k t) as (λ _. Dict K V) [
    | none ↦ Dict.put k v t
    | some old ↦ t
  ]

  -- `UPDATE .. WHERE key = k`
  unfoldable pub update : K → (V → V) → Dict K V → Dict K V
  update k f t = elim (Dict.get k t) as (λ _. Dict K V) [ none ↦ t | some v ↦ Dict.put k (f v) t ]

  -- a value that is there, or else one for the key `k`
  abbrev pub or_at : K → K → V → Option V → Option V
  or_at k j v (some old) = some old
  or_at k j v none = if e.beq k j then some v else none

  pub get-insert_ignore :
      (k j : K) (v : V) (t : Dict K V)
      → Dict.get j (insert_ignore k v t) ≡ or_at k j v (Dict.get j t)
  unfolding insert_ignore
  get-insert_ignore k j v t = elim (Option-cases (Dict.get k t)) [
    | inl fresh ↦
        rw (fresh, insert_ignore)
          (Dict.get-put k j v t ∙ (elim (Bool-cases (e.beq k j)) [
            | inl same ↦
                let there : Dict.get j t ≡ none = rw ((e.beq_iff k j).0 same) at fresh in
                rw (there, same) refl
            | inr other ↦ rw other (missing (Dict.get j t) other)
          ]))
    | inr (old, found) ↦ rw (found, insert_ignore) (kept old (Dict.get j t) found refl)
  ]
    where
      missing : (o : Option V) → e.beq k j ≡ false → o ≡ or_at k j v o
      missing none h = rw h refl
      missing (some x) h = refl

      kept :
          (old : V) (o : Option V) → Dict.get k t ≡ some old → Dict.get j t ≡ o → o ≡ or_at k j v o
      kept old (some x) h q = refl
      kept old none h q = elim (Bool-cases (e.beq k j)) [
        | inl same ↦ absurd (none_some (sym q ∙ (rw (← (e.beq_iff k j).0 same) h)))
        | inr other ↦ rw other refl
      ]
        where
          none_some : ◌≡◌ {A = Option V} none (some old) → ⊥
          none_some z = cc

-- `WHERE p`
unfoldable pub filter : {V : Type 0} → (V → Bool) → List V → List V
filter p [] = []
filter p (v ∷ vs) = let rest = filter p vs in if p v then v ∷ rest else rest

-- the rows of a table
unfoldable pub rows : {K V : Type 0} → Dict K V → List V
rows [] = []
rows ((k, v) ∷ t) = v ∷ rows t

-- `ORDER BY key DESC`; rows of one key stay as they were, which SQL leaves open
unfoldable pub insert_desc : {V : Type 0} → (V → ℕ) → V → List V → List V
insert_desc key v [] = v ∷ []
insert_desc key v (w ∷ ws) =
    let later = insert_desc key v ws in if leb (key w) (key v) then v ∷ w ∷ ws else w ∷ later

unfoldable pub order_desc : {V : Type 0} → (V → ℕ) → List V → List V
unfolding insert_desc
order_desc key [] = []
order_desc key (v ∷ vs) = insert_desc key v (order_desc key vs)
