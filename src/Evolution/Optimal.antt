-- ===== src/Evolution/Optimal.antt =====
-- The traceback over a table that satisfies the Needleman-Wunsch recurrence.
use sih_ulpf.Common.{
  ℕ, zero, suc, ◌+◌, ◌≤◌, ◌<◌, ◌≡◌, sym, List, [], ◌∷◌, Option, none, some, true, false, arith,
  Bool-cases, inl, inr, ◌⊎◌,
}
use sih_ulpf.Common.Int.{ℤ, pos, ◌+ℤ◌, ◌≤ℤ◌, max_ℤ, eqb_ℤ, eqb_ℤ→eq, +ℤ_mono_left}
use sih_ulpf.Models.{TokenType}
use sih_ulpf.Evolution.Align.{AlignedPosition, cost, gap, trace}

-- An alignment of the first i tokens of one sequence with the first j of the other, read from its
-- end: every token of both stands in exactly one position, in order.
pub data Backtrace : ℕ → ℕ → List AlignedPosition → Type 0 where
  done : Backtrace zero zero []
  pair :
      {i j : ℕ} {out : List AlignedPosition}
      → Backtrace i j out
      → Backtrace (suc i) (suc j) (record { a_index = some i; b_index = some j } ∷ out)
  skip_a :
      {i j : ℕ} {out : List AlignedPosition}
      → Backtrace i j out
      → Backtrace (suc i) j (record { a_index = some i; b_index = none } ∷ out)
  skip_b :
      {i j : ℕ} {out : List AlignedPosition}
      → Backtrace i j out
      → Backtrace i (suc j) (record { a_index = none; b_index = some j } ∷ out)

abbrev cell_score : (ℕ → TokenType) → (ℕ → TokenType) → Option ℕ → Option ℕ → ℤ
cell_score a b (some i) (some j) = cost (a i) (b j)
cell_score a b _ _ = gap

-- The value of an alignment: the costs of its pairs, and the penalty for every gap.
pub score : (ℕ → TokenType) → (ℕ → TokenType) → List AlignedPosition → ℤ
score a b [] = pos 0
score a b (p ∷ out) = score a b out +ℤ cell_score a b p.a_index p.b_index

pub record Recurrence (dp : ℕ → ℕ → ℤ) (a b : ℕ → TokenType) (n m : ℕ) : Type 0 where
  pub origin : dp 0 0 ≡ pos 0
  pub top : (j : ℕ) → j < m → dp 0 (suc j) ≡ dp 0 j +ℤ gap
  pub side : (i : ℕ) → i < n → dp (suc i) 0 ≡ dp i 0 +ℤ gap
  pub inner :
      (i j : ℕ)
      → i < n
      → j < m
      → dp (suc i) (suc j)
        ≡ max_ℤ (max_ℤ (dp i j +ℤ cost (a i) (b j)) (dp i (suc j) +ℤ gap)) (dp (suc i) j +ℤ gap)

max_cases :
    (x y z : ℤ)
    → (max_ℤ (max_ℤ x y) z ≡ x) ⊎ ((max_ℤ (max_ℤ x y) z ≡ y) ⊎ (max_ℤ (max_ℤ x y) z ≡ z))
unfolding max_ℤ
max_cases x y z = ground arith

max_bounds :
    (x y z : ℤ)
    → (x ≤ℤ max_ℤ (max_ℤ x y) z) × (y ≤ℤ max_ℤ (max_ℤ x y) z) × (z ≤ℤ max_ℤ (max_ℤ x y) z)
unfolding max_ℤ
max_bounds x y z = ground arith

le_by_step : (x y c z : ℤ) → x ≤ℤ y → (y +ℤ c) ≤ℤ z → (x +ℤ c) ≤ℤ z
le_by_step x y c z h k = omega (arith, +ℤ_mono_left x y c h)

eqb_refl : (x y : ℤ) → x ≡ y → eqb_ℤ x y ≡ true
eqb_refl x y h = ground arith

module _ {dp : ℕ → ℕ → ℤ} {a b : ℕ → TokenType} {n m : ℕ} (r : Recurrence dp a b n m) where
  abbrev Good : ℕ → ℕ → List AlignedPosition → Type 0
  Good i j out = Backtrace i j out × (score a b out ≡ dp i j)

  -- what the `else` branch of the loop knows
  left_of_inner :
      (i j : ℕ)
      → i < n
      → j < m
      → eqb_ℤ (dp (suc i) (suc j)) (dp i j +ℤ cost (a i) (b j)) ≡ false
      → eqb_ℤ (dp (suc i) (suc j)) (dp i (suc j) +ℤ gap) ≡ false
      → dp (suc i) j +ℤ gap ≡ dp (suc i) (suc j)
  left_of_inner i j hi hj e1 e2 = ground (
    arith,
    r.inner i j hi hj,
    max_cases (dp i j +ℤ cost (a i) (b j)) (dp i (suc j) +ℤ gap) (dp (suc i) j +ℤ gap),
    eqb_refl (dp (suc i) (suc j)) (dp i j +ℤ cost (a i) (b j)),
    eqb_refl (dp (suc i) (suc j)) (dp i (suc j) +ℤ gap),
  )

  pub trace-Good : (fuel i j : ℕ) → i ≤ n → j ≤ m → i + j ≤ fuel → Good i j (trace dp a b fuel i j)
  unfolding trace score
  trace-Good zero zero zero hi hj hf = (done, sym r.origin)
  trace-Good zero zero (suc j) hi hj hf = absurd (omega arith)
  trace-Good zero (suc i) j hi hj hf = absurd (omega arith)
  trace-Good (suc fuel) zero zero hi hj hf = (done, sym r.origin)
  trace-Good (suc fuel) zero (suc j) hi hj hf =
      let (t, e) = trace-Good fuel zero j hi (omega arith) (omega arith) in
      (skip_b t, cc (e, r.top j (omega arith)))
  trace-Good (suc fuel) (suc i) zero hi hj hf =
      let (t, e) = trace-Good fuel i zero (omega arith) hj (omega arith) in
      rw (eqb_refl (dp (suc i) zero) (dp i zero +ℤ gap) (r.side i (omega arith)))
        (skip_a t, cc (e, r.side i (omega arith)))
  trace-Good (suc fuel) (suc i) (suc j) hi hj hf =
      elim (Bool-cases (eqb_ℤ (dp (suc i) (suc j)) (dp i j +ℤ cost (a i) (b j)))) [
        | inl e1 ↦
            let (t, e) = trace-Good fuel i j (omega arith) (omega arith) (omega arith) in
            rw e1 (pair t, cc (e, eqb_ℤ→eq (dp (suc i) (suc j)) (dp i j +ℤ cost (a i) (b j)) e1))
        | inr e1 ↦ rw e1 (elim (Bool-cases (eqb_ℤ (dp (suc i) (suc j)) (dp i (suc j) +ℤ gap))) [
          | inl e2 ↦
              let (t, e) = trace-Good fuel i (suc j) (omega arith) hj (omega arith) in
              rw e2 (skip_a t, cc (e, eqb_ℤ→eq (dp (suc i) (suc j)) (dp i (suc j) +ℤ gap) e2))
          | inr e2 ↦
              let (t, e) = trace-Good fuel (suc i) j hi (omega arith) (omega arith) in
              rw e2 (skip_b t, cc (e, left_of_inner i j (omega arith) (omega arith) e1 e2))
        ])
      ]

  -- what `max` gives in an inner cell
  inner_bounds :
      (i j : ℕ)
      → i < n
      → j < m
      → ((dp i j +ℤ cost (a i) (b j)) ≤ℤ dp (suc i) (suc j))
        × ((dp i (suc j) +ℤ gap) ≤ℤ dp (suc i) (suc j))
        × ((dp (suc i) j +ℤ gap) ≤ℤ dp (suc i) (suc j))
  inner_bounds i j hi hj = rw (r.inner i j hi hj) (max_bounds _ _ _)

  -- No alignment of the two prefixes has a higher value than the cell.
  pub Backtrace-score-le :
      (i j : ℕ) {out : List AlignedPosition}
      → Backtrace i j out
      → i ≤ n
      → j ≤ m
      → score a b out ≤ℤ dp i j
  unfolding score
  Backtrace-score-le _ _ done hi hj = rw r.origin (omega arith)
  Backtrace-score-le _ _ (pair {i = i} {j = j} {out = out} t) hi hj =
      le_by_step (score a b out) (dp i j) (cost (a i) (b j)) (dp (suc i) (suc j))
        (Backtrace-score-le i j t (omega arith) (omega arith))
        (inner_bounds i j (omega arith) (omega arith)).0
  Backtrace-score-le _ _ (skip_a {i = i} {j = zero} {out = out} t) hi hj =
      rw (r.side i (omega arith)) (
        +ℤ_mono_left (score a b out) (dp i zero) gap
          (Backtrace-score-le i zero t (omega arith) (omega arith)))
  Backtrace-score-le _ _ (skip_a {i = i} {j = suc j} {out = out} t) hi hj =
      le_by_step (score a b out) (dp i (suc j)) gap (dp (suc i) (suc j))
        (Backtrace-score-le i (suc j) t (omega arith) (omega arith))
        (inner_bounds i j (omega arith) (omega arith)).1
  Backtrace-score-le _ _ (skip_b {i = zero} {j = j} {out = out} t) hi hj =
      rw (r.top j (omega arith)) (
        +ℤ_mono_left (score a b out) (dp zero j) gap
          (Backtrace-score-le zero j t (omega arith) (omega arith)))
  Backtrace-score-le _ _ (skip_b {i = suc i} {j = j} {out = out} t) hi hj =
      le_by_step (score a b out) (dp (suc i) j) gap (dp (suc i) (suc j))
        (Backtrace-score-le (suc i) j t (omega arith) (omega arith))
        (inner_bounds i j (omega arith) (omega arith)).2
