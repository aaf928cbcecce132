-- ===== src/Evolution/Table.antt =====
-- The table that `align` fills satisfies the Needleman-Wunsch recurrence.
use sih_ulpf.Common.{ℕ, zero, suc, ◌<◌, ◌≡◌, refl, List, [], ◌∷◌, arith, length, get_or}
use sih_ulpf.Common.Int.{ℤ, pos, ◌+ℤ◌, max_ℤ}
use sih_ulpf.Models.{TokenType}
use sih_ulpf.Evolution.Align.{
  cost, gap, first_row, fill_row, next_row, fill_rows, table, at_cell, class_at,
}
use sih_ulpf.Evolution.Optimal.{Recurrence}

first_row_step :
    (l : ℤ) (bs : List TokenType) (j : ℕ)
    → j < length bs
    → get_or (first_row l bs) j (pos 0) ≡ get_or (l ∷ first_row l bs) j (pos 0) +ℤ gap
unfolding first_row
first_row_step l [] j h = elim h [ ]
first_row_step l (b ∷ bs) zero h = refl
first_row_step l (b ∷ bs) (suc j) h = first_row_step (l +ℤ gap) bs j (omega arith)

length-first_row : (l : ℤ) (bs : List TokenType) → length (first_row l bs) ≡ length bs
unfolding first_row
length-first_row l [] = refl
length-first_row l (b ∷ bs) = omega (arith, length-first_row (l +ℤ gap) bs)

fill_row_step :
    (a : TokenType) (left : ℤ) (above : List ℤ) (bs : List TokenType) (j : ℕ)
    → length above ≡ suc (length bs)
    → j < length bs
    → get_or (fill_row a left above bs) j (pos 0)
      ≡ max_ℤ
          (max_ℤ
            (get_or above j (pos 0) +ℤ cost a (class_at bs j))
            (get_or above (suc j) (pos 0) +ℤ gap))
          (get_or (left ∷ fill_row a left above bs) j (pos 0) +ℤ gap)
unfolding fill_row
fill_row_step a left above [] j h hj = elim hj [ ]
fill_row_step a left [] (b ∷ bs) j h hj = absurd (omega arith)
fill_row_step a left (d ∷ []) (b ∷ bs) j h hj = absurd (omega arith)
fill_row_step a left (d ∷ u ∷ above) (b ∷ bs) zero h hj = refl
fill_row_step a left (d ∷ u ∷ above) (b ∷ bs) (suc j) h hj =
    fill_row_step a (max_ℤ (max_ℤ (d +ℤ cost a b) (u +ℤ gap)) (left +ℤ gap)) (u ∷ above) bs j
      (omega arith) (omega arith)

length-fill_row :
    (a : TokenType) (left : ℤ) (above : List ℤ) (bs : List TokenType)
    → length above ≡ suc (length bs)
    → length (fill_row a left above bs) ≡ length bs
unfolding fill_row
length-fill_row a left [] [] h = refl
length-fill_row a left (d ∷ []) [] h = refl
length-fill_row a left (d ∷ u ∷ above) [] h = refl
length-fill_row a left [] (b ∷ bs) h = absurd (omega arith)
length-fill_row a left (d ∷ []) (b ∷ bs) h = absurd (omega arith)
length-fill_row a left (d ∷ u ∷ above) (b ∷ bs) h = omega (
  arith,
  length-fill_row a (max_ℤ (max_ℤ (d +ℤ cost a b) (u +ℤ gap)) (left +ℤ gap)) (u ∷ above) bs
      (omega arith),
)

length-next_row :
    (a : TokenType) (above : List ℤ) (bs : List TokenType)
    → length above ≡ suc (length bs)
    → length (next_row a above bs) ≡ suc (length bs)
unfolding next_row
length-next_row a above bs h =
    omega (arith, length-fill_row a (get_or above 0 (pos 0) +ℤ gap) above bs h)

module _ (bs : List TokenType) where
  row_length :
      (above : List ℤ) (as' : List TokenType) (i : ℕ)
      → length above ≡ suc (length bs)
      → i < suc (length as')
      → length (get_or (fill_rows above as' bs) i []) ≡ suc (length bs)
  unfolding fill_rows
  row_length above [] zero h hi = h
  row_length above [] (suc i) h hi = absurd (omega arith)
  row_length above (a ∷ as') zero h hi = h
  row_length above (a ∷ as') (suc i) h hi =
      row_length (next_row a above bs) as' i (length-next_row a above bs h) (omega arith)

  first_of_rows :
      (above : List ℤ) (as' : List TokenType) → get_or (fill_rows above as' bs) 0 [] ≡ above
  unfolding fill_rows
  first_of_rows above [] = refl
  first_of_rows above (a ∷ as') = refl

  row_step :
      (above : List ℤ) (as' : List TokenType) (i : ℕ)
      → i < length as'
      → get_or (fill_rows above as' bs) (suc i) []
        ≡ next_row (class_at as' i) (get_or (fill_rows above as' bs) i []) bs
  unfolding fill_rows
  row_step above [] i hi = elim hi [ ]
  row_step above (a ∷ as') zero hi = first_of_rows (next_row a above bs) as'
  row_step above (a ∷ as') (suc i) hi = row_step (next_row a above bs) as' i (omega arith)

pub table-Recurrence :
    (as' bs : List TokenType)
    → Recurrence (at_cell (table as' bs)) (class_at as') (class_at bs) (length as') (length bs)
unfolding table next_row
table-Recurrence as' bs = record {
  origin = rw (first_of_rows bs (pos 0 ∷ first_row (pos 0) bs) as');
  top = λ j h.
      rw (first_of_rows bs (pos 0 ∷ first_row (pos 0) bs) as') (first_row_step (pos 0) bs j h);
  side = λ i h. rw (row_step bs (pos 0 ∷ first_row (pos 0) bs) as' i h);
  inner = λ i j hi hj. rw (row_step bs (pos 0 ∷ first_row (pos 0) bs) as' i hi) (
      fill_row_step (class_at as' i) _
        (get_or (fill_rows (pos 0 ∷ first_row (pos 0) bs) as' bs) i []) bs j
        (row_length bs (pos 0 ∷ first_row (pos 0) bs) as' i
          (omega (arith, length-first_row (pos 0) bs)) (omega arith))
        hj);
}
