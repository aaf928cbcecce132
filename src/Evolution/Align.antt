-- ===== src/Evolution/Align.antt =====
-- `_cost` and `align` of uli/drift/evolution.py, over the token classes of the two templates.
use sih_ulpf.Common.{
  ℕ, zero, suc, List, [], ◌∷◌, Option, none, some, Bool, true, false, if◌then◌else◌, get_or, length,
  reverse, ◌+◌,
}
use sih_ulpf.Common.Int.{ℤ, pos, negsuc, ◌+ℤ◌, max_ℤ, eqb_ℤ}
use sih_ulpf.Models.{TokenType, punct, num, hex, port, word, host, type_eq}

-- membership in `_COMPAT`
unfoldable pub in_compat : TokenType → TokenType → Bool
in_compat num port = true
in_compat port num = true
in_compat word host = true
in_compat host word = true
in_compat num hex = true
in_compat hex num = true
in_compat _ _ = false

unfoldable pub cost : TokenType → TokenType → ℤ
unfolding in_compat
cost a b = if type_eq a b then pos 2 else if in_compat a b then pos 1 else negsuc 1

abbrev pub gap : ℤ
gap = negsuc 0

pub record AlignedPosition : Type 0 where
  pub a_index : Option ℕ
  pub b_index : Option ℕ

-- The columns 1 .. m of row 0, from the cell on their left.
unfoldable pub first_row : ℤ → List TokenType → List ℤ
first_row left [] = []
first_row left (b ∷ bs) = let cell = left +ℤ gap in cell ∷ first_row cell bs

-- The columns 1 .. m of a row, from the cell on the left and the row above from its column j - 1.
unfoldable pub fill_row : TokenType → ℤ → List ℤ → List TokenType → List ℤ
fill_row a left (diag ∷ up ∷ above) (b ∷ bs) =
    let cell = max_ℤ (max_ℤ (diag +ℤ cost a b) (up +ℤ gap)) (left +ℤ gap) in
    cell ∷ fill_row a cell (up ∷ above) bs
fill_row a left _ _ = []

unfoldable pub next_row : TokenType → List ℤ → List TokenType → List ℤ
next_row a above bs = let first = get_or above 0 (pos 0) +ℤ gap in first ∷ fill_row a first above bs

unfoldable pub fill_rows : List ℤ → List TokenType → List TokenType → List (List ℤ)
fill_rows above [] bs = above ∷ []
fill_rows above (a ∷ as') bs = above ∷ fill_rows (next_row a above bs) as' bs

-- `dp`
unfoldable pub table : List TokenType → List TokenType → List (List ℤ)
unfolding first_row fill_row next_row fill_rows
table as' bs = fill_rows (pos 0 ∷ first_row (pos 0) bs) as' bs

-- `dp[i][j]`
abbrev pub at_cell : List (List ℤ) → ℕ → ℕ → ℤ
at_cell dp i j = get_or (get_or dp i []) j (pos 0)

-- `a_cls[i]`
abbrev pub class_at : List TokenType → ℕ → TokenType
class_at xs i = get_or xs i punct

-- The `while i > 0 or j > 0` loop, in the order in which it appends. A round lowers `i + j`, so
-- `i + j` rounds are enough (`align_optimal`).
module _ (dp : ℕ → ℕ → ℤ) (a b : ℕ → TokenType) where
  unfoldable pub trace : ℕ → ℕ → ℕ → List AlignedPosition
  trace zero i j = []
  trace (suc fuel) zero zero = []
  trace (suc fuel) zero (suc j) = record { a_index = none; b_index = some j } ∷ trace fuel zero j
  trace (suc fuel) (suc i) zero =
      let up = record { a_index = some i; b_index = none } ∷ trace fuel i zero in
      let left = record { a_index = none; b_index = none } ∷ trace fuel (suc i) zero in
      if eqb_ℤ (dp (suc i) zero) (dp i zero +ℤ gap) then up else left
  trace (suc fuel) (suc i) (suc j) =
      let both = record { a_index = some i; b_index = some j } ∷ trace fuel i j in
      let up = record { a_index = some i; b_index = none } ∷ trace fuel i (suc j) in
      let left = record { a_index = none; b_index = some j } ∷ trace fuel (suc i) j in
      if eqb_ℤ (dp (suc i) (suc j)) (dp i j +ℤ cost (a i) (b j))
      then both
      else if eqb_ℤ (dp (suc i) (suc j)) (dp i (suc j) +ℤ gap)
      then up
      else left

-- `align`, over the classes of the two token lists
unfoldable pub align_classes : List TokenType → List TokenType → List AlignedPosition
unfolding table trace
align_classes as' bs =
    let n = length as' in
    let m = length bs in
    reverse (trace (at_cell (table as' bs)) (class_at as') (class_at bs) (n + m) n m)
