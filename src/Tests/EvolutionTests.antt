-- ===== src/Tests/EvolutionTests.antt =====
-- Runs of `align` and `transfer_labels`.
use sih_ulpf.Common.{◌≡◌, refl, List, [], ◌∷◌, reverse}
use sih_ulpf.Common.Int.{◌≤ℤ◌, max_ℤ, ◌+ℤ◌}
use sih_ulpf.Common.Text.{codes}
use sih_ulpf.Common.Dict
use sih_ulpf.Common.Eq.{nat_eq}
use sih_ulpf.Models.{TokenType, word, num, ip4, hex, ts}
use sih_ulpf.Evolution.Align.{
  AlignedPosition, align_classes, class_at, table, trace, first_row, fill_row, next_row, fill_rows,
  cost, in_compat,
}
use sih_ulpf.Evolution.Optimal.{Backtrace, score}
use sih_ulpf.Evolution.Aligned.{align_optimal}
use sih_ulpf.Evolution.Transfer.{transfer_labels, carry, carry_at, carry_all}
use sih_ulpf.Evolution.Carried.{Carried, transfer_labels-Carried}

abbrev old_classes : List TokenType
old_classes = ts ∷ word ∷ num ∷ []

abbrev new_classes : List TokenType
new_classes = ts ∷ ip4 ∷ word ∷ hex ∷ []

align_optimal_example :
    Backtrace 3 4 (reverse (align_classes old_classes new_classes))
    × ((other : List AlignedPosition)
        → Backtrace 3 4 other
        → score (class_at old_classes) (class_at new_classes) other
          ≤ℤ score
              (class_at old_classes)
              (class_at new_classes)
              (reverse (align_classes old_classes new_classes)))
align_optimal_example = align_optimal old_classes new_classes

-- The label of the number moves from position 2 to position 3.
transfer_example :
    (transfer_labels old_classes ((2, codes "port") ∷ []) new_classes).0.positions
    ≡ (3, codes "port") ∷ []
unfolding transfer_labels Dict.get Dict.put align_classes table trace first_row fill_row next_row
    fill_rows cost in_compat carry carry_at carry_all max_ℤ ◌+ℤ◌
transfer_example = refl

transfer_labels-Carried_example :
    Carried ((2, codes "port") ∷ []) (class_at old_classes) (class_at new_classes) 3 (codes "port")
unfolding transfer_labels Dict.get Dict.put align_classes table trace first_row fill_row next_row
    fill_rows cost in_compat carry carry_at carry_all max_ℤ ◌+ℤ◌
transfer_labels-Carried_example =
    transfer_labels-Carried old_classes ((2, codes "port") ∷ []) new_classes 3 (codes "port") refl
