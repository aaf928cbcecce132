-- ===== src/Evolution/Aligned.antt =====
-- The alignment that `align` returns is one of the two sequences, of the highest value.
use mathlib.Core.List.{reverse-reverse}
use sih_ulpf.Common.{◌+◌, List, reverse, length, arith}
use sih_ulpf.Common.Int.{◌≤ℤ◌}
use sih_ulpf.Models.{TokenType}
use sih_ulpf.Evolution.Align.{AlignedPosition, align_classes, trace, table, at_cell, class_at}
use sih_ulpf.Evolution.Optimal.{Backtrace, score, trace-Good, Backtrace-score-le}
use sih_ulpf.Evolution.Table.{table-Recurrence}

-- What `align` returns is an alignment: every token of both templates stands in exactly one
-- position, in order; and no alignment of the two has a higher value under `_cost` and the gap
-- penalty -1.
pub align_optimal :
    (as' bs : List TokenType)
    → Backtrace (length as') (length bs) (reverse (align_classes as' bs))
      × ((other : List AlignedPosition)
          → Backtrace (length as') (length bs) other
          → score (class_at as') (class_at bs) other
            ≤ℤ score (class_at as') (class_at bs) (reverse (align_classes as' bs)))
unfolding align_classes
align_optimal as' bs =
    let n = length as' in
    let m = length bs in
    let r = table-Recurrence as' bs in
    let (good, value) = trace-Good r (n + m) n m (omega arith) (omega arith) (omega arith) in
    rw (reverse-reverse (trace (at_cell (table as' bs)) (class_at as') (class_at bs) (n + m) n m))
      (good, λ other b. rw value (Backtrace-score-le r n m b (omega arith) (omega arith)))
