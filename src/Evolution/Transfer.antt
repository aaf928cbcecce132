-- ===== src/Evolution/Transfer.antt =====
-- `transfer_labels` of uli/drift/evolution.py, over the token classes, with the score as a fraction.
use sih_ulpf.Common.{
  ℕ, suc, List, [], ◌∷◌, Option, none, some, Bool, ◌||◌, if◌then◌else◌, length, ◌==◌,
}
use sih_ulpf.Common.Text.{Text}
use sih_ulpf.Common.Dict
use sih_ulpf.Common.Dict.{Dict}
use sih_ulpf.Common.Eq.{nat_eq}
use sih_ulpf.Models.{TokenType, type_eq}
use sih_ulpf.Evolution.Align.{AlignedPosition, in_compat, align_classes, class_at}

-- `a_cls[i] == b_cls[j] or (a_cls[i], b_cls[j]) in _COMPAT`
abbrev pub carries : TokenType → TokenType → Bool
carries a b = type_eq a b || in_compat a b

pub record Transfer : Type 0 where
  pub positions : Dict ℕ Text
  pub carried : ℕ

module _ (old_positions : Dict ℕ Text) (a b : ℕ → TokenType) where
  -- the body of the loop for a pair of indices
  unfoldable pub carry : ℕ → ℕ → Option Text → Transfer → Transfer
  unfolding in_compat
  carry i j none t = t
  carry i j (some name) t =
      if carries (a i) (b j)
      then record { positions = Dict.put j name t.positions; carried = suc t.carried }
      else t

  unfoldable pub carry_at : Option ℕ → Option ℕ → Transfer → Transfer
  unfolding carry
  carry_at (some i) (some j) t = carry i j (Dict.get i old_positions) t
  carry_at _ _ t = t

  unfoldable pub carry_all : List AlignedPosition → Transfer → Transfer
  unfolding carry_at
  carry_all [] t = t
  carry_all (p ∷ ps) t = carry_all ps (carry_at p.a_index p.b_index t)

-- `new_positions`, `carried`, and `len(old_positions) or 1`
unfoldable pub transfer_labels : List TokenType → Dict ℕ Text → List TokenType → Transfer × ℕ
unfolding carry_all align_classes
transfer_labels as' old_positions bs =
    let total = length old_positions in
    (
      carry_all old_positions (class_at as') (class_at bs) (align_classes as' bs)
          (record { positions = []; carried = 0 }),
      if total == 0 then 1 else total,
    )
