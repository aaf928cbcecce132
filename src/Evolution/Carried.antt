-- ===== src/Evolution/Carried.antt =====
-- What `transfer_labels` carries over.
use sih_ulpf.Common.{
  ℕ, ◌≡◌, ◌≢◌, refl, sym, ◌∙◌, List, [], ◌∷◌, Option, none, some, true, Bool-cases, inl, inr,
}
use sih_ulpf.Common.Text.{Text}
use sih_ulpf.Common.Dict
use sih_ulpf.Common.Dict.{Dict}
use sih_ulpf.Common.Eq.{nat_eq}
use sih_ulpf.Models.{TokenType}
use sih_ulpf.Evolution.Align.{AlignedPosition, align_classes, class_at}
use sih_ulpf.Evolution.Transfer.{Transfer, carries, carry, carry_at, carry_all, transfer_labels}

module _ (old : Dict ℕ Text) (a b : ℕ → TokenType) where
  -- The label at new position j is that of an old position of a compatible class.
  pub record Carried (j : ℕ) (name : Text) : Type 0 where
    pub from : ℕ
    pub labelled : Dict.get from old ≡ some name
    pub compatible : carries (a from) (b j) ≡ true

  abbrev AllCarried : Transfer → Type 0
  AllCarried t = (j : ℕ) (name : Text) → Dict.get j t.positions ≡ some name → Carried j name

  carry-AllCarried :
      (i j : ℕ) (label : Option Text) (t : Transfer)
      → Dict.get i old ≡ label
      → AllCarried t
      → AllCarried (carry old a b i j label t)
  unfolding carry
  carry-AllCarried i j none t p h = h
  carry-AllCarried i j (some name) t p h = elim (Bool-cases (carries (a i) (b j))) [
    | inl e ↦ rw e (λ k label q. elim (Bool-cases (nat_eq.beq j k)) [
      | inl same ↦
          let at_j : j ≡ k = (nat_eq.beq_iff j k).0 same in
          let is_name : some name ≡ some label =
            sym (rw same at (Dict.get-put j k name t.positions)) ∙ q in
          record { from = i; labelled = p ∙ is_name; compatible = rw (← at_j) e }
      | inr other ↦ h k label (sym (rw other at (Dict.get-put j k name t.positions)) ∙ q)
    ])
    | inr e ↦ rw e h
  ]

  carry_at-AllCarried :
      (x y : Option ℕ) (t : Transfer) → AllCarried t → AllCarried (carry_at old a b x y t)
  unfolding carry_at
  carry_at-AllCarried (some i) (some j) t h = carry-AllCarried i j (Dict.get i old) t refl h
  carry_at-AllCarried (some i) none t h = h
  carry_at-AllCarried none y t h = h

  pub carry_all-AllCarried :
      (ps : List AlignedPosition) (t : Transfer)
      → AllCarried t
      → AllCarried (carry_all old a b ps t)
  unfolding carry_all
  carry_all-AllCarried [] t h = h
  carry_all-AllCarried (p ∷ ps) t h =
      carry_all-AllCarried ps (carry_at old a b p.a_index p.b_index t)
        (carry_at-AllCarried p.a_index p.b_index t h)

-- A label that `transfer_labels` gives to a new token is the label of an old token whose class is
-- the same or in `_COMPAT` with that of the new one.
pub transfer_labels-Carried :
    (as' : List TokenType) (old : Dict ℕ Text) (bs : List TokenType) (j : ℕ) (name : Text)
    → Dict.get j (transfer_labels as' old bs).0.positions ≡ some name
    → Carried old (class_at as') (class_at bs) j name
unfolding transfer_labels Dict.get
transfer_labels-Carried as' old bs j name h =
    carry_all-AllCarried old (class_at as') (class_at bs) (align_classes as' bs)
      (record { positions = []; carried = 0 }) (λ k label q. absurd (none_ne label q)) j name h
  where
    none_ne : (label : Text) → ◌≢◌ {A = Option Text} none (some label)
    none_ne label q = cc
