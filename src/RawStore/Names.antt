-- ===== src/RawStore/Names.antt =====
-- The names of files with six digits sort as their numbers do.
use sih_ulpf.Common.{
  ℕ, zero, suc, ◌*◌, ◌/◌, ◌%◌, ◌+◌, ◌<◌, ◌≡◌, refl, ◌∙◌, Bool, true, false, ◌∷◌, arith, ◌⊎◌, inl,
  inr, not, ◌||◌,
}
use sih_ulpf.Common.Text.{Text}
use sih_ulpf.Common.Strings.{leb_text}
use sih_ulpf.RawStore.{padded, leading, suffix, name_text}

abbrev pow_10 : ℕ → ℕ
pow_10 zero = 1
pow_10 (suc k) = 10 * pow_10 k

head_same : (c : ℕ) (s t : Text) → leb_text (c ∷ s) (c ∷ t) ≡ leb_text s t
unfolding leb_text
head_same c s t = ground arith

-- a common beginning
padded_same : (k n : ℕ) (s t : Text) → leb_text (padded k n s) (padded k n t) ≡ leb_text s t
unfolding padded
padded_same zero n s t = refl
padded_same (suc k) n s t = padded_same k (n / 10) _ _ ∙ head_same (48 + n % 10) s t

-- `s` comes before `t`, and differs from it
abbrev Before : Text → Text → Type 0
Before s t = (leb_text s t ≡ true) × (leb_text t s ≡ false)

head-Before : (c d : ℕ) (s t : Text) → c < d → Before (c ∷ s) (d ∷ t)
unfolding leb_text
head-Before c d s t h = ground arith

next_digit :
    (n m : ℕ) → n < m → (n / 10 < m / 10) ⊎ ((n / 10 ≡ m / 10) × (48 + n % 10 < 48 + m % 10))
next_digit n m h = omega arith

tenth : (m p : ℕ) → m < 10 * p → m / 10 < p
tenth m p h = omega arith

padded-Before :
    (k n m : ℕ) (s t : Text) → n < m → m < pow_10 k → Before (padded k n s) (padded k m t)
unfolding padded
padded-Before zero n m s t h small = absurd (omega (arith, h, small))
padded-Before (suc k) n m s t h small = elim (next_digit n m h) [
  | inl lower ↦ padded-Before k (n / 10) (m / 10) _ _ lower (tenth m (pow_10 k) small)
  | inr (same, lower) ↦
      let (one, two) = head-Before (48 + n % 10) (48 + m % 10) s t lower in
      rw same (padded_same k (m / 10) _ _ ∙ one, padded_same k (m / 10) _ _ ∙ two)
]

no_more_digits : (fuel n : ℕ) (s : Text) → n < 1000000 → leading fuel (n / 1000000) s ≡ s
unfolding leading
no_more_digits zero n s small = refl
no_more_digits (suc fuel) n s small =
    let none_left : n / 1000000 ≡ 0 = omega arith in rw none_left refl

six : (p : ℕ × Bool) → p.0 < 1000000 → name_text p ≡ padded 6 p.0 (suffix p.1)
six (n, gz) small = no_more_digits n n _ small

pub name-Before : (p q : ℕ × Bool) → p.0 < q.0 → q.0 < 1000000 → Before (name_text p) (name_text q)
name-Before p q lower small =
    rw (six p (omega arith), six q small)
      (padded-Before 6 p.0 q.0 (suffix p.1) (suffix q.1) lower (omega arith))

-- of one number, the plain file comes before the compressed one
suffix_order : (a b : Bool) → leb_text (suffix a) (suffix b) ≡ (not a || b)
unfolding leb_text
suffix_order false false = refl
suffix_order false true = refl
suffix_order true false = refl
suffix_order true true = refl

pub name_same :
    (p q : ℕ × Bool)
    → p.0 ≡ q.0
    → q.0 < 1000000
    → leb_text (name_text p) (name_text q) ≡ (not p.1 || q.1)
name_same p q same small =
    rw (six p (omega arith), six q small, same)
      (padded_same 6 q.0 (suffix p.1) (suffix q.1) ∙ suffix_order p.1 q.1)
