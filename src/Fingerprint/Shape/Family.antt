-- ===== src/Fingerprint/Shape/Family.antt =====
-- `_family` forgets how many words stand in a run, and of which kind they are.
use sih_ulpf.Common.{
  ◌≡◌, refl, ap, true, List, [], ◌∷◌, ◌++◌, Option, none, some, Bool-cases, inl, inr, take,
}
use sih_ulpf.Common.Text.{Text, codes, text_eq, join}
use sih_ulpf.Fingerprint.Shape.{is_run_word, coarse, is_prev, collapse, family}

coarse_word : (p : Text) → is_run_word p ≡ true → coarse p ≡ codes "W"
coarse_word p h = rw h

module _ (p q r : Text) (hp : is_run_word p ≡ true) (hq : is_run_word q ≡ true)
    (hr : is_run_word r ≡ true) where
  collapse_run :
      (prev : Option Text) (before after : List Text)
      → collapse prev (before ++ (p ∷ q ∷ after)) ≡ collapse prev (before ++ (r ∷ after))
  unfolding collapse text_eq
  collapse_run prev [] after = elim (Bool-cases (is_prev prev (codes "W"))) [
    | inl e ↦ rw (coarse_word p hp, coarse_word q hq, coarse_word r hr, e) refl
    | inr e ↦ rw (coarse_word p hp, coarse_word q hq, coarse_word r hr, e) refl
  ]
  collapse_run prev (b ∷ before) after =
      rw (collapse_run prev before after, collapse_run (some (coarse b)) before after)

  -- Two adjacent parts of the kinds WORD, NUM, HEX and SEV count for the family as one of any of
  -- these kinds does, wherever they stand.
  pub family_run :
      (before after : List Text)
      → family (before ++ (p ∷ q ∷ after)) ≡ family (before ++ (r ∷ after))
  unfolding family
  family_run before after = ap (λ ps. join (32 ∷ []) (take 64 ps)) (collapse_run none before after)
