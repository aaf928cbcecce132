-- ===== src/Declarative/Required.antt =====
-- What the required signatures of a pack decide.
use sih_ulpf.Common.{
  ℕ, zero, suc, ◌≡◌, ◌≢◌, refl, Bool, true, false, not, ◌&&◌, ◌||◌, List, [], ◌∷◌, Option, none,
  some, get_elem?, Bool-cases, inl, inr, arith,
}
use sih_ulpf.Fingerprint.Unicode.{Unicode}
use sih_ulpf.Declarative.Signatures.{
  Signature, Sight, SigCalls, sig_ok, required_hold, pack_can_parse,
}

module _ {F : Type 0} (u : Unicode) (calls : SigCalls F) where
  both : (a b : Bool) → (a && b) ≡ true → (a ≡ true) × (b ≡ true)
  both true b h = (refl, h)
  both false b h = cc

  second : (a b : Bool) → (not a || b) ≡ true → a ≡ true → b ≡ true
  second a b h k = ground arith

  no_signature : (s : Signature) → ◌≡◌ {A = Option Signature} none (some s) → ⊥
  no_signature s h = cc

  some_inj : (s t : Signature) → ◌≡◌ {A = Option Signature} (some s) (some t) → s ≡ t
  some_inj s t h = cc

  required_holds :
      (sigs : List Signature) (x : Sight) (i : ℕ) (s : Signature)
      → required_hold u calls sigs x ≡ true
      → get_elem? sigs i ≡ some s
      → s.required ≡ true
      → sig_ok u calls s.kind x ≡ true
  unfolding required_hold
  required_holds [] x i s h e r = absurd (no_signature s e)
  required_holds (t ∷ sigs) x zero s h e r =
      let same = some_inj t s e in
      rw (← same) (
        second t.required (sig_ok u calls t.kind x) (both _ (required_hold u calls sigs x) h).0
          (rw (← same) at r))
  required_holds (t ∷ sigs) x (suc i) s h e r =
      required_holds sigs x i s (both _ (required_hold u calls sigs x) h).1 e r

  all_hold :
      (sigs : List Signature) (base : F) (x : Sight)
      → pack_can_parse u calls sigs base x ≢ calls.pct 0
      → required_hold u calls sigs x ≡ true
  unfolding pack_can_parse
  all_hold sigs base x h = elim (Bool-cases (required_hold u calls sigs x)) [
    | inl yes_all ↦ yes_all
    | inr failed ↦ absurd (h (rw failed refl))
  ]

  -- A pack whose `can_parse` is not 0 on a line has no required signature that fails on it, whatever
  -- the other signatures score.
  pub pack_can_parse-required :
      (sigs : List Signature) (base : F) (x : Sight) (i : ℕ) (s : Signature)
      → pack_can_parse u calls sigs base x ≢ calls.pct 0
      → get_elem? sigs i ≡ some s
      → s.required ≡ true
      → sig_ok u calls s.kind x ≡ true
  pack_can_parse-required sigs base x i s h e r =
      required_holds sigs x i s (all_hold sigs base x h) e r
