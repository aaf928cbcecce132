-- ===== src/Declarative/Kept.antt =====
-- What the mapping of a pack leaves as it was.
use mathlib.Core.Option
use sih_ulpf.Common.{
  ◌≡◌, refl, sym, ap, ◌∙◌, Bool, true, false, List, [], ◌∷◌, Option, none, some, Bool-cases, inl,
  inr,
}
use sih_ulpf.Common.Text.{Text, codes, starts_with, text_eq}
use sih_ulpf.Common.Dict
use sih_ulpf.Common.Eq.{text_key}
use sih_ulpf.Fingerprint.Unicode.{Unicode}
use sih_ulpf.Timestamps.{Dates}
use sih_ulpf.Structural.Severity.{Scalars}
use sih_ulpf.Declarative.Mapping.{
  Rule, Outcome, value, skipped, caught, uncaught, MapCalls, Mapped, target_key, rule_value,
  set_outcome, map_fields, set_message, apply_map,
}

-- a name that is no target's key
target-starts : (target : Text) → starts_with (target_key target) (codes "ocsf.") ≡ true
unfolding starts_with
target-starts target = refl

apart_target :
    (k target : Text)
    → starts_with k (codes "ocsf.") ≡ false
    → text_eq (target_key target) k ≡ false
apart_target k target h = elim (Bool-cases (text_eq (target_key target) k)) [
  | inl same ↦ absurd (differ ((text_key.beq_iff (target_key target) k).0 same))
  | inr other ↦ other
]
  where
    true_false : (b : Bool) → b ≡ true → b ≡ false → ⊥
    true_false b x y = cc

    differ : target_key target ≡ k → ⊥
    differ e = true_false (starts_with k (codes "ocsf.")) (rw e at (target-starts target)) h

none-some : (b : Mapped) → ◌≡◌ {A = Option Mapped} none (some b) → ⊥
none-some b e = cc

same_fields :
    (k : Text) (a b : Mapped)
    → ◌≡◌ {A = Option Mapped} (some a) (some b)
    → Dict.get k b.fields ≡ Dict.get k a.fields
same_fields k a b e = ap (λ (m : Mapped). Dict.get k m.fields) (sym inner)
  where
    inner : a ≡ b
    inner = cc

module _ (u : Unicode) (dates : Dates) (sc : Scalars) (calls : MapCalls) where
  set_outcome-keeps :
      (k target : Text) (o : Outcome) (ir out : Mapped)
      → starts_with k (codes "ocsf.") ≡ false
      → set_outcome u dates sc calls target o ir ≡ some out
      → Dict.get k out.fields ≡ Dict.get k ir.fields
  set_outcome-keeps k target (value v) ir out h e =
      same_fields k _ out e
      ∙ rw (Dict.get-put (target_key target) k v ir.fields, apart_target k target h) refl
  set_outcome-keeps k target skipped ir out h e = same_fields k _ out e
  set_outcome-keeps k target (caught x) ir out h e = same_fields k _ out e
  set_outcome-keeps k target uncaught ir out h e = cc

  map_fields-keeps :
      (k : Text) (rules : List (Text × Rule)) (ir out : Mapped)
      → starts_with k (codes "ocsf.") ≡ false
      → map_fields u dates sc calls rules ir ≡ some out
      → Dict.get k out.fields ≡ Dict.get k ir.fields
  unfolding map_fields Option.bind
  map_fields-keeps k [] ir out h e = same_fields k _ out e
  map_fields-keeps k ((target, rule) ∷ rules) ir out h e =
      after (λ mid b. map_fields-keeps k rules mid out h b)
        (set_outcome u dates sc calls target (rule_value u dates sc calls rule ir.fields) ir) refl e
    where
      after :
          ((mid : Mapped)
            → map_fields u dates sc calls rules mid ≡ some out
            → Dict.get k out.fields ≡ Dict.get k mid.fields)
          → (o : Option Mapped)
          → set_outcome u dates sc calls target (rule_value u dates sc calls rule ir.fields) ir ≡ o
          → Option.bind o (map_fields u dates sc calls rules) ≡ some out
          → Dict.get k out.fields ≡ Dict.get k ir.fields
      after later none q b = absurd (none-some out b)
      after later (some mid) q b =
          later mid b
          ∙ set_outcome-keeps k target (rule_value u dates sc calls rule ir.fields) ir mid h q

  set_message-keeps :
      (k : Text) (message_from : Option Text) (ir : Mapped)
      → Dict.get k (set_message u dates sc calls message_from ir).fields ≡ Dict.get k ir.fields
  set_message-keeps k none ir = refl
  set_message-keeps k (some []) ir = refl
  set_message-keeps k (some (c ∷ name)) ir = refl

  -- When the mapping of a pack does not raise, it changes no field but its targets under `ocsf.`: what
  -- the parser has extracted under any other name is there after it, with its value.
  pub apply_map-keeps :
      (k : Text) (rules : List (Text × Rule)) (message_from : Option Text) (ir out : Mapped)
      → starts_with k (codes "ocsf.") ≡ false
      → apply_map u dates sc calls rules message_from ir ≡ some out
      → Dict.get k out.fields ≡ Dict.get k ir.fields
  unfolding apply_map
  apply_map-keeps k rules message_from ir out h e =
      after (map_fields u dates sc calls rules ir) refl e
    where
      after :
          (o : Option Mapped)
          → map_fields u dates sc calls rules ir ≡ o
          → Option.map (set_message u dates sc calls message_from) o ≡ some out
          → Dict.get k out.fields ≡ Dict.get k ir.fields
      after none q b = absurd (none-some out b)
      after (some mid) q b =
          same_fields k _ out b
          ∙ (set_message-keeps k message_from mid ∙ map_fields-keeps k rules ir mid h q)
