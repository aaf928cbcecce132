-- ===== src/Inference/Redacted.antt =====
-- What `infer` leaves of passwords, tokens and the like.
use mathlib.Core.Option
use sih_ulpf.Common.{
  ℕ, ◌≡◌, refl, sym, ◌∙◌, ap, ◌⊎◌, true, not, ◌&&◌, List, [], ◌∷◌, ◌++◌, Option, none, some,
  if◌then◌else◌, length, length-append, Bool-cases, inl, inr, arith,
}
use sih_ulpf.Common.Text.{Text, codes, text_eq}
use sih_ulpf.Common.Dict
use sih_ulpf.Common.Eq.{text_key}
use sih_ulpf.Models.{TokenType}
use sih_ulpf.Fingerprint.Unicode.{Unicode}
use sih_ulpf.Normalization.Tree.{Tree, string}
use sih_ulpf.Normalization.Body.{Fields}
use sih_ulpf.Timestamps.{Dates, Grammar, parse_timestamp}
use sih_ulpf.Structural.Severity.{Scalars}
use sih_ulpf.Inference.Observe.{Draft, Finders, infer_from_tokens, infer_kv, infer_users_from}
use sih_ulpf.Inference.Roles.{
  is_unset, is_private, redact, endpoint_roles, with_stamp, infer_time, infer_severity, finish,
  observed, infer,
}

abbrev pub redacted : Tree
redacted = string (codes "***REDACTED***")

module _ (u : Unicode) (str_of : Tree → Text) where
  -- what `_redact` makes of the value of a field
  abbrev hidden : Text → Tree → Tree
  hidden k v = if is_private u str_of k && not (is_unset v) then redacted else v

  get-redact :
      (k : Text) (f : Fields)
      → Dict.get k (redact u str_of f) ≡ Option.map (hidden k) (Dict.get k f)
  unfolding redact Dict.get
  get-redact k [] = refl
  get-redact k ((j, v) ∷ f) = elim (Bool-cases (text_eq j k)) [
    | inl same ↦ rw (same, (text_key.beq_iff j k).0 same) refl
    | inr other ↦ rw other (get-redact k f)
  ]

  hidden_value :
      (k : Text) (v : Tree)
      → is_private u str_of k ≡ true
      → (is_unset (hidden k v) ≡ true) ⊎ (hidden k v ≡ redacted)
  hidden_value k v secret = elim (Bool-cases (is_unset v)) [
    | inl unset ↦ rw (secret, unset) (inl unset)
    | inr set ↦ rw (secret, set) (inr refl)
  ]

  value_of_map :
      (k : Text) (v : Tree) (o : Option Tree)
      → is_private u str_of k ≡ true
      → Option.map (hidden k) o ≡ some v
      → (is_unset v ≡ true) ⊎ (v ≡ redacted)
  value_of_map k v none secret h = cc
  value_of_map k v (some w) secret h = rw (← some_inj h) (hidden_value k w secret)
    where
      some_inj : ◌≡◌ {A = Option Tree} (some (hidden k w)) (some v) → hidden k w ≡ v
      some_inj q = cc

module _ (u : Unicode) (dates : Dates) (sc : Scalars) (find : Finders) where
  users-errors :
      (pats : List (Text → Option Text)) (text : Text) (d : Draft)
      → (infer_users_from u find pats text d).errors ≡ d.errors
  unfolding infer_users_from
  users-errors [] text d = refl
  users-errors (pat ∷ pats) text d = ground (arith, users-errors pats text d)

  time-errors :
      (text : Text) (o : Option ℕ) (d : Draft)
      → (infer_time u dates sc find text o d).errors ≡ d.errors
  time-errors text none d = go (parse_timestamp dates text 96)
    where
      go : (o : Option (ℕ × (Grammar × Text))) → (with_stamp u dates sc find o d).errors ≡ d.errors
      go none = refl
      go (some s) = refl
  time-errors text (some t) d = refl

  severity-errors :
      (text : Text) (o : Option ℕ) (d : Draft)
      → (infer_severity u dates sc find text o d).errors ≡ d.errors
  severity-errors text none d = refl
  severity-errors text (some n) d = refl

  observed-errors :
      (text : Text) (toks : List Text) (classes : List TokenType) (d : Draft)
      → (observed u dates sc find text toks classes d).errors ≡ d.errors
  unfolding observed infer_from_tokens infer_kv
  observed-errors text toks classes d =
      severity-errors text _ _ ∙ time-errors text _ _ ∙ users-errors find.user_patterns text _

  abbrev Safe : Text → Fields → Type 0
  Safe k f = (v : Tree) → Dict.get k f ≡ some v → (is_unset v ≡ true) ⊎ (v ≡ redacted)

  longer : (es : List Text) (e : Text) → es ++ (e ∷ []) ≡ es → ⊥
  longer es e h = absurd (omega (arith, length-append {0} es (e ∷ []), ap length h))

  finish-Safe :
      (k : Text) (p : Fields × Option Text) (d : Draft)
      → is_private u sc.str_of k ≡ true
      → (finish u dates sc find p d).errors ≡ d.errors
      → Safe k (finish u dates sc find p d).fields
  finish-Safe k (f, none) d secret h v found =
      value_of_map u sc.str_of k v (Dict.get k f) secret (sym (get-redact u sc.str_of k f) ∙ found)
  finish-Safe k (f, some e) d secret h v found = absurd (longer d.errors _ h)

  -- Unless `infer` notes an error, a field whose lowered name ends like a password or a token is
  -- null, empty or redacted in its result, wherever the field came from.
  pub infer-redacts :
      (text : Text) (toks : List Text) (classes : List TokenType) (d : Draft) (k : Text) (v : Tree)
      → (infer u dates sc find text toks classes d).errors ≡ d.errors
      → is_private u sc.str_of k ≡ true
      → Dict.get k (infer u dates sc find text toks classes d).fields ≡ some v
      → (is_unset v ≡ true) ⊎ (v ≡ redacted)
  unfolding infer
  infer-redacts text toks classes d k v quiet secret found =
      let seen = observed u dates sc find text toks classes d in
      finish-Safe k (endpoint_roles u sc.str_of seen.fields) seen secret
        (quiet ∙ sym (observed-errors text toks classes d)) v found
