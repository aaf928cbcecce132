-- ===== src/Normalization/Secrets.antt =====
-- What a normalized event shows of passwords, tokens and the like, after the inference of fields.
use sih_ulpf.Common.{
  ℕ, ◌≡◌, refl, sym, ap, ◌∙◌, ◌⊎◌, true, List, [], ◌∷◌, Option, some, inl, inr, Bool, Bool-cases,
  false, not, ◌||◌,
}
use sih_ulpf.Common.Text.{Text, codes, starts_with}
use sih_ulpf.Common.Dict
use sih_ulpf.Common.Dict.{Dict, Distinct}
use sih_ulpf.Common.Eq.{text_key}
use sih_ulpf.Models.{TokenType, Value, Ir}
use sih_ulpf.Fingerprint.Unicode.{Unicode}
use sih_ulpf.Timestamps.{Dates}
use sih_ulpf.Structural.Severity.{Scalars}
use sih_ulpf.Inference.Observe.{Draft, Finders}
use sih_ulpf.Inference.Roles.{is_unset, is_private, infer}
use sih_ulpf.Inference.Redacted.{redacted, infer-redacts}
use sih_ulpf.Engine.Ladder.{Floats, ParseContext, Services, Settings, Engine}
use sih_ulpf.Engine.Fallback.{Call}
use sih_ulpf.Engine.Run.{finish}
use sih_ulpf.Engine.Fields.{finish-get}
use sih_ulpf.Normalization.Tree
use sih_ulpf.Normalization.Tree.{Tree, null, flag, int, float, string, array, object, of_value}
use sih_ulpf.Normalization.Body.{is_ocsf, is_kept, plain}
use sih_ulpf.Normalization.Normalize.{Builtins, Circumstances, field_trees, normalize}
use sih_ulpf.Normalization.Unmapped.{inside, get-field_trees, normalize_keeps}

module _ (str_of : Tree → Text) (k : Text) where
  unset-plain :
      (w : Tree) → is_unset w ≡ true → is_kept str_of k w ≡ true → plain str_of w ≡ string []
  unfolding is_kept
  unset-plain null h kept = cc
  unset-plain (flag b) h kept = cc
  unset-plain (int n) h kept = cc
  unset-plain (float b) h kept = cc
  unset-plain (string []) h kept = refl
  unset-plain (string (c ∷ s)) h kept = cc
  unset-plain (array vs) h kept = cc
  unset-plain (object m) h kept = cc

  -- what a private field becomes
  in_event :
      (w : Tree)
      → (is_unset w ≡ true) ⊎ (w ≡ redacted)
      → is_kept str_of k w ≡ true
      → (plain str_of w ≡ redacted) ⊎ (plain str_of w ≡ string [])
  in_event w (inl unset) kept = inr (unset-plain w unset kept)
  in_event w (inr same) kept = inl (rw same refl)

  in_event_at :
      (w : Tree) (o : Option Tree)
      → o ≡ some (plain str_of w)
      → (plain str_of w ≡ redacted) ⊎ (plain str_of w ≡ string [])
      → (o ≡ some redacted) ⊎ (o ≡ some (string []))
  in_event_at w o e (inl same) = inl (e ∙ ap (λ v. some v) same)
  in_event_at w o e (inr empty) = inr (e ∙ ap (λ v. some v) empty)

both_ways : (a b c : Bool) → b ≡ true → not (a || (b || c)) ≡ true → ⊥
both_ways true b c h k = cc
both_ways false true c h k = cc
both_ways false false c h k = cc

-- a field that is shown as one without a mapping has no reserved name
shown-plain :
    (str_of : Tree → Text) (k : Text) (w : Tree)
    → is_kept str_of k w ≡ true
    → starts_with k (codes "__") ≡ false
unfolding is_kept
shown-plain str_of k w kept = elim (Bool-cases (starts_with k (codes "__"))) [
  | inl own ↦ absurd (not_kept w own kept)
  | inr plain ↦ plain
]
  where
    not_kept : (w : Tree) → starts_with k (codes "__") ≡ true → is_kept str_of k w ≡ true → ⊥
    not_kept null own h = cc
    not_kept (flag b) own h = both_ways (is_ocsf k) (starts_with k (codes "__")) _ own h
    not_kept (int n) own h = both_ways (is_ocsf k) (starts_with k (codes "__")) _ own h
    not_kept (float f) own h = both_ways (is_ocsf k) (starts_with k (codes "__")) _ own h
    not_kept (string s) own h = both_ways (is_ocsf k) (starts_with k (codes "__")) _ own h
    not_kept (array a) own h = both_ways (is_ocsf k) (starts_with k (codes "__")) _ own h
    not_kept (object m) own h = both_ways (is_ocsf k) (starts_with k (codes "__")) _ own h

-- A field of a result of `run` whose lowered name ends like a password or a token stands in the
-- `unmapped` of the event that `normalize` makes of the result as `***REDACTED***` or as an empty
-- text, if it stands there as a field without a mapping at all: whatever the fallback and the sidecar
-- add behind `infer`, as long as `infer`, here the inference of the model, has noted no error.
pub normalize-redacts :
    {F P I S : Type 0} (num : Floats F) (srv : Services F P I S) (set : Settings F)
    (ctx : ParseContext) (call : Call) (latency : Value) (routed : Ir F) (e : Engine F P I S)
    (r : (ParseContext × Ir F) × Engine F P I S) (u : Unicode) (dates : Dates) (sc : Scalars)
    (find : Finders) (text : Text) (toks : List Text) (classes : List TokenType) (d : Draft)
    (b : Builtins F) (event_id : Text) (now : ℕ) (c : Circumstances) (k : Text) (v : Value)
    → finish num srv set ctx call latency (routed, e) ≡ some r
    → field_trees b.opened (srv.infer ctx routed).0.fields
      ≡ (infer u dates sc find text toks classes d).fields
    → (infer u dates sc find text toks classes d).errors ≡ d.errors
    → Distinct r.0.1.fields
    → is_private u sc.str_of k ≡ true
    → Dict.get k r.0.1.fields ≡ some v
    → is_kept b.str_of k (of_value b.opened v) ≡ true
    → (inside k (Tree.get (codes "unmapped") (normalize b event_id now r.0.1 c).ocsf)
        ≡ some redacted)
      ⊎ (inside k (Tree.get (codes "unmapped") (normalize b event_id now r.0.1 c).ocsf)
          ≡ some (string []))
normalize-redacts num srv set ctx call latency routed e r u dates sc find text toks classes d b
      event_id now c k v returned same quiet distinct secret found kept =
    let w = of_value b.opened v in
    let inferred = (srv.infer ctx routed).0.fields in
    let plain = shown-plain b.str_of k w kept in
    let found_before : Dict.get k inferred ≡ some v =
      sym (finish-get k plain num srv set ctx call latency routed e r returned) ∙ found in
    let there : Dict.get k (infer u dates sc find text toks classes d).fields ≡ some w =
      ap (Dict.get k) (sym same) ∙ (get-field_trees b.opened k inferred ∙ rw found_before refl) in
    in_event_at b.str_of k w _ (normalize_keeps b event_id now r.0.1 c k v distinct found kept) (
      in_event b.str_of k w
        (infer-redacts u dates sc find text toks classes d k w quiet secret there) kept)
