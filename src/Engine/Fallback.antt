-- ===== src/Engine/Fallback.antt =====
-- `_fallback` of uli/engine.py, tier by tier. The name of an exception's class is left out, but for
-- the one that the code itself causes.
use mathlib.Core.Option
use sih_ulpf.Common.{
  ℕ, Bool, false, ◌&&◌, not, [], ◌∷◌, ◌++◌, Option, none, some, ltb, ◌==◌, if◌then◌else◌,
}
use sih_ulpf.Common.Text.{Text, codes, text_eq, contains, join}
use sih_ulpf.Common.Dict
use sih_ulpf.Common.Dict.{Dict}
use sih_ulpf.Common.Eq.{text_key}
use sih_ulpf.Models.{Value, null, flag, int, string, nested, Ir}
use sih_ulpf.Engine.Breaker.{Outcome, Reply, object, other, classify_and_score}
use sih_ulpf.Engine.Ladder.{Floats, ParseContext, Parser, Mined, Services, Settings, Engine}

-- When the sidecar is asked, when the request is over, and what it does.
pub record Call : Type 0 where
  pub asked : ℕ
  pub over : ℕ
  pub outcome : Outcome

-- `if v:`; an empty list or object is `nested 0`
abbrev pub truthy : Value → Bool
truthy null = false
truthy (flag b) = b
truthy (int n) = not (n == 0)
truthy (string s) = not (text_eq s [])
truthy (nested n) = not (n == 0)

-- `d.setdefault(k, v)`
abbrev pub set_default : Text → Value → Dict Text Value → Dict Text Value
set_default k v d = elim (Dict.get k d) as (λ _. Dict Text Value) [
  | none ↦ Dict.put k v d
  | some old ↦ d
]

-- `d.update(new)`
unfoldable pub update : Dict Text Value → Dict Text Value → Dict Text Value
update d [] = d
update d ((k, v) ∷ new) = update (Dict.put k v d) new

-- `mine` of uli/parsers/templates.py, behind the miner
unfoldable pub set_template : {F : Type 0} → Option Mined → Ir F → Ir F
set_template none ir = record ir { errors = ir.errors ++ (codes "template_mining_error" ∷ []) }
set_template (some m) ir = record ir {
  template_id = some m.template_id;
  template = some m.template;
  params = m.params;
  fields =
      Dict.put (codes "__cluster_size") (int m.size)
        (Dict.put (codes "__template_change") m.change ir.fields);
}

-- `ir.message or ctx.text`
abbrev pub message_or : Text → Text → Text
message_or [] text = text
message_or message text = message

module _ {F : Type 0} (num : Floats F) where
  -- `max(a, b)`
  abbrev pub max_f : F → F → F
  max_f a b = if num.lt a b then b else a

  unfoldable pub tier_4 : F → Ir F → Ir F
  tier_4 tau ir =
      if num.lt ir.confidence tau && ltb 4 ir.tier
      then record ir {
        tier = 4;
        confidence = max_f ir.confidence (
            if contains (join (32 ∷ []) ir.errors) (codes "template_mining_error")
            then num.f_02
            else num.f_05);
        parser_id = codes "engine.drain3";
        parser_version = codes "1.0.0";
      }
      else ir

  -- The similar pack's own result. When it is the better one, `ir.__dict__` raises, since `IR` is a
  -- dataclass with slots, and the handler notes that.
  unfoldable pub adopt : F → Option (Ir F) → Ir F → Ir F
  adopt sim none ir = record ir { errors = ir.errors ++ (codes "similarity_candidate_error" ∷ []) }
  adopt sim (some candidate) ir =
      if num.lt ir.confidence (num.mul candidate.confidence sim)
      then record ir {
        errors = ir.errors ++ (codes "similarity_candidate_error:AttributeError" ∷ []);
      }
      else ir

  abbrev pub adopt_from : ParseContext → F → Option (Parser F) → Ir F → Ir F
  adopt_from ctx sim none ir = ir
  adopt_from ctx sim (some p) ir = adopt sim (p.parse ctx) ir

  unfoldable pub tier_5 :
      F → F → ParseContext → Dict Text (Parser F) → Option (Text × F) → Ir F → Ir F
  unfolding adopt
  tier_5 tau threshold ctx declarative none ir = ir
  tier_5 tau threshold ctx declarative (some (pid, sim)) ir =
      if num.lt ir.confidence tau && not (num.lt sim threshold)
      then adopt_from ctx sim (Dict.get pid declarative) ir
      else ir

  -- `ml_out["vendor_guess"]` as a field, when it is there and the confidence is low
  abbrev pub note_vendor : F → Option Value → Ir F → Ir F
  note_vendor tau none ir = ir
  note_vendor tau (some v) ir =
      if truthy v && num.lt ir.confidence tau
      then record ir { fields = set_default (codes "__ml_vendor_guess") v ir.fields }
      else ir

  -- `none` when it raises: `ir.ml.update` takes a list of pairs too, but `ml_out.get` does not exist
  -- on it, nor on a text, a number or a flag
  unfoldable pub tier_6 : F → Option Reply → Ir F → Option (Ir F)
  unfolding update
  tier_6 tau none ir = some ir
  tier_6 tau (some (object out)) ir =
      some (
        note_vendor tau (Dict.get (codes "vendor_guess") out) (record ir { ml = update ir.ml out }))
  tier_6 tau (some (other truthy)) ir = if truthy then none else some ir

  unfoldable pub tier_7 : F → Ir F → Ir F
  tier_7 tau ir =
      if num.lt ir.confidence tau
      then record ir {
        tier = if num.lt ir.confidence num.f_04 then 7 else ir.tier;
        parser_id =
            if text_eq ir.parser_id (codes "none") then codes "engine.quarantine" else ir.parser_id;
      }
      else ir

module _ {F P I S : Type 0} (num : Floats F) (srv : Services F P I S) (set : Settings F) where
  -- `none` when it raises; the state behind that is left out
  unfoldable pub fallback :
      ParseContext → Call → Ir F → Engine F P I S → Option (Ir F × Engine F P I S)
  unfolding set_template tier_4 tier_5 tier_6 tier_7
  fallback ctx c ir e =
      let (templates, mined) = srv.mine e.templates ctx (message_or ir.message ctx.text) in
      let ir4 = tier_4 num set.tau_known (set_template mined ir) in
      let ir5 =
        tier_5 num set.tau_known set.similarity_threshold ctx e.declarative
          (srv.best_match e.similarity ctx.shape_of.shape) ir4 in
      let (ml, out) = classify_and_score set.breaker c.asked c.over c.outcome e.ml in
      Option.map
        (λ ir6. (tier_7 num set.tau_known ir6, record e { templates = templates; ml = ml }))
        (tier_6 num set.tau_known out ir5)
