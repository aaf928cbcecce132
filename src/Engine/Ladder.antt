-- ===== src/Engine/Ladder.antt =====
-- `run`, `_route` and `_fallback` of uli/engine.py.
use mathlib.Core.Option
use sih_ulpf.Common.{
  ℕ, ◌+◌, ◌-◌, Bool, true, false, ◌&&◌, not, List, [], ◌∷◌, ◌++◌, Option, none, some, leb, ltb,
  if◌then◌else◌, map,
}
use sih_ulpf.Common.Text.{Text, codes, text_eq}
use sih_ulpf.Common.Dict
use sih_ulpf.Common.Dict.{Dict}
use sih_ulpf.Common.Eq.{text_key}
use sih_ulpf.Models.{Bytes, Value, Ir, new_ir}
use sih_ulpf.Fingerprint.Shape.{Fingerprint}
use sih_ulpf.Engine.Breaker.{BreakerSettings, Breaker}

-- What the engine uses of Python's floats.
pub record Floats (F : Type 0) : Type 0 where
  pub lt : F → F → Bool
  pub mul : F → F → F
  pub zero_f : F
  pub f_02 : F
  pub f_04 : F
  pub f_05 : F

-- `ParseContext`
pub record ParseContext : Type 0 where
  pub raw : Bytes
  pub text : Text
  pub shape_of : Fingerprint
  pub tenant_id : Text
  pub source_id : Text
  pub transport : Text
  pub hints : List (Text × Value)
  pub truncated : Bool

-- `Parser` of uli/parsers/base.py. `none` is an exception.
pub record Parser (F : Type 0) : Type 0 where
  pub id : Text
  pub version : Text
  pub can_parse : ParseContext → Option F
  pub parse : ParseContext → Option (Ir F)

-- What `mine` of the template pool sets: id and text of the template, its parameters, the change
-- and the size of its cluster.
pub record Mined : Type 0 where
  pub template_id : Text
  pub template : Text
  pub params : List Text
  pub change : Value
  pub size : ℕ

-- The other components: the template pool (state `P`), the similarity index (`I`) and the storage
-- (`S`), whose `upsert_fingerprint` may raise, and the field inference, which changes the result and
-- says whether it raised.
pub record Services (F P I S : Type 0) : Type 0 where
  pub mine : P → ParseContext → Text → P × Option Mined
  pub best_match : I → Text → Option (Text × F)
  pub add_reference : Text → Text → I → I
  pub upsert_fingerprint : Text → Text → Text → Text → S → Option S
  pub infer : ParseContext → Ir F → Ir F × Bool

pub record Settings (F : Type 0) : Type 0 where
  pub tau_known : F
  pub similarity_threshold : F
  pub max_line_bytes : ℕ
  pub breaker : BreakerSettings

pub record Engine (F P I S : Type 0) : Type 0 where
  pub declarative : Dict Text (Parser F)
  pub routing_cache : Dict Text Text
  pub templates : P
  pub similarity : I
  pub ml : Breaker
  pub storage : S

-- The bytes of a code point in UTF-8; a surrogate is replaced by one byte.
unfoldable pub utf8_len : ℕ → ℕ
utf8_len c =
    if ltb c 128
    then 1
    else if ltb c 2048
    then 2
    else if leb 55296 c && leb c 57343
    then 1
    else if ltb c 65536
    then 3
    else 4

unfoldable pub bytes_of : Text → ℕ
unfolding utf8_len
bytes_of [] = 0
bytes_of (c ∷ s) = utf8_len c + bytes_of s

-- The whole characters in the first `n` bytes of the encoded text.
unfoldable pub cut : ℕ → Text → Text
unfolding utf8_len
cut n [] = []
cut n (c ∷ s) =
    let rest = cut (n - utf8_len c) s in
    if leb (utf8_len c) n then (if leb 55296 c && leb c 57343 then b'?' else c) ∷ rest else []

-- `text` and `truncated`
unfoldable pub clip : ℕ → Text → Text × Bool
unfolding bytes_of cut
clip limit text = if ltb limit (bytes_of text) then (cut limit text, true) else (text, false)

abbrev pub or_else : {A : Type 0} → Option A → Option A → Option A
or_else (some x) y = some x
or_else none y = y

module _ {F : Type 0} (num : Floats F) where
  -- the loop over the candidates, with the best parser so far and its score
  unfoldable pub best_of :
      ParseContext → List (Parser F) → Option (Parser F) → F → Option (Parser F) × F
  best_of ctx [] best score = (best, score)
  best_of ctx (p ∷ ps) best score =
      let own = Option.get_or (p.can_parse ctx) num.zero_f in
      let better = best_of ctx ps (some p) own in
      let same = best_of ctx ps best score in if num.lt score own then better else same

-- `next((s for s in self.structural if s.id == cached), None)`
unfoldable pub find_parser : {F : Type 0} → Text → List (Parser F) → Option (Parser F)
find_parser id [] = none
find_parser id (p ∷ ps) = let rest = find_parser id ps in if text_eq p.id id then some p else rest

abbrev pub all_parsers : {F : Type 0} → Dict Text (Parser F) → List (Parser F) → List (Parser F)
all_parsers declarative structural = map (λ kp. kp.1) declarative ++ structural

abbrev pub one_or : {F : Type 0} → Option (Parser F) → List (Parser F) → List (Parser F)
one_or (some p) all = p ∷ []
one_or none all = all

module _ {F P I S : Type 0} (num : Floats F) (srv : Services F P I S) (set : Settings F) where
  -- the parsers that `_route` asks
  unfoldable pub candidates : List (Parser F) → Text → Engine F P I S → List (Parser F)
  unfolding find_parser
  candidates structural shape_hash e =
      let all = all_parsers e.declarative structural in
      elim (Dict.get shape_hash e.routing_cache) as (λ _. List (Parser F)) [
        | none ↦ all
        | some cached ↦
            if text_eq cached []
            then all
            else one_or (or_else (Dict.get cached e.declarative) (find_parser cached structural))
                all
      ]

  -- `_route` behind a parser that has returned: the result is noted only if it is good enough.
  -- A storage is taken to be there; with `none` it has raised, and `run` with it.
  unfoldable pub note_route :
      ParseContext → Text → Ir F → Engine F P I S → Option (Ir F × Engine F P I S)
  note_route ctx id ir e =
      let fp = ctx.shape_of in
      if not (num.lt ir.confidence set.tau_known)
      then Option.map
          (λ s. (
            ir,
            record e {
              routing_cache = Dict.put fp.shape_hash id e.routing_cache;
              storage = s;
              similarity = srv.add_reference id fp.shape e.similarity;
            },
          ))
          (srv.upsert_fingerprint fp.shape_hash fp.family_hash fp.shape id e.storage)
      else some (ir, e)

  -- `_route` behind the choice of a parser; the name of an exception's class is left out
  unfoldable pub parse_with :
      ParseContext → Option (Parser F) × F → Engine F P I S → Option (Ir F × Engine F P I S)
  unfolding note_route
  parse_with ctx (none, score) e =
      some
        (new_ir ctx.text 7 num.zero_f (codes "none") (codes "0") (codes "no_tier1_2_match" ∷ []), e)
  parse_with ctx (some p, score) e =
      if not (num.lt num.zero_f score)
      then some (
        new_ir ctx.text 7 num.zero_f (codes "none") (codes "0") (codes "no_tier1_2_match" ∷ []),
        e,
      )
      else elim (p.parse ctx) as (λ _. Option (Ir F × Engine F P I S)) [
        | none ↦
            some (new_ir ctx.text 7 num.zero_f p.id p.version (codes "parser_exception" ∷ []), e)
        | some ir ↦ note_route ctx p.id ir e
      ]

  unfoldable pub route :
      List (Parser F) → ParseContext → Engine F P I S → Option (Ir F × Engine F P I S)
  unfolding candidates best_of parse_with
  route structural ctx e =
      parse_with ctx
        (best_of num ctx (candidates structural ctx.shape_of.shape_hash e) none num.zero_f) e
