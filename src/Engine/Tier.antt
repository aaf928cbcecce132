-- ===== src/Engine/Tier.antt =====
-- Which tier and parser the fallback ends with, and that `run` returns.
use sih_ulpf.Common.{
  ◌<◌, ◌≡◌, ◌≢◌, refl, sym, ◌&&◌, ◌∙◌, true, not, List, Option, none, some, ◌⊎◌, inl, inr,
  Bool-cases, Option-cases, ltb, arith,
}
use sih_ulpf.Common.Text.{Text, codes, text_eq, text_eq_iff}
use sih_ulpf.Common.Dict
use sih_ulpf.Common.Eq.{text_key}
use sih_ulpf.Models.{Ir, Value}
use sih_ulpf.Engine.Ladder.{Floats, ParseContext, Parser, Services, Settings, Engine, Mined}
use sih_ulpf.Engine.Fallback.{
  Call, set_template, tier_4, tier_5, adopt, tier_6, tier_7, fallback, message_or, truthy,
  note_vendor, update,
}
use sih_ulpf.Engine.Breaker.{Reply, object, other, Usable, classify_and_score}

module _ {F : Type 0} (num : Floats F) (tau threshold : F) where
  set_template-keeps :
      (m : Option Mined) (ir : Ir F)
      → ((set_template m ir).confidence ≡ ir.confidence)
        × ((set_template m ir).tier ≡ ir.tier)
        × ((set_template m ir).parser_id ≡ ir.parser_id)
  unfolding set_template
  set_template-keeps none ir = (refl, refl, refl)
  set_template-keeps (some m) ir = (refl, refl, refl)

  tier_4-drain3 :
      (ir : Ir F)
      → num.lt ir.confidence tau ≡ true
      → 4 < ir.tier
      → (tier_4 num tau ir).parser_id ≡ codes "engine.drain3"
  unfolding tier_4
  tier_4-drain3 ir h k = let above : ltb 4 ir.tier ≡ true = ground arith in rw (h, above) refl

  tier_4-own :
      (ir : Ir F)
      → ((tier_4 num tau ir).parser_id ≡ ir.parser_id)
        ⊎ ((tier_4 num tau ir).parser_id ≡ codes "engine.drain3")
  unfolding tier_4
  tier_4-own ir = elim (Bool-cases (num.lt ir.confidence tau)) [
    | inl e ↦ elim (Bool-cases (ltb 4 ir.tier)) [
      | inl f ↦ rw (e, f) (inr refl)
      | inr f ↦ rw (e, f) (inl refl)
    ]
    | inr e ↦ rw e (inl refl)
  ]

  adopt-keeps :
      (sim : F) (c : Option (Ir F)) (ir : Ir F) → (adopt num sim c ir).parser_id ≡ ir.parser_id
  unfolding adopt
  adopt-keeps sim none ir = refl
  adopt-keeps sim (some c) ir =
      elim (Bool-cases (num.lt ir.confidence (num.mul c.confidence sim))) [
        | inl e ↦ rw e refl
        | inr e ↦ rw e refl
      ]

  tier_5-keeps :
      (ctx : ParseContext) (packs : List (Text × Parser F)) (m : Option (Text × F)) (ir : Ir F)
      → (tier_5 num tau threshold ctx packs m ir).parser_id ≡ ir.parser_id
  unfolding tier_5
  tier_5-keeps ctx packs none ir = refl
  tier_5-keeps ctx packs (some (pid, sim)) ir =
      elim (Bool-cases (num.lt ir.confidence tau && not (num.lt sim threshold))) [
        | inl e ↦ rw e (elim (Option-cases (Dict.get pid packs)) [
          | inl f ↦ rw f refl
          | inr (p, f) ↦ rw f (adopt-keeps sim (p.parse ctx) ir)
        ])
        | inr e ↦ rw e refl
      ]

  note_vendor-keeps :
      (v : Option Value) (ir : Ir F) → (note_vendor num tau v ir).parser_id ≡ ir.parser_id
  note_vendor-keeps none ir = refl
  note_vendor-keeps (some v) ir = elim (Bool-cases (truthy v && num.lt ir.confidence tau)) [
    | inl f ↦ rw f refl
    | inr f ↦ rw f refl
  ]

  tier_6-keeps :
      (out : Option Reply) (ir : Ir F)
      → Usable out
      → (r : Ir F) × (tier_6 num tau out ir ≡ some r) × (r.parser_id ≡ ir.parser_id)
  unfolding tier_6
  tier_6-keeps none ir h = (ir, refl, refl)
  tier_6-keeps (some (object out)) ir h = (
    note_vendor num tau (Dict.get (codes "vendor_guess") out) (record ir { ml = update ir.ml out }),
    refl,
    note_vendor-keeps (Dict.get (codes "vendor_guess") out) (record ir { ml = update ir.ml out }),
  )
  tier_6-keeps (some (other truthy)) ir h = (ir, rw h refl, refl)

  -- the last tier renames a result without a parser only
  tier_7-own :
      (ir : Ir F)
      → ((tier_7 num tau ir).parser_id ≡ ir.parser_id)
        ⊎ ((ir.parser_id ≡ codes "none")
            × ((tier_7 num tau ir).parser_id ≡ codes "engine.quarantine"))
  unfolding tier_7
  tier_7-own ir = elim (Bool-cases (num.lt ir.confidence tau)) [
    | inl e ↦ elim (Bool-cases (text_eq ir.parser_id (codes "none"))) [
      | inl f ↦ rw (e, f) (inr ((text_eq_iff ir.parser_id (codes "none")).0 f, refl))
      | inr f ↦ rw (e, f) (inl refl)
    ]
    | inr e ↦ rw e (inl refl)
  ]

drain3-not_none : ◌≢◌ {A = Text} (codes "engine.drain3") (codes "none")
drain3-not_none h = cc

module _ {F P I S : Type 0} (num : Floats F) (srv : Services F P I S) (set : Settings F)
    (ctx : ParseContext) (c : Call) (ir : Ir F) (e : Engine F P I S) where
  -- what the miner and the sidecar give
  abbrev mined : Option Mined
  mined = (srv.mine e.templates ctx (message_or ir.message ctx.text)).1

  abbrev pub answer : Option Reply
  answer = (classify_and_score set.breaker c.asked c.over c.outcome e.ml).1

  -- the result behind tier 4
  abbrev ir_4 : Ir F
  ir_4 = tier_4 num set.tau_known (set_template mined ir)

  -- the fallback returns, and the parser at its end is that behind tier 4, or the tag
  fallback_after_4 :
      Usable answer
      → (r : Ir F × Engine F P I S) × (fallback num srv set ctx c ir e ≡ some r)
        × ((r.0.parser_id ≡ ir_4.parser_id)
            ⊎ ((ir_4.parser_id ≡ codes "none") × (r.0.parser_id ≡ codes "engine.quarantine")))
  unfolding fallback
  fallback_after_4 usable =
      let m = srv.best_match e.similarity ctx.shape_of.shape in
      let ir5 = tier_5 num set.tau_known set.similarity_threshold ctx e.declarative m ir_4 in
      let (ir6, returned, same6) =
        tier_6-keeps num set.tau_known set.similarity_threshold answer ir5 usable in
      let same =
        same6 ∙ tier_5-keeps num set.tau_known set.similarity_threshold ctx e.declarative m ir_4 in
      let state : Engine F P I S = record e {
        templates = (srv.mine e.templates ctx (message_or ir.message ctx.text)).0;
        ml = (classify_and_score set.breaker c.asked c.over c.outcome e.ml).0;
      } in
      let final : Ir F × Engine F P I S = (tier_7 num set.tau_known ir6, state) in
      (
        final,
        rw returned refl,
        elim (tier_7-own num set.tau_known set.similarity_threshold ir6) [
          | inl own ↦ inl (own ∙ same)
          | inr (unnamed, tag) ↦ inr (sym same ∙ unnamed, tag)
        ],
      )

  -- A result of a tier above 4 with a confidence below `tau_known` leaves the fallback under the name
  -- of the template miner: the tag "engine.quarantine" is not given to it. The fallback returns as
  -- long as the sidecar's answer, if there is one, is a JSON object or not truthy.
  pub fallback-drain3 :
      num.lt ir.confidence set.tau_known ≡ true
      → 4 < ir.tier
      → Usable answer
      → (r : Ir F × Engine F P I S) × (fallback num srv set ctx c ir e ≡ some r)
        × (r.0.parser_id ≡ codes "engine.drain3")
  fallback-drain3 low above usable =
      let (conf, tier, id) =
        set_template-keeps num set.tau_known set.similarity_threshold mined ir in
      let is_drain3 =
        tier_4-drain3 num set.tau_known set.similarity_threshold (set_template mined ir)
          (rw conf low) (rw tier above) in
      let (r, returned, named) = fallback_after_4 usable in
      (
        r,
        returned,
        elim named [
          | inl same ↦ same ∙ is_drain3
          | inr (is_none, f) ↦ absurd (drain3-not_none (sym is_drain3 ∙ is_none))
        ],
      )

  -- The fallback never takes a similar pack over: the parser of its result is that of its argument,
  -- the template miner, or the quarantine tag in place of "none". It returns as long as the sidecar's
  -- answer, if there is one, is a JSON object or not truthy.
  pub fallback-own :
      Usable answer
      → (r : Ir F × Engine F P I S) × (fallback num srv set ctx c ir e ≡ some r)
        × ((r.0.parser_id ≡ ir.parser_id)
            ⊎ ((r.0.parser_id ≡ codes "engine.drain3")
                ⊎ (r.0.parser_id ≡ codes "engine.quarantine")))
  fallback-own usable =
      let (conf, tier, id) =
        set_template-keeps num set.tau_known set.similarity_threshold mined ir in
      let (r, returned, named) = fallback_after_4 usable in
      (
        r,
        returned,
        elim named [
          | inl same ↦
              elim (tier_4-own num set.tau_known set.similarity_threshold (set_template mined ir)) [
                | inl own ↦ inl (same ∙ own ∙ id)
                | inr d ↦ inr (inl (same ∙ d))
              ]
          | inr (unnamed, tag) ↦ inr (inr tag)
        ],
      )
