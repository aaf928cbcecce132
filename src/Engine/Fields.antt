-- ===== src/Engine/Fields.antt =====
-- The fields that `run` adds behind the inference.
use mathlib.Core.Option
use sih_ulpf.Common.{
  ◌≡◌, refl, sym, ap, ◌∙◌, Bool, true, false, not, ◌&&◌, List, Option, none, some, inl, inr,
  Bool-cases, Option-cases, ltb,
}
use sih_ulpf.Common.Text.{Text, codes, text_eq, text_eq_iff, starts_with}
use sih_ulpf.Common.Dict
use sih_ulpf.Common.Dict.{Dict}
use sih_ulpf.Common.Eq.{text_key}
use sih_ulpf.Models.{Value, Ir}
use sih_ulpf.Engine.Breaker.{Reply, object, other, classify_and_score}
use sih_ulpf.Engine.Ladder.{Floats, ParseContext, Parser, Mined, Services, Settings, Engine}
use sih_ulpf.Engine.Fallback.{
  Call, set_default, set_template, tier_4, adopt, tier_5, update, note_vendor, tier_6, tier_7,
  fallback, message_or, truthy,
}
use sih_ulpf.Engine.Run.{note_infer, with_latency, finish}

apart :
    (j k : Text)
    → starts_with j (codes "__") ≡ true
    → starts_with k (codes "__") ≡ false
    → text_eq j k ≡ false
apart j k own differs = elim (Bool-cases (text_eq j k)) [
  | inl same ↦ absurd (clash (sym own ∙ rw ((text_eq_iff j k).0 same) differs))
  | inr differ ↦ differ
]
  where
    clash : true ≡ false → ⊥
    clash h = cc

is_reserved_size : starts_with (codes "__cluster_size") (codes "__") ≡ true
unfolding starts_with
is_reserved_size = refl

is_reserved_change : starts_with (codes "__template_change") (codes "__") ≡ true
unfolding starts_with
is_reserved_change = refl

is_reserved_vendor : starts_with (codes "__ml_vendor_guess") (codes "__") ≡ true
unfolding starts_with
is_reserved_vendor = refl

is_reserved_latency : starts_with (codes "__latency_ms") (codes "__") ≡ true
unfolding starts_with
is_reserved_latency = refl

module _ (k : Text) (plain : starts_with k (codes "__") ≡ false) where
  put-other :
      (j : Text) (v : Value) (f : Dict Text Value)
      → starts_with j (codes "__") ≡ true
      → Dict.get k (Dict.put j v f) ≡ Dict.get k f
  put-other j v f own = rw (apart j k own plain) at (Dict.get-put j k v f)

  set_default-other :
      (j : Text) (v : Value) (f : Dict Text Value)
      → starts_with j (codes "__") ≡ true
      → Dict.get k (set_default j v f) ≡ Dict.get k f
  set_default-other j v f own = elim (Option-cases (Dict.get j f)) [
    | inl e ↦ rw (e, set_default) (put-other j v f own)
    | inr (old, e) ↦ rw (e, set_default) refl
  ]

  module _ {F : Type 0} (num : Floats F) (tau threshold : F) where
    set_template-get :
        (m : Option Mined) (ir : Ir F)
        → Dict.get k (set_template m ir).fields ≡ Dict.get k ir.fields
    unfolding set_template
    set_template-get none ir = refl
    set_template-get (some m) ir =
        put-other (codes "__cluster_size") _ _ is_reserved_size
        ∙ put-other (codes "__template_change") _ ir.fields is_reserved_change

    tier_4-get : (ir : Ir F) → (tier_4 num tau ir).fields ≡ ir.fields
    unfolding tier_4
    tier_4-get ir = elim (Bool-cases (num.lt ir.confidence tau && ltb 4 ir.tier)) [
      | inl e ↦ rw e refl
      | inr e ↦ rw e refl
    ]

    adopt-get : (sim : F) (c : Option (Ir F)) (ir : Ir F) → (adopt num sim c ir).fields ≡ ir.fields
    unfolding adopt
    adopt-get sim none ir = refl
    adopt-get sim (some c) ir =
        elim (Bool-cases (num.lt ir.confidence (num.mul c.confidence sim))) [
          | inl e ↦ rw e refl
          | inr e ↦ rw e refl
        ]

    tier_5-get :
        (ctx : ParseContext) (packs : List (Text × Parser F)) (m : Option (Text × F)) (ir : Ir F)
        → (tier_5 num tau threshold ctx packs m ir).fields ≡ ir.fields
    unfolding tier_5
    tier_5-get ctx packs none ir = refl
    tier_5-get ctx packs (some (pid, sim)) ir =
        elim (Bool-cases (num.lt ir.confidence tau && not (num.lt sim threshold))) [
          | inl e ↦ rw e (elim (Option-cases (Dict.get pid packs)) [
            | inl f ↦ rw f refl
            | inr (p, f) ↦ rw f (adopt-get sim (p.parse ctx) ir)
          ])
          | inr e ↦ rw e refl
        ]

    note_vendor-get :
        (v : Option Value) (ir : Ir F)
        → Dict.get k (note_vendor num tau v ir).fields ≡ Dict.get k ir.fields
    note_vendor-get none ir = refl
    note_vendor-get (some v) ir = elim (Bool-cases (truthy v && num.lt ir.confidence tau)) [
      | inl e ↦ rw e (set_default-other (codes "__ml_vendor_guess") v ir.fields is_reserved_vendor)
      | inr e ↦ rw e refl
    ]

    tier_7-get : (ir : Ir F) → (tier_7 num tau ir).fields ≡ ir.fields
    unfolding tier_7
    tier_7-get ir = elim (Bool-cases (num.lt ir.confidence tau)) [
      | inl e ↦ rw e refl
      | inr e ↦ rw e refl
    ]

    -- what an optional result keeps of another
    abbrev Keeps : Ir F → Option (Ir F) → Type 0
    Keeps ir none = Unit
    Keeps ir (some r) = Dict.get k r.fields ≡ Dict.get k ir.fields

    tier_6-get : (out : Option Reply) (ir : Ir F) → Keeps ir (tier_6 num tau out ir)
    unfolding tier_6
    tier_6-get none ir = refl
    tier_6-get (some (object out)) ir =
        note_vendor-get (Dict.get (codes "vendor_guess") out) (record ir { ml = update ir.ml out })
    tier_6-get (some (other true)) ir = tt
    tier_6-get (some (other false)) ir = refl

  module _ {F P I S : Type 0} (num : Floats F) (srv : Services F P I S) (set : Settings F)
      (ctx : ParseContext) (c : Call) where
    abbrev Kept : Ir F → Option (Ir F × Engine F P I S) → Type 0
    Kept ir none = Unit
    Kept ir (some r) = Dict.get k r.0.fields ≡ Dict.get k ir.fields

    fallback-get : (ir : Ir F) (e : Engine F P I S) → Kept ir (fallback num srv set ctx c ir e)
    unfolding fallback
    fallback-get ir e =
        let tau = set.tau_known in
        let threshold = set.similarity_threshold in
        let mined = (srv.mine e.templates ctx (message_or ir.message ctx.text)).1 in
        let m = srv.best_match e.similarity ctx.shape_of.shape in
        let out = (classify_and_score set.breaker c.asked c.over c.outcome e.ml).1 in
        let ir4 = tier_4 num tau (set_template mined ir) in
        let ir5 = tier_5 num tau threshold ctx e.declarative m ir4 in
        let same5 : Dict.get k ir5.fields ≡ Dict.get k ir.fields =
          ap (Dict.get k) (tier_5-get num tau threshold ctx e.declarative m ir4)
          ∙ (ap (Dict.get k) (tier_4-get num tau threshold (set_template mined ir))
              ∙ set_template-get num tau threshold mined ir) in
        go ir5
          (record e {
            templates = (srv.mine e.templates ctx (message_or ir.message ctx.text)).0;
            ml = (classify_and_score set.breaker c.asked c.over c.outcome e.ml).0;
          })
          (tier_6 num tau out ir5) (tier_6-get num tau threshold out ir5) same5
      where
        go :
            (ir5 : Ir F) (state : Engine F P I S) (o : Option (Ir F))
            → Keeps num set.tau_known set.similarity_threshold ir5 o
            → Dict.get k ir5.fields ≡ Dict.get k ir.fields
            → Kept ir (Option.map (λ (r : Ir F). (tier_7 num set.tau_known r, state)) o)
        go ir5 state none h same = tt
        go ir5 state (some r) h same =
            ap (Dict.get k) (tier_7-get num set.tau_known set.similarity_threshold r) ∙ (h ∙ same)

    kept_by :
        (latency : Value) (ir : Ir F) (o : Option (Ir F × Engine F P I S))
        (r : (ParseContext × Ir F) × Engine F P I S)
        → Kept ir o
        → Option.map (with_latency num srv set ctx latency) o ≡ some r
        → ◌≡◌ {A = Option Value} (Dict.get k r.0.1.fields) (Dict.get k ir.fields)
    kept_by latency ir none r same h = absurd (none_some h)
      where
        none_some : ◌≡◌ {A = Option ((ParseContext × Ir F) × Engine F P I S)} none (some r) → ⊥
        none_some q = cc
    kept_by latency ir (some p) r same h =
        ap (λ (z : (ParseContext × Ir F) × Engine F P I S). Dict.get k z.0.1.fields)
          (sym (some_inj h))
        ∙ (set_default-other (codes "__latency_ms") latency p.0.fields is_reserved_latency ∙ same)
      where
        some_inj :
            ◌≡◌ {A = Option ((ParseContext × Ir F) × Engine F P I S)}
              (some (with_latency num srv set ctx latency p))
              (some r)
            → with_latency num srv set ctx latency p ≡ r
        some_inj q = cc

    noted :
        (p : Ir F × Bool)
        → ◌≡◌ {A = Option Value} (Dict.get k (note_infer p).fields) (Dict.get k p.0.fields)
    unfolding note_infer
    noted (ir, true) = refl
    noted (ir, false) = refl

    -- What `run` returns behind `_route` and `infer` has the field `k` as `infer` has left it.
    pub finish-get :
        (latency : Value) (routed : Ir F) (e : Engine F P I S)
        (r : (ParseContext × Ir F) × Engine F P I S)
        → finish num srv set ctx c latency (routed, e) ≡ some r
        → ◌≡◌ {A = Option Value}
            (Dict.get k r.0.1.fields)
            (Dict.get k (srv.infer ctx routed).0.fields)
    unfolding finish
    finish-get latency routed e r h =
        let ir = note_infer (srv.infer ctx routed) in
        elim (Bool-cases (num.lt ir.confidence set.tau_known)) [
          | inl low ↦
              kept_by latency ir (fallback num srv set ctx c ir e) r (fallback-get ir e)
                (rw low at h)
              ∙ noted (srv.infer ctx routed)
          | inr high ↦
              kept_by latency ir (some (ir, e)) r refl (rw high at h) ∙ noted (srv.infer ctx routed)
        ]
