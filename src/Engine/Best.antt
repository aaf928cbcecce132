-- ===== src/Engine/Best.antt =====
-- The parser that `_route` chooses, and when it is remembered.
use mathlib.Core.Option
use sih_ulpf.Common.{
  ℕ, zero, suc, ◌≡◌, refl, true, false, List, [], ◌∷◌, Option, none, some, ◌⊎◌, inl, inr,
  Bool-cases, Option-cases, get_elem?,
}
use sih_ulpf.Common.Text.{Text}
use sih_ulpf.Common.Dict
use sih_ulpf.Common.Eq.{text_key}
use sih_ulpf.Models.{Ir}
use sih_ulpf.Engine.Ladder.{
  Floats, ParseContext, Parser, Services, Settings, Engine, best_of, note_route, parse_with, route,
  candidates,
}

-- The order of the floats that are no NaN.
pub record FloatLaws {F : Type 0} (num : Floats F) : Type 0 where
  pub asym : (a b : F) → num.lt a b ≡ true → num.lt b a ≡ false
  pub not_lt_trans : (a b c : F) → num.lt a b ≡ false → num.lt b c ≡ false → num.lt a c ≡ false

module _ {F : Type 0} (num : Floats F) (ctx : ParseContext) where
  -- the score that a parser is given
  abbrev pub score_of : Parser F → F
  score_of p = Option.get_or (p.can_parse ctx) num.zero_f

  -- what the loop has recorded: a parser of the list with its own score, or what it began with
  abbrev pub Recorded : List (Parser F) → Option (Parser F) → F → Option (Parser F) × F → Type 0
  Recorded ps best score r =
      (r ≡ (best, score))
      ⊎ ((i : ℕ) × (p : Parser F) × (get_elem? ps i ≡ some p) × (r ≡ (some p, score_of p)))

module _ {F : Type 0} (num : Floats F) (laws : FloatLaws num) (ctx : ParseContext) where
  lt_irrefl : (a : F) → num.lt a a ≡ false
  lt_irrefl a = elim (Bool-cases (num.lt a a)) [ inl e ↦ laws.asym a a e | inr e ↦ e ]

  best_of-grows :
      (ps : List (Parser F)) (best : Option (Parser F)) (score : F)
      → num.lt (best_of num ctx ps best score).1 score ≡ false
  unfolding best_of
  best_of-grows [] best score = lt_irrefl score
  best_of-grows (p ∷ ps) best score = elim (Bool-cases (num.lt score (score_of num ctx p))) [
    | inl e ↦ rw e (
        laws.not_lt_trans (best_of num ctx ps (some p) (score_of num ctx p)).1 (score_of num ctx p)
          score (best_of-grows ps (some p) (score_of num ctx p))
          (laws.asym score (score_of num ctx p) e))
    | inr e ↦ rw e (best_of-grows ps best score)
  ]

  best_of-highest :
      (ps : List (Parser F)) (best : Option (Parser F)) (score : F) (i : ℕ) (p : Parser F)
      → get_elem? ps i ≡ some p
      → num.lt (best_of num ctx ps best score).1 (score_of num ctx p) ≡ false
  unfolding best_of
  best_of-highest [] best score i p h = absurd (none_some h)
    where
      none_some : ◌≡◌ {A = Option (Parser F)} none (some p) → ⊥
      none_some q = cc
  best_of-highest (q ∷ ps) best score zero p h =
      elim (Bool-cases (num.lt score (score_of num ctx p))) [
        | inl e ↦ rw (same_parser h, e) (best_of-grows ps (some p) (score_of num ctx p))
        | inr e ↦
            rw (same_parser h, e)
              (laws.not_lt_trans (best_of num ctx ps best score).1 score (score_of num ctx p)
                (best_of-grows ps best score) e)
      ]
    where
      same_parser : ◌≡◌ {A = Option (Parser F)} (some q) (some p) → q ≡ p
      same_parser k = cc
  best_of-highest (q ∷ ps) best score (suc i) p h =
      elim (Bool-cases (num.lt score (score_of num ctx q))) [
        | inl e ↦ rw e (best_of-highest ps (some q) (score_of num ctx q) i p h)
        | inr e ↦ rw e (best_of-highest ps best score i p h)
      ]

  best_of-Recorded :
      (ps : List (Parser F)) (best : Option (Parser F)) (score : F)
      → Recorded num ctx ps best score (best_of num ctx ps best score)
  unfolding best_of
  best_of-Recorded [] best score = inl refl
  best_of-Recorded (q ∷ ps) best score = elim (Bool-cases (num.lt score (score_of num ctx q))) [
    | inl e ↦ rw e (elim (best_of-Recorded ps (some q) (score_of num ctx q)) [
      | inl r ↦ inr (zero, q, refl, r)
      | inr (i, p, at, r) ↦ inr (suc i, p, at, r)
    ])
    | inr e ↦ rw e (elim (best_of-Recorded ps best score) [
      | inl r ↦ inl r
      | inr (i, p, at, r) ↦ inr (suc i, p, at, r)
    ])
  ]

  -- The loop of `_route` over the candidates ends with no parser and the score 0 it began with, or
  -- with one of the candidates and the score that this one gives; and no candidate that is asked
  -- scores higher than that, a `can_parse` that raises counting as zero. Confidences are taken to be
  -- ordered as floats other than NaN are.
  pub best_of-chosen :
      (ps : List (Parser F))
      → Recorded num ctx ps none num.zero_f (best_of num ctx ps none num.zero_f)
        × ((i : ℕ) (p : Parser F)
            → get_elem? ps i ≡ some p
            → num.lt (best_of num ctx ps none num.zero_f).1 (score_of num ctx p) ≡ false)
  best_of-chosen ps = (best_of-Recorded ps none num.zero_f, best_of-highest ps none num.zero_f)

module _ {F P I S : Type 0} (num : Floats F) (srv : Services F P I S) (set : Settings F)
    (ctx : ParseContext) where
  -- what the routing cache may have become
  abbrev pub Remembers : Engine F P I S → Option (Ir F × Engine F P I S) → Type 0
  Remembers e none = Unit
  Remembers e (some (ir, e')) =
      (h : Text)
      → ◌≡◌ {A = Option Text} (Dict.get h e'.routing_cache) (Dict.get h e.routing_cache)
        ⊎ ((ctx.shape_of.shape_hash ≡ h) × (num.lt ir.confidence set.tau_known ≡ false))

  note_route-Remembers :
      (id : Text) (ir : Ir F) (e : Engine F P I S)
      → Remembers e (note_route num srv set ctx id ir e)
  unfolding note_route
  note_route-Remembers id ir e = elim (Bool-cases (num.lt ir.confidence set.tau_known)) [
    | inl low ↦ rw low (λ h. inl refl)
    | inr high ↦
        rw high
          (elim (Option-cases (
            srv.upsert_fingerprint ctx.shape_of.shape_hash ctx.shape_of.family_hash
              ctx.shape_of.shape id e.storage)) [
                | inl f ↦ rw f tt
                | inr (s, f) ↦ rw f (λ h.
                    elim (Bool-cases (text_key.beq ctx.shape_of.shape_hash h)) [
                      | inl same ↦ inr ((text_key.beq_iff ctx.shape_of.shape_hash h).0 same, high)
                      | inr other ↦
                          inl (
                            rw other at (Dict.get-put ctx.shape_of.shape_hash h id e.routing_cache))
                    ])
              ])
  ]

  parse_with-Remembers :
      (best : Option (Parser F) × F) (e : Engine F P I S)
      → Remembers e (parse_with num srv set ctx best e)
  unfolding parse_with
  parse_with-Remembers (none, score) e = λ h. inl refl
  parse_with-Remembers (some p, score) e = elim (Bool-cases (num.lt num.zero_f score)) [
    | inl e1 ↦ rw e1 (elim (Option-cases (p.parse ctx)) [
      | inl f ↦ rw f (λ h. inl refl)
      | inr (ir, f) ↦ rw f (note_route-Remembers p.id ir e)
    ])
    | inr e1 ↦ rw e1 (λ h. inl refl)
  ]

  -- When `_route` returns, the routing cache is as before but for the shape of the text at hand, and
  -- that entry changes only if the confidence of the result is at least `tau_known`.
  pub route-Remembers :
      (structural : List (Parser F)) (e : Engine F P I S)
      → Remembers e (route num srv set structural ctx e)
  unfolding route
  route-Remembers structural e =
      parse_with-Remembers
        (best_of num ctx (candidates num srv set structural ctx.shape_of.shape_hash e) none
          num.zero_f)
        e
