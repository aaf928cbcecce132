-- ===== src/Templates/Masks.antt =====
-- The masks of `masked_text` can be undone, and mining for one source leaves the others alone.
use sih_ulpf.Common.{
  ℕ, suc, ◌≡◌, refl, sym, ap, ◌∙◌, ◌≢◌, Bool-cases, inl, inr, List, [], ◌∷◌, Option, none, some,
  length, arith,
}
use sih_ulpf.Common.Text.{Text}
use sih_ulpf.Common.Dict
use sih_ulpf.Common.Eq.{Eq, text_key, pair_eq}
use sih_ulpf.Common.Dict.{Dict}
use sih_ulpf.Models.{TokenType}
use sih_ulpf.Fingerprint.Unicode.{Unicode}
use sih_ulpf.Fingerprint.Shape.{Digest}
use sih_ulpf.Engine.Ladder.{ParseContext}
use sih_ulpf.Templates.{
  Masked, mask, put_token, mask_tokens, Drain, Pool, masked_text, mine_of, mine,
}

-- the tokens behind a masked line: where the class has a mask, the next parameter
unfoldable pub unmask : List TokenType → List Text → List Text → List Text
unmask (c ∷ cs) (o ∷ os) ps =
    let plain : List Text = o ∷ unmask cs os ps in
    let next : List Text → List Text = λ qs. unmask cs os qs in
    elim (mask c) as (λ _. List Text) [
      | none ↦ plain
      | some m ↦ elim ps as (λ _. List Text) [ [] ↦ [] | p ∷ qs ↦ p ∷ next qs ]
    ]
unmask _ _ _ = []

unmask-put_token :
    (c : TokenType) (cs : List TokenType) (t : Text) (r : Masked)
    → unmask (c ∷ cs) (put_token t (mask c) r).0 (put_token t (mask c) r).1 ≡ t ∷ unmask cs r.0 r.1
unfolding unmask
unmask-put_token c cs t r = by_mask (mask c) refl
  where
    by_mask :
        (o : Option Text)
        → mask c ≡ o
        → unmask (c ∷ cs) (put_token t o r).0 (put_token t o r).1 ≡ t ∷ unmask cs r.0 r.1
    by_mask none e = rw (unmask, e) refl
    by_mask (some m) e = rw (unmask, e) refl

suc-zero : (n : ℕ) → suc n ≡ 0 → ⊥
suc-zero n h = omega arith

-- From the masked tokens, the classes and the parameters, the tokens can be read back: the masks lose
-- nothing of a line, if there is a class for each token.
pub unmask-mask_tokens :
    (toks : List Text) (classes : List TokenType)
    → length toks ≡ length classes
    → unmask classes (mask_tokens toks classes).0 (mask_tokens toks classes).1 ≡ toks
unfolding mask_tokens unmask
unmask-mask_tokens [] [] h = refl
unmask-mask_tokens [] (c ∷ cs) h = refl
unmask-mask_tokens (t ∷ toks) [] h = absurd (suc-zero (length toks) h)
unmask-mask_tokens (t ∷ toks) (c ∷ cs) h =
    unmask-put_token c cs t (mask_tokens toks cs)
    ∙ ap (λ rest. t ∷ rest) (unmask-mask_tokens toks cs (omega arith))

-- a put under another key
get-put_other :
    {K V : Type 0} ⦃e : Eq K⦄ (k j : K) (v : V) (d : Dict K V)
    → j ≢ k
    → Dict.get j (Dict.put k v d) ≡ Dict.get j d
get-put_other ⦃e⦄ k j v d h = elim (Bool-cases (e.beq k j)) [
  | inl same ↦ absurd (h (sym ((e.beq_iff k j).0 same)))
  | inr other ↦ Dict.get-put k j v d ∙ rw other refl
]

module _ {M : Type 0} (u : Unicode) (sha1_hex : Digest) (drain : Drain M) where
  mine_of-own :
      (pool : Pool M) (ctx : ParseContext) (o : Option (Text × List Text)) (j : Text × Text)
      → j ≢ (ctx.tenant_id, ctx.source_id)
      → Dict.get j (mine_of u sha1_hex drain ctx pool o).0 ≡ Dict.get j pool
  mine_of-own pool ctx none j h = refl
  mine_of-own pool ctx (some m) j h = get-put_other (ctx.tenant_id, ctx.source_id) j _ pool h

  -- Mining a message of one source leaves the miners of all other tenants and sources as they are.
  pub mine-own :
      (pool : Pool M) (ctx : ParseContext) (message : Text) (j : Text × Text)
      → j ≢ (ctx.tenant_id, ctx.source_id)
      → Dict.get j (mine u sha1_hex drain pool ctx message).0 ≡ Dict.get j pool
  unfolding mine
  mine-own pool ctx message j h =
      mine_of-own pool ctx (masked_text u sha1_hex drain ctx message) j h
