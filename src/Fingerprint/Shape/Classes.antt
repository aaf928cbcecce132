-- ===== src/Fingerprint/Shape/Classes.antt =====
-- The token classes of a fingerprint stand beside its tokens.
use mathlib.Core.Option
use mathlib.Core.Path.{subst}
use sih_ulpf.Common.{
  ℕ, zero, suc, ◌+◌, ◌≤◌, ◌≡◌, refl, List, [], ◌∷◌, some, arith, length, Bool-cases, inl, inr, true,
}
use sih_ulpf.Common.Text.{Text}
use sih_ulpf.Models.{TokenType}
use sih_ulpf.Fingerprint.Unicode.{Unicode}
use sih_ulpf.Fingerprint.Classify.{classify}
use sih_ulpf.Fingerprint.Tokenize.{tokenize, max_tokens}
use sih_ulpf.Fingerprint.Tokenize.Total.{AtMost, tokenize-AtMost}
use sih_ulpf.Fingerprint.Shape.{
  Fingerprint, Digest, scan, of_tokens, fingerprint, is_kv, is_bsd_date,
}

module _ (u : Unicode) where
  kv_room : (c : TokenType) (toks : List Text) → is_kv u c toks ≡ true → 2 ≤ length toks
  kv_room c [] h = cc
  kv_room c (a ∷ []) h = cc
  kv_room c (a ∷ b ∷ toks) h = omega arith

  bsd_room :
      (c : TokenType) (t : Text) (toks : List Text)
      → is_bsd_date u c t toks ≡ true
      → 2 ≤ length toks
  bsd_room c t [] h = cc
  bsd_room c t (a ∷ []) h = cc
  bsd_room c t (a ∷ b ∷ toks) h = omega arith

  length-scan :
      (skip : ℕ) (toks : List Text)
      → skip ≤ length toks
      → length (scan u skip toks).classes + skip ≡ length toks
  unfolding scan
  length-scan skip [] h = omega arith
  length-scan (suc skip) (t ∷ toks) h = omega (arith, length-scan skip toks (omega arith))
  length-scan zero (t ∷ toks) h = elim (Bool-cases (is_kv u (classify u t) toks)) [
    | inl e ↦ rw (e, scan) (omega (arith, kv_room (classify u t) toks e, length-scan 1 toks))
    | inr e ↦ elim (Bool-cases (is_bsd_date u (classify u t) t toks)) [
      | inl f ↦
          rw (e, f, scan) (omega (arith, bsd_room (classify u t) t toks f, length-scan 2 toks))
      | inr f ↦ rw (e, f, scan) (omega (arith, length-scan 0 toks))
    ]
  ]

  abbrev InStep : Fingerprint → Type 0
  InStep fp =
      (length fp.classes ≡ fp.token_count)
      × (length fp.tokens ≡ fp.token_count)
      × (fp.token_count ≤ max_tokens)

  of_tokens-InStep :
      (sha1_hex : Digest) (toks : List Text)
      → length toks ≤ max_tokens
      → InStep (of_tokens u sha1_hex toks)
  unfolding of_tokens
  of_tokens-InStep sha1_hex toks h = (omega (arith, length-scan 0 toks), refl, h)

  -- What `fingerprint` gives has one class for each token, counts its tokens, and has at most
  -- `_MAX_TOKENS` of them.
  pub fingerprint-classes :
      (sha1_hex : Digest) (text : Text) {fp : Fingerprint}
      → fingerprint u sha1_hex text ≡ some fp
      → (length fp.classes ≡ fp.token_count)
        × (length fp.tokens ≡ fp.token_count)
        × (fp.token_count ≤ max_tokens)
  unfolding fingerprint
  fingerprint-classes sha1_hex text {fp} h =
      let (toks, e, f) = (Option.map-eq-some_iff (of_tokens u sha1_hex) (tokenize u text)).0 h in
      let bound : AtMost max_tokens (some toks) = rw e at (tokenize-AtMost u text) in
      subst InStep f (of_tokens-InStep sha1_hex toks bound)
