-- ===== src/Fingerprint/Tokenize/Total.antt =====
-- `tokenize` returns on every text without the character NUL, and keeps its bound.
use mathlib.Core.Option
use sih_ulpf.Common.{
  ℕ, zero, suc, ◌+◌, ◌-◌, ◌*◌, ◌≤◌, ◌≡◌, refl, Bool, true, false, List, [], ◌∷◌, ◌++◌, Option, none,
  some, leb, arith, length, Bool-cases, Option-cases, inl, inr, drop,
}
use sih_ulpf.Common.Text.{Text, contains, starts_with, count_char, replace_all}
use sih_ulpf.Regex.Prefix.{match_prefix}
use sih_ulpf.Fingerprint.Unicode.{Unicode}
use sih_ulpf.Fingerprint.Patterns.{re_ts_atom}
use sih_ulpf.Fingerprint.Tokenize.{
  ts_sentinel, max_tokens, is_blank, stash, split, put_back, restore, tokenize, matched,
}

-- how many NUL characters
abbrev nuls : Text → ℕ
nuls s = count_char 0 s

abbrev all_nuls : List Text → ℕ
all_nuls [] = 0
all_nuls (p ∷ ps) = nuls p + all_nuls ps

nuls-append : (s t : Text) → nuls (s ++ t) ≡ nuls s + nuls t
unfolding count_char
nuls-append [] t = omega arith
nuls-append (c ∷ s) t = ground (arith, nuls-append s t)

nuls-starts_with : (s : Text) → starts_with s ts_sentinel ≡ true → 2 ≤ nuls s
unfolding starts_with count_char
nuls-starts_with [] h = cc
nuls-starts_with (a ∷ []) h = ground arith
nuls-starts_with (a ∷ b ∷ []) h = ground arith
nuls-starts_with (a ∷ b ∷ c ∷ []) h = ground arith
nuls-starts_with (a ∷ b ∷ c ∷ d ∷ s) h = ground arith

nuls-contains : (s : Text) → contains s ts_sentinel ≡ true → 2 ≤ nuls s
unfolding contains count_char
nuls-contains [] h = cc
nuls-contains (a ∷ s) h = ground (arith, nuls-starts_with (a ∷ s), nuls-contains s)

-- at most so many tokens, if any are returned
abbrev pub AtMost : ℕ → Option (List Text) → Type 0
AtMost n none = Unit
AtMost n (some toks) = length toks ≤ n

room_left : (n : ℕ) → leb (suc (suc n)) 1 ≡ false
room_left n = ground arith

minus_one : (n : ℕ) → suc (suc n) - 1 ≡ suc n
minus_one n = omega arith

module _ (u : Unicode) where
  nuls-stash :
      (skip : ℕ) (s : Text) → nuls s ≡ 0 → nuls (stash u skip s).0 ≡ 2 * length (stash u skip s).1
  unfolding stash count_char
  nuls-stash skip [] h = refl
  nuls-stash (suc skip) (c ∷ s) h = nuls-stash skip s (ground arith)
  nuls-stash zero (c ∷ s) h = elim (Option-cases (match_prefix (re_ts_atom u) (c ∷ s))) [
    | inl e ↦ rw (e, stash) (ground (arith, nuls-stash 0 s))
    | inr (rest, e) ↦
        rw (e, stash) (ground (arith, nuls-stash (length (drop 1 (matched (c ∷ s) rest))) s))
  ]

  split-nuls : (b : Bool) (cur s : Text) → all_nuls (split u b cur s) ≡ nuls cur + nuls s
  unfolding split count_char
  split-nuls true cur [] = omega arith
  split-nuls false cur [] = omega arith
  split-nuls true cur (c ∷ s) = ground (
    arith,
    split-nuls true (cur ++ c ∷ []) s,
    split-nuls false [] s,
    split-nuls false (c ∷ []) s,
    nuls-append cur (c ∷ []),
  )
  split-nuls false cur (c ∷ s) = ground (
    arith,
    split-nuls true (c ∷ []) s,
    split-nuls false [] s,
    split-nuls false (cur ++ c ∷ []) s,
    nuls-append cur (c ∷ []),
  )

  put_back_total :
      (part : Text) (protected : List Text) (n : ℕ)
      → nuls part + n ≤ 2 * length protected
      → (token : Text) × (left : List Text) × (put_back part protected ≡ some (token, left))
        × (n ≤ 2 * length left)
  unfolding put_back
  put_back_total part [] n h = elim (Bool-cases (contains part ts_sentinel)) [
    | inl e ↦ absurd (omega (arith, nuls-contains part e))
    | inr e ↦ (part, [], rw e, omega arith)
  ]
  put_back_total part (p ∷ protected) n h = elim (Bool-cases (contains part ts_sentinel)) [
    | inl e ↦ (replace_all part ts_sentinel p, protected, rw e, omega (arith, nuls-contains part e))
    | inr e ↦ (part, p ∷ protected, rw e, omega arith)
  ]

  restore_total :
      (room : ℕ) (protected parts : List Text)
      → all_nuls parts ≤ 2 * length protected
      → (toks : List Text) × (restore u room protected parts ≡ some toks)
  unfolding restore
  restore_total room protected [] h = ([], refl)
  restore_total room protected (part ∷ parts) h = elim (Bool-cases (is_blank u part)) [
    | inl e ↦ rw e (restore_total room protected parts (omega arith))
    | inr e ↦
        let (token, left, f, fits) = put_back_total part protected (all_nuls parts) h in
        let (toks, g) = restore_total (room - 1) left parts fits in
        rw (e, f)
          (elim (Bool-cases (leb room 1)) [
            | inl last ↦ (token ∷ [], rw last)
            | inr more ↦ (token ∷ toks, rw (more, g))
          ])
  ]

  -- `tokenize` returns on every text without the character NUL.
  pub tokenize_total :
      (text : Text) → count_char 0 text ≡ 0 → (toks : List Text) × (tokenize u text ≡ some toks)
  unfolding tokenize
  tokenize_total text h =
      restore_total max_tokens (stash u 0 text).1 (split u false [] (stash u 0 text).0)
        (omega (arith, split-nuls false [] (stash u 0 text).0, nuls-stash 0 text h, nil))
    where
      nil : nuls [] ≡ 0
      nil = unfold count_char in refl

  AtMost-map :
      (n : ℕ) (token : Text) (o : Option (List Text))
      → AtMost n o
      → AtMost (suc n) (Option.map (λ out. token ∷ out) o)
  AtMost-map n token none h = tt
  AtMost-map n token (some toks) h = omega arith

  restore-AtMost :
      (room : ℕ) (protected parts : List Text)
      → AtMost (suc room) (restore u (suc room) protected parts)
  unfolding restore
  restore-AtMost room protected [] = omega arith
  restore-AtMost zero protected (part ∷ parts) = elim (Bool-cases (is_blank u part)) [
    | inl e ↦ rw e (restore-AtMost zero protected parts)
    | inr e ↦ elim (Option-cases (put_back part protected)) [
      | inl f ↦ rw (e, f) tt
      | inr (tl, f) ↦ rw (e, f) (omega arith)
    ]
  ]
  restore-AtMost (suc room) protected (part ∷ parts) = elim (Bool-cases (is_blank u part)) [
    | inl e ↦ rw e (restore-AtMost (suc room) protected parts)
    | inr e ↦ elim (Option-cases (put_back part protected)) [
      | inl f ↦ rw (e, f) tt
      | inr (tl, f) ↦
          rw (e, f, room_left room, minus_one room)
            (AtMost-map (suc room) tl.0 (restore u (suc room) tl.1 parts)
              (restore-AtMost room tl.1 parts))
    ]
  ]

  -- `tokenize` gives at most `_MAX_TOKENS` tokens.
  pub tokenize-AtMost : (text : Text) → AtMost max_tokens (tokenize u text)
  unfolding tokenize
  tokenize-AtMost text = restore-AtMost 511 (stash u 0 text).1 (split u false [] (stash u 0 text).0)
