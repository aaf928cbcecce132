-- ===== src/Ids/Order.antt =====
-- An identifier can be read back, and identifiers sort by their time.
use mathlib.Core.List.{reverse-reverse, reverse-cons}
use sih_ulpf.Common.{
  ℕ, zero, suc, ◌+◌, ◌*◌, ◌/◌, ◌%◌, ◌^◌, ◌<◌, ◌≡◌, refl, ap, ◌∙◌, List, [], ◌∷◌, ◌++◌, reverse,
  length, length-append, Bool, true, false, ◌&&◌, ◌||◌, ltb, ◌==◌, if◌then◌else◌, arith, Bool-cases,
  inl, inr, ◌⊎◌, ltb→lt,
}
use sih_ulpf.Common.Text.{Text}
use sih_ulpf.Ids.{alphabet, digit, emit, from_bytes, ulid}

-- where a character stands in the alphabet
abbrev index_in : ℕ → Text → ℕ
index_in c [] = 0
index_in c (a ∷ s) = let rest = suc (index_in c s) in if a == c then 0 else rest

-- the number that the characters stand for, from the last one on
abbrev value_from_last : Text → ℕ
value_from_last [] = 0
value_from_last (c ∷ s) = index_in c alphabet + 32 * value_from_last s

-- The number that an identifier stands for.
abbrev pub value_of : Text → ℕ
value_of s = value_from_last (reverse s)

-- `s < t` of two texts
pub text_lt : Text → Text → Bool
text_lt [] [] = false
text_lt [] (b ∷ t) = true
text_lt (a ∷ s) [] = false
text_lt (a ∷ s) (b ∷ t) = ltb a b || ((a == b) && text_lt s t)

abbrev all_below : ℕ → (ℕ → Bool) → Bool
all_below zero p = true
all_below (suc n) p = p n && all_below n p

all_below_at : (n : ℕ) (p : ℕ → Bool) (i : ℕ) → all_below n p ≡ true → i < n → p i ≡ true
all_below_at zero p i h hi = absurd (omega arith)
all_below_at (suc n) p i h hi = elim (Bool-cases (i == n)) [
  | inl e ↦ rw ((ap p (here e))) (left (p n) (all_below n p) h)
  | inr e ↦ all_below_at n p i (right (p n) (all_below n p) h) (ground arith)
]
  where
    here : (i == n) ≡ true → i ≡ n
    here e = ground arith

    left : (a b : Bool) → (a && b) ≡ true → a ≡ true
    left a b e = ground arith

    right : (a b : Bool) → (a && b) ≡ true → b ≡ true
    right a b e = ground arith

index-digit : (d : ℕ) → d < 32 → index_in (digit d) alphabet ≡ d
index-digit d h = same (all_below_at 32 (λ i. index_in (digit i) alphabet == i) d refl h)
  where
    same : (index_in (digit d) alphabet == d) ≡ true → index_in (digit d) alphabet ≡ d
    same e = ground arith

digits_sorted : all_below 32 (λ b. all_below b (λ a. ltb (digit a) (digit b))) ≡ true
digits_sorted = refl

digit_mono : (a b : ℕ) → a < b → b < 32 → digit a < digit b
digit_mono a b h hb = ltb→lt (digit a) (digit b) (
    all_below_at b (λ i. ltb (digit i) (digit b)) a
      (all_below_at 32 (λ j. all_below j (λ i. ltb (digit i) (digit j))) b digits_sorted hb) h)

value-emit : (n v : ℕ) → v < 32 ^ n → value_from_last (emit n v) ≡ v
unfolding emit
value-emit zero v h = omega arith
value-emit (suc n) v h =
    omega (arith, value-emit n (v / 32) (omega arith), index-digit (v % 32) (omega arith))

abbrev big : ℕ → ℕ → Text
big n v = reverse (emit n v)

length-emit : (n v : ℕ) → length (emit n v) ≡ n
unfolding emit
length-emit zero v = refl
length-emit (suc n) v = omega (arith, length-emit n (v / 32))

big_step : (n v : ℕ) → big (suc n) v ≡ big n (v / 32) ++ (digit (v % 32) ∷ [])
unfolding emit
big_step n v = reverse-cons (digit (v % 32)) (emit n (v / 32))

length-big : (n v : ℕ) → length (big n v) ≡ n
unfolding emit
length-big zero v = refl
length-big (suc n) v =
    rw (big_step n v)
      (omega (arith, length-append (big n (v / 32)) (digit (v % 32) ∷ []), length-big n (v / 32)))

-- a difference in front decides
text_lt_front :
    (s t x y : Text) → length s ≡ length t → text_lt s t ≡ true → text_lt (s ++ x) (t ++ y) ≡ true
unfolding text_lt
text_lt_front [] [] x y h lt = cc
text_lt_front [] (b ∷ t) x y h lt = absurd (omega arith)
text_lt_front (a ∷ s) [] x y h lt = absurd (omega arith)
text_lt_front (a ∷ s) (b ∷ t) x y h lt = ground (arith, text_lt_front s t x y)

-- and an equal front does not
text_lt_behind : (s x y : Text) → text_lt x y ≡ true → text_lt (s ++ x) (s ++ y) ≡ true
unfolding text_lt
text_lt_behind [] x y h = h
text_lt_behind (a ∷ s) x y h = ground (arith, text_lt_behind s x y h)

last_digit : (a b : ℕ) → a < b → text_lt (a ∷ []) (b ∷ []) ≡ true
unfolding text_lt
last_digit a b h = ground arith

big_mono : (n v w : ℕ) → v < w → w < 32 ^ n → text_lt (big n v) (big n w) ≡ true
big_mono zero v w h hw = absurd (omega arith)
big_mono (suc n) v w h hw =
    rw (big_step n v, big_step n w)
      (elim (split v w h) [
        | inl front ↦
            text_lt_front (big n (v / 32)) (big n (w / 32)) (digit (v % 32) ∷ [])
              (digit (w % 32) ∷ []) (omega (arith, length-big n (v / 32), length-big n (w / 32)))
              (big_mono n (v / 32) (w / 32) front (omega arith))
        | inr (same, last) ↦ rw same (
            text_lt_behind (big n (w / 32)) (digit (v % 32) ∷ []) (digit (w % 32) ∷ []) (
              last_digit (digit (v % 32)) (digit (w % 32))
                (digit_mono (v % 32) (w % 32) last (omega arith))))
      ])
  where
    split : (v w : ℕ) → v < w → (v / 32 < w / 32) ⊎ ((v / 32 ≡ w / 32) × (v % 32 < w % 32))
    split v w h = ground arith

ulid-value :
    (ts_ms : ℕ) (random : List ℕ)
    → ts_ms < 2 ^ 50
    → from_bytes random < 2 ^ 80
    → (length (ulid ts_ms random) ≡ 26)
      × (value_of (ulid ts_ms random) ≡ ts_ms * 2 ^ 80 + from_bytes random)
unfolding ulid
ulid-value ts_ms random ht hr =
    let v = ts_ms * 2 ^ 80 + from_bytes random in
    (
      length-big 26 v,
      ap value_from_last (reverse-reverse (emit 26 v)) ∙ value-emit 26 v (omega arith),
    )

ulid_mono :
    (t t' : ℕ) (random random' : List ℕ)
    → t < t'
    → t' < 2 ^ 50
    → from_bytes random < 2 ^ 80
    → from_bytes random' < 2 ^ 80
    → text_lt (ulid t random) (ulid t' random') ≡ true
unfolding ulid
ulid_mono t t' random random' h ht hr hr' =
    big_mono 26 (t * 2 ^ 80 + from_bytes random) (t' * 2 ^ 80 + from_bytes random') (omega arith)
      (omega arith)

-- Two identifiers of different milliseconds, the later below `2 ^ 50`, with random bytes below
-- `2 ^ 80`: the first has 26 characters and can be read back as its time and random number, and it
-- sorts before the second as a text, whatever the random bytes are.
pub ulid_sorts :
    (t t' : ℕ) (random random' : List ℕ)
    → t < t'
    → t' < 2 ^ 50
    → from_bytes random < 2 ^ 80
    → from_bytes random' < 2 ^ 80
    → (length (ulid t random) ≡ 26)
      × (value_of (ulid t random) ≡ t * 2 ^ 80 + from_bytes random)
      × (text_lt (ulid t random) (ulid t' random') ≡ true)
ulid_sorts t t' random random' h ht hr hr' =
    let (size, back) = ulid-value t random (omega arith) hr in
    (size, back, ulid_mono t t' random random' h ht hr hr')
