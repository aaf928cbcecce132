-- ===== src/Api/Keys.antt =====
-- The keys of the configuration, written and read.
use mathlib.Core.List.{reverse_aux, reverse-reverse}
use sih_ulpf.Common.{
  ℕ, ◌≡◌, refl, ◌∙◌, ap, Bool, true, false, not, ◌&&◌, ◌==◌, ==_iff, List, [], ◌∷◌, ◌++◌, map,
  reverse, some,
}
use sih_ulpf.Common.Text.{Text, codes, join, all_chars, starts_with}
use sih_ulpf.Common.Strings.{split_on, split_once, strip, drop_while}
use sih_ulpf.Common.Dict
use sih_ulpf.Common.Dict.{Dict}
use sih_ulpf.Common.Eq.{text_key}
use sih_ulpf.Api.Auth.{KeyFormat, add_pair, api_key_map, key_map_of, read_pairs}

and_both : (a b : Bool) → (a && b) ≡ true → (a ≡ true) × (b ≡ true)
and_both true b h = (refl, h)
and_both false b h = cc

all_chars-reverse_aux :
    (p : ℕ → Bool) (s acc : Text)
    → all_chars p s ≡ true
    → all_chars p acc ≡ true
    → all_chars p (reverse_aux s acc) ≡ true
unfolding all_chars
all_chars-reverse_aux p [] acc h k = k
all_chars-reverse_aux p (c ∷ s) acc h k =
    let (here, rest) = and_both (p c) (all_chars p s) h in
    all_chars-reverse_aux p s (c ∷ acc) rest (rw (here, k) refl)

all_chars-append :
    (p : ℕ → Bool) (s t : Text)
    → all_chars p s ≡ true
    → all_chars p t ≡ true
    → all_chars p (s ++ t) ≡ true
unfolding all_chars
all_chars-append p [] t h k = k
all_chars-append p (c ∷ s) t h k =
    let (here, rest) = and_both (p c) (all_chars p s) h in
    rw (here, all_chars-append p s t rest k) refl

not-true : (b : Bool) → not b ≡ true → b ≡ false
not-true true h = cc
not-true false h = refl

drop_while_none :
    (p : ℕ → Bool) (s : Text) → all_chars (λ c. not (p c)) s ≡ true → drop_while p s ≡ s
unfolding all_chars drop_while
drop_while_none p [] h = refl
drop_while_none p (c ∷ s) h = rw (not-true (p c) (and_both _ _ h).0) refl

strip_none : (p : ℕ → Bool) (s : Text) → all_chars (λ c. not (p c)) s ≡ true → strip p s ≡ s
unfolding all_chars
strip_none p s h =
    rw
      (
        drop_while_none p s h,
        drop_while_none p (reverse s) (all_chars-reverse_aux (λ c. not (p c)) s [] h refl),
      )
      (reverse-reverse s)

all_chars_implied :
    (p q : ℕ → Bool) (s : Text)
    → ((c : ℕ) → p c ≡ true → q c ≡ true)
    → all_chars p s ≡ true
    → all_chars q s ≡ true
unfolding all_chars
all_chars_implied p q [] f h = refl
all_chars_implied p q (c ∷ s) f h =
    let (here, rest) = and_both (p c) (all_chars p s) h in
    rw (f c here, all_chars_implied p q s f rest) refl

is_not : ℕ → ℕ → Bool
is_not c a = not (a == c)

module _ (c : ℕ) where
  other : (a : ℕ) → not (a == c) ≡ true → (a == c) ≡ false
  other a h = not-true (a == c) h

  same : (c == c) ≡ true
  same = (==_iff c c).1 refl

  split_once-append :
      (k t : Text)
      → all_chars (λ a. not (a == c)) k ≡ true
      → split_once c (k ++ (c ∷ t)) ≡ some (k, t)
  unfolding split_once all_chars
  split_once-append [] t h = rw same refl
  split_once-append (a ∷ k) t h =
      let (here, rest) = and_both _ _ h in rw (other a here, split_once-append k t rest) refl

  split_on-last : (s : Text) → all_chars (λ a. not (a == c)) s ≡ true → split_on c s ≡ s ∷ []
  unfolding split_on all_chars
  split_on-last [] h = refl
  split_on-last (a ∷ s) h =
      let (here, rest) = and_both _ _ h in rw (other a here, split_on-last s rest) refl

  split_on-append :
      (s t : Text)
      → all_chars (λ a. not (a == c)) s ≡ true
      → split_on c (s ++ (c ∷ t)) ≡ s ∷ split_on c t
  unfolding split_on all_chars
  split_on-append [] t h = rw same refl
  split_on-append (a ∷ s) t h =
      let (here, rest) = and_both _ _ h in rw (other a here, split_on-append s t rest) refl

module _ (f : KeyFormat) where
  -- a pair as it is written in the configuration
  abbrev pub written : Text × Text → Text
  written (k, t) = k ++ (b':' ∷ t)

  abbrev key_char : ℕ → Bool
  key_char c = not (f.is_space c) && (not (c == b',') && not (c == b':'))

  abbrev tenant_char : ℕ → Bool
  tenant_char c = not (f.is_space c) && not (c == b',')

  -- no spaces, no comma, and no colon in the key
  abbrev pub Plain : List (Text × Text) → Type 0
  Plain [] = Unit
  Plain ((k, t) ∷ pairs) =
      (all_chars key_char k ≡ true) × (all_chars tenant_char t ≡ true) × Plain pairs

  abbrev pub put_all : List (Text × Text) → Dict Text Text → Dict Text Text
  put_all [] out = out
  put_all ((k, t) ∷ pairs) out = put_all pairs (Dict.put k t out)

  read-written :
      (pairs : List (Text × Text)) (out : Dict Text Text)
      → Plain pairs
      → read_pairs f (map written pairs) out ≡ put_all pairs out
  unfolding read_pairs
  read-written [] out h = refl
  read-written ((k, t) ∷ pairs) out (hk, ht, hs) =
      let no_colon =
        all_chars_implied key_char (λ c. not (c == b':')) k
          (λ c q. (and_both _ _ (and_both _ _ q).1).1) hk in
      let k_bare =
        all_chars_implied key_char (λ c. not (f.is_space c)) k (λ c q. (and_both _ _ q).0) hk in
      let t_bare =
        all_chars_implied tenant_char (λ c. not (f.is_space c)) t (λ c q. (and_both _ _ q).0) ht in
      let added : add_pair f (split_once b':' (k ++ (b':' ∷ t))) out ≡ Dict.put k t out =
        rw
          (
            split_once-append b':' k t no_colon,
            strip_none f.is_space k k_bare,
            strip_none f.is_space t t_bare,
          )
          refl in
      ap (read_pairs f (map written pairs)) added ∙ read-written pairs (Dict.put k t out) hs

  no_comma :
      (k t : Text)
      → all_chars key_char k ≡ true
      → all_chars tenant_char t ≡ true
      → all_chars (λ c. not (c == b',')) (written (k, t)) ≡ true
  unfolding all_chars
  no_comma k t hk ht =
      all_chars-append (λ c. not (c == b',')) k (b':' ∷ t)
        (all_chars_implied key_char (λ c. not (c == b',')) k
          (λ c q. (and_both _ _ (and_both _ _ q).1).0) hk)
        (all_chars_implied tenant_char (λ c. not (c == b',')) t (λ c q. (and_both _ _ q).1) ht)

  split_on-written :
      (p : Text × Text) (pairs : List (Text × Text))
      → Plain (p ∷ pairs)
      → split_on b',' (join (codes ",") (map written (p ∷ pairs))) ≡ map written (p ∷ pairs)
  unfolding join
  split_on-written (k, t) [] (hk, ht, hs) = split_on-last b',' (written (k, t)) (no_comma k t hk ht)
  split_on-written (k, t) (q ∷ pairs) (hk, ht, hs) =
      split_on-append b',' (written (k, t)) (join (codes ",") (map written (q ∷ pairs)))
        (no_comma k t hk ht)
      ∙ ap (λ (rest : List Text). written (k, t) ∷ rest) (split_on-written q pairs hs)

  own_bare :
      (k t : Text)
      → all_chars key_char k ≡ true
      → all_chars tenant_char t ≡ true
      → f.is_space b':' ≡ false
      → all_chars (λ c. not (f.is_space c)) (written (k, t)) ≡ true
  unfolding all_chars
  own_bare k t hk ht colon =
      all_chars-append (λ c. not (f.is_space c)) k (b':' ∷ t)
        (all_chars_implied key_char (λ c. not (f.is_space c)) k (λ c q. (and_both _ _ q).0) hk)
        (rw colon (
          all_chars_implied tenant_char (λ c. not (f.is_space c)) t (λ c q. (and_both _ _ q).0) ht))

  written_bare :
      (p : Text × Text) (pairs : List (Text × Text))
      → Plain (p ∷ pairs)
      → f.is_space b':' ≡ false
      → f.is_space b',' ≡ false
      → all_chars (λ c. not (f.is_space c)) (join (codes ",") (map written (p ∷ pairs))) ≡ true
  unfolding join all_chars
  written_bare (k, t) [] (hk, ht, hs) colon comma = own_bare k t hk ht colon
  written_bare (k, t) (q ∷ pairs) (hk, ht, hs) colon comma =
      all_chars-append (λ c. not (f.is_space c)) (written (k, t)) _ (own_bare k t hk ht colon)
        (rw comma (written_bare q pairs hs colon comma))

  key_map_of_pairs :
      (s : Text)
      → starts_with s (codes "{") ≡ false
      → key_map_of f s ≡ some (read_pairs f (split_on b',' s) [])
  unfolding key_map_of
  key_map_of_pairs [] h = refl
  key_map_of_pairs (c ∷ s) h = rw h refl

  -- The keys of a configuration are read as they are written: the text `key:tenant,key:tenant,..`
  -- gives the dictionary of its pairs, a later pair of a key over an earlier one, if no key or tenant
  -- has a space or a comma, no key has a colon, and the text does not begin like JSON.
  pub api_key_map-written :
      (p : Text × Text) (pairs : List (Text × Text))
      → Plain (p ∷ pairs)
      → f.is_space b':' ≡ false
      → f.is_space b',' ≡ false
      → starts_with (join (codes ",") (map written (p ∷ pairs))) (codes "{") ≡ false
      → api_key_map f (join (codes ",") (map written (p ∷ pairs))) ≡ some (put_all (p ∷ pairs) [])
  unfolding api_key_map
  api_key_map-written p pairs plain colon comma not_json =
      let text = join (codes ",") (map written (p ∷ pairs)) in
      ap (key_map_of f) (strip_none f.is_space text (written_bare p pairs plain colon comma))
      ∙ key_map_of_pairs text not_json
      ∙ ap (λ (parts : List Text). some (read_pairs f parts [])) (split_on-written p pairs plain)
      ∙ ap (λ (d : Dict Text Text). some d) (read-written (p ∷ pairs) [] plain)
