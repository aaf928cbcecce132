-- ===== src/Fingerprint/Classify/Forms.antt =====
-- A token of each class has the form that the pattern of the class describes.
use sih_ulpf.Common.{
  ◌≡◌, refl, Bool, true, false, ◌&&◌, ◌||◌, leb, not, [], ◌∷◌, inl, inr, Bool-cases, length,
  if◌then◌else◌, arith, ◌==◌,
}
use sih_ulpf.Common.Text.{Text, codes, contains, count_char, any_char}
use sih_ulpf.Regex.Defs.{Re, Matches, fullmatch}
use sih_ulpf.Regex.FullMatch.{fullmatch_iff}
use sih_ulpf.Models.{
  TokenType, punct, word, num, hex, ip4, ip6, mac, ts, uuid, url, email, path, host,
}
use sih_ulpf.Fingerprint.Unicode.{Unicode}
use sih_ulpf.Fingerprint.Patterns.{
  re_num, re_hex, re_ip4, re_ip6, re_mac, re_uuid, re_url, re_email, re_path, re_host, re_ts,
}
use sih_ulpf.Fingerprint.Classify.{drive_prefix, classify, classify_numeric, classify_rest}

-- The forms. `kv`, `quote` and `port` have none: those are no classes of a single token.
pub data HasForm (u : Unicode) : TokenType → Text → Type 0 where
  no_text : HasForm u punct []
  symbol : {c : _} → u.is_alnum c ≡ false → HasForm u punct (c ∷ [])
  plain : {t : Text} → HasForm u word t
  as_num : {t : Text} → Matches (re_num u) t → HasForm u num t
  as_hex : {t : Text} → Matches (re_hex u) t → HasForm u hex t
  as_ip4 : {t : Text} → Matches (re_ip4 u) t → HasForm u ip4 t
  as_ip6 : {t : Text} → Matches (re_ip6 u) t → HasForm u ip6 t
  as_mac : {t : Text} → Matches (re_mac u) t → HasForm u mac t
  as_ts : {t : Text} → Matches (re_ts u) t → HasForm u ts t
  as_uuid : {t : Text} → Matches (re_uuid u) t → HasForm u uuid t
  as_url : {t : Text} → Matches (re_url u) t → HasForm u url t
  as_email : {t : Text} → Matches (re_email u) t → HasForm u email t
  as_path : {t : Text} → Matches (re_path u) t → HasForm u path t
  as_host : {t : Text} → Matches (re_host u) t → HasForm u host t

module _ (u : Unicode) where
  form_if :
      (b : Bool) {t : Text} {c d : TokenType}
      → (b ≡ true → HasForm u c t)
      → HasForm u d t
      → HasForm u (if b then c else d) t
  form_if true yes' no' = yes' refl
  form_if false yes' no' = no'

  -- a branch that is guarded by a full match, behind another test
  form_match :
      (a : Bool) {t : Text} {c d : TokenType} (r : Re)
      → (Matches r t → HasForm u c t)
      → HasForm u d t
      → HasForm u (if a && fullmatch r t then c else d) t
  form_match true {t} r form other =
      form_if (fullmatch r t) (λ h. form ((fullmatch_iff r t).0 h)) other
  form_match false r form other = other

  form_match_first :
      (a : Bool) {t : Text} {c d : TokenType} (r : Re)
      → (Matches r t → HasForm u c t)
      → HasForm u d t
      → HasForm u (if fullmatch r t && a then c else d) t
  form_match_first a {t} {c} {d} r form other = elim (Bool-cases (fullmatch r t)) [
    | inl h ↦ rw h (form_if a (λ _. form ((fullmatch_iff r t).0 h)) other)
    | inr h ↦ rw h other
  ]

  form_match_nested :
      (a b : Bool) {t : Text} {c d : TokenType} (r : Re)
      → (Matches r t → HasForm u c t)
      → HasForm u d t
      → HasForm u (if a && (b && fullmatch r t) then c else d) t
  form_match_nested true b r form other = form_match b r form other
  form_match_nested false b r form other = other

  form_rest : (c : _) (t : Text) → HasForm u (classify_rest u c t) t
  unfolding classify_rest
  form_rest c t = form_match (contains t (codes "://")) (re_url u) as_url (
      form_match (contains t (codes "@")) (re_email u) as_email (
        form_match (c == b'/' || drive_prefix t) (re_path u) as_path (
          form_match_nested (contains t (codes "-")) (length t == 36) (re_uuid u) as_uuid (
            form_match (contains t (codes ":")) (re_mac u) as_mac (
              form_match_nested (contains t (codes ":")) (leb 2 (count_char b':' t)) (re_ip6 u)
                as_ip6
                (form_match_first (any_char u.is_digit t) (re_hex u) as_hex
                  (form_match (contains t (codes ".")) (re_host u) as_host plain)))))))

  form_numeric : (c : _) (t : Text) → HasForm u (classify_numeric u c t) t
  unfolding classify_numeric
  form_numeric c t = form_match true (re_ip4 u) as_ip4 (
      form_match true (re_ts u) as_ts (
        form_match true (re_num u) as_num (
          form_match true (re_mac u) as_mac (
            form_match true (re_uuid u) as_uuid (
              form_match true (re_hex u) as_hex
                (form_match (contains t (codes ":")) (re_ip6 u) as_ip6 (form_rest c t)))))))

  symbol_of_test :
      (c : _) (t : Text)
      → ((length (c ∷ t) == 1) && not (u.is_alnum c)) ≡ true
      → HasForm u punct (c ∷ t)
  symbol_of_test c [] h = symbol (ground arith)
  symbol_of_test c (d ∷ t) h = absurd (ground arith)

  -- `classify` is sound for the patterns: the class that it gives a token is one whose pattern the
  -- whole token matches; `punct` is given to the empty text and to single characters that are not
  -- alphanumeric only; and no single token is `kv`, `quote` or `port`.
  pub classify-HasForm : (t : Text) → HasForm u (classify u t) t
  unfolding classify
  classify-HasForm [] = no_text
  classify-HasForm (c ∷ t) =
      form_if ((length (c ∷ t) == 1) && not (u.is_alnum c)) (symbol_of_test c t) (
        form_if (u.is_digit c || (c == b'+' || c == b'-')) (λ _. form_numeric c (c ∷ t))
          (form_rest c (c ∷ t)))
