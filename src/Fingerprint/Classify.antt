-- ===== src/Fingerprint/Classify.antt =====
-- `classify` of uli/fingerprint.py, and the form of the tokens of each class.
pub mod Forms
use sih_ulpf.Common.{
  ℕ, Bool, true, false, ◌&&◌, ◌||◌, not, List, [], ◌∷◌, leb, ltb, ◌==◌, if◌then◌else◌, length,
}
use sih_ulpf.Common.Text.{Text, codes, contains, count_char, any_char, text_eq}
use sih_ulpf.Regex.Defs.{fullmatch}
use sih_ulpf.Models.{
  TokenType, punct, word, num, hex, ip4, ip6, mac, ts, uuid, url, email, path, host,
}
use sih_ulpf.Fingerprint.Unicode.{Unicode}
use sih_ulpf.Fingerprint.Patterns.{
  re_num, re_hex, re_ip4, re_ip6, re_mac, re_uuid, re_url, re_email, re_path, re_host, re_ts,
}

-- `len(tok) > 2 and tok[1] == ":" and tok[2] == "\\"`
abbrev drive_prefix : Text → Bool
drive_prefix (a ∷ b ∷ c ∷ rest) = b == b':' && c == 92
drive_prefix _ = false

module _ (u : Unicode) where
  -- the tests behind `if c.isdigit() or c in "+-"` fall through to those below them
  unfoldable pub classify_rest : ℕ → Text → TokenType
  classify_rest c tok =
      if contains tok (codes "://") && fullmatch (re_url u) tok
      then url
      else if contains tok (codes "@") && fullmatch (re_email u) tok
      then email
      else if (c == b'/' || drive_prefix tok) && fullmatch (re_path u) tok
      then path
      else if contains tok (codes "-") && (length tok == 36 && fullmatch (re_uuid u) tok)
      then uuid
      else if contains tok (codes ":") && fullmatch (re_mac u) tok
      then mac
      else if contains tok (codes ":") && (leb 2 (count_char b':' tok) && fullmatch (re_ip6 u) tok)
      then ip6
      else if fullmatch (re_hex u) tok && any_char u.is_digit tok
      then hex
      else if contains tok (codes ".") && fullmatch (re_host u) tok
      then host
      else word

  unfoldable pub classify_numeric : ℕ → Text → TokenType
  unfolding classify_rest
  classify_numeric c tok =
      if fullmatch (re_ip4 u) tok
      then ip4
      else if fullmatch (re_ts u) tok
      then ts
      else if fullmatch (re_num u) tok
      then num
      else if fullmatch (re_mac u) tok
      then mac
      else if fullmatch (re_uuid u) tok
      then uuid
      else if fullmatch (re_hex u) tok
      then hex
      else if contains tok (codes ":") && fullmatch (re_ip6 u) tok
      then ip6
      else classify_rest c tok

  unfoldable pub classify : Text → TokenType
  unfolding classify_numeric classify_rest
  classify [] = punct
  classify (c ∷ tok) =
      if length (c ∷ tok) == 1 && not (u.is_alnum c)
      then punct
      else if u.is_digit c || (c == b'+' || c == b'-')
      then classify_numeric c (c ∷ tok)
      else classify_rest c (c ∷ tok)
