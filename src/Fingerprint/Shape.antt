-- ===== src/Fingerprint/Shape.antt =====
-- `fingerprint`, `_family`, `shape_ngrams` and `jaccard` of uli/fingerprint.py.
pub mod Classes
pub mod Family
use mathlib.Core.Option
use sih_ulpf.Common.{
  ℕ, zero, suc, ◌+◌, ◌-◌, Bool, true, false, ◌&&◌, ◌||◌, not, List, [], ◌∷◌, ◌++◌, Option, none,
  some, leb, ltb, ◌==◌, if◌then◌else◌, length, take, map,
}
use sih_ulpf.Common.Text.{Text, codes, text_eq, mem_text, all_chars, join}
use sih_ulpf.Models.{
  TokenType, punct, word, num, hex, ip4, ip6, mac, ts, uuid, url, email, path, kv, quote, port,
  host, type_eq,
}
use sih_ulpf.Fingerprint.Unicode.{Unicode}
use sih_ulpf.Fingerprint.Classify.{classify}
use sih_ulpf.Fingerprint.Tokenize.{tokenize}

-- `cls.name`
abbrev pub type_name : TokenType → Text
type_name punct = codes "PUNCT"
type_name word = codes "WORD"
type_name num = codes "NUM"
type_name hex = codes "HEX"
type_name ip4 = codes "IP4"
type_name ip6 = codes "IP6"
type_name mac = codes "MAC"
type_name ts = codes "TS"
type_name uuid = codes "UUID"
type_name url = codes "URL"
type_name email = codes "EMAIL"
type_name path = codes "PATH"
type_name kv = codes "KV"
type_name quote = codes "QUOTE"
type_name port = codes "PORT"
type_name host = codes "HOST"

-- `_MONTHS`
abbrev pub months : List Text
months =
    codes "jan"
    ∷ codes "feb"
    ∷ codes "mar"
    ∷ codes "apr"
    ∷ codes "may"
    ∷ codes "jun"
    ∷ codes "jul"
    ∷ codes "aug"
    ∷ codes "sep"
    ∷ codes "oct"
    ∷ codes "nov"
    ∷ codes "dec"
    ∷ []

-- `_SEV_WORDS`
abbrev pub sev_words : List Text
sev_words =
    codes "emerg"
    ∷ codes "alert"
    ∷ codes "crit"
    ∷ codes "critical"
    ∷ codes "error"
    ∷ codes "err"
    ∷ codes "warn"
    ∷ codes "warning"
    ∷ codes "notice"
    ∷ codes "info"
    ∷ codes "informational"
    ∷ codes "debug"
    ∷ codes "trace"
    ∷ codes "fatal"
    ∷ codes "severe"
    ∷ codes "fine"
    ∷ []

-- The `Fingerprint` of uli/models.py.
pub record Fingerprint : Type 0 where
  pub shape : Text
  pub shape_hash : Text
  pub family_hash : Text
  pub tokens : List Text
  pub classes : List TokenType
  pub token_count : ℕ

-- What the loop of `fingerprint` appends to `classes` and to `shape_parts`.
pub record Scan : Type 0 where
  pub classes : List TokenType
  pub shape_parts : List Text

abbrev emit : List TokenType → Text → Scan → Scan
emit cs part r = record { classes = cs ++ r.classes; shape_parts = part ∷ r.shape_parts }

-- `hashlib.sha1(s.encode()).hexdigest()`
abbrev pub Digest : Type 0
Digest = Text → Text

-- `p in ("WORD", "NUM", "HEX", "SEV")`
abbrev pub is_run_word : Text → Bool
is_run_word p = mem_text p (codes "WORD" ∷ codes "NUM" ∷ codes "HEX" ∷ codes "SEV" ∷ [])

-- `"W" if p in (..) else p`
abbrev pub coarse : Text → Text
coarse p = if is_run_word p then codes "W" else p

-- `q == prev`
abbrev pub is_prev : Option Text → Text → Bool
is_prev none q = false
is_prev (some t) q = text_eq q t

-- The parts that `_family` keeps, given the one that it kept before.
unfoldable pub collapse : Option Text → List Text → List Text
collapse prev [] = []
collapse prev (p ∷ parts) =
    let skipped = collapse prev parts in
    let kept = coarse p ∷ collapse (some (coarse p)) parts in
    if is_prev prev (coarse p) && text_eq (coarse p) (codes "W") then skipped else kept

unfoldable pub family : List Text → Text
unfolding collapse
family parts = join (32 ∷ []) (take 64 (collapse none parts))

module _ (u : Unicode) where
  -- `cls == TokenType.WORD and i + 2 < n and toks[i + 1] == "="`, for the tokens from `i` on
  abbrev is_kv : TokenType → List Text → Bool
  is_kv cls (e ∷ x ∷ rest) = type_eq cls word && text_eq e (codes "=")
  is_kv cls _ = false

  -- `toks[i + 1].isdigit()`
  abbrev is_number : Text → Bool
  is_number [] = false
  is_number (c ∷ s) = all_chars u.is_digit (c ∷ s)

  -- the test for a BSD month name, a day and a time
  abbrev is_bsd_date : TokenType → Text → List Text → Bool
  is_bsd_date cls t (d ∷ x ∷ rest) =
      type_eq cls word
      && (mem_text (u.lower t) months && (is_number d && type_eq (classify u x) ts))
  is_bsd_date cls t _ = false

  -- what is appended to `shape_parts` for one token
  abbrev shape_part : TokenType → Text → Text
  shape_part cls t =
      if type_eq cls punct
      then t
      else if type_eq cls word && mem_text (u.lower t) sev_words
      then codes "SEV"
      else type_name cls

  -- The `while i < n` loop, over the tokens from `i` on. A token that an earlier step has already
  -- passed is counted by `skip`.
  unfoldable pub scan : ℕ → List Text → Scan
  unfolding classify
  scan skip [] = record { classes = []; shape_parts = [] }
  scan (suc skip) (t ∷ toks) = scan skip toks
  scan zero (t ∷ toks) =
      let cls = classify u t in
      let as_kv = emit (kv ∷ punct ∷ []) (codes "KV=") (scan 1 toks) in
      let as_ts = emit (ts ∷ ts ∷ ts ∷ []) (codes "TS") (scan 2 toks) in
      let single = emit (cls ∷ []) (shape_part cls t) (scan 0 toks) in
      if is_kv cls toks then as_kv else if is_bsd_date cls t toks then as_ts else single

  -- what `fingerprint` makes of the tokens
  unfoldable pub of_tokens : Digest → List Text → Fingerprint
  unfolding scan family
  of_tokens sha1_hex toks =
      let r = scan 0 toks in
      let shape = join (32 ∷ []) r.shape_parts in
      record {
        shape = shape;
        shape_hash = take 16 (sha1_hex shape);
        family_hash = take 16 (sha1_hex (family r.shape_parts));
        tokens = toks;
        classes = r.classes;
        token_count = length toks;
      }

  -- `none` is the exception that `tokenize` may raise.
  unfoldable pub fingerprint : Digest → Text → Option Fingerprint
  fingerprint sha1_hex text = Option.map (of_tokens sha1_hex) (tokenize u text)
