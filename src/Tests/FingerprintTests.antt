-- ===== src/Tests/FingerprintTests.antt =====
-- Runs of `tokenize` and `fingerprint`.
use sih_ulpf.Common.{List, ◌++◌, some, none, [], ◌∷◌, ◌≡◌, ◌≤◌, refl, length}
use sih_ulpf.Common.Text.{
  codes, contains, replace_from, all_chars, text_eq, mem_text, Text, count_char,
}
use sih_ulpf.Regex.Defs.{fullmatch}
use sih_ulpf.Fingerprint.Unicode.{ascii}
use sih_ulpf.Fingerprint.Tokenize.{tokenize, ts_sentinel, max_tokens}
use sih_ulpf.Fingerprint.Tokenize.Total.{tokenize_total}
use sih_ulpf.Fingerprint.Classify.{classify}
use sih_ulpf.Fingerprint.Classify.Forms.{HasForm, classify-HasForm}
use sih_ulpf.Fingerprint.Shape.Classes.{fingerprint-classes}
use sih_ulpf.Fingerprint.Shape.Family.{family_run}
use sih_ulpf.Fingerprint.Shape.{scan, Fingerprint, of_tokens, fingerprint, family}

tokenize_line :
    tokenize ascii (codes "a=1 12:30:00 b")
    ≡ some (codes "a" ∷ codes "=" ∷ codes "1" ∷ codes "12:30:00" ∷ codes "b" ∷ [])
unfolding tokenize all_chars contains replace_from
tokenize_line = refl

scan_line :
    (scan ascii 0 (
      codes "Jun"
      ∷ codes "14"
      ∷ codes "15:16:01"
      ∷ codes "web1"
      ∷ codes "1.2.3.4"
      ∷ codes "user"
      ∷ codes "="
      ∷ codes "bob"
      ∷ [])).shape_parts
    ≡ codes "TS" ∷ codes "WORD" ∷ codes "IP4" ∷ codes "KV=" ∷ codes "WORD" ∷ []
unfolding scan contains fullmatch text_eq mem_text all_chars
scan_line = refl

-- A part with two clock times gets the first of them twice.
tokenize_two_times :
    tokenize ascii (codes "12:00:00-13:00:00") ≡ some (codes "12:00:00-12:00:00" ∷ [])
unfolding tokenize all_chars contains replace_from
tokenize_two_times = refl

-- The sentinel in a line makes `tokenize` raise.
tokenize_sentinel : tokenize ascii (codes "x" ++ ts_sentinel) ≡ none
unfolding tokenize all_chars contains replace_from
tokenize_sentinel = refl

-- Two spaces in place of one make another shape.
tokenize_spaces :
    (tokenize ascii (codes "2024-01-02 10:00:00") ≡ some (codes "2024-01-02 10:00:00" ∷ []))
    × (tokenize ascii (codes "2024-01-02  10:00:00")
        ≡ some (codes "2024-01-02" ∷ codes "10:00:00" ∷ []))
unfolding tokenize all_chars contains replace_from
tokenize_spaces = (refl, refl)

tokenize_total_example : (toks : List Text) × (tokenize ascii (codes "at 12:30:00 ok") ≡ some toks)
unfolding count_char
tokenize_total_example = tokenize_total ascii (codes "at 12:30:00 ok") refl

classify-HasForm_example : HasForm ascii (classify ascii (codes "10.0.0.1")) (codes "10.0.0.1")
classify-HasForm_example = classify-HasForm ascii (codes "10.0.0.1")

abbrev two_words : Fingerprint
two_words = of_tokens ascii (λ s. s) (codes "up" ∷ codes "12" ∷ [])

fingerprint-classes_example :
    (length two_words.classes ≡ two_words.token_count)
    × (length two_words.tokens ≡ two_words.token_count)
    × (two_words.token_count ≤ max_tokens)
unfolding fingerprint tokenize all_chars contains replace_from
fingerprint-classes_example =
    fingerprint-classes ascii (λ s. s) (codes "up 12") {fp = two_words} refl

family_run_example :
    family (codes "TS" ∷ codes "WORD" ∷ codes "NUM" ∷ codes "IP4" ∷ [])
    ≡ family (codes "TS" ∷ codes "HEX" ∷ codes "IP4" ∷ [])
unfolding mem_text text_eq
family_run_example =
    family_run (codes "WORD") (codes "NUM") (codes "HEX") refl refl refl (codes "TS" ∷ [])
      (codes "IP4" ∷ [])
