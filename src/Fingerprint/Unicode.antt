-- ===== src/Fingerprint/Unicode.antt =====
-- What the character tables of Python say: these are data of the interpreter, so they are a
-- parameter. `ascii` is the instance that is right for ASCII text.
use sih_ulpf.Common.{ℕ, ◌+◌, Bool, ◌&&◌, ◌||◌, map, leb, ◌==◌, if◌then◌else◌}
use sih_ulpf.Common.Text.{Text}

pub record Unicode : Type 0 where
  pub is_space : ℕ → Bool  -- `str.isspace` and `\s`
  pub is_alnum : ℕ → Bool  -- `str.isalnum`
  pub is_digit : ℕ → Bool  -- `str.isdigit`
  pub is_decimal : ℕ → Bool  -- `\d`
  pub lower : Text → Text  -- `str.lower`

abbrev pub is_upper_ascii : ℕ → Bool
is_upper_ascii c = leb b'A' c && leb c b'Z'

-- `[a-zA-Z]`
abbrev pub is_letter_ascii : ℕ → Bool
is_letter_ascii c = (leb b'a' c && leb c b'z') || is_upper_ascii c

abbrev pub is_digit_ascii : ℕ → Bool
is_digit_ascii c = leb b'0' c && leb c b'9'

abbrev pub ascii : Unicode
ascii = record {
  is_space = λ c. c == 32 || ((leb 9 c && leb c 13) || (leb 28 c && leb c 31));
  is_alnum = λ c. is_letter_ascii c || is_digit_ascii c;
  is_digit = is_digit_ascii;
  is_decimal = is_digit_ascii;
  lower = map (λ c. if is_upper_ascii c then c + 32 else c);
}
