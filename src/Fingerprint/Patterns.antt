-- ===== src/Fingerprint/Patterns.antt =====
-- The regular expressions of uli/fingerprint.py.
use sih_ulpf.Common.{ℕ, Bool, ◌&&◌, ◌||◌, not, leb, ◌==◌}
use sih_ulpf.Common.Text.{codes}
use sih_ulpf.Regex.Defs.{Re, one_of, seq, alt, star, char, lit, opt, plus, times, up_to, between}
use sih_ulpf.Fingerprint.Unicode.{Unicode, is_letter_ascii, is_digit_ascii}

-- `[0-9a-fA-F]`
abbrev pub is_hex : ℕ → Bool
is_hex c = is_digit_ascii c || ((leb b'a' c && leb c b'f') || (leb b'A' c && leb c b'F'))

abbrev hex_digit : Re
hex_digit = one_of is_hex

abbrev either : ℕ → ℕ → Re
either a b = one_of (λ c. c == a || c == b)

module _ (u : Unicode) where
  -- `\w`
  abbrev pub is_word : ℕ → Bool
  is_word c = u.is_alnum c || c == b'_'

  abbrev dig : Re
  dig = one_of u.is_decimal

  abbrev pub re_num : Re
  re_num = seq (opt (either b'+' b'-')) (seq (plus dig) (opt (seq (char b'.') (plus dig))))

  abbrev pub re_hex : Re
  re_hex = seq (opt (lit (codes "0x"))) (seq (times 6 hex_digit) (star hex_digit))

  abbrev pub re_ip4 : Re
  re_ip4 =
      seq (times 3 (seq (between 1 3 dig) (char b'.')))
        (seq (between 1 3 dig) (opt (seq (char b':') (between 1 5 dig))))

  abbrev pub re_ip6 : Re
  re_ip6 =
      seq (between 2 7 (seq (up_to 4 hex_digit) (char b':')))
        (seq (up_to 4 hex_digit) (opt (seq (char b'%') (plus (one_of is_word)))))

  abbrev pub re_mac : Re
  re_mac = seq (times 5 (seq (times 2 hex_digit) (either b':' b'-'))) (times 2 hex_digit)

  abbrev pub re_uuid : Re
  re_uuid = seq (times 8 hex_digit) (
      seq (char b'-') (
        seq (times 4 hex_digit) (
          seq (char b'-') (
            seq (times 4 hex_digit)
              (seq (char b'-') (seq (times 4 hex_digit) (seq (char b'-') (times 12 hex_digit))))))))

  abbrev pub re_url : Re
  re_url = seq (one_of is_letter_ascii) (
      seq
        (star (
          one_of (λ c.
            (is_letter_ascii c || is_digit_ascii c) || (c == b'+' || (c == b'.' || c == b'-')))))
        (seq (lit (codes "://")) (plus (one_of (λ c. not (u.is_space c))))))

  abbrev pub re_email : Re
  re_email = seq (plus (one_of (λ c. is_word c || (c == b'.' || (c == b'+' || c == b'-'))))) (
      seq (char b'@') (
        seq (plus (one_of (λ c. is_word c || c == b'-')))
          (plus (seq (char b'.') (plus (one_of (λ c. is_word c || c == b'-')))))))

  abbrev path_part : Re
  path_part = one_of (λ c. is_word c || (c == b'.' || c == b'-'))

  abbrev pub re_path : Re
  re_path = alt (seq (char b'/') (seq (star (seq (plus path_part) (char b'/'))) (star path_part))) (
      seq (one_of is_letter_ascii)
        (seq (char b':') (seq (char 92) (star (one_of (λ c. not (u.is_space c)))))))

  abbrev host_part : Re
  host_part = one_of (λ c. is_letter_ascii c || is_digit_ascii c)

  abbrev pub re_host : Re
  re_host = seq host_part (
      seq
        (plus (
          seq (up_to 62 (one_of (λ c. is_letter_ascii c || (is_digit_ascii c || c == b'-'))))
            (char b'.')))
        (seq (times 2 (one_of is_letter_ascii)) (star (one_of is_letter_ascii))))

  -- `\d{2}:\d{2}`, `\d{2}:\d{2}:\d{2}`
  abbrev hour_minute : Re
  hour_minute = seq (times 2 dig) (seq (char b':') (times 2 dig))

  abbrev clock : Re
  clock = seq (times 2 dig) (seq (char b':') hour_minute)

  -- `(?:[.,]\d+)?`
  abbrev fraction : Re
  fraction = opt (seq (either b'.' b',') (plus dig))

  -- `(?:Z|[+-]\d{2}:?\d{2})?`
  abbrev zone : Re
  zone = opt (
      alt (char b'Z')
        (seq (either b'+' b'-') (seq (times 2 dig) (seq (opt (char b':')) (times 2 dig)))))

  -- `\d{4}-\d{2}-\d{2}`
  abbrev date : Re
  date = seq (times 4 dig) (seq (char b'-') (seq (times 2 dig) (seq (char b'-') (times 2 dig))))

  abbrev ts_iso : Re
  ts_iso = seq date (
      opt (
        seq (one_of (λ c. c == b'T' || c == 32))
          (seq hour_minute (seq (opt (seq (char b':') (seq (times 2 dig) fraction))) zone))))

  abbrev ts_healthapp : Re
  ts_healthapp = seq (times 8 dig) (seq (char b'-') (seq clock (opt (seq (char b':') (plus dig)))))

  abbrev ts_clf : Re
  ts_clf = seq (times 2 dig) (
      seq (char b'/') (
        seq (times 3 (one_of is_letter_ascii))
          (seq (char b'/') (seq (times 4 dig) (seq (char b':') clock)))))

  abbrev ts_android : Re
  ts_android =
      seq (times 2 dig) (
        seq (char b'-')
          (seq (times 2 dig) (seq (char 32) (seq clock (seq (char b'.') (plus dig))))))

  abbrev ts_epoch : Re
  ts_epoch = seq (times 10 dig) (opt (seq (char b'.') (plus dig)))

  abbrev pub re_ts : Re
  re_ts = alt ts_iso (
      alt (seq clock fraction)
        (alt ts_healthapp (alt ts_clf (alt ts_android (alt ts_epoch (times 13 dig))))))

  -- `_RE_TS_ATOM`
  abbrev pub re_ts_atom : Re
  re_ts_atom =
      alt (seq clock fraction)
        (seq date (seq (one_of (λ c. c == b'T' || c == 32)) (seq clock (seq fraction zone))))
