-- ===== src/Ids.antt =====
-- uli/ids.py: time-ordered identifiers of 26 characters.
pub mod Order
use mathlib.Core.List.{foldl}
use sih_ulpf.Common.{ℕ, zero, suc, ◌+◌, ◌*◌, ◌/◌, ◌%◌, ◌^◌, List, [], ◌∷◌, reverse, get_or}
use sih_ulpf.Common.Text.{Text, codes}

-- `_ENC`
abbrev pub alphabet : Text
alphabet = codes "0123456789ABCDEFGHJKMNPQRSTVWXYZ"

-- `_ENC[d]`
abbrev pub digit : ℕ → ℕ
digit d = get_or alphabet d 0

-- `out` of the loop, of `n` rounds: `v & 31` is `v % 32`, and `v >>= 5` is `v / 32`
unfoldable pub emit : ℕ → ℕ → Text
emit zero v = []
emit (suc n) v = digit (v % 32) ∷ emit n (v / 32)

-- `int.from_bytes(.., "big")`
unfoldable pub from_bytes : List ℕ → ℕ
from_bytes bytes = foldl (λ n b. n * 256 + b) 0 bytes

-- `ulid`, of the clock and the ten bytes of `os.urandom`; these are below `2 ^ 80`, so that `|` adds.
unfoldable pub ulid : ℕ → List ℕ → Text
unfolding emit from_bytes
ulid ts_ms random = reverse (emit 26 (ts_ms * 2 ^ 80 + from_bytes random))
