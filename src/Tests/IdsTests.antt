-- ===== src/Tests/IdsTests.antt =====
-- Identifiers of two neighbouring milliseconds.
use sih_ulpf.Common.{◌≡◌, true, [], ◌∷◌, ◌+◌, ◌*◌, ◌^◌, ◌<◌, length, arith}
use sih_ulpf.Ids.{ulid, from_bytes}
use sih_ulpf.Ids.Order.{value_of, text_lt, ulid_sorts}

small : from_bytes (1 ∷ 2 ∷ []) < 2 ^ 80
unfolding from_bytes
small = omega arith

ulid_sorts_example :
    (length (ulid 1700000000000 (1 ∷ 2 ∷ [])) ≡ 26)
    × (value_of (ulid 1700000000000 (1 ∷ 2 ∷ []))
        ≡ 1700000000000 * 2 ^ 80 + from_bytes (1 ∷ 2 ∷ []))
    × (text_lt (ulid 1700000000000 (1 ∷ 2 ∷ [])) (ulid 1700000000001 (1 ∷ 2 ∷ [])) ≡ true)
ulid_sorts_example =
    ulid_sorts 1700000000000 1700000000001 (1 ∷ 2 ∷ []) (1 ∷ 2 ∷ []) (omega arith) (omega arith)
      small small
