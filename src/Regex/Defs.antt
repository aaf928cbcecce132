-- ===== src/Regex/Defs.antt =====
-- The patterns, the texts that they describe, and the decision of `fullmatch` by derivatives.
use sih_ulpf.Common.{
  ℕ, zero, suc, ◌-◌, ◌≡◌, Bool, true, false, ◌&&◌, ◌||◌, [], ◌∷◌, ◌++◌, ◌==◌, if◌then◌else◌,
}
use sih_ulpf.Common.Text.{Text}

pub data Re : Type 0 where
  empty eps : Re
  one_of : (ℕ → Bool) → Re
  seq alt : Re → Re → Re
  star : Re → Re

-- The texts of a pattern.
pub data Matches : Re → Text → Type 0 where
  m_eps : Matches eps []
  m_one : {p : ℕ → Bool} {c : ℕ} → p c ≡ true → Matches (one_of p) (c ∷ [])
  m_seq : {r q : Re} {s t u : Text} → Matches r s → Matches q t → u ≡ s ++ t → Matches (seq r q) u
  m_left : {r q : Re} {u : Text} → Matches r u → Matches (alt r q) u
  m_right : {r q : Re} {u : Text} → Matches q u → Matches (alt r q) u
  m_stop : {r : Re} → Matches (star r) []
  m_more :
      {r : Re} {s t u : Text} → Matches r s → Matches (star r) t → u ≡ s ++ t → Matches (star r) u

abbrev pub char : ℕ → Re
char c = one_of (λ a. a == c)

abbrev pub lit : Text → Re
lit [] = eps
lit (c ∷ []) = char c
lit (c ∷ d ∷ s) = seq (char c) (lit (d ∷ s))

-- `r?`, greedy
abbrev pub opt : Re → Re
opt r = alt r eps

-- `r+`
abbrev pub plus : Re → Re
plus r = seq r (star r)

-- `r{n}`
abbrev pub times : ℕ → Re → Re
times zero r = eps
times (suc zero) r = r
times (suc (suc n)) r = seq r (times (suc n) r)

-- `r{0,n}`
abbrev pub up_to : ℕ → Re → Re
up_to zero r = eps
up_to (suc n) r = opt (seq r (up_to n r))

-- `r{lo,hi}`
abbrev pub between : ℕ → ℕ → Re → Re
between lo hi r = seq (times lo r) (up_to (hi - lo) r)

unfoldable pub nullable : Re → Bool
nullable empty = false
nullable eps = true
nullable (one_of p) = false
nullable (seq r q) = nullable r && nullable q
nullable (alt r q) = nullable r || nullable q
nullable (star r) = true

-- `seq` and `alt`, less the parts that match nothing
unfoldable pub mk_seq : Re → Re → Re
mk_seq empty q = empty
mk_seq eps q = q
mk_seq r q = seq r q

unfoldable pub mk_alt : Re → Re → Re
mk_alt empty q = q
mk_alt r empty = r
mk_alt r q = alt r q

-- The texts `s` for which the pattern has `c ∷ s`.
unfoldable pub deriv : ℕ → Re → Re
unfolding nullable mk_seq mk_alt
deriv c empty = empty
deriv c eps = empty
deriv c (one_of p) = if p c then eps else empty
deriv c (seq r q) =
    let first = mk_seq (deriv c r) q in
    let later = mk_alt first (deriv c q) in if nullable r then later else first
deriv c (alt r q) = mk_alt (deriv c r) (deriv c q)
deriv c (star r) = mk_seq (deriv c r) (star r)

-- `re.fullmatch`
unfoldable pub fullmatch : Re → Text → Bool
unfolding nullable deriv
fullmatch r [] = nullable r
fullmatch r (c ∷ s) = fullmatch (deriv c r) s
