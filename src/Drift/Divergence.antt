-- ===== src/Drift/Divergence.antt =====
-- `js_divergence` of uli/drift/parser_drift.py.
use mathlib.Core.Option
use sih_ulpf.Common.{ℕ, ◌+◌, Bool, ◌&&◌, List, [], ◌∷◌, ◌==◌, if◌then◌else◌}
use sih_ulpf.Common.Text.{Text, mem_text}
use sih_ulpf.Common.Dict
use sih_ulpf.Common.Dict.{Dict}
use sih_ulpf.Common.Eq.{text_key}

-- What the module uses of Python's floats.
pub record DriftFloats (F : Type 0) : Type 0 where
  pub lt : F → F → Bool
  pub add : F → F → F
  pub sub : F → F → F
  pub mul : F → F → F
  pub div : F → F → F
  pub log2 : F → F
  pub of_nat : ℕ → F
  pub f_01 : F
  pub f_05 : F
  pub f_09 : F
  pub round_4 : F → F

-- `Counter` over shape hashes
abbrev pub Counter : Type 0
Counter = Dict Text ℕ

unfoldable pub total : Counter → ℕ
total [] = 0
total ((k, n) ∷ c) = n + total c

-- `sum(p.values()) or 1`
abbrev total_or_1 : Counter → ℕ
total_or_1 c = if total c == 0 then 1 else total c

-- `set(p) | set(q)`
unfoldable pub union_keys : Counter → List Text → List Text
union_keys [] keys = keys
union_keys ((k, n) ∷ c) keys =
    let rest = union_keys c keys in if mem_text k rest then rest else k ∷ rest

abbrev pub count_of : Counter → Text → ℕ
count_of c k = Option.get_or (Dict.get k c) 0

module _ {F : Type 0} (num : DriftFloats F) where
  abbrev share : Counter → Text → F
  share c k = num.div (num.of_nat (count_of c k)) (num.of_nat (total_or_1 c))

  abbrev middle : Counter → Counter → Text → F
  middle p q k = num.mul num.f_05 (num.add (share p k) (share q k))

  -- `kl`, from the sum `s` of the keys before
  unfoldable pub kl : (Text → F) → (Text → F) → List Text → F → F
  kl a b [] s = s
  kl a b (k ∷ keys) s =
      let more = kl a b keys (num.add s (num.mul (a k) (num.log2 (num.div (a k) (b k))))) in
      let same = kl a b keys s in
      if num.lt (num.of_nat 0) (a k) && num.lt (num.of_nat 0) (b k) then more else same

  -- `js_divergence`; the order of the keys is the one of the counters
  unfoldable pub js_divergence : Counter → Counter → F
  unfolding total union_keys kl
  js_divergence p q =
      let keys = union_keys p (union_keys q []) in
      let m = middle p q in
      elim keys as (λ _. F) [
        | [] ↦ num.of_nat 0
        | k ∷ ks ↦
            num.add (num.mul num.f_05 (kl (share p) m (k ∷ ks) (num.of_nat 0)))
              (num.mul num.f_05 (kl (share q) m (k ∷ ks) (num.of_nat 0)))
      ]
