-- ===== src/Normalization/Tree.antt =====
-- The values of a `dict[str, Any]` that holds dictionaries and lists, for uli/normalization/ocsf.py.
use sih_ulpf.Common.{
  ℕ, ◌%◌, ◌^◌, Bool, true, false, not, [], ◌∷◌, Option, none, some, if◌then◌else◌, ◌==◌,
}
use sih_ulpf.Common.Int.{ℤ, pos, negsuc}
use sih_ulpf.Common.Text.{Text, text_eq}
use sih_ulpf.Models.{Value}

-- A float stands as its 64 bits.
mutual
  pub data Tree : Type 0 where
    null : Tree
    flag : Bool → Tree
    int : ℤ → Tree
    float : ℕ → Tree
    string : Text → Tree
    array : Items → Tree
    object : Members → Tree

  pub data Items : Type 0 where
    nil : Items
    cons : Tree → Items → Items

  -- the items of a `dict`, in its order
  pub data Members : Type 0 where
    end : Members
    member : Text → Tree → Members → Members

-- `d.get(k)`
unfoldable pub get : Text → Members → Option Tree
get k end = none
get k (member j v d) = if text_eq j k then some v else get k d

-- `d[k] = v`
unfoldable pub put : Text → Tree → Members → Members
put k v end = member k v end
put k v (member j w d) =
    let rest = put k v d in if text_eq j k then member j v d else member j w rest

-- `d.setdefault(k, v)`
unfoldable pub set_default : Text → Tree → Members → Members
set_default k v d = elim (get k d) as (λ _. Members) [ none ↦ put k v d | some old ↦ d ]

-- `bool(v)`
abbrev pub truthy : Tree → Bool
truthy null = false
truthy (flag b) = b
truthy (int (pos n)) = not (n == 0)
truthy (int (negsuc n)) = true
truthy (float b) = not (b % 2 ^ 63 == 0)
truthy (string []) = false
truthy (string (c ∷ s)) = true
truthy (array nil) = false
truthy (array (cons v vs)) = true
truthy (object end) = false
truthy (object (member k v d)) = true

-- `isinstance(v, (str, int, float, bool))`
abbrev pub is_scalar : Tree → Bool
is_scalar (flag b) = true
is_scalar (int n) = true
is_scalar (float b) = true
is_scalar (string s) = true
is_scalar _ = false

abbrev pub of_option : {A : Type 0} → (A → Tree) → Option A → Tree
of_option f none = null
of_option f (some a) = f a

-- A value of `IR.fields`; the numbered ones are what `opened` says.
abbrev pub of_value : (ℕ → Tree) → Value → Tree
of_value opened Value.null = null
of_value opened (Value.flag b) = flag b
of_value opened (Value.int n) = int (pos n)
of_value opened (Value.string s) = string s
of_value opened (Value.nested n) = opened n
