-- ===== src/Api/Auth.antt =====
-- `tenant_id` of uli/api/auth.py and `api_key_map` of uli/config.py.
use sih_ulpf.Common.{ℕ, Bool, List, [], ◌∷◌, Option, none, some, if◌then◌else◌}
use sih_ulpf.Common.Text.{Text, text_eq, codes, starts_with}
use sih_ulpf.Common.Strings.{split_on, split_once, strip}
use sih_ulpf.Common.Dict
use sih_ulpf.Common.Dict.{Dict}
use sih_ulpf.Common.Eq.{text_key}

-- What a handler gives: a value, the status of its `HTTPException`, or another exception.
pub data Answer (A : Type 0) : Type 0 where
  ok : A → Answer A
  http_error : ℕ → Answer A
  raised : Answer A

-- `Settings`, as far as the handlers read it
pub record Settings : Type 0 where
  pub auth : Text
  pub default_tenant : Text
  pub api_keys : Text
  pub max_ingest_body_bytes : ℕ
  pub mode : Text

-- the characters that `strip` removes, and `json.loads` with the keys and values as texts
pub record KeyFormat : Type 0 where
  pub is_space : ℕ → Bool
  pub loads : Text → Option (Dict Text Text)

module _ (f : KeyFormat) where
  -- one pair `key:tenant`; a part without a colon is passed over
  abbrev pub add_pair : Option (Text × Text) → Dict Text Text → Dict Text Text
  add_pair none out = out
  add_pair (some (k, t)) out = Dict.put (strip f.is_space k) (strip f.is_space t) out

  unfoldable pub read_pairs : List Text → Dict Text Text → Dict Text Text
  unfolding split_once
  read_pairs [] out = out
  read_pairs (pair ∷ pairs) out = read_pairs pairs (add_pair (split_once b':' pair) out)

  -- the three forms of a stripped text
  unfoldable pub key_map_of : Text → Option (Dict Text Text)
  unfolding read_pairs split_on
  key_map_of [] = some []
  key_map_of (c ∷ s) =
      if starts_with (c ∷ s) (codes "{")
      then f.loads (c ∷ s)
      else some (read_pairs (split_on b',' (c ∷ s)) [])

  -- `api_key_map`; `none` when the JSON is not right
  unfoldable pub api_key_map : Text → Option (Dict Text Text)
  unfolding key_map_of
  api_key_map api_keys = key_map_of (strip f.is_space api_keys)

  abbrev owner : Option Text → Answer Text
  owner none = http_error 401
  owner (some tenant) = ok tenant

  -- `keymap[x_api_key]`, of a key that is given and in it
  abbrev look_up : Option Text → Dict Text Text → Answer Text
  look_up none keymap = http_error 401
  look_up (some []) keymap = http_error 401
  look_up (some (c ∷ key)) keymap = owner (Dict.get (c ∷ key) keymap)

  -- `tenant_id`
  unfoldable pub tenant_id : Settings → Option Text → Answer Text
  unfolding api_key_map
  tenant_id set x_api_key =
      let with_keys = elim (api_key_map set.api_keys) as (λ _. Answer Text) [
        | none ↦ raised
        | some keymap ↦ look_up x_api_key keymap
      ] in
      if text_eq set.auth (codes "none") then ok set.default_tenant else with_keys
