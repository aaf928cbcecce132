-- ===== src/Engine/Registry.antt =====
-- `register_pack`, `retire_pack` and `_verify_signature` of uli/engine.py.
use sih_ulpf.Common.{
  Bool, true, false, ◌&&◌, not, List, [], ◌∷◌, ◌++◌, Option, none, some, if◌then◌else◌,
}
use sih_ulpf.Common.Text.{Text, codes, text_eq}
use sih_ulpf.Common.Dict
use sih_ulpf.Common.Dict.{Dict}
use sih_ulpf.Common.Eq.{text_key}
use sih_ulpf.Engine.Ladder.{Parser}

-- uli/security/signing.py and the file that holds the key, over the type of keys. `read_key` is
-- `none` when reading or parsing raises what `_verify_signature` catches.
pub record Signing (K : Type 0) : Type 0 where
  pub read_key : Text → Option K
  pub verify_bytes : Text → Text → K → Bool
  pub sha256_hex : Text → Text

pub record RegistrySettings : Type 0 where
  pub bundle_pubkey_path : Option Text
  pub bundle_require_signature : Bool

-- What a row of the storage is told.
pub data Write : Type 0 where
  upsert_pack : Text → Text → Text → Text → Text → Bool → Write  -- id, version, status, yaml, SHA-256, signature_ok
  upsert_status : Text → Text → Write
  audit : Text → Text → Bool → Write  -- id, origin, signature_ok

pub record Registry (F K : Type 0) : Type 0 where
  pub declarative : Dict Text (Parser F)
  pub routing_cache : Dict Text Text
  pub pubkey_cache : Option (Text × K)
  pub writes : List Write

-- `{k: v for k, v in d.items() if v != parser_id}`
unfoldable pub without_value : Text → Dict Text Text → Dict Text Text
without_value id [] = []
without_value id ((k, v) ∷ d) =
    let rest = without_value id d in if text_eq v id then rest else (k, v) ∷ rest

-- the key in use, from the cache if its path is still the one configured
unfoldable pub key_at : {K : Type 0} → Signing K → Text → Option (Text × K) → Option K
key_at crypto path none = crypto.read_key path
key_at crypto path (some (at, key)) = if text_eq at path then some key else crypto.read_key path

module _ {F K : Type 0} (crypto : Signing K) (set : RegistrySettings) where
  unfoldable pub verify_with : Text → Text → Text → Option K → Registry F K → Bool × Registry F K
  verify_with yaml signature path none r = (false, r)
  verify_with yaml signature path (some key) r =
      (crypto.verify_bytes yaml signature key, record r { pubkey_cache = some (path, key) })

  unfoldable pub verify_signature : Text → Option Text → Registry F K → Bool × Registry F K
  unfolding key_at verify_with
  verify_signature yaml none r = (false, r)
  verify_signature yaml (some signature) r =
      elim set.bundle_pubkey_path as (λ _. Bool × Registry F K) [
        | none ↦ (false, r)
        | some path ↦ verify_with yaml signature path (key_at crypto path r.pubkey_cache) r
      ]

  -- `register_pack` behind the checks
  unfoldable pub install : Text → Text → Text → Bool → Parser F → Registry F K → Registry F K
  install yaml origin status ok p r = record r {
    declarative = Dict.put p.id p r.declarative;
    routing_cache = [];
    writes =
        r.writes
        ++ (upsert_pack p.id p.version status yaml (crypto.sha256_hex yaml) ok
            ∷ audit p.id origin ok
            ∷ []);
  }

  -- `register_pack`; `load` is `load_pack_yaml`, which raises on a pack that is not valid. With `none`
  -- it has raised; the cached key is kept then too, as the caller still holds the registry.
  unfoldable pub register_pack :
      (Text → Text → Option (Parser F))
      → Text
      → Text
      → Text
      → Option Text
      → Registry F K
      → Option (Parser F) × Registry F K
  unfolding verify_signature install
  register_pack load yaml origin status signature r =
      let (ok, r') = verify_signature yaml signature r in
      if set.bundle_require_signature && not ok
      then (none, r')
      else elim (load yaml status) as (λ _. Option (Parser F) × Registry F K) [
        | none ↦ (none, r')
        | some p ↦ (some p, install yaml origin status ok p r')
      ]

unfoldable pub retire_pack : {F K : Type 0} → Text → Registry F K → Bool × Registry F K
unfolding without_value
retire_pack {F} {K} id r =
    let cache = without_value id r.routing_cache in
    elim (Dict.get id r.declarative) as (λ _. Bool × Registry F K) [
      | none ↦
          (false, record r { declarative = Dict.remove id r.declarative; routing_cache = cache })
      | some p ↦ (
        true,
        record r {
          declarative = Dict.remove id r.declarative;
          routing_cache = cache;
          writes = r.writes ++ (upsert_status id (codes "retired") ∷ []);
        },
      )
    ]
