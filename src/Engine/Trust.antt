-- ===== src/Engine/Trust.antt =====
-- Which packs get into the registry, and that a retired one is gone.
use sih_ulpf.Common.{
  Bool, true, false, [], ◌∷◌, Option, none, some, ◌≡◌, ◌≢◌, refl, ◌∙◌, ◌⊎◌, Bool-cases,
  Option-cases, inl, inr,
}
use sih_ulpf.Common.Text.{Text, text_eq, text_eq_iff}
use sih_ulpf.Common.Dict
use sih_ulpf.Common.Dict.{Dict}
use sih_ulpf.Common.Eq.{text_key, beq_refl}
use sih_ulpf.Engine.Ladder.{Parser}
use sih_ulpf.Engine.Registry.{
  Signing, RegistrySettings, Registry, key_at, verify_with, verify_signature, register_pack,
  retire_pack, without_value,
}

-- The signature was given, and a key of the configured path accepts it for the text: one that was
-- cached under just this path, or the one that its file holds.
pub record Verified {K : Type 0} (crypto : Signing K) (set : RegistrySettings)
    (cache : Option (Text × K)) (yaml : Text) (signature : Option Text) : Type 0 where
  pub given : Text
  pub path : Text
  pub key : K
  pub is_given : signature ≡ some given
  pub configured : set.bundle_pubkey_path ≡ some path
  pub held : (cache ≡ some (path, key)) ⊎ (crypto.read_key path ≡ some key)
  pub accepted : crypto.verify_bytes yaml given key ≡ true

key_at-held :
    {K : Type 0} (crypto : Signing K) (path : Text) (cache : Option (Text × K)) (key : K)
    → key_at crypto path cache ≡ some key
    → (cache ≡ some (path, key)) ⊎ (crypto.read_key path ≡ some key)
unfolding key_at
key_at-held crypto path none key h = inr h
key_at-held {K} crypto path (some (at, cached)) key h = elim (Bool-cases (text_eq at path)) [
  | inl same ↦ inl (cc ((text_key.beq_iff at path).0 same, keys (rw same at h)))
  | inr other ↦ inr (rw other at h)
]
  where
    keys : ◌≡◌ {A = Option K} (some cached) (some key) → cached ≡ key
    keys q = cc

module _ {F K : Type 0} (crypto : Signing K) (set : RegistrySettings) where
  verify_with-Verified :
      (yaml given path : Text) (key : Option K) (r : Registry F K)
      → set.bundle_pubkey_path ≡ some path
      → key_at crypto path r.pubkey_cache ≡ key
      → (verify_with crypto set yaml given path key r).0 ≡ true
      → Verified crypto set r.pubkey_cache yaml (some given)
  unfolding verify_with
  verify_with-Verified yaml given path none r p q h = absurd (false_true h)
    where
      false_true : ◌≡◌ {A = Bool} false true → ⊥
      false_true w = cc
  verify_with-Verified yaml given path (some key) r p q h = record {
    given = given;
    path = path;
    key = key;
    is_given = refl;
    configured = p;
    held = key_at-held crypto path r.pubkey_cache key q;
    accepted = h;
  }

  verify_signature-Verified :
      (yaml : Text) (signature : Option Text) (r : Registry F K)
      → (verify_signature crypto set yaml signature r).0 ≡ true
      → Verified crypto set r.pubkey_cache yaml signature
  unfolding verify_signature
  verify_signature-Verified yaml none r h = absurd (false_true h)
    where
      false_true : ◌≡◌ {A = Bool} false true → ⊥
      false_true q = cc
  verify_signature-Verified yaml (some given) r h = elim (Option-cases set.bundle_pubkey_path) [
    | inl e ↦ absurd (false_true (rw e at h))
    | inr (path, e) ↦
        verify_with-Verified yaml given path (key_at crypto path r.pubkey_cache) r e refl
          (rw e at h)
  ]
    where
      false_true : ◌≡◌ {A = Bool} false true → ⊥
      false_true q = cc

  -- With `bundle_require_signature`, a pack that `register_pack` accepts came with a signature that
  -- a key verifies over exactly its text: the one cached under the configured path, or the one that
  -- the file at this path holds.
  pub register_pack-Verified :
      (load : Text → Text → Option (Parser F)) (yaml origin status : Text) (signature : Option Text)
      (r : Registry F K) (p : Parser F)
      → set.bundle_require_signature ≡ true
      → (register_pack crypto set load yaml origin status signature r).0 ≡ some p
      → Verified crypto set r.pubkey_cache yaml signature
  unfolding register_pack
  register_pack-Verified load yaml origin status signature r p must h =
      elim (Bool-cases (verify_signature crypto set yaml signature r).0) [
        | inl e ↦ verify_signature-Verified yaml signature r e
        | inr e ↦ absurd (none_some (rw (must, e) at h))
      ]
    where
      none_some : ◌≡◌ {A = Option (Parser F)} none (some p) → ⊥
      none_some q = cc

get-without_value :
    (id k v : Text) (d : Dict Text Text) → Dict.get k (without_value id d) ≡ some v → v ≢ id
unfolding without_value Dict.get
get-without_value id k v [] h = absurd (none_some h)
  where
    none_some : ◌≡◌ {A = Option Text} none (some v) → ⊥
    none_some q = cc
get-without_value id k v ((j, w) ∷ d) h = elim (Bool-cases (text_eq w id)) [
  | inl e ↦ get-without_value id k v d (rw e at h)
  | inr e ↦ elim (Bool-cases (text_key.beq j k)) [
    | inl f ↦ λ q. is_not e (is_v (rw (e, f) at h) ∙ q)
    | inr f ↦ get-without_value id k v d (rw (e, f) at h)
  ]
]
  where
    is_v : ◌≡◌ {A = Option Text} (some w) (some v) → w ≡ v
    is_v q = cc

    is_not : text_eq w id ≡ false → w ≢ id
    is_not e q = cc (e, (text_eq_iff w id).1 q)

-- After `retire_pack` the pack is neither in the registry nor the target of any shape in the
-- routing cache.
pub retire_pack-gone :
    {F K : Type 0} (id shape : Text) (r : Registry F K)
    → (◌≡◌ {A = Option (Parser F)} (Dict.get id (retire_pack id r).1.declarative) none)
      × (Dict.get shape (retire_pack id r).1.routing_cache ≢ some id)
unfolding retire_pack
retire_pack-gone {F} {K} id shape r = elim (Option-cases (Dict.get id r.declarative)) [
  | inl e ↦
      rw (e, retire_pack)
        (get-remove_own, λ h. get-without_value id shape id r.routing_cache h refl)
  | inr (p, e) ↦
      rw (e, retire_pack)
        (get-remove_own, λ h. get-without_value id shape id r.routing_cache h refl)
]
  where
    get-remove_own : ◌≡◌ {A = Option (Parser F)} (Dict.get id (Dict.remove id r.declarative)) none
    get-remove_own = Dict.get-remove id id r.declarative ∙ rw (beq_refl id) refl
