-- ===== src/Inference/Bounded.antt =====
-- The observables of a line: at most 64 of them, and none twice.
use sih_ulpf.Common.{
  ℕ, ◌≤◌, ◌≡◌, refl, ◌∙◌, Bool, true, false, ◌&&◌, ◌||◌, ◌==◌, ltb, ltb→lt, List, [], ◌∷◌, ◌++◌,
  Option, none, some, if◌then◌else◌, length, length-append, Bool-cases, inl, inr, arith,
}
use sih_ulpf.Common.Text.{Text, codes, text_eq, text_eq_iff}
use sih_ulpf.Models.{
  TokenType, punct, word, num, hex, ip4, ip6, mac, ts, uuid, url, email, path, kv, quote, port,
  host, Observable,
}
use sih_ulpf.Fingerprint.Unicode.{Unicode}
use sih_ulpf.Normalization.Body.{Fields}
use sih_ulpf.Timestamps.{Dates, Grammar, parse_timestamp}
use sih_ulpf.Structural.Severity.{Scalars}
use sih_ulpf.Inference.Observe.{
  Draft, Finders, Seen, has_obs, add_obs, add_port, colon_parts, note_token, note_tokens,
  infer_from_tokens, infer_kv, infer_users_from, try_user, add_hashes,
}
use sih_ulpf.Inference.Roles.{
  endpoint_roles, with_stamp, infer_time, infer_severity, finish, observed, infer,
}

-- no observable has the type and the value of a later one
abbrev pub Unrepeated : List Observable → Type 0
Unrepeated [] = Unit
Unrepeated (o ∷ os) = (has_obs o.type_id o.value os ≡ false) × Unrepeated os

pub record IsTidy (os : List Observable) : Type 0 where
  pub few : length os ≤ 64
  pub unrepeated : Unrepeated os

has_obs-append :
    (ty : ℕ) (v : Text) (os : List Observable) (o : Observable)
    → has_obs ty v (os ++ (o ∷ [])) ≡ (has_obs ty v os || ((o.type_id == ty) && text_eq o.value v))
unfolding has_obs
has_obs-append ty v [] o = ground arith
has_obs-append ty v (a ∷ os) o = ground (arith, has_obs-append ty v os o)

flipped :
    (a o : Observable) (rest : Bool)
    → (((a.type_id == o.type_id) && text_eq a.value o.value) || rest) ≡ false
    → (((o.type_id == a.type_id) && text_eq o.value a.value) ≡ false) × (rest ≡ false)
flipped a o rest h = ground (arith, text_eq_iff a.value o.value, text_eq_iff o.value a.value)

Unrepeated-append :
    (os : List Observable) (o : Observable)
    → has_obs o.type_id o.value os ≡ false
    → Unrepeated os
    → Unrepeated (os ++ (o ∷ []))
unfolding has_obs
Unrepeated-append [] o fresh h = (refl, tt)
Unrepeated-append (a ∷ os) o fresh (new, h) =
    let (apart, rest) = flipped a o (has_obs o.type_id o.value os) fresh in
    (has_obs-append a.type_id a.value os o ∙ rw (new, apart) refl, Unrepeated-append os o rest h)

add_obs-IsTidy :
    (name : Text) (ty : ℕ) (v : Text) (os : List Observable)
    → IsTidy os
    → IsTidy (add_obs name ty v os)
unfolding add_obs
add_obs-IsTidy name ty [] os h = h
add_obs-IsTidy name ty (c ∷ v) os h = elim (Bool-cases (has_obs ty (c ∷ v) os)) [
  | inl there ↦ rw there h
  | inr fresh ↦ elim (Bool-cases (ltb (length os) 64)) [
    | inl room ↦
        rw (fresh, room)
          (record {
            few = omega (
              arith,
              ltb→lt _ _ room,
              length-append {0} os (record { name = name; type_id = ty; value = c ∷ v } ∷ []),
            );
            unrepeated = Unrepeated-append os _ fresh h.unrepeated;
          })
    | inr full ↦ rw (fresh, full) h
  ]
]

add_port-IsTidy :
    (o : Option (Text × Text)) (os : List Observable) → IsTidy os → IsTidy (add_port o os)
add_port-IsTidy none os h = h
add_port-IsTidy (some p) os h = add_obs-IsTidy (codes "port") 10 p.1 os h

either-IsTidy :
    (b : Bool) (x y : List Observable) → IsTidy x → IsTidy y → IsTidy (if b then x else y)
either-IsTidy true x y h k = h
either-IsTidy false x y h k = k

either_seen : (b : Bool) (x y : Seen) → IsTidy x.1 → IsTidy y.1 → IsTidy (if b then x else y).1
either_seen true x y h k = h
either_seen false x y h k = k

module _ (u : Unicode) where
  note_token-IsTidy :
      (tok : Text) (cls : TokenType) (s : Seen) → IsTidy s.1 → IsTidy (note_token u tok cls s).1
  unfolding note_token
  note_token-IsTidy tok ip4 (ips, os) h =
      add_port-IsTidy (colon_parts tok) _ (add_obs-IsTidy (codes "ip") 2 _ os h)
  note_token-IsTidy tok ip6 (ips, os) h =
      either_seen _ _ _ (add_obs-IsTidy (codes "ip") 2 tok os h) h
  note_token-IsTidy tok mac (ips, os) h = add_obs-IsTidy (codes "mac") 3 tok os h
  note_token-IsTidy tok url (ips, os) h = add_obs-IsTidy (codes "url") 6 _ os h
  note_token-IsTidy tok email (ips, os) h = add_obs-IsTidy (codes "email") 5 tok os h
  note_token-IsTidy tok host (ips, os) h =
      either-IsTidy _ _ _ (add_obs-IsTidy (codes "hostname") 1 tok os h) h
  note_token-IsTidy tok path (ips, os) h =
      either-IsTidy _ _ _ (add_obs-IsTidy (codes "file") 7 tok os h) h
  note_token-IsTidy tok punct s h = h
  note_token-IsTidy tok word s h = h
  note_token-IsTidy tok num s h = h
  note_token-IsTidy tok hex s h = h
  note_token-IsTidy tok ts s h = h
  note_token-IsTidy tok uuid s h = h
  note_token-IsTidy tok kv s h = h
  note_token-IsTidy tok quote s h = h
  note_token-IsTidy tok port s h = h

  note_tokens-IsTidy :
      (toks : List Text) (classes : List TokenType) (s : Seen)
      → IsTidy s.1
      → IsTidy (note_tokens u toks classes s).1
  unfolding note_tokens
  note_tokens-IsTidy [] [] s h = h
  note_tokens-IsTidy [] (cls ∷ classes) s h = h
  note_tokens-IsTidy (tok ∷ toks) [] s h = h
  note_tokens-IsTidy (tok ∷ toks) (cls ∷ classes) s h =
      note_tokens-IsTidy toks classes (note_token u tok cls s) (note_token-IsTidy tok cls s h)

module _ (u : Unicode) (dates : Dates) (sc : Scalars) (find : Finders) where
  either_draft :
      (b : Bool) (x y : Draft)
      → IsTidy x.observables
      → IsTidy y.observables
      → IsTidy (if b then x else y).observables
  either_draft true x y h k = h
  either_draft false x y h k = k

  try_user-IsTidy :
      (o : Option Text) (later d : Draft)
      → IsTidy later.observables
      → IsTidy d.observables
      → IsTidy (try_user u find o later d).observables
  try_user-IsTidy none later d h k = h
  try_user-IsTidy (some m) later d h k =
      either_draft _ later _ h (add_obs-IsTidy (codes "user") 4 _ d.observables k)

  users-IsTidy :
      (pats : List (Text → Option Text)) (text : Text) (d : Draft)
      → IsTidy d.observables
      → IsTidy (infer_users_from u find pats text d).observables
  unfolding infer_users_from
  users-IsTidy [] text d h = h
  users-IsTidy (pat ∷ pats) text d h =
      try_user-IsTidy (pat text) (infer_users_from u find pats text d) d
        (users-IsTidy pats text d h) h

  hashes-IsTidy :
      (hs : List Text) (os : List Observable) → IsTidy os → IsTidy (add_hashes u find hs os)
  unfolding add_hashes
  hashes-IsTidy [] os h = h
  hashes-IsTidy (x ∷ hs) os h = hashes-IsTidy hs _ (add_obs-IsTidy (codes "hash") 8 x os h)

  time-observables :
      (text : Text) (o : Option ℕ) (d : Draft)
      → (infer_time u dates sc find text o d).observables ≡ d.observables
  time-observables text none d = go (parse_timestamp dates text 96)
    where
      go :
          (o : Option (ℕ × (Grammar × Text)))
          → (with_stamp u dates sc find o d).observables ≡ d.observables
      go none = refl
      go (some s) = refl
  time-observables text (some t) d = refl

  severity-observables :
      (text : Text) (o : Option ℕ) (d : Draft)
      → (infer_severity u dates sc find text o d).observables ≡ d.observables
  severity-observables text none d = refl
  severity-observables text (some n) d = refl

  finish-observables :
      (p : Fields × Option Text) (d : Draft)
      → (finish u dates sc find p d).observables ≡ d.observables
  finish-observables (f, none) d = refl
  finish-observables (f, some e) d = refl

  observed-IsTidy :
      (text : Text) (toks : List Text) (classes : List TokenType) (d : Draft)
      → IsTidy d.observables
      → IsTidy (observed u dates sc find text toks classes d).observables
  unfolding observed infer_from_tokens infer_kv
  observed-IsTidy text toks classes d h =
      rw (severity-observables text _ _, time-observables text _ _)
        (hashes-IsTidy (find.hashes text) _ (
          users-IsTidy find.user_patterns text _
            (note_tokens-IsTidy u toks classes ([], d.observables) h)))

  -- `infer` keeps the observables of a result few and distinct: if there are at most 64 of them, no
  -- two with the same type and value, then so there are after it.
  pub infer-IsTidy :
      (text : Text) (toks : List Text) (classes : List TokenType) (d : Draft)
      → IsTidy d.observables
      → IsTidy (infer u dates sc find text toks classes d).observables
  unfolding infer
  infer-IsTidy text toks classes d h =
      rw
        (finish-observables (endpoint_roles u sc.str_of _)
          (observed u dates sc find text toks classes d))
        (observed-IsTidy text toks classes d h)
