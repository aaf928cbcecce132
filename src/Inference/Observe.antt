-- ===== src/Inference/Observe.antt =====
-- `_add_obs`, `_infer_from_tokens`, `_infer_kv`, `_infer_users` and `_infer_hashes` of
-- uli/parsers/inference.py.
use sih_ulpf.Common.{
  ℕ, Bool, true, false, not, ◌&&◌, ◌||◌, List, [], ◌∷◌, ◌++◌, Option, none, some, leb, ltb, ◌==◌,
  if◌then◌else◌, length, take,
}
use sih_ulpf.Common.Text.{Text, codes, text_eq, mem_text, count_char, replace_all}
use sih_ulpf.Common.Strings.{split_once, strip, drop_last_while, ends_with_any, all_of}
use sih_ulpf.Common.Dict
use sih_ulpf.Common.Dict.{Dict}
use sih_ulpf.Common.Eq.{text_key}
use sih_ulpf.Models.{TokenType, ip4, ip6, mac, url, email, path, host, Observable}
use sih_ulpf.Regex.Defs.{fullmatch}
use sih_ulpf.Fingerprint.Unicode.{Unicode}
use sih_ulpf.Fingerprint.Patterns.{re_ip6, re_mac}
use sih_ulpf.Normalization.Tree.{Tree, Items, string, array, nil, cons}
use sih_ulpf.Normalization.Body.{Fields}

-- What of an `IR` the inference reads and writes.
pub record Draft : Type 0 where
  pub fields : Fields
  pub observables : List Observable
  pub timestamp : Option ℕ
  pub severity : Option ℕ
  pub errors : List Text

-- What the regular expressions find in a text: the keys and values of `_KV_ANY.finditer`, the user of
-- each of the `_USER_PATTERNS`, the texts of `_HASH.finditer` and the word of `_SEV_ANY`.
pub record Finders : Type 0 where
  pub kv_any : Text → List (Text × Text)
  pub user_patterns : List (Text → Option Text)
  pub hashes : Text → List Text
  pub sev_any : Text → Option Text

-- `f.setdefault(k, v)`
unfoldable pub set_new : Text → Tree → Fields → Fields
set_new k v f = elim (Dict.get k f) as (λ _. Fields) [ none ↦ Dict.put k v f | some old ↦ f ]

-- `k in f`
abbrev pub has_key : Text → Fields → Bool
has_key k f = elim (Dict.get k f) as (λ _. Bool) [ none ↦ false | some v ↦ true ]

-- an observable of the same type and value
unfoldable pub has_obs : ℕ → Text → List Observable → Bool
unfolding text_eq
has_obs ty v [] = false
has_obs ty v (o ∷ os) = (o.type_id == ty && text_eq o.value v) || has_obs ty v os

-- `_add_obs`
unfoldable pub add_obs : Text → ℕ → Text → List Observable → List Observable
unfolding has_obs
add_obs name ty [] os = os
add_obs name ty (c ∷ v) os =
    if has_obs ty (c ∷ v) os
    then os
    else if ltb (length os) 64
    then os ++ (record { name = name; type_id = ty; value = c ∷ v } ∷ [])
    else os

-- the parts of a token with exactly one colon
unfoldable pub colon_parts : Text → Option (Text × Text)
unfolding split_once count_char
colon_parts tok = if count_char b':' tok == 1 then split_once b':' tok else none

-- `tok.split(":")[0] if tok.count(":") == 1 else tok`
abbrev pub before_colon : Text → Option (Text × Text) → Text
before_colon tok none = tok
before_colon tok (some p) = p.0

abbrev pub add_port : Option (Text × Text) → List Observable → List Observable
add_port none os = os
add_port (some p) os = add_obs (codes "port") 10 p.1 os

-- the addresses and the observables so far
abbrev pub Seen : Type 0
Seen = List Text × List Observable

-- the endings of a file name
abbrev pub file_endings : List Text
file_endings =
    codes ".log" ∷ codes ".txt" ∷ codes ".py" ∷ codes ".java" ∷ codes ".c" ∷ codes ".so" ∷ []

abbrev pub url_end : ℕ → Bool
url_end c = (c == b'"') || ((c == b',') || ((c == b';') || (c == b')')))

module _ (u : Unicode) where
  abbrev pub is_host : Text → Bool
  is_host tok =
      not (all_of u.is_digit (replace_all tok (codes ".") []))
      && not (ends_with_any tok file_endings)

  -- one round of the loop of `_infer_from_tokens`
  unfoldable pub note_token : Text → TokenType → Seen → Seen
  unfolding add_obs colon_parts fullmatch
  note_token tok ip4 (ips, os) =
      let parts = colon_parts tok in
      let ip = before_colon tok parts in
      (ips ++ (ip ∷ []), add_port parts (add_obs (codes "ip") 2 ip os))
  note_token tok ip6 (ips, os) =
      if fullmatch (re_ip6 u) tok && (leb 2 (count_char b':' tok) && not (fullmatch (re_mac u) tok))
      then (ips ++ (tok ∷ []), add_obs (codes "ip") 2 tok os)
      else (ips, os)
  note_token tok mac (ips, os) = (ips, add_obs (codes "mac") 3 tok os)
  note_token tok url (ips, os) = (ips, add_obs (codes "url") 6 (drop_last_while url_end tok) os)
  note_token tok email (ips, os) = (ips, add_obs (codes "email") 5 tok os)
  note_token tok host (ips, os) =
      (ips, if is_host tok then add_obs (codes "hostname") 1 tok os else os)
  note_token tok path (ips, os) =
      (ips, if ltb 3 (length tok) then add_obs (codes "file") 7 tok os else os)
  note_token tok _ seen = seen

  -- the loop of `_infer_from_tokens`, over `zip(fp.tokens, fp.classes)`
  unfoldable pub note_tokens : List Text → List TokenType → Seen → Seen
  unfolding note_token
  note_tokens (tok ∷ toks) (cls ∷ classes) seen = note_tokens toks classes (note_token tok cls seen)
  note_tokens _ _ seen = seen

  abbrev pub items_of : List Text → Items
  items_of [] = nil
  items_of (s ∷ ss) = cons (string s) (items_of ss)

  -- `if ips: ir.fields.setdefault("__ips", ips[:16])`
  abbrev pub set_ips : List Text → Fields → Fields
  set_ips [] f = f
  set_ips (ip ∷ ips) f = set_new (codes "__ips") (array (items_of (take 16 (ip ∷ ips)))) f

  -- `_infer_from_tokens`
  unfoldable pub infer_from_tokens : List Text → List TokenType → Draft → Draft
  unfolding note_tokens set_new
  infer_from_tokens toks classes d =
      let seen = note_tokens toks classes ([], d.observables) in
      record d { fields = set_ips seen.0 d.fields; observables = seen.1 }

abbrev pub is_quote : ℕ → Bool
is_quote c = (c == b'"') || (c == 39)

-- a value without its quotes
abbrev last_or : ℕ → Text → ℕ
last_or c [] = c
last_or c (b ∷ s) = last_or b s

abbrev but_last : Text → Text
but_last [] = []
but_last (c ∷ []) = []
but_last (c ∷ b ∷ s) = c ∷ but_last (b ∷ s)

unfoldable pub unquoted : Text → Text
unquoted [] = []
unquoted (c ∷ []) = c ∷ []
unquoted (c ∷ b ∷ s) = if (c == last_or b s) && is_quote c then but_last (b ∷ s) else c ∷ b ∷ s

abbrev pub inferred_key : Text → Text
inferred_key k = codes "inferred." ++ k

-- the loop of `_infer_kv`, over the matches that it looks at
unfoldable pub set_pairs : List (Text × Text) → Fields → Fields
unfolding unquoted
set_pairs [] f = f
set_pairs ((k, v) ∷ pairs) f = set_pairs pairs (
    if has_key k f || has_key (inferred_key k) f
    then f
    else Dict.put (inferred_key k) (string (unquoted v)) f)

module _ (u : Unicode) (find : Finders) where
  -- `_infer_kv`
  unfoldable pub infer_kv : Text → Draft → Draft
  unfolding set_pairs
  infer_kv text d = record d { fields = set_pairs (take 64 (find.kv_any text)) d.fields }

  abbrev pub no_user : Text → Bool
  no_user s =
      mem_text (u.lower s) ([] ∷ codes "none" ∷ codes "null" ∷ codes "-" ∷ codes "unknown" ∷ [])

  abbrev pub with_user : Text → Draft → Draft
  with_user s d = record d {
    fields = set_new (codes "inferred.user") (string s) d.fields;
    observables = add_obs (codes "user") 4 s d.observables;
  }

  -- one round of the loop of `_infer_users`, with what the later rounds give
  abbrev pub try_user : Option Text → Draft → Draft → Draft
  try_user none later d = later
  try_user (some m) later d =
      if no_user (strip is_quote m) then later else with_user (strip is_quote m) d

  -- the loop of `_infer_users`: the first pattern whose user is one
  unfoldable pub infer_users_from : List (Text → Option Text) → Text → Draft → Draft
  unfolding set_new add_obs mem_text
  infer_users_from [] text d = d
  infer_users_from (pat ∷ pats) text d = try_user (pat text) (infer_users_from pats text d) d

  -- `_infer_users`
  abbrev pub infer_users : Text → Draft → Draft
  infer_users text d = infer_users_from find.user_patterns text d

  unfoldable pub add_hashes : List Text → List Observable → List Observable
  unfolding add_obs
  add_hashes [] os = os
  add_hashes (h ∷ hs) os = add_hashes hs (add_obs (codes "hash") 8 h os)

  -- `_infer_hashes`
  abbrev pub infer_hashes : Text → Draft → Draft
  infer_hashes text d = record d { observables = add_hashes (find.hashes text) d.observables }
