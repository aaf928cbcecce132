-- ===== src/Inference/Roles.antt =====
-- `_endpoint_roles`, `_redact` and `infer` of uli/parsers/inference.py.
use mathlib.Core.Option
use sih_ulpf.Common.{
  ℕ, Bool, true, false, not, ◌&&◌, ◌||◌, List, [], ◌∷◌, ◌++◌, Option, none, some, if◌then◌else◌,
  take,
}
use sih_ulpf.Common.Text.{Text, codes}
use sih_ulpf.Common.Strings.{split_once, ends_with_any, remove_prefix}
use sih_ulpf.Common.Dict
use sih_ulpf.Common.Dict.{Dict}
use sih_ulpf.Common.Eq.{text_key}
use sih_ulpf.Models.{TokenType}
use sih_ulpf.Regex.Defs.{fullmatch}
use sih_ulpf.Fingerprint.Unicode.{Unicode}
use sih_ulpf.Fingerprint.Patterns.{re_ip4, re_ip6}
use sih_ulpf.Normalization.Tree.{Tree, Items, null, string, array, object, nil, cons, truthy}
use sih_ulpf.Normalization.Body.{Fields}
use sih_ulpf.Timestamps.{Dates, Grammar, grammar_name, parse_timestamp}
use sih_ulpf.Structural.Severity.{Scalars, level_of_word}
use sih_ulpf.Inference.Observe.{
  Draft, Finders, set_new, has_key, colon_parts, before_colon, infer_from_tokens, infer_kv,
  infer_users, infer_hashes,
}

-- `_IP_KEYS_SRC`
abbrev pub ip_keys_src : List Text
ip_keys_src =
    codes "src"
    ∷ codes "src_ip"
    ∷ codes "srcip"
    ∷ codes "source"
    ∷ codes "source_ip"
    ∷ codes "client"
    ∷ codes "client.ip"
    ∷ codes "remote_addr"
    ∷ codes "remote"
    ∷ codes "id.orig_h"
    ∷ codes "from"
    ∷ codes "saddr"
    ∷ codes "sip"
    ∷ codes "clientip"
    ∷ []

-- `_IP_KEYS_DST`
abbrev pub ip_keys_dst : List Text
ip_keys_dst =
    codes "dst"
    ∷ codes "dst_ip"
    ∷ codes "dstip"
    ∷ codes "dest"
    ∷ codes "destination"
    ∷ codes "dest_ip"
    ∷ codes "server"
    ∷ codes "server_ip"
    ∷ codes "id.resp_h"
    ∷ codes "to"
    ∷ codes "daddr"
    ∷ codes "dip"
    ∷ codes "target"
    ∷ []

-- `_PRIVATE_KEY_SUFFIX`
abbrev pub private_key_suffix : List Text
private_key_suffix =
    codes "password"
    ∷ codes "passwd"
    ∷ codes "secret"
    ∷ codes "token"
    ∷ codes "apikey"
    ∷ codes "api_key"
    ∷ codes "authorization"
    ∷ []

abbrev pub src_port_keys : List Text
src_port_keys =
    codes "spt"
    ∷ codes "src_port"
    ∷ codes "srcport"
    ∷ codes "sport"
    ∷ codes "id.orig_p"
    ∷ codes "client.port"
    ∷ []

abbrev pub dst_port_keys : List Text
dst_port_keys =
    codes "dpt"
    ∷ codes "dst_port"
    ∷ codes "dstport"
    ∷ codes "dport"
    ∷ codes "id.resp_p"
    ∷ codes "server.port"
    ∷ []

abbrev pub proto_keys : List Text
proto_keys = codes "proto" ∷ codes "protocol" ∷ codes "ip_proto" ∷ codes "transport" ∷ []

-- `v in (None, "")`
abbrev pub is_unset : Tree → Bool
is_unset null = true
is_unset (string []) = true
is_unset _ = false

-- `ips[0]`, and `ips[1]` of a longer one; or the name of the exception
pub data Pair : Type 0 where
  firsts : Tree → Option Tree → Pair
  raises : Text → Pair

abbrev pub second : Items → Option Tree
second nil = none
second (cons v vs) = some v

abbrev pub first_two : Tree → Pair
first_two (array (cons v vs)) = firsts v (second vs)
first_two (string (c ∷ [])) = firsts (string (c ∷ [])) none
first_two (string (c ∷ b ∷ s)) = firsts (string (c ∷ [])) (some (string (b ∷ [])))
first_two (object m) = raises (codes "KeyError")
first_two _ = raises (codes "TypeError")

module _ (u : Unicode) (str_of : Tree → Text) where
  -- `low`
  unfoldable pub lowered : Fields → Dict Text Text → Dict Text Text
  unfolding Dict.put
  lowered [] low = low
  lowered ((k, v) ∷ f) low =
      lowered f (Dict.put (remove_prefix (u.lower k) (codes "inferred.")) k low)

  -- `f[low[k]]`, of a key that is in `low`
  abbrev pub value_at : Dict Text Text → Fields → Text → Option Tree
  value_at low f k = Option.bind (Dict.get k low) (λ key. Dict.get key f)

  -- `pick`
  unfoldable pub pick : Dict Text Text → Fields → List Text → Option Text
  unfolding Dict.get
  pick low f [] = none
  pick low f (k ∷ ks) =
      let later = pick low f ks in
      elim (value_at low f k) as (λ _. Option Text) [
        | none ↦ later
        | some v ↦ if is_unset v then later else some (str_of v)
      ]

  -- `s.split(":")[0]`
  abbrev pub host_part : Text → Text
  host_part s = elim (split_once b':' s) as (λ _. Text) [ none ↦ s | some p ↦ p.0 ]

  -- an endpoint of a picked address
  abbrev pub set_ip : Text → Option Text → Fields → Fields
  set_ip name none f = f
  set_ip name (some []) f = f
  set_ip name (some (c ∷ s)) f =
      if fullmatch (re_ip4 u) (host_part (c ∷ s)) || fullmatch (re_ip6 u) (c ∷ s)
      then set_new name (string (before_colon (c ∷ s) (colon_parts (c ∷ s)))) f
      else f

  -- the first of the keys that is in `low`
  unfoldable pub set_first : Dict Text Text → Text → (Tree → Tree) → List Text → Fields → Fields
  unfolding set_new Dict.get
  set_first low name g [] f = f
  set_first low name g (k ∷ ks) f =
      let later = set_first low name g ks f in
      elim (value_at low f k) as (λ _. Fields) [ none ↦ later | some v ↦ set_new name (g v) f ]

  abbrev pub put_second : Option Tree → Fields → Fields
  put_second none f = f
  put_second (some v) f = Dict.put (codes "__dst_ip") v f

  -- the fields, and the name of an exception
  abbrev pub put_pair : Pair → Fields → Fields × Option Text
  put_pair (firsts v w) f = (put_second w (Dict.put (codes "__src_ip") v f), none)
  put_pair (raises e) f = (f, some e)

  -- the addresses of the line, where no key named an endpoint
  unfoldable pub put_ips : Fields → Fields × Option Text
  unfolding Dict.get Dict.put
  put_ips f =
      let known = has_key (codes "__src_ip") f || has_key (codes "__dst_ip") f in
      elim (Dict.get (codes "__ips") f) as (λ _. Fields × Option Text) [
        | none ↦ (f, none)
        | some ips ↦ if not known && truthy ips then put_pair (first_two ips) f else (f, none)
      ]

  abbrev pub set_ports : Dict Text Text → Fields → Fields
  set_ports low f =
      set_first low (codes "__proto") (λ v. string (u.lower (str_of v))) proto_keys
        (set_first low (codes "__dst_port") (λ v. v) dst_port_keys
          (set_first low (codes "__src_port") (λ v. v) src_port_keys f))

  abbrev pub unless_raised : Dict Text Text → Fields × Option Text → Fields × Option Text
  unless_raised low (f, none) = (set_ports low f, none)
  unless_raised low (f, some e) = (f, some e)

  -- `_endpoint_roles`
  unfoldable pub endpoint_roles : Fields → Fields × Option Text
  unfolding lowered pick set_first put_ips
  endpoint_roles f =
      let low = lowered f [] in
      unless_raised low (
        put_ips (
          set_ip (codes "__dst_ip") (pick low f ip_keys_dst)
            (set_ip (codes "__src_ip") (pick low f ip_keys_src) f)))

  abbrev pub is_private : Text → Bool
  is_private k = ends_with_any (u.lower k) private_key_suffix

  -- `_redact`
  unfoldable pub redact : Fields → Fields
  redact [] = []
  redact ((k, v) ∷ f) =
      (k, if is_private k && not (is_unset v) then string (codes "***REDACTED***") else v)
      ∷ redact f

module _ (u : Unicode) (dates : Dates) (sc : Scalars) (find : Finders) where
  abbrev pub with_stamp : Option (ℕ × (Grammar × Text)) → Draft → Draft
  with_stamp none d = d
  with_stamp (some (ts, (gram, orig))) d = record d {
    timestamp = some ts;
    fields =
        set_new (codes "__ts_original") (string orig)
          (set_new (codes "__ts_grammar") (string (grammar_name gram)) d.fields);
  }

  abbrev pub infer_time : Text → Option ℕ → Draft → Draft
  infer_time text none d = with_stamp (parse_timestamp dates text 96) d
  infer_time text (some ts) d = d

  abbrev pub infer_severity : Text → Option ℕ → Draft → Draft
  infer_severity text none d = record d {
    severity = Option.bind (find.sev_any (take 200 text)) (level_of_word u sc);
  }
  infer_severity text (some n) d = d

  -- what the handler of `infer` and `_redact` make of the fields
  abbrev pub finish : Fields × Option Text → Draft → Draft
  finish (f, none) d = record d { fields = redact u sc.str_of f }
  finish (f, some e) d = record d {
    fields = f;
    errors = d.errors ++ ((codes "inference_error:" ++ e) ∷ []);
  }

  -- the steps before `_infer_users`' results are used for the endpoints
  unfoldable pub observed : Text → List Text → List TokenType → Draft → Draft
  unfolding infer_from_tokens infer_kv level_of_word
  observed text toks classes d =
      let d1 = infer_from_tokens u toks classes d in
      let d2 = infer_kv u find text d1 in
      let d3 = infer_users u find text d2 in
      let d4 = infer_hashes u find text d3 in
      let d5 = infer_time text d4.timestamp d4 in infer_severity text d5.severity d5

  -- `infer`
  unfoldable pub infer : Text → List Text → List TokenType → Draft → Draft
  unfolding observed endpoint_roles redact
  infer text toks classes d =
      let seen = observed text toks classes d in
      finish (endpoint_roles u sc.str_of seen.fields) seen
