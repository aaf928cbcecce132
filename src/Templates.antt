-- ===== src/Templates.antt =====
-- uli/parsers/templates.py: the masks that stand before the template miner, and the pool of miners.
pub mod Masks
use mathlib.Core.Option
use sih_ulpf.Common.{
  ℕ, Bool, true, false, ◌||◌, ◌==◌, ◌&&◌, not, List, [], ◌∷◌, ◌++◌, map, Option, none, some,
  if◌then◌else◌, length, take,
}
use sih_ulpf.Common.Text.{Text, codes, text_eq, join}
use sih_ulpf.Common.Strings.{split_words}
use sih_ulpf.Common.Dict
use sih_ulpf.Common.Dict.{Dict}
use sih_ulpf.Common.Eq.{text_key, pair_eq}
use sih_ulpf.Models.{TokenType, num, hex, ip4, ip6, mac, ts, uuid, url, email, path, Value}
use sih_ulpf.Fingerprint.Unicode.{Unicode}
use sih_ulpf.Fingerprint.Shape.{Digest, Fingerprint, fingerprint}
use sih_ulpf.Engine.Ladder.{ParseContext, Mined}

-- `_MASK`
abbrev pub mask : TokenType → Option Text
mask ip4 = some (codes "<IP>")
mask ip6 = some (codes "<IP>")
mask num = some (codes "<NUM>")
mask hex = some (codes "<HEX>")
mask ts = some (codes "<TS>")
mask uuid = some (codes "<UUID>")
mask url = some (codes "<URL>")
mask email = some (codes "<EMAIL>")
mask mac = some (codes "<MAC>")
mask path = some (codes "<PATH>")
mask _ = none

-- the tokens as the miner sees them, and those that a mask stands for
abbrev pub Masked : Type 0
Masked = List Text × List Text

abbrev pub put_token : Text → Option Text → Masked → Masked
put_token tok none r = (tok ∷ r.0, r.1)
put_token tok (some m) r = (m ∷ r.0, tok ∷ r.1)

-- the loop of `masked_text` over `zip(src_tokens, classes)`
unfoldable pub mask_tokens : List Text → List TokenType → Masked
mask_tokens (tok ∷ toks) (cls ∷ classes) = put_token tok (mask cls) (mask_tokens toks classes)
mask_tokens _ _ = ([], [])

-- `" ".join(out), params` of a fingerprint
abbrev pub masked_of : Fingerprint → Text × List Text
masked_of fp = let r = mask_tokens fp.tokens fp.classes in (join (codes " ") r.0, r.1)

-- the pairs of `_wild_params`
unfoldable pub wild_tokens : List Text → List Text → List Text
unfolding text_eq
wild_tokens (t ∷ templates) (m ∷ masked) =
    let rest = wild_tokens templates masked in
    if text_eq t (codes "<*>") && not (text_eq m t) then m ∷ rest else rest
wild_tokens _ _ = []

-- What drain3 is: a new miner with its state file, the result of one message (`none` is an
-- exception) with the miner after it, and the clusters of a miner.
pub record Added : Type 0 where
  pub cluster_id : Text
  pub template_mined : Text
  pub change_type : Value
  pub cluster_size : ℕ

pub record Drain (M : Type 0) : Type 0 where
  pub new_miner : Text → M
  pub add_log_message : M → Text → M × Option Added
  pub clusters : M → List (Text × (ℕ × Text))

-- `_miners`
abbrev pub Pool : Type 0 → Type 0
Pool M = Dict (Text × Text) M

module _ (u : Unicode) where
  -- `_wild_params`
  unfoldable pub wild_params : Text → Text → List Text
  unfolding split_words wild_tokens
  wild_params template masked =
      let tt = split_words u.is_space [] template in
      let mt = split_words u.is_space [] masked in
      if length tt == length mt then wild_tokens tt mt else []

  abbrev pub safe_char : ℕ → ℕ
  safe_char c = if u.is_alnum c || (c == b'.' || (c == b'_' || c == b'-')) then c else b'_'

  -- the name of `_key_path`
  unfoldable pub key_path : Text → Text → Text
  key_path tenant source =
      take 150 (map safe_char (tenant ++ (codes "__" ++ source))) ++ codes ".bin"

module _ {M : Type 0} (u : Unicode) (sha1_hex : Digest) (drain : Drain M) where
  -- `masked_text`; `none` is the exception that `fingerprint` may raise
  unfoldable pub masked_text : ParseContext → Text → Option (Text × List Text)
  unfolding mask_tokens text_eq
  masked_text ctx message =
      if text_eq message ctx.text
      then some (masked_of ctx.shape_of)
      else Option.map masked_of (fingerprint u sha1_hex message)

  -- `get`: the miner of a source, a new one on its state file if there is none
  unfoldable pub miner_of : Text → Text → Pool M → M
  unfolding Dict.get key_path
  miner_of tenant source pool =
      Option.get_or (Dict.get (tenant, source) pool) (drain.new_miner (key_path u tenant source))

  abbrev pub mined_of : Text × List Text → Added → Mined
  mined_of m a = record {
    template_id = codes "drain:" ++ a.cluster_id;
    template = a.template_mined;
    params = m.1 ++ wild_params u a.template_mined m.0;
    change = a.change_type;
    size = a.cluster_size;
  }

  abbrev pub mine_masked : ParseContext → Pool M → Text × List Text → Pool M × Option Mined
  mine_masked ctx pool m =
      let r = drain.add_log_message (miner_of ctx.tenant_id ctx.source_id pool) m.0 in
      (Dict.put (ctx.tenant_id, ctx.source_id) r.0 pool, Option.map (mined_of m) r.1)

  abbrev pub mine_of : ParseContext → Pool M → Option (Text × List Text) → Pool M × Option Mined
  mine_of ctx pool none = (pool, none)
  mine_of ctx pool (some m) = mine_masked ctx pool m

  -- `mine`, up to what it writes to the result; `none` is the exception that it notes there
  unfoldable pub mine : Pool M → ParseContext → Text → Pool M × Option Mined
  unfolding masked_text wild_params miner_of Dict.put
  mine pool ctx message = mine_of ctx pool (masked_text ctx message)

  -- `templates`
  unfoldable pub templates_of : Text → Text → Pool M → List (Text × (ℕ × Text))
  unfolding miner_of
  templates_of tenant source pool = drain.clusters (miner_of tenant source pool)
