-- ===== src/Declarative/Extracts.antt =====
-- `parse`, `_src` and `_run_extract` of `DeclarativeParser` of uli/parsers/declarative.py.
use sih_ulpf.Common.{
  ℕ, Bool, true, false, ◌||◌, List, [], ◌∷◌, ◌++◌, Option, none, some, if◌then◌else◌, ◌==◌, ltb,
  length, get_elem?, drop,
}
use sih_ulpf.Common.Text.{Text, codes, text_eq, join}
use sih_ulpf.Common.Strings.{split_by, split_words, split_on, cut_once, strip, is_empty}
use sih_ulpf.Common.Dict
use sih_ulpf.Common.Dict.{Dict}
use sih_ulpf.Common.Eq.{text_key}
use sih_ulpf.Fingerprint.Unicode.{Unicode}
use sih_ulpf.Fingerprint.Tokenize.{tokenize}
use sih_ulpf.Normalization.Tree
use sih_ulpf.Normalization.Tree.{Tree, Members, null, string, object}
use sih_ulpf.Normalization.Body.{Fields}
use sih_ulpf.Structural.Parts.{Parsed, set_text}

-- One entry of `extract` by its `kind`, its defaults put in. A regular expression is a number.
pub data Extraction : Type 0 where
  regex : ℕ → Bool → Extraction
  grok_lite : ℕ → Bool → Extraction
  csv : Text → Text → List Text → Option Text → ℕ → Extraction
  split : Text → List Text → Option Text → ℕ → Extraction
  kv : Text → Text → Extraction
  json_path : List (Text × Text) → Extraction
  positional : List (Text × Text) → Extraction
  const : Fields → Extraction
  other_extraction : Extraction

-- `ex["kind"]` of the kinds that can raise
abbrev pub kind_name : Extraction → Text
kind_name (regex re opt) = codes "regex"
kind_name (grok_lite re opt) = codes "grok_lite"
kind_name (csv d q cols rest n) = codes "csv"
kind_name (split d cols rest n) = codes "split"
kind_name (kv sep pair_sep) = codes "kv"
kind_name (json_path paths) = codes "json_path"
kind_name (positional ps) = codes "positional"
kind_name (const values) = codes "const"
kind_name other_extraction = codes "other"

-- `guarded_search(..).groupdict()`, `csv.reader` on one line (`none` raises `csv.Error`), `json.loads`,
-- `int` and `str`.
pub record ExtractCalls : Type 0 where
  pub search : ℕ → Text → Option (List (Text × Option Text))
  pub csv_row : Text → Text → Text → Option (List Text)
  pub loads : Text → Option Tree
  pub int_of : Text → Option ℕ
  pub str_of : Tree → Text

-- What an extraction gives: the fields and errors, and the name of an exception.
pub record Taken : Type 0 where
  pub fields : Fields
  pub noted : List Text
  pub raised : Option Text

abbrev pub took : Fields → Taken
took f = record { fields = f; noted = []; raised = none }

unfoldable pub set_groups : List (Text × Option Text) → Fields → Fields
set_groups [] f = f
set_groups ((k, none) ∷ gs) f = set_groups gs f
set_groups ((k, some v) ∷ gs) f = set_groups gs (set_text k v f)

-- `for k, v in zip(cols, row): if k and k != "_"`
unfoldable pub set_columns : List Text → List Text → Fields → Fields
unfolding text_eq
set_columns (k ∷ cols) (v ∷ row) f =
    set_columns cols row (if is_empty k || text_eq k (codes "_") then f else set_text k v f)
set_columns _ _ f = f

abbrev pub set_rest : Text → ℕ → Option Text → List Text → Fields → Fields
set_rest delim n none row f = f
set_rest delim n (some []) row f = f
set_rest delim n (some (c ∷ k)) row f =
    if ltb n (length row) then set_text (c ∷ k) (join delim (drop n row)) f else f

abbrev pub take_row : Text → List Text → Option Text → ℕ → List Text → Fields → Taken
take_row delim cols rest min row f = record {
  fields = set_rest delim (length cols) rest row (set_columns cols row f);
  noted = if ltb (length row) min then codes "csv_short_row" ∷ [] else [];
  raised = none;
}

-- `cur.get(p)` along the path, `None` where it ends
unfoldable pub walk : List Text → Tree → Tree
unfolding Tree.get
walk [] cur = cur
walk (p ∷ ps) (object m) = elim (Tree.get p m) as (λ _. Tree) [ none ↦ null | some v ↦ walk ps v ]
walk (p ∷ ps) _ = null

abbrev pub set_found : Text → Tree → Fields → Fields
set_found name null f = f
set_found name v f = Dict.put name v f

unfoldable pub set_paths : List (Text × Text) → Tree → Fields → Fields
unfolding walk split_on
set_paths [] obj f = f
set_paths ((name, path) ∷ paths) obj f =
    set_paths paths obj (set_found name (walk (split_on b'.' path) obj) f)

-- `"\\t"` stands for a tab
abbrev pub tab_or : Text → Text
tab_or delim = if text_eq delim (codes "\\t") then codes "\t" else delim

module _ (u : Unicode) (calls : ExtractCalls) where
  -- `s.split(sep)`, where a blank stands for runs of space
  abbrev pub pieces : Text → Text → List Text
  pieces sep s = if text_eq sep (codes " ") then split_words u.is_space [] s else split_by sep s

  abbrev pub is_double_quote : ℕ → Bool
  is_double_quote c = c == b'"'

  unfoldable pub set_parts : Text → List Text → Fields → Fields
  unfolding cut_once
  set_parts sep [] f = f
  set_parts sep (part ∷ parts) f =
      let rest : Fields → Fields = set_parts sep parts in
      elim (cut_once sep part) as (λ _. Fields) [
        | none ↦ rest f
        | some p ↦
            rest (set_text (strip u.is_space p.0) (strip is_double_quote (strip u.is_space p.1)) f)
      ]

  abbrev pub set_token : Option Text → Text → Fields → Fields
  set_token none name f = f
  set_token (some tok) name f = set_text name tok f

  -- a position that is no number raises
  unfoldable pub set_positions : List Text → List (Text × Text) → Fields → Taken
  set_positions toks [] f = took f
  set_positions toks ((pos, name) ∷ ps) f =
      let rest : Fields → Taken = set_positions toks ps in
      elim (calls.int_of pos) as (λ _. Taken) [
        | none ↦ record { fields = f; noted = []; raised = some (codes "ValueError") }
        | some p ↦ rest (set_token (get_elem? toks p) name f)
      ]

  abbrev pub no_match : Text → Bool → Text
  no_match kind true = kind ++ codes "_optional_nomatch"
  no_match kind false = kind ++ codes "_nomatch"

  abbrev pub take_groups : Text → Bool → Option (List (Text × Option Text)) → Fields → Taken
  take_groups kind optional none f = record {
    fields = f;
    noted = no_match kind optional ∷ [];
    raised = none;
  }
  take_groups kind optional (some gs) f = took (set_groups gs f)

  abbrev pub take_csv : Text → List Text → Option Text → ℕ → Option (List Text) → Fields → Taken
  take_csv delim cols rest min none f = record {
    fields = f;
    noted = [];
    raised = some (codes "Error");
  }
  take_csv delim cols rest min (some row) f = take_row delim cols rest min row f

  abbrev pub take_json : List (Text × Text) → Option Tree → Fields → Taken
  take_json paths none f = record {
    fields = f;
    noted = codes "json_path_invalid_json" ∷ [];
    raised = none;
  }
  take_json paths (some obj) f = took (set_paths paths obj f)

  abbrev pub take_tokens : Option (List Text) → List (Text × Text) → Fields → Taken
  take_tokens none ps f = record { fields = f; noted = []; raised = some (codes "IndexError") }
  take_tokens (some toks) ps f = set_positions toks ps f

  -- `ir.fields.update(values)`
  unfoldable pub update_fields : Fields → Fields → Fields
  update_fields [] f = f
  update_fields ((k, v) ∷ values) f = update_fields values (Dict.put k v f)

  -- `_run_extract` on its source text
  unfoldable pub run_extract : Extraction → Text → Fields → Taken
  unfolding set_groups set_columns set_paths set_parts set_positions update_fields split_words
  run_extract (regex re opt) src f = take_groups (codes "regex") opt (calls.search re src) f
  run_extract (grok_lite re opt) src f = take_groups (codes "grok_lite") opt (calls.search re src) f
  run_extract (csv d q cols rest min) src f =
      take_csv (tab_or d) cols rest min (calls.csv_row (tab_or d) q src) f
  run_extract (split d cols rest min) src f =
      take_row (tab_or d) cols rest min (pieces (tab_or d) src) f
  run_extract (kv sep pair_sep) src f = took (set_parts sep (pieces pair_sep src) f)
  run_extract (json_path paths) src f = take_json paths (calls.loads src) f
  run_extract (positional ps) src f = take_tokens (tokenize u src) ps f
  run_extract (const values) src f = took (update_fields values f)
  run_extract other_extraction src f = took f

  -- `_src`: the field that the extraction reads
  abbrev pub str_or_empty : Option Tree → Text
  str_or_empty none = []
  str_or_empty (some null) = []
  str_or_empty (some v) = calls.str_of v

  unfoldable pub source_text : Text → Text → {F : Type 0} → Parsed F → Text
  unfolding Dict.get text_eq
  source_text field text ir =
      if text_eq field (codes "raw")
      then text
      else if text_eq field (codes "message")
      then ir.message
      else str_or_empty (Dict.get field ir.fields)

  abbrev pub raise_error : Text → Option Text → List Text
  raise_error kind none = []
  raise_error kind (some e) = (codes "extract_" ++ (kind ++ (codes "_error:" ++ e))) ∷ []

  -- the loop of `parse` over the extractions, each with the name of its field
  unfoldable pub run_extracts : {F : Type 0} → List (Text × Extraction) → Text → Parsed F → Parsed F
  unfolding run_extract source_text
  run_extracts [] text ir = ir
  run_extracts ((field, ex) ∷ exs) text ir =
      let t = run_extract ex (source_text field text ir) ir.fields in
      run_extracts exs text (record ir {
        fields = t.fields;
        errors = ir.errors ++ (t.noted ++ raise_error (kind_name ex) t.raised);
      })
