-- ===== src/Storage/Events.antt =====
-- `write_event`, `write_events_bulk`, `get_event`, `query_events` and `count_events` of
-- uli/storage/sql.py. The full-text index is what `fts_matches` answers about the indexed texts.
use mathlib.Core.Option
use sih_ulpf.Common.{
  ℕ, Bool, true, false, ◌&&◌, ◌==◌, leb, List, [], ◌∷◌, ◌++◌, map, Option, none, some,
  if◌then◌else◌, length, take, drop, reverse,
}
use sih_ulpf.Common.Text.{Text, text_eq, codes, mem_text, join, replace_all}
use sih_ulpf.Common.Dict
use sih_ulpf.Common.Dict.{Dict}
use sih_ulpf.Common.Eq.{text_key}
use sih_ulpf.Common.Int.{ℤ, pos, negsuc}
use sih_ulpf.Models.{Value}
use sih_ulpf.Normalization.Tree
use sih_ulpf.Normalization.Tree.{Tree, Members}
use sih_ulpf.Normalization.Normalize.{NormalizedEvent}
use sih_ulpf.Storage.Tables.{filter, rows, insert, order_desc}

-- A row of `events`, over the confidences `F`. The body is the event itself.
pub record EventRow (F : Type 0) : Type 0 where
  pub event_id : Text
  pub tenant_id : Text
  pub project_id : Text
  pub source_id : Text
  pub ts : ℕ
  pub class_uid : Tree
  pub tier : ℕ
  pub confidence : F
  pub parser_id : Text
  pub parser_version : Text
  pub raw_event_id : Text
  pub template_id : Option Text
  pub shape_hash : Text
  pub family_hash : Text
  pub message : Text
  pub anomaly_score : Option Value
  pub body : NormalizedEvent F
  pub created_at : ℕ

-- `events`, and the texts of `events_fts` when that table is there
pub record EventTables (F : Type 0) : Type 0 where
  pub events : Dict Text (EventRow F)
  pub events_fts : Option (List (Text × Text))

module _ {F : Type 0} (timestamp : Tree → Option ℕ) where
  -- `ts`, where `timestamp` reads the milliseconds of a number
  abbrev pub event_ts : NormalizedEvent F → ℕ
  event_ts ev =
      Option.get_or (Option.bind (Tree.get (codes "time") ev.ocsf) timestamp)
        ev.provenance.received_at

  abbrev pub event_row : ℕ → NormalizedEvent F × (Text × Text) → EventRow F
  event_row now (ev, (shape_hash, family_hash)) = record {
    event_id = ev.event_id;
    tenant_id = ev.tenant_id;
    project_id = ev.project_id;
    source_id = ev.source_id;
    ts = event_ts ev;
    class_uid = Option.get_or (Tree.get (codes "class_uid") ev.ocsf) (Tree.int (pos 0));
    tier = ev.provenance.tier;
    confidence = ev.provenance.confidence;
    parser_id = ev.provenance.parser_id;
    parser_version = ev.provenance.parser_version;
    raw_event_id = ev.provenance.raw_event_id;
    template_id = ev.provenance.template_id;
    shape_hash = shape_hash;
    family_hash = family_hash;
    message = take 4000 ev.message;
    anomaly_score = ev.anomaly.0;
    body = ev;
    created_at = now;
  }

  -- `INSERT INTO events_fts`
  abbrev pub indexed : NormalizedEvent F → List (Text × Text) → List (Text × Text)
  indexed ev fts = fts ++ ((ev.event_id, take 4000 ev.message) ∷ [])

  -- `write_event`: `none` is the integrity error of an id that is there, and the transaction leaves
  -- the tables as they were
  unfoldable pub write_event :
      ℕ → NormalizedEvent F × (Text × Text) → EventTables F → Option (EventTables F)
  unfolding insert
  write_event now item t =
      Option.map
        (λ events. record {
          events = events;
          events_fts = Option.map (indexed item.0) t.events_fts;
        })
        (insert item.0.event_id (event_row now item) t.events)

  unfoldable pub insert_all :
      ℕ
      → List (NormalizedEvent F × (Text × Text))
      → Dict Text (EventRow F)
      → Option (Dict Text (EventRow F))
  unfolding insert
  insert_all now [] events = some events
  insert_all now (item ∷ items) events =
      Option.bind (insert item.0.event_id (event_row now item) events) (insert_all now items)

  unfoldable pub index_all :
      List (NormalizedEvent F × (Text × Text)) → List (Text × Text) → List (Text × Text)
  index_all [] fts = fts
  index_all (item ∷ items) fts = index_all items (indexed item.0 fts)

  -- `write_events_bulk`: all rows, or none
  unfoldable pub write_events_bulk :
      ℕ → List (NormalizedEvent F × (Text × Text)) → EventTables F → Option (EventTables F)
  unfolding insert_all index_all
  write_events_bulk now [] t = some t
  write_events_bulk now (item ∷ items) t =
      Option.map
        (λ events. record {
          events = events;
          events_fts = Option.map (index_all (item ∷ items)) t.events_fts;
        })
        (insert_all now (item ∷ items) t.events)

module _ {F : Type 0} where
  -- the body of a row, if it is the tenant's
  abbrev owned : Text → EventRow F → Option (NormalizedEvent F)
  owned tenant_id r = if text_eq r.tenant_id tenant_id then some r.body else none

  unfoldable pub get_event : Text → Text → EventTables F → Option (NormalizedEvent F)
  get_event tenant_id event_id t = Option.bind (Dict.get event_id t.events) (owned tenant_id)

-- The conditions of `query_events`. An empty text is no condition.
pub record EventQuery (F : Type 0) : Type 0 where
  pub source_id : Option Text
  pub tier : Option ℕ
  pub class_uid : Option Tree
  pub parser_id : Option Text
  pub min_confidence : Option F
  pub max_confidence : Option F
  pub q : Option Text
  pub since : Option ℕ
  pub until : Option ℕ
  pub limit : ℤ
  pub offset : ℕ
  pub descending : Bool

-- `if x: .. where(..)` of a text, and `if x is not None: .. where(..)`
abbrev pub when_text : Option Text → (Text → Bool) → Bool
when_text none p = true
when_text (some []) p = true
when_text (some (c ∷ s)) p = p (c ∷ s)

abbrev pub when : {A : Type 0} → Option A → (A → Bool) → Bool
when none p = true
when (some a) p = p a

-- `LIMIT n`: a negative one is none
abbrev pub limited : {A : Type 0} → ℤ → List A → List A
limited (pos n) vs = take n vs
limited (negsuc n) vs = vs

-- `min(limit, 1000)`
abbrev pub page_size : ℤ → ℤ
page_size (pos n) = pos (if leb n 1000 then n else 1000)
page_size (negsuc n) = negsuc n

abbrev quoted : Text → Text
quoted t = codes "\"" ++ (replace_all t (codes "\"") (codes "\"\"") ++ codes "\"")

-- The database's order on confidences, the ids that the full-text index or `ilike` finds, and the
-- equality of stored values.
pub record Search (F : Type 0) : Type 0 where
  pub leb_f : F → F → Bool
  pub fts_matches : Text → List (Text × Text) → List Text
  pub ilike : Text → Text → Bool
  pub tree_eq : Tree → Tree → Bool
  pub split_words : Text → List Text

module _ {F : Type 0} (s : Search F) where
  -- `_fts_escape`
  unfoldable pub fts_escape : Text → Text
  unfolding join
  fts_escape q = join (codes " ") (map quoted (take 16 (s.split_words q)))

  abbrev text_hit : Option (List (Text × Text)) → EventRow F → Text → Bool
  text_hit (some fts) r q = mem_text r.event_id (s.fts_matches (fts_escape q) fts)
  text_hit none r q = s.ilike q r.message

  unfoldable pub matches : Text → EventQuery F → EventTables F → EventRow F → Bool
  matches tenant_id f t r =
      text_eq r.tenant_id tenant_id
      && (when_text f.source_id (text_eq r.source_id)
          && (when f.tier (λ n. r.tier == n)
              && (when f.class_uid (s.tree_eq r.class_uid)
                  && (when_text f.parser_id (text_eq r.parser_id)
                      && (when f.min_confidence (λ x. s.leb_f x r.confidence)
                          && (when f.max_confidence (s.leb_f r.confidence)
                              && (when f.since (λ x. leb x r.ts)
                                  && (when f.until (leb r.ts)
                                      && when_text f.q (text_hit t.events_fts r)))))))))

  abbrev pub ordered : Bool → List (EventRow F) → List (EventRow F)
  ordered true rs = order_desc (λ r. r.created_at) rs
  ordered false rs = reverse (order_desc (λ r. r.created_at) rs)

  unfoldable pub query_events : Text → EventQuery F → EventTables F → List (NormalizedEvent F)
  unfolding filter rows order_desc matches
  query_events tenant_id f t =
      map (λ r. r.body)
        (limited (page_size f.limit)
          (drop f.offset (ordered f.descending (filter (matches tenant_id f t) (rows t.events)))))

  -- `count_events`, with the columns that the program asks for
  unfoldable pub count_events : Text → Option Text → Option ℕ → Option Text → EventTables F → ℕ
  unfolding filter rows
  count_events tenant_id source_id tier shape_hash t = length (
      filter
        (λ r.
          text_eq r.tenant_id tenant_id
          && (when source_id (text_eq r.source_id)
              && (when tier (λ n. r.tier == n) && when shape_hash (text_eq r.shape_hash))))
        (rows t.events))
