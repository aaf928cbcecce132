-- ===== src/Api/Handlers.antt =====
-- The handlers of `create_app` of uli/api/app.py.
use mathlib.Core.Option
use sih_ulpf.Common.{
  ℕ, ◌+◌, Bool, true, false, ltb, List, [], ◌∷◌, ◌++◌, map, Option, none, some, if◌then◌else◌,
  length,
}
use sih_ulpf.Common.Text.{Text, text_eq, codes}
use sih_ulpf.Common.Dict
use sih_ulpf.Common.Dict.{Dict}
use sih_ulpf.Common.Eq.{text_key, pair_eq}
use sih_ulpf.Models.{Bytes, RawLocation, Value}
use sih_ulpf.Pipeline.Parts.{RawEnvelope, Event, Done}
use sih_ulpf.Normalization.Tree.{string, end, member}
use sih_ulpf.Normalization.Normalize.{NormalizedEvent, nat}
use sih_ulpf.Storage.Tables.{filter}
use sih_ulpf.Storage.Events.{EventTables, get_event}
use sih_ulpf.Storage.Raw.{RawRow, RawTable}
use sih_ulpf.Storage.Parsers.{
  Row, RowTable, get_suggestion, update_suggestion, upsert_parser, text_column,
}
use sih_ulpf.Storage.Clusters.{Cluster, ClusterTable, get_unknown}
use sih_ulpf.Storage.Drifts.{DriftEvent, AuditRow, audit, list_drift}
use sih_ulpf.Api.Auth.{Answer, ok, http_error, raised, Settings}

-- `IngestRequest`
pub record IngestRequest : Type 0 where
  pub source_id : Text
  pub transport : Text
  pub lines : Option (List Text)
  pub text : Option Text
  pub hints : List (Text × Value)

-- `IngestResponse`
pub record IngestResponse : Type 0 where
  pub accepted : ℕ
  pub queued : Bool
  pub event_ids : List Text

-- UTF-8, Base64, SHA-256, the queue and the pipeline, over the world `W`
pub record IngestParts (W : Type 0) : Type 0 where
  pub encode_utf8 : Text → Bytes
  pub b64encode : Bytes → Text
  pub sha256_hex : Bytes → Text
  pub publish : RawEnvelope → W → W
  pub process_batch : List RawEnvelope → W → Done W (List Event)

-- `req.lines`, or else the one text
abbrev pub given_lines : Option (List Text) → Option Text → List Text
given_lines (some lines) text = lines
given_lines none (some text) = text ∷ []
given_lines none none = []

module _ {W : Type 0} (p : IngestParts W) (set : Settings) where
  unfoldable pub total_bytes : List Text → ℕ
  total_bytes [] = 0
  total_bytes (l ∷ ls) = length (p.encode_utf8 l) + total_bytes ls

  -- `RawEnvelope.from_bytes`
  abbrev pub from_bytes : Text → ℕ → IngestRequest → Bytes → RawEnvelope
  from_bytes tid now req payload = record {
    tenant_id = tid;
    project_id = codes "default";
    source_id = req.source_id;
    transport = req.transport;
    received_at = now;
    peer = none;
    payload_b64 = p.b64encode payload;
    payload_sha256 = some (p.sha256_hex payload);
    hints = req.hints;
  }

  unfoldable pub publish_all : List RawEnvelope → W → W
  publish_all [] w = w
  publish_all (env ∷ envs) w = publish_all envs (p.publish env w)

  abbrev pub envelopes : Text → ℕ → IngestRequest → List Text → List RawEnvelope
  envelopes tid now req lines = map (λ line. from_bytes tid now req (p.encode_utf8 line)) lines

  abbrev pub answered : ℕ → Done W (List Event) → Answer IngestResponse × W
  answered n (none, w) = (raised, w)
  answered n (some evs, w) =
      (ok (record { accepted = n; queued = false; event_ids = map (λ ev. ev.event_id) evs }), w)

  -- the lines that the checks have let through
  unfoldable pub accept : Text → ℕ → IngestRequest → List Text → W → Answer IngestResponse × W
  unfolding publish_all
  accept tid now req lines w =
      let envs = envelopes tid now req lines in
      if text_eq set.mode (codes "distributed")
      then (
        ok (record { accepted = length lines; queued = true; event_ids = [] }),
        publish_all envs w,
      )
      else answered (length lines) (p.process_batch envs w)

  -- `ingest`, with one time of receipt for all its lines
  unfoldable pub ingest : Text → ℕ → IngestRequest → W → Answer IngestResponse × W
  unfolding total_bytes accept
  ingest tid now req w = elim (given_lines req.lines req.text) as (λ _. Answer IngestResponse × W) [
    | [] ↦ (http_error 400, w)
    | l ∷ ls ↦
        if ltb set.max_ingest_body_bytes (total_bytes (l ∷ ls))
        then (http_error 413, w)
        else accept tid now req (l ∷ ls) w
  ]

abbrev pub or_404 : {A : Type 0} → Option A → Answer A
or_404 none = http_error 404
or_404 (some a) = ok a

-- `get_event` of `/v1/events/{event_id}`
unfoldable pub event_one : {F : Type 0} → Text → Text → EventTables F → Answer (NormalizedEvent F)
unfolding get_event
event_one tid event_id t = or_404 (get_event tid event_id t)

-- `unknown_one`
unfoldable pub unknown_one : {F : Type 0} → Text → ClusterTable F → Answer (Cluster F)
unfolding get_unknown
unknown_one cluster_id t = or_404 (get_unknown cluster_id t)

-- `suggestion_one`
unfoldable pub suggestion_one : Text → RowTable → Answer Row
unfolding get_suggestion
suggestion_one suggestion_id t = or_404 (get_suggestion suggestion_id t)

-- `drift`
abbrev is_kind : Option Text → DriftEvent → Bool
is_kind none r = true
is_kind (some kind) r = text_eq r.kind kind

unfoldable pub drift : Text → Option Text → Dict Text DriftEvent → List DriftEvent
unfolding list_drift filter
drift tid kind t = filter (is_kind kind) (list_drift tid none 200 t)

-- the body of `get_raw`
pub record RawAnswer : Type 0 where
  pub raw_event_id : Text
  pub sha256_verified : Bool
  pub length : ℕ
  pub payload : Text
  pub tenant_id : Text
  pub source_id : Text
  pub received_at : ℕ

-- the raw store: a read that raises gives `none`
pub record RawReads : Type 0 where
  pub read : RawLocation → Option Bytes
  pub verify : RawLocation → Text → Option Bool
  pub decode_utf8 : Bytes → Text

abbrev shown : RawReads → Text → RawRow → Option Bytes → Option Bool → Answer RawAnswer
shown s id r (some payload) (some verified) = ok (record {
  raw_event_id = id;
  sha256_verified = verified;
  length = length payload;
  payload = s.decode_utf8 payload;
  tenant_id = r.tenant_id;
  source_id = r.source_id;
  received_at = r.received_at;
})
shown s id r _ _ = raised

unfoldable pub get_raw : RawReads → Text → Text → RawTable → Answer RawAnswer
get_raw s tid raw_event_id t = elim (Dict.get (raw_event_id, tid) t) as (λ _. Answer RawAnswer) [
  | none ↦ http_error 404
  | some r ↦ shown s raw_event_id r (s.read r.loc) (s.verify r.loc raw_event_id)
]

-- What `promote` writes to, besides the registry of the engine.
pub record PromoteTables : Type 0 where
  pub suggestions : RowTable
  pub parsers : RowTable
  pub audits : Dict Text AuditRow

-- the tables, and the world that holds the registry
abbrev pub Stores : Type 0 → Type 0
Stores W = PromoteTables × W

-- `register_pack` of the engine, which gives the parser's id and version, and `retire_pack`: each gives
-- `none` when it raises, and the stores as it leaves them, for it writes to the tables itself.
pub record PackRegistry (W : Type 0) : Type 0 where
  pub register_pack : Text → Text → Text → Option Text → Stores W → Done (Stores W) (Text × Text)
  pub retire_pack : Text → Stores W → Done (Stores W) Bool

module _ {W : Type 0} (reg : PackRegistry W) where
  abbrev retired : Text → Done (Stores W) Bool → Answer Text × Stores W
  retired parser_id (none, w) = (raised, w)
  retired parser_id (some gone, w) = (if gone then ok parser_id else http_error 404, w)

  -- `retire_parser`
  unfoldable pub retire_parser : Text → Stores W → Answer Text × Stores W
  retire_parser parser_id w = retired parser_id (reg.retire_pack parser_id w)

  abbrev loaded : Done (Stores W) (Text × Text) → Answer (Text × Text) × Stores W
  loaded (none, w) = (http_error 422, w)
  loaded (some p, w) = (ok p, w)

  -- `load_bundle`, without the flag that it reads back from the storage
  unfoldable pub load_bundle : Text → Option Text → Stores W → Answer (Text × Text) × Stores W
  load_bundle yaml signature w =
      loaded (reg.register_pack yaml (codes "api") (codes "active") signature w)

  -- the audit row
  abbrev pub audited :
      Text → ℕ → Text → Text → Text → Text → PromoteTables → Option (Dict Text AuditRow)
  audited fresh now tid approved_by suggestion_id parser_id t =
      audit fresh now tid approved_by (codes "parser.promote") parser_id
        (some (member (codes "suggestion_id") (string suggestion_id) end)) t.audits

  -- what is written once the pack is registered; an audit row whose id is taken is not
  unfoldable pub note_promotion :
      Text → ℕ → Text → Text → Text → Text → PromoteTables → PromoteTables
  unfolding update_suggestion upsert_parser audit
  note_promotion fresh now tid approved_by suggestion_id parser_id t = record {
    suggestions =
        update_suggestion suggestion_id (member (codes "status") (string (codes "promoted")) end)
          t.suggestions;
    parsers =
        upsert_parser now parser_id
          (member (codes "parser_id") (string parser_id) (
            member (codes "promoted_at") (nat now)
              (member (codes "promoted_by") (string approved_by) end)))
          t.parsers;
    audits = Option.get_or (audited fresh now tid approved_by suggestion_id parser_id t) t.audits;
  }

  abbrev answer_of : Option (Dict Text AuditRow) → Text × Text → Answer (Text × Text)
  answer_of none p = raised
  answer_of (some audits) p = ok p

  -- an error keeps what `register_pack` has written before it has raised
  abbrev promoted :
      Text
      → ℕ
      → Text
      → Text
      → Text
      → Done (Stores W) (Text × Text)
      → Answer (Text × Text) × Stores W
  promoted fresh now tid approved_by suggestion_id (none, w) = (http_error 422, w)
  promoted fresh now tid approved_by suggestion_id (some p, (t, w)) = (
    answer_of (audited fresh now tid approved_by suggestion_id p.0 t) p,
    (note_promotion fresh now tid approved_by suggestion_id p.0 t, w),
  )

  -- `promote` of the row of the suggestion
  abbrev promote_found :
      Text → ℕ → Text → Text → Text → Stores W → Option Row → Answer (Text × Text) × Stores W
  promote_found fresh now tid suggestion_id approved_by w none = (http_error 404, w)
  promote_found fresh now tid suggestion_id approved_by w (some sug) =
      promoted fresh now tid approved_by suggestion_id (
        reg.register_pack (text_column (codes "yaml") sug) (codes "suggestion:" ++ suggestion_id)
          (codes "active") none w)

  -- `promote`
  unfoldable pub promote :
      Text → ℕ → Text → Text → Text → Stores W → Answer (Text × Text) × Stores W
  unfolding note_promotion
  promote fresh now tid suggestion_id approved_by w =
      promote_found fresh now tid suggestion_id approved_by w
        (get_suggestion suggestion_id w.0.suggestions)
