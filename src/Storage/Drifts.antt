-- ===== src/Storage/Drifts.antt =====
-- The drift events and the audit trail of uli/storage/sql.py.
use sih_ulpf.Common.{ℕ, ◌&&◌, leb, List, Option, none, some, take}
use sih_ulpf.Common.Text.{Text, text_eq}
use sih_ulpf.Common.Dict.{Dict}
use sih_ulpf.Common.Eq.{text_key}
use sih_ulpf.Normalization.Tree.{Tree, Members, end}
use sih_ulpf.Storage.Tables.{filter, rows, insert, update, order_desc}
use sih_ulpf.Storage.Events.{when}

-- `DriftEvent`, which is a row of `drift_events`
pub record DriftEvent : Type 0 where
  pub drift_id : Text
  pub tenant_id : Text
  pub kind : Text
  pub key : Text
  pub desired : Tree
  pub observed : Tree
  pub severity : Text
  pub detected_at : ℕ
  pub snapshot_raw_event_id : Option Text
  pub desired_state_sha256 : Option Text

-- `ParserDriftEvent`, which is a row of `parser_drift_events`
pub record ParserDriftEvent (F : Type 0) : Type 0 where
  pub pdrift_id : Text
  pub tenant_id : Text
  pub source_id : Text
  pub parser_id : Text
  pub parser_version : Text
  pub detected_at : ℕ
  pub js_divergence : F
  pub confidence_before : F
  pub confidence_after : F
  pub reference_histogram : Dict Text ℕ
  pub current_histogram : Dict Text ℕ
  pub window_size : ℕ
  pub explained_by : List Text
  pub suggestion_id : Option Text
  pub reason : Text

-- A row of `audit`.
pub record AuditRow : Type 0 where
  pub id : Text
  pub tenant_id : Text
  pub actor : Text
  pub action : Text
  pub target : Text
  pub at : ℕ
  pub details : Members

unfoldable pub write_drift : DriftEvent → Dict Text DriftEvent → Option (Dict Text DriftEvent)
unfolding insert
write_drift ev t = insert ev.drift_id ev t

unfoldable pub list_drift : Text → Option ℕ → ℕ → Dict Text DriftEvent → List DriftEvent
unfolding filter rows order_desc
list_drift tenant_id since limit t = take limit (
    order_desc (λ r. r.detected_at)
      (filter (λ r. text_eq r.tenant_id tenant_id && when since (λ s. leb s r.detected_at))
        (rows t)))

module _ {F : Type 0} where
  unfoldable pub write_parser_drift :
      ParserDriftEvent F → Dict Text (ParserDriftEvent F) → Option (Dict Text (ParserDriftEvent F))
  unfolding insert
  write_parser_drift ev t = insert ev.pdrift_id ev t

  unfoldable pub list_parser_drift :
      Text → ℕ → Dict Text (ParserDriftEvent F) → List (ParserDriftEvent F)
  unfolding filter rows order_desc
  list_parser_drift tenant_id limit t =
      take limit
        (order_desc (λ r. r.detected_at) (filter (λ r. text_eq r.tenant_id tenant_id) (rows t)))

  -- `update_parser_drift` with the field that the pipeline gives
  unfoldable pub update_parser_drift :
      Text → List Text → Dict Text (ParserDriftEvent F) → Dict Text (ParserDriftEvent F)
  unfolding update
  update_parser_drift pdrift_id explained_by t =
      update pdrift_id (λ r. record r { explained_by = explained_by }) t

abbrev given_details : Option Members → Members
given_details none = end
given_details (some d) = d

-- `audit`, with a fresh id
unfoldable pub audit :
    Text
    → ℕ
    → Text
    → Text
    → Text
    → Text
    → Option Members
    → Dict Text AuditRow
    → Option (Dict Text AuditRow)
unfolding insert
audit fresh now tenant_id actor action target details t =
    insert fresh
      (record {
        id = fresh;
        tenant_id = tenant_id;
        actor = actor;
        action = action;
        target = target;
        at = now;
        details = given_details details;
      })
      t

unfoldable pub list_audit : Text → ℕ → Dict Text AuditRow → List AuditRow
unfolding filter rows order_desc
list_audit tenant_id limit t =
    take limit (order_desc (λ r. r.at) (filter (λ r. text_eq r.tenant_id tenant_id) (rows t)))
