-- ===== src/Drift/Agent.antt =====
-- `tick` of `ResourceDriftAgent` of uli/drift/resource.py.
use sih_ulpf.Common.{ℕ, suc, Bool, true, false, List, [], ◌∷◌, none, some}
use sih_ulpf.Common.Text.{Text, codes}
use sih_ulpf.Common.Dict.{Dict}
use sih_ulpf.Models.{Bytes, RawRecord, RawLocation}
use sih_ulpf.Pipeline.Parts.{Done}
use sih_ulpf.Normalization.Tree.{Tree, Members}
use sih_ulpf.Storage.Raw.{RawTable, index_raw}
use sih_ulpf.Storage.Drifts.{DriftEvent, write_drift}
use sih_ulpf.Drift.Resource.{Difference, diff}

-- `json.dumps(..).encode()`, SHA-256, `==` of two values, and the raw store over the world `W`
pub record AgentCalls (W : Type 0) : Type 0 where
  pub dumps : Members → Bytes
  pub sha256_hex : Bytes → Text
  pub tree_eq : Tree → Tree → Bool
  pub append : RawRecord → W → Done W RawLocation

-- The tables that the agent writes to.
pub record AgentTables : Type 0 where
  pub raws : RawTable
  pub drifts : Dict Text DriftEvent

module _ {W : Type 0} (calls : AgentCalls W) (default_tenant : Text) where
  -- the record of a snapshot
  abbrev pub snapshot : ℕ → Bytes → RawRecord
  snapshot now snap = record {
    raw_event_id = calls.sha256_hex snap;
    tenant_id = default_tenant;
    source_id = codes "drift-agent";
    transport = codes "internal";
    peer = none;
    received_at = now;
    payload = snap;
  }

  -- an event of `diff` as the loop completes it, with its fresh id and its time
  abbrev pub completed_event : Text → ℕ → Text → Text → Difference → DriftEvent
  completed_event id now raw_id desired_hash d = record {
    drift_id = id;
    tenant_id = default_tenant;
    kind = d.kind;
    key = d.key;
    desired = d.desired;
    observed = d.observed;
    severity = d.severity;
    detected_at = now;
    snapshot_raw_event_id = some raw_id;
    desired_state_sha256 = some desired_hash;
  }

  -- the loop over the events, and whether it ended; an id that is there raises, with the earlier
  -- events written
  unfoldable pub write_all : List DriftEvent → Dict Text DriftEvent → Bool × Dict Text DriftEvent
  unfolding write_drift
  write_all [] t = (true, t)
  write_all (ev ∷ evs) t = elim (write_drift ev t) as (λ _. Bool × Dict Text DriftEvent) [
    | none ↦ (false, t)
    | some t' ↦ write_all evs t'
  ]

  -- the events of `diff` with the ids from the `i`th on
  unfoldable pub completed : (ℕ → Text) → ℕ → ℕ → Text → Text → List Difference → List DriftEvent
  completed ids i now raw_id desired_hash [] = []
  completed ids i now raw_id desired_hash (d ∷ ds) =
      completed_event (ids i) now raw_id desired_hash d
      ∷ completed ids (suc i) now raw_id desired_hash ds

  abbrev pub ended :
      List DriftEvent
      → RawTable
      → W
      → Bool × Dict Text DriftEvent
      → Done (AgentTables × W) (List DriftEvent)
  ended evs raws w (false, drifts) = (none, (record { raws = raws; drifts = drifts }, w))
  ended evs raws w (true, drifts) = (some evs, (record { raws = raws; drifts = drifts }, w))

  abbrev pub appended :
      (ℕ → Text)
      → ℕ
      → ℕ
      → Members
      → Members
      → AgentTables
      → Done W RawLocation
      → Done (AgentTables × W) (List DriftEvent)
  appended ids now later desired observed t (none, w) = (none, (t, w))
  appended ids now later desired observed t (some loc, w) =
      let snap = calls.dumps observed in
      let evs =
        completed ids 0 later (calls.sha256_hex snap) (calls.sha256_hex (calls.dumps desired))
          (diff calls.tree_eq desired observed) in
      ended evs (index_raw (snapshot now snap) loc t.raws) w (write_all evs t.drifts)

  -- `tick` of a desired and an observed state: `none` is an exception; `before`, `now` and `later` are
  -- the times of the two records and of the events
  unfoldable pub tick :
      (ℕ → Text)
      → ℕ
      → ℕ
      → ℕ
      → Members
      → Members
      → AgentTables
      → W
      → Done (AgentTables × W) (List DriftEvent)
  unfolding write_all completed diff index_raw
  tick ids before now later desired observed t w =
      appended ids now later desired observed t
        (calls.append (snapshot before (calls.dumps observed)) w)
