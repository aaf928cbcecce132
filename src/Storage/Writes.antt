-- ===== src/Storage/Writes.antt =====
-- What the writes of events do to the tables: a batch and its events one by one.
use mathlib.Core.Option
use sih_ulpf.Common.{
  ℕ, ◌≡◌, refl, ap, List, [], ◌∷◌, Option, none, some, Bool-cases, Option-cases, inl, inr,
}
use sih_ulpf.Common.Text.{Text, text_eq}
use sih_ulpf.Common.Dict
use sih_ulpf.Common.Dict.{Dict}
use sih_ulpf.Common.Eq.{text_key}
use sih_ulpf.Normalization.Tree.{Tree}
use sih_ulpf.Normalization.Normalize.{NormalizedEvent}
use sih_ulpf.Storage.Tables.{rows, insert}
use sih_ulpf.Storage.Events.{
  EventRow, EventTables, event_row, indexed, write_event, write_events_bulk, insert_all, index_all,
}
use sih_ulpf.Storage.Isolation.{All, SaysTenant, Coherent}

module _ {F : Type 0} (timestamp : Tree → Option ℕ) (now : ℕ) where
  -- one event after another, up to the first that raises
  unfoldable pub write_singly :
      List (NormalizedEvent F × (Text × Text)) → EventTables F → Option (EventTables F)
  write_singly [] t = some t
  write_singly (item ∷ items) t =
      Option.bind (write_event timestamp now item t) (write_singly items)

  abbrev bulk_tables :
      List (NormalizedEvent F × (Text × Text))
      → Option (List (Text × Text))
      → Dict Text (EventRow F)
      → EventTables F
  bulk_tables items fts events = record {
    events = events;
    events_fts = Option.map (index_all timestamp items) fts;
  }

  bulk_singly :
      (items : List (NormalizedEvent F × (Text × Text))) (events : Dict Text (EventRow F))
      (fts : Option (List (Text × Text)))
      → Option.map (bulk_tables items fts) (insert_all timestamp now items events)
        ≡ write_singly items (record { events = events; events_fts = fts })
  unfolding insert_all index_all write_singly write_event Option.bind
  bulk_singly [] events none = refl
  bulk_singly [] events (some fts) = refl
  bulk_singly (item ∷ items) events fts =
      go (insert item.0.event_id (event_row timestamp now item) events) fts (bulk_singly items)
    where
      go :
          (o : Option (Dict Text (EventRow F))) (fts : Option (List (Text × Text)))
          → ((events : Dict Text (EventRow F)) (fts : Option (List (Text × Text)))
              → Option.map (bulk_tables items fts) (insert_all timestamp now items events)
                ≡ write_singly items (record { events = events; events_fts = fts }))
          → Option.map
              (bulk_tables (item ∷ items) fts)
              (Option.bind o (insert_all timestamp now items))
            ≡ Option.bind
                (Option.map
                  (λ events. record {
                    events = events;
                    events_fts = Option.map (indexed timestamp item.0) fts;
                  })
                  o)
                (write_singly items)
      go none fts next = refl
      go (some events) none next = next events none
      go (some events) (some texts) next = next events (some (indexed timestamp item.0 texts))

  -- A batch of events writes the rows and the indexed texts that its events write one after another,
  -- and raises exactly when one of these raises.
  pub write_events_bulk-singly :
      (items : List (NormalizedEvent F × (Text × Text))) (t : EventTables F)
      → write_events_bulk timestamp now items t ≡ write_singly items t
  unfolding write_events_bulk write_singly
  write_events_bulk-singly [] t = refl
  write_events_bulk-singly (item ∷ items) t = bulk_singly (item ∷ items) t.events t.events_fts

All-put :
    {V : Type 0} (P : V → Type 0) (k : Text) (v : V) (t : Dict Text V)
    → P v
    → All P (rows t)
    → All P (rows (Dict.put k v t))
unfolding rows Dict.put
All-put P k v [] x h = (x, tt)
All-put P k v ((j, w) ∷ t) x (y, h) = elim (Bool-cases (text_eq j k)) [
  | inl same ↦ rw same (x, h)
  | inr other ↦ rw other (y, All-put P k v t x h)
]

some_inj : {A : Type 0} {x y : A} → ◌≡◌ {A = Option A} (some x) (some y) → x ≡ y
some_inj q = cc

insert-All :
    {V : Type 0} (P : V → Type 0) (k : Text) (v : V) (t t' : Dict Text V)
    → insert k v t ≡ some t'
    → P v
    → All P (rows t)
    → All P (rows t')
unfolding insert
insert-All P k v t t' e x h = elim (Option-cases (Dict.get k t)) [
  | inl fresh ↦ rw (← some_inj (rw (fresh, insert) at e)) (All-put P k v t x h)
  | inr (old, found) ↦ absurd (clash (rw (found, insert) at e))
]
  where
    clash : ◌≡◌ {A = Option (Dict Text _)} none (some t') → ⊥
    clash q = cc

module _ {F : Type 0} (timestamp : Tree → Option ℕ) (now : ℕ) where
  -- A write that does not raise leaves rows that say the tenants of their events, if they did before.
  pub write_event-Coherent :
      (item : NormalizedEvent F × (Text × Text)) (t t' : EventTables F)
      → write_event timestamp now item t ≡ some t'
      → Coherent t
      → Coherent t'
  unfolding write_event Coherent
  write_event-Coherent item t t' e h =
      go (insert item.0.event_id (event_row timestamp now item) t.events) refl e
    where
      go :
          (o : Option (Dict Text (EventRow F)))
          → insert item.0.event_id (event_row timestamp now item) t.events ≡ o
          → Option.map
              (λ events. record {
                events = events;
                events_fts = Option.map (indexed timestamp item.0) t.events_fts;
              })
              o
            ≡ some t'
          → All SaysTenant (rows t'.events)
      go none q e = absurd (clash e)
        where
          clash : ◌≡◌ {A = Option (EventTables F)} none (some t') → ⊥
          clash z = cc
      go (some events) q e = rw (← ap (λ (z : EventTables F). z.events) (some_inj e)) (
          insert-All SaysTenant item.0.event_id (event_row timestamp now item) t.events events q
            refl h)

  pub write_singly-Coherent :
      (items : List (NormalizedEvent F × (Text × Text))) (t t' : EventTables F)
      → write_singly timestamp now items t ≡ some t'
      → Coherent t
      → Coherent t'
  unfolding write_singly Option.bind
  write_singly-Coherent [] t t' e h = rw (← some_inj e) h
  write_singly-Coherent (item ∷ items) t t' e h =
      elim (Option-cases (write_event timestamp now item t)) [
        | inl raised ↦ absurd (clash (rw raised at e))
        | inr (t1, written) ↦
            write_singly-Coherent items t1 t' (rw written at e)
              (write_event-Coherent item t t1 written h)
      ]
    where
      clash : ◌≡◌ {A = Option (EventTables F)} none (some t') → ⊥
      clash q = cc
