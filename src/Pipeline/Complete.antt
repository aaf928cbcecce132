-- ===== src/Pipeline/Complete.antt =====
-- A batch gives one event for each envelope, in order.
use mathlib.Core.Option
use mathlib.Core.List.{append-nil}
use sih_ulpf.Common.{
  ◌≡◌, refl, ◌∙◌, sym, ap, List, [], ◌∷◌, ◌++◌, Option, none, some, inl, inr, Option-cases, map,
}
use sih_ulpf.Common.Text.{Text, count_char}
use sih_ulpf.Common.Dict
use sih_ulpf.Common.Dict.{Dict}
use sih_ulpf.Common.Eq.{text_key, pair_eq}
use sih_ulpf.Models.{RawRecord, RawLocation}
use sih_ulpf.Fingerprint.Unicode.{Unicode}
use sih_ulpf.Fingerprint.Shape.{Digest}
use sih_ulpf.Pipeline.Parts.{RawEnvelope, Event, Done, and_then, rescue, Parts}
use sih_ulpf.Pipeline.Single.{unkept, compute, emergency}
use sih_ulpf.Pipeline.Total.{NormalizeLaws, Holds, compute-Holds, Returns, emergency-Returns}
use sih_ulpf.Pipeline.Batch.{
  Placed, RawKey, Results, records, look_up, by_tenant, place, emit, emit_all, process_batch,
  note_row, note_emergency, write_rows, write_sources, index_rows,
}

abbrev pub ids : List Event → List Text
ids evs = map (λ ev. ev.raw_event_id) evs

abbrev placed_ids : List Placed → List Text
placed_ids ps = map (λ p. p.rec.raw_event_id) ps

-- the digests of the payloads
abbrev pub item_ids : List (RawEnvelope × RawRecord) → List Text
item_ids items = map (λ (i : RawEnvelope × RawRecord). i.1.raw_event_id) items

ids-append :
    (xs : List Event) (ev : Event) (rest : List Text)
    → ids (xs ++ (ev ∷ [])) ++ rest ≡ ids xs ++ (ev.raw_event_id ∷ rest)
ids-append [] ev rest = refl
ids-append (x ∷ xs) ev rest = ap (λ (z : List Text). x.raw_event_id ∷ z) (ids-append xs ev rest)

some_inj : {A : Type 0} {x y : A} → ◌≡◌ {A = Option A} (some x) (some y) → x ≡ y
some_inj q = cc

module _ {F D W : Type 0} (u : Unicode) (sha1_hex : Digest) (parts : Parts F D W) where
  -- no text of the batch has a NUL character
  abbrev pub Clean : List (RawEnvelope × RawRecord) → Type 0
  Clean [] = Unit
  Clean ((env, rec) ∷ items) = (count_char 0 (parts.decode_utf8 rec.payload) ≡ 0) × Clean items

  abbrev PlacedClean : List Placed → Type 0
  PlacedClean [] = Unit
  PlacedClean (p ∷ ps) = (count_char 0 (parts.decode_utf8 p.rec.payload) ≡ 0) × PlacedClean ps

  place-same :
      (items : List (RawEnvelope × RawRecord)) (existing : Dict RawKey RawLocation) (w : W)
      → Clean items
      → PlacedClean (place u sha1_hex parts items existing w).0.0
        × (placed_ids (place u sha1_hex parts items existing w).0.0 ≡ item_ids items)
  unfolding place
  place-same [] existing w h = (tt, refl)
  place-same ((env, rec) ∷ items) existing w (h, hs) =
      let key : RawKey = (env.tenant_id, rec.raw_event_id) in
      elim (Option-cases (Dict.get key existing)) [
        | inl e ↦
            let kept = parts.append rec w in
            let (c, same) =
              place-same items (Dict.put key (Option.get_or kept.0 (unkept rec.payload)) existing)
                kept.1 hs in
            rw (e, place) ((h, c), ap (λ (z : List Text). rec.raw_event_id ∷ z) same)
        | inr (loc, e) ↦
            let (c, same) = place-same items existing w hs in
            rw (e, place) ((h, c), ap (λ (z : List Text). rec.raw_event_id ∷ z) same)
      ]

  module _ (laws : NormalizeLaws parts) where
    -- a round appends one event, of the identity of its record
    abbrev Emits : Placed → Results → Done W Results → Type 0
    Emits p r d =
        (r' : Results) × (d.0 ≡ some r')
        × (ev : Event) × (r'.results ≡ r.results ++ (ev ∷ []))
        × (ev.raw_event_id ≡ p.rec.raw_event_id)

    emit-Emits :
        (p : Placed) (r : Results) (w : W)
        → count_char 0 (parts.decode_utf8 p.rec.payload) ≡ 0
        → Emits p r (emit u sha1_hex parts p r w)
    unfolding emit
    emit-Emits p r w clean =
        go (compute u sha1_hex parts p.env p.rec p.loc p.duplicate_of w)
          (compute-Holds u sha1_hex parts laws p.env p.rec p.loc p.duplicate_of w)
      where
        last :
            (d : Done W Event)
            → Returns u sha1_hex parts laws p.rec.raw_event_id d
            → Emits p r (and_then d (λ ev w''. (some (note_emergency u sha1_hex parts ev r), w'')))
        last (none, v) (ev, e, own) = absurd (none_some e)
          where
            none_some : ◌≡◌ {A = Option Event} none (some ev) → ⊥
            none_some q = cc
        last (some x, v) (ev, e, own) = (
          note_emergency u sha1_hex parts x r,
          refl,
          x,
          refl,
          ap (λ (z : Event). z.raw_event_id) (some_inj e) ∙ own,
        )

        late :
            (w' : W)
            → Emits p r (
                and_then
                  (emergency u sha1_hex parts p.env p.rec w')
                  (λ ev w''. (some (note_emergency u sha1_hex parts ev r), w'')))
        late w' =
            last (emergency u sha1_hex parts p.env p.rec w')
              (emergency-Returns u sha1_hex parts laws p.env p.rec w' clean)

        go :
            (d : Done W (Event × (Text × Text)))
            → Holds (λ row. row.0.raw_event_id ≡ p.rec.raw_event_id) d.0
            → Emits p r (
                rescue
                  (and_then d (λ row w'. (some (note_row u sha1_hex parts p.env row r), w')))
                  (λ w'.
                    and_then
                      (emergency u sha1_hex parts p.env p.rec w')
                      (λ ev w''. (some (note_emergency u sha1_hex parts ev r), w''))))
        go (none, v) q = late v
        go (some row, v) q = (note_row u sha1_hex parts p.env row r, refl, row.0, refl, q)

    emit_all-Emits :
        (ps : List Placed) (r : Results) (w : W)
        → PlacedClean ps
        → (r' : Results) × ((emit_all u sha1_hex parts ps r w).0 ≡ some r')
          × (ids r'.results ≡ ids r.results ++ placed_ids ps)
    unfolding emit_all
    emit_all-Emits [] r w h = (r, refl, sym (append-nil (ids r.results)))
    emit_all-Emits (p ∷ ps) r w (h, hs) =
        go (λ x v. emit_all-Emits ps x v hs) (emit u sha1_hex parts p r w) (emit-Emits p r w h)
      where
        go :
            ((x : Results) (v : W)
              → (r' : Results) × ((emit_all u sha1_hex parts ps x v).0 ≡ some r')
                × (ids r'.results ≡ ids x.results ++ placed_ids ps))
            → (d : Done W Results) → Emits p r d
            → (r' : Results) × ((and_then d (emit_all u sha1_hex parts ps)).0 ≡ some r')
              × (ids r'.results ≡ ids r.results ++ placed_ids (p ∷ ps))
        go later (none, v) (r1, e, ev, grown, own) = absurd (none_some e)
          where
            none_some : ◌≡◌ {A = Option Results} none (some r1) → ⊥
            none_some q = cc
        go later (some x, v) (r1, e, ev, grown, own) =
            let (r', f, all) = later x v in (r', f, all ∙ step (some_inj e))
          where
            step : x ≡ r1 → ids x.results ++ placed_ids ps ≡ ids r.results ++ placed_ids (p ∷ ps)
            step q =
                ap (λ (z : Results). ids z.results ++ placed_ids ps) q
                ∙ ap (λ (z : List Event). ids z ++ placed_ids ps) grown
                ∙ ids-append r.results ev (placed_ids ps)
                ∙ ap (λ (z : Text). ids r.results ++ (z ∷ placed_ids ps)) own

    -- A batch in which every payload decodes and no text has a NUL character returns one event for each
    -- envelope, in the order of the envelopes, each with the digest of its payload, whatever the
    -- storage, the raw store, the engine and the drift monitor raise, if `normalize` returns an event
    -- of the identity that it is given.
    pub process_batch_total :
        (envs : List RawEnvelope) (items : List (RawEnvelope × RawRecord)) (w : W)
        → records u sha1_hex parts envs ≡ some items
        → Clean items
        → (evs : List Event) × ((process_batch u sha1_hex parts envs w).0 ≡ some evs)
          × (ids evs ≡ item_ids items)
    unfolding process_batch
    process_batch_total envs items w h clean =
        let (existing, w1) = look_up u sha1_hex parts (by_tenant items []) [] w in
        let (c, same) = place-same items existing w1 clean in
        let ((placed, rows), w2) = place u sha1_hex parts items existing w1 in
        let (r, e, all) =
          emit_all-Emits placed (record { results = []; event_rows = []; source_incs = [] })
            (index_rows u sha1_hex parts rows w2) c in
        rw (h, process_batch)
          (go
            (emit_all u sha1_hex parts placed
              (record { results = []; event_rows = []; source_incs = [] })
              (index_rows u sha1_hex parts rows w2))
            r e (all ∙ same))
      where
        go :
            (d : Done W Results) (r : Results)
            → d.0 ≡ some r
            → ids r.results ≡ item_ids items
            → (evs : List Event) × ((and_then d (λ q w3. (
              some q.results,
              write_sources u sha1_hex parts q.source_incs
                  (write_rows u sha1_hex parts q.event_rows w3),
            ))).0
                ≡ some evs)
              × (ids evs ≡ item_ids items)
        go (none, v) r e all = absurd (none_some e)
          where
            none_some : ◌≡◌ {A = Option Results} none (some r) → ⊥
            none_some q = cc
        go (some x, v) r e all =
            (x.results, refl, ap (λ (z : Results). ids z.results) (some_inj e) ∙ all)
