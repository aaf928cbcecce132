-- ===== src/Drift/Bounds.antt =====
-- The counters of the monitor stay below their bounds.
use mathlib.Core.Option
use mathlib.Core.Path.{subst}
use sih_ulpf.Common.{
  ℕ, suc, ◌<◌, ◌≡◌, sym, ◌∙◌, Bool, true, false, ◌||◌, Option, none, some, inl, inr, Bool-cases,
  ltb, arith,
}
use sih_ulpf.Common.Text.{Text, codes, text_eq}
use sih_ulpf.Common.Dict
use sih_ulpf.Common.Dict.{Dict}
use sih_ulpf.Common.Eq.{text_key, pair_eq}
use sih_ulpf.Drift.Divergence.{DriftFloats, Counter}
use sih_ulpf.Drift.Monitor.{
  Window, WindowKey, DriftSettings, Monitor, Seen, key_of, new_window, extended, still_open,
  count_hit, judge, observe,
}

module _ {F : Type 0} (num : DriftFloats F) (set : DriftSettings F) where
  -- Every window has fewer events than close it, and every key fewer hits than raise an alarm.
  pub record InBounds (m : Monitor F) : Type 0 where
    pub windows_open :
        (k : WindowKey) (w : Window F) → Dict.get k m.windows ≡ some w → w.n < set.window_events
    pub hits_below :
        (k : WindowKey) (n : ℕ)
        → Dict.get k m.consecutive_hits ≡ some n
        → n < set.consecutive_required

some_inj : {A : Type 0} {x y : A} → ◌≡◌ {A = Option A} (some x) (some y) → x ≡ y
some_inj q = cc

-- a property of all values of a table, with one more value
all_put :
    {V : Type 0} (P : V → Type 0) (k : WindowKey) (v : V) (d : Dict WindowKey V)
    → ((j : WindowKey) (w : V) → Dict.get j d ≡ some w → P w)
    → P v
    → (j : WindowKey) (w : V) → Dict.get j (Dict.put k v d) ≡ some w
    → P w
all_put {V} P k v d h p j w e = elim (Bool-cases ((pair_eq {A = Text} {B = Text}).beq k j)) [
  | inl same ↦ subst P (some_inj (sym (rw same at (Dict.get-put k j v d)) ∙ e)) p
  | inr other ↦ h j w (sym (rw other at (Dict.get-put k j v d)) ∙ e)
]

module _ {F : Type 0} (num : DriftFloats F) (set : DriftSettings F)
    (some_events : 0 < set.window_events) (some_hits : 0 < set.consecutive_required) where
  count_hit-InBounds :
      (o : Seen F) (w : Window F) (ref : Counter × F) (js after : F) (drifted : Bool)
      (m : Monitor F)
      → InBounds num set m
      → InBounds num set (count_hit num set o w ref js after drifted m).1
  unfolding count_hit
  count_hit-InBounds o w ref js after false m h = record {
    windows_open = h.windows_open;
    hits_below =
        all_put (λ n. n < set.consecutive_required) (key_of o) 0 m.consecutive_hits h.hits_below
          some_hits;
  }
  count_hit-InBounds o w ref js after true m h =
      let hits = suc (Option.get_or (Dict.get (key_of o) m.consecutive_hits) 0) in
      elim (Bool-cases (ltb hits set.consecutive_required)) [
        | inl e ↦ rw e (record {
          windows_open = h.windows_open;
          hits_below =
              all_put (λ n. n < set.consecutive_required) (key_of o) hits m.consecutive_hits
                h.hits_below (ground arith);
        })
        | inr e ↦ rw e (record {
          windows_open = h.windows_open;
          hits_below =
              all_put (λ n. n < set.consecutive_required) (key_of o) 0 m.consecutive_hits
                h.hits_below some_hits;
        })
      ]

  judge-InBounds :
      (o : Seen F) (w : Window F) (ewma : F) (ref : Option (Counter × F)) (m : Monitor F)
      → InBounds num set m
      → InBounds num set (judge num set o w ewma ref m).1
  unfolding judge
  judge-InBounds o w ewma none m h = record {
    windows_open = h.windows_open;
    hits_below = h.hits_below;
  }
  judge-InBounds o w ewma (some ref) m h = count_hit-InBounds o w ref _ ewma _ m h

  -- `observe` keeps every window below `window_events` events and every count of consecutive hits below
  -- the number that is required for an alarm, if both are positive: a window is closed by the event
  -- that fills it, and an alarm clears the count.
  pub observe-InBounds :
      (o : Seen F) (m : Monitor F) → InBounds num set m → InBounds num set (observe num set o m).1
  unfolding observe
  observe-InBounds o m h =
      let w =
        extended num set o
          (Option.get_or (Dict.get (key_of o) m.windows) (new_window num set o.now)) in
      elim (Bool-cases
        (text_eq o.parser_id (codes "engine.quarantine") || text_eq o.parser_id (codes "none"))) [
          | inl e ↦ rw e h
          | inr e ↦ elim (Bool-cases (still_open num set o w)) [
            | inl f ↦
                rw (e, f)
                  (record {
                    windows_open =
                        all_put (λ x. x.n < set.window_events) (key_of o) w m.windows h.windows_open
                          (ground (arith, f));
                    hits_below = h.hits_below;
                  })
            | inr f ↦
                rw (e, f)
                  (judge-InBounds o w _ (Dict.get (key_of o) m.reference) _ (record {
                    windows_open =
                        all_put (λ x. x.n < set.window_events) (key_of o) (new_window num set o.now)
                          m.windows h.windows_open some_events;
                    hits_below = h.hits_below;
                  }))
          ]
        ]
