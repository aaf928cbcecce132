-- ===== src/Drift/Monitor.antt =====
-- `DriftMonitor` of uli/drift/parser_drift.py.
use mathlib.Core.Option
use sih_ulpf.Common.{ℕ, suc, ◌-◌, Bool, ◌&&◌, ◌||◌, not, [], Option, none, some, ltb, if◌then◌else◌}
use sih_ulpf.Common.Text.{Text, codes, text_eq}
use sih_ulpf.Common.Dict
use sih_ulpf.Common.Dict.{Dict}
use sih_ulpf.Common.Eq.{text_key, pair_eq}
use sih_ulpf.Drift.Divergence.{DriftFloats, Counter, count_of, js_divergence}

-- `_Window`; times are in one unit of the monotonic clock
pub record Window (F : Type 0) : Type 0 where
  pub shapes : Counter
  pub conf_sum : F
  pub n : ℕ
  pub started : ℕ

-- source and parser
abbrev pub WindowKey : Type 0
WindowKey = Text × Text

-- `ParserDriftEvent`
pub record ParserDrift (F : Type 0) : Type 0 where
  pub tenant_id : Text
  pub source_id : Text
  pub parser_id : Text
  pub js_divergence : F
  pub confidence_before : F
  pub confidence_after : F
  pub reference_histogram : Counter
  pub current_histogram : Counter
  pub window_size : ℕ
  pub reason : Text

pub record DriftSettings (F : Type 0) : Type 0 where
  pub window_events : ℕ
  pub window_seconds : ℕ
  pub js_threshold : F
  pub consecutive_required : ℕ
  pub confidence_drop : F

pub record Monitor (F : Type 0) : Type 0 where
  pub windows : Dict WindowKey (Window F)
  pub consecutive_hits : Dict WindowKey ℕ
  pub ewma_conf : Dict WindowKey F
  pub reference : Dict WindowKey (Counter × F)

-- The arguments of `observe`, and the clock.
pub record Seen (F : Type 0) : Type 0 where
  pub tenant_id : Text
  pub source_id : Text
  pub parser_id : Text
  pub shape_hash : Text
  pub confidence : F
  pub now : ℕ

abbrev pub key_of : {F : Type 0} → Seen F → WindowKey
key_of o = (o.source_id, o.parser_id)

module _ {F : Type 0} (num : DriftFloats F) (set : DriftSettings F) where
  abbrev pub new_window : ℕ → Window F
  new_window now = record { shapes = []; conf_sum = num.of_nat 0; n = 0; started = now }

  -- the window with one more event in it
  unfoldable pub extended : Seen F → Window F → Window F
  extended o w = record {
    shapes = Dict.put o.shape_hash (suc (count_of w.shapes o.shape_hash)) w.shapes;
    conf_sum = num.add w.conf_sum o.confidence;
    n = suc w.n;
    started = w.started;
  }

  abbrev pub still_open : Seen F → Window F → Bool
  still_open o w = ltb w.n set.window_events && ltb (o.now - w.started) set.window_seconds

  -- `conf_drop`
  abbrev dropped : F → F → F
  dropped before after =
      let d = num.sub before after in if num.lt (num.of_nat 0) d then d else num.of_nat 0

  abbrev hits_of : WindowKey → Monitor F → ℕ
  hits_of key m = Option.get_or (Dict.get key m.consecutive_hits) 0

  unfoldable pub drift_event : Seen F → Window F → Counter × F → F → F → ParserDrift F
  drift_event o w ref js after = record {
    tenant_id = o.tenant_id;
    source_id = o.source_id;
    parser_id = o.parser_id;
    js_divergence = num.round_4 js;
    confidence_before = num.round_4 ref.1;
    confidence_after = num.round_4 after;
    reference_histogram = ref.0;
    current_histogram = w.shapes;
    window_size = w.n;
    reason = if num.lt set.js_threshold js then codes "js_divergence" else codes "confidence_drop";
  }

  -- what follows the comparison of a full window `w` with the reference
  unfoldable pub count_hit :
      Seen F
      → Window F
      → Counter × F
      → F
      → F
      → Bool
      → Monitor F
      → Option (ParserDrift F) × Monitor F
  unfolding drift_event
  count_hit o w ref js after drifted m =
      let hits = suc (hits_of (key_of o) m) in
      let cleared = record m { consecutive_hits = Dict.put (key_of o) 0 m.consecutive_hits } in
      if not drifted
      then (none, cleared)
      else if ltb hits set.consecutive_required
      then (none, record m { consecutive_hits = Dict.put (key_of o) hits m.consecutive_hits })
      else (some (drift_event o w ref js after), cleared)

  -- a full window: the first one becomes the reference
  unfoldable pub judge :
      Seen F → Window F → F → Option (Counter × F) → Monitor F → Option (ParserDrift F) × Monitor F
  unfolding count_hit
  judge o w ewma none m = (
    none,
    record m {
      reference = Dict.put (key_of o) (w.shapes, num.div w.conf_sum (num.of_nat w.n)) m.reference;
    },
  )
  judge o w ewma (some ref) m =
      let js = js_divergence num ref.0 w.shapes in
      count_hit o w ref js ewma
        (num.lt set.js_threshold js || num.lt set.confidence_drop (dropped ref.1 ewma)) m

  -- `observe` as one atomic step; the source holds its lock only up to the closing of the window, and
  -- what another thread does behind that is not modelled.
  unfoldable pub observe : Seen F → Monitor F → Option (ParserDrift F) × Monitor F
  unfolding extended judge
  observe o m =
      let key = key_of o in
      let w = extended o (Option.get_or (Dict.get key m.windows) (new_window o.now)) in
      let prev = Option.get_or (Dict.get key m.ewma_conf) o.confidence in
      let ewma = num.add (num.mul num.f_09 prev) (num.mul num.f_01 o.confidence) in
      let noted = record m {
        windows = Dict.put key w m.windows;
        ewma_conf = Dict.put key ewma m.ewma_conf;
      } in
      let closed = record noted { windows = Dict.put key (new_window o.now) m.windows } in
      if text_eq o.parser_id (codes "engine.quarantine") || text_eq o.parser_id (codes "none")
      then (none, m)
      else if still_open o w
      then (none, noted)
      else judge o w ewma (Dict.get key m.reference) closed
