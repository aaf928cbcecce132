-- ===== src/Tests/DriftTests.antt =====
-- Runs of the drift monitor with confidences in hundredths.
use sih_ulpf.Common.{ℕ, ◌+◌, ◌-◌, ◌*◌, ◌/◌, ◌≢◌, Option, none, some, [], ltb, arith}
use sih_ulpf.Common.Text.{codes}
use sih_ulpf.Common.Dict
use sih_ulpf.Common.Eq.{text_key, pair_eq}
use sih_ulpf.Drift.Divergence.{DriftFloats}
use sih_ulpf.Drift.Monitor.{Window, DriftSettings, Monitor, Seen, observe}
use sih_ulpf.Drift.Bounds.{InBounds, observe-InBounds}

abbrev hundredths : DriftFloats ℕ
hundredths = record {
  lt = ltb;
  add = λ a b. a + b;
  sub = λ a b. a - b;
  mul = λ a b. a * b / 100;
  div = λ a b. a * 100 / b;
  log2 = λ a. a;
  of_nat = λ n. n * 100;
  f_01 = 10;
  f_05 = 50;
  f_09 = 90;
  round_4 = λ a. a;
}

abbrev settings : DriftSettings ℕ
settings = record {
  window_events = 2;
  window_seconds = 60;
  js_threshold = 30;
  consecutive_required = 3;
  confidence_drop = 20;
}

abbrev empty : Monitor ℕ
empty = record { windows = []; consecutive_hits = []; ewma_conf = []; reference = [] }

empty-InBounds : InBounds hundredths settings empty
unfolding Dict.get
empty-InBounds = record {
  windows_open = λ k w p. absurd (no_window w p);
  hits_below = λ k n p. absurd (no_hits n p);
}
  where
    no_window : (w : Window ℕ) → ◌≢◌ {A = Option (Window ℕ)} none (some w)
    no_window w q = cc

    no_hits : (n : ℕ) → ◌≢◌ {A = Option ℕ} none (some n)
    no_hits n q = cc

abbrev seen : Seen ℕ
seen = record {
  tenant_id = codes "t";
  source_id = codes "s";
  parser_id = codes "p";
  shape_hash = codes "h";
  confidence = 80;
  now = 5;
}

observe-InBounds_example : InBounds hundredths settings (observe hundredths settings seen empty).1
observe-InBounds_example =
    observe-InBounds hundredths settings (omega arith) (omega arith) seen empty empty-InBounds
