-- ===== src/Tests/WorkerTests.antt =====
-- Runs of the worker's loop.
use sih_ulpf.Common.{◌≡◌, refl, true, false, List, [], ◌∷◌, ◌++◌, none, some}
use sih_ulpf.Common.Text.{Text, codes}
use sih_ulpf.Common.Eq.{text_key}
use sih_ulpf.Worker.{Delivery, Stack, Round, work}
use sih_ulpf.Worker.Acks.{AckLaws, ids_before_stop, acked-work}

-- The world is the list of the acknowledged ids, and processing raises.
abbrev stack : Stack (List Text)
stack = record {
  process_batch = λ envs w. (none, w);
  ack = λ ids w. (some tt, w ++ ids);
  tick = λ w. (none, w);
  save_all = λ w. w;
}

stack_laws : AckLaws stack (λ w. w)
stack_laws = record {
  acked-ack = λ ids w h. refl;
  acked-process = λ envs w. refl;
  acked-tick = λ w. refl;
  acked-save = λ w. refl;
}

abbrev delivery : Text → Delivery
delivery id = (
  id,
  record {
    tenant_id = codes "t";
    project_id = codes "p";
    source_id = codes "s";
    transport = codes "tcp";
    received_at = 0;
    peer = none;
    payload_b64 = codes "up";
    payload_sha256 = none;
    hints = [];
  },
)

abbrev rounds : List Round
rounds =
    record { batch = delivery (codes "1") ∷ delivery (codes "2") ∷ []; now = 9; stop = false }
    ∷ record { batch = delivery (codes "3") ∷ []; now = 10; stop = true }
    ∷ []

-- The batch that meets the stop flag is lost.
acked-work_example :
    ((work stack 5 rounds 0 []).0 ≡ some tt)
    × ((work stack 5 rounds 0 []).1 ≡ [] ++ ids_before_stop rounds)
acked-work_example = acked-work stack (λ w. w) stack_laws (λ ids w. refl) 5 rounds 0 []
