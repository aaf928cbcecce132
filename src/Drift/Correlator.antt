-- ===== src/Drift/Correlator.antt =====
-- `correlate` of uli/drift/correlator.py. A time is the number of microseconds since the epoch, so
-- `_aware` leaves it as it is.
use sih_ulpf.Common.{ℕ, ◌-◌, leb, List, map, some, take}
use sih_ulpf.Common.Text.{Text}
use sih_ulpf.Common.Dict.{Dict}
use sih_ulpf.Storage.Tables.{filter, order_desc}
use sih_ulpf.Storage.Drifts.{DriftEvent, ParserDriftEvent, list_drift}

-- the resource drifts of the window before the parser's drift, which explain it
unfoldable pub explaining :
    {F : Type 0} → ParserDriftEvent F → ℕ → Dict Text DriftEvent → List DriftEvent
unfolding list_drift filter order_desc
explaining pdrift window t =
    order_desc (λ c. c.detected_at)
      (filter (λ c. leb c.detected_at pdrift.detected_at)
        (list_drift pdrift.tenant_id (some (pdrift.detected_at - window)) 50 t))

-- `correlate`
unfoldable pub correlate : {F : Type 0} → ParserDriftEvent F → ℕ → Dict Text DriftEvent → List Text
unfolding explaining
correlate pdrift window t = take 5 (map (λ c. c.drift_id) (explaining pdrift window t))
