-- ===== src/Systemd/Recovered.antt =====
-- A unit that was reported as failed is reported again, as failed or as recovered.

use prostometrics_agent.Base.{true, false, List, Bytes, ◌≡◌, ◌⊎◌, elem_bytes}
use prostometrics_agent.Metrics.{Emission}
use prostometrics_agent.Metrics.Sent.{In}
use prostometrics_agent.Systemd.{unit_failed}

-- The unit is reported as failed or as recovered, as the new state has it.
abbrev pub IsFollowed : Bytes → List Emission × List Bytes → Type 0
IsFollowed unit (sent, after) =
    ((elem_bytes unit after ≡ true) × In (unit_failed 1 unit) sent)
    ⊎ ((elem_bytes unit after ≡ false) × In (unit_failed 0 unit) sent)
