-- ===== src/PoolHealth/Monitor/Probes.antt =====
-- The mean latency that a probe round reports.
use sing_box_webui.Prelude.{ℕ, ◌*◌, ◌≤◌, String, ◌≡◌, ◌⊎◌, List, none, some, length}
use sing_box_webui.Prelude.Int.{ℤ, pos}
use sing_box_webui.PoolHealth.Monitor.{Outcome, successes_of, delay_total}

-- A measured delay is positive, as `apiClient.delay` guarantees, and at most `bound` milliseconds.
abbrev pub IsMeasured : ℕ → Outcome → Type 0
IsMeasured bound o = (o.delay ≡ none) ⊎ ((d : ℕ) × (o.delay ≡ some (pos d)) × (1 ≤ d) × (d ≤ bound))

-- The total of n delays, with no overflow: between n and n times the bound.
abbrev Totals : ℕ → ℕ → ℤ → Type 0
Totals bound n z = (t : ℕ) × (z ≡ pos t) × (n ≤ t) × (t ≤ n * bound)

abbrev Tallies : ℕ → String → List Outcome → Type 0
Tallies bound tag os =
    Totals bound (successes_of tag os) (delay_total tag os) × (successes_of tag os ≤ length os)
