-- ===== src/Socket/Backoff.antt =====
-- lib/constants.js and lib/ws-client.js: the ladder of reconnect delays and its jitter.
use hermitstash_sync.Prelude.{
  ℕ, zero, suc, ◌+◌, ◌-◌, ◌*◌, ◌/◌, ◌≤◌, ◌<◌, min, List, [], ◌∷◌, length, All, arith,
}

-- RECONNECT_DELAYS, in milliseconds.
abbrev pub reconnect_delays : List ℕ
reconnect_delays = 1000 ∷ 2000 ∷ 4000 ∷ 8000 ∷ 16000 ∷ 32000 ∷ 60000 ∷ 120000 ∷ 300000 ∷ []

abbrev entry : List ℕ → ℕ → ℕ
entry [] i = 0
entry (d ∷ ds) zero = d
entry (d ∷ ds) (suc i) = entry ds i

-- The rung of the ladder for an attempt.
unfoldable pub base_delay : ℕ → ℕ
base_delay attempt = entry reconnect_delays (min attempt (length reconnect_delays - 1))

-- The delay of `_scheduleReconnect`, with the random number it drew from [0, half + 1).
unfoldable pub reconnect_delay : (ℕ → ℕ) → ℕ → ℕ
reconnect_delay random_int attempt =
    let half = base_delay attempt / 2 in half + random_int (half + 1)

abbrev IsDelay : ℕ → Type 0
IsDelay d = (1000 ≤ d) × (d ≤ 300000)

entry-All : (P : ℕ → Type 0) (ds : List ℕ) (i : ℕ) → All P ds → i < length ds → P (entry ds i)
entry-All P [] i h lt = ground arith
entry-All P (d ∷ ds) zero h lt = h.0
entry-All P (d ∷ ds) (suc i) h lt = entry-All P ds i h.1 (omega (arith, lt))

base_delay-IsDelay : (attempt : ℕ) → IsDelay (base_delay attempt)
unfolding base_delay
base_delay-IsDelay attempt =
    entry-All IsDelay reconnect_delays (min attempt 8) (ground arith) (omega arith)

-- With the draw of a random number below its bound, the wait before a redial is at least half of its
-- rung of the ladder and at most the rung, so between half a second and five minutes.
reconnect_delay_jitters :
    (random_int : ℕ → ℕ) (attempt : ℕ)
    → ((bound : ℕ) → 0 < bound → random_int bound < bound)
    → (base_delay attempt ≤ 2 * reconnect_delay random_int attempt + 1)
      × (reconnect_delay random_int attempt ≤ base_delay attempt)
      × (500 ≤ reconnect_delay random_int attempt)
      × (reconnect_delay random_int attempt ≤ 300000)
unfolding reconnect_delay
reconnect_delay_jitters random_int attempt draws =
    omega (arith, draws (base_delay attempt / 2 + 1) (omega arith), base_delay-IsDelay attempt)
