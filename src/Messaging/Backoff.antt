-- ===== src/Messaging/Backoff.antt =====
-- messaging/_backoff.py: capped exponential backoff with jitter, in microseconds.
pub mod Bounds
use workflow_runtime_core.Base.{ℕ, ◌-◌, ◌*◌, ◌^◌, min, ◌==◌, if◌then◌else◌}
use workflow_runtime_core.Db.{Conn, microseconds}

-- BASE_DELAY_SECONDS, MAX_DELAY_SECONDS
abbrev pub base_delay : ℕ
base_delay = 2 * microseconds

abbrev pub max_delay : ℕ
max_delay = 1024 * microseconds

-- min(cap, base * 2.0 ** min(attempts - 1, 32)), for attempts that are at least 1. The source's
-- floats are exact here: powers of two.
unfoldable pub delay_ceiling : ℕ → ℕ → ℕ → ℕ
delay_ceiling attempts base cap = min cap (base * 2 ^ min (attempts - 1) 32)

-- `next_delay_seconds`: the draw number `drawn` of the process's random source.
unfoldable pub next_delay_seconds : Conn → ℕ → ℕ → ℕ
next_delay_seconds conn drawn attempts =
    if attempts == 0 then 0 else conn.uniform drawn (delay_ceiling attempts base_delay max_delay)
