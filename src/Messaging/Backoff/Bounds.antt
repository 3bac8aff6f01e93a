-- ===== src/Messaging/Backoff/Bounds.antt =====
-- The delay before a retry is bounded.
use workflow_runtime_core.Base.{ℕ, ◌≤◌, arith, inl, inr, ◌==◌, Bool-cases}
use workflow_runtime_core.Db.{Conn}
use workflow_runtime_core.Messaging.Backoff.{
  base_delay, max_delay, delay_ceiling, next_delay_seconds,
}

ceiling-max_delay : (n : ℕ) → delay_ceiling n base_delay max_delay ≤ max_delay
unfolding delay_ceiling
ceiling-max_delay n = omega arith

-- Where the random source stays in the range it is asked for, the delay before attempt number
-- `attempts + 1` is at most the doubled base delay of that many attempts, and never above the cap.
next_delay-bounded :
    (conn : Conn) (drawn attempts : ℕ)
    → ((n c : ℕ) → conn.uniform n c ≤ c)
    → (next_delay_seconds conn drawn attempts ≤ delay_ceiling attempts base_delay max_delay)
      × (next_delay_seconds conn drawn attempts ≤ max_delay)
unfolding next_delay_seconds
next_delay-bounded conn drawn attempts within = elim (Bool-cases (attempts == 0)) [
  | inl e ↦ rw e (omega arith, omega arith)
  | inr e ↦
      let a = within drawn (delay_ceiling attempts base_delay max_delay) in
      rw e (a, omega (arith, a, ceiling-max_delay attempts))
]
