-- ===== src/Executor/Stream/Renewal.antt =====
-- The renewal loop ends, with the stream's own end or with the first renewal that does not hold.
use workflow_runtime_core.Base.{
  ℕ, zero, suc, ◌+◌, ◌≤◌, ◌<◌, ◌≡◌, refl, inl, inr, ◌⊎◌, true, Option, some, arith, leb, leb→le,
  Bool-cases,
}
use mathlib.Core.Path.{subst}
use native.Mathlib.Decide.{dec_lt}
use workflow_runtime_core.Executor.Failure.{Raised}
use workflow_runtime_core.Executor.Stream.{
  Stream, Lease, Answer, held, dropped, failing, stopped, abandoned, answered, renewal_loop,
  with_lease_renewal,
}

-- When the wait before the n-th renewal starts, where every earlier renewal held.
waits_at : Lease → ℕ → ℕ
waits_at lease zero = 0
waits_at lease (suc n) = waits_at lease n + lease.interval + lease.takes n

-- When the n-th renewal is asked for, and when its answer is there.
unfoldable pub asked_at : Lease → ℕ → ℕ
unfolding waits_at
asked_at lease n = waits_at lease n + lease.interval

unfoldable pub answered_at : Lease → ℕ → ℕ
answered_at lease n = asked_at lease n + lease.takes n

-- The first renewal that is asked for before the stream ends and does not hold is the n-th.
pub record FirstAt (lease : Lease) (s : Stream) (n : ℕ) : Type 0 where
  pub early : asked_at lease n < s.ends_at
  pub earlier : (k : ℕ) → k < n → lease.answer k ≡ held

-- Every renewal before the stream's end holds.
abbrev pub Held : Lease → Stream → Type 0
Held lease s = (k : ℕ) → asked_at lease k < s.ends_at → lease.answer k ≡ held

abbrev pub EndsAt : Lease → Stream → Option Stream → ℕ → Type 0
EndsAt lease s o n =
    ((lease.answer n ≡ dropped) × (o ≡ some (stopped (answered_at lease n) s)))
    ⊎ ((e : Raised) × (lease.answer n ≡ failing e)
        × (o ≡ some (abandoned (answered_at lease n) e s)))

abbrev pub Outcome : Lease → Stream → Option Stream → Type 0
Outcome lease s o =
    ((o ≡ some s) × Held lease s) ⊎ ((n : ℕ) × FirstAt lease s n × EndsAt lease s o n)

waits_later : (lease : Lease) (n k : ℕ) → n ≤ k → waits_at lease n ≤ waits_at lease k
unfolding waits_at
waits_later lease n zero h = let same : n ≡ 0 = omega arith in rw same (omega arith)
waits_later lease n (suc k) h = elim (dec_lt n (suc k)) [
  | yes p ↦ let so_far = waits_later lease n k (omega arith) in omega arith
  | no p ↦ let same : n ≡ suc k = omega arith in rw same (omega arith)
]

module _ (lease : Lease) (s : Stream) where
  held_on :
      (n : ℕ)
      → lease.answer n ≡ held
      → ((k : ℕ) → k < n → lease.answer k ≡ held)
      → (k : ℕ) → k < suc n
      → lease.answer k ≡ held
  held_on n now earlier k low = elim (dec_lt k n) [
    | yes p ↦ earlier k p
    | no p ↦ let same : k ≡ n = omega arith in rw same now
  ]

  Held-all :
      (n : ℕ)
      → leb s.ends_at (asked_at lease n) ≡ true
      → ((k : ℕ) → k < n → lease.answer k ≡ held)
      → Held lease s
  unfolding asked_at
  Held-all n over earlier k early = elim (dec_lt k n) [
    | yes p ↦ earlier k p
    | no p ↦
        let far = waits_later lease n k (omega arith) in
        let end = leb→le s.ends_at (asked_at lease n) over in absurd (omega arith)
  ]

  answered-Outcome :
      (n : ℕ) (a : Answer) (rest : Option Stream)
      → lease.answer n ≡ a
      → FirstAt lease s n
      → (a ≡ held → Outcome lease s rest)
      → Outcome lease s (answered a (answered_at lease n) s rest)
  answered-Outcome n held rest same at more = more refl
  answered-Outcome n dropped rest same at more = inr (n, at, inl (same, refl))
  answered-Outcome n (failing e) rest same at more = inr (n, at, inr (e, same, refl))

  -- One round, with what the later rounds come to.
  round-Outcome :
      (fuel n : ℕ)
      → ((k : ℕ) → k < n → lease.answer k ≡ held)
      → (asked_at lease n < s.ends_at
          → lease.answer n ≡ held
          → Outcome lease s (renewal_loop fuel (answered_at lease n) (suc n) lease s))
      → Outcome lease s (renewal_loop (suc fuel) (waits_at lease n) n lease s)
  unfolding renewal_loop asked_at answered_at
  round-Outcome fuel n earlier more = elim (Bool-cases (leb s.ends_at (asked_at lease n))) [
    | inl over ↦ rw over (inl (refl, Held-all n over earlier))
    | inr going ↦
        let early : asked_at lease n < s.ends_at = ground (arith, going) in
        rw going (
          answered-Outcome n (lease.answer n) _ refl (record { early = early; earlier = earlier })
            (more early))
  ]

  module _ (ticks : 0 < lease.interval) where
    loop-Outcome :
        (fuel n : ℕ)
        → s.ends_at ≤ fuel + waits_at lease n
        → ((k : ℕ) → k < n → lease.answer k ≡ held)
        → Outcome lease s (renewal_loop (suc fuel) (waits_at lease n) n lease s)
    unfolding asked_at answered_at waits_at
    loop-Outcome zero n enough earlier =
        round-Outcome zero n earlier (λ early now. absurd (omega arith))
    loop-Outcome (suc fuel) n enough earlier =
        round-Outcome (suc fuel) n earlier
          (λ early now. loop-Outcome fuel (suc n) (omega arith) (held_on n now earlier))

held_not_last :
    (lease : Lease) (s : Stream) (o : Option Stream) (n : ℕ)
    → lease.answer n ≡ held
    → EndsAt lease s o n
    → ⊥
held_not_last lease s o n now (inl (same, ends)) = cc (now, same)
held_not_last lease s o n now (inr (e, same, ends)) = cc (now, same)

dropped_there :
    (lease : Lease) (s : Stream) (o : Option Stream) (n : ℕ)
    → lease.answer n ≡ dropped
    → EndsAt lease s o n
    → o ≡ some (stopped (answered_at lease n) s)
dropped_there lease s o n now (inl (same, ends)) = ends
dropped_there lease s o n now (inr (e, same, ends)) = cc (now, same)

-- What the first renewal decides, where it is lost.
pub dropped-ends :
    (lease : Lease) (s : Stream) (o : Option Stream) (n : ℕ)
    → FirstAt lease s n
    → lease.answer n ≡ dropped
    → Outcome lease s o
    → o ≡ some (stopped (answered_at lease n) s)
dropped-ends lease s o n first now (inl (same, holds)) = cc (holds n first.early, now)
dropped-ends lease s o n first now (inr (k, at, ends)) = elim (dec_lt k n) [
  | yes p ↦ absurd (held_not_last lease s o k (first.earlier k p) ends)
  | no p ↦ elim (dec_lt n k) [
    | yes q ↦ cc (at.earlier n q, now)
    | no q ↦
        let same : k ≡ n = omega arith in
        dropped_there lease s o n now (subst (EndsAt lease s o) same ends)
  ]
]

pub with_lease_renewal-ends :
    (lease : Lease) (s : Stream)
    → 0 < lease.interval
    → Outcome lease s (with_lease_renewal (some lease) s)
unfolding with_lease_renewal waits_at
with_lease_renewal-ends lease s ticks =
    loop-Outcome lease s ticks s.ends_at 0 (omega arith) (λ k low. absurd (omega arith))
