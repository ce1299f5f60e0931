-- ===== src/Swarm/Leases/Misses.antt =====
-- vad/swarm/leases.py: missed heartbeats are counted, and too many of them block the lease.
use verified_agentic_develop.Prelude.{
  ℕ, ◌+◌, ◌≤◌, ◌<◌, true, List, [], ◌∷◌, map, ◌≡◌, ◌↔◌, arith, All, length, min,
}
use verified_agentic_develop.Swarm.Leases.{
  ℤ, TaskLease, heartbeat, evaluate, LeaseCall, beat, supervise, perform_all,
}

-- A lease is blocked exactly when its retries are used up, and then the count stays one above the limit.
pub record IsCounted (l : TaskLease) : Type 0 where
  pub bounded : l.retry_count ≤ l.max_retries + 1
  pub at_limit : l.blocked ≡ true → l.max_retries < l.retry_count
  pub below_limit : l.max_retries < l.retry_count → l.blocked ≡ true

heartbeat-IsCounted :
    {l : TaskLease} (now : ℕ) (ttl : ℤ) → IsCounted l → IsCounted (heartbeat now ttl l)
unfolding heartbeat
heartbeat-IsCounted now ttl h = ground arith

evaluate-IsCounted : {l : TaskLease} (now : ℕ) → IsCounted l → IsCounted (evaluate now l)
unfolding evaluate
evaluate-IsCounted now h = ground arith

evaluate-kept :
    (now : ℕ) (l : TaskLease)
    → ((evaluate now l).expires_at ≡ l.expires_at) × ((evaluate now l).max_retries ≡ l.max_retries)
unfolding evaluate
evaluate-kept now l = (ground arith, ground arith)

evaluate-count :
    (now : ℕ) (l : TaskLease)
    → IsCounted l
    → l.expires_at < now
    → (evaluate now l).retry_count ≡ min (l.retry_count + 1) (l.max_retries + 1)
unfolding evaluate
evaluate-count now l h late = ground arith

-- Any heartbeats and evaluations keep the count of a lease bounded and the lease blocked exactly when
-- its retries are used up.
pub perform_all-IsCounted :
    (calls : List LeaseCall) (l : TaskLease) → IsCounted l → IsCounted (perform_all calls l)
unfolding perform_all
perform_all-IsCounted [] l h = h
perform_all-IsCounted (beat now ttl ∷ cs) l h =
    perform_all-IsCounted cs (heartbeat now ttl l) (heartbeat-IsCounted now ttl h)
perform_all-IsCounted (supervise now ∷ cs) l h =
    perform_all-IsCounted cs (evaluate now l) (evaluate-IsCounted now h)

-- Where no heartbeat comes in, each evaluation after the expiry counts one miss, up to one more than the
-- limit, and the lease is blocked exactly when the misses and the retries before exceed the limit.
pub misses-block :
    (times : List ℕ) (l : TaskLease)
    → IsCounted l
    → All (λ now. l.expires_at < now) times
    → let after : TaskLease = perform_all (map supervise times) l in
      (after.retry_count ≡ min (l.retry_count + length times) (l.max_retries + 1))
      × ((after.blocked ≡ true) ↔ (l.max_retries < l.retry_count + length times))
unfolding perform_all
misses-block [] l h late = (
  ground (arith, h.bounded),
  (λ b. ground (arith, h.at_limit b), λ b. h.below_limit (omega arith)),
)
misses-block (now ∷ times) l h late =
    let (expiry, limit) = evaluate-kept now l in
    let count = evaluate-count now l h late.0 in
    let (counted, blocks) =
      misses-block times (evaluate now l) (evaluate-IsCounted now h) (rw expiry late.1) in
    (
      omega (arith, counted, limit, count, h.bounded),
      (
        λ b. omega (arith, blocks.0 b, limit, count),
        λ b. blocks.1 (omega (arith, limit, count, h.bounded)),
      ),
    )
