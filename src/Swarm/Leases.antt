-- ===== src/Swarm/Leases.antt =====
-- vad/swarm/leases.py: the lease of a swarm task. A time is a number of microseconds.
pub mod Misses
use verified_agentic_develop.Prelude.{
  ℕ, ◌+◌, ◌-◌, ◌*◌, String, Bool, true, false, Option, none, some, List, [], ◌∷◌, ltb, leb, ◌||◌,
  if◌then◌else◌,
}
use verified_agentic_develop.Prelude.Int.{ℤ, pos, negsuc}

pub record TaskLease : Type 0 where
  pub task_id : String
  pub holder_id : String
  pub expires_at : ℕ
  pub retry_count : ℕ
  pub max_retries : ℕ
  pub blocked : Bool
  pub blocker : Option String

-- `now + timedelta(seconds=ttl_seconds)`, after the epoch
unfoldable pub later : ℕ → ℤ → ℕ
later now (pos seconds) = now + seconds * 1000000
later now (negsuc less_one) = now - (less_one + 1) * 1000000

unfoldable pub heartbeat : ℕ → ℤ → TaskLease → TaskLease
unfolding later
heartbeat now ttl_seconds l =
    if l.blocked then l else record l { expires_at = later now ttl_seconds }

unfoldable pub evaluate : ℕ → TaskLease → TaskLease
evaluate now l =
    if l.blocked || leb now l.expires_at
    then l
    else (if ltb l.max_retries (l.retry_count + 1)
        then record l {
          retry_count = l.retry_count + 1;
          blocked = true;
          blocker = some "retry limit exceeded";
        }
        else record l { retry_count = l.retry_count + 1; blocker = some "missed heartbeat" })

-- what a holder and its supervisor do with a lease
pub data LeaseCall : Type 0 where
  beat : ℕ → ℤ → LeaseCall
  supervise : ℕ → LeaseCall

unfoldable pub perform : LeaseCall → TaskLease → TaskLease
unfolding heartbeat evaluate
perform (beat now ttl_seconds) l = heartbeat now ttl_seconds l
perform (supervise now) l = evaluate now l

unfoldable pub perform_all : List LeaseCall → TaskLease → TaskLease
unfolding perform
perform_all [] l = l
perform_all (c ∷ cs) l = perform_all cs (perform c l)
