-- ===== src/Transport/Lock.antt =====
-- `lorieLockShared` of shared_lock.h: a lock that gives up when its peer has died.
use magicdesk_x.Prelude.{
  ℕ, ◌+◌, ◌-◌, ◌*◌, ◌<◌, ◌≡◌, Bool, true, false, List, [], ◌∷◌, ◌++◌, arith, leb, if◌then◌else◌,
  All,
}

-- `struct timespec`.
pub record Timespec : Type 0 where
  pub sec : ℕ
  pub nsec : ℕ

-- The clock's reading with the observation interval of 33 ms added and carried.
unfoldable pub deadline_after : Timespec → Timespec
deadline_after now =
    let nsec = now.nsec + 33000000 in
    if leb 1000000000 nsec
    then record { sec = now.sec + 1; nsec = nsec - 1000000000 }
    else record { sec = now.sec; nsec = nsec }

-- What one `pthread_mutex_clocklock` returned, the clock read before it, and whether the peer would
-- be found alive after it.
pub data LockCall : Type 0 where
  acquired : LockCall
  timed_out : LockCall
  lock_error : ℕ → LockCall

pub record Attempt : Type 0 where
  pub now : Timespec
  pub outcome : LockCall
  pub alive : Bool

pub data LockResult : Type 0 where
  locked : LockResult
  broken_pipe : LockResult
  refused : ℕ → LockResult
  still_waiting : LockResult

-- The result with the deadlines that were given to the mutex.
unfoldable pub lock_shared : List Attempt → List Timespec → LockResult × List Timespec
lock_shared [] deadlines = (still_waiting, deadlines)
lock_shared (a ∷ attempts) deadlines =
    let tried = deadlines ++ (deadline_after a.now ∷ []) in
    elim (a.outcome) [
      | acquired ↦ (locked, tried)
      | lock_error e ↦ (refused e, tried)
      | timed_out ↦ if a.alive then lock_shared attempts tried else (broken_pipe, tried)
    ]

abbrev pub nanoseconds : Timespec → ℕ
nanoseconds t = t.sec * 1000000000 + t.nsec

-- A deadline is exactly 33 ms after the clock's reading and is a normalised time.
deadline_after-exact :
    (now : Timespec)
    → now.nsec < 1000000000
    → (nanoseconds (deadline_after now) ≡ nanoseconds now + 33000000)
      × ((deadline_after now).nsec < 1000000000)
unfolding deadline_after
deadline_after-exact now h = ground arith

-- The attempts before the last one timed out with a live peer.
abbrev pub KeptWaiting : List Attempt → Type 0
KeptWaiting = All (λ a. (a.outcome ≡ timed_out) × (a.alive ≡ true))

-- After any number of timeouts with a live peer the next attempt decides: the lock is reported only
-- when the mutex gave it, another error is passed on as it is, and a dead peer, found only after one
-- more timeout, ends the wait.
pub lock_shared-decides :
    (waits : List Attempt) (last : Attempt) (after : List Attempt) (deadlines : List Timespec)
    → KeptWaiting waits
    → let r = (lock_shared (waits ++ (last ∷ after)) deadlines).0 in
      ((last.outcome ≡ acquired) → r ≡ locked)
      × ((e : ℕ) → last.outcome ≡ lock_error e → r ≡ refused e)
      × (last.outcome ≡ timed_out → last.alive ≡ false → r ≡ broken_pipe)
unfolding lock_shared
lock_shared-decides [] last after deadlines k =
    (λ h. ground arith, λ e h. ground arith, λ h g. ground arith)
lock_shared-decides (a ∷ waits) last after deadlines k =
    rw (k.0.0, k.0.1)
      (lock_shared-decides waits last after (deadlines ++ (deadline_after a.now ∷ [])) k.1)
