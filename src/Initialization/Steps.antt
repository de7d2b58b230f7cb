-- ===== src/Initialization/Steps.antt =====
-- The steps of a request, from one `await` to the next, and the runs in which they take turns.
use agent_benchmark.Common.{ℕ, suc, ◌≡◌, ◌≢◌, none, some}
use agent_benchmark.Initialization.{
  World, move, finding, locking, waiting, checking, creating, throwing, unlocked, failed, releasing,
  finished,
}

module _ {R : Type 0} where
  -- A step of request `p`.
  pub data Step (p : ℕ) (w : World R) : World R → Type 0 where
    -- The first `findExisting`.
    finds :
        {r : R}
        → w.place p ≡ finding
        → w.existing ≡ some r
        → Step p w (record w { place = move p (finished r) w.place })
    finds_none :
        w.place p ≡ finding
        → w.existing ≡ none
        → Step p w (record w { place = move p locking w.place })
    find_throws : w.place p ≡ finding → Step p w (record w { place = move p failed w.place })
    -- `acquireLock`: a lease, "contended", or null where there is no lock service.
    acquires :
        w.place p ≡ locking
        → w.holder ≡ none
        → Step p w (record w { place = move p checking w.place; holder = some p })
    contended :
        {q : ℕ}
        → w.place p ≡ locking
        → w.holder ≡ some q
        → Step p w (record w { place = move p waiting w.place })
    lockless : w.place p ≡ locking → Step p w (record w { place = move p unlocked w.place })
    -- `waitForExisting`
    awaits :
        {r : R}
        → w.place p ≡ waiting
        → w.existing ≡ some r
        → Step p w (record w { place = move p (finished r) w.place })
    gives_up : w.place p ≡ waiting → Step p w (record w { place = move p failed w.place })
    -- The second `findExisting`, under the lease.
    finds_again :
        {r : R}
        → w.place p ≡ checking
        → w.existing ≡ some r
        → Step p w (record w { place = move p (releasing r) w.place })
    finds_nothing :
        w.place p ≡ checking
        → w.existing ≡ none
        → Step p w (record w { place = move p creating w.place })
    find_throws_again :
        w.place p ≡ checking → Step p w (record w { place = move p throwing w.place })
    creates :
        (r : R)
        → w.place p ≡ creating
        → Step p w (record w {
          place = move p (releasing r) w.place;
          existing = some r;
          creations = suc w.creations;
        })
    throws : w.place p ≡ creating → Step p w (record w { place = move p throwing w.place })
    -- `lease.release()` in the `finally` block.
    releases :
        {r : R}
        → w.place p ≡ releasing r
        → Step p w (record w { place = move p (finished r) w.place; holder = none })
    releases_failed :
        w.place p ≡ throwing → Step p w (record w { place = move p failed w.place; holder = none })
    -- `create` without a lease.
    creates_unlocked :
        (r : R)
        → w.place p ≡ unlocked
        → Step p w (record w {
          place = move p (finished r) w.place;
          existing = some r;
          creations = suc w.creations;
        })
    fails_unlocked : w.place p ≡ unlocked → Step p w (record w { place = move p failed w.place })

  -- The steps that need no lock service to be missing.
  pub data Run (w : World R) : World R → Type 0 where
    here : Run w w
    next : {v u : World R} {p : ℕ} → Run w v → Step p v u → u.place p ≢ unlocked → Run w u
