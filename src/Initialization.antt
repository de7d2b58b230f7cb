-- ===== src/Initialization.antt =====
-- apps/hosted-orchestrator/src/idempotent-initializer.ts: requests for one key that run beside each
-- other, with the lock that `acquireInitializationLease` of apps/hosted-orchestrator/src/server.ts
-- gives. A lease does not expire while its request runs.
pub mod Steps
pub mod Once
mod Tests
use agent_benchmark.Common.{ℕ, Option, none, nat_eq, if◌then◌else◌}

-- Where a request stands in the function that `createIdempotentInitializer` returns. `throwing` is the
-- `finally` block after an exception of `create`.
pub data Place (R : Type 0) : Type 0 where
  finding locking waiting checking creating throwing unlocked failed : Place R
  releasing : R → Place R
  finished : R → Place R

-- What `findExisting` would find, the holder of the lock, and how often `create` succeeded.
pub record World (R : Type 0) : Type 0 where
  pub place : ℕ → Place R
  pub existing : Option R
  pub holder : Option ℕ
  pub creations : ℕ

abbrev pub move : {R : Type 0} → ℕ → Place R → (ℕ → Place R) → ℕ → Place R
move p l places q = if nat_eq q p then l else places q

-- Requests that have not begun.
abbrev pub begin : {R : Type 0} → World R
begin = record { place = λ p. finding; existing = none; holder = none; creations = 0 }
