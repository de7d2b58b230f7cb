-- ===== src/DeadLetters/Pruning.antt =====
-- How much `pruneCommandDeadLetters` deletes.
use Prim.Native.Nat.{ℕ, min, suc}
use agent_benchmark.Common.{ℕ, ◌≡◌, min, ◌+◌, ◌*◌, arith, zero}
use agent_benchmark.DeadLetters.{prune_batches, prune_command_dead_letters}

module _ {S : Type 0} (prune : S → ℕ × S) (stale : S → ℕ) (batch_size : ℕ)
    (deletes : (s : S)
      → ((prune s).0 ≡ min batch_size (stale s))
        × (stale (prune s).1 + (prune s).0 ≡ stale s)) where
  prune_batches_lem :
      (batches deleted : ℕ) (s : S)
      → ((prune_batches prune batch_size batches deleted s).0
          ≡ deleted + min (batches * batch_size) (stale s))
        × (stale (prune_batches prune batch_size batches deleted s).1
              + min (batches * batch_size) (stale s)
            ≡ stale s)
  unfolding prune_batches
  prune_batches_lem zero deleted s = omega arith
  prune_batches_lem (suc batches) deleted s =
      ground (arith, deletes s, prune_batches_lem batches (deleted + (prune s).0) (prune s).1)

  -- Where each batch deletes as many stale rows as it may, the run deletes all of them, or as many
  -- as the batches hold, and reports their number.
  pub prune_deletes :
      (max_batches : ℕ) (s : S)
      → let r =
          prune_command_dead_letters prune
            (record { batch_size = batch_size; max_batches = max_batches })
            s in
        (r.0 ≡ min (max_batches * batch_size) (stale s)) × (stale r.1 + r.0 ≡ stale s)
  unfolding prune_command_dead_letters
  prune_deletes max_batches s = omega (arith, prune_batches_lem max_batches 0 s)
