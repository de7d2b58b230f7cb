-- ===== src/Initialization/Tests.antt =====
-- Two requests for one attempt: the first creates it, the second waits.
use agent_benchmark.Common.{ℕ, suc, ◌≤◌, ◌≡◌, some, none, refl, String}
use agent_benchmark.Initialization.{
  World, begin, finished, move, checking, creating, waiting, locking, releasing,
}
use agent_benchmark.Initialization.Steps.{
  Run, here, next, finds_none, acquires, contended, awaits, finds_nothing, creates, releases,
}
use agent_benchmark.Initialization.Once.{created_once}

abbrev end_world : World String
end_world = record {
  place = move 1 (finished "attempt") (
      move 2 (finished "attempt") (
        move 1 (releasing "attempt") (
          move 1 creating
            (move 2 waiting (move 1 checking (move 2 locking (move 1 locking begin.place)))))));
  existing = some "attempt";
  holder = none;
  creations = suc 0;
}

-- Both requests find nothing, and the second then meets the lock.
race-Run : Run {R = String} begin end_world
race-Run =
    next {p = 1}
      (next {p = 2}
        (next {p = 1}
          (next {p = 1}
            (next {p = 2}
              (next {p = 1}
                (next {p = 2} (next {p = 1} here (finds_none refl refl) (λ e. cc))
                  (finds_none refl refl) (λ e. cc))
                (acquires refl refl) (λ e. cc))
              (contended refl refl) (λ e. cc))
            (finds_nothing refl refl) (λ e. cc))
          (creates "attempt" refl) (λ e. cc))
        (awaits refl refl) (λ e. cc))
      (releases refl) (λ e. cc)

created_once_example :
    (end_world.creations ≤ 1)
    × ((p : ℕ) (r : String) → end_world.place p ≡ finished r → end_world.existing ≡ some r)
    × ((p q : ℕ) (r s : String)
        → end_world.place p ≡ finished r
        → end_world.place q ≡ finished s
        → r ≡ s)
created_once_example = created_once race-Run
