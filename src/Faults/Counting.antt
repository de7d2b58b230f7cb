-- ===== src/Faults/Counting.antt =====
-- The occurrence counters: a request counts each of its actions once.
use agent_benchmark.Common.{
  ℕ, suc, ◌+◌, ◌≡◌, refl, true, false, List, [], ◌∷◌, arith, if◌then◌else◌, Bool-cases, inl, nat_eq,
  inr,
}
use agent_benchmark.Faults.{
  FaultAction, DeterministicFault, Occurrences, FaultRuntimeState, action_eq, occurrences_of,
}
use agent_benchmark.Faults.State.{
  includes, unique, without, increment, count_actions, counted, step, choose, recover, inject,
}

times : FaultAction → List FaultAction → ℕ
times a [] = 0
times a (b ∷ bs) = if action_eq b a then suc (times a bs) else times a bs

times-without_self : (a : FaultAction) (xs : List FaultAction) → times a (without a xs) ≡ 0
unfolding times
times-without_self a [] = refl
times-without_self a (b ∷ bs) = elim (Bool-cases (action_eq b a)) [
  | inl e ↦ rw e (times-without_self a bs)
  | inr e ↦ rw e (rw e (times-without_self a bs))
]

times-without_ne :
    (a b : FaultAction) (xs : List FaultAction)
    → action_eq b a ≡ false
    → times a (without b xs) ≡ times a xs
unfolding times
times-without_ne a b [] h = refl
times-without_ne a b (c ∷ cs) h = ground (arith, times-without_ne a b cs h)

times-unique :
    (a : FaultAction) (xs : List FaultAction)
    → times a (unique xs) ≡ (if includes a xs then 1 else 0)
unfolding times
times-unique a [] = refl
times-unique a (b ∷ bs) = elim (Bool-cases (action_eq b a)) [
  | inl e ↦ ground (arith, times-without_self a (unique bs))
  | inr e ↦ ground (arith, times-without_ne a b (unique bs) e, times-unique a bs)
]

includes-times :
    (a : FaultAction) (xs : List FaultAction)
    → includes a xs ≡ (if nat_eq (times a xs) 0 then false else true)
unfolding times
includes-times a [] = refl
includes-times a (b ∷ bs) = ground (arith, includes-times a bs)

pub includes-unique :
    (a : FaultAction) (xs : List FaultAction) → includes a (unique xs) ≡ includes a xs
includes-unique a xs = ground (arith, includes-times a (unique xs), times-unique a xs)

occurrences_of-increment :
    (a b : FaultAction) (o : Occurrences)
    → occurrences_of a (increment b o)
      ≡ (if action_eq b a then occurrences_of a o + 1 else occurrences_of a o)
occurrences_of-increment a b o = ground arith

occurrences_of-count_actions :
    (a : FaultAction) (xs : List FaultAction) (o : Occurrences)
    → occurrences_of a (count_actions xs o) ≡ occurrences_of a o + times a xs
unfolding times
occurrences_of-count_actions a [] o = omega arith
occurrences_of-count_actions a (b ∷ bs) o =
    ground
      (arith, occurrences_of-count_actions a bs (increment b o), occurrences_of-increment a b o)

pub occurrences_of-counted :
    (a : FaultAction) (xs : List FaultAction) (s : FaultRuntimeState)
    → occurrences_of a (counted (unique xs) s).occurrences
      ≡ occurrences_of a s.occurrences + (if includes a xs then 1 else 0)
unfolding counted
occurrences_of-counted a xs s =
    ground (arith, occurrences_of-count_actions a (unique xs) s.occurrences, times-unique a xs)

choose_occurrences :
    (faults : List DeterministicFault) (actions : List FaultAction) (s : FaultRuntimeState)
    → (choose faults actions s).0.occurrences ≡ s.occurrences
unfolding choose recover inject
choose_occurrences faults actions s = ground arith

-- A request adds one to the counter of each action that it has, however often it names it, and
-- nothing to the others, also while a recovery is pending.
pub step_counts_once :
    (a : FaultAction) (faults : List DeterministicFault) (actions : List FaultAction)
    (s : FaultRuntimeState)
    → occurrences_of a (step faults actions s).0.occurrences
      ≡ occurrences_of a s.occurrences + (if includes a actions then 1 else 0)
unfolding step
step_counts_once a faults actions s =
    rw (choose_occurrences faults (unique actions) (counted (unique actions) s))
      (occurrences_of-counted a actions s)
