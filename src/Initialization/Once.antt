-- ===== src/Initialization/Once.antt =====
-- With a lock service, what is initialized is created once and every request gets the same.
use agent_benchmark.Common.{
  ℕ, suc, ◌≤◌, ◌≡◌, ◌≢◌, Option, none, some, arith, nat_eq, nat_eq_iff, Bool-cases, inl, inr, sym,
  subst, ap, ◌∙◌, refl,
}
use agent_benchmark.Initialization.{
  World, Place, move, begin, finding, locking, waiting, checking, creating, throwing, unlocked,
  failed, releasing, finished,
}
use agent_benchmark.Initialization.Steps.{
  Step, Run, here, next, finds, finds_none, find_throws, find_throws_again, acquires, contended,
  lockless, awaits, gives_up, finds_again, finds_nothing, creates, throws, releases,
  releases_failed, creates_unlocked, fails_unlocked,
}

module _ {R : Type 0} where
  -- What is so while a request stands at a place.
  abbrev Stands : Option ℕ → Option R → ℕ → Place R → Type 0
  Stands holder existing p checking = holder ≡ some p
  Stands holder existing p creating = (holder ≡ some p) × (existing ≡ none)
  Stands holder existing p throwing = (holder ≡ some p)
  Stands holder existing p (releasing r) = (holder ≡ some p) × (existing ≡ some r)
  Stands holder existing p (finished r) = existing ≡ some r
  Stands holder existing p unlocked = ⊥
  Stands holder existing p _ = Unit

  abbrev created : Option R → ℕ
  created none = 0
  created (some r) = 1

  record IsSafe (w : World R) : Type 0 where
    stands : (p : ℕ) → Stands w.holder w.existing p (w.place p)
    counted : w.creations ≡ created w.existing

  keep_acquired : (e : Option R) (p q : ℕ) (l : Place R) → Stands none e q l → Stands (some p) e q l
  keep_acquired e p q finding s = s
  keep_acquired e p q locking s = s
  keep_acquired e p q waiting s = s
  keep_acquired e p q checking s = cc
  keep_acquired e p q creating s = cc
  keep_acquired e p q throwing s = cc
  keep_acquired e p q unlocked s = s
  keep_acquired e p q failed s = s
  keep_acquired e p q (releasing r) s = cc
  keep_acquired e p q (finished r) s = s

  keep_released :
      (e : Option R) (p q : ℕ) (l : Place R) → q ≢ p → Stands (some p) e q l → Stands none e q l
  keep_released e p q finding other s = s
  keep_released e p q locking other s = s
  keep_released e p q waiting other s = s
  keep_released e p q checking other s = ground (arith, s, other)
  keep_released e p q creating other s = ground (arith, s.0, other)
  keep_released e p q throwing other s = ground (arith, s, other)
  keep_released e p q unlocked other s = s
  keep_released e p q failed other s = s
  keep_released e p q (releasing r) other s = ground (arith, s.0, other)
  keep_released e p q (finished r) other s = s

  keep_created :
      (p q : ℕ) (l : Place R) (r : R)
      → q ≢ p
      → Stands (some p) none q l
      → Stands (some p) (some r) q l
  keep_created p q finding r other s = s
  keep_created p q locking r other s = s
  keep_created p q waiting r other s = s
  keep_created p q checking r other s = s
  keep_created p q creating r other s = ground (arith, s.0, other)
  keep_created p q throwing r other s = s
  keep_created p q unlocked r other s = s
  keep_created p q failed r other s = s
  keep_created p q (releasing v) r other s = cc
  keep_created p q (finished v) r other s = cc

  move-Stands :
      (p : ℕ) (l : Place R) (w : World R) (h : Option ℕ) (e : Option R)
      → Stands h e p l
      → ((q : ℕ) → q ≢ p → Stands h e q (w.place q))
      → (q : ℕ) → Stands h e q (move p l w.place q)
  move-Stands p l w h e mine others q = elim (Bool-cases (nat_eq q p)) [
    | inl same ↦ rw same (subst (λ n. Stands h e n l) (sym ((nat_eq_iff q p).0 same)) mine)
    | inr other ↦ rw other (others q (λ same. cc ((nat_eq_iff q p).1 same, other)))
  ]

  -- A step that leaves the lock and the result alone.
  moved :
      (p : ℕ) (l : Place R) (w : World R)
      → IsSafe w
      → Stands w.holder w.existing p l
      → IsSafe (record w { place = move p l w.place })
  moved p l w safe mine = record {
    stands = move-Stands p l w w.holder w.existing mine (λ q _. safe.stands q);
    counted = safe.counted;
  }

  Stands-at :
      (p : ℕ) (w : World R) (l : Place R)
      → IsSafe w
      → w.place p ≡ l
      → Stands w.holder w.existing p l
  Stands-at p w l safe at = subst (Stands w.holder w.existing p) at (safe.stands p)

  released :
      (p : ℕ) (l : Place R) (w : World R)
      → IsSafe w
      → w.holder ≡ some p
      → Stands none w.existing p l
      → IsSafe (record w { place = move p l w.place; holder = none })
  released p l w safe held mine = record {
    stands = move-Stands p l w none w.existing mine (λ q other.
        keep_released w.existing p q (w.place q) other
          (subst (λ h. Stands h w.existing q (w.place q)) held (safe.stands q)));
    counted = safe.counted;
  }

  acquired :
      (p : ℕ) (w : World R)
      → IsSafe w
      → w.holder ≡ none
      → IsSafe (record w { place = move p checking w.place; holder = some p })
  acquired p w safe free = record {
    stands = move-Stands p checking w (some p) w.existing refl (λ q _.
        keep_acquired w.existing p q (w.place q)
          (subst (λ h. Stands h w.existing q (w.place q)) free (safe.stands q)));
    counted = safe.counted;
  }

  created_one :
      (p : ℕ) (r : R) (w : World R)
      → IsSafe w
      → w.holder ≡ some p
      → w.existing ≡ none
      → IsSafe (record w {
        place = move p (releasing r) w.place;
        existing = some r;
        creations = suc w.creations;
      })
  created_one p r w safe held empty = record {
    stands =
        move-Stands p (releasing r) w w.holder (some r) (held, refl)
          (λ q other.
            subst (λ h. Stands h (some r) q (w.place q)) (sym held)
              (keep_created p q (w.place q) r other (
                subst (λ e. Stands (some p) e q (w.place q)) empty
                  (subst (λ h. Stands h w.existing q (w.place q)) held (safe.stands q)))));
    counted = ap suc (safe.counted ∙ ap created empty);
  }

  not_unlocked : (p : ℕ) (w : World R) → move p unlocked w.place p ≢ unlocked → ⊥
  not_unlocked p w h = h (ground (arith, nat_eq_iff p p))

  Step-IsSafe : {p : ℕ} {w u : World R} → Step p w u → u.place p ≢ unlocked → IsSafe w → IsSafe u
  Step-IsSafe {p} {w} (finds at e) ok safe = moved p _ w safe e
  Step-IsSafe {p} {w} (finds_none at e) ok safe = moved p _ w safe tt
  Step-IsSafe {p} {w} (find_throws at) ok safe = moved p _ w safe tt
  Step-IsSafe {p} {w} (acquires at free) ok safe = acquired p w safe free
  Step-IsSafe {p} {w} (contended at held) ok safe = moved p _ w safe tt
  Step-IsSafe {p} {w} (lockless at) ok safe = absurd (not_unlocked p w ok)
  Step-IsSafe {p} {w} (awaits at e) ok safe = moved p _ w safe e
  Step-IsSafe {p} {w} (gives_up at) ok safe = moved p _ w safe tt
  Step-IsSafe {p} {w} (finds_again at e) ok safe =
      moved p _ w safe (Stands-at p w checking safe at, e)
  Step-IsSafe {p} {w} (finds_nothing at e) ok safe =
      moved p _ w safe (Stands-at p w checking safe at, e)
  Step-IsSafe {p} {w} (find_throws_again at) ok safe =
      moved p _ w safe (Stands-at p w checking safe at)
  Step-IsSafe {p} {w} (creates r at) ok safe =
      let (held, empty) = Stands-at p w creating safe at in created_one p r w safe held empty
  Step-IsSafe {p} {w} (throws at) ok safe = moved p _ w safe (Stands-at p w creating safe at).0
  Step-IsSafe {p} {w} (releases {r} at) ok safe =
      let (held, e) = Stands-at p w (releasing r) safe at in released p (finished r) w safe held e
  Step-IsSafe {p} {w} (releases_failed at) ok safe =
      released p failed w safe (Stands-at p w throwing safe at) tt
  Step-IsSafe {p} {w} (creates_unlocked r at) ok safe = absurd (Stands-at p w unlocked safe at)
  Step-IsSafe {p} {w} (fails_unlocked at) ok safe = absurd (Stands-at p w unlocked safe at)

  Run-IsSafe : {w u : World R} → Run w u → IsSafe w → IsSafe u
  Run-IsSafe here safe = safe
  Run-IsSafe (next run st ok) safe = Step-IsSafe st ok (Run-IsSafe run safe)

  created-le : (e : Option R) → created e ≤ 1
  created-le none = omega arith
  created-le (some r) = omega arith

  -- However requests for one key take turns, with a lock service: at most one of them creates, and all
  -- that finish with a result have the same one, which is the one that is stored.
  pub created_once :
      {u : World R}
      → Run begin u
      → (u.creations ≤ 1)
        × ((p : ℕ) (r : R) → u.place p ≡ finished r → u.existing ≡ some r)
        × ((p q : ℕ) (r s : R) → u.place p ≡ finished r → u.place q ≡ finished s → r ≡ s)
  created_once {u} run =
      let safe = Run-IsSafe run (record { stands = λ p. tt; counted = refl }) in
      let stored =
        λ (p : ℕ) (r : R) (at : u.place p ≡ finished r). Stands-at p u (finished r) safe at in
      (
        rw safe.counted (created-le u.existing),
        stored,
        λ p q r s at there. ground (arith, stored p r at, stored q s there),
      )
