-- ===== src/Commands/Leases.antt =====
-- Partition leases: `acquirePartitionLeases`, `renewPartitionLeases`, `releasePartitionLeases` and
-- `readiness`, each as one run of its awaits, with no step of another worker and no expiry between.
-- A lease is the name of the consumer that a partition's key holds.
use Prim.Native.Nat.{ℕ, suc}
use Prim.Native.String.{String, ◌∷◌, []}
use agent_benchmark.Common.{
  ℕ, String, List, Option, Bool, ◌≡◌, ◌∷◌, [], ◌++◌, false, if◌then◌else◌, none, is_empty, ◌||◌,
  nat_eq, some, is_some, arith, ◌==◌, true, refl, sym, Option-cases, zero, ◌∙◌, inl, inr, ◌↔◌, ◌≤◌,
  ◌<◌, iff_trans, ◌+◌, ap,
}

abbrev pub Leases : Type 0
Leases = ℕ → Option String

abbrev pub member : ℕ → List ℕ → Bool
member p [] = false
member p (q ∷ qs) = nat_eq q p || member p qs

abbrev pub set_lease : ℕ → Option String → Leases → Leases
set_lease p v l q = if nat_eq p q then v else l q

abbrev pub holds : String → Option String → Bool
holds name none = false
holds name (some holder) = holder == name

-- `GET key == consumerName`
abbrev pub owns : String → Leases → ℕ → Bool
owns name l p = holds name (l p)

-- The script's `DEL`, for the holder alone.
unfoldable pub release_one : String → ℕ → Leases → Leases
release_one name p l = if owns name l p then set_lease p none l else l

-- `producer.del` of each partition acquired so far.
unfoldable pub delete_leases : List ℕ → Leases → Leases
delete_leases [] l = l
delete_leases (p ∷ ps) l = delete_leases ps (set_lease p none l)

-- One worker's loop, with no step of another between its awaits. The partitions acquired so far are
-- given. The result names the partition that was taken already.
unfoldable pub acquire_leases : String → List ℕ → List ℕ → Leases → Leases × Option ℕ
unfolding delete_leases
acquire_leases name acquired [] l = (l, none)
acquire_leases name acquired (p ∷ ps) l =
    let rest = acquire_leases name (acquired ++ p ∷ []) ps (set_lease p (some name) l) in
    if is_some (l p) then (delete_leases acquired l, some p) else rest

unfoldable pub acquire_partition_leases : String → List ℕ → Leases → Leases × Option ℕ
unfolding acquire_leases
acquire_partition_leases name assigned l = acquire_leases name [] assigned l

-- The first partition whose lease was lost, if any. A renewed lease keeps its holder.
unfoldable pub renew_partition_leases : String → List ℕ → Leases → Option ℕ
renew_partition_leases name [] l = none
renew_partition_leases name (p ∷ ps) l =
    if owns name l p then renew_partition_leases name ps l else some p

unfoldable pub release_partition_leases : String → List ℕ → Leases → Leases
unfolding release_one
release_partition_leases name [] l = l
release_partition_leases name (p ∷ ps) l = release_partition_leases name ps (release_one name p l)

-- `leases.map(...).filter(...)`, from partition `p` on for `n` partitions.
unfoldable pub missing_from : ℕ → ℕ → Leases → List ℕ
missing_from p zero l = []
missing_from p (suc n) l =
    let rest = missing_from (suc p) n l in if is_some (l p) then rest else p ∷ rest

unfoldable pub readiness : ℕ → Leases → Bool × List ℕ
unfolding missing_from
readiness partition_count l =
    let missing = missing_from 0 partition_count l in (is_empty missing, missing)

member-append :
    (q : ℕ) (ps : List ℕ) (p : ℕ) → member q (ps ++ p ∷ []) ≡ (member q ps || nat_eq p q)
member-append q [] p = ground arith
member-append q (r ∷ ps) p = ground (arith, member-append q ps p)

delete_leases_lem :
    (ps : List ℕ) (l : Leases) (q : ℕ) → delete_leases ps l q ≡ (if member q ps then none else l q)
unfolding delete_leases
delete_leases_lem [] l q = refl
delete_leases_lem (p ∷ ps) l q = ground (arith, delete_leases_lem ps (set_lease p none l) q)

-- The loop's state: the acquired partitions were free, and hold the name.
abbrev Holding : String → List ℕ → Leases → Leases → Type 0
Holding name acquired start l =
    (q : ℕ)
    → (l q ≡ (if member q acquired then some name else start q))
      × (member q acquired ≡ true → start q ≡ none)

-- All of the partitions that `given` accepts, or none.
abbrev pub AllOrNothing : String → (ℕ → Bool) → Leases → Leases × Option ℕ → Type 0
AllOrNothing name given start (t, none) =
    (q : ℕ) → (t q ≡ (if given q then some name else start q)) × (given q ≡ true → start q ≡ none)
AllOrNothing name given start (t, some p) = (given p ≡ true) × ((q : ℕ) → t q ≡ start q)

AllOrNothing-agree :
    (name : String) (f g : ℕ → Bool) (start : Leases) (r : Leases × Option ℕ)
    → ((q : ℕ) → f q ≡ g q)
    → AllOrNothing name f start r
    → AllOrNothing name g start r
AllOrNothing-agree name f g start (t, none) e h = λ q. ground (arith, e q, h q)
AllOrNothing-agree name f g start (t, some p) e h = (sym (e p) ∙ h.0, h.1)

acquire_leases-AllOrNothing :
    (name : String) (acquired ps : List ℕ) (start l : Leases)
    → Holding name acquired start l
    → AllOrNothing name
        (λ q. member q acquired || member q ps)
        start
        (acquire_leases name acquired ps l)
unfolding acquire_leases
acquire_leases-AllOrNothing name acquired [] start l h = λ q. ground (arith, h q)
acquire_leases-AllOrNothing name acquired (p ∷ ps) start l h = elim (Option-cases (l p)) [
  | inl free ↦
      rw (free, acquire_leases)
        (AllOrNothing-agree name (λ q. member q (acquired ++ p ∷ []) || member q ps)
          (λ q. member q acquired || member q (p ∷ ps)) start _
          (λ q. ground (arith, member-append q acquired p))
          (acquire_leases-AllOrNothing name (acquired ++ p ∷ []) ps start
            (set_lease p (some name) l)
            (λ q. ground (arith, h q, h p, member-append q acquired p, free))))
  | inr (holder, taken) ↦
      rw (taken, acquire_leases)
        (ground arith, λ q. ground (arith, h q, delete_leases_lem acquired l q))
]

-- Acquiring, with no step of another worker and no expiry between, takes all of the assigned
-- partitions, which were free, and leaves the others; or it throws on an assigned partition and leaves
-- every lease as it was.
pub acquire-AllOrNothing :
    (name : String) (assigned : List ℕ) (l : Leases)
    → AllOrNothing name (λ q. member q assigned) l (acquire_partition_leases name assigned l)
unfolding acquire_partition_leases
acquire-AllOrNothing name assigned l =
    acquire_leases-AllOrNothing name [] assigned l l (λ q. (refl, λ e. ground (arith, e)))

missing_from_lem :
    (p n : ℕ) (l : Leases) (q : ℕ)
    → (member q (missing_from p n l) ≡ true) ↔ ((p ≤ q) × (q < p + n) × (l q ≡ none))
unfolding missing_from
missing_from_lem p zero l q = ground arith
missing_from_lem p (suc n) l q =
    let at : p ≡ q → l q ≡ l p = λ e. ap l (sym e) in
    elim (Option-cases (l p)) [
      | inl free ↦ rw free (ground (arith, missing_from_lem (suc p) n l q, at, free))
      | inr (holder, held) ↦ rw held (ground (arith, missing_from_lem (suc p) n l q, at, held))
    ]

-- The workers are ready exactly when every partition has a lease, and those that have none are listed.
pub readiness_iff :
    (partition_count : ℕ) (l : Leases)
    → (q : ℕ)
    → (member q (readiness partition_count l).1 ≡ true) ↔ ((q < partition_count) × (l q ≡ none))
unfolding readiness
readiness_iff n l q = iff_trans (missing_from_lem 0 n l q) (ground arith)
