-- ===== src/Benchmark/Search.antt =====
-- The search for a cycle ends, and finds one exactly when there is one.
use agent_benchmark.Common.{
  Subset_trans, Subset_refl, Subset_cons, ℕ, zero, suc, ◌+◌, ◌<◌, String, ◌≡◌, true, false, none,
  some, List, [], ◌∷◌, contains, All, All-imp, eq_iff, arith, inl, inr, Bool-cases, refl, subst,
  Map, Subset, is_unique, length, length-le_of_Subset, contains_of_Subset, sym, ap, ◌∙◌,
}
use mathlib.Core.Option
use agent_benchmark.Benchmark.Cycles.{targets, Visit, visit_all, has_cycle, Marks, delete, finish}
use agent_benchmark.Benchmark.Walks.{Walk, Chain, Chain-Walk, Finished}

delete-absent : (node : String) (ns : List String) → contains node ns ≡ false → delete node ns ≡ ns
delete-absent node [] h = refl
delete-absent node (n ∷ ns) h = ground (arith, delete-absent node ns)

delete-head :
    (node : String) (ns : List String) → contains node ns ≡ false → delete node (node ∷ ns) ≡ ns
delete-head node ns h = ground (arith, delete-absent node ns, eq_iff node node)

-- No open call is for a finished node.
abbrev pub Apart : List String → List String → Type 0
Apart stack v = All (λ a. contains a v ≡ false) stack

Apart-cons :
    (n : String) (stack v : List String)
    → contains n stack ≡ false
    → Apart stack v
    → Apart stack (n ∷ v)
Apart-cons n [] v h _ = tt
Apart-cons n (a ∷ stack) v h (p, q) =
    (ground (arith, eq_iff a n, eq_iff n a), Apart-cons n stack v (ground (arith, h)) q)

module _ (outgoing : Map (List String)) (universe : List String) where
  pub record Ready (stack v : List String) : Type 0 where
    pub distinct : is_unique stack ≡ true
    pub known : Subset stack universe
    pub finished : Finished outgoing v
    pub apart : Apart stack v

  abbrev pub Outcome : List String → List String → List String → Visit → Type 0
  Outcome stack v ns none = ⊥
  Outcome stack v ns (some (true, m)) = (a : String) × Walk outgoing a a
  Outcome stack v ns (some (false, m)) =
      (m.visiting ≡ stack)
      × Finished outgoing m.visited
      × Apart stack m.visited
      × Subset v m.visited
      × Subset ns m.visited

  -- What a call promises while the calls of `stack` are open.
  abbrev pub Sound : (String → Marks → Visit) → List String → Type 0
  Sound visit stack =
      (n : String) (v : List String)
      → contains n universe ≡ true
      → Chain outgoing n stack
      → Ready stack v
      → Outcome stack v (n ∷ []) (visit n (record { visiting = stack; visited = v }))

  weaken :
      (stack v v' : List String) (n : String) (ns : List String) (r : Visit)
      → Subset v v'
      → contains n v' ≡ true
      → Outcome stack v' ns r
      → Outcome stack v (n ∷ ns) r
  weaken stack v v' n ns none s h o = o
  weaken stack v v' n ns (some (true, m)) s h o = o
  weaken stack v v' n ns (some (false, m)) s h (a, b, c, d, e) =
      (a, b, c, Subset_trans v v' m.visited s d, (contains_of_Subset n v' m.visited d h, e))

  visit_all-next :
      (visit : String → Marks → Visit) (stack : List String) (n : String) (ns v : List String)
      → Ready stack v
      → ((w : List String)
          → Ready stack w
          → Outcome stack w ns (visit_all visit ns (record { visiting = stack; visited = w })))
      → (r : Visit) → visit n (record { visiting = stack; visited = v }) ≡ r
      → Outcome stack v (n ∷ []) r
      → Outcome stack v
          (n ∷ ns)
          (visit_all visit (n ∷ ns) (record { visiting = stack; visited = v }))
  unfolding visit_all
  visit_all-next visit stack n ns v ready more none e o = absurd o
  visit_all-next visit stack n ns v ready more (some (true, m)) e o = rw (e, visit_all) o
  visit_all-next visit stack n ns v ready more (some (false, m)) e (same, f, a, s, (h, _)) =
      rw (e, visit_all)
        (weaken stack v m.visited n ns _ s h (
          subst
            (λ t.
              Outcome stack m.visited ns
                (visit_all visit ns (record { visiting = t; visited = m.visited })))
            (sym same)
            (more m.visited (record {
              distinct = ready.distinct;
              known = ready.known;
              finished = f;
              apart = a;
            }))))

  pub visit_all-Outcome :
      (visit : String → Marks → Visit) (stack : List String)
      → Sound visit stack
      → (ns v : List String) → Subset ns universe
      → All (λ n. Chain outgoing n stack) ns
      → Ready stack v
      → Outcome stack v ns (visit_all visit ns (record { visiting = stack; visited = v }))
  unfolding visit_all
  visit_all-Outcome visit stack sound [] v _ _ ready =
      (refl, ready.finished, ready.apart, Subset_refl v, tt)
  visit_all-Outcome visit stack sound (n ∷ ns) v (k, ks) (c, cs) ready =
      visit_all-next visit stack n ns v ready
        (λ w r. visit_all-Outcome visit stack sound ns w ks cs r)
        (visit n (record { visiting = stack; visited = v })) refl (sound n v k c ready)

  -- `visiting.delete(nodeId)` and `visited.add(nodeId)` close the call.
  finish-Outcome :
      (stack v : List String) (n : String) (r : Visit)
      → contains n stack ≡ false
      → Outcome (n ∷ stack) v (targets outgoing n) r
      → Outcome stack v (n ∷ []) (Option.map (finish n) r)
  finish-Outcome stack v n none h o = o
  finish-Outcome stack v n (some (true, m)) h o = o
  finish-Outcome stack v n (some (false, m)) h (same, f, (fresh, a), s, e) = (
    ap (delete n) same ∙ delete-head n stack h,
    (e, fresh, f),
    Apart-cons n stack m.visited h a,
    Subset_cons n v m.visited s,
    (ground (arith, eq_iff n n), tt),
  )

  module _ (closed : (n : String) → Subset (targets outgoing n) universe) where
    pub has_cycle-Sound :
        (fuel : ℕ) (stack : List String)
        → length universe < fuel + length stack
        → Sound (has_cycle outgoing fuel) stack
    unfolding has_cycle
    has_cycle-Sound zero stack enough n v k c ready =
        absurd (omega (arith, length-le_of_Subset stack universe ready.distinct ready.known))
    has_cycle-Sound (suc fuel) stack enough n v k c ready = elim (Bool-cases (contains n stack)) [
      | inl found ↦ rw (found, has_cycle) (n, Chain-Walk outgoing n stack n c found)
      | inr new ↦ elim (Bool-cases (contains n v)) [
        | inl done ↦
            rw (new, done, has_cycle) (refl, ready.finished, ready.apart, Subset_refl v, (done, tt))
        | inr fresh ↦
            rw (new, fresh, has_cycle)
              (finish-Outcome stack v n _ new (
                visit_all-Outcome (has_cycle outgoing fuel) (n ∷ stack)
                  (has_cycle-Sound fuel (n ∷ stack) (omega (arith, enough))) (targets outgoing n) v
                  (closed n)
                  (All-imp (λ t e. (e, c)) (targets outgoing n) (Subset_refl (targets outgoing n)))
                  (record {
                    distinct = ground (arith, new, ready.distinct);
                    known = (k, ready.known);
                    finished = ready.finished;
                    apart = (fresh, ready.apart);
                  })))
      ]
    ]
