-- ===== src/Benchmark/Walks.antt =====
-- Walks along the edges of a scenario graph, and what a list of finished nodes says of them.
use agent_benchmark.Common.{
  String, ◌≡◌, true, false, List, [], ◌∷◌, ◌==◌, contains, eq_iff, arith, inl, inr, Bool-cases,
  subst, Map, Subset, contains_of_Subset, sym,
}
use agent_benchmark.Benchmark.Cycles.{targets}

module _ (outgoing : Map (List String)) where
  abbrev pub Edge : String → String → Type 0
  Edge a b = contains b (targets outgoing a) ≡ true

  -- A walk of one edge or more.
  pub data Walk : String → String → Type 0 where
    one : {a b : String} → Edge a b → Walk a b
    more : {a b c : String} → Edge a b → Walk b c → Walk a c

  pub snoc : {a b c : String} → Walk a b → Edge b c → Walk a c
  snoc (one e) f = more e (one f)
  snoc (more e w) f = more e (snoc w f)

  -- The open calls, the innermost first: each is for a target of the next.
  abbrev pub Chain : String → List String → Type 0
  Chain node [] = Unit
  Chain node (a ∷ stack) = Edge a node × Chain a stack

  pub Chain-Walk :
      (x : String) (stack : List String) (node : String)
      → Chain node stack
      → contains x stack ≡ true
      → Walk x node
  Chain-Walk x [] node c h = cc
  Chain-Walk x (a ∷ stack) node (e, c) h = elim (Bool-cases (a == x)) [
    | inl same ↦ one (subst (λ k. Edge k node) ((eq_iff a x).0 same) e)
    | inr other ↦ snoc (Chain-Walk x stack a c (ground (arith, h, other))) e
  ]

  -- Each finished node has its targets among those that were finished before it.
  abbrev pub Finished : List String → Type 0
  Finished [] = Unit
  Finished (n ∷ rest) = Subset (targets outgoing n) rest × (contains n rest ≡ false) × Finished rest

  pub Finished-target :
      (rest : List String) (a b : String)
      → Finished rest
      → contains a rest ≡ true
      → Edge a b
      → contains b rest ≡ true
  Finished-target [] a b f h e = cc
  Finished-target (n ∷ rest) a b (s, u, f) h e = elim (Bool-cases (n == a)) [
    | inl same ↦
        let e' = subst (λ k. Edge k b) (sym ((eq_iff n a).0 same)) e in
        rw (contains_of_Subset b (targets outgoing n) rest s e') (ground arith)
    | inr other ↦ rw (Finished-target rest a b f (ground (arith, h, other)) e) (ground arith)
  ]

  pub Finished-Walk :
      (rest : List String) {a b : String}
      → Finished rest
      → contains a rest ≡ true
      → Walk a b
      → contains b rest ≡ true
  Finished-Walk rest f h (one e) = Finished-target rest _ _ f h e
  Finished-Walk rest f h (more e w) = Finished-Walk rest f (Finished-target rest _ _ f h e) w

  -- A walk from a node whose targets are finished stays among them.
  leaves :
      (rest : List String) (n : String) {b : String}
      → Subset (targets outgoing n) rest
      → Finished rest
      → Walk n b
      → contains b rest ≡ true
  leaves rest n {b} s f (one e) = contains_of_Subset b (targets outgoing n) rest s e
  leaves rest n s f (more {b = c} e w) =
      Finished-Walk rest f (contains_of_Subset c (targets outgoing n) rest s e) w

  pub Finished-no_Walk :
      (rest : List String) (a : String) → Finished rest → contains a rest ≡ true → Walk a a → ⊥
  Finished-no_Walk [] a f h w = cc
  Finished-no_Walk (n ∷ rest) a (s, u, f) h w = elim (Bool-cases (n == a)) [
    | inl same ↦
        let e = (eq_iff n a).0 same in
        let back = leaves rest n s f (subst (λ k. Walk k k) (sym e) w) in cc (back, u)
    | inr other ↦ Finished-no_Walk rest a f (ground (arith, h, other)) w
  ]
