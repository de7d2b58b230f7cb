-- ===== src/Commands/Deliveries.antt =====
-- Deliveries and redeliveries of messages to `processMessage`.
use agent_benchmark.Commands.{
  Options, Store, String, Option, StoredResponse, Bool, List, Entry, started, empty_store,
}
use agent_benchmark.Commands.Process.{
  Command, complete, publish_response, Turn, process_new, process_command, process_message, settled,
  observe, escaped, present, again, settle, command_of,
}
use agent_benchmark.Common.{
  String, Option, get, ◌≡◌, Bool, some, none, ◌≤◌, arith, true, false, Bool-cases, ◌==◌, inl, inr,
  subst, List, eq_iff, Option-cases, get-put_self, ◌∙◌, ◌∷◌, get-put, [], get-remove, refl,
}
use agent_benchmark.Commands.Settling.{settle-Ended}
use agent_benchmark.Commands.Attempts.{calls_of, attempts_of, letters_of, Settled, Counts, Ended}

-- What holds of a command between deliveries.
abbrev pub Fair : Options → Store → String → Option StoredResponse → Type 0
Fair o s j none =
    (calls_of j s ≤ attempts_of j s)
    × (attempts_of j s ≤ o.max_command_attempts)
    × (letters_of j s ≡ 0)
Fair o s j (some r) =
    (calls_of j s ≤ o.max_command_attempts) × (letters_of j s ≤ 1) × (r.command_id ≡ j)

abbrev pub Inv : Options → Store → Type 0
Inv o s = (j : String) → Fair o s j (get j s.results)

-- A delivery that returns keeps what is stored for other commands.
abbrev pub Delivered : Options → Store → Option (Store × Bool) → Type 0
Delivered o s none = ⊥
Delivered o s (some (t, returned)) =
    Inv o t
    × ((j : String) (r : StoredResponse) → get j s.results ≡ some r → get j t.results ≡ some r)

Fair-agree :
    (o : Options) (s t : Store) (j : String) (r : Option StoredResponse)
    → attempts_of j t ≡ attempts_of j s
    → calls_of j t ≡ calls_of j s
    → letters_of j t ≡ letters_of j s
    → Fair o s j r
    → Fair o t j r
Fair-agree o s t j none a b c h = ground (arith, h, a, b, c)
Fair-agree o s t j (some r) a b c h = ground (arith, h, a, b, c)

module _ (o : Options) (c : Command) where
  complete-Delivered :
      (s : Store) (r : StoredResponse) (t : Store)
      → Inv o s
      → get c.command_id s.results ≡ none
      → Settled o c s r t
      → Delivered o s (some (complete o c r t, true))
  unfolding complete publish_response
  complete-Delivered s r t h new e =
      let before : Fair o s c.command_id none =
        subst (Fair o s c.command_id) new (h c.command_id) in
      (
        λ j. elim (Bool-cases (c.command_id == j)) [
          | inl same ↦
              subst (λ i. Fair o (complete o c r t) i (get i (complete o c r t).results))
                ((eq_iff c.command_id j).0 same)
                (rw (get-put_self c.command_id r t.results)
                  (e.called, omega (arith, e.letters, before.2), e.answers))
          | inr other ↦
              rw (get-put c.command_id j r t.results, other, e.kept.same_results)
                (Fair-agree o s (complete o c r t) j (get j s.results)
                  (ground
                    (arith, get-remove c.command_id j t.retries, other, e.kept.elsewhere j other))
                  (e.kept.elsewhere j other).1 (e.kept.elsewhere j other).2 (h j))
        ],
        λ j q e'. ground (
          arith,
          get-put c.command_id j r t.results,
          eq_iff c.command_id j,
          e.kept.same_results,
          e',
          new,
        ),
      )

  escaped-Delivered :
      (s t : Store)
      → Inv o s
      → get c.command_id s.results ≡ none
      → Counts o c s t
      → Delivered o s (some (t, false))
  escaped-Delivered s t h new e =
      let before : Fair o s c.command_id none =
        subst (Fair o s c.command_id) new (h c.command_id) in
      (
        λ j. elim (Bool-cases (c.command_id == j)) [
          | inl same ↦
              subst (λ i. Fair o t i (get i t.results)) ((eq_iff c.command_id j).0 same)
                (rw (e.kept.same_results, new) (e.called, e.bounded, e.letters ∙ before.2))
          | inr other ↦ rw e.kept.same_results (
              Fair-agree o s t j (get j s.results) (e.kept.elsewhere j other).0
                (e.kept.elsewhere j other).1 (e.kept.elsewhere j other).2 (h j))
        ],
        λ j q e'. rw e.kept.same_results e',
      )

  abbrev pub ended_delivery : Option Turn → Option (Store × Bool)
  ended_delivery none = none
  ended_delivery (some (settled r t)) = some (complete o c r t, true)
  ended_delivery (some (escaped t)) = some (t, false)
  ended_delivery (some (again t)) = none

  Ended-Delivered :
      (s : Store) (e : Option Turn)
      → Inv o s
      → get c.command_id s.results ≡ none
      → Ended o c s e
      → Delivered o s (ended_delivery e)
  Ended-Delivered s none h new e = e
  Ended-Delivered s (some (settled r t)) h new e = complete-Delivered s r t h new e
  Ended-Delivered s (some (escaped t)) h new e = escaped-Delivered s t h new e
  Ended-Delivered s (some (again t)) h new e = e

  process_new-Delivered :
      (s : Store) → Inv o s → get c.command_id s.results ≡ none → Delivered o s (process_new o c s)
  unfolding process_new
  process_new-Delivered s h new =
      let before : Fair o s c.command_id none =
        subst (Fair o s c.command_id) new (h c.command_id) in
      let started_store = observe (started c.command_id) s in
      Ended-Delivered started_store (settle o c started_store) h new
        (settle-Ended o c started_store before.0 before.1)

  process_command-Delivered : (s : Store) → Inv o s → Delivered o s (process_command o c s)
  unfolding process_command publish_response
  process_command-Delivered s h = elim (Option-cases (get c.command_id s.results)) [
    | inl new ↦ rw (new, process_command) (process_new-Delivered s h new)
    | inr (stored, e) ↦ rw (e, process_command) (h, λ j r k. k)
  ]

pub process_message-Delivered :
    (o : Options) (e : Entry) (s : Store) → Inv o s → Delivered o s (process_message o e s)
unfolding process_message
process_message-Delivered o e s h = elim (Option-cases (present e.message.command_id)) [
  | inl p ↦ rw (p, process_message) (h, λ j r k. k)
  | inr (command, p) ↦ elim (Option-cases (present e.message.command_type)) [
    | inl q ↦ rw (p, q, process_message) (h, λ j r k. k)
    | inr (type, q) ↦
        rw (p, q, process_message) (process_command-Delivered o (command_of e command type) s h)
  ]
]

-- The worker's deliveries one after another, those after an exception included: the message is
-- claimed again. `none` is a delivery that never returns.
unfoldable pub deliver : Options → List Entry → Store → Option Store
deliver o [] s = some s
deliver o (e ∷ es) s = elim (process_message o e s) [
  | none ↦ none
  | some (t, returned) ↦ deliver o es t
]

abbrev IsDelivered : Options → Store → Option Store → Type 0
IsDelivered o s none = ⊥
IsDelivered o s (some t) =
    Inv o t
    × ((j : String) (r : StoredResponse) → get j s.results ≡ some r → get j t.results ≡ some r)

IsDelivered-trans :
    (o : Options) (s t : Store) (u : Option Store)
    → ((j : String) (r : StoredResponse) → get j s.results ≡ some r → get j t.results ≡ some r)
    → IsDelivered o t u
    → IsDelivered o s u
IsDelivered-trans o s t none h k = k
IsDelivered-trans o s t (some u) h (k, m) = (k, λ j r e. m j r (h j r e))

deliver_rest :
    (o : Options) (es : List Entry) (s : Store) (d : Option (Store × Bool))
    → Delivered o s d
    → ((t : Store) → Inv o t → IsDelivered o t (deliver o es t))
    → IsDelivered o s (elim d [ none ↦ none | some (t, returned) ↦ deliver o es t ])
deliver_rest o es s none k more = k
deliver_rest o es s (some (t, returned)) k more =
    IsDelivered-trans o s t (deliver o es t) k.1 (more t k.0)

pub deliver-IsDelivered :
    (o : Options) (es : List Entry) (s : Store) → Inv o s → IsDelivered o s (deliver o es s)
unfolding deliver
deliver-IsDelivered o [] s h = (h, λ j r k. k)
deliver-IsDelivered o (e ∷ es) s h =
    deliver_rest o es s (process_message o e s) (process_message-Delivered o e s h)
      (deliver-IsDelivered o es)

Inv-empty_store : (o : Options) → Inv o empty_store
unfolding get
Inv-empty_store o j = (omega arith, omega arith, refl)

IsDelivered-returns :
    (o : Options) (s : Store) (d : Option Store)
    → IsDelivered o s d
    → (t : Store) × (d ≡ some t) × Inv o t
IsDelivered-returns o s none h = absurd h
IsDelivered-returns o s (some t) h = (t, refl, h.0)

Fair-bounds :
    (o : Options) (s : Store) (j : String) (r : Option StoredResponse)
    → Fair o s j r
    → (calls_of j s ≤ o.max_command_attempts) × (letters_of j s ≤ 1)
Fair-bounds o s j none h = omega (arith, h)
Fair-bounds o s j (some r) h = (h.0, h.1)

-- Over any deliveries and redeliveries from an empty store, whatever the handler and the callback
-- do, every delivery ends, each command's handler is called at most `maxCommandAttempts` times and
-- at most one dead letter of it is accepted.
pub deliveries_bounded :
    (o : Options) (es : List Entry)
    → (t : Store) × (deliver o es empty_store ≡ some t)
      × ((j : String) → (calls_of j t ≤ o.max_command_attempts) × (letters_of j t ≤ 1))
deliveries_bounded o es =
    let (t, e, h) =
      IsDelivered-returns o empty_store (deliver o es empty_store)
        (deliver-IsDelivered o es empty_store (Inv-empty_store o)) in
    (t, e, λ j. Fair-bounds o t j (get j t.results) (h j))

-- Once the result of a command is stored it never changes, over any further deliveries.
pub result_stays :
    (o : Options) (es : List Entry) (s t : Store) (j : String) (r : StoredResponse)
    → Inv o s
    → get j s.results ≡ some r
    → deliver o es s ≡ some t
    → get j t.results ≡ some r
result_stays o es s t j r h e d = (subst (IsDelivered o s) d (deliver-IsDelivered o es s h)).1 j r e
