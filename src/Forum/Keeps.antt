-- ===== src/Forum/Keeps.antt =====
-- What an action leaves of each thread.
-- A thread before and after an action: the same thread; what is locked keeps its title, category and
-- posts and stays locked, what is pinned stays pinned, and only a locked thread is newly pinned.
use agent_benchmark.Forum.{ForumThread, update_thread, find_thread}
use agent_benchmark.Common.{
  List, ◌≡◌, ◌∷◌, String, ◌∙◌, true, false, Bool-cases, [], some, inl, refl, inr, ◌==◌, subst,
  arith,
}

pub record Keeps (t u : ForumThread) : Type 0 where
  pub same_id : u.id ≡ t.id
  pub stays_locked : t.locked ≡ true → u.locked ≡ true
  pub frozen :
      t.locked ≡ true → (u.title ≡ t.title) × (u.category ≡ t.category) × (u.posts ≡ t.posts)
  pub stays_pinned : t.pinned ≡ true → u.pinned ≡ true
  pub pins_locked : t.pinned ≡ false → u.pinned ≡ true → u.locked ≡ true

Keeps-refl : (t : ForumThread) → Keeps t t
Keeps-refl t = record {
  same_id = refl;
  stays_locked = λ h. h;
  frozen = λ _. (refl, refl, refl);
  stays_pinned = λ h. h;
  pins_locked = λ a b. cc (a, b);
}

-- Thread by thread.
abbrev pub AllKept : List ForumThread → List ForumThread → Type 0
AllKept [] [] = Unit
AllKept (t ∷ ts) (u ∷ us) = Keeps t u × AllKept ts us
AllKept _ _ = ⊥

pub AllKept-refl : (ts : List ForumThread) → AllKept ts ts
AllKept-refl [] = tt
AllKept-refl (t ∷ ts) = (Keeps-refl t, AllKept-refl ts)

pub update-AllKept :
    (id : String) (f : ForumThread → ForumThread) (ts : List ForumThread) (t : ForumThread)
    → find_thread id ts ≡ some t
    → Keeps t (f t)
    → AllKept ts (update_thread id f ts)
unfolding update_thread
update-AllKept id f [] t e k = cc
update-AllKept id f (u ∷ ts) t e k = elim (Bool-cases (u.id == id)) [
  | inl here ↦ rw here (subst (λ x. Keeps x (f x)) (ground (arith, e, here)) k, AllKept-refl ts)
  | inr later ↦ rw later (Keeps-refl u, update-AllKept id f ts t (ground (arith, e, later)) k)
]

-- A change of a thread that is not locked, which does not touch its flags.
pub open-Keeps :
    (t u : ForumThread)
    → t.locked ≡ false
    → u.id ≡ t.id
    → u.locked ≡ t.locked
    → u.pinned ≡ t.pinned
    → Keeps t u
open-Keeps t u free a b c = record {
  same_id = a;
  stays_locked = λ h. absurd (cc (h, free));
  frozen = λ h. absurd (cc (h, free));
  stays_pinned = λ h. c ∙ h;
  pins_locked = λ h k. cc (h, k, c);
}

Keeps-trans : (t u v : ForumThread) → Keeps t u → Keeps u v → Keeps t v
Keeps-trans t u v h k = record {
  same_id = k.same_id ∙ h.same_id;
  stays_locked = λ a. k.stays_locked (h.stays_locked a);
  frozen = λ a.
      let (f, g, p) = h.frozen a in
      let (f', g', p') = k.frozen (h.stays_locked a) in (f' ∙ f, g' ∙ g, p' ∙ p);
  stays_pinned = λ a. k.stays_pinned (h.stays_pinned a);
  pins_locked = λ a b. elim (Bool-cases u.pinned) [
    | inl c ↦ k.stays_locked (h.pins_locked a c)
    | inr c ↦ k.pins_locked c b
  ];
}

pub AllKept-trans : (ts us vs : List ForumThread) → AllKept ts us → AllKept us vs → AllKept ts vs
AllKept-trans [] [] vs h k = k
AllKept-trans (t ∷ ts) (u ∷ us) (v ∷ vs) (p, h) (q, k) =
    (Keeps-trans t u v p q, AllKept-trans ts us vs h k)
AllKept-trans [] (u ∷ us) vs h k = absurd h
AllKept-trans (t ∷ ts) [] vs h k = absurd h
AllKept-trans (t ∷ ts) (u ∷ us) [] h k = absurd k
