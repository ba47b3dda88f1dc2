-- ===== src/Base/Tasks.antt =====
-- Code that other code may overtake: each step of a task is atomic, and between two steps anything may
-- happen to the state that tasks share.
use Prim.Native.Nat.{ℕ, zero, suc, ◌+◌, ◌≤◌}
use mathlib.Core.Bool.{Bool, true, false}
use native.Mathlib.Omega.{arith}
use mathlib.Core.Path.{◌≡◌, refl}
use mathlib.Core.List.{List, [], ◌∷◌}
use wafportal.Base.Lists.{All}

-- A step changes the state, and what follows may depend on the state before it.
pub data Task (S A : Type 0) : Type 0 where
  done : A → Task S A
  step : (S → S) → (S → Task S A) → Task S A

module _ {S : Type 0} where
  abbrev pub atomically : {A : Type 0} → (S → A × S) → Task S A
  atomically f = step (λ s. (f s).1) (λ s. done (f s).0)

  infixl 5 ◌>>=◌
  abbrev pub ◌>>=◌ : {A B : Type 0} → Task S A → (A → Task S B) → Task S B
  done a >>= f = f a
  step change next >>= f = step change (λ s. next s >>= f)

  module _ {A : Type 0} where
    -- A task that nothing overtakes.
    abbrev pub run : Task S A → S → A × S
    run (done a) s = (a, s)
    run (step change next) s = run (next s) (change s)

    -- One step of a task, and of the task at a position; one that is done has no step.
    abbrev pub advance : Task S A → S → Task S A × S
    advance (done a) s = (done a, s)
    advance (step change next) s = (next s, change s)

    abbrev pub advance_at : ℕ → List (Task S A) → S → List (Task S A) × S
    advance_at i [] s = ([], s)
    advance_at zero (t ∷ ts) s = let (t', s') = advance t s in (t' ∷ ts, s')
    advance_at (suc i) (t ∷ ts) s = let (ts', s') = advance_at i ts s in (t ∷ ts', s')

    abbrev pub is_done : Task S A → Bool
    is_done (done a) = true
    is_done (step change next) = false

    -- So many steps of a task, the first of which finds the first state, and so on.
    abbrev pub after_steps : ℕ → (ℕ → S) → Task S A → Task S A
    after_steps zero found t = t
    after_steps (suc m) found t = after_steps m (λ i. found (suc i)) (advance t (found zero)).0

  pub run-bind :
      {A B : Type 0} (t : Task S A) (f : A → Task S B) (s : S)
      → run (t >>= f) s ≡ run (f (run t s).0) (run t s).1
  run-bind (done a) f s = refl
  run-bind (step change next) f s = run-bind (next s) f (change s)

  module _ (P : S → Type 0) where
    -- Whatever holds of the state holds after each step, wherever the step is taken.
    unfoldable pub Keeps : {A : Type 0} → Task S A → Type 0
    Keeps (done a) = Unit {0}
    Keeps (step change next) = (s : S) → P s → P (change s) × Keeps (next s)

    pub bind-Keeps :
        {A B : Type 0} (t : Task S A) (f : A → Task S B)
        → Keeps t
        → ((a : A) → Keeps (f a))
        → Keeps (t >>= f)
    unfolding Keeps
    bind-Keeps (done a) f kt kf = kf a
    bind-Keeps (step change next) f kt kf = λ s p. ((kt s p).0, bind-Keeps (next s) f (kt s p).1 kf)

    pub done-Keeps : {A : Type 0} (a : A) → Keeps (done a)
    unfolding Keeps
    done-Keeps a = tt

    pub atomically-Keeps :
        {A : Type 0} (f : S → A × S) → ((s : S) → P s → P (f s).1) → Keeps (atomically f)
    unfolding Keeps
    atomically-Keeps f kept s p = (kept s p, tt)

    module _ {A : Type 0} where
      pub advance-Keeps :
          (t : Task S A) (s : S) → Keeps t → P s → Keeps (advance t s).0 × P (advance t s).1
      unfolding Keeps
      advance-Keeps (done a) s k p = (tt, p)
      advance-Keeps (step change next) s k p = ((k s p).1, (k s p).0)

      -- So tasks that keep it may overtake one another.
      pub advance_at-Keeps :
          (i : ℕ) (ts : List (Task S A)) (s : S)
          → All Keeps ts
          → P s
          → All Keeps (advance_at i ts s).0 × P (advance_at i ts s).1
      advance_at-Keeps i [] s k p = (tt, p)
      advance_at-Keeps zero (t ∷ ts) s (k, ks) p =
          let (k', p') = advance-Keeps t s k p in ((k', ks), p')
      advance_at-Keeps (suc i) (t ∷ ts) s (k, ks) p =
          let (ks', p') = advance_at-Keeps i ts s ks p in ((k, ks'), p')

    -- The task ends after so many of its steps, whatever states it finds.
    unfoldable pub EndsWithin : {A : Type 0} → ℕ → Task S A → Type 0
    EndsWithin m (done a) = Unit {0}
    EndsWithin zero (step change next) = ⊥
    EndsWithin (suc m) (step change next) = (s : S) → P s → EndsWithin m (next s)

    pub weaken-EndsWithin :
        {A : Type 0} (m n : ℕ) (t : Task S A) → m ≤ n → EndsWithin m t → EndsWithin n t
    unfolding EndsWithin
    weaken-EndsWithin m n (done a) le h = tt
    weaken-EndsWithin zero n (step change next) le h = absurd h
    weaken-EndsWithin (suc m) zero (step change next) le h = absurd (omega arith)
    weaken-EndsWithin (suc m) (suc n) (step change next) le h =
        λ s p. weaken-EndsWithin m n (next s) (omega arith) (h s p)

    pub bind-EndsWithin :
        {A B : Type 0} (m n total : ℕ) (t : Task S A) (f : A → Task S B)
        → m + n ≤ total
        → EndsWithin m t
        → ((a : A) → EndsWithin n (f a))
        → EndsWithin total (t >>= f)
    unfolding EndsWithin
    bind-EndsWithin m n total (done a) f le h k =
        weaken-EndsWithin n total (f a) (omega arith) (k a)
    bind-EndsWithin zero n total (step change next) f le h k = absurd h
    bind-EndsWithin (suc m) n zero (step change next) f le h k = absurd (omega arith)
    bind-EndsWithin (suc m) n (suc total) (step change next) f le h k =
        λ s p. bind-EndsWithin m n total (next s) f (omega arith) (h s p) k

    module _ {A : Type 0} where
      after_done : (m : ℕ) (found : ℕ → S) (a : A) → is_done (after_steps m found (done a)) ≡ true
      after_done zero found a = refl
      after_done (suc m) found a = after_done m (λ i. found (suc i)) a

      pub EndsWithin-is_done :
          (m : ℕ) (found : ℕ → S) (t : Task S A)
          → ((i : ℕ) → P (found i))
          → EndsWithin m t
          → is_done (after_steps m found t) ≡ true
      unfolding EndsWithin
      EndsWithin-is_done m found (done a) p h = after_done m found a
      EndsWithin-is_done zero found (step change next) p h = absurd h
      EndsWithin-is_done (suc m) found (step change next) p h =
          EndsWithin-is_done m (λ i. found (suc i)) (next (found zero)) (λ i. p (suc i))
            (h (found zero) (p zero))
