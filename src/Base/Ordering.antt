-- ===== src/Base/Ordering.antt =====
-- Lists whose elements are related pair by pair, and sorting that makes them so.
use Prim.Native.Nat.{ℕ, zero, suc}
use mathlib.Core.Path.{◌≡◌}
use mathlib.Core.Bool.{Bool, true, false}
use mathlib.Core.List.{List, [], ◌∷◌, map}
use mathlib.Core.Logic.{inl, inr}
use wafportal.Base.Tests.{Bool-cases}
use wafportal.Base.Lists.{take, drop, All, insert_by, sort_by}

module _ {A : Type 0} where
  pub All-map-le : (P Q : A → Type 0) → ((a : A) → P a → Q a) → (xs : List A) → All P xs → All Q xs
  All-map-le P Q f [] h = tt
  All-map-le P Q f (x ∷ xs) (p, h) = (f x p, All-map-le P Q f xs h)

  pub All-take : (P : A → Type 0) (n : ℕ) (xs : List A) → All P xs → All P (take n xs)
  All-take P zero xs h = tt
  All-take P (suc n) [] h = tt
  All-take P (suc n) (x ∷ xs) (p, h) = (p, All-take P n xs h)

  pub All-drop : (P : A → Type 0) (n : ℕ) (xs : List A) → All P xs → All P (drop n xs)
  All-drop P zero xs h = h
  All-drop P (suc n) [] h = tt
  All-drop P (suc n) (x ∷ xs) (p, h) = All-drop P n xs h

  pub All-insert :
      (le : A → A → Bool) (P : A → Type 0) (x : A) (xs : List A)
      → P x
      → All P xs
      → All P (insert_by le x xs)
  All-insert le P x [] p h = (p, h)
  All-insert le P x (y ∷ ys) p (q, h) = elim (Bool-cases (le x y)) [
    | inl before ↦ rw before (p, (q, h))
    | inr after ↦ rw after (q, All-insert le P x ys p h)
  ]

  pub All-sort :
      (le : A → A → Bool) (P : A → Type 0) (xs : List A) → All P xs → All P (sort_by le xs)
  All-sort le P [] h = tt
  All-sort le P (x ∷ xs) (p, h) = All-insert le P x (sort_by le xs) p (All-sort le P xs h)

  -- Each is related to all that follow it.
  abbrev pub Pairwise : (A → A → Type 0) → List A → Type 0
  Pairwise R [] = Unit
  Pairwise R (x ∷ xs) = All (R x) xs × Pairwise R xs

  module _ (R : A → A → Type 0) where
    pub Pairwise-take : (n : ℕ) (xs : List A) → Pairwise R xs → Pairwise R (take n xs)
    Pairwise-take zero xs h = tt
    Pairwise-take (suc n) [] h = tt
    Pairwise-take (suc n) (x ∷ xs) (p, h) = (All-take (R x) n xs p, Pairwise-take n xs h)

    pub Pairwise-drop : (n : ℕ) (xs : List A) → Pairwise R xs → Pairwise R (drop n xs)
    Pairwise-drop zero xs h = h
    Pairwise-drop (suc n) [] h = tt
    Pairwise-drop (suc n) (x ∷ xs) (p, h) = Pairwise-drop n xs h

    -- A symmetric relation does not mind the order.
    pub Pairwise-insert :
        ((a b : A) → R a b → R b a)
        → (le : A → A → Bool) (x : A) (xs : List A) → All (R x) xs
        → Pairwise R xs
        → Pairwise R (insert_by le x xs)
    Pairwise-insert turn le x [] p h = (tt, tt)
    Pairwise-insert turn le x (y ∷ ys) (r, p) (q, h) = elim (Bool-cases (le x y)) [
      | inl before ↦ rw before ((r, p), (q, h))
      | inr after ↦
          rw after (All-insert le (R y) x ys (turn x y r) q, Pairwise-insert turn le x ys p h)
    ]

    pub Pairwise-sort :
        ((a b : A) → R a b → R b a)
        → (le : A → A → Bool) (xs : List A) → Pairwise R xs
        → Pairwise R (sort_by le xs)
    Pairwise-sort turn le [] h = tt
    Pairwise-sort turn le (x ∷ xs) (p, h) =
        Pairwise-insert turn le x (sort_by le xs) (All-sort le (R x) xs p)
          (Pairwise-sort turn le xs h)

    -- A transitive relation that the test decides one way or the other.
    module _ (le : A → A → Bool) (yes_le : (a b : A) → le a b ≡ true → R a b)
        (no_le : (a b : A) → le a b ≡ false → R b a)
        (trans : (a b c : A) → R a b → R b c → R a c) where
      insert-Pairwise : (x : A) (xs : List A) → Pairwise R xs → Pairwise R (insert_by le x xs)
      insert-Pairwise x [] h = (tt, tt)
      insert-Pairwise x (y ∷ ys) (p, h) = elim (Bool-cases (le x y)) [
        | inl before ↦
            let r = yes_le x y before in
            rw before ((r, All-map-le (R y) (R x) (λ z q. trans x y z r q) ys p), (p, h))
        | inr after ↦
            rw after (All-insert le (R y) x ys (no_le x y after) p, insert-Pairwise x ys h)
      ]

      pub sort-Pairwise : (xs : List A) → Pairwise R (sort_by le xs)
      sort-Pairwise [] = tt
      sort-Pairwise (x ∷ xs) = insert-Pairwise x (sort_by le xs) (sort-Pairwise xs)

  pub Pairwise-zip :
      (R S T : A → A → Type 0)
      → ((a b : A) → R a b → S a b → T a b)
      → (xs : List A) → Pairwise R xs
      → Pairwise S xs
      → Pairwise T xs
  Pairwise-zip R S T f [] h k = tt
  Pairwise-zip R S T f (x ∷ xs) (p, h) (q, k) = (both xs p q, Pairwise-zip R S T f xs h k)
    where
      both : (ys : List A) → All (R x) ys → All (S x) ys → All (T x) ys
      both [] p q = tt
      both (y ∷ ys) (r, p) (s, q) = (f x y r s, both ys p q)

module _ {A B : Type 0} (f : A → B) where
  pub All-map : (P : B → Type 0) (xs : List A) → All (λ a. P (f a)) xs → All P (map f xs)
  All-map P [] h = tt
  All-map P (x ∷ xs) (p, h) = (p, All-map P xs h)

  pub Pairwise-map :
      (R : B → B → Type 0) (xs : List A)
      → Pairwise (λ a b. R (f a) (f b)) xs
      → Pairwise R (map f xs)
  Pairwise-map R [] h = tt
  Pairwise-map R (x ∷ xs) (p, h) = (All-map (R (f x)) xs p, Pairwise-map R xs h)
