-- ===== src/Base/Tallies.antt =====
-- What GROUP BY gives: one group for each key, with exactly the rows of that key.
use Prim.Native.Nat.{ℕ, ◌+◌}
use mathlib.Core.Path.{◌≡◌, refl, sym, ap, fun_ext, ◌∙◌}
use mathlib.Core.Bool.{Bool, true}
use mathlib.Core.List.{List, [], ◌∷◌, map}
use mathlib.Core.Logic.{◌↔◌, ◌≢◌, inl, inr}
use native.Mathlib.Omega.{arith}
use wafportal.Base.Tests.{if◌then◌else◌, Bool-cases}
use wafportal.Base.Lists.{length, filter, All, insert_by, sort_by}
use wafportal.Base.Ordering.{Pairwise, All-map-le}
use wafportal.Base.Groups.{Group, members, size, add_row, group_by}

abbrev pub sum_of : {A : Type 0} → (A → ℕ) → List A → ℕ
sum_of f [] = 0
sum_of f (x ∷ xs) = f x + sum_of f xs

module _ {A : Type 0} where
  sum-insert :
      (f : A → ℕ) (le : A → A → Bool) (x : A) (xs : List A)
      → sum_of f (insert_by le x xs) ≡ f x + sum_of f xs
  sum-insert f le x [] = refl
  sum-insert f le x (y ∷ ys) = ground (arith, sum-insert f le x ys)

  pub sum-sort :
      (f : A → ℕ) (le : A → A → Bool) (xs : List A) → sum_of f (sort_by le xs) ≡ sum_of f xs
  sum-sort f le [] = refl
  sum-sort f le (x ∷ xs) = omega (arith, sum-insert f le x (sort_by le xs), sum-sort f le xs)

  pub sum-map :
      {B : Type 0} (g : A → B) (f : B → ℕ) (xs : List A)
      → sum_of f (map g xs) ≡ sum_of (λ a. f (g a)) xs
  sum-map g f [] = refl
  sum-map g f (x ∷ xs) = omega (arith, sum-map g f xs)

  -- However the rows are grouped, the groups together hold each row once.
  module _ (same : A → A → Bool) (p : A → Bool) where
    abbrev hits : List A → ℕ
    hits xs = length (filter p xs)

    sum-add_row :
        (x : A) (gs : List (Group A))
        → sum_of (λ g. hits (members g)) (add_row same x gs)
          ≡ hits (x ∷ []) + sum_of (λ g. hits (members g)) gs
    sum-add_row x [] = refl
    sum-add_row x (g ∷ gs) = elim (Bool-cases (p x)) [
      | inl y ↦ rw y (ground (arith, sum-add_row x gs))
      | inr z ↦ rw z (ground (arith, sum-add_row x gs))
    ]

    pub sum-group_by : (xs : List A) → sum_of (λ g. hits (members g)) (group_by same xs) ≡ hits xs
    sum-group_by [] = refl
    sum-group_by (x ∷ xs) = ground (arith, sum-add_row x (group_by same xs), sum-group_by xs)

filter_all : {A : Type 0} (xs : List A) → filter (λ _. true) xs ≡ xs
filter_all [] = refl
filter_all (x ∷ xs) = ap (λ ys. x ∷ ys) (filter_all xs)

pub sum-size :
    {A : Type 0} (same : A → A → Bool) (xs : List A) → sum_of size (group_by same xs) ≡ length xs
sum-size same xs =
    ap (λ f. sum_of f (group_by same xs)) (fun_ext (λ g. ap length (sym (filter_all (members g)))))
    ∙ sum-group_by same (λ _. true) xs
    ∙ ap length (filter_all xs)

module _ {A K : Type 0} (key : A → K) (same : A → A → Bool)
    (decides : (a b : A) → (same a b ≡ true) ↔ (key a ≡ key b)) where
  -- The rows of the first group that a row belongs to.
  members_of : A → List (Group A) → List A
  members_of k [] = []
  members_of k (g ∷ gs) = if same g.0 k then members g else members_of k gs

  members_of-add_row :
      (k x : A) (gs : List (Group A))
      → members_of k (add_row same x gs)
        ≡ (if same x k then x ∷ members_of k gs else members_of k gs)
  unfolding members_of
  members_of-add_row k x [] = refl
  members_of-add_row k x (g ∷ gs) =
      ground (arith, members_of-add_row k x gs, decides x g.0, decides x k, decides g.0 k)

  members_of-group_by :
      (k : A) (xs : List A) → members_of k (group_by same xs) ≡ filter (λ x. same x k) xs
  members_of-group_by k [] = unfold members_of in refl
  members_of-group_by k (x ∷ xs) =
      members_of-add_row k x (group_by same xs) ∙ rw (members_of-group_by k xs) refl

  -- Two groups have different keys.
  abbrev pub Apart : Group A → Group A → Type 0
  Apart g h = key g.0 ≢ key h.0

  Apart-add_row :
      (x : A) (g : Group A) (gs : List (Group A))
      → key g.0 ≢ key x
      → All (Apart g) gs
      → All (Apart g) (add_row same x gs)
  Apart-add_row x g [] n h = (n, tt)
  Apart-add_row x g (i ∷ gs) n (p, h) = elim (Bool-cases (same x i.0)) [
    | inl y ↦ rw y (n, h)
    | inr z ↦ rw z (p, Apart-add_row x g gs n h)
  ]

  add_row-Apart :
      (x : A) (gs : List (Group A)) → Pairwise Apart gs → Pairwise Apart (add_row same x gs)
  add_row-Apart x [] h = (tt, tt)
  add_row-Apart x (g ∷ gs) (p, h) = elim (Bool-cases (same x g.0)) [
    | inl y ↦
        let e = (decides x g.0).0 y in
        rw y (All-map-le (Apart g) (Apart (x, members g)) (λ i n q. n (sym e ∙ q)) gs p, h)
    | inr z ↦
        rw z
          (Apart-add_row x g gs (λ e. ground (arith, decides x g.0, sym e)) p, add_row-Apart x gs h)
  ]

  pub group_by-Apart : (xs : List A) → Pairwise Apart (group_by same xs)
  group_by-Apart [] = tt
  group_by-Apart (x ∷ xs) = add_row-Apart x (group_by same xs) (group_by-Apart xs)

  -- The rows of a group are those of `xs` that belong to it, in their order.
  abbrev pub HoldsAll : List A → Group A → Type 0
  HoldsAll xs g = members g ≡ filter (λ x. same x g.0) xs

  found : (gs : List (Group A)) → Pairwise Apart gs → All (λ g. members_of g.0 gs ≡ members g) gs
  unfolding members_of
  found [] h = tt
  found (g ∷ gs) (p, h) = (ground (arith, decides g.0 g.0), later gs p (found gs h))
    where
      later :
          (is : List (Group A))
          → All (Apart g) is
          → All (λ i. members_of i.0 gs ≡ members i) is
          → All (λ i. members_of i.0 (g ∷ gs) ≡ members i) is
      later [] p h = tt
      later (i ∷ is) (n, p) (e, h) = (ground (arith, decides g.0 i.0, e), later is p h)

  pub group_by-HoldsAll : (xs : List A) → All (HoldsAll xs) (group_by same xs)
  group_by-HoldsAll xs =
      All-map-le _ (HoldsAll xs) (λ g e. sym e ∙ members_of-group_by g.0 xs) (group_by same xs)
        (found (group_by same xs) (group_by-Apart xs))
