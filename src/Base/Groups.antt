-- ===== src/Base/Groups.antt =====
-- GROUP BY: the rows of a list by a key, each group with its rows in their order.
use Prim.Native.Nat.{ℕ}
use mathlib.Core.Bool.{Bool}
use mathlib.Core.List.{List, [], ◌∷◌}
use wafportal.Base.Tests.{if◌then◌else◌}
use wafportal.Base.Lists.{length}

-- A group is its first row and the others.
abbrev pub Group : Type 0 → Type 0
Group A = A × List A

abbrev pub members : {A : Type 0} → Group A → List A
members g = g.0 ∷ g.1

abbrev pub size : {A : Type 0} → Group A → ℕ
size g = length (members g)

module _ {A : Type 0} (same : A → A → Bool) where
  abbrev pub add_row : A → List (Group A) → List (Group A)
  add_row x [] = (x, []) ∷ []
  add_row x (g ∷ gs) =
      let rest = add_row x gs in if same x g.0 then (x, members g) ∷ gs else g ∷ rest

  abbrev pub group_by : List A → List (Group A)
  group_by [] = []
  group_by (x ∷ xs) = add_row x (group_by xs)
