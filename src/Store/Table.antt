-- ===== src/Store/Table.antt =====
-- A table with `id INTEGER PRIMARY KEY AUTOINCREMENT`, as the statements of
-- internal/store/store.go read and write it. Rows stand in the order of their ids.
use wafportal.Base.{
  ℕ, ◌≤◌, ◌<◌, ℤ, pos, eq_ℤ, ◌≡◌, refl, not, List, [], ◌∷◌, ◌++◌, Option, none, some, find?, filter,
  if◌then◌else◌, arith, eq_ℤ_iff, Bool-cases, inl, inr, suc,
}

pub record Table (A : Type 0) : Type 0 where
  pub rows : List A
  pub last_id : ℕ

abbrev pub empty_table : {A : Type 0} → Table A
empty_table = record { rows = []; last_id = 0 }

module _ {A : Type 0} (id_of : A → ℤ) where
  -- SELECT … WHERE id = ?
  abbrev pub select_id : ℤ → List A → Option A
  select_id k rows = find? (λ r. eq_ℤ (id_of r) k) rows

  -- UPDATE … WHERE id = ?
  abbrev pub update_id : ℤ → (A → A) → List A → List A
  update_id k f [] = []
  update_id k f (r ∷ rs) = (if eq_ℤ (id_of r) k then f r else r) ∷ update_id k f rs

  -- DELETE … WHERE id = ?
  abbrev pub delete_id : ℤ → List A → List A
  delete_id k rows = filter (λ r. not (eq_ℤ (id_of r) k)) rows

  -- The ids rise strictly from above `lo` to at most `hi`.
  abbrev pub Ascending : ℕ → List A → ℕ → Type 0
  Ascending lo [] hi = lo ≤ hi
  Ascending lo (r ∷ rs) hi = (n : ℕ) × (id_of r ≡ pos n) × (lo < n) × Ascending n rs hi

  abbrev pub IsKeyed : Table A → Type 0
  IsKeyed t = Ascending 0 t.rows t.last_id

  Ascending-weaken :
      (rs : List A) (lo lo' hi : ℕ) → lo' ≤ lo → Ascending lo rs hi → Ascending lo' rs hi
  Ascending-weaken [] lo lo' hi h a = omega arith
  Ascending-weaken (r ∷ rs) lo lo' hi h (n, e, l, a) = (n, e, omega arith, a)

  pub Ascending-append :
      (rs : List A) (r : A) (lo hi : ℕ)
      → Ascending lo rs hi
      → id_of r ≡ pos (suc hi)
      → Ascending lo (rs ++ r ∷ []) (suc hi)
  Ascending-append [] r lo hi a e = (suc hi, e, omega arith, omega arith)
  Ascending-append (x ∷ rs) r lo hi (n, d, l, a) e = (n, d, l, Ascending-append rs r n hi a e)

  pub Ascending-delete :
      (k : ℤ) (rs : List A) (lo hi : ℕ) → Ascending lo rs hi → Ascending lo (delete_id k rs) hi
  Ascending-delete k [] lo hi a = a
  Ascending-delete k (r ∷ rs) lo hi (n, d, l, a) = elim (Bool-cases (eq_ℤ (id_of r) k)) [
    | inl y ↦
        rw y
          (Ascending-weaken (delete_id k rs) n lo hi (omega arith) (Ascending-delete k rs n hi a))
    | inr z ↦ rw z (n, d, l, Ascending-delete k rs n hi a)
  ]

  pub Ascending-update :
      (k : ℤ) (f : A → A)
      → ((r : A) → id_of (f r) ≡ id_of r)
      → (rs : List A) (lo hi : ℕ) → Ascending lo rs hi
      → Ascending lo (update_id k f rs) hi
  Ascending-update k f keep [] lo hi a = a
  Ascending-update k f keep (r ∷ rs) lo hi (n, d, l, a) = elim (Bool-cases (eq_ℤ (id_of r) k)) [
    | inl y ↦ rw y (n, rw (keep r) d, l, Ascending-update k f keep rs n hi a)
    | inr z ↦ rw z (n, d, l, Ascending-update k f keep rs n hi a)
  ]

  -- No row from above `lo` on has an id up to `lo`.
  select-Ascending :
      (k lo hi : ℕ) (rs : List A) → Ascending lo rs hi → k ≤ lo → select_id (pos k) rs ≡ none
  select-Ascending k lo hi [] a h = refl
  select-Ascending k lo hi (r ∷ rs) (n, e, l, a) h =
      rw e (ground (arith, select-Ascending k n hi rs a))

  pub Ascending-le : (rs : List A) (lo hi : ℕ) → Ascending lo rs hi → lo ≤ hi
  Ascending-le [] lo hi a = a
  Ascending-le (r ∷ rs) lo hi (n, e, l, a) = omega (arith, Ascending-le rs n hi a)

  -- The row with the next id is found, and an old id still finds what it found.
  pub select-insert :
      (k : ℤ) (rs : List A) (r : A) (lo hi : ℕ)
      → Ascending lo rs hi
      → id_of r ≡ pos (suc hi)
      → select_id k (rs ++ r ∷ []) ≡ (if eq_ℤ (id_of r) k then some r else select_id k rs)
  select-insert k [] r lo hi a e = refl
  select-insert k (x ∷ rs) r lo hi (n, d, l, a) e = elim (Bool-cases (eq_ℤ (id_of x) k)) [
    | inl y ↦
        rw y
          (ground (arith, (eq_ℤ_iff (id_of x) k).0 y, eq_ℤ_iff (id_of r) k, Ascending-le rs n hi a))
    | inr z ↦ rw z (select-insert k rs r n hi a e)
  ]

  pub select-delete :
      (k j : ℤ) (rs : List A)
      → select_id j (delete_id k rs) ≡ (if eq_ℤ k j then none else select_id j rs)
  select-delete k j [] = ground arith
  select-delete k j (r ∷ rs) =
      ground (arith, select-delete k j rs, eq_ℤ_iff (id_of r) k, eq_ℤ_iff (id_of r) j, eq_ℤ_iff k j)

  pub select-update :
      (k j : ℤ) (f : A → A)
      → ((r : A) → id_of (f r) ≡ id_of r)
      → (rs : List A)
      → select_id j (update_id k f rs) ≡ (
          if eq_ℤ k j
          then elim (select_id j rs) [ none ↦ none | some r ↦ some (f r) ]
          else select_id j rs)
  select-update k j f keep [] = ground arith
  select-update k j f keep (r ∷ rs) = ground (
    arith,
    keep r,
    select-update k j f keep rs,
    eq_ℤ_iff (id_of r) k,
    eq_ℤ_iff (id_of r) j,
    eq_ℤ_iff k j,
  )
