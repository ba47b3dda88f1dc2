-- ===== src/RateLimit/Keys.antt =====
-- Deleting the entries of a map by a test, under distinct keys.
use wafportal.Base.{
  Text, text_eq, text_eq_iff, ◌≡◌, refl, ◌≢◌, Bool, Bool-cases, inl, inr, Option, none, some, [],
  ◌∷◌, Assoc, get, put, if◌then◌else◌, All, arith,
}

module _ {V : Type 0} where
  -- for key, v := range m { if !test(v) { delete(m, key) } }
  unfoldable pub keep : (V → Bool) → Assoc V → Assoc V
  keep test [] = []
  keep test ((k, v) ∷ m) = let rest = keep test m in if test v then (k, v) ∷ rest else rest

  abbrev pub Lacks : Text → Assoc V → Type 0
  Lacks k m = All (λ e. e.0 ≢ k) m

  abbrev pub HasDistinctKeys : Assoc V → Type 0
  HasDistinctKeys [] = Unit
  HasDistinctKeys ((k, v) ∷ m) = Lacks k m × HasDistinctKeys m

  get-Lacks : (k : Text) (m : Assoc V) → Lacks k m → get k m ≡ none
  unfolding get
  get-Lacks k [] h = refl
  get-Lacks k ((j, v) ∷ m) (p, h) = ground (arith, text_eq_iff j k, get-Lacks k m h)

  Lacks-put : (k j : Text) (v : V) (m : Assoc V) → Lacks j m → k ≢ j → Lacks j (put k v m)
  unfolding put
  Lacks-put k j v [] h n = (n, tt)
  Lacks-put k j v ((i, w) ∷ m) (p, h) n = elim (Bool-cases (text_eq i k)) [
    | inl y ↦ rw y (n, h)
    | inr z ↦ rw z (p, Lacks-put k j v m h n)
  ]

  pub put-HasDistinctKeys :
      (k : Text) (v : V) (m : Assoc V) → HasDistinctKeys m → HasDistinctKeys (put k v m)
  unfolding put
  put-HasDistinctKeys k v [] h = (tt, tt)
  put-HasDistinctKeys k v ((i, w) ∷ m) (p, h) = elim (Bool-cases (text_eq i k)) [
    | inl y ↦ rw y (let e : i ≡ k = (text_eq_iff i k).0 y in (rw (← e) p, h))
    | inr z ↦
        rw z
          (Lacks-put k i v m p (λ e. ground (arith, text_eq_iff i k)), put-HasDistinctKeys k v m h)
  ]

  Lacks-keep : (test : V → Bool) (k : Text) (m : Assoc V) → Lacks k m → Lacks k (keep test m)
  unfolding keep
  Lacks-keep test k [] h = tt
  Lacks-keep test k ((j, v) ∷ m) (p, h) = elim (Bool-cases (test v)) [
    | inl y ↦ rw y (p, Lacks-keep test k m h)
    | inr z ↦ rw z (Lacks-keep test k m h)
  ]

  pub keep-HasDistinctKeys :
      (test : V → Bool) (m : Assoc V) → HasDistinctKeys m → HasDistinctKeys (keep test m)
  unfolding keep
  keep-HasDistinctKeys test [] h = tt
  keep-HasDistinctKeys test ((k, v) ∷ m) (p, h) = elim (Bool-cases (test v)) [
    | inl y ↦ rw y (Lacks-keep test k m p, keep-HasDistinctKeys test m h)
    | inr z ↦ rw z (keep-HasDistinctKeys test m h)
  ]

  abbrev pub if_kept : (V → Bool) → Option V → Option V
  if_kept test none = none
  if_kept test (some v) = if test v then some v else none

  pub get-keep :
      (test : V → Bool) (k : Text) (m : Assoc V)
      → HasDistinctKeys m
      → get k (keep test m) ≡ if_kept test (get k m)
  unfolding get keep
  get-keep test k [] h = refl
  get-keep test k ((j, v) ∷ m) (p, h) = elim (Bool-cases (text_eq j k)) [
    | inl y ↦ rw y (
        ground (
          arith,
          y,
          get-Lacks k (keep test m) (Lacks-keep test k m (rw (← (text_eq_iff j k).0 y) p)),
        ))
    | inr z ↦ rw z (ground (arith, z, get-keep test k m h))
  ]
