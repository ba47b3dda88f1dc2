-- ===== src/Store/Sites/Domains.antt =====
-- No two sites share a domain: what the UNIQUE constraint keeps.
use wafportal.Base.{
  Text, text_eq, text_eq_iff, ℕ, ℤ, pos, eq_ℤ, eq_ℤ_iff, ◌≡◌, ◌≢◌, ◌≤◌, refl, sym, ◌∙◌, inl, inr,
  Bool, false, Bool-cases, not, ◌&&◌, List, [], ◌∷◌, ◌++◌, All, All-filter, any, filter, arith,
}
use wafportal.Store.Models.{Site}
use wafportal.Store.Table.{Ascending, update_id}
use wafportal.Store.Sites.{site_id, has_domain, update_clashes, assign_site}

-- No two rows hold the same domain.
abbrev pub HasDistinctDomains : List Site → Type 0
HasDistinctDomains [] = Unit
HasDistinctDomains (r ∷ rs) = All (λ (x : Site). x.domain ≢ r.domain) rs × HasDistinctDomains rs

pub HasDistinctDomains-append :
    (rs : List Site) (row : Site)
    → has_domain row.domain rs ≡ false
    → HasDistinctDomains rs
    → HasDistinctDomains (rs ++ row ∷ [])
HasDistinctDomains-append [] row h d = (tt, tt)
HasDistinctDomains-append (r ∷ rs) row h (p, d) = (
  lacking rs p (ground (arith, text_eq_iff r.domain row.domain)),
  HasDistinctDomains-append rs row (ground arith) d,
)
  where
    lacking :
        (xs : List Site)
        → All (λ (x : Site). x.domain ≢ r.domain) xs
        → row.domain ≢ r.domain
        → All (λ (x : Site). x.domain ≢ r.domain) (xs ++ row ∷ [])
    lacking [] q n = (n, tt)
    lacking (x ∷ xs) (a, q) n = (a, lacking xs q n)

pub HasDistinctDomains-filter :
    (p : Site → Bool) (rs : List Site) → HasDistinctDomains rs → HasDistinctDomains (filter p rs)
HasDistinctDomains-filter p [] d = tt
HasDistinctDomains-filter p (r ∷ rs) (h, d) = elim (Bool-cases (p r)) [
  | inl y ↦
      rw y (All-filter (λ (x : Site). x.domain ≢ r.domain) p rs h, HasDistinctDomains-filter p rs d)
  | inr n ↦ rw n (HasDistinctDomains-filter p rs d)
]

-- No row behind the key `n` has the key `n`.
absent :
    (n lo hi : ℕ) (rs : List Site)
    → Ascending site_id lo rs hi
    → n ≤ lo
    → any (λ r. eq_ℤ r.id (pos n)) rs ≡ false
absent n lo hi [] a h = refl
absent n lo hi (r ∷ rs) (m, e, l, a) h = rw e (ground (arith, absent n m hi rs a))

-- Without a row of the key an update changes nothing.
update_absent :
    (k : ℤ) (f : Site → Site) (rs : List Site)
    → any (λ r. eq_ℤ r.id k) rs ≡ false
    → update_id site_id k f rs ≡ rs
update_absent k f [] h = refl
update_absent k f (r ∷ rs) h = ground (arith, update_absent k f rs)

abbrev others_have : Site → List Site → Bool
others_have st rs = any (λ r. not (eq_ℤ r.id st.id) && text_eq r.domain st.domain) rs

free_domain :
    (st : Site) (rs : List Site)
    → others_have st rs ≡ false
    → any (λ r. eq_ℤ r.id st.id) rs ≡ false
    → All (λ (x : Site). x.domain ≢ st.domain) rs
free_domain st [] h k = tt
free_domain st (r ∷ rs) h k = (
  ground (arith, text_eq_iff r.domain st.domain),
  free_domain st rs (ground arith) (ground arith),
)

lacks_after_update :
    (st : Site) (d : Text) (rs : List Site)
    → st.domain ≢ d
    → All (λ (x : Site). x.domain ≢ d) rs
    → All (λ (x : Site). x.domain ≢ d) (update_id site_id st.id (assign_site st) rs)
lacks_after_update st d [] n h = tt
lacks_after_update st d (r ∷ rs) n (p, h) = elim (Bool-cases (eq_ℤ r.id st.id)) [
  | inl y ↦ rw y (n, lacks_after_update st d rs n h)
  | inr z ↦ rw z (p, lacks_after_update st d rs n h)
]

update_free :
    (st : Site) (lo hi : ℕ) (rs : List Site)
    → Ascending site_id lo rs hi
    → others_have st rs ≡ false
    → HasDistinctDomains rs
    → HasDistinctDomains (update_id site_id st.id (assign_site st) rs)
update_free st lo hi [] a h d = tt
update_free st lo hi (r ∷ rs) (n, e, l, a) h (p, d) = elim (Bool-cases (eq_ℤ r.id st.id)) [
  | inl y ↦
      let key : st.id ≡ pos n = sym ((eq_ℤ_iff r.id st.id).0 y) ∙ e in
      let gone : any (λ (x : Site). eq_ℤ x.id st.id) rs ≡ false =
        rw key (absent n n hi rs a (omega arith)) in
      rw y (
        rw (update_absent st.id (assign_site st) rs gone)
          (free_domain st rs (ground arith) gone, d))
  | inr z ↦ rw z (
    lacks_after_update st r.domain rs (ground (arith, text_eq_iff r.domain st.domain)) p,
    update_free st n hi rs a (ground arith) d,
  )
]

-- An update that the constraint lets through keeps the domains apart.
pub HasDistinctDomains-update :
    (st : Site) (lo hi : ℕ) (rs : List Site)
    → Ascending site_id lo rs hi
    → update_clashes st rs ≡ false
    → HasDistinctDomains rs
    → HasDistinctDomains (update_id site_id st.id (assign_site st) rs)
HasDistinctDomains-update st lo hi rs a h d =
    elim (Bool-cases (any (λ (r : Site). eq_ℤ r.id st.id) rs)) [
      | inl y ↦ update_free st lo hi rs a (ground arith) d
      | inr n ↦ rw (update_absent st.id (assign_site st) rs n) d
    ]
