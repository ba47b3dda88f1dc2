-- ===== src/Store/Events/Page.antt =====
-- What a page of the event log holds.
use wafportal.Base.{
  Text, text_eq, text_eq_iff, is_empty, ℕ, ℤ, pos, negsuc, ◌≤◌, ◌<◌, to_nat, ◌≡◌, ◌↔◌, refl, inl,
  inr, Bool, true, false, ◌&&◌, if◌then◌else◌, Bool-cases, filter, Selected, filter-Selected, take,
  drop, length, length-take, sort_by, sort_by-perm, Pairwise, sort-Pairwise, ◌⊎◌, List, [], ◌∷◌, ok,
  arith,
}
use mathlib.Core.List.{Perm}
use native.Mathlib.Nat.{le_trans}
use wafportal.Store.Models.{Event}
use wafportal.Store.Db.{Db}
use wafportal.Store.Db.Effects.{query-ok}
use wafportal.Store.Events.{EventFilter, selects, page_limit, page, newest_first, list_events}

-- Each is at least as new as all that follow it.
abbrev pub IsNewestFirst : List Event → Type 0
IsNewestFirst es = Pairwise (λ a b. b.timestamp ≤ a.timestamp) es

sort-IsNewestFirst : (es : List Event) → IsNewestFirst (sort_by newest_first es)
sort-IsNewestFirst es =
    sort-Pairwise (λ a b. b.timestamp ≤ a.timestamp) newest_first (λ a b h. ground arith)
      (λ a b h. ground arith) (λ a b c h k. omega arith) es

-- What a caller of the filter asks for.
abbrev pub Wanted : EventFilter → Event → Type 0
Wanted f e =
    ((f.domain ≡ []) ⊎ (e.domain ≡ f.domain)) × ((f.blocked_only ≡ false) ⊎ (e.blocked ≡ true))

empty_or_not : (s : Text) → (s ≡ []) ⊎ (is_empty s ≡ false)
empty_or_not [] = inl refl
empty_or_not (c ∷ s) = inr refl

selects-Wanted : (f : EventFilter) (e : Event) → (selects f e ≡ true) ↔ Wanted f e
selects-Wanted f e = (
  λ h. (
    elim (empty_or_not f.domain) [
      | inl any_domain ↦ inl any_domain
      | inr given ↦ inr (ground (arith, given, text_eq_iff e.domain f.domain))
    ],
    elim (Bool-cases f.blocked_only) [ inl only ↦ inr (ground (arith, only)) | inr all ↦ inl all ],
  ),
  λ (domain, blocked). and-true (domain_selects domain) (blocked_selects blocked),
)
  where
    and-true : {a b : Bool} → a ≡ true → b ≡ true → (a && b) ≡ true
    and-true h k = rw (h, k) refl

    domain_selects :
        (f.domain ≡ []) ⊎ (e.domain ≡ f.domain)
        → (if is_empty f.domain then true else text_eq e.domain f.domain) ≡ true
    domain_selects (inl any_domain) = rw any_domain refl
    domain_selects (inr same) = elim (Bool-cases (is_empty f.domain)) [
      | inl y ↦ rw y refl
      | inr n ↦ rw n ((text_eq_iff e.domain f.domain).1 same)
    ]

    blocked_selects :
        (f.blocked_only ≡ false) ⊎ (e.blocked ≡ true)
        → (if f.blocked_only then e.blocked else true) ≡ true
    blocked_selects (inl all) = rw all refl
    blocked_selects (inr blocked) = rw blocked (ground arith)

-- The number of events that a page holds at most: the limit asked for where that is from 1 to 1000,
-- and 100 otherwise.
abbrev pub IsPageSize : ℤ → ℕ → Type 0
IsPageSize (pos l) size =
    ((1 ≤ l) × (l ≤ 1000) × (size ≡ l)) ⊎ ((l ≡ 0) ⊎ (1000 < l)) × (size ≡ 100)
IsPageSize (negsuc l) size = size ≡ 100

page_limit-IsPageSize :
    (f : EventFilter) (limit : ℤ) → f.limit ≡ limit → IsPageSize limit (to_nat (page_limit f))
page_limit-IsPageSize f (pos l) e = rw e (ground arith)
page_limit-IsPageSize f (negsuc l) e = rw e refl

IsPageSize-le : (limit : ℤ) (size : ℕ) → IsPageSize limit size → size ≤ 1000
IsPageSize-le (pos l) size h = ground arith
IsPageSize-le (negsuc l) size h = omega arith

-- `log` holds the wanted rows, each as often as it is stored, the newest first.
abbrev pub IsLog : EventFilter → List Event → List Event → Type 0
IsLog f rows log =
    ((wanted : List Event) × Selected (Wanted f) rows wanted × Perm log wanted) × IsNewestFirst log

-- Of the events that are stored, all those that the filter wants and no others, sorted with the
-- newest first, a page is the slice that the offset and the limit name; a limit outside 1 to 1000
-- counts as 100.
pub list_events_lem :
    (f : EventFilter) (db : Db) (es : List Event)
    → (list_events f db).0 ≡ ok es
    → (log : List Event) × IsLog f db.tables.events.rows log
      × ((size : ℕ) × IsPageSize f.limit size × (es ≡ take size (drop (to_nat f.offset) log)))
      × (length es ≤ 1000)
unfolding list_events
list_events_lem f db es h =
    let rows = filter (selects f) db.tables.events.rows in
    let sized = page_limit-IsPageSize f f.limit refl in
    rw (query-ok (λ t. page f t.events.rows) db es h) (
      sort_by newest_first rows,
      (
        (
          rows,
          filter-Selected (Wanted f) (selects f) (selects-Wanted f) db.tables.events.rows,
          sort_by-perm newest_first rows,
        ),
        sort-IsNewestFirst rows,
      ),
      (to_nat (page_limit f), sized, refl),
      le_trans (length-take (to_nat (page_limit f)) _) (IsPageSize-le f.limit _ sized),
    )
