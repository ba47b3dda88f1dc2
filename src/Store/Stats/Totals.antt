-- ===== src/Store/Stats/Totals.antt =====
-- What the dashboard's numbers of Stats say about the events of the window.
use wafportal.Base.{
  Selected, filter-Selected, Bool-cases, leb, ltb, not, ◌&&◌, leb_ℤ, pos, negsuc, max_int64, ◌+◌,
  ◌*◌, ◌/◌, ◌^◌, ◌⊎◌, inl, inr, text_eq, text_eq_iff, ℕ, zero, suc, ◌≤◌, ◌<◌, ◌==◌, ==_iff, ℤ, eq_ℤ,
  eq_ℤ_iff, ◌≡◌, ◌≢◌, ◌↔◌, refl, sym, ap, ◌∙◌, Bool, true, filter, length, take, map, sort_by, All,
  Pairwise, All-map, All-map-le, All-sort, Pairwise-map, Pairwise-sort, sort-Pairwise, Pairwise-zip,
  sum_of, sum-sort, sum-map, sum-group_by, sum-size, group_by-Apart, group_by-HoldsAll, HoldsAll,
  Apart, Group, members, size, group_by, List, [], ◌∷◌, ok, arith,
}
use mathlib.Core.Path.{fun_ext}
use wafportal.Store.Models.{Time, Event, RuleCount, ClientCount, TimelinePoint, Stats}
use wafportal.Store.Db.{Db}
use wafportal.Store.Db.Effects.{IsHealthy}
use wafportal.Store.Stats.{
  earlier, from_time, since_rows, ruled, blocked_rows, more_rows, same_rule, same_client, same_hour,
  hour_of, client_count, rule_count, point, earlier_hour, count_events, top_rules, top_clients,
  timeline, stats,
}

-- `all` counts every row once under its key, each key once, the greatest counts first.
pub record IsTally {R K : Type 0} (key : R → K) (count : R → ℕ) (about : R → Event → Bool)
    (rows : List Event) (all : List R) : Type 0 where
  pub exact : All (λ r. count r ≡ length (filter (about r) rows)) all
  pub distinct : Pairwise (λ a b. key a ≢ key b) all
  pub greatest_first : Pairwise (λ a b. count b ≤ count a) all
  pub whole : sum_of count all ≡ length rows

take-map : {A B : Type 0} (f : A → B) (n : ℕ) (xs : List A) → map f (take n xs) ≡ take n (map f xs)
take-map f zero xs = refl
take-map f (suc n) [] = refl
take-map f (suc n) (x ∷ xs) = ap (λ ys. f x ∷ ys) (take-map f n xs)

module _ {R K : Type 0} (key : R → K) (count : R → ℕ) (about : R → Event → Bool)
    (show : Group Event → R) (key_of : Event → K) (same : Event → Event → Bool)
    (decides : (a b : Event) → (same a b ≡ true) ↔ (key_of a ≡ key_of b))
    (keyed : (g : Group Event) → key (show g) ≡ key_of g.0)
    (counted : (g : Group Event) → count (show g) ≡ size g)
    (aimed : (g : Group Event) → about (show g) ≡ (λ e. same e g.0)) where
  tally :
      (rows : List Event)
      → IsTally key count about rows (map show (sort_by more_rows (group_by same rows)))
  tally rows =
      let groups = group_by same rows in
      record {
        exact =
            All-map show (λ r. count r ≡ length (filter (about r) rows)) _
              (All-sort more_rows _ groups (
                All-map-le (HoldsAll key_of same decides rows) _
                  (λ g e.
                    counted g ∙ ap length e ∙ ap (λ p. length (filter p rows)) (sym (aimed g)))
                  groups (group_by-HoldsAll key_of same decides rows)));
        distinct =
            Pairwise-map show (λ a b. key a ≢ key b) _
              (Pairwise-sort (λ g h. key (show g) ≢ key (show h)) (λ g h n e. n (sym e)) more_rows
                groups
                (Pairwise-zip (Apart key_of same decides) (Apart key_of same decides)
                  (λ g h. key (show g) ≢ key (show h))
                  (λ g h n m e. n (sym (keyed g) ∙ e ∙ keyed h)) groups
                  (group_by-Apart key_of same decides rows)
                  (group_by-Apart key_of same decides rows)));
        greatest_first =
            Pairwise-map show (λ a b. count b ≤ count a) _
              (sort-Pairwise (λ g h. count (show h) ≤ count (show g)) more_rows
                (λ g h e. ground (arith, counted g, counted h))
                (λ g h e. ground (arith, counted g, counted h)) (λ a b c h k. omega arith) groups);
        whole =
            sum-map show count (sort_by more_rows groups)
            ∙ sum-sort (λ g. count (show g)) more_rows groups
            ∙ ap (λ f. sum_of f groups) (fun_ext counted)
            ∙ sum-size same rows;
      }

-- The hour that begins at `from`.
abbrev pub in_hour : Time → Event → Bool
in_hour from e = leb from e.timestamp && ltb e.timestamp (from + 3_600_000_000_000)

-- The bucket is a full hour, and the counts are those of its events.
abbrev pub IsExactPoint : List Event → TimelinePoint → Type 0
IsExactPoint rows p =
    ((n : ℕ) × (p.bucket ≡ n * 3_600_000_000_000))
    × (p.total ≡ length (filter (in_hour p.bucket) rows))
    × (p.blocked ≡ length (filter (λ e. e.blocked) (filter (in_hour p.bucket) rows)))

-- The dashboard of the events `rows`.
pub record IsDashboard (rows : List Event) (st : Stats) : Type 0 where
  pub total : st.total_events ≡ length rows
  pub blocked : st.blocked_events ≡ length (filter (λ e. e.blocked) rows)
  pub rules :
      (named : List Event) × Selected (λ e. e.rule_id ≢ pos 0) rows named
      × ((all : List RuleCount) × IsTally
            (λ r. r.rule_id)
            (λ r. r.count)
            (λ r e. eq_ℤ e.rule_id r.rule_id)
            named
            all
          × (st.top_rules ≡ take 10 all))
  pub clients :
      (all : List ClientCount) × IsTally
        (λ r. r.client_ip)
        (λ r. r.count)
        (λ r e. text_eq e.client_ip r.client_ip)
        rows
        all
      × (st.top_clients ≡ take 10 all)
  pub rising : Pairwise (λ a b. a.bucket < b.bucket) st.timeline
  pub hourly : All (IsExactPoint rows) st.timeline
  pub hours_total : sum_of (λ p. p.total) st.timeline ≡ st.total_events
  pub hours_blocked : sum_of (λ p. p.blocked) st.timeline ≡ st.blocked_events

-- Not older than `since`, which is 2^63 in place of -2^63.
abbrev pub InWindow : Time → ℤ → Event → Type 0
InWindow now (pos n) e = now ≤ n + e.timestamp
InWindow now (negsuc m) e =
    ((suc m ≡ 2 ^ 63) × (now ≤ 2 ^ 63 + e.timestamp))
    ⊎ (suc m ≢ 2 ^ 63) × (now + suc m ≤ e.timestamp)

earlier-le : (now n t : ℕ) → (leb_ℤ (earlier now n) (pos t) ≡ true) ↔ (now ≤ n + t)
earlier-le now n t = elim (Bool-cases (leb n now)) [
  | inl y ↦ rw y (λ h. ground arith, λ h. ground arith)
  | inr m ↦ rw m (λ h. ground arith, λ h. refl)
]

from_time-InWindow :
    (now : Time) (since : ℤ) (e : Event)
    → (leb_ℤ (from_time now since) (pos e.timestamp) ≡ true) ↔ InWindow now since e
unfolding from_time
from_time-InWindow now (pos n) e = earlier-le now n e.timestamp
from_time-InWindow now (negsuc m) e = elim (Bool-cases (m == max_int64)) [
  | inl y ↦
      let least = (==_iff m max_int64).0 y in
      rw y (
        λ h.
            inl (
              omega (arith, least),
              omega (arith, least, (earlier-le now (suc m) e.timestamp).0 h),
            ),
        λ h. (earlier-le now (suc m) e.timestamp).1 (ground (arith, least)),
      )
  | inr n ↦ rw n (λ h. inr (λ s. ground arith, ground arith), λ h. ground arith)
]

ruled-Selected : (rows : List Event) → Selected (λ e. e.rule_id ≢ pos 0) rows (ruled rows)
ruled-Selected rows = filter-Selected (λ e. e.rule_id ≢ pos 0) _ named rows
  where
    named : (e : Event) → (not (eq_ℤ e.rule_id (pos 0)) ≡ true) ↔ (e.rule_id ≢ pos 0)
    named e = (
      λ h s. ground (arith, eq_ℤ_iff e.rule_id (pos 0)),
      λ h. ground (arith, h, eq_ℤ_iff e.rule_id (pos 0)),
    )

in_hour-hour_of : (t : Event) → (λ e. hour_of e == hour_of t) ≡ in_hour (hour_of t)
in_hour-hour_of t = fun_ext (λ e. ground arith)

module _ (rows : List Event) where
  abbrev hours : List (Group Event)
  hours = sort_by earlier_hour (group_by same_hour rows)

  decides_hour : (a b : Event) → (same_hour a b ≡ true) ↔ (hour_of a ≡ hour_of b)
  decides_hour a b = ==_iff (hour_of a) (hour_of b)

  hours-rising : Pairwise (λ a b. a.bucket < b.bucket) (map point hours)
  hours-rising =
      Pairwise-map point (λ a b. a.bucket < b.bucket) hours
        (Pairwise-zip (λ g h. hour_of g.0 ≤ hour_of h.0) (λ g h. hour_of g.0 ≢ hour_of h.0)
          (λ g h. hour_of g.0 < hour_of h.0) (λ g h le ne. ground (arith, ne)) hours
          (sort-Pairwise (λ g h. hour_of g.0 ≤ hour_of h.0) earlier_hour (λ a b h. ground arith)
            (λ a b h. ground arith) (λ a b c h k. omega arith) (group_by same_hour rows))
          (Pairwise-sort (λ g h. hour_of g.0 ≢ hour_of h.0) (λ g h n e. n (sym e)) earlier_hour
            (group_by same_hour rows) (group_by-Apart hour_of same_hour decides_hour rows)))

  hours-hourly : All (IsExactPoint rows) (map point hours)
  hours-hourly = All-map point (IsExactPoint rows) hours (
      All-sort earlier_hour _ (group_by same_hour rows) (
        All-map-le (HoldsAll hour_of same_hour decides_hour rows) _
          (λ g e.
            let hourly = e ∙ ap (λ p. filter p rows) (in_hour-hour_of g.0) in
            (
              (g.0.timestamp / 3_600_000_000_000, refl),
              ap length hourly,
              ap (λ es. length (blocked_rows es)) hourly,
            ))
          (group_by same_hour rows) (group_by-HoldsAll hour_of same_hour decides_hour rows)))

  hours-total : sum_of (λ p. p.total) (map point hours) ≡ length rows
  hours-total =
      sum-map point (λ p. p.total) hours
      ∙ sum-sort size earlier_hour (group_by same_hour rows)
      ∙ sum-size same_hour rows

  hours-blocked : sum_of (λ p. p.blocked) (map point hours) ≡ length (blocked_rows rows)
  hours-blocked =
      sum-map point (λ p. p.blocked) hours
      ∙ sum-sort (λ g. length (blocked_rows (members g))) earlier_hour (group_by same_hour rows)
      ∙ sum-group_by same_hour (λ e. e.blocked) rows

module _ (bare : Group Event → Event) (now : Time) (since : ℤ) (db : Db) where
  -- While the database works, Stats counts exactly the stored events of the window and the blocked
  -- ones among them; its top rules and top clients are the ten greatest of exact counts, each key once,
  -- that cover all of them (of the rules, those whose rule id is not 0); and its timeline has one point
  -- for each hour with an event, the hours rising, whose exact counts add up to the totals.
  pub stats_lem :
      IsHealthy db
      → (st : Stats) × ((stats bare now since db).0 ≡ ok st)
        × ((rows : List Event) × Selected (InWindow now since) db.tables.events.rows rows
            × IsDashboard rows st)
  unfolding stats count_events top_rules top_clients timeline
  stats_lem healthy =
      let rows = since_rows (from_time now since) db.tables in
      (
        _,
        rw healthy refl,
        (
          rows,
          filter-Selected (InWindow now since) _ (from_time-InWindow now since)
              db.tables.events.rows,
          record {
            total = refl;
            blocked = refl;
            rules = (
              ruled rows,
              ruled-Selected rows,
              (
                _,
                tally (λ r. r.rule_id) (λ r. r.count) (λ r e. eq_ℤ e.rule_id r.rule_id)
                    (rule_count bare) (λ e. e.rule_id) same_rule
                    (λ a b. eq_ℤ_iff a.rule_id b.rule_id) (λ g. refl) (λ g. refl) (λ g. refl)
                    (ruled rows),
                take-map (rule_count bare) 10 _,
              ),
            );
            clients = (
              _,
              tally (λ r. r.client_ip) (λ r. r.count) (λ r e. text_eq e.client_ip r.client_ip)
                  client_count (λ e. e.client_ip) same_client
                  (λ a b. text_eq_iff a.client_ip b.client_ip) (λ g. refl) (λ g. refl) (λ g. refl)
                  rows,
              take-map client_count 10 _,
            );
            rising = hours-rising rows;
            hourly = hours-hourly rows;
            hours_total = hours-total rows;
            hours_blocked = hours-blocked rows;
          },
        ),
      )
