-- ===== src/Store/Operations/Reads.antt =====
-- The calls of the store that only read leave valid tables valid.
use wafportal.Base.{Text, ℤ, ◌≡◌, sym, Option, none, some, Result, ok, err, continue, ◌>>=◌}
use wafportal.Store.Models.{Time, Event}
use wafportal.Store.Db.{Db, Tables, Call, query}
use wafportal.Store.Db.Effects.{query-tables, ok-parts}
use wafportal.Store.Table.{select_id}
use wafportal.Store.Sites.{list_sites, get_site, site_id, no_rows}
use wafportal.Store.Settings.{get_setting}
use wafportal.Store.Rules.{list_rules, get_rule, rule_id}
use wafportal.Store.Events.{list_events, EventFilter}
use wafportal.Store.Stats.{stats, count_events, top_rules, top_clients, timeline, from_time}
use wafportal.Store.Operations.Invariant.{IsValid}
use wafportal.Store.Operations.Calls.{KeepsValid, same-KeepsValid, exec-KeepsValid}
use wafportal.Base.{Text, Group}

pub query-KeepsValid : {A : Type 0} (f : Tables → A) → KeepsValid (query f)
query-KeepsValid f = same-KeepsValid (query f) (query-tables f)

-- A row that was looked for, or the error: the tables stay.
row_keeps :
    {A : Type 0} (o : Option A) (t t' : Tables) (a : A)
    → IsValid t
    → (elim o as (λ _. Result (A × Tables)) [ none ↦ err no_rows | some r ↦ ok (r, t) ])
      ≡ ok (a, t')
    → IsValid t'
row_keeps none t t' a v h = cc h
row_keeps (some r) t t' a v h = rw (sym ((ok-parts h).1)) v

pub get_site-KeepsValid : (id : ℤ) → KeepsValid (get_site id)
unfolding get_site
get_site-KeepsValid id =
    exec-KeepsValid _ (λ t v a t'. row_keeps (select_id site_id id t.sites.rows) t t' a v)

pub get_rule-KeepsValid : (id : ℤ) → KeepsValid (get_rule id)
unfolding get_rule
get_rule-KeepsValid id =
    exec-KeepsValid _ (λ t v a t'. row_keeps (select_id rule_id id t.rules.rows) t t' a v)

pub get_setting-KeepsValid : (key : Text) → KeepsValid (get_setting key)
unfolding get_setting
get_setting-KeepsValid key = query-KeepsValid _

pub list_sites-KeepsValid : KeepsValid list_sites
unfolding list_sites
list_sites-KeepsValid = query-KeepsValid _

pub list_rules-KeepsValid : KeepsValid list_rules
unfolding list_rules
list_rules-KeepsValid = query-KeepsValid _

pub list_events-KeepsValid : (f : EventFilter) → KeepsValid (list_events f)
unfolding list_events
list_events-KeepsValid f = query-KeepsValid _

module _ {A B : Type 0} where
  continue-Valid :
      (r : Result A × Db) (f : A → Call B)
      → ((a : A) → KeepsValid (f a))
      → IsValid r.1.tables
      → IsValid (continue r f).1.tables
  continue-Valid (ok a, db) f k v = k a db v
  continue-Valid (err e, db) f k v = v

  pub bind-KeepsValid :
      (m : Call A) (f : A → Call B)
      → KeepsValid m
      → ((a : A) → KeepsValid (f a))
      → KeepsValid (m >>= f)
  bind-KeepsValid m f km kf db v = continue-Valid (m db) f kf (km db v)

module _ (from : ℤ) where
  pub count_events-KeepsValid : KeepsValid (count_events from)
  unfolding count_events
  count_events-KeepsValid = query-KeepsValid _

  pub top_clients-KeepsValid : KeepsValid (top_clients from)
  unfolding top_clients
  top_clients-KeepsValid = query-KeepsValid _

  pub timeline-KeepsValid : KeepsValid (timeline from)
  unfolding timeline
  timeline-KeepsValid = query-KeepsValid _

  pub top_rules-KeepsValid : (bare : Group Event → Event) → KeepsValid (top_rules bare from)
  unfolding top_rules
  top_rules-KeepsValid bare = query-KeepsValid _

pub stats-KeepsValid :
    (bare : Group Event → Event) (now : Time) (since : ℤ) → KeepsValid (stats bare now since)
unfolding stats
stats-KeepsValid bare now since =
    let from = from_time now since in
    bind-KeepsValid (count_events from) _ (count_events-KeepsValid from) λ counts.
      bind-KeepsValid (top_rules bare from) _ (top_rules-KeepsValid from bare) λ rules.
        bind-KeepsValid (top_clients from) _ (top_clients-KeepsValid from)
          λ clients. bind-KeepsValid (timeline from) _ (timeline-KeepsValid from) λ points db v. v
