-- ===== src/Store/Operations/Invariant.antt =====
-- What holds of the tables after any operations: the keys rise, and no two sites share a domain.
use wafportal.Base.{
  Text, suc, ℤ, pos, ◌≡◌, refl, inl, inr, Bool-cases, List, [], ◌∷◌, Result, ok, err,
}
use wafportal.Store.Models.{Site, CustomRule, Event}
use wafportal.Store.Table.{IsKeyed, Ascending-append, Ascending-delete, Ascending-update}
use wafportal.Store.Db.{Tables, Db, exec}
use wafportal.Store.Db.Effects.{exec_keeps}
use wafportal.Store.Settings.{set_setting, write_setting}
use wafportal.Store.Sites.Domains.{
  HasDistinctDomains, HasDistinctDomains-append, HasDistinctDomains-filter,
  HasDistinctDomains-update,
}
use wafportal.Store.Sites.{
  site_id, has_domain, insert_site, update_rows, update_clashes, assign_site, create_site,
  update_site, delete_site, remove_site,
}
use wafportal.Store.Rules.{
  rule_id, insert_rule, assign_rule, create_rule, update_rule, delete_rule, change_rule,
  remove_rule,
}
use wafportal.Store.Events.{insert_event, append_event}
use wafportal.Store.Operations.{
  Operation, setting, new_site, changed_site, no_site, no_rule, new_rule, changed_rule, new_event,
  error_of, perform, perform_all,
}

abbrev pub event_id : Event → ℤ
event_id e = e.id

pub record IsValid (t : Tables) : Type 0 where
  pub sites_keyed : IsKeyed site_id t.sites
  pub rules_keyed : IsKeyed rule_id t.rules
  pub events_keyed : IsKeyed event_id t.events
  pub domains_distinct : HasDistinctDomains t.sites.rows

ok-injective :
    {A : Type 0} {a b : A} {t t' : Tables}
    → ◌≡◌ {A = Result (A × Tables)} (ok (a, t)) (ok (b, t'))
    → t ≡ t'
ok-injective h = cc

-- The tables of a statement that succeeds.
tables_of :
    {A : Type 0} (P : Tables → Type 0) {a b : A} {t t' : Tables}
    → ◌≡◌ {A = Result (A × Tables)} (ok (a, t)) (ok (b, t'))
    → P t
    → P t'
tables_of P h p = rw (← ok-injective h) p

-- What a statement writes on valid tables is valid.
abbrev pub Keeps : {A : Type 0} → (Tables → Result (A × Tables)) → Type 0
Keeps {A} f = (t : Tables) → IsValid t → (a : A) (t' : Tables) → f t ≡ ok (a, t') → IsValid t'

pub insert_site-IsValid : (st : Site) → Keeps (insert_site st)
insert_site-IsValid st t v a t' h = elim (Bool-cases (has_domain st.domain t.sites.rows)) [
  | inl taken ↦ cc (rw taken at h)
  | inr free ↦ tables_of IsValid (rw free at h) (record {
    sites_keyed = Ascending-append site_id t.sites.rows _ 0 t.sites.last_id v.sites_keyed refl;
    rules_keyed = v.rules_keyed;
    events_keyed = v.events_keyed;
    domains_distinct =
        HasDistinctDomains-append t.sites.rows (record st { id = pos (suc t.sites.last_id) }) free
          v.domains_distinct;
  })
]

pub update_rows-IsValid : (st : Site) → Keeps (update_rows st)
update_rows-IsValid st t v a t' h = elim (Bool-cases (update_clashes st t.sites.rows)) [
  | inl clash ↦ cc (rw clash at h)
  | inr free ↦ tables_of IsValid (rw free at h) (record {
    sites_keyed =
        Ascending-update site_id st.id (assign_site st) (λ r. refl) t.sites.rows 0 t.sites.last_id
          v.sites_keyed;
    rules_keyed = v.rules_keyed;
    events_keyed = v.events_keyed;
    domains_distinct =
        HasDistinctDomains-update st 0 t.sites.last_id t.sites.rows v.sites_keyed free
          v.domains_distinct;
  })
]

pub write_setting-IsValid : (k x : Text) → Keeps (write_setting k x)
write_setting-IsValid k x t v a t' h = tables_of IsValid h (record {
  sites_keyed = v.sites_keyed;
  rules_keyed = v.rules_keyed;
  events_keyed = v.events_keyed;
  domains_distinct = v.domains_distinct;
})

pub remove_site-IsValid : (id : ℤ) → Keeps (remove_site id)
remove_site-IsValid id t v a t' h = tables_of IsValid h (record {
  sites_keyed = Ascending-delete site_id id t.sites.rows 0 t.sites.last_id v.sites_keyed;
  rules_keyed = v.rules_keyed;
  events_keyed = v.events_keyed;
  domains_distinct = HasDistinctDomains-filter _ t.sites.rows v.domains_distinct;
})

pub remove_rule-IsValid : (id : ℤ) → Keeps (remove_rule id)
remove_rule-IsValid id t v a t' h = tables_of IsValid h (record {
  sites_keyed = v.sites_keyed;
  rules_keyed = Ascending-delete rule_id id t.rules.rows 0 t.rules.last_id v.rules_keyed;
  events_keyed = v.events_keyed;
  domains_distinct = v.domains_distinct;
})

pub insert_rule-IsValid : (r : CustomRule) → Keeps (insert_rule r)
insert_rule-IsValid r t v a t' h = tables_of IsValid h (record {
  sites_keyed = v.sites_keyed;
  rules_keyed =
      Ascending-append rule_id t.rules.rows (record r { id = pos (suc t.rules.last_id) }) 0
        t.rules.last_id v.rules_keyed refl;
  events_keyed = v.events_keyed;
  domains_distinct = v.domains_distinct;
})

pub change_rule-IsValid : (r : CustomRule) → Keeps (change_rule r)
change_rule-IsValid r t v a t' h = tables_of IsValid h (record {
  sites_keyed = v.sites_keyed;
  rules_keyed =
      Ascending-update rule_id r.id (assign_rule r) (λ x. refl) t.rules.rows 0 t.rules.last_id
        v.rules_keyed;
  events_keyed = v.events_keyed;
  domains_distinct = v.domains_distinct;
})

pub append_event-IsValid : (e : Event) → Keeps (append_event e)
append_event-IsValid e t v a t' h = tables_of IsValid h (record {
  sites_keyed = v.sites_keyed;
  rules_keyed = v.rules_keyed;
  events_keyed =
      Ascending-append event_id t.events.rows (record e { id = pos (suc t.events.last_id) }) 0
        t.events.last_id v.events_keyed refl;
  domains_distinct = v.domains_distinct;
})

IsValid-error_of :
    {A : Type 0} (r : Result A × Db) → IsValid r.1.tables → IsValid (error_of r).1.tables
IsValid-error_of (ok a, db) v = v
IsValid-error_of (err e, db) v = v

exec-IsValid :
    {A : Type 0} (f : Tables → Result (A × Tables))
    → Keeps f
    → (db : Db) → IsValid db.tables
    → IsValid (error_of (exec f db)).1.tables
exec-IsValid f keeps db v =
    IsValid-error_of (exec f db) (exec_keeps f IsValid db v (keeps db.tables v))

perform-IsValid : (op : Operation) (db : Db) → IsValid db.tables → IsValid (perform op db).1.tables
unfolding perform set_setting create_site update_site delete_site create_rule update_rule
    delete_rule insert_event
perform-IsValid (setting k x) db v =
    exec-IsValid (write_setting k x) (write_setting-IsValid k x) db v
perform-IsValid (new_site now st) db v =
    let st' = record st { created_at = now; updated_at = now } in
    exec-IsValid (insert_site st') (insert_site-IsValid st') db v
perform-IsValid (changed_site now st) db v =
    let st' = record st { updated_at = now } in
    exec-IsValid (update_rows st') (update_rows-IsValid st') db v
perform-IsValid (no_site id) db v = exec-IsValid (remove_site id) (remove_site-IsValid id) db v
perform-IsValid (no_rule id) db v = exec-IsValid (remove_rule id) (remove_rule-IsValid id) db v
perform-IsValid (new_rule now r) db v =
    let r' = record r { created_at = now; updated_at = now } in
    exec-IsValid (insert_rule r') (insert_rule-IsValid r') db v
perform-IsValid (changed_rule now r) db v =
    let r' = record r { updated_at = now } in
    exec-IsValid (change_rule r') (change_rule-IsValid r') db v
perform-IsValid (new_event e) db v = exec-IsValid (append_event e) (append_event-IsValid e) db v

-- Whatever operations ran, and whichever of them failed, the ids of each table rise strictly up to
-- its counter and no two sites share a domain, if that was so before.
pub perform_all-IsValid :
    (ops : List Operation) (db : Db) → IsValid db.tables → IsValid (perform_all ops db).tables
unfolding perform_all
perform_all-IsValid [] db v = v
perform_all-IsValid (op ∷ ops) db v =
    perform_all-IsValid ops (perform op db).1 (perform-IsValid op db v)
