-- ===== src/Store/Operations/Calls.antt =====
-- Each call of the store, whatever its outcome, leaves valid tables valid.
use wafportal.Base.{Text, ℤ, ◌≡◌, Result}
use wafportal.Store.Models.{Time, Site, CustomRule, Event}
use wafportal.Store.Db.{Db, Tables, exec}
use wafportal.Store.Db.Effects.{exec_keeps}
use wafportal.Store.Settings.{set_setting, write_setting}
use wafportal.Store.Sites.{
  create_site, update_site, delete_site, insert_site, update_rows, remove_site,
}
use wafportal.Store.Rules.{
  create_rule, update_rule, delete_rule, insert_rule, change_rule, remove_rule,
}
use wafportal.Store.Events.{insert_event, append_event}
use wafportal.Store.Operations.Invariant.{
  IsValid, Keeps, insert_site-IsValid, update_rows-IsValid, write_setting-IsValid,
  remove_site-IsValid, remove_rule-IsValid, insert_rule-IsValid, change_rule-IsValid,
  append_event-IsValid,
}

abbrev pub KeepsValid : {A : Type 0} → (Db → A × Db) → Type 0
KeepsValid m = (db : Db) → IsValid db.tables → IsValid (m db).1.tables

pub same-KeepsValid :
    {A : Type 0} (m : Db → A × Db) → ((db : Db) → (m db).1.tables ≡ db.tables) → KeepsValid m
same-KeepsValid m same db v = rw (same db) v

pub exec-KeepsValid :
    {A : Type 0} (f : Tables → Result (A × Tables)) → Keeps f → KeepsValid (exec f)
exec-KeepsValid f keeps db v = exec_keeps f IsValid db v (keeps db.tables v)

pub set_setting-KeepsValid : (k x : Text) → KeepsValid (set_setting k x)
unfolding set_setting
set_setting-KeepsValid k x = exec-KeepsValid (write_setting k x) (write_setting-IsValid k x)

pub create_site-KeepsValid : (now : Time) (st : Site) → KeepsValid (create_site now st)
unfolding create_site
create_site-KeepsValid now st =
    let st' = record st { created_at = now; updated_at = now } in
    exec-KeepsValid (insert_site st') (insert_site-IsValid st')

pub update_site-KeepsValid : (now : Time) (st : Site) → KeepsValid (update_site now st)
unfolding update_site
update_site-KeepsValid now st = exec-KeepsValid (update_rows _) (update_rows-IsValid _)

pub delete_site-KeepsValid : (id : ℤ) → KeepsValid (delete_site id)
unfolding delete_site
delete_site-KeepsValid id = exec-KeepsValid (remove_site id) (remove_site-IsValid id)

pub create_rule-KeepsValid : (now : Time) (r : CustomRule) → KeepsValid (create_rule now r)
unfolding create_rule
create_rule-KeepsValid now r =
    let r' = record r { created_at = now; updated_at = now } in
    exec-KeepsValid (insert_rule r') (insert_rule-IsValid r')

pub update_rule-KeepsValid : (now : Time) (r : CustomRule) → KeepsValid (update_rule now r)
unfolding update_rule
update_rule-KeepsValid now r = exec-KeepsValid (change_rule _) (change_rule-IsValid _)

pub delete_rule-KeepsValid : (id : ℤ) → KeepsValid (delete_rule id)
unfolding delete_rule
delete_rule-KeepsValid id = exec-KeepsValid (remove_rule id) (remove_rule-IsValid id)

pub insert_event-KeepsValid : (e : Event) → KeepsValid (insert_event e)
unfolding insert_event
insert_event-KeepsValid e = exec-KeepsValid (append_event e) (append_event-IsValid e)
