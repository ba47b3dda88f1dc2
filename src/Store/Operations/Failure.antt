-- ===== src/Store/Operations/Failure.antt =====
-- An operation that reports an error has written nothing.
use wafportal.Base.{◌≡◌, refl, some, Result, ok, err, Error}
use wafportal.Store.Db.{Tables, Db, exec}
use wafportal.Store.Db.Effects.{exec-err}
use wafportal.Store.Settings.{set_setting, write_setting}
use wafportal.Store.Sites.{
  create_site, update_site, delete_site, insert_site, update_rows, remove_site,
}
use wafportal.Store.Rules.{
  create_rule, update_rule, delete_rule, insert_rule, change_rule, remove_rule,
}
use wafportal.Store.Events.{insert_event, append_event}
use wafportal.Store.Operations.{
  Operation, setting, new_site, changed_site, no_site, no_rule, new_rule, changed_rule, new_event,
  error_of, perform,
}

from_error :
    {A : Type 0} (r : Result A × Db) (t : Tables) (e : Error)
    → ((d : Error) → r.0 ≡ err d → r.1.tables ≡ t)
    → (error_of r).0 ≡ some e
    → (error_of r).1.tables ≡ t
from_error (ok a, db) t e h k = cc
from_error (err d, db) t e h k = h d refl

failed :
    {A : Type 0} (f : Tables → Result (A × Tables)) (db : Db) (e : Error)
    → (error_of (exec f db)).0 ≡ some e
    → (error_of (exec f db)).1.tables ≡ db.tables
failed f db e h = from_error (exec f db) db.tables e (exec-err f db) h

-- An operation that reports an error, the driver's or a broken constraint, leaves every table as it
-- was.
pub perform-err :
    (op : Operation) (db : Db) (e : Error)
    → (perform op db).0 ≡ some e
    → (perform op db).1.tables ≡ db.tables
unfolding perform set_setting create_site update_site delete_site create_rule update_rule
    delete_rule insert_event
perform-err (setting k x) db e h = failed (write_setting k x) db e h
perform-err (new_site now st) db e h =
    failed (insert_site (record st { created_at = now; updated_at = now })) db e h
perform-err (changed_site now st) db e h =
    failed (update_rows (record st { updated_at = now })) db e h
perform-err (no_site id) db e h = failed (remove_site id) db e h
perform-err (no_rule id) db e h = failed (remove_rule id) db e h
perform-err (new_rule now r) db e h =
    failed (insert_rule (record r { created_at = now; updated_at = now })) db e h
perform-err (changed_rule now r) db e h =
    failed (change_rule (record r { updated_at = now })) db e h
perform-err (new_event ev) db e h = failed (append_event ev) db e h
