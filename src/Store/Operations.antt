-- ===== src/Store/Operations.antt =====
-- The writing operations of internal/store/store.go as values, and what each does to the tables.
pub mod Invariant
pub mod Failure
pub mod Calls
pub mod Reads
use wafportal.Base.{Text, ℤ, Option, none, some, Result, ok, err, Error, List, [], ◌∷◌}
use wafportal.Store.Models.{Time, Site, CustomRule, Event}
use wafportal.Store.Db.{Tables, Db}
use wafportal.Store.Settings.{set_setting}
use wafportal.Store.Sites.{create_site, update_site, delete_site}
use wafportal.Store.Rules.{create_rule, update_rule, delete_rule}
use wafportal.Store.Events.{insert_event}

pub data Operation : Type 0 where
  setting : Text → Text → Operation
  new_site changed_site : Time → Site → Operation
  no_site no_rule : ℤ → Operation
  new_rule changed_rule : Time → CustomRule → Operation
  new_event : Event → Operation

abbrev pub error_of : {A : Type 0} → Result A × Db → Option Error × Db
error_of (ok a, db) = (none, db)
error_of (err e, db) = (some e, db)

-- The operation's error, and the database after it.
unfoldable pub perform : Operation → Db → Option Error × Db
perform (setting k v) db = error_of (set_setting k v db)
perform (new_site now st) db = error_of (create_site now st db)
perform (changed_site now st) db = error_of (update_site now st db)
perform (no_site id) db = error_of (delete_site id db)
perform (new_rule now r) db = error_of (create_rule now r db)
perform (changed_rule now r) db = error_of (update_rule now r db)
perform (no_rule id) db = error_of (delete_rule id db)
perform (new_event e) db = error_of (insert_event e db)

pub perform_all : List Operation → Db → Db
perform_all [] db = db
perform_all (op ∷ ops) db = perform_all ops (perform op db).1
