-- ===== src/Store/Db.antt =====
-- The SQLite database behind internal/store: the tables of the schema in `migrate`, and the driver,
-- whose failures are the environment's. `faults` tells how the coming statements end: `none` is a
-- success, `some e` an error that leaves the tables as they are. When it is empty, all succeed.
pub mod Effects
use wafportal.Base.{
  Text, Option, none, some, List, [], ◌∷◌, Result, ok, err, Error, Exec, ◌>>=◌, ◌>>◌, Assoc, arith,
}
use wafportal.Store.Models.{Site, CustomRule, Event}
use wafportal.Store.Table.{Table, empty_table}

pub record Tables : Type 0 where
  pub sites : Table Site
  pub rules : Table CustomRule
  pub events : Table Event
  pub settings : Assoc Text

pub record Db : Type 0 where
  pub tables : Tables
  pub faults : List (Option Error)

abbrev pub Call : Type 0 → Type 0
Call A = Exec Db A

-- What `migrate` makes of an empty file.
abbrev pub empty_tables : Tables
empty_tables = record {
  sites = empty_table;
  rules = empty_table;
  events = empty_table;
  settings = [];
}

abbrev pub outcome : List (Option Error) → Result (Unit {0})
outcome [] = ok tt
outcome (none ∷ fs) = ok tt
outcome (some e ∷ fs) = err e

abbrev pub later : List (Option Error) → List (Option Error)
later [] = []
later (f ∷ fs) = fs

-- One statement handed to the driver.
abbrev pub driver : Call (Unit {0})
driver db = (outcome db.faults, record db { faults = later db.faults })

-- A statement that reads.
abbrev pub query : {A : Type 0} → (Tables → A) → Call A
query f = driver >> λ db. (ok (f db.tables), db)

abbrev pub commit : {A : Type 0} → Db → Result (A × Tables) → Result A × Db
commit db (ok (a, t)) = (ok a, record db { tables = t })
commit db (err e) = (err e, db)

-- A statement that writes, or breaks a constraint and writes nothing.
abbrev pub exec : {A : Type 0} → (Tables → Result (A × Tables)) → Call A
exec f = driver >> λ db. commit db (f db.tables)
