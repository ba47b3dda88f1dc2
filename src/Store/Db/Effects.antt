-- ===== src/Store/Db/Effects.antt =====
-- How a statement ends: what holds of its result and of the tables after it.
use wafportal.Base.{◌≡◌, refl, [], Result, ok, err, Error, continue, arith}
use wafportal.Store.Db.{Tables, Db, outcome, later, query, exec, commit}

-- No statement fails.
abbrev pub IsHealthy : Db → Type 0
IsHealthy db = db.faults ≡ []

abbrev after :
    {A : Type 0} → Result (Unit {0}) → Db → (Tables → Result (A × Tables)) → Result A × Db
after r db f = continue (r, db) (λ _ d. commit d (f d.tables))

module _ {A : Type 0} (f : Tables → Result (A × Tables)) where
  after_keeps :
      (P : Tables → Type 0) (r : Result (Unit {0})) (db : Db) (x : Result (A × Tables))
      → f db.tables ≡ x
      → P db.tables
      → ((a : A) (t : Tables) → f db.tables ≡ ok (a, t) → P t)
      → P (after r db f).1.tables
  after_keeps P (err e) db x eq h k = h
  after_keeps P (ok _) db (err e) eq h k = rw eq h
  after_keeps P (ok _) db (ok (a, t)) eq h k = rw eq (k a t eq)

  -- What holds before, and after the statement's own writes, holds after it.
  pub exec_keeps :
      (P : Tables → Type 0) (db : Db)
      → P db.tables
      → ((a : A) (t : Tables) → f db.tables ≡ ok (a, t) → P t)
      → P (exec f db).1.tables
  exec_keeps P db h k =
      after_keeps P (outcome db.faults) (record db { faults = later db.faults }) (f db.tables) refl
        h k

  after-err :
      (r : Result (Unit {0})) (db : Db) (x : Result (A × Tables)) (e : Error)
      → f db.tables ≡ x
      → (after r db f).0 ≡ err e
      → (after r db f).1.tables ≡ db.tables
  after-err (err d) db x e eq h = refl
  after-err (ok _) db (err d) e eq h = rw eq
  after-err (ok _) db (ok (a, t)) e eq h = cc (rw eq at h)

  -- A statement that fails has changed no table.
  pub exec-err : (db : Db) (e : Error) → (exec f db).0 ≡ err e → (exec f db).1.tables ≡ db.tables
  exec-err db e h =
      after-err (outcome db.faults) (record db { faults = later db.faults }) (f db.tables) e refl h

  after-ok :
      (r : Result (Unit {0})) (db : Db) (x : Result (A × Tables)) (a : A)
      → f db.tables ≡ x
      → (after r db f).0 ≡ ok a
      → f db.tables ≡ ok (a, (after r db f).1.tables)
  after-ok (err d) db x a eq h = cc
  after-ok (ok _) db (err d) a eq h = cc (rw eq at h)
  after-ok (ok _) db (ok (b, t)) a eq h = let e = rw eq at h in rw eq (cc e)

  -- A statement that succeeds has written what it says of the tables as they were.
  pub exec-ok :
      (db : Db) (a : A) → (exec f db).0 ≡ ok a → f db.tables ≡ ok (a, (exec f db).1.tables)
  exec-ok db a h =
      after-ok (outcome db.faults) (record db { faults = later db.faults }) (f db.tables) a refl h

module _ {A : Type 0} (f : Tables → A) where
  pub query-tables : (db : Db) → (query f db).1.tables ≡ db.tables
  query-tables db = ground arith

  pub query-ok : (db : Db) (a : A) → (query f db).0 ≡ ok a → a ≡ f db.tables
  query-ok db a h = ground arith

pub ok-parts :
    {A : Type 0} {a b : A} {t t' : Tables}
    → ◌≡◌ {A = Result (A × Tables)} (ok (a, t)) (ok (b, t'))
    → (a ≡ b) × (t ≡ t')
ok-parts h = (cc, cc)
