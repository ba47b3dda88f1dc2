-- ===== src/Server/Current/Calls.antt =====
-- What the calls of internal/api/api.go for sites, and those that only read, leave while the database works.
use wafportal.Base.{ℤ, pos, ◌≡◌, refl, Option, some, Result, ok, err, Error}
use wafportal.Store.Models.{Site}
use wafportal.Store.Db.{Db, Tables, commit}
use wafportal.Store.Db.Effects.{IsHealthy}
use wafportal.Store.Sites as Sites
use wafportal.Store.Sites.{site_id, no_rows, insert_site, update_rows}
use wafportal.Waf.Coraza.{Coraza}
use wafportal.Proxy.Network.{Net}
use wafportal.Auth.Account.{calm}
use wafportal.Api.Wire.{Body}
use wafportal.Api.State.{Moment, on_db, respond, deleted, apply_reload, apply_reload_err}
use wafportal.Api.Sites.{saved_site, create_valid, update_valid}
use wafportal.Server.{Plane, Running, reload}
use wafportal.Server.Current.{IsCurrent, InSync, IsCurrent-same, reload-InSync}

pub calm-Db : (db : Db) (t : Tables) → IsHealthy db → db.tables ≡ t → db ≡ calm t
calm-Db db t h e = λ i. record { tables = e i; faults = h i }

module _ (c : Coraza) (n : Net) where
  abbrev pub at : Tables → Plane c n → Running c n
  at t p = record { db = calm t; plane = p }

  -- The callback that main gives to the API.
  abbrev pub callback : Option (Running c n → Option Error × Running c n)
  callback = some (reload c n)

  -- A call that touches neither sites nor rules.
  pub record IsQuiet {A : Type 0} (m : Db → A × Db) (t : Tables) : Type 0 where
    pub healthy : IsHealthy (m (calm t)).1
    pub rules : (m (calm t)).1.tables.rules.rows ≡ t.rules.rows
    pub sites : (m (calm t)).1.tables.sites.rows ≡ t.sites.rows

  module _ (t : Tables) (p : Plane c n) (current : IsCurrent c n t p) where
    pub quiet-InSync :
        {A : Type 0} (m : Db → A × Db) → IsQuiet m t → InSync c n (on_db m (at t p)).1
    quiet-InSync m q =
        (q.healthy, IsCurrent-same c n t (m (calm t)).1.tables p q.rules q.sites current)

    respond-InSync :
        {A : Type 0} (status : ℤ) (show : A → Body) (r : Result A × Running c n)
        → InSync c n r.1
        → InSync c n (respond status show r).1
    respond-InSync status show (ok a, s) h = h
    respond-InSync status show (err e, s) h = h

    pub read-InSync :
        {A : Type 0} (status : ℤ) (show : A → Body) (m : Db → Result A × Db)
        → IsQuiet m t
        → InSync c n (respond status show (on_db m (at t p))).1
    read-InSync status show m q = respond-InSync status show (on_db m (at t p)) (quiet-InSync m q)

    -- The answer of a write, and the database after it.
    abbrev written : {A : Type 0} → Result (A × Tables) → Result A × Running c n
    written x = ((commit (calm t) x).0, record { db = (commit (calm t) x).1; plane = p })

    apply-InSync : (s : Running c n) → IsHealthy s.db → InSync c n (apply_reload callback s)
    unfolding apply_reload apply_reload_err
    apply-InSync s h = reload-InSync c n s h

    saved-InSync :
        (status : ℤ) (x : Result (Site × Tables))
        → InSync c n (saved_site callback status (written x)).1
    saved-InSync status (ok (st, t')) = apply-InSync _ refl
    saved-InSync status (err e) = (refl, current)

    pub deleted-InSync :
        (x : Result (Unit {0} × Tables)) → InSync c n (deleted callback (written x)).1
    deleted-InSync (ok (u, t')) = apply-InSync _ refl
    deleted-InSync (err e) = (refl, current)

    pub create_valid-InSync :
        (m : Moment) (r : Result Site) → InSync c n (create_valid callback m r (at t p)).1
    unfolding Sites.create_site
    create_valid-InSync m (err e) = (refl, current)
    create_valid-InSync m (ok site) =
        saved-InSync (pos 201)
          (insert_site (record site { created_at = m.now; updated_at = m.now }) t)

    pub update_valid-InSync :
        (m : Moment) (r : Result Site) → InSync c n (update_valid callback m r (at t p)).1
    unfolding Sites.update_site
    update_valid-InSync m (err e) = (refl, current)
    update_valid-InSync m (ok site) =
        saved-InSync (pos 200) (update_rows (record site { updated_at = m.now }) t)
