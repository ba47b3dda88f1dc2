-- ===== src/Server/Startup/States.antt =====
-- The state in which main starts the servers: valid, guarded, and in step with the store.
use wafportal.Base.{Text, text, ℕ, ◌≡◌, refl, sym, Result, ok, err}
use wafportal.Store.Db.{Db, Tables, exec}
use wafportal.Store.Db.Effects.{IsHealthy, ok-parts}
use wafportal.Store.Operations.Invariant.{IsValid}
use wafportal.Store.Operations.Calls.{exec-KeepsValid, set_setting-KeepsValid}
use wafportal.Store.Operations.Reads.{get_setting-KeepsValid}
use wafportal.Waf.Coraza.{Coraza}
use wafportal.Proxy.Network.{Net}
use wafportal.Auth.Keeps.{Keeps}
use wafportal.Auth.Primitives.{Crypto}
use wafportal.Server.{Running, reload}
use wafportal.Server.Refused.{reload-tables}
use wafportal.Server.Guarded.{IsGuarded, first-IsGuarded, reload-IsGuarded}
use wafportal.Server.Current.{IsCurrent, InSync, IsCurrent-same, reload-InSync}
use wafportal.Server.Current.Accounts.{IsLike, get_setting-IsLike, set_setting-IsLike}
use wafportal.Server.Startup.{Host, Started, boot, migrate, fatal, first_plane}
use wafportal.Server.Startup.Sound.{boot_keeps}

fatal_keeps :
    {A : Type 0} (V : Db → Type 0) (what : Text) (r : Result A × Db) → V r.1 → V (fatal what r).1
fatal_keeps V what (ok a, db) v = v
fatal_keeps V what (err e, db) v = v

migrate-KeepsValid : Keeps (λ db. IsValid db.tables) migrate
unfolding migrate
migrate-KeepsValid db v =
    fatal_keeps (λ db. IsValid db.tables) (text "migrate: ") (exec (λ t. ok (tt, t)) db)
      (exec-KeepsValid (λ t. ok (tt, t)) (λ t w a t' h. rw (sym ((ok-parts h).1)) w) db v)

migrate-IsLike : (t : Tables) → Keeps (IsLike t) migrate
unfolding migrate
migrate-IsLike t db (h, rules, sites) = rw h (refl, rules, sites)

module _ {Rate : Type 0} (rate : ℕ → Rate) (c : Coraza) (n : Net) (k : Crypto) where
  pub boot-IsGuarded :
      (h : Host Rate) (db db' : Db) (st : Started rate c n k)
      → IsValid db.tables
      → boot rate c n k h db ≡ (ok st, db')
      → IsValid db'.tables × IsGuarded c n st.plane
  boot-IsGuarded h db db' st v booted =
      boot_keeps (λ db. IsValid db.tables) migrate-KeepsValid get_setting-KeepsValid
        set_setting-KeepsValid rate c n k (IsGuarded c n)
        (λ db v.
          reload-IsGuarded c n (record { db = db; plane = first_plane rate c n k })
            (v, first-IsGuarded c n))
        h db db' st v booted

  first-IsLike :
      (t : Tables) (db : Db)
      → IsLike t db
      → IsLike t (reload c n (record { db = db; plane = first_plane rate c n k })).1.db
        × IsCurrent c n t (reload c n (record { db = db; plane = first_plane rate c n k })).1.plane
  first-IsLike t db (h, rules, sites) =
      let s : Running c n = record { db = db; plane = first_plane rate c n k } in
      let same = reload-tables c n s in
      let (healthy, current) = reload-InSync c n s h in
      (
        (healthy, rw same rules, rw same sites),
        IsCurrent-same c n s.db.tables t (reload c n s).1.plane (sym rules) (sym sites)
            (rw same at current),
      )

  pub boot-InSync :
      (h : Host Rate) (db db' : Db) (st : Started rate c n k)
      → IsHealthy db
      → boot rate c n k h db ≡ (ok st, db')
      → InSync c n (record { db = db'; plane = st.plane })
  boot-InSync h db db' st healthy booted =
      let t = db.tables in
      let ((healthy', rules, sites), current) =
        boot_keeps (IsLike t) (migrate-IsLike t) (get_setting-IsLike t) (set_setting-IsLike t) rate
          c n k (IsCurrent c n t) (first-IsLike t) h db db' st (healthy, refl, refl) booted in
      (healthy', IsCurrent-same c n t db'.tables st.plane rules sites current)
