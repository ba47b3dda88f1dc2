-- ===== src/Server/Refused.antt =====
-- What the callback `reload` of cmd/wafportal/main.go leaves behind, with an error and without one.
use wafportal.Base.{Text, ◌≡◌, refl, ap, ◌∙◌, some, List, [], Result, ok, err, Error}
use wafportal.Store.Db.{Db}
use wafportal.Store.Db.Effects.{IsHealthy, query-tables}
use wafportal.Store.Models.{Site}
use wafportal.Store.Sites.{list_sites}
use wafportal.Store.Rules.{enabled_directives, enabled_rule_directives}
use wafportal.Waf.Coraza.{Coraza}
use wafportal.Waf.Manager
use wafportal.Waf.Manager.{Engines}
use wafportal.Waf.Manager.Swap.{reload-err, reload-same}
use wafportal.Proxy.Network.{Net}
use wafportal.Server.{Plane, Running, Reloaded, install, install_engines, install_sites, reload}

module _ (c : Coraza) (n : Net) where
  abbrev RoutesStay : Plane c n → Reloaded c n → Type 0
  RoutesStay p r = (e : Error) → r.0 ≡ some e → r.1.plane.routing ≡ p.routing

  sites-routing :
      (r : Result (List Site) × Db) (p : Plane c n) → RoutesStay p (install_sites c n r p)
  unfolding install_sites
  sites-routing (err d, db) p e h = refl
  sites-routing (ok sites, db) p e h = cc

  engines-routing :
      (r : Result (Unit {0}) × Engines c) (db : Db) (p : Plane c n)
      → RoutesStay p (install_engines c n r db p)
  unfolding install_engines
  engines-routing (err d, es) db p e h = refl
  engines-routing (ok _, es) db p e h =
      sites-routing (list_sites db) (record p { engines = es }) e h

  rules-routing : (r : Result (List Text) × Db) (p : Plane c n) → RoutesStay p (install c n r p)
  unfolding install
  rules-routing (err d, db) p e h = refl
  rules-routing (ok ds, db) p e h = engines-routing (Manager.reload c ds p.engines) db p e h

  -- Whatever made the reload fail, the requests are routed as before.
  pub reload-routing :
      (s : Running c n) (e : Error)
      → (reload c n s).0 ≡ some e
      → (reload c n s).1.plane.routing ≡ s.plane.routing
  unfolding reload
  reload-routing s e h = rules-routing (enabled_rule_directives s.db) s.plane e h

  sites-tables : (r : Result (List Site) × Db) (p : Plane c n) → (install_sites c n r p).1.db ≡ r.1
  unfolding install_sites
  sites-tables (ok sites, db') p = refl
  sites-tables (err e, db') p = refl

  engines-tables :
      (r : Result (Unit {0}) × Engines c) (db : Db) (p : Plane c n)
      → (install_engines c n r db p).1.db.tables ≡ db.tables
  unfolding install_engines
  engines-tables (err d, es) db p = refl
  engines-tables (ok _, es) db p =
      ap (λ (d : Db). d.tables) (sites-tables (list_sites db) (record p { engines = es }))
      ∙ unfold list_sites in query-tables _ db

  rules-tables :
      (r : Result (List Text) × Db) (p : Plane c n) → (install c n r p).1.db.tables ≡ r.1.tables
  unfolding install
  rules-tables (err d, db) p = refl
  rules-tables (ok ds, db) p = engines-tables (Manager.reload c ds p.engines) db p

  -- A reload, failed or not, writes no table.
  pub reload-tables : (s : Running c n) → (reload c n s).1.db.tables ≡ s.db.tables
  unfolding reload
  reload-tables s =
      rules-tables (enabled_rule_directives s.db) s.plane
      ∙ unfold enabled_rule_directives in query-tables enabled_directives s.db

  engines-healthy :
      (ds : List Text) (r : Result (Unit {0}) × Engines c) (db : Db) (p : Plane c n) (e : Error)
      → Manager.reload c ds p.engines ≡ r
      → IsHealthy db
      → (install_engines c n r db p).0 ≡ some e
      → (install_engines c n r db p).1.plane ≡ p
  unfolding install_engines list_sites install_sites
  engines-healthy ds (err d, es) db p e eq h f = rw ((reload-err c ds p.engines es d eq).0) refl
  engines-healthy ds (ok _, es) db p e eq h f = cc (rw h at f)

  -- A reload that fails while the database works has failed on the rules, and leaves the engines
  -- and the routes as they were.
  pub reload-refused :
      (s : Running c n) (e : Error)
      → IsHealthy s.db
      → (reload c n s).0 ≡ some e
      → (reload c n s).1.plane ≡ s.plane
  unfolding reload enabled_rule_directives install
  reload-refused s e h f = rw h (
      engines-healthy (enabled_directives s.db.tables)
        (Manager.reload c (enabled_directives s.db.tables) s.plane.engines)
        (record s.db { faults = [] }) s.plane e refl refl (rw h at f))

  -- A database that works before the reload works after it.
  pub reload-IsHealthy : (s : Running c n) → IsHealthy s.db → IsHealthy (reload c n s).1.db
  unfolding reload enabled_rule_directives install
  reload-IsHealthy s h =
      rw h
        (engines-calm (Manager.reload c (enabled_directives s.db.tables) s.plane.engines) s.plane)
    where
      engines-calm :
          (r : Result (Unit {0}) × Engines c) (p : Plane c n)
          → IsHealthy (install_engines c n r (record s.db { faults = [] }) p).1.db
      engines-calm (err d, es) p = unfold install_engines in refl
      engines-calm (ok _, es) p = unfold install_engines list_sites install_sites in refl

  err_injective : {d e : Error} → ◌≡◌ {A = Result (Unit {0})} (err d) (err e) → d ≡ e
  err_injective h = cc

  engines-again :
      (ds : List Text) (r : Result (Unit {0}) × Engines c) (db db' : Db) (p q : Plane c n)
      (e : Error)
      → Manager.reload c ds p.engines ≡ r
      → IsHealthy db
      → (install_engines c n r db p).0 ≡ some e
      → (install_engines c n (Manager.reload c ds q.engines) db' q).0 ≡ some e
  unfolding list_sites install_sites install_engines
  engines-again ds (err d, es) db db' p q e eq h f = again (Manager.reload c ds q.engines) (
      reload-same c ds p.engines q.engines (err d)
        (ap (λ (r : Result (Unit {0}) × Engines c). r.0) eq))
    where
      again :
          (r : Result (Unit {0}) × Engines c)
          → r.0 ≡ err d
          → (install_engines c n r db' q).0 ≡ some e
      again (err d', es') g = ap some (err_injective g) ∙ f
      again (ok _, es') g = cc
  engines-again ds (ok _, es) db db' p q e eq h f = cc (rw h at f)

  -- A reload that fails while the database works fails again, with the same error, until the tables
  -- change.
  pub reload-again :
      (s s' : Running c n) (e : Error)
      → IsHealthy s.db
      → IsHealthy s'.db
      → s'.db.tables ≡ s.db.tables
      → (reload c n s).0 ≡ some e
      → (reload c n s').0 ≡ some e
  unfolding reload enabled_rule_directives install
  reload-again s s' e h h' same f =
      rw (h', same)
        (engines-again (enabled_directives s.db.tables)
          (Manager.reload c (enabled_directives s.db.tables) s.plane.engines)
          (record s.db { faults = [] }) (record s.db { faults = [] }) s.plane s'.plane e refl refl
          (rw h at f))
