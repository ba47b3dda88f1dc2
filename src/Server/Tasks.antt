-- ===== src/Server/Tasks.antt =====
-- The callback `reload` of cmd/wafportal/main.go as a task: no lock is held over the whole of it. A step is
-- one statement, the swap of the engines under the manager's mutex, the read of one site's engine, or the
-- swap of the routes under the proxy's.
pub mod Keeps
use wafportal.Base.{
  Text, Option, none, some, List, [], ◌∷◌, Result, ok, err, Error, ◌≡◌, refl, ap, ◌∙◌,
}
use wafportal.Base.Tasks.{done, atomically, ◌>>=◌, run, run-bind}
use wafportal.Store.Models.{Site}
use wafportal.Store.Db.{Db}
use wafportal.Store.Sites.{list_sites}
use wafportal.Store.Rules.{enabled_rule_directives}
use wafportal.Waf.Coraza.{Coraza}
use wafportal.Waf.Manager as Manager
use wafportal.Proxy as Proxy
use wafportal.Proxy.{Routing, no_routes, add_site}
use wafportal.Proxy.Network.{Net}
use wafportal.Api.Tasks.{Work, statement}
use wafportal.Server.{Plane, Running, reload, install, install_engines, install_sites}

module _ (c : Coraza) (n : Net) where
  -- Manager.Reload: what it compiles depends on its argument alone, and the map is swapped at once.
  abbrev pub compile : List Text → Running c n → Result (Unit {0}) × Running c n
  compile directives s =
      let (r, engines) = Manager.reload c directives s.plane.engines in
      (r, record s { plane = record s.plane { engines = engines } })

  -- The loop in Proxy.Reload; the engines may be swapped between two rounds.
  abbrev pub build_routes : List Site → Routing c n → Work (Plane c n) (Routing c n)
  build_routes [] t = done t
  build_routes (site ∷ sites) t = do
    t' ← atomically (λ s. (add_site c n s.plane.engines site t, s))
    build_routes sites t'

  abbrev pub install_routes : Routing c n → Running c n → Option Error × Running c n
  install_routes t s = (none, record s { plane = record s.plane { routing = t } })

  abbrev pub after_sites : Result (List Site) → Work (Plane c n) (Option Error)
  after_sites (err e) = done (some e)
  after_sites (ok sites) = do t ← build_routes sites (no_routes c n); atomically (install_routes t)

  abbrev pub after_compile : Result (Unit {0}) → Work (Plane c n) (Option Error)
  after_compile (err e) = done (some e)
  after_compile (ok _) = do r ← statement list_sites; after_sites r

  abbrev pub after_rules : Result (List Text) → Work (Plane c n) (Option Error)
  after_rules (err e) = done (some e)
  after_rules (ok directives) = do r ← atomically (compile directives); after_compile r

  unfoldable pub reload_task : Work (Plane c n) (Option Error)
  reload_task = do r ← statement enabled_rule_directives; after_rules r

  build_routes-run :
      (sites : List Site) (t : Routing c n) (s : Running c n)
      → run (build_routes sites t) s ≡ (Proxy.add_sites c n s.plane.engines sites t, s)
  unfolding Proxy.add_sites
  build_routes-run [] t s = refl
  build_routes-run (site ∷ sites) t s =
      build_routes-run sites (add_site c n s.plane.engines site t) s

  after_sites-run :
      (r : Result (List Site) × Db) (p : Plane c n)
      → run (after_sites r.0) (record { db = r.1; plane = p }) ≡ install_sites c n r p
  unfolding install_sites Proxy.reload
  after_sites-run (err e, db) p = refl
  after_sites-run (ok sites, db) p =
      run-bind (build_routes sites (no_routes c n)) _ (record { db = db; plane = p })
      ∙ ap (λ r. install_routes r.0 r.1)
          (build_routes-run sites (no_routes c n) (record { db = db; plane = p }))

  after_compile-run :
      (r : Result (Unit {0}) × Manager.Engines c) (db : Db) (p : Plane c n)
      → run (after_compile r.0) (record { db = db; plane = record p { engines = r.1 } })
        ≡ install_engines c n r db p
  unfolding install_engines
  after_compile-run (err e, engines) db p = refl
  after_compile-run (ok _, engines) db p =
      after_sites-run (list_sites db) (record p { engines = engines })

  after_rules-run :
      (r : Result (List Text) × Db) (p : Plane c n)
      → run (after_rules r.0) (record { db = r.1; plane = p }) ≡ install c n r p
  unfolding install
  after_rules-run (err e, db) p = refl
  after_rules-run (ok directives, db) p =
      after_compile-run (Manager.reload c directives p.engines) db p

  -- A reload that nothing overtakes does what the callback does in one go.
  pub reload_task-run : (s : Running c n) → run reload_task s ≡ reload c n s
  unfolding reload_task reload
  reload_task-run s = after_rules-run (enabled_rule_directives s.db) s.plane
