-- ===== src/Server.antt =====
-- cmd/wafportal/main.go: the callback `reload`, which joins the store, the engines and the proxy.
pub mod ClientIp
pub mod EventSink
pub mod Refused
pub mod RuleRejection
pub mod Startup
pub mod Installed
pub mod Guarded
pub mod System
pub mod Current
pub mod Races
pub mod Tasks
pub mod Concurrent
pub mod Unapplied
pub mod Live
pub mod Shutdown
use wafportal.Base.{Text, Option, none, some, List, Result, ok, err, Error}
use wafportal.Store.Db.{Db}
use wafportal.Store.Sites.{list_sites}
use wafportal.Store.Rules.{enabled_rule_directives}
use wafportal.Store.Models.{Site}
use wafportal.Waf.Coraza.{Coraza}
use wafportal.Waf.Manager
use wafportal.Waf.Manager.{Engines}
use wafportal.Proxy
use wafportal.Proxy.{Routing}
use wafportal.Proxy.Network.{Net}
use wafportal.Api.State.{State}

module _ (c : Coraza) (n : Net) where
  pub record Plane : Type 0 where
    pub engines : Engines c
    pub routing : Routing c n

  abbrev pub Running : Type 0
  Running = State Plane

  abbrev pub Reloaded : Type 0
  Reloaded = Option Error × Running

  unfoldable pub install_sites : Result (List Site) × Db → Plane → Reloaded
  install_sites (err e, db) p = (some e, record { db = db; plane = p })
  install_sites (ok sites, db) p =
      (none, record { db = db; plane = record p { routing = Proxy.reload c n p.engines sites } })

  unfoldable pub install_engines : Result (Unit {0}) × Engines c → Db → Plane → Reloaded
  install_engines (err e, engines) db p =
      (some e, record { db = db; plane = record p { engines = engines } })
  install_engines (ok _, engines) db p =
      install_sites (list_sites db) (record p { engines = engines })

  unfoldable pub install : Result (List Text) × Db → Plane → Reloaded
  install (err e, db) p = (some e, record { db = db; plane = p })
  install (ok directives, db) p = install_engines (Manager.reload c directives p.engines) db p

  -- Rules are compiled before the routes, which take their engines from the manager.
  unfoldable pub reload : Running → Reloaded
  reload s = install (enabled_rule_directives s.db) s.plane
