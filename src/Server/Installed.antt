-- ===== src/Server/Installed.antt =====
-- What a reload that succeeds installs.
pub mod Sole
use wafportal.Base.{◌≡◌, refl, none, some, List, Result, ok, err, sort_by}
use wafportal.Store.Models.{Site}
use wafportal.Store.Db.{Tables}
use wafportal.Store.Db.Effects.{IsHealthy}
use wafportal.Store.Sites.{by_domain, list_sites}
use wafportal.Store.Rules.{enabled_directives, enabled_rule_directives}
use wafportal.Waf.Coraza.{Coraza}
use wafportal.Waf.Manager
use wafportal.Waf.Manager.{Engines}
use wafportal.Proxy
use wafportal.Proxy.Network.{Net}
use wafportal.Server.{Plane, Running, install, install_engines, install_sites, reload}

-- The sites in the order of ListSites.
abbrev pub sorted_sites : Tables → List Site
sorted_sites t = sort_by by_domain t.sites.rows

module _ (c : Coraza) (n : Net) where
  -- The plane of these engines with the routes of the stored sites.
  abbrev pub plane_with : Engines c → Tables → Plane c n
  plane_with es t = record { engines = es; routing = Proxy.reload c n es (sorted_sites t) }

  abbrev pub recompiled : Running c n → Result (Unit {0}) × Engines c
  recompiled s = Manager.reload c (enabled_directives s.db.tables) s.plane.engines

  -- What the outcome of the compilation makes of a reload.
  abbrev pub Outcome : Running c n → Result (Unit {0}) → Type 0
  Outcome s (ok _) =
      ((reload c n s).0 ≡ none) × ((reload c n s).1.plane ≡ plane_with (recompiled s).1 s.db.tables)
  Outcome s (err e) = (reload c n s).0 ≡ some e

  decided :
      (s : Running c n) (r : Result (Unit {0}) × Engines c)
      → recompiled s ≡ r
      → IsHealthy s.db
      → Outcome s r.0
  unfolding reload enabled_rule_directives install install_engines list_sites install_sites
  decided s (ok _, es) e h = rw (h, e) (refl, refl)
  decided s (err x, es) e h = rw (h, e) refl

  -- While the database works, a reload succeeds exactly where both engines compile from the enabled
  -- rules, and then the engines are the new ones and the routes those of the stored sites; else it
  -- answers the error of the compilation.
  pub reload-Outcome : (s : Running c n) → IsHealthy s.db → Outcome s (recompiled s).0
  reload-Outcome s h = decided s (recompiled s) refl h
