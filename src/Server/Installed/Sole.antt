-- ===== src/Server/Installed/Sole.antt =====
-- Whom the routes of the stored sites serve.
use wafportal.Base.{
  Text, text_eq_refl, to_lower, ◌≡◌, ap, ◌∙◌, true, All, All-sort, sort_by-perm, some,
}
use mathlib.Core.List.{Mem}
use mathlib.Core.List.Perm
use wafportal.Store.Models.{Site}
use wafportal.Store.Db.{Tables}
use wafportal.Store.Sites.{by_domain}
use wafportal.Waf.Coraza.{Coraza}
use wafportal.Waf.Manager.{Engines}
use wafportal.Proxy.{host_key, handler_for, handler_of, upstream_of}
use wafportal.Proxy.Routes.{route, handler_for-reload}
use wafportal.Proxy.Routes.Sole.{IsSole, active-usable, route-sole}
use wafportal.Proxy.Network.{Net}
use wafportal.Server.Installed.{plane_with, sorted_sites}

module _ (c : Coraza) (n : Net) where
  open n use {Url}

  -- A stored site that is usable and the only one with its domain, in any case, serves the hosts that mean
  -- the domain.
  pub handler_for-plane_with :
      (es : Engines c) (t : Tables) (site : Site) (target : Url) (host : Text)
      → Mem site t.sites.rows
      → All (IsSole (to_lower site.domain) site) t.sites.rows
      → site.enabled ≡ true
      → upstream_of c n site ≡ some target
      → host_key host ≡ to_lower site.domain
      → handler_for c n (plane_with c n es t).routing host ≡ some (handler_of c n es site target)
  handler_for-plane_with es t site target host stored sole enabled usable meant =
      handler_for-reload c n es (sorted_sites t) host
      ∙ (ap (route c n es (sorted_sites t)) meant
          ∙ route-sole c n es (to_lower site.domain) site (handler_of c n es site target)
              (rw (text_eq_refl (to_lower site.domain))
                (active-usable c n es site target enabled usable))
              (sorted_sites t)
              (All-sort by_domain (IsSole (to_lower site.domain) site) t.sites.rows sole)
              ((Perm.mem_iff (sort_by-perm by_domain t.sites.rows)).1 stored))
