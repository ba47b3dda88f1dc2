-- ===== src/Server/Guarded.antt =====
-- What every plane in use guarantees, whatever was stored, reloaded or refused.
use wafportal.Base.{
  Text, get, ◌≡◌, ◌≢◌, refl, ◌⊎◌, inl, inr, false, Bool-cases, none, List, Result, ok, err,
}
use wafportal.Store.Db.{Db}
use wafportal.Store.Models.{Site, waf_mode_on, waf_mode_detection, waf_mode_off}
use wafportal.Store.Operations.Invariant.{IsValid}
use wafportal.Waf.Coraza.{Coraza}
use wafportal.Waf.Manager
use wafportal.Waf.Manager.{Engines, engine, new_manager}
use wafportal.Waf.Manager.Swap.{swap-bypass, build_on, build_detect}
use wafportal.Proxy
use wafportal.Proxy.{Routing, no_routes, uses_tls, handler_for, host_key}
use wafportal.Proxy.Tls.{TlsIsServed, add_sites-TlsIsServed, no_routes-TlsIsServed}
use wafportal.Proxy.Network.{Net}
use wafportal.Server.{Plane, Running, reload, install, install_engines, install_sites}
use wafportal.Server.Refused.{reload-tables}

pub off≢on : waf_mode_off ≢ waf_mode_on
off≢on h = cc h

pub off≢detection : waf_mode_off ≢ waf_mode_detection
off≢detection h = cc h

module _ (c : Coraza) (n : Net) where
  -- Mode "off" has no engine, and every key with TLS has a handler.
  pub record IsGuarded (p : Plane c n) : Type 0 where
    pub bypassed : engine c waf_mode_off p.engines ≡ none
    pub served : TlsIsServed c n p.routing

  -- A host that is redirected to HTTPS has a handler.
  pub uses_tls-IsGuarded :
      (p : Plane c n) (host : Text)
      → IsGuarded p
      → (uses_tls c n p.routing host ≡ false) ⊎ (handler_for c n p.routing host ≢ none)
  unfolding uses_tls handler_for
  uses_tls-IsGuarded p host g = elim (Bool-cases (uses_tls c n p.routing host)) [
    | inl tls ↦ inr (g.served.at (host_key host) tls)
    | inr open_http ↦ inl open_http
  ]

  pub first-IsGuarded : IsGuarded (record { engines = new_manager c; routing = no_routes c n })
  unfolding engine new_manager get
  first-IsGuarded = record { bypassed = refl; served = no_routes-TlsIsServed c n }

  install_sites-IsGuarded :
      (r : Result (List Site) × Db) (p : Plane c n)
      → IsGuarded p
      → IsGuarded (install_sites c n r p).1.plane
  unfolding install_sites Proxy.reload
  install_sites-IsGuarded (err e, db) p g = g
  install_sites-IsGuarded (ok sites, db) p g = record {
    bypassed = g.bypassed;
    served = add_sites-TlsIsServed c n p.engines sites (no_routes c n) (no_routes-TlsIsServed c n);
  }

  install_engines-IsGuarded :
      (r : Result (Unit {0}) × Engines c) (db : Db) (p : Plane c n)
      → engine c waf_mode_off r.1 ≡ none
      → IsGuarded p
      → IsGuarded (install_engines c n r db p).1.plane
  unfolding install_engines
  install_engines-IsGuarded (err e, engines) db p b g = record { bypassed = b; served = g.served }
  install_engines-IsGuarded (ok _, engines) db p b g =
      install_sites-IsGuarded _ (record p { engines = engines })
        (record { bypassed = b; served = g.served })

  install-IsGuarded :
      (r : Result (List Text) × Db) (p : Plane c n)
      → IsGuarded p
      → IsGuarded (install c n r p).1.plane
  unfolding install Manager.reload
  install-IsGuarded (err e, db) p g = g
  install-IsGuarded (ok ds, db) p g =
      install_engines-IsGuarded (Manager.reload c ds p.engines) db p
        (swap-bypass c (build_on c ds) (build_detect c ds) p.engines waf_mode_off off≢on
          off≢detection g.bypassed)
        g

  -- A reload keeps it, whether it succeeds or not, and leaves valid tables valid.
  pub reload-IsGuarded :
      (s : Running c n)
      → IsValid s.db.tables × IsGuarded s.plane
      → IsValid (reload c n s).1.db.tables × IsGuarded (reload c n s).1.plane
  reload-IsGuarded s (v, g) =
      (rw (reload-tables c n s) v, unfold reload in install-IsGuarded _ s.plane g)
