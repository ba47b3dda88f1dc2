-- ===== src/Server/System/Protection.antt =====
-- From the stored site to the engine that inspects its requests: main, the API, the store, the engines and the
-- routes together.
use wafportal.Base.{Text, to_lower, ℕ, ◌≡◌, ap, ◌∙◌, inl, inr, true, All, Option, some, ok}
use mathlib.Core.List.{Mem}
use wafportal.Store.Models.{Site}
use wafportal.Store.Db.{Db, Tables}
use wafportal.Store.Db.Effects.{IsHealthy}
use wafportal.Store.Operations.Invariant.{IsValid}
use wafportal.Store.Rules.{enabled_directives}
use wafportal.Waf.Coraza.{Coraza}
use wafportal.Waf.Manager.{new_manager}
use wafportal.Waf.Manager.Swap.{build_on, build_detect, engine_spec, reload-ok}
use wafportal.Proxy.{host_key, handler_for, handler_of, upstream_of, Handler}
use wafportal.Proxy.Routes.Sole.{IsSole}
use wafportal.Proxy.Network.{Net}
use wafportal.RateLimit.{Buckets}
use wafportal.Auth.Primitives.{Crypto}
use wafportal.Server.{Plane}
use wafportal.Server.Installed.Sole.{handler_for-plane_with}
use wafportal.Server.Current.{IsCurrent, compiled}
use wafportal.Server.Startup.{Host, Started, boot}
use wafportal.Server.System.{System, launch, Reach}
use wafportal.Server.System.Freshness.{Reach-IsCurrent}

module _ (c : Coraza) (n : Net) where
  open c use {Engine}
  open n use {Url}

  -- The host is handed to the upstream, inspected by the engine of the site's mode: the one compiled from the
  -- stored rules for blocking, the one for detection, or none.
  pub record IsProtected (t : Tables) (site : Site) (target : Url) (o : Option (Handler c n))
      : Type 0 where
    pub blocking : Engine
    pub detecting : Engine
    pub blocks : build_on c (enabled_directives t) ≡ ok blocking
    pub detects : build_detect c (enabled_directives t) ≡ ok detecting
    pub served :
        o
        ≡ some (record {
          target = target;
          inspected_by = engine_spec c blocking detecting site.waf_mode;
          domain = site.domain;
        })

  current-IsProtected :
      (t : Tables) (p : Plane c n) (site : Site) (target : Url) (host : Text)
      → IsCurrent c n t p
      → (compiled c n t).0 ≡ ok tt
      → Mem site t.sites.rows
      → All (IsSole (to_lower site.domain) site) t.sites.rows
      → site.enabled ≡ true
      → upstream_of c n site ≡ some target
      → host_key host ≡ to_lower site.domain
      → IsProtected t site target (handler_for c n p.routing host)
  unfolding handler_of
  current-IsProtected t p site target host (inr (e, broken)) compiles stored sole enabled usable
        meant =
      absurd (cc)
  current-IsProtected t p site target host (inl (_, installed)) compiles stored sole enabled usable
        meant =
      let es = (compiled c n t).1 in
      let (x, y, on, detect, modes) =
        reload-ok c (enabled_directives t) (new_manager c) es (λ i. (compiles i, es)) in
      record {
        blocking = x;
        detecting = y;
        blocks = on;
        detects = detect;
        served =
            ap (λ (q : Plane c n). handler_for c n q.routing host) installed
            ∙ (handler_for-plane_with c n es t site target host stored sole enabled usable meant
                ∙ ap
                    (λ o. some (record { target = target; inspected_by = o; domain = site.domain }))
                    (modes site.waf_mode));
      }

module _ {Rate : Type 0} (rate : ℕ → Rate) (c : Coraza) (n : Net) (k : Crypto) (b : Buckets) where
  open n use {Url}

  -- From valid tables and while the database works, where the requests, the calls of the API and the
  -- rounds of the loops run one after another, none beginning before the last is over: between any two
  -- of them since main started the servers, if the enabled rules that are stored compile, a stored site that is enabled, has a usable upstream and is
  -- the only one with its domain in any case serves every host that means the domain, and its requests
  -- are inspected by the engine of its mode, compiled from these rules.
  pub Reach-IsProtected :
      (h : Host Rate) (db db' : Db) (st : Started rate c n k) (s : System rate c n k b)
      (site : Site) (target : Url) (host : Text)
      → IsHealthy db
      → IsValid db.tables
      → boot rate c n k h db ≡ (ok st, db')
      → Reach rate c n k b (launch rate c n k b st db') s
      → (compiled c n s.running.db.tables).0 ≡ ok tt
      → Mem site s.running.db.tables.sites.rows
      → All (IsSole (to_lower site.domain) site) s.running.db.tables.sites.rows
      → site.enabled ≡ true
      → upstream_of c n site ≡ some target
      → host_key host ≡ to_lower site.domain
      → IsProtected c n s.running.db.tables site target
          (handler_for c n s.running.plane.routing host)
  Reach-IsProtected h db db' st s site target host healthy v booted r compiles stored sole enabled
        usable meant =
      current-IsProtected c n s.running.db.tables s.running.plane site target host
        (Reach-IsCurrent rate c n k b h db db' st s healthy v booted r) compiles stored sole enabled
        usable meant
