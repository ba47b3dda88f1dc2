-- ===== src/Server/Tasks/Keeps.antt =====
-- What each step of the callback `reload` of cmd/wafportal/main.go keeps.
use wafportal.Base.{Text, List, [], ◌∷◌, Result, ok, err}
use wafportal.Base.Tasks.{Keeps, ◌>>=◌, atomically, done-Keeps}
use wafportal.Store.Models.{Site, waf_mode_off}
use wafportal.Store.Sites.{list_sites}
use wafportal.Store.Rules.{enabled_rule_directives}
use wafportal.Store.Operations.Calls.{KeepsValid}
use wafportal.Store.Operations.Reads.{query-KeepsValid, list_sites-KeepsValid}
use wafportal.Waf.Coraza.{Coraza}
use wafportal.Waf.Manager as Manager
use wafportal.Waf.Manager.Swap.{swap-bypass, build_on, build_detect}
use wafportal.Proxy.{Routing, no_routes, add_site, add_sites}
use wafportal.Proxy.Tls.{TlsIsServed, no_routes-TlsIsServed, add_sites-TlsIsServed}
use wafportal.Proxy.Network.{Net}
use wafportal.Api.Keeps.{Inv}
use wafportal.Api.Tasks.Keeps.{KeepsInv, after-KeepsInv}
use wafportal.Server.{Running}
use wafportal.Server.Guarded.{IsGuarded, off≢on, off≢detection}
use wafportal.Server.Tasks.{
  compile, build_routes, install_routes, after_sites, after_compile, after_rules, reload_task,
}

directives-KeepsValid : KeepsValid enabled_rule_directives
unfolding enabled_rule_directives
directives-KeepsValid = query-KeepsValid _

module _ (c : Coraza) (n : Net) where
  -- The routes that are built serve their TLS hosts whichever engines the rounds find.
  build_routes-KeepsInv :
      (sites : List Site) (t : Routing c n)
      → TlsIsServed c n t
      → KeepsInv
          (IsGuarded c n)
          (build_routes c n sites t >>= λ t'. atomically (install_routes c n t'))
  unfolding Keeps add_sites
  build_routes-KeepsInv [] t served =
      λ s (v, g). ((v, record { bypassed = g.bypassed; served = served }), tt)
  build_routes-KeepsInv (site ∷ sites) t served = λ s v. (
    v,
    build_routes-KeepsInv sites (add_site c n s.plane.engines site t)
        (add_sites-TlsIsServed c n s.plane.engines (site ∷ []) t served),
  )

  after_sites-KeepsInv : (r : Result (List Site)) → KeepsInv (IsGuarded c n) (after_sites c n r)
  after_sites-KeepsInv (err e) = done-Keeps (Inv (IsGuarded c n)) _
  after_sites-KeepsInv (ok sites) =
      build_routes-KeepsInv sites (no_routes c n) (no_routes-TlsIsServed c n)

  after_compile-KeepsInv : (r : Result (Unit {0})) → KeepsInv (IsGuarded c n) (after_compile c n r)
  after_compile-KeepsInv (err e) = done-Keeps (Inv (IsGuarded c n)) _
  after_compile-KeepsInv (ok _) =
      after-KeepsInv (IsGuarded c n) list_sites (after_sites c n) list_sites-KeepsValid
        after_sites-KeepsInv

  compile-Inv :
      (ds : List Text) (s : Running c n)
      → Inv (IsGuarded c n) s
      → Inv (IsGuarded c n) (compile c n ds s).1
  unfolding Manager.reload
  compile-Inv ds s (v, g) = (
    v,
    record {
      bypassed =
          swap-bypass c (build_on c ds) (build_detect c ds) s.plane.engines waf_mode_off off≢on
            off≢detection g.bypassed;
      served = g.served;
    },
  )

  after_rules-KeepsInv : (r : Result (List Text)) → KeepsInv (IsGuarded c n) (after_rules c n r)
  unfolding Keeps
  after_rules-KeepsInv (err e) = tt
  after_rules-KeepsInv (ok ds) = λ s v. (compile-Inv ds s v, after_compile-KeepsInv _)

  -- Every step of a reload keeps what holds of the planes in use.
  pub reload_task-KeepsInv : KeepsInv (IsGuarded c n) (reload_task c n)
  unfolding reload_task
  reload_task-KeepsInv =
      after-KeepsInv (IsGuarded c n) enabled_rule_directives (after_rules c n) directives-KeepsValid
        after_rules-KeepsInv
