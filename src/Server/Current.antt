-- ===== src/Server/Current.antt =====
-- Whether the engines and routes in use are those that a fresh start would install.
pub mod Calls
pub mod Rules
pub mod Accounts
pub mod Routes
use wafportal.Base.{
  Text, ◌≡◌, refl, sym, ap, ◌∙◌, ◌⊎◌, inl, inr, none, some, [], Result, ok, err, Error,
}
use wafportal.Store.Db.{Tables, Db}
use wafportal.Store.Db.Effects.{IsHealthy}
use wafportal.Store.Rules.{enabled_directives}
use wafportal.Waf.Coraza.{Coraza}
use wafportal.Waf.Manager
use wafportal.Waf.Manager.{Engines, new_manager}
use wafportal.Waf.Manager.Swap.{reload-same, reload-fresh}
use wafportal.Proxy.Network.{Net}
use wafportal.Server.{Plane, Running, reload}
use wafportal.Server.Installed.{plane_with, recompiled, Outcome, reload-Outcome}
use wafportal.Server.Refused.{reload-tables, reload-IsHealthy}

module _ (c : Coraza) (n : Net) where
  -- The enabled rules, compiled from nothing.
  abbrev pub compiled : Tables → Result (Unit {0}) × Engines c
  compiled t = Manager.reload c (enabled_directives t) (new_manager c)

  abbrev pub IsInstalled : Tables → Plane c n → Type 0
  IsInstalled t p = ((compiled t).0 ≡ ok tt) × (p ≡ plane_with c n (compiled t).1 t)

  -- The stored rules do not compile, so that a start would fail.
  abbrev pub IsBroken : Tables → Type 0
  IsBroken t = (e : Error) × ((compiled t).0 ≡ err e)

  abbrev pub IsCurrent : Tables → Plane c n → Type 0
  IsCurrent t p = IsInstalled t p ⊎ IsBroken t

  -- The database works, and the plane is current.
  abbrev pub InSync : Running c n → Type 0
  InSync s = IsHealthy s.db × IsCurrent s.db.tables s.plane

  -- Only the rows of the rules and of the sites matter.
  pub IsCurrent-same :
      (t t' : Tables) (p : Plane c n)
      → t'.rules.rows ≡ t.rules.rows
      → t'.sites.rows ≡ t.sites.rows
      → IsCurrent t p
      → IsCurrent t' p
  IsCurrent-same t t' p rules sites h = rw (rules, sites) h

  by_outcome :
      (s : Running c n) (x : Result (Unit {0}))
      → (recompiled c n s).0 ≡ x
      → Outcome c n s x
      → IsCurrent s.db.tables (reload c n s).1.plane
  by_outcome s (ok _) e (ran, plane) =
      let ds = enabled_directives s.db.tables in
      inl (
        reload-same c ds s.plane.engines (new_manager c) (ok tt) e,
        plane
            ∙ ap (λ es. plane_with c n es s.db.tables)
                (reload-fresh c ds s.plane.engines (new_manager c) e),
      )
  by_outcome s (err d) e refused =
      inr (
        d,
        reload-same c (enabled_directives s.db.tables) s.plane.engines (new_manager c) (err d) e,
      )

  -- After any reload the plane is current.
  pub reload-InSync : (s : Running c n) → IsHealthy s.db → InSync (reload c n s).1
  reload-InSync s h = (
    reload-IsHealthy c n s h,
    rw (reload-tables c n s) (by_outcome s (recompiled c n s).0 refl (reload-Outcome c n s h)),
  )
