-- ===== src/Server/Live.antt =====
-- From createSite of internal/api/api.go to the route: the store, the engines and the proxy together.
use wafportal.Base.{
  Text, text_eq, text_eq_iff, text_eq_refl, to_lower, suc, pos, ◌≡◌, refl, sym, ap, inl, inr, true,
  false, Bool-cases, All, some, List, [], ◌∷◌, ◌++◌, Result, ok,
}
use mathlib.Core.Path.{subst}
use mathlib.Core.List.{mem-append_right, mem-cons_self}
use wafportal.Store.Models.{Site}
use wafportal.Store.Db.{Tables}
use wafportal.Store.Db.Effects.{IsHealthy}
use wafportal.Store.Sites as Sites
use wafportal.Store.Sites.{by_domain, insert_site, has_domain}
use wafportal.Store.Rules.{enabled_directives}
use wafportal.Waf.Coraza.{Coraza}
use wafportal.Waf.Manager.{new_manager}
use wafportal.Waf.Manager.Swap.{reload-same}
use wafportal.Proxy.{host_key, handler_for, handler_of, upstream_of}
use wafportal.Proxy.Routes.Sole.{IsSole}
use wafportal.Proxy.Network.{Net}
use wafportal.Api.Wire.{Body}
use wafportal.Api.State.{Moment, write_json, apply_reload, apply_reload_err}
use wafportal.Api.Sites.{create_site}
use wafportal.Api.Validate.{validate_site}
use wafportal.Server.{Plane, Running, reload}
use wafportal.Server.Installed.Sole.{handler_for-plane_with}
use wafportal.Server.Installed.{Outcome, reload-Outcome, plane_with, recompiled}
use wafportal.Server.Current.{compiled}
use wafportal.Server.Current.Calls.{calm-Db, at, callback}

-- No stored site has the domain, whatever the case.
abbrev pub IsNew : Text → List Site → Type 0
IsNew domain rows = All (λ (r : Site). text_eq (to_lower r.domain) (to_lower domain) ≡ false) rows

IsNew-free : (domain : Text) (rows : List Site) → IsNew domain rows → has_domain domain rows ≡ false
IsNew-free domain [] h = refl
IsNew-free domain (r ∷ rows) (apart, h) = elim (Bool-cases (text_eq r.domain domain)) [
  | inl same ↦
      let eq = ap to_lower ((text_eq_iff r.domain domain).0 same) in
      cc (eq, apart, text_eq_refl (to_lower domain))
  | inr other ↦ rw other (IsNew-free domain rows h)
]

IsNew-IsSole :
    (row : Site) (rows : List Site)
    → IsNew row.domain rows
    → All (IsSole (to_lower row.domain) row) (rows ++ row ∷ [])
IsNew-IsSole row [] h = (inr refl, tt)
IsNew-IsSole row (r ∷ rows) (apart, h) = (inl apart, IsNew-IsSole row rows h)

module _ (c : Coraza) (n : Net) where
  open n use {Url}

  -- The row of a new site.
  abbrev pub new_row : Moment → Site → Tables → Site
  new_row m site t = record site {
    id = pos (suc t.sites.last_id);
    created_at = m.now;
    updated_at = m.now;
  }

  abbrev with_site : Site → Tables → Tables
  with_site row t = record t {
    sites = record { rows = t.sites.rows ++ row ∷ []; last_id = suc t.sites.last_id };
  }

  reloaded :
      (t t' : Tables) (p : Plane c n)
      → (compiled c n t).0 ≡ ok tt
      → t'.rules.rows ≡ t.rules.rows
      → (reload c n (at c n t' p)).1.plane ≡ plane_with c n (recompiled c n (at c n t' p)).1 t'
  reloaded t t' p compiles same =
      (subst (Outcome c n (at c n t' p))
        (reload-same c (enabled_directives t') (new_manager c) p.engines (ok tt) (rw same compiles))
        (reload-Outcome c n (at c n t' p) refl)).1

  -- The call answers 201 with the row, and the host is served as the row says.
  abbrev pub IsLive : Moment → Result Site → Site → Url → Text → Running c n → Type 0
  IsLive m body site u host s =
      let (response, s') = create_site (callback c n) m body s in
      (response ≡ write_json (pos 201) (Body.site (new_row m site s.db.tables)))
      × (handler_for c n s'.plane.routing host
          ≡ some (handler_of c n s'.plane.engines (new_row m site s.db.tables) u))

  calm-IsLive :
      (m : Moment) (body site : Site) (t : Tables) (p : Plane c n) (u : Url) (host : Text)
      → validate_site body ≡ ok site
      → (compiled c n t).0 ≡ ok tt
      → IsNew site.domain t.sites.rows
      → site.enabled ≡ true
      → upstream_of c n site ≡ some u
      → host_key host ≡ to_lower site.domain
      → IsLive m (ok body) site u host (at c n t p)
  unfolding create_site Sites.create_site apply_reload apply_reload_err upstream_of
  calm-IsLive m body site t p u host valid compiles new enabled usable meant =
      let row = new_row m site t in
      let plane = reloaded t (with_site row t) p compiles refl in
      rw (valid, IsNew-free site.domain t.sites.rows new)
        (
          refl,
          subst
              (λ (q : Plane c n).
                handler_for c n q.routing host ≡ some (handler_of c n q.engines row u))
              (sym plane)
              (handler_for-plane_with c n (recompiled c n (at c n (with_site row t) p)).1
                (with_site row t) row u host (mem-append_right t.sites.rows mem-cons_self)
                (IsNew-IsSole row t.sites.rows new) enabled usable meant),
        )

  -- While the database works and the enabled rules that it stores compile, creating a site that passes the
  -- checks, is enabled, has a usable upstream, and a domain that no stored site has in any case, answers
  -- 201 with the stored row; and the routes then in use give every host that means the domain the row's
  -- handler, with the engine of its mode.
  pub create_site-IsLive :
      (m : Moment) (body site : Site) (s : Running c n) (u : Url) (host : Text)
      → IsHealthy s.db
      → (compiled c n s.db.tables).0 ≡ ok tt
      → validate_site body ≡ ok site
      → IsNew site.domain s.db.tables.sites.rows
      → site.enabled ≡ true
      → upstream_of c n site ≡ some u
      → host_key host ≡ to_lower site.domain
      → IsLive m (ok body) site u host s
  create_site-IsLive m body site s u host healthy compiles valid new enabled usable meant =
      subst (λ db. IsLive m (ok body) site u host (record { db = db; plane = s.plane }))
        (sym (calm-Db s.db s.db.tables healthy refl))
        (calm-IsLive m body site s.db.tables s.plane u host valid compiles new enabled usable meant)
