-- ===== src/Server/Races/Agreement.antt =====
-- Reloads that overlap while nothing is written.
use wafportal.Base.{
  ◌≡◌, refl, sym, ap, ◌∙◌, ◌⊎◌, inl, inr, Option, none, some, List, [], ◌∷◌, Result, ok, err, Error,
}
use mathlib.Core.Path.{subst}
use wafportal.Store.Db.{Tables}
use wafportal.Store.Sites.{list_sites}
use wafportal.Store.Rules.{enabled_rule_directives, enabled_directives}
use wafportal.Waf.Coraza.{Coraza}
use wafportal.Waf.Manager as Manager
use wafportal.Waf.Manager.{Engines, new_manager}
use wafportal.Waf.Manager.Swap.{reload-same, reload-fresh, reload-err}
use wafportal.Proxy as Proxy
use wafportal.Proxy.{Routing}
use wafportal.Proxy.Network.{Net}
use wafportal.Auth.Account.{calm}
use wafportal.Server.{Plane, Running}
use wafportal.Server.Current.{compiled, IsInstalled}
use wafportal.Server.Installed.{sorted_sites}
use wafportal.Server.Races.{Pc, compiled_to, advance, Pair, Turn, first, second, turn, interleave}

module _ (c : Coraza) (n : Net) (t : Tables) where
  abbrev routes : Routing c n
  routes = Proxy.reload c n (compiled c n t).1 (sorted_sites t)

  -- The engines in use are those of the stored rules.
  abbrev HasEngines : Plane c n → Type 0
  HasEngines p = ((compiled c n t).0 ≡ ok tt) × (p.engines ≡ (compiled c n t).1)

  -- What a reload knows where it stands.
  abbrev IsRight : Plane c n → Pc c n → Type 0
  IsRight p Pc.begun = Unit
  IsRight p (Pc.compiling ds) = ds ≡ enabled_directives t
  IsRight p Pc.listing = HasEngines p
  IsRight p (Pc.routing sites) = HasEngines p × (sites ≡ sorted_sites t)
  IsRight p (Pc.installing r) = HasEngines p × (r ≡ routes)
  IsRight p (Pc.returned none) = HasEngines p × (p.routing ≡ routes)
  IsRight p (Pc.returned (some e)) = (compiled c n t).0 ≡ err e

  -- How a step changes the plane: not at all, to the right engines, or to the right routes.
  abbrev IsStep : Plane c n → Plane c n → Type 0
  IsStep p p' = (p' ≡ p) ⊎ (HasEngines p' × ((p'.routing ≡ p.routing) ⊎ (p'.routing ≡ routes)))

  returned-IsStep :
      (p p' : Plane c n)
      → p.routing ≡ routes
      → (p'.routing ≡ p.routing) ⊎ (p'.routing ≡ routes)
      → p'.routing ≡ routes
  returned-IsStep p p' h (inl same) = same ∙ h
  returned-IsStep p p' h (inr right) = right

  -- A step of one reload does not disturb the other.
  IsRight-IsStep : (p p' : Plane c n) (pc : Pc c n) → IsStep p p' → IsRight p pc → IsRight p' pc
  IsRight-IsStep p p' pc (inl same) h = rw same h
  IsRight-IsStep p p' Pc.begun (inr (es, rs)) h = tt
  IsRight-IsStep p p' (Pc.compiling ds) (inr (es, rs)) h = h
  IsRight-IsStep p p' Pc.listing (inr (es, rs)) h = es
  IsRight-IsStep p p' (Pc.routing sites) (inr (es, rs)) h = (es, h.1)
  IsRight-IsStep p p' (Pc.installing r) (inr (es, rs)) h = (es, h.1)
  IsRight-IsStep p p' (Pc.returned none) (inr (es, rs)) h = (es, returned-IsStep p p' h.1 rs)
  IsRight-IsStep p p' (Pc.returned (some e)) (inr (es, rs)) h = h

  -- What a step does: the database stays, the reload is right, and the other is not disturbed.
  abbrev Advanced : Plane c n → Pc c n × Running c n → Type 0
  Advanced p (pc, s) = (s.db ≡ calm t) × IsRight s.plane pc × IsStep p s.plane

  compiled-Advanced :
      (p : Plane c n) (r : Result (Unit {0}) × Engines c)
      → Manager.reload c (enabled_directives t) p.engines ≡ r
      → Advanced p (compiled_to c n r (record { db = calm t; plane = p }))
  compiled-Advanced p (ok _, es) h =
      let ds = enabled_directives t in
      let ran =
        reload-same c ds p.engines (new_manager c) (ok tt)
          (ap (λ (x : Result (Unit {0}) × Engines c). x.0) h) in
      let engines =
        sym (ap (λ (x : Result (Unit {0}) × Engines c). x.1) h)
        ∙ reload-fresh c ds p.engines (new_manager c)
            (ap (λ (x : Result (Unit {0}) × Engines c). x.0) h) in
      (refl, (ran, engines), inr ((ran, engines), inl refl))
  compiled-Advanced p (err e, es) h =
      let ds = enabled_directives t in
      (
        refl,
        reload-same c ds p.engines (new_manager c) (err e)
            (ap (λ (x : Result (Unit {0}) × Engines c). x.0) h),
        inl (λ i. record { engines = (reload-err c ds p.engines es e h).0 i; routing = p.routing }),
      )

  calm-Advanced :
      (pc : Pc c n) (p : Plane c n)
      → IsRight p pc
      → Advanced p (advance c n pc (record { db = calm t; plane = p }))
  unfolding advance enabled_rule_directives list_sites
  calm-Advanced Pc.begun p h = (refl, refl, inl refl)
  calm-Advanced (Pc.compiling ds) p h =
      rw h (compiled-Advanced p (Manager.reload c (enabled_directives t) p.engines) refl)
  calm-Advanced Pc.listing p h = (refl, (h, refl), inl refl)
  calm-Advanced (Pc.routing sites) p (es, same) = (refl, (es, rw (es.1, same) refl), inl refl)
  calm-Advanced (Pc.installing r) p (es, same) = (refl, (es, same), inr (es, inr same))
  calm-Advanced (Pc.returned none) p h = (refl, h, inl refl)
  calm-Advanced (Pc.returned (some e)) p h = (refl, h, inl refl)

  advance-Advanced :
      (pc : Pc c n) (s : Running c n)
      → s.db ≡ calm t
      → IsRight s.plane pc
      → Advanced s.plane (advance c n pc s)
  advance-Advanced pc s same h = rw same (calm-Advanced pc s.plane h)

  record Agrees (p : Pair c n) : Type 0 where
    store : p.running.db ≡ calm t
    left : IsRight p.running.plane p.one
    right : IsRight p.running.plane p.two

  turn-Agrees : (p : Pair c n) (who : Turn c n) → Agrees p → Agrees (turn c n p who)
  unfolding turn
  turn-Agrees p first a =
      let (db, one, step) = advance-Advanced p.one p.running a.store a.left in
      record { store = db; left = one; right = IsRight-IsStep p.running.plane _ p.two step a.right }
  turn-Agrees p second a =
      let (db, two, step) = advance-Advanced p.two p.running a.store a.right in
      record { store = db; left = IsRight-IsStep p.running.plane _ p.one step a.left; right = two }

  interleave-Agrees :
      (p : Pair c n) (ts : List (Turn c n)) → Agrees p → Agrees (interleave c n p ts)
  unfolding interleave
  interleave-Agrees p [] a = a
  interleave-Agrees p (who ∷ ts) a = interleave-Agrees (turn c n p who) ts (turn-Agrees p who a)

  abbrev pub both_begun : Plane c n → Pair c n
  both_begun p = record {
    one = Pc.begun;
    two = Pc.begun;
    running = record { db = calm t; plane = p };
  }

  abbrev pub pc_of : Turn c n → Pair c n → Pc c n
  pc_of first p = p.one
  pc_of second p = p.two

  -- What the end of a reload says about the plane.
  abbrev pub Ended : Option Error → Plane c n → Type 0
  Ended none p = IsInstalled c n t p
  Ended (some e) p = (compiled c n t).0 ≡ err e

  IsRight-pc_of : (who : Turn c n) (p : Pair c n) → Agrees p → IsRight p.running.plane (pc_of who p)
  IsRight-pc_of first p a = a.left
  IsRight-pc_of second p a = a.right

  IsRight-Ended : (p : Plane c n) (r : Option Error) → IsRight p (Pc.returned r) → Ended r p
  IsRight-Ended p none ((ran, engines), routing) =
      (ran, λ i. record { engines = engines i; routing = routing i })
  IsRight-Ended p (some e) h = h

  -- While the database works and nothing is written, however two reloads interleave: from when one of
  -- them has returned without an error, the engines in use are those compiled from the enabled rules
  -- and the routes are those of the stored sites; and one that returned an error returned that of the
  -- compilation.
  pub interleave-Ended :
      (p : Plane c n) (ts : List (Turn c n)) (who : Turn c n) (r : Option Error)
      → pc_of who (interleave c n (both_begun p) ts) ≡ Pc.returned r
      → Ended r (interleave c n (both_begun p) ts).running.plane
  interleave-Ended p ts who r h =
      let agreed =
        interleave-Agrees (both_begun p) ts (record { store = refl; left = tt; right = tt }) in
      let end = interleave c n (both_begun p) ts in
      IsRight-Ended end.running.plane r
        (subst (IsRight end.running.plane) h (IsRight-pc_of who end agreed))
