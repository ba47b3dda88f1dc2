-- ===== src/Server/Races/Lost.antt =====
-- One reload alone, and two that overlap.
use wafportal.Base.{Text, ◌≡◌, refl, Option, none, List, [], ◌∷◌, Result, ok, err, Error}
use wafportal.Store.Models.{Site, CustomRule, Time}
use wafportal.Store.Db.{Db, Tables}
use wafportal.Store.Sites.{list_sites}
use wafportal.Store.Rules.{enabled_rule_directives, enabled_directives, create_rule}
use wafportal.Waf.Coraza.{Coraza}
use wafportal.Waf.Manager as Manager
use wafportal.Waf.Manager.{Engines, new_manager}
use wafportal.Waf.Manager.Swap.{reload-same, reload-fresh}
use wafportal.Proxy.Network.{Net}
use wafportal.Auth.Account.{calm}
use wafportal.Server.{Plane, Running, reload, install, install_engines, install_sites}
use wafportal.Server.Current.{compiled}
use wafportal.Server.Installed.{plane_with}
use wafportal.Server.Races.{
  Pc, rules_read, compiled_to, sites_read, advance, steps, Pair, first, second, turn, interleave,
}

module _ (c : Coraza) (n : Net) where
  abbrev done : Option Error × Running c n → Pc c n × Running c n
  done (r, s) = (Pc.returned r, s)

  sites_steps :
      (r : Result (List Site) × Db) (s : Running c n)
      → steps c n 2 (sites_read c n r s) ≡ done (install_sites c n r s.plane)
  unfolding steps advance install_sites
  sites_steps (err e, db) s = refl
  sites_steps (ok sites, db) s = refl

  engines_steps :
      (r : Result (Unit {0}) × Engines c) (s : Running c n)
      → steps c n 3 (compiled_to c n r s) ≡ done (install_engines c n r s.db s.plane)
  unfolding steps advance install_engines
  engines_steps (err e, engines) s = refl
  engines_steps (ok _, engines) s =
      sites_steps (list_sites s.db) (record s { plane = record s.plane { engines = engines } })

  rules_steps :
      (r : Result (List Text) × Db) (s : Running c n)
      → steps c n 4 (rules_read c n r s) ≡ done (install c n r s.plane)
  unfolding steps advance install
  rules_steps (err e, db) s = refl
  rules_steps (ok ds, db) s =
      engines_steps (Manager.reload c ds s.plane.engines) (record s { db = db })

  -- A reload that nothing interrupts returns and leaves, after five steps, what `reload` does.
  pub steps-alone :
      (s : Running c n)
      → steps c n 5 (Pc.begun, s) ≡ (Pc.returned (reload c n s).0, (reload c n s).1)
  unfolding steps advance reload
  steps-alone s = rules_steps (enabled_rule_directives s.db) s

  -- The engines that any engines in use are replaced by.
  replaced :
      (t : Tables) (es : Engines c)
      → (compiled c n t).0 ≡ ok tt
      → Manager.reload c (enabled_directives t) es ≡ (ok tt, (compiled c n t).1)
  replaced t es h =
      let ds = enabled_directives t in
      let ran = reload-same c ds (new_manager c) es (ok tt) h in
      λ i. (ran i, reload-fresh c ds es (new_manager c) ran i)

  -- A first reload has read the rules; then a rule is stored and reloaded by a second call, while the first
  -- still compiles; then the first goes on.
  abbrev pub overlapped : Tables → Plane c n → Time → CustomRule → Pair c n
  overlapped t p now rule =
      let begin : Pair c n = record {
        one = Pc.begun;
        two = Pc.begun;
        running = record { db = calm t; plane = p };
      } in
      let reading = turn c n begin first in
      let db' = (create_rule now rule reading.running.db).1 in
      interleave c n (record reading { running = record reading.running { db = db' } })
        (second ∷ second ∷ second ∷ second ∷ second ∷ first ∷ first ∷ first ∷ first ∷ [])

  abbrev pub with_new : Tables → Time → CustomRule → Tables
  with_new t now rule = (create_rule now rule (calm t)).1.tables

  -- While the database works: where a second call stores a rule and reloads after a first reload
  -- has read the rules and before it installs its engines, and the rules compile with the new one
  -- and without it, both reloads succeed, and the engines and routes that they leave are built
  -- without the new rule, which is stored.
  pub overlapped-lost :
      (t : Tables) (p : Plane c n) (now : Time) (rule : CustomRule)
      → (compiled c n t).0 ≡ ok tt
      → (compiled c n (with_new t now rule)).0 ≡ ok tt
      → ((overlapped t p now rule).one ≡ Pc.returned none)
        × ((overlapped t p now rule).two ≡ Pc.returned none)
        × ((overlapped t p now rule).running.db.tables ≡ with_new t now rule)
        × ((overlapped t p now rule).running.plane
            ≡ plane_with c n (compiled c n t).1 (with_new t now rule))
  unfolding turn interleave advance enabled_rule_directives list_sites create_rule
  overlapped-lost t p now rule old new =
      let e2 = replaced (with_new t now rule) p.engines new in
      let e1 = replaced t (compiled c n (with_new t now rule)).1 old in
      rw (e2, e1) (refl, refl, refl, refl)
