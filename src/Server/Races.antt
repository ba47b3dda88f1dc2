-- ===== src/Server/Races.antt =====
-- The callback `reload` of cmd/wafportal/main.go step by step. No lock is held over the whole of it, so that
-- two calls of the API that run at once interleave their steps; a step is what one statement of the
-- database, one swap under a mutex, or the code between them does.
pub mod Lost
pub mod Agreement
use wafportal.Base.{Text, ℕ, zero, suc, Option, none, some, List, [], ◌∷◌, Result, ok, err, Error}
use wafportal.Store.Models.{Site}
use wafportal.Store.Db.{Db}
use wafportal.Store.Sites.{list_sites}
use wafportal.Store.Rules.{enabled_rule_directives}
use wafportal.Waf.Coraza.{Coraza}
use wafportal.Waf.Manager as Manager
use wafportal.Waf.Manager.{Engines}
use wafportal.Proxy as Proxy
use wafportal.Proxy.{Routing}
use wafportal.Proxy.Network.{Net}
use wafportal.Server.{Plane, Running}

module _ (c : Coraza) (n : Net) where
  -- Where a reload stands, with its local variables.
  pub data Pc : Type 0 where
    begun listing : Pc
    compiling : List Text → Pc
    routing : List Site → Pc
    installing : Routing c n → Pc
    returned : Option Error → Pc

  abbrev pub rules_read : Result (List Text) × Db → Running c n → Pc × Running c n
  rules_read (err e, db) s = (returned (some e), record s { db = db })
  rules_read (ok directives, db) s = (compiling directives, record s { db = db })

  abbrev pub compiled_to : Result (Unit {0}) × Engines c → Running c n → Pc × Running c n
  compiled_to (err e, engines) s =
      (returned (some e), record s { plane = record s.plane { engines = engines } })
  compiled_to (ok _, engines) s =
      (listing, record s { plane = record s.plane { engines = engines } })

  abbrev pub sites_read : Result (List Site) × Db → Running c n → Pc × Running c n
  sites_read (err e, db) s = (returned (some e), record s { db = db })
  sites_read (ok sites, db) s = (routing sites, record s { db = db })

  unfoldable pub advance : Pc → Running c n → Pc × Running c n
  advance begun s = rules_read (enabled_rule_directives s.db) s
  advance (compiling directives) s = compiled_to (Manager.reload c directives s.plane.engines) s
  advance listing s = sites_read (list_sites s.db) s
  advance (routing sites) s = (installing (Proxy.reload c n s.plane.engines sites), s)
  advance (installing t) s = (returned none, record s { plane = record s.plane { routing = t } })
  advance (returned r) s = (returned r, s)

  -- So many steps of one reload, with nothing in between.
  pub steps : ℕ → Pc × Running c n → Pc × Running c n
  steps zero x = x
  steps (suc m) x = steps m (advance x.0 x.1)

  -- Two reloads over the shared state.
  pub record Pair : Type 0 where
    pub one : Pc
    pub two : Pc
    pub running : Running c n

  pub data Turn : Type 0 where
    first second : Turn

  unfoldable pub turn : Pair → Turn → Pair
  turn p first = let (pc, s) = advance p.one p.running in record p { one = pc; running = s }
  turn p second = let (pc, s) = advance p.two p.running in record p { two = pc; running = s }

  unfoldable pub interleave : Pair → List Turn → Pair
  interleave p [] = p
  interleave p (t ∷ ts) = interleave (turn p t) ts
