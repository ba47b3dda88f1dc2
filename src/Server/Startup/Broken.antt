-- ===== src/Server/Startup/Broken.antt =====
-- A stored rule that does not compile keeps main from starting.
use wafportal.Base.{
  Text, text, is_empty, ℕ, ◌≡◌, refl, ap, ◌∙◌, continue, Option, none, some, ok, err, Error, Result,
  ◌++◌, false,
}
use wafportal.Store.Models.{CustomRule}
use wafportal.Store.Db.{Db, Tables, Call}
use wafportal.Store.Db.Effects.{IsHealthy}
use wafportal.Waf.Coraza.{Coraza}
use wafportal.Proxy.Network.{Net}
use wafportal.Auth.Primitives.{Crypto}
use wafportal.Auth.Account.{calm}
use wafportal.Config.{Config}
use wafportal.Api.State.{Moment, rejected}
use wafportal.Api.Rules.{update_rule}
use wafportal.Api.Rules.Rollback.{with_change}
use wafportal.Server.{Running, Reloaded, reload}
use wafportal.Server.RuleRejection.{update_rule-lasting}
use wafportal.Server.Startup.{
  Host, configured, fatal, migrate, open_store, first_plane, plane_of, first_reload, loaded,
  open_portal, boot_with, boot,
}

module _ {Rate : Type 0} (rate : ℕ → Rate) (c : Coraza) (n : Net) (k : Crypto) (h : Host Rate)
    (cfg : Config Rate) where
  first : Tables → Running c n
  first t = record { db = calm t; plane = first_plane rate c n k }

  plane_of-err : (r : Reloaded c n) (e : Error) → r.0 ≡ some e → (plane_of rate c n k r).0 ≡ err e
  plane_of-err (none, s) e f = cc
  plane_of-err (some d, s) e f = cc

  open_calm : (e : Option Error) (t : Tables) → e ≡ none → open_store e (calm t) ≡ (ok tt, calm t)
  unfolding open_store migrate
  open_calm none t o = refl
  open_calm (some e) t o = cc

  continue-err :
      {A B : Type 0} (what : Text) (r : Result A × Db) (f : A → Call B) (e : Error)
      → r.0 ≡ err e
      → (continue (fatal what r) f).0 ≡ err (what ++ e)
  continue-err what (ok a, db) f e g = cc
  continue-err what (err d, db) f e g = cc

  boot_with-refused :
      (t : Tables) (e : Error)
      → h.sql_open ≡ none
      → (reload c n (first t)).0 ≡ some e
      → (boot_with rate c n k h cfg (calm t)).0 ≡ err (text "initial WAF load: " ++ e)
  unfolding boot_with first_reload first
  boot_with-refused t e opened f =
      ap
        (λ (r : Result (Unit {0}) × Db).
          (continue (fatal (text "store: ") r) (λ _ db.
            continue (fatal (text "initial WAF load: ") (first_reload rate c n k db))
              (open_portal rate c n k h cfg))).0)
        (open_calm h.sql_open t opened)
      ∙ continue-err (text "initial WAF load: ") (first_reload rate c n k (calm t))
          (open_portal rate c n k h cfg) e (plane_of-err (reload c n (first t)) e f)

  -- Where the first reload fails, so does the start, with its error.
  boot-refused :
      (t : Tables) (e : Error)
      → configured rate h ≡ (none, cfg)
      → h.sql_open ≡ none
      → (reload c n (first t)).0 ≡ some e
      → (boot rate c n k h (calm t)).0 ≡ err (text "initial WAF load: " ++ e)
  unfolding boot
  boot-refused t e read opened f =
      ap
        (λ (r : Option Error × Config Rate).
          (continue (fatal (text "config: ") (loaded rate r (calm t))) (boot_with rate c n k h)).0)
        read
      ∙ boot_with-refused t e opened f

  -- While the database works, a complete change of a rule that the reload refuses is answered by
  -- the error; but with a configuration that is read and a database that opens, a start on what
  -- this leaves ends at its first reload, with the same error.
  pub update_rule-boot :
      (m : Moment) (id : Text) (rule : CustomRule) (s : Running c n) (e : Error)
      → is_empty rule.name ≡ false
      → is_empty rule.directive ≡ false
      → IsHealthy s.db
      → (reload c n (with_change (reload c n) m id rule s)).0 ≡ some e
      → configured rate h ≡ (none, cfg)
      → h.sql_open ≡ none
      → ((update_rule (some (reload c n)) m id (ok rule) s).0 ≡ rejected e)
        × ((boot rate c n k h
              (calm (update_rule (some (reload c n)) m id (ok rule) s).1.db.tables)).0
            ≡ err (text "initial WAF load: " ++ e))
  update_rule-boot m id rule s e name directive healthy refused read opened =
      let t = (update_rule (some (reload c n)) m id (ok rule) s).1.db.tables in
      let (answer, again) =
        update_rule-lasting c n m id rule s (first t) e name directive healthy refused
          (unfold first in refl) (unfold first in refl) in
      (answer, boot-refused t e read opened again)
