-- ===== src/Server/Startup/Ready.antt =====
-- What holds once main has started the servers, and when it does not get there.
use wafportal.Base.{
  Text, text, is_empty, ℕ, ◌≡◌, refl, sym, ap, ◌∙◌, ◌⊎◌, inl, inr, if◌then◌else◌, Option, none,
  some, [], ◌∷◌, Result, ok, err, Error, continue,
}
use wafportal.Store.Db.{Db, Tables, Call}
use wafportal.Store.Db.Effects.{IsHealthy}
use wafportal.Store.Rules.{enabled_directives}
use wafportal.Waf.Coraza.{Coraza}
use wafportal.Waf.Manager
use wafportal.Waf.Manager.{new_manager}
use wafportal.Proxy.Network.{Net}
use wafportal.Auth
use wafportal.Auth.{Authenticator}
use wafportal.Auth.Primitives.{Crypto}
use wafportal.Auth.Account.{calm, Matches}
use wafportal.Auth.Startup.{LetsIn, new-check}
use wafportal.Config.{Config}
use wafportal.Server.{Plane, Reloaded, Running, reload}
use wafportal.Server.Refused.{reload-tables, reload-IsHealthy}
use wafportal.Server.Installed.{Outcome, plane_with, reload-Outcome}
use wafportal.Server.Startup.{
  Host, configured, loaded, fatal, fails_with, migrate, open_store, first_plane, plane_of,
  first_reload, announce, admin_password, Started, serve, open_portal, boot_with, boot,
  start_servers, forwarded_of,
}

-- A bind that succeeds ran its first call, and its second on what that left.
bind-fatal :
    {A B : Type 0} (what : Text) (r : Result A × Db) (s : Db) (f : A → Call B) (b : B) (db : Db)
    → (fatal what r).1 ≡ s
    → continue (fatal what r) f ≡ (ok b, db)
    → (a : A) × (r.0 ≡ ok a) × (f a s ≡ (ok b, db))
bind-fatal what (ok a, db') s f b db e h = (a, refl, rw (← e) h)
bind-fatal what (err x, db') s f b db e h = cc

module _ {Rate : Type 0} (rate : ℕ → Rate) (c : Coraza) (n : Net) (k : Crypto) where
  first : Tables → Running c n
  first t = record { db = calm t; plane = first_plane rate c n k }

  store_stays :
      (e : Option Error) (t : Tables) → (fatal (text "store: ") (open_store e (calm t))).1 ≡ calm t
  unfolding open_store migrate
  store_stays none t = refl
  store_stays (some e) t = refl

  loaded_stays :
      (r : Option Error × Config Rate) (t : Tables)
      → (fatal (text "config: ") (loaded rate r (calm t))).1 ≡ calm t
  loaded_stays (none, cfg) t = refl
  loaded_stays (some e, cfg) t = refl

  loaded-ok :
      (r : Option Error × Config Rate) (t : Tables) (cfg : Config Rate)
      → (loaded rate r (calm t)).0 ≡ ok cfg
      → r ≡ (none, cfg)
  loaded-ok (none, cfg') t cfg h = cc
  loaded-ok (some e, cfg') t cfg h = cc

  calm-Db : (db : Db) (t : Tables) → IsHealthy db → db.tables ≡ t → db ≡ calm t
  calm-Db db t h e = λ i. record { tables = e i; faults = h i }

  plane_of-Db : (r : Reloaded c n) → (plane_of rate c n k r).1 ≡ r.1.db
  plane_of-Db (none, s) = refl
  plane_of-Db (some e, s) = refl

  first_reload_stays : (t : Tables) → (first_reload rate c n k (calm t)).1 ≡ calm t
  unfolding first_reload first
  first_reload_stays t =
      plane_of-Db (reload c n (first t))
      ∙ calm-Db (reload c n (first t)).1.db t (reload-IsHealthy c n (first t) refl)
          (reload-tables c n (first t))

  abbrev pub compiled : Tables → Result (Unit {0}) × Manager.Engines c
  compiled t = Manager.reload c (enabled_directives t) (new_manager c)

  fatal_stays :
      (t : Tables)
      → (fatal (text "initial WAF load: ") (first_reload rate c n k (calm t))).1 ≡ calm t
  fatal_stays t = fatal-Db (first_reload rate c n k (calm t)) ∙ first_reload_stays t
    where
      fatal-Db : (r : Result (Plane c n) × Db) → (fatal (text "initial WAF load: ") r).1 ≡ r.1
      fatal-Db (ok p, db) = refl
      fatal-Db (err e, db) = refl

  plane_of-ok :
      (r : Reloaded c n) (p : Plane c n)
      → (plane_of rate c n k r).0 ≡ ok p
      → (r.0 ≡ none) × (p ≡ r.1.plane)
  plane_of-ok (none, s) p h = (refl, cc)
  plane_of-ok (some e, s) p h = cc

  first_reload-ok :
      (t : Tables) (p : Plane c n)
      → (first_reload rate c n k (calm t)).0 ≡ ok p
      → ((compiled t).0 ≡ ok tt) × (p ≡ plane_with c n (compiled t).1 t)
  unfolding first_reload first
  first_reload-ok t p h = by_outcome (compiled t).0 refl (reload-Outcome c n (first t) refl)
    where
      done : ((reload c n (first t)).0 ≡ none) × (p ≡ (reload c n (first t)).1.plane)
      done = plane_of-ok (reload c n (first t)) p h

      by_outcome :
          (x : Result (Unit {0}))
          → (compiled t).0 ≡ x
          → Outcome c n (first t) x
          → ((compiled t).0 ≡ ok tt) × (p ≡ plane_with c n (compiled t).1 t)
      by_outcome (ok _) e (ran, plane) = (e, done.1 ∙ plane)
      by_outcome (err d) e refused = cc (done.0, refused)

  -- The password that main is given: that of the environment, or that of the configuration where
  -- the environment has none.
  abbrev pub IsGiven : Host Rate → Text → Type 0
  IsGiven h password =
      (h.env_password ≡ password)
      ⊎ ((h.env_password ≡ []) × ((configured rate h).1.admin.password ≡ password))

  -- What main has built when the servers start.
  pub record IsReady (h : Host Rate) (t : Tables) (st : Started rate c n k) : Type 0 where
    pub compiles : (compiled t).0 ≡ ok tt
    pub plane : st.plane ≡ plane_with c n (compiled t).1 t
    pub servers : st.servers ≡ start_servers (configured rate h).1

  module _ (matches : Matches k) (h : Host Rate) (ch : ℕ) (rest : Text) where
    serve-ok :
        (cfg : Config Rate) (p : Plane c n) (a : Authenticator) (db0 db : Db)
        (st : Started rate c n k)
        → a.generated_password ≡ []
        → serve rate c n k h cfg p a db0 ≡ (ok st, db)
        → (db0 ≡ db) × (st.plane ≡ p) × (st.authenticator ≡ a) × (st.servers ≡ start_servers cfg)
    unfolding serve
    serve-ok cfg p a db0 db st quiet served =
        dist_ok h.dist (announce rate c n k a db0) announced served
      where
        announced : announce rate c n k a db0 ≡ (ok tt, db0)
        announced = rw (ap is_empty quiet) refl

        dist_ok :
            (e : Option Error) (r : Result (Unit {0}) × Db)
            → r ≡ (ok tt, db0)
            → continue r (λ _ d. continue (fatal (text "embedded SPA: ") (fails_with e d)) (λ _ d'.
              (
                ok (record {
                  plane = p;
                  authenticator = a;
                  limiter =
                      if cfg.rate_limit.enabled
                      then some (cfg.rate_limit.requests_per_second, cfg.rate_limit.burst)
                      else none;
                  forwarded = forwarded_of rate cfg;
                  servers = start_servers cfg;
                }),
                d',
              )))
              ≡ (ok st, db)
            → (db0 ≡ db)
              × (st.plane ≡ p)
              × (st.authenticator ≡ a)
              × (st.servers ≡ start_servers cfg)
        dist_ok none r e h = let g = rw e at h in (cc, cc, cc, cc)
        dist_ok (some x) r e h = cc (rw e at h)

    open_portal-ok :
        (cfg : Config Rate) (p : Plane c n) (t : Tables) (st : Started rate c n k) (db : Db)
        → admin_password rate h cfg ≡ ch ∷ rest
        → open_portal rate c n k h cfg p (calm t) ≡ (ok st, db)
        → (st.plane ≡ p)
          × (st.servers ≡ start_servers cfg)
          × LetsIn k matches h.entropy cfg.admin.username ch rest st.authenticator db
    unfolding open_portal
    open_portal-ok cfg p t st db given opened =
        by_result (Auth.new k h.entropy cfg.admin.username (admin_password rate h cfg) (calm t))
          refl opened
      where
        by_result :
            (r : Result Authenticator × Db)
            → Auth.new k h.entropy cfg.admin.username (admin_password rate h cfg) (calm t) ≡ r
            → continue (fatal (text "auth: ") r) (λ a. serve rate c n k h cfg p a) ≡ (ok st, db)
            → (st.plane ≡ p)
              × (st.servers ≡ start_servers cfg)
              × LetsIn k matches h.entropy cfg.admin.username ch rest st.authenticator db
        by_result (err e, db0) made served = cc
        by_result (ok a, db0) made served =
            let in_then =
              new-check k matches h.entropy cfg.admin.username ch rest t a db0 (rw given at made) in
            let (same_db, plane, same, servers) = serve-ok cfg p a db0 db st in_then.0 served in
            (plane, servers, rw (← same_db) (rw same in_then))

    given-admin_password :
        (cfg : Config Rate)
        → configured rate h ≡ (none, cfg)
        → IsGiven h (ch ∷ rest)
        → admin_password rate h cfg ≡ ch ∷ rest
    given-admin_password cfg same (inl set) = rw set refl
    given-admin_password cfg same (inr (unset, written)) =
        rw unset (ap (λ (x : Option Error × Config Rate). x.1.admin.password) (sym same) ∙ written)

    boot_with-ok :
        (cfg : Config Rate) (t : Tables) (st : Started rate c n k) (db : Db)
        → admin_password rate h cfg ≡ ch ∷ rest
        → boot_with rate c n k h cfg (calm t) ≡ (ok st, db)
        → ((compiled t).0 ≡ ok tt)
          × (st.plane ≡ plane_with c n (compiled t).1 t)
          × (st.servers ≡ start_servers cfg)
          × LetsIn k matches h.entropy cfg.admin.username ch rest st.authenticator db
    unfolding boot_with
    boot_with-ok cfg t st db given booted =
        let (u, opened, b) =
          bind-fatal (text "store: ") (open_store h.sql_open (calm t)) (calm t)
            (λ _ db.
              continue (fatal (text "initial WAF load: ") (first_reload rate c n k db))
                (open_portal rate c n k h cfg))
            st db (store_stays h.sql_open t) booted in
        let (p, installed, b') =
          bind-fatal (text "initial WAF load: ") (first_reload rate c n k (calm t)) (calm t)
            (open_portal rate c n k h cfg) st db (fatal_stays t) b in
        let (compiles, plane) = first_reload-ok t p installed in
        let (kept, servers, let_in) = open_portal-ok cfg p t st db given b' in
        (compiles, kept ∙ plane, servers, let_in)

    -- On a database that works, and with a password in the environment or, where that has none, in the
    -- configuration, main starts the servers only after the enabled rules compiled; the engines are those of the enabled rules and the routes
    -- those of the stored sites; the listeners are those of the configuration; and the stored user,
    -- named as configured unless that is blank, is let in with that password.
    pub boot-IsReady :
        (t : Tables) (st : Started rate c n k) (db : Db)
        → IsGiven h (ch ∷ rest)
        → boot rate c n k h (calm t) ≡ (ok st, db)
        → IsReady h t st
          × LetsIn k matches h.entropy
              (configured rate h).1.admin.username
              ch
              rest
              st.authenticator
              db
    unfolding boot
    boot-IsReady t st db given booted =
        let (cfg, read, b) =
          bind-fatal (text "config: ") (loaded rate (configured rate h) (calm t)) (calm t)
            (boot_with rate c n k h) st db (loaded_stays (configured rate h) t) booted in
        let same = loaded-ok (configured rate h) t cfg read in
        let (compiles, plane, servers, let_in) =
          boot_with-ok cfg t st db (given-admin_password cfg same given) b in
        rw same (record { compiles = compiles; plane = plane; servers = rw same servers }, let_in)
