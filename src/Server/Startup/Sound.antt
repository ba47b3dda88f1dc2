-- ===== src/Server/Startup/Sound.antt =====
-- What the calls of the database and the first reload keep, main keeps until it starts the servers.
use wafportal.Base.{
  Text, text, ℕ, is_empty, Bool-cases, inl, inr, Option, none, some, Result, ok, err, continue, ◌≡◌,
  Error,
}
use mathlib.Core.Path.{subst}
use wafportal.Store.Db.{Db, Call}
use wafportal.Waf.Coraza.{Coraza}
use wafportal.Proxy.Network.{Net}
use wafportal.Auth
use wafportal.Auth.{Authenticator, username, key_username}
use wafportal.Auth.Primitives.{Crypto}
use wafportal.Config.{Config}
use wafportal.Server.{Plane, Reloaded, reload}
use wafportal.Server.Startup.{
  Host, configured, loaded, fatal, fails_with, migrate, open_store, first_plane, plane_of,
  first_reload, announce, admin_password, Started, serve, open_portal, boot_with, boot,
}
use wafportal.Store.Settings.{get_setting, set_setting}
use wafportal.Auth.Keeps.{Keeps, username-Keeps, new-Keeps}

abbrev Anything : {A : Type 0} → A → Type 0
Anything a = Unit

module _ (V : Db → Type 0) where
  -- What holds after a call: the database is good, and so is what it returns, if it returns.
  abbrev pub Post : {A : Type 0} → (A → Type 0) → Result A × Db → Type 0
  Post Q (ok a, db) = V db × Q a
  Post Q (err e, db) = V db

  module _ {A : Type 0} (Q : A → Type 0) where
    fatal-Post : (what : Text) (r : Result A × Db) → Post Q r → Post Q (fatal what r)
    fatal-Post what (ok a, db) p = p
    fatal-Post what (err e, db) p = p

    continue-Post :
        {B : Type 0} (R : B → Type 0) (r : Result A × Db) (f : A → Call B)
        → Post Q r
        → ((a : A) (db : Db) → Q a → V db → Post R (f a db))
        → Post R (continue r f)
    continue-Post R (ok a, db) f p k = k a db p.1 p.0
    continue-Post R (err e, db) f p k = p

    -- A step of main that ends it on an error.
    fatal-then :
        {B : Type 0} (R : B → Type 0) (what : Text) (r : Result A × Db) (f : A → Call B)
        → Post Q r
        → ((a : A) (db : Db) → Q a → V db → Post R (f a db))
        → Post R (continue (fatal what r) f)
    fatal-then R what r f p k = continue-Post R (fatal what r) f (fatal-Post what r p) k

  Keeps-Post : {A : Type 0} (r : Result A × Db) → V r.1 → Post Anything r
  Keeps-Post (ok a, db) v = (v, tt)
  Keeps-Post (err e, db) v = v

  fails_with-Post : (e : Option Error) (db : Db) → V db → Post Anything (fails_with e db)
  fails_with-Post none db v = (v, tt)
  fails_with-Post (some e) db v = v

  module _ (migrates : Keeps V migrate) (reads : (key : Text) → Keeps V (get_setting key))
      (writes : (key x : Text) → Keeps V (set_setting key x)) where
    open_store-Post : (e : Option Error) (db : Db) → V db → Post Anything (open_store e db)
    unfolding open_store
    open_store-Post e db v =
        fatal-then Anything Anything (text "open db: ") (fails_with e db) (λ _. migrate)
          (fails_with-Post e db v) (λ _ db' _ w. Keeps-Post (migrate db') (migrates db' w))

    module _ {Rate : Type 0} (rate : ℕ → Rate) (c : Coraza) (n : Net) (k : Crypto)
        (Q : Plane c n → Type 0) where
      abbrev pub FirstPost : Db → Type 0
      FirstPost db =
          V (reload c n (record { db = db; plane = first_plane rate c n k })).1.db
          × Q (reload c n (record { db = db; plane = first_plane rate c n k })).1.plane

      abbrev StartsIn : Started rate c n k → Type 0
      StartsIn st = Q st.plane

      plane_of-Post : (r : Reloaded c n) → V r.1.db × Q r.1.plane → Post Q (plane_of rate c n k r)
      plane_of-Post (none, s) g = g
      plane_of-Post (some e, s) g = g.0

      announce-Post :
          (a : Authenticator) (db : Db) → V db → Post Anything (announce rate c n k a db)
      announce-Post a db v = elim (Bool-cases (is_empty a.generated_password)) [
        | inl quiet ↦ rw quiet (v, tt)
        | inr said ↦ rw said (username-Keeps V reads writes db v, tt)
      ]

      serve-Post :
          (h : Host Rate) (cfg : Config Rate) (p : Plane c n) (a : Authenticator) (db : Db)
          → Q p
          → V db
          → Post StartsIn (serve rate c n k h cfg p a db)
      unfolding serve
      serve-Post h cfg p a db g v =
          continue-Post Anything StartsIn (announce rate c n k a db) _ (announce-Post a db v)
            λ _ db1 _ v1.
              fatal-then Anything StartsIn (text "embedded SPA: ") (fails_with h.dist db1) _
                (fails_with-Post h.dist db1 v1) λ _ db2 _ v2. (v2, g)

      module _ (reloads : (db : Db) → V db → FirstPost db) where
        boot_with-Post :
            (h : Host Rate) (cfg : Config Rate) (db : Db)
            → V db
            → Post StartsIn (boot_with rate c n k h cfg db)
        unfolding boot_with open_portal first_reload
        boot_with-Post h cfg db v =
            fatal-then Anything StartsIn (text "store: ") (open_store h.sql_open db) _
              (open_store-Post h.sql_open db v)
              λ _ db1 _ v1.
                fatal-then Q StartsIn (text "initial WAF load: ") (first_reload rate c n k db1) _
                  (plane_of-Post _ (reloads db1 v1))
                  λ p db2 g v2.
                    let made =
                      Auth.new k h.entropy cfg.admin.username (admin_password rate h cfg) db2 in
                    fatal-then Anything StartsIn (text "auth: ") made _
                      (Keeps-Post made (
                        new-Keeps V reads writes k h.entropy cfg.admin.username
                          (admin_password rate h cfg) db2 v2))
                      λ a db3 _ v3. serve-Post h cfg p a db3 g v3

        loaded-Post :
            (r : Option Error × Config Rate) (db : Db) → V db → Post Anything (loaded rate r db)
        loaded-Post (none, cfg) db v = (v, tt)
        loaded-Post (some e, cfg) db v = v

        boot-Post : (h : Host Rate) (db : Db) → V db → Post StartsIn (boot rate c n k h db)
        unfolding boot
        boot-Post h db v =
            fatal-then Anything StartsIn (text "config: ") (loaded rate (configured rate h) db) _
              (loaded-Post (configured rate h) db v) λ cfg db1 _ v1. boot_with-Post h cfg db1 v1

        -- Where main gets to start the servers, the database is still good, and so is the plane.
        pub boot_keeps :
            (h : Host Rate) (db db' : Db) (st : Started rate c n k)
            → V db
            → boot rate c n k h db ≡ (ok st, db')
            → V db' × Q st.plane
        boot_keeps h db db' st v booted =
            let held : Post StartsIn (boot rate c n k h db) = boot-Post h db v in
            subst (Post StartsIn) booted held
