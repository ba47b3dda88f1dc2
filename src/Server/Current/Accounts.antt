-- ===== src/Server/Current/Accounts.antt =====
-- What login and changePassword of internal/api/api.go leave while the database works.
use wafportal.Base.{Text, ◌≡◌, refl, Bool, true, false, Result, ok, err}
use wafportal.Store.Db.{Db, Tables}
use wafportal.Store.Db.Effects.{IsHealthy}
use wafportal.Store.Settings.{set_setting, get_setting}
use wafportal.Waf.Coraza.{Coraza}
use wafportal.Proxy.Network.{Net}
use wafportal.Auth
use wafportal.Auth.{lift, key_hash}
use wafportal.Auth.Primitives.{Crypto}
use wafportal.Auth.Account.{calm}
use wafportal.Api.Wire.{Credentials, PasswordChange}
use wafportal.Api.State.{Moment, on_db}
use wafportal.Api.Account as Account
use wafportal.Api.Account.{answer_login, answer_change}
use wafportal.Server.{Plane, Running}
use wafportal.Server.Current.{IsCurrent, InSync}
use wafportal.Server.Current.Calls.{at, IsQuiet, quiet-InSync}
use wafportal.Auth.Keeps.{Keeps, check-Keeps, change_password-Keeps}

-- The database works, and has these sites and rules.
abbrev pub IsLike : Tables → Db → Type 0
IsLike t db =
    IsHealthy db × (db.tables.rules.rows ≡ t.rules.rows) × (db.tables.sites.rows ≡ t.sites.rows)

pub get_setting-IsLike : (t : Tables) (key : Text) → Keeps (IsLike t) (get_setting key)
unfolding get_setting
get_setting-IsLike t key db (h, rules, sites) = rw h (refl, rules, sites)

pub set_setting-IsLike : (t : Tables) (key x : Text) → Keeps (IsLike t) (set_setting key x)
unfolding set_setting
set_setting-IsLike t key x db (h, rules, sites) = rw h (refl, rules, sites)

module _ (c : Coraza) (n : Net) (t : Tables) (p : Plane c n) (current : IsCurrent c n t p) where
  module _ (k : Crypto) where
    change-IsQuiet :
        (salt current next : Text) → IsQuiet c n (Auth.change_password k salt current next) t
    change-IsQuiet salt current next =
        let (healthy, rules, sites) =
          change_password-Keeps (IsLike t) (get_setting-IsLike t) (set_setting-IsLike t) k salt
            current next (calm t) (refl, refl, refl) in
        record { healthy = healthy; rules = rules; sites = sites }

    check-IsQuiet : (user pw : Text) → IsQuiet c n (Auth.check k user pw) t
    check-IsQuiet user pw =
        let (healthy, rules, sites) =
          check-Keeps (IsLike t) (get_setting-IsLike t) (set_setting-IsLike t) k user pw (calm t)
            (refl, refl, refl) in
        record { healthy = healthy; rules = rules; sites = sites }

    pub password-InSync :
        (m : Moment) (r : Result PasswordChange)
        → InSync c n (Account.change_password k m r (at c n t p)).1
    unfolding Account.change_password
    password-InSync m (err e) = (refl, current)
    password-InSync m (ok body) =
        answered (on_db (Auth.change_password k m.salt body.current body.next) (at c n t p))
          (quiet-InSync c n t p current _ (change-IsQuiet m.salt body.current body.next))
      where
        answered :
            (r : Result (Unit {0}) × Running c n)
            → InSync c n r.1
            → InSync c n (answer_change k r).1
        answered (ok _, s) h = h
        answered (err e, s) h = h

    pub login-InSync :
        (m : Moment) (tls : Bool) (r : Result Credentials)
        → InSync c n (Account.login k m tls r (at c n t p)).1
    unfolding Account.login
    login-InSync m tls (err e) = (refl, current)
    login-InSync m tls (ok body) =
        answered (on_db (Auth.check k body.username body.password) (at c n t p))
          (quiet-InSync c n t p current _ (check-IsQuiet body.username body.password))
      where
        answered :
            (r : Bool × Running c n) → InSync c n r.1 → InSync c n (answer_login k m tls body r).1
        answered (true, s) h = h
        answered (false, s) h = h
