-- ===== src/Api/Tasks/Agreement.antt =====
-- The sessions, the account and the statistics of internal/api/api.go, as tasks and in one go.
pub mod Routes
use wafportal.Base.{
  Text, Bool, true, false, Bool-cases, inl, inr, is_empty, ◌||◌, ℤ, pos, Option, none, some, Result,
  ok, err, Error, ◌≡◌, refl, sym, ap, ◌∙◌, continue, ltb, length, Group,
}
use wafportal.Base.Tasks.{run, done, ◌>>=◌, run-bind}
use wafportal.Store.Models.{Time, Site, CustomRule, Event, Stats}
use wafportal.Store.Db.{Db, Call as Query}
use wafportal.Store.Sites as Sites
use wafportal.Store.Rules as Rules
use wafportal.Store.Events as Events
use wafportal.Store.Stats as Summary
use wafportal.Store.Stats.{from_time}
use wafportal.Auth
use wafportal.Auth.{key_hash}
use wafportal.Store.Settings.{set_setting}
use wafportal.Auth.Primitives.{Crypto}
use wafportal.Auth.Session.{verify}
use wafportal.Api.{is_public, dispatch, guarded, handle}
use wafportal.Api.Wire.{Endpoint, Call, Body, Credentials, PasswordChange, Response}
use wafportal.Api.State as State
use wafportal.Api.State.{
  State, Reload, Moment, Handled, on_db, respond, apply_reload, apply_reload_err,
}
use wafportal.Api.Account as Account
use wafportal.Api.Account.{answer_login, answer_change}
use wafportal.Api.Sites as SiteRoutes
use wafportal.Api.Rules as RuleRoutes
use wafportal.Api.Events as EventRoutes
use wafportal.Api.Events.{window_of, filter_of}
use wafportal.Api.Validate.{validate_site, id_param}
use wafportal.Api.Tasks as Tasks
use wafportal.Api.Tasks.{
  Work, statement, answer, reply_with, after_reload, on_ok, and_then, gather, login_response,
  store_hash, change_response, replace_password,
}

module _ {Plane : Type 0} where
  answer-respond :
      {A : Type 0} (status : ℤ) (show : A → Body) (r : Result A × State Plane)
      → (answer status show r.0, r.1) ≡ respond status show r
  answer-respond status show (ok a, s) = refl
  answer-respond status show (err e, s) = refl

  pub reply_with-run :
      {A : Type 0} (status : ℤ) (show : A → Body) (m : Db → Result A × Db) (s : State Plane)
      → run (reply_with status show m) s ≡ respond status show (on_db m s)
  reply_with-run status show m s = answer-respond status show (on_db m s)

  -- Statements that follow one another as long as they succeed.
  module _ {A B : Type 0} (f : A → Work Plane (Result B)) (g : A → Query B)
      (same : (a : A) (s : State Plane) → run (f a) s ≡ on_db (g a) s) where
    on_ok-run :
        (r : Result A × Db) (s : State Plane)
        → run (on_ok f r.0) (record s { db = r.1 }) ≡ on_db (λ _. continue r g) s
    on_ok-run (ok a, db) s = same a (record s { db = db })
    on_ok-run (err e, db) s = refl

    and_then-run :
        (m : Query A) (s : State Plane)
        → run (and_then (statement m) f) s ≡ on_db (λ db. continue (m db) g) s
    and_then-run m s = on_ok-run (m s.db) s

  gather-run :
      (bare : Group Event → Event) (now : Time) (since : ℤ) (s : State Plane)
      → run (gather bare (from_time now since)) s ≡ on_db (Summary.stats bare now since) s
  unfolding Summary.stats
  gather-run bare now since s =
      let from = from_time now since in
      and_then-run _ _
        (λ counts.
          and_then-run _ _
            (λ rules.
              and_then-run _ _
                (λ clients. and_then-run _ _ (λ points s. refl) (Summary.timeline from))
                (Summary.top_clients from))
            (Summary.top_rules bare from))
        (Summary.count_events from) s

  pub stats-run :
      (m : Moment) (window : Option (Result ℤ)) (s : State Plane)
      → run (Tasks.stats m window) s ≡ EventRoutes.stats m window s
  unfolding Tasks.stats EventRoutes.stats
  stats-run m window s =
      run-bind (gather m.bare (from_time m.now (window_of window))) _ s
      ∙ (ap (λ r. (answer (pos 500) Body.stats r.0, r.1))
            (gather-run m.bare m.now (window_of window) s)
          ∙ answer-respond (pos 500) Body.stats _)

  module _ (k : Crypto) where
    pub login-run :
        (m : Moment) (tls : Bool) (r : Result Credentials) (s : State Plane)
        → run (Tasks.login k m tls r) s ≡ Account.login k m tls r s
    unfolding Tasks.login Account.login Auth.check
    login-run m tls (err e) s = refl
    login-run m tls (ok body) s = answered (on_db (Auth.check k body.username body.password) s)
      where
        answered :
            (r : Bool × State Plane)
            → (login_response k m tls body r.0, r.1) ≡ answer_login k m tls body r
        answered (false, s) = refl
        answered (true, s) = refl

    hashed-run :
        (h : Result Text) (s : State Plane)
        → run (store_hash h >>= λ r. done (change_response r)) s
          ≡ answer_change k (on_db (λ db. continue (h, db) (set_setting key_hash)) s)
    hashed-run (err e) s = refl
    hashed-run (ok hash) s = answered (on_db (set_setting key_hash hash) s)
      where
        answered :
            (r : Result (Unit {0}) × State Plane) → (change_response r.0, r.1) ≡ answer_change k r
        answered (ok _, s) = refl
        answered (err e, s) = refl

    replaced-run :
        (salt next : Text) (valid : Bool) (s : State Plane)
        → run (replace_password k salt next valid >>= λ r. done (change_response r)) s
          ≡ answer_change k (on_db (Auth.replace_password k salt next valid) s)
    unfolding Auth.set_password
    replaced-run salt next false s = refl
    replaced-run salt next true s = elim (Bool-cases (ltb (length next) 8)) [
      | inl short ↦ rw short refl
      | inr long ↦ rw long (hashed-run (k.hash_password salt next) s)
    ]

    pub change_password-run :
        (m : Moment) (r : Result PasswordChange) (s : State Plane)
        → run (Tasks.change_password k m r) s ≡ Account.change_password k m r s
    unfolding Tasks.change_password Account.change_password Auth.change_password Auth.check
        Auth.username
    change_password-run m (err e) s = refl
    change_password-run m (ok body) s = replaced-run m.salt body.next _ _
