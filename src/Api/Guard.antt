-- ===== src/Api/Guard.antt =====
-- The session check in front of the protected routes.
use wafportal.Base.{
  Text, ◌≡◌, refl, ◌⊎◌, Bool, true, false, Bool-cases, inl, inr, Option, none, Result, ok, err,
}
use wafportal.Store.Db.{Db}
use wafportal.Auth.Account.{check-tables}
use wafportal.Auth.{check}
use wafportal.Auth.Primitives.{Crypto}
use wafportal.Auth.Session.{verify}
use wafportal.Api.{is_public, dispatch, handle}
use wafportal.Api.Wire.{Endpoint, Call, Credentials}
use wafportal.Api.State.{State, Reload, Moment, Handled, unauthorized}
use wafportal.Api.Account.{login, logout, answer_login}

module _ (k : Crypto) {Plane : Type 0} (reload : Reload Plane) where
  abbrev Unchanged : State Plane → Handled Plane → Type 0
  Unchanged s h = (h.1.db.tables ≡ s.db.tables) × (h.1.plane ≡ s.plane)

  login-Unchanged :
      (m : Moment) (tls : Bool) (body : Result Credentials) (s : State Plane)
      → Unchanged s (login k m tls body s)
  unfolding login
  login-Unchanged m tls (err e) s = (refl, refl)
  login-Unchanged m tls (ok body) s =
      answered (check k body.username body.password s.db)
        (check-tables k body.username body.password s.db)
    where
      answered :
          (r : Bool × Db)
          → r.1.tables ≡ s.db.tables
          → Unchanged s (answer_login k m tls body (r.0, record s { db = r.1 }))
      answered (true, db) h = (h, refl)
      answered (false, db) h = (h, refl)

  public-Unchanged :
      (m : Moment) (tls : Bool) (session : Option Text) (endpoint : Endpoint) (s : State Plane)
      → is_public endpoint ≡ true
      → Unchanged s (dispatch k reload m tls session endpoint s)
  unfolding dispatch
  public-Unchanged m tls session Endpoint.health s p = (refl, refl)
  public-Unchanged m tls session (Endpoint.login body) s p = login-Unchanged m tls body s
  public-Unchanged m tls session Endpoint.logout s p = unfold logout in (refl, refl)
  public-Unchanged m tls session _ s p = cc

  -- A request without a valid session changes no table and neither the engines nor the routes,
  -- whatever its route; and unless the route is public it is answered by 401.
  pub handle-unauthorized :
      (m : Moment) (call : Call) (s : State Plane)
      → verify k m.secret m.now call.session ≡ none
      → ((handle k reload m call s).1.db.tables ≡ s.db.tables)
        × ((handle k reload m call s).1.plane ≡ s.plane)
        × ((is_public call.endpoint ≡ true) ⊎ ((handle k reload m call s).0 ≡ unauthorized))
  unfolding handle
  handle-unauthorized m call s v = elim (Bool-cases (is_public call.endpoint)) [
    | inl open_to_all ↦
        let (tables, plane) =
          public-Unchanged m call.tls call.session call.endpoint s open_to_all in
        rw open_to_all (tables, plane, inl refl)
    | inr closed ↦ rw (closed, v) (refl, refl, inr refl)
  ]
