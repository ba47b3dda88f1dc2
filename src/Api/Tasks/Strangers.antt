-- ===== src/Api/Tasks/Strangers.antt =====
-- What a call of internal/api/api.go without a session can do at most: read the settings, for a login.
use wafportal.Base.{
  Text, ◌≡◌, Bool, true, Bool-cases, inl, inr, Option, none, Result, ok, err, Error,
}
use wafportal.Base.Tasks.{Keeps}
use wafportal.Auth.{peek_setting}
use wafportal.Auth.Primitives.{Crypto}
use wafportal.Auth.Session.{verify}
use wafportal.Api.{is_public}
use wafportal.Api.Wire.{Endpoint, Call, Credentials}
use wafportal.Api.State.{State, Moment, on_db}
use wafportal.Api.Tasks.{Work, login, dispatch, handle}

module _ {Plane : Type 0} (P : State Plane → Type 0)
    (reads : (key : Text) (s : State Plane) → P s → P (on_db (peek_setting key) s).1)
    (rt : Option (Work Plane (Option Error))) (k : Crypto) where
  login-Keeps : (m : Moment) (tls : Bool) (r : Result Credentials) → Keeps P (login k m tls r)
  unfolding login Keeps
  login-Keeps m tls (err e) = tt
  login-Keeps m tls (ok body) = λ s h. (reads _ s h, λ s h. (reads _ s h, tt))

  public-Keeps :
      (m : Moment) (tls : Bool) (session : Option Text) (e : Endpoint)
      → is_public e ≡ true
      → Keeps P (dispatch rt k m tls session e)
  unfolding dispatch Keeps
  public-Keeps m tls session Endpoint.health h = tt
  public-Keeps m tls session (Endpoint.login body) h = login-Keeps m tls body
  public-Keeps m tls session Endpoint.logout h = tt
  public-Keeps m tls session Endpoint.me h = cc
  public-Keeps m tls session (Endpoint.change_password body) h = cc
  public-Keeps m tls session Endpoint.list_sites h = cc
  public-Keeps m tls session (Endpoint.create_site body) h = cc
  public-Keeps m tls session (Endpoint.get_site id) h = cc
  public-Keeps m tls session (Endpoint.update_site id body) h = cc
  public-Keeps m tls session (Endpoint.delete_site id) h = cc
  public-Keeps m tls session Endpoint.list_rules h = cc
  public-Keeps m tls session (Endpoint.create_rule body) h = cc
  public-Keeps m tls session (Endpoint.get_rule id) h = cc
  public-Keeps m tls session (Endpoint.update_rule id body) h = cc
  public-Keeps m tls session (Endpoint.delete_rule id) h = cc
  public-Keeps m tls session (Endpoint.list_events q) h = cc
  public-Keeps m tls session (Endpoint.stats window) h = cc

  -- A call whose cookie is not accepted keeps whatever reading a setting keeps.
  pub stranger-Keeps :
      (m : Moment) (call : Call)
      → verify k m.secret m.now call.session ≡ none
      → Keeps P (handle rt k m call)
  unfolding handle
  stranger-Keeps m call stranger = elim (Bool-cases (is_public call.endpoint)) [
    | inl open_to_all ↦
        rw open_to_all (public-Keeps m call.tls call.session call.endpoint open_to_all)
    | inr closed ↦ rw (closed, stranger) (unfold Keeps in tt)
  ]
