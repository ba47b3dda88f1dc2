-- ===== src/Api/Account.antt =====
-- login, logout, me and changePassword of internal/api/api.go.
use wafportal.Base.{Text, text, pos, Bool, true, false, Option, none, some, [], Result, ok, err}
use wafportal.Auth
use wafportal.Auth.Primitives.{Crypto}
use wafportal.Auth.Session
use wafportal.Auth.Session.{verify, current_user, issue_cookie}
use wafportal.Api.Wire.{Credentials, PasswordChange, Body}
use wafportal.Api.State.{
  State, Moment, Handled, on_db, write_json, write_err, invalid_json, no_content,
}

abbrev pub or_nobody : Option Text → Text
or_nobody none = []
or_nobody (some u) = u

module _ (k : Crypto) {Plane : Type 0} where
  abbrev pub answer_login : Moment → Bool → Credentials → Bool × State Plane → Handled Plane
  answer_login m tls body (false, s) =
      (write_err (pos 401) (text "invalid username or password"), s)
  answer_login m tls body (true, s) = (
    record {
      status = pos 200;
      body = Body.user body.username;
      cookie = some (issue_cookie k m.secret m.now tls body.username);
    },
    s,
  )

  unfoldable pub login : Moment → Bool → Result Credentials → State Plane → Handled Plane
  login m tls (err e) s = (invalid_json e, s)
  login m tls (ok body) s =
      answer_login m tls body (on_db (Auth.check k body.username body.password) s)

  unfoldable pub logout : State Plane → Handled Plane
  logout s = (record { status = pos 204; body = Body.nothing; cookie = some Session.clear }, s)

  unfoldable pub me : Moment → Option Text → State Plane → Handled Plane
  me m session s =
      (write_json (pos 200) (Body.user (or_nobody (current_user k m.secret m.now session))), s)

  abbrev pub answer_change : Result (Unit {0}) × State Plane → Handled Plane
  answer_change (ok _, s) = (no_content, s)
  answer_change (err e, s) = (write_err (pos 400) e, s)

  unfoldable pub change_password : Moment → Result PasswordChange → State Plane → Handled Plane
  change_password m (err e) s = (invalid_json e, s)
  change_password m (ok body) s =
      answer_change (on_db (Auth.change_password k m.salt body.current body.next) s)
