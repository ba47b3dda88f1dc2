-- ===== src/Api/Login.antt =====
-- A login and the calls that carry the cookie it set.
use wafportal.Base.{
  ◌≡◌, ◌≤◌, refl, sym, ◌∙◌, ◌+◌, ◌/◌, ltb, IsBytes, max_int64, Bool, true, false, Bool-cases, inl,
  inr, some, ok,
}
use wafportal.Auth
use wafportal.Auth.Primitives.{Crypto}
use wafportal.Auth.Session.{Cookie, verify, issue_cookie, second, session_duration}
use wafportal.Auth.Session.Tokens.{NoBar, verify-issue_cookie}
use wafportal.Api.{is_public, dispatch, handle}
use wafportal.Api.Wire.{Endpoint, Call, Credentials}
use wafportal.Api.State.{State, Reload, Moment, on_db}
use wafportal.Api.Account.{login, answer_login}

module _ (k : Crypto) {Plane : Type 0} (reload : Reload Plane) (m m' : Moment)
    (s s' : State Plane) where
  -- A cookie is set only for the right password.
  answer-cookie :
      (tls : Bool) (body : Credentials) (r : Bool × State Plane) (ck : Cookie)
      → (answer_login k m tls body r).0.cookie ≡ some ck
      → (r.0 ≡ true) × (ck ≡ issue_cookie k m.secret m.now tls body.username)
  answer-cookie tls body (true, t) ck h = (refl, sym cc)
  answer-cookie tls body (false, t) ck h = cc

  -- A login that sets a cookie was made with the stored name and password; and a later call with that
  -- cookie, of any route and in any state of the server, is handled as its route says, for the user who
  -- logged in: as long as the secret is the same and the cookie has not expired, and where the name has no
  -- bar and the expiry is in the range of int64.
  pub login-handle :
      (body : Credentials) (first call : Call) (ck : Cookie)
      → first.endpoint ≡ Endpoint.login (ok body)
      → (handle k reload m first s).0.cookie ≡ some ck
      → call.session ≡ some ck.value
      → m'.secret ≡ m.secret
      → ltb ((m.now + session_duration) / second) (m'.now / second) ≡ false
      → NoBar body.username
      → IsBytes body.username
      → (m.now + session_duration) / second ≤ max_int64
      → ((Auth.check k body.username body.password s.db).0 ≡ true)
        × (verify k m'.secret m'.now call.session ≡ some body.username)
        × (handle k reload m' call s' ≡ dispatch k reload m' call.tls call.session call.endpoint s')
  unfolding handle dispatch login
  login-handle body first call ck route set sent kept fresh nobar bytes range =
      let set' : (answer_login k m first.tls body
            (on_db (Auth.check k body.username body.password) s)).0.cookie
          ≡ some ck =
        rw route at set in
      let (right, issued) =
        answer-cookie first.tls body (on_db (Auth.check k body.username body.password) s) ck set' in
      let known : verify k m'.secret m'.now call.session ≡ some body.username =
        rw (sent, issued, kept)
          (verify-issue_cookie k m.secret m.now m'.now first.tls body.username nobar bytes range
            ∙ rw fresh refl) in
      (
        right,
        known,
        elim (Bool-cases (is_public call.endpoint)) [
          | inl open_to_all ↦ rw open_to_all refl
          | inr closed ↦ rw (closed, known) refl
        ],
      )
