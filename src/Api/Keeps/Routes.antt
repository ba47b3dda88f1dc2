-- ===== src/Api/Keeps/Routes.antt =====
-- What every route of internal/api/api.go keeps.
use wafportal.Base.{
  Text, Bool, true, false, Bool-cases, inl, inr, Option, none, some, Result, ok, err, pos,
}
use wafportal.Store.Operations.Invariant.{IsValid}
use wafportal.Store.Operations.Calls.{
  set_setting-KeepsValid, delete_site-KeepsValid, delete_rule-KeepsValid,
}
use wafportal.Store.Sites as Sites
use wafportal.Store.Operations.Reads.{
  get_setting-KeepsValid, list_sites-KeepsValid, get_site-KeepsValid, list_rules-KeepsValid,
  get_rule-KeepsValid, list_events-KeepsValid, stats-KeepsValid,
}
use wafportal.Store.Rules as Rules
use wafportal.Store.Events as Events
use wafportal.Store.Stats as Summary
use wafportal.Api.Events.{list_events, stats, filter_of, window_of}
use wafportal.Auth
use wafportal.Auth.Keeps.{check-Keeps, change_password-Keeps}
use wafportal.Api.Account
use wafportal.Api.Account.{answer_login, answer_change}
use wafportal.Auth.Primitives.{Crypto}
use wafportal.Auth.Session.{verify}
use wafportal.Api.{is_public, dispatch, guarded, handle}
use wafportal.Api.Wire.{Endpoint, Call, Body, Credentials, PasswordChange}
use wafportal.Api.State.{State, Reload, Moment, on_db}
use wafportal.Api.Validate.{validate_site, id_param}
use wafportal.Api.Sites.{list_sites, get_site, create_site, update_site, delete_site}
use wafportal.Api.Rules.{list_rules, get_rule, delete_rule}
use wafportal.Api.Keeps.{
  Inv, KeepsInv, on_db-Inv, read-Inv, deleted-Inv, create_valid-Inv, update_valid-Inv,
  create_rule-Inv, update_rule-Inv,
}

module _ {Plane : Type 0} (P : Plane → Type 0) (reload : Reload Plane) (keeps : KeepsInv P reload)
    (k : Crypto) where
  password-Inv :
      (m : Moment) (r : Result PasswordChange) (s : State Plane)
      → Inv P s
      → Inv P (Account.change_password k m r s).1
  unfolding Account.change_password
  password-Inv m (err e) s v = v
  password-Inv m (ok body) s v =
      answered (on_db (Auth.change_password k m.salt body.current body.next) s) (
        on_db-Inv P (Auth.change_password k m.salt body.current body.next) s
          (change_password-Keeps (λ db. IsValid db.tables) get_setting-KeepsValid
            set_setting-KeepsValid k m.salt body.current body.next)
          v)
    where
      answered : (r : Result (Unit {0}) × State Plane) → Inv P r.1 → Inv P (answer_change k r).1
      answered (ok _, s) v = v
      answered (err e, s) v = v

  login-Inv :
      (m : Moment) (tls : Bool) (r : Result Credentials) (s : State Plane)
      → Inv P s
      → Inv P (Account.login k m tls r s).1
  unfolding Account.login
  login-Inv m tls (err e) s v = v
  login-Inv m tls (ok body) s v = answered (on_db (Auth.check k body.username body.password) s) (
      on_db-Inv P (Auth.check k body.username body.password) s
        (check-Keeps (λ db. IsValid db.tables) get_setting-KeepsValid set_setting-KeepsValid k
          body.username body.password)
        v)
    where
      answered : (r : Bool × State Plane) → Inv P r.1 → Inv P (answer_login k m tls body r).1
      answered (true, s) v = v
      answered (false, s) v = v

  dispatch-Inv :
      (m : Moment) (tls : Bool) (session : Option Text) (endpoint : Endpoint) (s : State Plane)
      → Inv P s
      → Inv P (dispatch k reload m tls session endpoint s).1
  unfolding dispatch
  dispatch-Inv m tls session Endpoint.health s v = v
  dispatch-Inv m tls session (Endpoint.login body) s v = login-Inv m tls body s v
  dispatch-Inv m tls session Endpoint.logout s v = unfold Account.logout in v
  dispatch-Inv m tls session Endpoint.me s v = unfold Account.me in v
  dispatch-Inv m tls session (Endpoint.change_password body) s v = password-Inv m body s v
  dispatch-Inv m tls session Endpoint.list_sites s v =
      unfold list_sites in
      read-Inv P (pos 500) Body.sites Sites.list_sites s list_sites-KeepsValid v
  dispatch-Inv m tls session (Endpoint.create_site (err e)) s v = unfold create_site in v
  dispatch-Inv m tls session (Endpoint.create_site (ok site)) s v =
      unfold create_site in create_valid-Inv P reload keeps m (validate_site site) s v
  dispatch-Inv m tls session (Endpoint.get_site id) s v =
      unfold get_site in
      read-Inv P (pos 404) Body.site (Sites.get_site (id_param id)) s
        (get_site-KeepsValid (id_param id)) v
  dispatch-Inv m tls session (Endpoint.update_site id (err e)) s v = unfold update_site in v
  dispatch-Inv m tls session (Endpoint.update_site id (ok site)) s v =
      unfold update_site in
      update_valid-Inv P reload keeps m (validate_site (record site { id = id_param id })) s v
  dispatch-Inv m tls session (Endpoint.delete_site id) s v =
      unfold delete_site in
      deleted-Inv P reload keeps _
        (on_db-Inv P (Sites.delete_site (id_param id)) s (delete_site-KeepsValid (id_param id)) v)
  dispatch-Inv m tls session Endpoint.list_rules s v =
      unfold list_rules in
      read-Inv P (pos 500) Body.rules Rules.list_rules s list_rules-KeepsValid v
  dispatch-Inv m tls session (Endpoint.create_rule body) s v =
      create_rule-Inv P reload keeps m body s v
  dispatch-Inv m tls session (Endpoint.get_rule id) s v =
      unfold get_rule in
      read-Inv P (pos 404) Body.rule (Rules.get_rule (id_param id)) s
        (get_rule-KeepsValid (id_param id)) v
  dispatch-Inv m tls session (Endpoint.update_rule id body) s v =
      update_rule-Inv P reload keeps m id body s v
  dispatch-Inv m tls session (Endpoint.delete_rule id) s v =
      unfold delete_rule in
      deleted-Inv P reload keeps _
        (on_db-Inv P (Rules.delete_rule (id_param id)) s (delete_rule-KeepsValid (id_param id)) v)
  dispatch-Inv m tls session (Endpoint.list_events q) s v =
      unfold list_events in
      read-Inv P (pos 500) Body.events (Events.list_events (filter_of q)) s
        (list_events-KeepsValid (filter_of q)) v
  dispatch-Inv m tls session (Endpoint.stats window) s v =
      unfold stats in
      read-Inv P (pos 500) Body.stats (Summary.stats m.bare m.now (window_of window)) s
        (stats-KeepsValid m.bare m.now (window_of window)) v

  guarded-Inv :
      (user : Option Text) (m : Moment) (call : Call) (s : State Plane)
      → Inv P s
      → Inv P (guarded k reload user m call s).1
  guarded-Inv none m call s v = v
  guarded-Inv (some u) m call s v = dispatch-Inv m call.tls call.session call.endpoint s v

  -- Every call of the API keeps the invariant.
  pub handle-Inv :
      (m : Moment) (call : Call) (s : State Plane) → Inv P s → Inv P (handle k reload m call s).1
  unfolding handle
  handle-Inv m call s v = elim (Bool-cases (is_public call.endpoint)) [
    | inl open_to_all ↦ rw open_to_all (dispatch-Inv m call.tls call.session call.endpoint s v)
    | inr closed ↦ rw closed (guarded-Inv (verify k m.secret m.now call.session) m call s v)
  ]
