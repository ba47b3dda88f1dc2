-- ===== src/Api/Tasks.antt =====
-- The handlers of internal/api/api.go as tasks: net/http runs each call in a goroutine of its own, and the
-- calls overtake one another between the statements that they hand to the database and the steps of the
-- reload. A handler's own code between two statements touches nothing that is shared.
pub mod Agreement
pub mod Keeps
pub mod Strangers
pub mod Ends
use wafportal.Base.{
  Text, text, ℤ, pos, is_empty, Bool, true, false, ◌||◌, if◌then◌else◌, ltb, length, Option, none,
  some, [], Result, ok, err, Error, Group,
}
use wafportal.Base.Tasks.{Task, done, atomically, ◌>>=◌}
use wafportal.Store.Models.{Site, CustomRule, Event, Stats}
use wafportal.Store.Db.{Db}
use wafportal.Store.Settings.{set_setting}
use wafportal.Store.Sites as Sites
use wafportal.Store.Rules as Rules
use wafportal.Store.Events as Events
use wafportal.Store.Stats as Summary
use wafportal.Store.Stats.{from_time}
use wafportal.Auth.{
  key_username, key_hash, peek_setting, or_empty_text, compare, invalid_credentials, too_short,
}
use wafportal.Auth.Primitives.{Crypto}
use wafportal.Auth.Session
use wafportal.Auth.Session.{verify, current_user, issue_cookie}
use wafportal.Api.{is_public}
use wafportal.Api.Wire.{Endpoint, Call, Body, Credentials, PasswordChange, Response}
use wafportal.Api.State.{
  State, Moment, on_db, write_json, write_err, invalid_json, no_content, unauthorized, rejected,
  required,
}
use wafportal.Api.Account.{or_nobody}
use wafportal.Api.Validate.{validate_site, id_param}
use wafportal.Api.Events.{filter_of, window_of}

abbrev pub Work : Type 0 → Type 0 → Type 0
Work Plane A = Task (State Plane) A

abbrev pub answer : {A : Type 0} → ℤ → (A → Body) → Result A → Response
answer status show (ok a) = write_json (pos 200) (show a)
answer status show (err e) = write_err status e

abbrev pub change_response : Result (Unit {0}) → Response
change_response (ok _) = no_content
change_response (err e) = write_err (pos 400) e

abbrev pub keep_or_reject : CustomRule → Option Error → Response
keep_or_reject rule none = write_json (pos 200) (Body.rule rule)
keep_or_reject rule (some e) = rejected e

module _ (k : Crypto) where
  abbrev pub login_response : Moment → Bool → Credentials → Bool → Response
  login_response m tls body false = write_err (pos 401) (text "invalid username or password")
  login_response m tls body true = record {
    status = pos 200;
    body = Body.user body.username;
    cookie = some (issue_cookie k m.secret m.now tls body.username);
  }

module _ {Plane : Type 0} where
  -- One statement.
  abbrev pub statement : {A : Type 0} → (Db → A × Db) → Work Plane A
  statement m = atomically (on_db m)

  abbrev pub reply_with : {A : Type 0} → ℤ → (A → Body) → (Db → Result A × Db) → Work Plane Response
  reply_with status show m = do r ← statement m; done (answer status show r)

  -- A statement whose error ends the work.
  abbrev pub on_ok : {A B : Type 0} → (A → Work Plane (Result B)) → Result A → Work Plane (Result B)
  on_ok f (ok a) = f a
  on_ok f (err e) = done (err e)

  abbrev pub and_then :
      {A B : Type 0} → Work Plane (Result A) → (A → Work Plane (Result B)) → Work Plane (Result B)
  and_then t f = t >>= on_ok f

  abbrev pub store_hash : Result Text → Work Plane (Result (Unit {0}))
  store_hash (err e) = done (err e)
  store_hash (ok hash) = statement (set_setting key_hash hash)

  module _ (k : Crypto) where
    -- Check: the name and the hash are read one after the other.
    abbrev pub check : Text → Text → Work Plane Bool
    check user password = do
      stored ← statement (peek_setting key_username)
      hash ← statement (peek_setting key_hash)
      done (compare k user password (or_empty_text stored) hash)

    unfoldable pub login : Moment → Bool → Result Credentials → Work Plane Response
    login m tls (err e) = done (invalid_json e)
    login m tls (ok body) = do
      valid ← check body.username body.password
      done (login_response k m tls body valid)

    abbrev pub replace_password : Text → Text → Bool → Work Plane (Result (Unit {0}))
    replace_password salt next false = done (err invalid_credentials)
    replace_password salt next true =
        if ltb (length next) 8 then done (err too_short) else store_hash (k.hash_password salt next)

    unfoldable pub change_password : Moment → Result PasswordChange → Work Plane Response
    change_password m (err e) = done (invalid_json e)
    change_password m (ok body) = do
      user ← statement (peek_setting key_username)
      valid ← check (or_empty_text user) body.current
      r ← replace_password m.salt body.next valid
      done (change_response r)

  abbrev pub gather : (Group Event → Event) → ℤ → Work Plane (Result Stats)
  gather bare from = and_then (statement (Summary.count_events from)) λ counts.
      and_then (statement (Summary.top_rules bare from)) λ rules.
        and_then (statement (Summary.top_clients from)) λ clients.
          and_then (statement (Summary.timeline from)) λ points. done (
            ok (record {
              total_events = counts.0;
              blocked_events = counts.1;
              top_rules = rules;
              top_clients = clients;
              timeline = points;
            }))

  unfoldable pub stats : Moment → Option (Result ℤ) → Work Plane Response
  stats m window = do
    r ← gather m.bare (from_time m.now (window_of window))
    done (answer (pos 500) Body.stats r)

  -- The rule is in the store while the reload runs, and is deleted again when that refuses it.
  abbrev pub keep_or_roll_back : CustomRule → Option Error → Work Plane Response
  keep_or_roll_back rule none = done (write_json (pos 201) (Body.rule rule))
  keep_or_roll_back rule (some e) = do r ← statement (Rules.delete_rule rule.id); done (rejected e)

  module _ (reload : Option (Work Plane (Option Error))) where
    abbrev pub apply_reload_err : Work Plane (Option Error)
    apply_reload_err = elim reload [ none ↦ done none | some r ↦ r ]

    -- The error is only logged.
    abbrev pub after_reload : Response → Work Plane Response
    after_reload response = do e ← apply_reload_err; done response

    abbrev pub saved_site : ℤ → Result Site → Work Plane Response
    saved_site status (err e) = done (write_err (pos 400) e)
    saved_site status (ok site) = after_reload (write_json status (Body.site site))

    abbrev pub create_valid : Moment → Result Site → Work Plane Response
    create_valid m (err msg) = done (write_err (pos 400) msg)
    create_valid m (ok site) = do
      r ← statement (Sites.create_site m.now site)
      saved_site (pos 201) r

    unfoldable pub create_site : Moment → Result Site → Work Plane Response
    create_site m (err e) = done (invalid_json e)
    create_site m (ok site) = create_valid m (validate_site site)

    abbrev pub update_valid : Moment → Result Site → Work Plane Response
    update_valid m (err msg) = done (write_err (pos 400) msg)
    update_valid m (ok site) = do
      r ← statement (Sites.update_site m.now site)
      saved_site (pos 200) r

    unfoldable pub update_site : Moment → Text → Result Site → Work Plane Response
    update_site m id (err e) = done (invalid_json e)
    update_site m id (ok site) = update_valid m (validate_site (record site { id = id_param id }))

    abbrev pub deleted : Result (Unit {0}) → Work Plane Response
    deleted (err e) = done (write_err (pos 500) e)
    deleted (ok _) = after_reload no_content

    unfoldable pub delete_site : Text → Work Plane Response
    delete_site id = do r ← statement (Sites.delete_site (id_param id)); deleted r

    abbrev pub created_rule : Result CustomRule → Work Plane Response
    created_rule (err e) = done (write_err (pos 400) e)
    created_rule (ok rule) = do e ← apply_reload_err; keep_or_roll_back rule e

    abbrev pub create_named : Moment → CustomRule → Bool → Work Plane Response
    create_named m rule true = done (write_err (pos 400) required)
    create_named m rule false = do r ← statement (Rules.create_rule m.now rule); created_rule r

    unfoldable pub create_rule : Moment → Result CustomRule → Work Plane Response
    create_rule m (err e) = done (invalid_json e)
    create_rule m (ok rule) = create_named m rule (is_empty rule.name || is_empty rule.directive)

    abbrev pub updated_rule : Result CustomRule → Work Plane Response
    updated_rule (err e) = done (write_err (pos 400) e)
    updated_rule (ok rule) = do e ← apply_reload_err; done (keep_or_reject rule e)

    abbrev pub update_named : Moment → CustomRule → Bool → Work Plane Response
    update_named m rule true = done (write_err (pos 400) required)
    update_named m rule false = do r ← statement (Rules.update_rule m.now rule); updated_rule r

    unfoldable pub update_rule : Moment → Text → Result CustomRule → Work Plane Response
    update_rule m id (err e) = done (invalid_json e)
    update_rule m id (ok rule) =
        update_named m (record rule { id = id_param id })
          (is_empty rule.name || is_empty rule.directive)

    unfoldable pub delete_rule : Text → Work Plane Response
    delete_rule id = do r ← statement (Rules.delete_rule (id_param id)); deleted r

    module _ (k : Crypto) where
      unfoldable pub dispatch : Moment → Bool → Option Text → Endpoint → Work Plane Response
      dispatch m tls session Endpoint.health = done (write_json (pos 200) Body.status_ok)
      dispatch m tls session (Endpoint.login body) = login k m tls body
      dispatch m tls session Endpoint.logout =
          done (record { status = pos 204; body = Body.nothing; cookie = some Session.clear })
      dispatch m tls session Endpoint.me =
          done
            (write_json (pos 200) (Body.user (or_nobody (current_user k m.secret m.now session))))
      dispatch m tls session (Endpoint.change_password body) = change_password k m body
      dispatch m tls session Endpoint.list_sites = reply_with (pos 500) Body.sites Sites.list_sites
      dispatch m tls session (Endpoint.create_site body) = create_site m body
      dispatch m tls session (Endpoint.get_site id) =
          reply_with (pos 404) Body.site (Sites.get_site (id_param id))
      dispatch m tls session (Endpoint.update_site id body) = update_site m id body
      dispatch m tls session (Endpoint.delete_site id) = delete_site id
      dispatch m tls session Endpoint.list_rules = reply_with (pos 500) Body.rules Rules.list_rules
      dispatch m tls session (Endpoint.create_rule body) = create_rule m body
      dispatch m tls session (Endpoint.get_rule id) =
          reply_with (pos 404) Body.rule (Rules.get_rule (id_param id))
      dispatch m tls session (Endpoint.update_rule id body) = update_rule m id body
      dispatch m tls session (Endpoint.delete_rule id) = delete_rule id
      dispatch m tls session (Endpoint.list_events q) =
          reply_with (pos 500) Body.events (Events.list_events (filter_of q))
      dispatch m tls session (Endpoint.stats window) = stats m window

      abbrev pub guarded : Option Text → Moment → Call → Work Plane Response
      guarded none m call = done unauthorized
      guarded (some user) m call = dispatch m call.tls call.session call.endpoint

      unfoldable pub handle : Moment → Call → Work Plane Response
      handle m call =
          if is_public call.endpoint
          then dispatch m call.tls call.session call.endpoint
          else guarded (verify k m.secret m.now call.session) m call
