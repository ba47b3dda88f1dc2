-- ===== src/Api/Tasks/Agreement/Routes.antt =====
-- A call of internal/api/api.go that nothing overtakes does what the handlers of Api do in one go.
use wafportal.Base.{
  Text, Bool, Bool-cases, inl, inr, is_empty, ◌||◌, ℤ, pos, Option, none, some, Result, ok, err,
  Error, ◌≡◌, refl, ap, ◌∙◌,
}
use wafportal.Base.Tasks.{run, run-bind}
use wafportal.Store.Models.{Site, CustomRule}
use wafportal.Store.Sites as Sites
use wafportal.Store.Rules as Rules
use wafportal.Store.Events as Events
use wafportal.Auth.Primitives.{Crypto}
use wafportal.Auth.Session.{verify}
use wafportal.Api.{is_public, dispatch, guarded, handle}
use wafportal.Api.Wire.{Endpoint, Call, Body, Response}
use wafportal.Api.State as State
use wafportal.Api.State.{
  State, Reload, Moment, Handled, on_db, respond, apply_reload, apply_reload_err,
}
use wafportal.Api.Account as Account
use wafportal.Api.Account.{answer_login, answer_change}
use wafportal.Api.Sites as SiteRoutes
use wafportal.Api.Rules as RuleRoutes
use wafportal.Api.Events as EventRoutes
use wafportal.Api.Events.{window_of, filter_of}
use wafportal.Api.Validate.{validate_site, id_param}
use wafportal.Api.Tasks as Tasks
use wafportal.Api.Tasks.{
  Work, statement, answer, reply_with, after_reload, on_ok, and_then, gather, login_response,
  store_hash, change_response, replace_password,
}
use wafportal.Api.Tasks.Agreement.{reply_with-run, stats-run, login-run, change_password-run}

module _ {Plane : Type 0} where
  -- The callback, as a task and as one step.
  module _ (rt : Option (Work Plane (Option Error))) (reload : Reload Plane)
      (same : (s : State Plane)
        → run (Tasks.apply_reload_err rt) s ≡ apply_reload_err reload s) where
    after_reload-run :
        (response : Response) (s : State Plane)
        → run (after_reload rt response) s ≡ (response, apply_reload reload s)
    unfolding apply_reload
    after_reload-run response s =
        run-bind (Tasks.apply_reload_err rt) _ s ∙ ap (λ r. (response, r.1)) (same s)

    saved_site-run :
        (status : ℤ) (r : Result Site × State Plane)
        → run (Tasks.saved_site rt status r.0) r.1 ≡ SiteRoutes.saved_site reload status r
    saved_site-run status (err e, s) = refl
    saved_site-run status (ok site, s) = after_reload-run _ s

    create_valid-run :
        (m : Moment) (r : Result Site) (s : State Plane)
        → run (Tasks.create_valid rt m r) s ≡ SiteRoutes.create_valid reload m r s
    create_valid-run m (err e) s = refl
    create_valid-run m (ok site) s =
        saved_site-run (pos 201) (on_db (Sites.create_site m.now site) s)

    update_valid-run :
        (m : Moment) (r : Result Site) (s : State Plane)
        → run (Tasks.update_valid rt m r) s ≡ SiteRoutes.update_valid reload m r s
    update_valid-run m (err e) s = refl
    update_valid-run m (ok site) s =
        saved_site-run (pos 200) (on_db (Sites.update_site m.now site) s)

    deleted-run :
        (r : Result (Unit {0}) × State Plane)
        → run (Tasks.deleted rt r.0) r.1 ≡ State.deleted reload r
    deleted-run (err e, s) = refl
    deleted-run (ok _, s) = after_reload-run _ s

    keep_or_roll_back-run :
        (rule : CustomRule) (r : Option Error × State Plane)
        → run (Tasks.keep_or_roll_back rule r.0) r.1 ≡ RuleRoutes.keep_or_roll_back reload rule r
    keep_or_roll_back-run rule (none, s) = refl
    keep_or_roll_back-run rule (some e, s) = refl

    created_rule-run :
        (r : Result CustomRule × State Plane)
        → run (Tasks.created_rule rt r.0) r.1 ≡ RuleRoutes.created_rule reload r
    created_rule-run (err e, s) = refl
    created_rule-run (ok rule, s) =
        run-bind (Tasks.apply_reload_err rt) (Tasks.keep_or_roll_back rule) s
        ∙ (ap (λ r. run (Tasks.keep_or_roll_back rule r.0) r.1) (same s)
            ∙ keep_or_roll_back-run rule (apply_reload_err reload s))

    keep_or_reject-run :
        (rule : CustomRule) (r : Option Error × State Plane)
        → (Tasks.keep_or_reject rule r.0, r.1) ≡ RuleRoutes.keep_or_reject reload rule r
    keep_or_reject-run rule (none, s) = refl
    keep_or_reject-run rule (some e, s) = refl

    updated_rule-run :
        (r : Result CustomRule × State Plane)
        → run (Tasks.updated_rule rt r.0) r.1 ≡ RuleRoutes.updated_rule reload r
    updated_rule-run (err e, s) = refl
    updated_rule-run (ok rule, s) =
        run-bind (Tasks.apply_reload_err rt) _ s
        ∙ (ap (λ r. (Tasks.keep_or_reject rule r.0, r.1)) (same s)
            ∙ keep_or_reject-run rule (apply_reload_err reload s))

    pub create_rule-run :
        (m : Moment) (r : Result CustomRule) (s : State Plane)
        → run (Tasks.create_rule rt m r) s ≡ RuleRoutes.create_rule reload m r s
    unfolding Tasks.create_rule RuleRoutes.create_rule
    create_rule-run m (err e) s = refl
    create_rule-run m (ok rule) s =
        elim (Bool-cases (is_empty rule.name || is_empty rule.directive)) [
          | inl lacking ↦ rw lacking refl
          | inr whole ↦ rw whole (created_rule-run (on_db (Rules.create_rule m.now rule) s))
        ]

    update_rule-run :
        (m : Moment) (id : Text) (r : Result CustomRule) (s : State Plane)
        → run (Tasks.update_rule rt m id r) s ≡ RuleRoutes.update_rule reload m id r s
    unfolding Tasks.update_rule RuleRoutes.update_rule
    update_rule-run m id (err e) s = refl
    update_rule-run m id (ok rule) s =
        let rule' = record rule { id = id_param id } in
        elim (Bool-cases (is_empty rule.name || is_empty rule.directive)) [
          | inl lacking ↦ rw lacking refl
          | inr whole ↦ rw whole (updated_rule-run (on_db (Rules.update_rule m.now rule') s))
        ]

    module _ (k : Crypto) where
      dispatch-run :
          (m : Moment) (tls : Bool) (session : Option Text) (endpoint : Endpoint) (s : State Plane)
          → run (Tasks.dispatch rt k m tls session endpoint) s
            ≡ dispatch k reload m tls session endpoint s
      unfolding Tasks.dispatch dispatch
      dispatch-run m tls session Endpoint.health s = refl
      dispatch-run m tls session (Endpoint.login body) s = login-run k m tls body s
      dispatch-run m tls session Endpoint.logout s = unfold Account.logout in refl
      dispatch-run m tls session Endpoint.me s = unfold Account.me in refl
      dispatch-run m tls session (Endpoint.change_password body) s = change_password-run k m body s
      dispatch-run m tls session Endpoint.list_sites s =
          unfold SiteRoutes.list_sites in reply_with-run (pos 500) Body.sites Sites.list_sites s
      dispatch-run m tls session (Endpoint.create_site (err e)) s =
          unfold Tasks.create_site SiteRoutes.create_site in refl
      dispatch-run m tls session (Endpoint.create_site (ok site)) s =
          unfold Tasks.create_site SiteRoutes.create_site in
          create_valid-run m (validate_site site) s
      dispatch-run m tls session (Endpoint.get_site id) s =
          unfold SiteRoutes.get_site in
          reply_with-run (pos 404) Body.site (Sites.get_site (id_param id)) s
      dispatch-run m tls session (Endpoint.update_site id (err e)) s =
          unfold Tasks.update_site SiteRoutes.update_site in refl
      dispatch-run m tls session (Endpoint.update_site id (ok site)) s =
          unfold Tasks.update_site SiteRoutes.update_site in
          update_valid-run m (validate_site (record site { id = id_param id })) s
      dispatch-run m tls session (Endpoint.delete_site id) s =
          unfold Tasks.delete_site SiteRoutes.delete_site in
          deleted-run (on_db (Sites.delete_site (id_param id)) s)
      dispatch-run m tls session Endpoint.list_rules s =
          unfold RuleRoutes.list_rules in reply_with-run (pos 500) Body.rules Rules.list_rules s
      dispatch-run m tls session (Endpoint.create_rule body) s = create_rule-run m body s
      dispatch-run m tls session (Endpoint.get_rule id) s =
          unfold RuleRoutes.get_rule in
          reply_with-run (pos 404) Body.rule (Rules.get_rule (id_param id)) s
      dispatch-run m tls session (Endpoint.update_rule id body) s = update_rule-run m id body s
      dispatch-run m tls session (Endpoint.delete_rule id) s =
          unfold Tasks.delete_rule RuleRoutes.delete_rule in
          deleted-run (on_db (Rules.delete_rule (id_param id)) s)
      dispatch-run m tls session (Endpoint.list_events q) s =
          unfold EventRoutes.list_events in
          reply_with-run (pos 500) Body.events (Events.list_events (filter_of q)) s
      dispatch-run m tls session (Endpoint.stats window) s = stats-run m window s

      guarded-run :
          (user : Option Text) (m : Moment) (call : Call) (s : State Plane)
          → run (Tasks.guarded rt k user m call) s ≡ guarded k reload user m call s
      guarded-run none m call s = refl
      guarded-run (some u) m call s = dispatch-run m call.tls call.session call.endpoint s

      -- With a callback that runs as `reload` does, a call of the API that nothing overtakes answers what
      -- `handle` answers and leaves the state that `handle` leaves.
      pub handle-run :
          (m : Moment) (call : Call) (s : State Plane)
          → run (Tasks.handle rt k m call) s ≡ handle k reload m call s
      unfolding Tasks.handle handle
      handle-run m call s = elim (Bool-cases (is_public call.endpoint)) [
        | inl open_to_all ↦ rw open_to_all (dispatch-run m call.tls call.session call.endpoint s)
        | inr closed ↦ rw closed (guarded-run (verify k m.secret m.now call.session) m call s)
      ]
