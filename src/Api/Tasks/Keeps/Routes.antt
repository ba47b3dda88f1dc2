-- ===== src/Api/Tasks/Keeps/Routes.antt =====
-- What every step of a call of internal/api/api.go keeps, whatever the other calls did in between: the
-- store's invariant, and any property of the plane that each step of a reload keeps.
use wafportal.Base.{
  Text, is_empty, Bool, Bool-cases, inl, inr, ◌||◌, Option, none, some, Result, ok, err, Error, ℤ,
  pos,
}
use wafportal.Base.Tasks.{Keeps, bind-Keeps}
use wafportal.Store.Models.{Site, CustomRule}
use wafportal.Store.Sites as Sites
use wafportal.Store.Rules as Rules
use wafportal.Store.Events as Events
use wafportal.Store.Operations.Calls.{
  create_site-KeepsValid, update_site-KeepsValid, delete_site-KeepsValid, create_rule-KeepsValid,
  update_rule-KeepsValid, delete_rule-KeepsValid,
}
use wafportal.Store.Operations.Reads.{
  list_sites-KeepsValid, get_site-KeepsValid, list_rules-KeepsValid, get_rule-KeepsValid,
  list_events-KeepsValid,
}
use wafportal.Auth.Primitives.{Crypto}
use wafportal.Auth.Session.{verify}
use wafportal.Api.{is_public}
use wafportal.Api.Keeps.{Inv}
use wafportal.Api.Wire.{Endpoint, Call, Body, Response}
use wafportal.Api.State.{Moment, rejected}
use wafportal.Api.Events.{filter_of}
use wafportal.Api.Validate.{validate_site, id_param}
use wafportal.Api.Tasks.{
  Work, keep_or_reject, apply_reload_err, after_reload, saved_site, create_valid, create_site,
  update_valid, update_site, deleted, delete_site, keep_or_roll_back, created_rule, create_rule,
  updated_rule, update_rule, delete_rule, dispatch, guarded, handle,
}
use wafportal.Api.Tasks.Keeps.{
  KeepsInv, after-KeepsInv, statement-KeepsInv, answered-KeepsInv, reply_with-KeepsInv,
  stats-KeepsInv, login-KeepsInv, change_password-KeepsInv,
}

module _ {Plane : Type 0} (P : Plane → Type 0) where
  -- The callback, each step of which keeps it.
  module _ (rt : Option (Work Plane (Option Error)))
      (keeps : KeepsInv P (apply_reload_err rt)) where
    after_reload-KeepsInv : (response : Response) → KeepsInv P (after_reload rt response)
    after_reload-KeepsInv response = answered-KeepsInv P (apply_reload_err rt) (λ e. response) keeps

    saved_site-KeepsInv : (status : ℤ) (r : Result Site) → KeepsInv P (saved_site rt status r)
    saved_site-KeepsInv status (err e) = unfold Keeps in tt
    saved_site-KeepsInv status (ok site) = after_reload-KeepsInv _

    create_valid-KeepsInv : (m : Moment) (r : Result Site) → KeepsInv P (create_valid rt m r)
    create_valid-KeepsInv m (err e) = unfold Keeps in tt
    create_valid-KeepsInv m (ok site) =
        after-KeepsInv P (Sites.create_site m.now site) _ (create_site-KeepsValid m.now site)
          (saved_site-KeepsInv (pos 201))

    update_valid-KeepsInv : (m : Moment) (r : Result Site) → KeepsInv P (update_valid rt m r)
    update_valid-KeepsInv m (err e) = unfold Keeps in tt
    update_valid-KeepsInv m (ok site) =
        after-KeepsInv P (Sites.update_site m.now site) _ (update_site-KeepsValid m.now site)
          (saved_site-KeepsInv (pos 200))

    deleted-KeepsInv : (r : Result (Unit {0})) → KeepsInv P (deleted rt r)
    deleted-KeepsInv (err e) = unfold Keeps in tt
    deleted-KeepsInv (ok _) = after_reload-KeepsInv _

    keep_or_roll_back-KeepsInv :
        (rule : CustomRule) (o : Option Error) → KeepsInv P (keep_or_roll_back rule o)
    keep_or_roll_back-KeepsInv rule none = unfold Keeps in tt
    keep_or_roll_back-KeepsInv rule (some e) =
        statement-KeepsInv P (Rules.delete_rule rule.id) (λ r. rejected e)
          (delete_rule-KeepsValid rule.id)

    created_rule-KeepsInv : (r : Result CustomRule) → KeepsInv P (created_rule rt r)
    created_rule-KeepsInv (err e) = unfold Keeps in tt
    created_rule-KeepsInv (ok rule) =
        bind-Keeps (Inv P) (apply_reload_err rt) _ keeps (keep_or_roll_back-KeepsInv rule)

    updated_rule-KeepsInv : (r : Result CustomRule) → KeepsInv P (updated_rule rt r)
    updated_rule-KeepsInv (err e) = unfold Keeps in tt
    updated_rule-KeepsInv (ok rule) =
        answered-KeepsInv P (apply_reload_err rt) (keep_or_reject rule) keeps

    create_rule-KeepsInv : (m : Moment) (r : Result CustomRule) → KeepsInv P (create_rule rt m r)
    unfolding create_rule
    create_rule-KeepsInv m (err e) = unfold Keeps in tt
    create_rule-KeepsInv m (ok rule) =
        elim (Bool-cases (is_empty rule.name || is_empty rule.directive)) [
          | inl lacking ↦ rw lacking (unfold Keeps in tt)
          | inr whole ↦ rw whole (
              after-KeepsInv P (Rules.create_rule m.now rule) _ (create_rule-KeepsValid m.now rule)
                created_rule-KeepsInv)
        ]

    update_rule-KeepsInv :
        (m : Moment) (id : Text) (r : Result CustomRule) → KeepsInv P (update_rule rt m id r)
    unfolding update_rule
    update_rule-KeepsInv m id (err e) = unfold Keeps in tt
    update_rule-KeepsInv m id (ok rule) =
        let rule' = record rule { id = id_param id } in
        elim (Bool-cases (is_empty rule.name || is_empty rule.directive)) [
          | inl lacking ↦ rw lacking (unfold Keeps in tt)
          | inr whole ↦ rw whole (
              after-KeepsInv P (Rules.update_rule m.now rule') _
                (update_rule-KeepsValid m.now rule') updated_rule-KeepsInv)
        ]

    module _ (k : Crypto) where
      dispatch-KeepsInv :
          (m : Moment) (tls : Bool) (session : Option Text) (endpoint : Endpoint)
          → KeepsInv P (dispatch rt k m tls session endpoint)
      unfolding dispatch
      dispatch-KeepsInv m tls session Endpoint.health = unfold Keeps in tt
      dispatch-KeepsInv m tls session (Endpoint.login body) = login-KeepsInv P k m tls body
      dispatch-KeepsInv m tls session Endpoint.logout = unfold Keeps in tt
      dispatch-KeepsInv m tls session Endpoint.me = unfold Keeps in tt
      dispatch-KeepsInv m tls session (Endpoint.change_password body) =
          change_password-KeepsInv P k m body
      dispatch-KeepsInv m tls session Endpoint.list_sites =
          reply_with-KeepsInv P (pos 500) Body.sites Sites.list_sites list_sites-KeepsValid
      dispatch-KeepsInv m tls session (Endpoint.create_site (err e)) =
          unfold create_site Keeps in tt
      dispatch-KeepsInv m tls session (Endpoint.create_site (ok site)) =
          unfold create_site in create_valid-KeepsInv m (validate_site site)
      dispatch-KeepsInv m tls session (Endpoint.get_site id) =
          reply_with-KeepsInv P (pos 404) Body.site (Sites.get_site (id_param id))
            (get_site-KeepsValid (id_param id))
      dispatch-KeepsInv m tls session (Endpoint.update_site id (err e)) =
          unfold update_site Keeps in tt
      dispatch-KeepsInv m tls session (Endpoint.update_site id (ok site)) =
          unfold update_site in
          update_valid-KeepsInv m (validate_site (record site { id = id_param id }))
      dispatch-KeepsInv m tls session (Endpoint.delete_site id) =
          unfold delete_site in
          after-KeepsInv P (Sites.delete_site (id_param id)) _
            (delete_site-KeepsValid (id_param id)) deleted-KeepsInv
      dispatch-KeepsInv m tls session Endpoint.list_rules =
          reply_with-KeepsInv P (pos 500) Body.rules Rules.list_rules list_rules-KeepsValid
      dispatch-KeepsInv m tls session (Endpoint.create_rule body) = create_rule-KeepsInv m body
      dispatch-KeepsInv m tls session (Endpoint.get_rule id) =
          reply_with-KeepsInv P (pos 404) Body.rule (Rules.get_rule (id_param id))
            (get_rule-KeepsValid (id_param id))
      dispatch-KeepsInv m tls session (Endpoint.update_rule id body) =
          update_rule-KeepsInv m id body
      dispatch-KeepsInv m tls session (Endpoint.delete_rule id) =
          unfold delete_rule in
          after-KeepsInv P (Rules.delete_rule (id_param id)) _
            (delete_rule-KeepsValid (id_param id)) deleted-KeepsInv
      dispatch-KeepsInv m tls session (Endpoint.list_events q) =
          reply_with-KeepsInv P (pos 500) Body.events (Events.list_events (filter_of q))
            (list_events-KeepsValid (filter_of q))
      dispatch-KeepsInv m tls session (Endpoint.stats window) = stats-KeepsInv P m window

      guarded-KeepsInv :
          (user : Option Text) (m : Moment) (call : Call) → KeepsInv P (guarded rt k user m call)
      guarded-KeepsInv none m call = unfold Keeps in tt
      guarded-KeepsInv (some u) m call = dispatch-KeepsInv m call.tls call.session call.endpoint

      -- Every step of every call keeps the invariant.
      pub handle-KeepsInv : (m : Moment) (call : Call) → KeepsInv P (handle rt k m call)
      unfolding handle
      handle-KeepsInv m call = elim (Bool-cases (is_public call.endpoint)) [
        | inl open_to_all ↦ rw open_to_all (dispatch-KeepsInv m call.tls call.session call.endpoint)
        | inr closed ↦ rw closed (guarded-KeepsInv (verify k m.secret m.now call.session) m call)
      ]
