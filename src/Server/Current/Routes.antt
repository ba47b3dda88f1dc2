-- ===== src/Server/Current/Routes.antt =====
-- Every call of internal/api/api.go leaves, while the database works, a plane that is current.
use wafportal.Base.{
  Text, ℤ, pos, refl, Bool, Bool-cases, inl, inr, Option, none, some, Result, ok, err,
}
use wafportal.Store.Models.{Site, CustomRule}
use wafportal.Store.Db.{Tables, commit}
use wafportal.Store.Table.{select_id}
use wafportal.Store.Sites as Sites
use wafportal.Store.Sites.{site_id, no_rows, insert_site, update_rows}
use wafportal.Store.Rules as Rules
use wafportal.Store.Rules.{rule_id}
use wafportal.Store.Events as Events
use wafportal.Store.Stats as Summary
use wafportal.Store.Operations.Invariant.{IsValid}
use wafportal.Waf.Coraza.{Coraza}
use wafportal.Proxy.Network.{Net}
use wafportal.Auth.Primitives.{Crypto}
use wafportal.Auth.Account.{calm}
use wafportal.Auth.Session.{verify}
use wafportal.Api.{is_public, dispatch, guarded, handle}
use wafportal.Api.Wire.{Endpoint, Call, Body}
use wafportal.Api.State.{Moment}
use wafportal.Api.Validate.{validate_site, id_param}
use wafportal.Api.Account as Account
use wafportal.Api.Account.{answer_login, answer_change}
use wafportal.Api.Sites as SiteRoutes
use wafportal.Api.Sites.{saved_site, create_valid, update_valid}
use wafportal.Api.Rules as RuleRoutes
use wafportal.Api.Rules.{created_rule, keep_or_roll_back, updated_rule, keep_or_reject}
use wafportal.Api.Events as EventRoutes
use wafportal.Api.Events.{filter_of, window_of}
use wafportal.Server.{Plane, Running}
use wafportal.Server.Current.{IsCurrent, InSync}
use wafportal.Server.Current.Calls.{
  calm-Db, at, callback, IsQuiet, read-InSync, deleted-InSync, create_valid-InSync,
  update_valid-InSync,
}
use wafportal.Server.Current.Rules.{create_rule-InSync, update_rule-InSync}
use wafportal.Server.Current.Accounts.{login-InSync, password-InSync}
use wafportal.Base.{Group, sym}
use mathlib.Core.Path.{subst}
use wafportal.Store.Models.{Time, Event}

module _ (c : Coraza) (n : Net) (t : Tables) where
  get_site-IsQuiet : (id : ℤ) → IsQuiet c n (Sites.get_site id) t
  unfolding Sites.get_site
  get_site-IsQuiet id =
      let q = by_row (select_id site_id id t.sites.rows) in
      record { healthy = q.healthy; rules = q.rules; sites = q.sites }
    where
      by_row :
          (o : Option Site)
          → IsQuiet c n
              (λ _. commit (calm t) (elim o as (λ _. Result (Site × Tables)) [
                | none ↦ err no_rows
                | some st ↦ ok (st, t)
              ]))
              t
      by_row none = record { healthy = refl; rules = refl; sites = refl }
      by_row (some st) = record { healthy = refl; rules = refl; sites = refl }

  get_rule-IsQuiet : (id : ℤ) → IsQuiet c n (Rules.get_rule id) t
  unfolding Rules.get_rule
  get_rule-IsQuiet id =
      let q = by_row (select_id rule_id id t.rules.rows) in
      record { healthy = q.healthy; rules = q.rules; sites = q.sites }
    where
      by_row :
          (o : Option CustomRule)
          → IsQuiet c n
              (λ _. commit (calm t) (elim o as (λ _. Result (CustomRule × Tables)) [
                | none ↦ err no_rows
                | some st ↦ ok (st, t)
              ]))
              t
      by_row none = record { healthy = refl; rules = refl; sites = refl }
      by_row (some st) = record { healthy = refl; rules = refl; sites = refl }

  stats-IsQuiet :
      (bare : Group Event → Event) (now : Time) (since : ℤ)
      → IsQuiet c n (Summary.stats bare now since) t
  unfolding Summary.stats Summary.count_events Summary.top_rules Summary.top_clients
      Summary.timeline
  stats-IsQuiet bare now since = record { healthy = refl; rules = refl; sites = refl }

  module _ (k : Crypto) (p : Plane c n) (current : IsCurrent c n t p) (valid : IsValid t) where
    dispatch-InSync :
        (m : Moment) (tls : Bool) (session : Option Text) (endpoint : Endpoint)
        → InSync c n (dispatch k (callback c n) m tls session endpoint (at c n t p)).1
    unfolding dispatch
    dispatch-InSync m tls session Endpoint.health = (refl, current)
    dispatch-InSync m tls session (Endpoint.login body) = login-InSync c n t p current k m tls body
    dispatch-InSync m tls session Endpoint.logout = unfold Account.logout in (refl, current)
    dispatch-InSync m tls session Endpoint.me = unfold Account.me in (refl, current)
    dispatch-InSync m tls session (Endpoint.change_password body) =
        password-InSync c n t p current k m body
    dispatch-InSync m tls session Endpoint.list_sites =
        unfold SiteRoutes.list_sites Sites.list_sites in (refl, current)
    dispatch-InSync m tls session (Endpoint.create_site (err e)) =
        unfold SiteRoutes.create_site in (refl, current)
    dispatch-InSync m tls session (Endpoint.create_site (ok site)) =
        unfold SiteRoutes.create_site in create_valid-InSync c n t p current m (validate_site site)
    dispatch-InSync m tls session (Endpoint.get_site id) =
        unfold SiteRoutes.get_site in
        read-InSync c n t p current (pos 404) Body.site (Sites.get_site (id_param id))
          (get_site-IsQuiet (id_param id))
    dispatch-InSync m tls session (Endpoint.update_site id (err e)) =
        unfold SiteRoutes.update_site in (refl, current)
    dispatch-InSync m tls session (Endpoint.update_site id (ok site)) =
        unfold SiteRoutes.update_site in
        update_valid-InSync c n t p current m (validate_site (record site { id = id_param id }))
    dispatch-InSync m tls session (Endpoint.delete_site id) =
        unfold SiteRoutes.delete_site Sites.delete_site in
        deleted-InSync c n t p current (Sites.remove_site (id_param id) t)
    dispatch-InSync m tls session Endpoint.list_rules =
        unfold RuleRoutes.list_rules Rules.list_rules in (refl, current)
    dispatch-InSync m tls session (Endpoint.create_rule body) =
        create_rule-InSync c n t p current m body valid.rules_keyed
    dispatch-InSync m tls session (Endpoint.get_rule id) =
        unfold RuleRoutes.get_rule in
        read-InSync c n t p current (pos 404) Body.rule (Rules.get_rule (id_param id))
          (get_rule-IsQuiet (id_param id))
    dispatch-InSync m tls session (Endpoint.update_rule id body) =
        update_rule-InSync c n t p current m id body
    dispatch-InSync m tls session (Endpoint.delete_rule id) =
        unfold RuleRoutes.delete_rule Rules.delete_rule in
        deleted-InSync c n t p current (Rules.remove_rule (id_param id) t)
    dispatch-InSync m tls session (Endpoint.list_events q) =
        unfold EventRoutes.list_events Events.list_events in (refl, current)
    dispatch-InSync m tls session (Endpoint.stats window) =
        unfold EventRoutes.stats in
        read-InSync c n t p current (pos 500) Body.stats
          (Summary.stats m.bare m.now (window_of window))
          (stats-IsQuiet m.bare m.now (window_of window))

    guarded-InSync :
        (user : Option Text) (m : Moment) (call : Call)
        → InSync c n (guarded k (callback c n) user m call (at c n t p)).1
    guarded-InSync none m call = (refl, current)
    guarded-InSync (some u) m call = dispatch-InSync m call.tls call.session call.endpoint

    calm-InSync :
        (m : Moment) (call : Call) → InSync c n (handle k (callback c n) m call (at c n t p)).1
    unfolding handle
    calm-InSync m call = elim (Bool-cases (is_public call.endpoint)) [
      | inl open_to_all ↦ rw open_to_all (dispatch-InSync m call.tls call.session call.endpoint)
      | inr closed ↦ rw closed (guarded-InSync (verify k m.secret m.now call.session) m call)
    ]

module _ (c : Coraza) (n : Net) (k : Crypto) where
  -- A call of the API leaves a plane that is current, whatever it asks and whatever comes of it.
  pub handle-InSync :
      (m : Moment) (call : Call) (s : Running c n)
      → IsValid s.db.tables
      → InSync c n s
      → InSync c n (handle k (callback c n) m call s).1
  handle-InSync m call s valid (healthy, current) =
      subst
        (λ db. InSync c n (handle k (callback c n) m call (record { db = db; plane = s.plane })).1)
        (sym (calm-Db s.db s.db.tables healthy refl))
        (calm-InSync c n s.db.tables k s.plane current valid m call)
