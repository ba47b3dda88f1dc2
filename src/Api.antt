-- ===== src/Api.antt =====
-- internal/api/api.go: the routes, behind the session check or not. The other paths
-- are those of Spa.
pub mod Wire
pub mod Validate
pub mod State
pub mod Account
pub mod Sites
pub mod Rules
pub mod Events
pub mod Guard
pub mod Spa
pub mod Keeps
pub mod Login
pub mod Tasks
use wafportal.Base.{Text, pos, Bool, true, false, if◌then◌else◌, Option, none, some}
use wafportal.Auth.Primitives.{Crypto}
use wafportal.Auth.Session.{verify}
use wafportal.Api.Wire.{Endpoint, Call, Body}
use wafportal.Api.State.{State as ServerState, Reload, Moment, Handled, write_json, unauthorized}
use wafportal.Api.Account.{login, logout, me, change_password}
use wafportal.Api.Sites.{list_sites, create_site, get_site, update_site, delete_site}
use wafportal.Api.Rules.{list_rules, create_rule, get_rule, update_rule, delete_rule}
use wafportal.Api.Events.{list_events, stats}

-- The routes that stand above r.Use(s.auth.Middleware).
abbrev pub is_public : Endpoint → Bool
is_public Endpoint.health = true
is_public (Endpoint.login body) = true
is_public Endpoint.logout = true
is_public _ = false

module _ (k : Crypto) {Plane : Type 0} (reload : Reload Plane) where
  unfoldable pub dispatch :
      Moment → Bool → Option Text → Endpoint → ServerState Plane → Handled Plane
  dispatch m tls session Endpoint.health s = (write_json (pos 200) Body.status_ok, s)
  dispatch m tls session (Endpoint.login body) s = login k m tls body s
  dispatch m tls session Endpoint.logout s = logout k s
  dispatch m tls session Endpoint.me s = me k m session s
  dispatch m tls session (Endpoint.change_password body) s = change_password k m body s
  dispatch m tls session Endpoint.list_sites s = list_sites reload s
  dispatch m tls session (Endpoint.create_site body) s = create_site reload m body s
  dispatch m tls session (Endpoint.get_site id) s = get_site reload id s
  dispatch m tls session (Endpoint.update_site id body) s = update_site reload m id body s
  dispatch m tls session (Endpoint.delete_site id) s = delete_site reload id s
  dispatch m tls session Endpoint.list_rules s = list_rules reload s
  dispatch m tls session (Endpoint.create_rule body) s = create_rule reload m body s
  dispatch m tls session (Endpoint.get_rule id) s = get_rule reload id s
  dispatch m tls session (Endpoint.update_rule id body) s = update_rule reload m id body s
  dispatch m tls session (Endpoint.delete_rule id) s = delete_rule reload id s
  dispatch m tls session (Endpoint.list_events q) s = list_events q s
  dispatch m tls session (Endpoint.stats window) s = stats m window s

  abbrev pub guarded : Option Text → Moment → Call → ServerState Plane → Handled Plane
  guarded none m call s = (unauthorized, s)
  guarded (some user) m call s = dispatch m call.tls call.session call.endpoint s

  -- Handler: the public routes, and the others behind the session check.
  unfoldable pub handle : Moment → Call → ServerState Plane → Handled Plane
  handle m call s =
      if is_public call.endpoint
      then dispatch m call.tls call.session call.endpoint s
      else guarded (verify k m.secret m.now call.session) m call s
