-- ===== src/Api/Rules.antt =====
-- The handlers of internal/api/api.go for custom rules.
pub mod Rollback
use wafportal.Base.{
  Text, text, is_empty, ℤ, pos, ◌||◌, if◌then◌else◌, Option, none, some, Result, ok, err, Error,
}
use wafportal.Store.Models.{CustomRule}
use wafportal.Store.Rules as Store
use wafportal.Api.Wire.{Body}
use wafportal.Api.Validate.{id_param}
use wafportal.Api.State.{
  State, Reload, Moment, Handled, on_db, respond, write_json, write_err, invalid_json, rejected,
  required, apply_reload_err, deleted,
}

module _ {Plane : Type 0} (reload : Reload Plane) where
  unfoldable pub list_rules : State Plane → Handled Plane
  list_rules s = respond (pos 500) Body.rules (on_db Store.list_rules s)

  unfoldable pub get_rule : Text → State Plane → Handled Plane
  get_rule id s = respond (pos 404) Body.rule (on_db (Store.get_rule (id_param id)) s)

  -- A rule that the reload refuses is deleted again; an error of that is dropped.
  abbrev pub keep_or_roll_back : CustomRule → Option Error × State Plane → Handled Plane
  keep_or_roll_back rule (none, s) = (write_json (pos 201) (Body.rule rule), s)
  keep_or_roll_back rule (some e, s) = (rejected e, (on_db (Store.delete_rule rule.id) s).1)

  abbrev pub created_rule : Result CustomRule × State Plane → Handled Plane
  created_rule (err e, s) = (write_err (pos 400) e, s)
  created_rule (ok rule, s) = keep_or_roll_back rule (apply_reload_err reload s)

  unfoldable pub create_rule : Moment → Result CustomRule → State Plane → Handled Plane
  create_rule m (err e) s = (invalid_json e, s)
  create_rule m (ok rule) s =
      if is_empty rule.name || is_empty rule.directive
      then (write_err (pos 400) required, s)
      else created_rule (on_db (Store.create_rule m.now rule) s)

  abbrev pub keep_or_reject : CustomRule → Option Error × State Plane → Handled Plane
  keep_or_reject rule (none, s) = (write_json (pos 200) (Body.rule rule), s)
  keep_or_reject rule (some e, s) = (rejected e, s)

  abbrev pub updated_rule : Result CustomRule × State Plane → Handled Plane
  updated_rule (err e, s) = (write_err (pos 400) e, s)
  updated_rule (ok rule, s) = keep_or_reject rule (apply_reload_err reload s)

  unfoldable pub update_rule : Moment → Text → Result CustomRule → State Plane → Handled Plane
  update_rule m id (err e) s = (invalid_json e, s)
  update_rule m id (ok rule) s =
      if is_empty rule.name || is_empty rule.directive
      then (write_err (pos 400) required, s)
      else updated_rule (on_db (Store.update_rule m.now (record rule { id = id_param id })) s)

  unfoldable pub delete_rule : Text → State Plane → Handled Plane
  delete_rule id s = deleted reload (on_db (Store.delete_rule (id_param id)) s)
