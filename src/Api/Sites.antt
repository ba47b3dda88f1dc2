-- ===== src/Api/Sites.antt =====
-- The handlers of internal/api/api.go for sites.
use wafportal.Base.{Text, ℤ, pos, Result, ok, err}
use wafportal.Store.Models.{Site}
use wafportal.Store.Sites as Store
use wafportal.Api.Wire.{Body}
use wafportal.Api.Validate.{validate_site, id_param}
use wafportal.Api.State.{
  State, Reload, Moment, Handled, on_db, respond, write_json, write_err, invalid_json, apply_reload,
  deleted,
}

module _ {Plane : Type 0} (reload : Reload Plane) where
  unfoldable pub list_sites : State Plane → Handled Plane
  list_sites s = respond (pos 500) Body.sites (on_db Store.list_sites s)

  unfoldable pub get_site : Text → State Plane → Handled Plane
  get_site id s = respond (pos 404) Body.site (on_db (Store.get_site (id_param id)) s)

  -- After a write: 400 on the store's error, a reload and the site otherwise.
  abbrev pub saved_site : ℤ → Result Site × State Plane → Handled Plane
  saved_site status (err e, s) = (write_err (pos 400) e, s)
  saved_site status (ok site, s) = (write_json status (Body.site site), apply_reload reload s)

  abbrev pub create_valid : Moment → Result Site → State Plane → Handled Plane
  create_valid m (err msg) s = (write_err (pos 400) msg, s)
  create_valid m (ok site) s = saved_site (pos 201) (on_db (Store.create_site m.now site) s)

  unfoldable pub create_site : Moment → Result Site → State Plane → Handled Plane
  create_site m (err e) s = (invalid_json e, s)
  create_site m (ok site) s = create_valid m (validate_site site) s

  abbrev pub update_valid : Moment → Result Site → State Plane → Handled Plane
  update_valid m (err msg) s = (write_err (pos 400) msg, s)
  update_valid m (ok site) s = saved_site (pos 200) (on_db (Store.update_site m.now site) s)

  unfoldable pub update_site : Moment → Text → Result Site → State Plane → Handled Plane
  update_site m id (err e) s = (invalid_json e, s)
  update_site m id (ok site) s = update_valid m (validate_site (record site { id = id_param id })) s

  unfoldable pub delete_site : Text → State Plane → Handled Plane
  delete_site id s = deleted reload (on_db (Store.delete_site (id_param id)) s)
