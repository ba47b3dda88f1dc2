-- ===== src/Api/State.antt =====
-- What the handlers of internal/api/api.go share: the server's state, the callback that re-syncs it,
-- and the helpers that write a response.
use wafportal.Base.{Group, Text, text, ℤ, pos, Option, none, some, ◌++◌, Result, ok, err, Error}
use wafportal.Store.Models.{Time, Event}
use wafportal.Store.Db.{Db}
use wafportal.Api.Wire.{Body, Response}

-- `Plane` is what `reload` keeps in step with the store: the engines and the routing table.
pub record State (Plane : Type 0) : Type 0 where
  pub db : Db
  pub plane : Plane

-- func() error over the whole state; `none` is the nil function
abbrev pub Reload : Type 0 → Type 0
Reload Plane = Option (State Plane → Option Error × State Plane)

abbrev pub Handled : Type 0 → Type 0
Handled Plane = Response × State Plane

-- The surroundings of one call: the authenticator's secret, the clock, and the salt that bcrypt
-- draws, and how SQLite picks a row of a group for a column that is not grouped by.
pub record Moment : Type 0 where
  pub secret : Text
  pub now : Time
  pub salt : Text
  pub bare : Group Event → Event

abbrev pub write_json : ℤ → Body → Response
write_json status body = record { status = status; body = body; cookie = none }

abbrev pub write_err : ℤ → Error → Response
write_err status e = write_json status (Body.error e)

abbrev pub invalid_json : Error → Response
invalid_json e = write_err (pos 400) (text "invalid JSON: " ++ e)

abbrev pub no_content : Response
no_content = write_json (pos 204) Body.nothing

abbrev pub unauthorized : Response
unauthorized = write_err (pos 401) (text "authentication required")

abbrev pub rejected : Error → Response
rejected e = write_err (pos 400) (text "rule rejected: " ++ e)

abbrev pub required : Error
required = text "name and directive are required"

module _ {Plane : Type 0} where
  -- A call of the store or of the authenticator on the state's database.
  abbrev pub on_db : {A : Type 0} → (Db → A × Db) → State Plane → A × State Plane
  on_db m s = let (a, db') = m s.db in (a, record s { db = db' })

  -- A query whose error ends the request with a status.
  abbrev pub respond : {A : Type 0} → ℤ → (A → Body) → Result A × State Plane → Handled Plane
  respond status show (ok a, s) = (write_json (pos 200) (show a), s)
  respond status show (err e, s) = (write_err status e, s)

module _ {Plane : Type 0} (reload : Reload Plane) where
  abbrev pub reload_with : Reload Plane → State Plane → Option Error × State Plane
  reload_with none s = (none, s)
  reload_with (some f) s = f s

  unfoldable pub apply_reload_err : State Plane → Option Error × State Plane
  apply_reload_err s = reload_with reload s

  -- The error is only logged.
  unfoldable pub apply_reload : State Plane → State Plane
  apply_reload s = (apply_reload_err s).1

  abbrev pub deleted : Result (Unit {0}) × State Plane → Handled Plane
  deleted (err e, s) = (write_err (pos 500) e, s)
  deleted (ok _, s) = (no_content, apply_reload s)
