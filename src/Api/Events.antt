-- ===== src/Api/Events.antt =====
-- listEvents and stats of internal/api/api.go.
use wafportal.Base.{text, text_eq, ℤ, pos, ◌*◌, Option, none, some, Result, ok, err}
use wafportal.Store.Stats as Summary
use wafportal.Store.Stats.{hour}
use wafportal.Store.Events as Store
use wafportal.Store.Events.{EventFilter}
use wafportal.Api.Wire.{EventQuery, Body}
use wafportal.Api.Validate.{atoi_default}
use wafportal.Api.State.{Moment, State, Handled, on_db, respond}

abbrev pub filter_of : EventQuery → EventFilter
filter_of q = record {
  domain = q.domain;
  blocked_only = text_eq q.blocked (text "true");
  limit = atoi_default q.limit (pos 100);
  offset = atoi_default q.offset (pos 0);
}

module _ {Plane : Type 0} where
  unfoldable pub list_events : EventQuery → State Plane → Handled Plane
  list_events q s = respond (pos 500) Body.events (on_db (Store.list_events (filter_of q)) s)

-- 24 * time.Hour, and any window that can be read in its place
abbrev pub window_of : Option (Result ℤ) → ℤ
window_of none = pos (24 * hour)
window_of (some (err e)) = pos (24 * hour)
window_of (some (ok d)) = d

module _ {Plane : Type 0} where
  unfoldable pub stats : Moment → Option (Result ℤ) → State Plane → Handled Plane
  stats m window s =
      respond (pos 500) Body.stats (on_db (Summary.stats m.bare m.now (window_of window)) s)
