-- ===== src/Tests/Stores.antt =====
-- The store's theorems on the shop's rows.
use wafportal.Store.Models.{Stats}
use wafportal.Base.{Group, Selected, ℕ, ◌*◌, ok}
use wafportal.Store.Stats.{stats, hour}
use wafportal.Store.Stats.Totals.{IsDashboard, InWindow, stats_lem}
use wafportal.Base.{
  take, drop, to_nat, List, text, ◌≤◌, length, pos, ◌≡◌, refl, true, false, List, [], ◌∷◌, arith,
}
use wafportal.Store.Models.{Event, Site}
use wafportal.Store.Db.{Db, empty_tables}
use wafportal.Store.Events.{EventFilter, list_events}
use wafportal.Store.Events.Page.{IsLog, IsPageSize, list_events_lem}
use wafportal.Store.Operations.{Operation, setting, new_site, no_site, new_event, perform_all}
use wafportal.Store.Operations.Invariant.{IsValid, perform_all-IsValid}
use wafportal.Tests.Fixtures.{shop, an_event, empty_db}

abbrev blog : Site
blog = record shop { domain = text "blog" }

abbrev some_work : List Operation
some_work =
    setting (text "k") (text "v")
    ∷ new_site 1 shop
    ∷ new_site 2 shop
    ∷ new_event an_event
    ∷ no_site (pos 1)
    ∷ []

empty-IsValid : IsValid empty_tables
empty-IsValid = record {
  sites_keyed = omega arith;
  rules_keyed = omega arith;
  events_keyed = omega arith;
  domains_distinct = tt;
}

perform_all-IsValid_example : IsValid (perform_all some_work empty_db).tables
perform_all-IsValid_example = perform_all-IsValid some_work empty_db empty-IsValid

abbrev blocked_first : EventFilter
blocked_first = record { domain = []; blocked_only = true; limit = pos 1; offset = pos 0 }

abbrev event_db : Db
event_db = record empty_db {
  tables = record empty_tables {
    events = record { rows = record an_event { id = pos 1 } ∷ []; last_id = 1 };
  };
}

list_events_lem_example :
    (log : List Event) × IsLog blocked_first event_db.tables.events.rows log
    × ((size : ℕ) × IsPageSize blocked_first.limit size
        × (record an_event { id = pos 1 } ∷ []
            ≡ take size (drop (to_nat blocked_first.offset) log)))
    × (length (record an_event { id = pos 1 } ∷ []) ≤ 1000)
unfolding list_events
list_events_lem_example =
    list_events_lem blocked_first event_db (record an_event { id = pos 1 } ∷ []) refl

abbrev head_of : Group Event → Event
head_of g = g.0

-- Three events, one of them before the window, and two of one rule in different hours.
abbrev busy_db : Db
busy_db = record empty_db {
  tables = record empty_tables {
    events = record {
      rows =
          record an_event { id = pos 1 }
          ∷ record an_event { id = pos 2; timestamp = 5 * hour; blocked = false }
          ∷ record an_event { id = pos 3; timestamp = 6 * hour }
          ∷ [];
      last_id = 3;
    };
  };
}

stats_lem_example :
    (st : Stats) × ((stats head_of (7 * hour) (pos (4 * hour)) busy_db).0 ≡ ok st)
    × ((rows : List Event) × Selected
          (InWindow (7 * hour) (pos (4 * hour)))
          busy_db.tables.events.rows
          rows
        × IsDashboard rows st)
stats_lem_example = stats_lem head_of (7 * hour) (pos (4 * hour)) busy_db refl
