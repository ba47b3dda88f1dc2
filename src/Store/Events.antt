-- ===== src/Store/Events.antt =====
-- The events of internal/store/store.go. The column `matched_rules` holds a list of ints as JSON,
-- which is written and read back unchanged: the list stands here itself. The driver's texts of
-- timestamps sort as the times do.
pub mod Page
use wafportal.Base.{
  Result, Text, text_eq, is_empty, suc, ℤ, pos, leb, leb_ℤ, ltb_ℤ, to_nat, Bool, ◌&&◌, ◌||◌,
  sort_by, filter, take, drop, if◌then◌else◌, List, [], ◌∷◌, ◌++◌, ok, err,
}
use wafportal.Store.Models.{Event}
use wafportal.Store.Table.{Table}
use wafportal.Store.Db.{Db, Tables, Call, query, exec}

abbrev pub append_event : Event → Tables → Result (Event × Tables)
append_event e t =
    let row = record e { id = pos (suc t.events.last_id) } in
    ok (
      row,
      record t {
        events = record { rows = t.events.rows ++ row ∷ []; last_id = suc t.events.last_id };
      },
    )

unfoldable pub insert_event : Event → Call Event
insert_event e = exec (append_event e)

pub record EventFilter : Type 0 where
  pub domain : Text
  pub blocked_only : Bool
  pub limit : ℤ
  pub offset : ℤ

-- The WHERE clause that the filter's fields put together.
abbrev pub selects : EventFilter → Event → Bool
selects f e =
    (if is_empty f.domain then Bool.true else text_eq e.domain f.domain)
    && (if f.blocked_only then e.blocked else Bool.true)

abbrev pub page_limit : EventFilter → ℤ
page_limit f = if leb_ℤ f.limit (pos 0) || ltb_ℤ (pos 1000) f.limit then pos 100 else f.limit

abbrev pub newest_first : Event → Event → Bool
newest_first a b = leb b.timestamp a.timestamp

abbrev pub page : EventFilter → List Event → List Event
page f rows =
    take (to_nat (page_limit f))
      (drop (to_nat f.offset) (sort_by newest_first (filter (selects f) rows)))

-- A negative OFFSET counts as 0; the limit is positive by then.
unfoldable pub list_events : EventFilter → Call (List Event)
list_events f = query (λ t. page f t.events.rows)
