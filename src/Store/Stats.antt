-- ===== src/Store/Stats.antt =====
-- Stats of internal/store/store.go: four statements over the events of a window. The driver's texts of
-- timestamps sort as the times do and name the hour; no other statement comes between the four. A time
-- window is a number of nanoseconds in the range of int64.
pub mod Totals
use wafportal.Base.{
  Text, text_eq, ℕ, suc, ◌+◌, ◌-◌, ◌*◌, ◌/◌, ◌==◌, ℤ, pos, negsuc, eq_ℤ, leb_ℤ, leb, Bool, not,
  max_int64, ◌&&◌, if◌then◌else◌, List, [], ◌∷◌, map, filter, length, take, sort_by, Group, members,
  size, group_by, Result, ok, err, continue, ◌>>=◌, pure,
}
use wafportal.Store.Models.{Time, Event, RuleCount, ClientCount, TimelinePoint, Stats}
use wafportal.Store.Db.{Db, Tables, Call, query}

-- The time `n` nanoseconds earlier, which may lie before the epoch.
abbrev pub earlier : Time → ℕ → ℤ
earlier now n = if leb n now then pos (now - n) else negsuc (n - now - 1)

-- now.Add(-since) for a `since` in the range of int64, whose least number is its own negation
unfoldable pub from_time : Time → ℤ → ℤ
from_time now (pos n) = earlier now n
from_time now (negsuc m) = if m == max_int64 then earlier now (suc m) else pos (now + suc m)

-- WHERE timestamp >= ?
abbrev pub since_rows : ℤ → Tables → List Event
since_rows from t = filter (λ e. leb_ℤ from (pos e.timestamp)) t.events.rows

abbrev pub blocked_rows : List Event → List Event
blocked_rows es = filter (λ e. e.blocked) es

-- SELECT COUNT(*), COALESCE(SUM(blocked),0)
unfoldable pub count_events : ℤ → Call (ℕ × ℕ)
count_events from =
    query (λ t. (length (since_rows from t), length (blocked_rows (since_rows from t))))

abbrev pub more_rows : Group Event → Group Event → Bool
more_rows a b = leb (size b) (size a)

-- ORDER BY c DESC LIMIT 10
abbrev pub top_ten : List (Group Event) → List (Group Event)
top_ten gs = take 10 (sort_by more_rows gs)

abbrev pub same_rule : Event → Event → Bool
same_rule a b = eq_ℤ a.rule_id b.rule_id

-- AND rule_id != 0
abbrev pub ruled : List Event → List Event
ruled es = filter (λ e. not (eq_ℤ e.rule_id (pos 0))) es

abbrev pub same_client : Event → Event → Bool
same_client a b = text_eq a.client_ip b.client_ip

abbrev pub client_count : Group Event → ClientCount
client_count g = record { client_ip = g.0.client_ip; count = size g }

unfoldable pub top_clients : ℤ → Call (List ClientCount)
top_clients from =
    query (λ t. map client_count (top_ten (group_by same_client (since_rows from t))))

-- time.Hour
abbrev pub hour : Time
hour = 3_600_000_000_000

-- strftime('%Y-%m-%dT%H:00:00Z', …), parsed back
abbrev pub hour_of : Event → Time
hour_of e = e.timestamp / hour * hour

abbrev pub same_hour : Event → Event → Bool
same_hour a b = hour_of a == hour_of b

abbrev pub point : Group Event → TimelinePoint
point g = record {
  bucket = hour_of g.0;
  total = size g;
  blocked = length (blocked_rows (members g));
}

abbrev pub earlier_hour : Group Event → Group Event → Bool
earlier_hour a b = leb (hour_of a.0) (hour_of b.0)

unfoldable pub timeline : ℤ → Call (List TimelinePoint)
timeline from =
    query (λ t. map point (sort_by earlier_hour (group_by same_hour (since_rows from t))))

-- `bare` is the row of a group from which SQLite takes the column `message`, which is not grouped by.
module _ (bare : Group Event → Event) where
  abbrev pub rule_count : Group Event → RuleCount
  rule_count g = record { rule_id = g.0.rule_id; message = (bare g).message; count = size g }

  unfoldable pub top_rules : ℤ → Call (List RuleCount)
  top_rules from =
      query (λ t. map rule_count (top_ten (group_by same_rule (ruled (since_rows from t)))))

  unfoldable pub stats : Time → ℤ → Call Stats
  stats now since = do
    counts ← count_events (from_time now since)
    rules ← top_rules (from_time now since)
    clients ← top_clients (from_time now since)
    points ← timeline (from_time now since)
    pure (record {
      total_events = counts.0;
      blocked_events = counts.1;
      top_rules = rules;
      top_clients = clients;
      timeline = points;
    })
