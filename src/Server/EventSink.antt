-- ===== src/Server/EventSink.antt =====
-- The eventSink of cmd/wafportal/main.go: a buffered channel that requests send to, and a worker
-- that writes to the store. A schedule says who moves.
pub mod Bounds
pub mod Drained
use wafportal.Base.{ℕ, ltb, length, List, [], ◌∷◌, ◌++◌, if◌then◌else◌}
use wafportal.Store.Models.{Event}
use wafportal.Store.Db.{Db}
use wafportal.Store.Events.{insert_event}

pub record Sink : Type 0 where
  pub buffer : ℕ
  pub ch : List Event
  pub st : Db

unfoldable pub new_event_sink : Db → ℕ → Sink
new_event_sink st buffer = record { buffer = buffer; ch = []; st = st }

-- The select: the event is dropped where the channel cannot take it at once.
unfoldable pub submit : Event → Sink → Sink
submit e s = if ltb (length s.ch) s.buffer then record s { ch = s.ch ++ e ∷ [] } else s

-- One round of `run`; an error of the store is logged, and the event is gone.
abbrev pub store_next : List Event → Sink → Sink
store_next [] s = s
store_next (e ∷ rest) s = record s { ch = rest; st = (insert_event e s.st).1 }

unfoldable pub work : Sink → Sink
work s = store_next s.ch s

pub data Move : Type 0 where
  sent : Event → Move
  worked : Move

unfoldable pub move : Sink → Move → Sink
move s (sent e) = submit e s
move s worked = work s

unfoldable pub run : Sink → List Move → Sink
run s [] = s
run s (m ∷ ms) = run (move s m) ms
