-- ===== src/Server/EventSink/Drained.antt =====
-- The worker of the event sink gets through the channel.
use wafportal.Base.{
  ℕ, zero, suc, length, length-append, ◌≡◌, ◌<◌, ◌∙◌, refl, sym, ap, List, [], ◌∷◌, ◌++◌, map, pos,
  arith,
}
use mathlib.Core.List.{append_assoc, map-append, append-nil}
use wafportal.Store.Models.{Event}
use wafportal.Store.Db.{Db}
use wafportal.Store.Db.Effects.{IsHealthy}
use wafportal.Store.Events.{insert_event}
use wafportal.Server.EventSink.{Sink, Move, worked, submit, work, move, run}
use wafportal.Server.EventSink.Bounds.{insert_all}

-- So many rounds of the worker.
abbrev pub rounds : ℕ → List Move
rounds zero = []
rounds (suc n) = worked ∷ rounds n

-- An event without the id that the table gives it.
abbrev pub content : Event → Event
content e = record e { id = pos 0 }

abbrev pub contents : Db → List Event
contents db = map content db.tables.events.rows

run-rounds :
    (es : List Event) (s : Sink)
    → s.ch ≡ es
    → run s (rounds (length es)) ≡ record s { ch = []; st = insert_all es s.st }
unfolding run insert_all move work
run-rounds [] s h = λ i. record { buffer = s.buffer; ch = h i; st = s.st }
run-rounds (e ∷ es) s h =
    rw h (run-rounds es (record s { ch = es; st = (insert_event e s.st).1 }) refl)

insert-contents :
    (e : Event) (db : Db)
    → IsHealthy db
    → IsHealthy (insert_event e db).1
      × (contents (insert_event e db).1 ≡ contents db ++ content e ∷ [])
unfolding insert_event
insert-contents e db h = rw h (refl, map-append content db.tables.events.rows _)

insert_all-contents :
    (es : List Event) (db : Db)
    → IsHealthy db
    → IsHealthy (insert_all es db) × (contents (insert_all es db) ≡ contents db ++ map content es)
unfolding insert_all
insert_all-contents [] db h = (h, sym (append-nil (contents db)))
insert_all-contents (e ∷ es) db h =
    let (calm, one) = insert-contents e db h in
    let (still, rest) = insert_all-contents es (insert_event e db).1 calm in
    (
      still,
      rest
          ∙ ap (λ l. l ++ map content es) one
          ∙ append_assoc (contents db) (content e ∷ []) (map content es),
    )

-- While the database works, a worker that gets one round for every event in the channel empties it, and
-- stores its events behind those that the table had, in their order and each once.
pub run-drains :
    (s : Sink)
    → IsHealthy s.st
    → ((run s (rounds (length s.ch))).ch ≡ [])
      × (contents (run s (rounds (length s.ch))).st ≡ contents s.st ++ map content s.ch)
run-drains s h = rw (run-rounds s.ch s refl) (refl, (insert_all-contents s.ch s.st h).1)

submit-room :
    (e : Event) (s : Sink) → length s.ch < s.buffer → submit e s ≡ record s { ch = s.ch ++ e ∷ [] }
unfolding submit
submit-room e s room = ground arith

-- An event that finds room in the channel is in the table after a round for each event before it and its
-- own.
pub submit-drains :
    (e : Event) (s : Sink)
    → IsHealthy s.st
    → length s.ch < s.buffer
    → ((run (submit e s) (rounds (suc (length s.ch)))).ch ≡ [])
      × (contents (run (submit e s) (rounds (suc (length s.ch)))).st
          ≡ contents s.st ++ (map content s.ch ++ content e ∷ []))
submit-drains e s h room =
    let one_more : length (s.ch ++ e ∷ []) ≡ suc (length s.ch) =
      omega (arith, length-append s.ch (e ∷ [])) in
    let drained = run-drains (record s { ch = s.ch ++ e ∷ [] }) h in
    rw (submit-room e s room) (rw (one_more, map-append content s.ch (e ∷ [])) at drained)
