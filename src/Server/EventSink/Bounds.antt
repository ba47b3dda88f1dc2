-- ===== src/Server/EventSink/Bounds.antt =====
-- The event sink of cmd/wafportal/main.go under any schedule of senders and worker.
use wafportal.Base.{
  ℕ, ltb, length, length-append, ◌≡◌, ◌≤◌, refl, ap, ◌∙◌, true, false, List, [], ◌∷◌, ◌++◌, Bool,
  if◌then◌else◌, arith,
}
use wafportal.Store.Models.{Event}
use wafportal.Store.Db.{Db}
use wafportal.Store.Events.{insert_event}
use wafportal.Server.EventSink.{
  Sink, Move, sent, worked, new_event_sink, submit, work, store_next, move, run,
}

-- The channel holds no more than its buffer.
abbrev pub Fits : Sink → Type 0
Fits s = length s.ch ≤ s.buffer

submit-Fits : (e : Event) (s : Sink) → Fits s → Fits (submit e s)
unfolding submit
submit-Fits e s h = ground (arith, length-append s.ch (e ∷ []))

store_next-Fits :
    (es : List Event) (s : Sink) → length es ≤ s.buffer → Fits s → Fits (store_next es s)
store_next-Fits [] s h k = k
store_next-Fits (e ∷ es) s h k = omega arith

move-Fits : (m : Move) (s : Sink) → Fits s → Fits (move s m)
unfolding move work
move-Fits (sent e) s h = submit-Fits e s h
move-Fits worked s h = store_next-Fits s.ch s h h

run-Fits : (ms : List Move) (s : Sink) → Fits s → Fits (run s ms)
unfolding run
run-Fits [] s h = h
run-Fits (m ∷ ms) s h = run-Fits ms (move s m) (move-Fits m s h)

store_next-buffer : (es : List Event) (s : Sink) → (store_next es s).buffer ≡ s.buffer
store_next-buffer [] s = refl
store_next-buffer (e ∷ es) s = refl

pub move-buffer : (m : Move) (s : Sink) → (move s m).buffer ≡ s.buffer
unfolding move work submit
move-buffer (sent e) s = ground arith
move-buffer worked s = store_next-buffer s.ch s

run-buffer : (ms : List Move) (s : Sink) → (run s ms).buffer ≡ s.buffer
unfolding run
run-buffer [] s = refl
run-buffer (m ∷ ms) s = run-buffer ms (move s m) ∙ move-buffer m s

-- A move leaves at most as many events in the channel as its buffer takes.
pub move-length : (m : Move) (s : Sink) → Fits s → length (move s m).ch ≤ s.buffer
move-length m s h = omega (arith, move-Fits m s h, move-buffer m s)

-- Under no schedule does a new sink's channel come to hold more events than its buffer.
pub run-bounded :
    (db : Db) (buffer : ℕ) (ms : List Move) → length (run (new_event_sink db buffer) ms).ch ≤ buffer
unfolding new_event_sink
run-bounded db buffer ms = omega (
  arith,
  run-Fits ms (new_event_sink db buffer) (omega arith),
  run-buffer ms (new_event_sink db buffer),
)

-- The events that the channel took, in the order in which they came.
pub taken : Sink → List Move → List Event
taken s [] = []
taken s (sent e ∷ ms) =
    let rest = taken (submit e s) ms in if ltb (length s.ch) s.buffer then e ∷ rest else rest
taken s (worked ∷ ms) = taken (work s) ms

-- The worker's writes, one after the other.
unfoldable pub insert_all : List Event → Db → Db
insert_all [] db = db
insert_all (e ∷ es) db = insert_all es (insert_event e db).1

insert_all-append :
    (es fs : List Event) (db : Db) → insert_all (es ++ fs) db ≡ insert_all fs (insert_all es db)
unfolding insert_all
insert_all-append [] fs db = refl
insert_all-append (e ∷ es) fs db = insert_all-append es fs (insert_event e db).1

-- What the store holds once the channel is written out.
abbrev pub drained : Sink → Db
drained s = insert_all s.ch s.st

drained-store_next :
    (es : List Event) (s : Sink) → s.ch ≡ es → drained (store_next es s) ≡ drained s
unfolding insert_all
drained-store_next [] s h = refl
drained-store_next (e ∷ es) s h = rw h refl

submit-drained :
    (e : Event) (s : Sink) (b : Bool)
    → ltb (length s.ch) s.buffer ≡ b
    → (rest : List Event)
    → insert_all rest (drained (submit e s)) ≡ insert_all (if b then e ∷ rest else rest) (drained s)
unfolding submit insert_all
submit-drained e s true h rest = rw (h, insert_all-append s.ch (e ∷ []) s.st) refl
submit-drained e s false h rest = rw h refl

run-drained : (ms : List Move) (s : Sink) → drained (run s ms) ≡ insert_all (taken s ms) (drained s)
unfolding run taken move
run-drained [] s = unfold insert_all in refl
run-drained (sent e ∷ ms) s =
    run-drained ms (submit e s)
    ∙ submit-drained e s (ltb (length s.ch) s.buffer) refl (taken (submit e s) ms)
run-drained (worked ∷ ms) s =
    run-drained ms (work s)
    ∙ ap (insert_all (taken (work s) ms)) (unfold work in drained-store_next s.ch s refl)

-- Whatever the schedule, once the channel is written out the store is what it is after the worker's
-- inserts of exactly the events that found room, each once, in the order in which they were sent.
pub run-taken :
    (db : Db) (buffer : ℕ) (ms : List Move)
    → drained (run (new_event_sink db buffer) ms)
      ≡ insert_all (taken (new_event_sink db buffer) ms) db
run-taken db buffer ms =
    run-drained ms (new_event_sink db buffer)
    ∙ ap (insert_all (taken (new_event_sink db buffer) ms))
        (unfold insert_all new_event_sink in refl)
