-- ===== src/Server/Concurrent.antt =====
-- The running process of cmd/wafportal/main.go, with requests and calls that overtake one another: net/http
-- serves each in a goroutine of its own, and the worker of the event sink and the limiter's cleanup have
-- theirs. What each does is a task; a step takes one lock, or hands one statement to the database.
pub mod Alone
pub mod Safety
pub mod Keeps
pub mod Strangers
pub mod Ends
pub mod Rejected
use wafportal.Base.{
  Text, ℕ, ◌≡◌, refl, ap, ◌∙◌, Bool, true, false, if◌then◌else◌, Option, none, some, List, [], ◌∷◌,
  ◌++◌, text, Bool-cases, inl, inr,
}
use wafportal.Base.Tasks.{Task, done, step, atomically, ◌>>=◌, run, run-bind, advance, advance_at}
use wafportal.Store.Models.{Time, Event}
use wafportal.Store.Db.{Db}
use wafportal.Store.Events.{insert_event}
use wafportal.Waf.Coraza.{Coraza}
use wafportal.Waf.Http.{Request, Reply, replies}
use wafportal.Proxy.{
  Answer, Handler, handler_for, serve_found, too_many, permits, uses_tls, redirect_to,
}
use wafportal.Proxy.Network.{Net}
use wafportal.RateLimit.{Buckets, Limiter, allow}
use wafportal.Auth.Primitives.{Crypto}
use wafportal.Api.Tasks.{handle}
use wafportal.Api.Wire.{Response}
use wafportal.Server.{Running}
use wafportal.Server.ClientIp.{client_ip}
use wafportal.Server.Tasks.{reload_task}
use wafportal.Server.System.{System, Action, reported, swept_limiter}

-- What a task came to: a reply of the proxy, a response of the API, or a round of a loop.
pub data Served : Type 0 where
  replied : Reply → Served
  answered : Response → Served
  settled : Served

module _ {Rate : Type 0} (rate : ℕ → Rate) (c : Coraza) (n : Net) (k : Crypto) (b : Buckets) where
  abbrev pub Job : Type 0 → Type 0
  Job A = Task (System rate c n k b) A

  -- A task over the store, the engines and the routes, in the process.
  abbrev pub within : {A : Type 0} → Task (Running c n) A → Job A
  within (done a) = done a
  within (step change next) =
      step (λ s. record s { running = change s.running }) (λ s. within (next s.running))

  -- OnEvent, and the reply.
  abbrev pub report : Option Event → Reply → Job Served
  report none reply = done (replied reply)
  report (some e) reply = do
    u ← atomically (λ s. (tt {0}, reported rate c n k b (some e) s))
    done (replied reply)

  abbrev pub finish : Answer → Job Served
  finish a = report a.event a.reply

  -- p.limiter == nil || p.limiter.Allow(p.clientIP(r))
  abbrev pub admit : Time → Text → System rate c n k b → Bool × System rate c n k b
  admit now client s = elim s.limiter [
    | none ↦ (true, s)
    | some l ↦ ((allow b now client l).0, record s { limiter = some (allow b now client l).1 })
  ]

  abbrev pub look_up : Request → System rate c n k b → Option (Handler c n) × System rate c n k b
  look_up r s = (handler_for c n s.running.plane.routing r.host, s)

  abbrev pub if_admitted : Text → Time → Request → Bool → Job Served
  if_admitted nonce now r false = done (replied (too_many c n))
  if_admitted nonce now r true = do
    h ← atomically (look_up r)
    finish (serve_found c n h nonce now r)

  -- Proxy.ServeHTTP. `client` is p.clientIP(r).
  unfoldable pub serve_http : Text → Text → Time → Request → Job Served
  serve_http client nonce now r = do
    admitted ← atomically (admit now client)
    if_admitted nonce now r admitted

  abbrev pub redirected : Request → Reply
  redirected r = replies (redirect_to c n (text "https://" ++ (r.host ++ r.request_uri)))

  abbrev pub unless_tls : Text → Text → Time → Request → Bool → Job Served
  unless_tls client nonce now r true = done (replied (redirected r))
  unless_tls client nonce now r false = serve_http client nonce now r

  abbrev pub after_challenge : Option Reply → Text → Text → Time → Request → Job Served
  after_challenge (some reply) client nonce now r = done (replied reply)
  after_challenge none client nonce now r = do
    tls ← atomically (λ s. (uses_tls c n s.running.plane.routing r.host, s))
    unless_tls client nonce now r tls

  -- Proxy.HTTPHandler
  unfoldable pub http_handler : Text → Text → Time → Request → Job Served
  http_handler client nonce now r = do
    challenge ← atomically (λ s. (n.acme_challenge (permits c n s.running.plane.routing) r, s))
    after_challenge challenge client nonce now r

  -- The worker receives an event from the channel, and then stores it.
  abbrev pub receive_from : List Event → System rate c n k b → Option Event × System rate c n k b
  receive_from [] s = (none, s)
  receive_from (e ∷ es) s = (some e, record s { ch = es })

  abbrev pub insert_into : Event → System rate c n k b → Unit {0} × System rate c n k b
  insert_into e s =
      (tt, record s { running = record s.running { db = (insert_event e s.running.db).1 } })

  abbrev pub store_received : Option Event → Job Served
  store_received none = done settled
  store_received (some e) = do u ← atomically (insert_into e); done settled

  unfoldable pub round : Job Served
  round = do e ← atomically (λ s. receive_from s.ch s); store_received e

  abbrev pub sweep : Time → System rate c n k b → Unit {0} × System rate c n k b
  sweep now s = (tt, record s { limiter = swept_limiter rate c n k b now s.limiter })

  -- The task that an action is. The client's address depends on the configuration and the request alone.
  unfoldable pub job : System rate c n k b → Action → Job Served
  job s (Action.visited nonce now r) = http_handler (client_ip s.forwarded r) nonce now r
  job s (Action.visited_tls nonce now r) = serve_http (client_ip s.forwarded r) nonce now r
  job s (Action.called m call) = do
    response ← within (handle (some (reload_task c n)) k (record m { secret = s.secret }) call)
    done (answered response)
  job s Action.worked = round
  job s (Action.swept now) = do u ← atomically (sweep now); done settled

  -- The process, the requests and calls that have begun, and the round of the worker.
  pub record Process : Type 0 where
    pub system : System rate c n k b
    pub jobs : List (Job Served)
    pub worker : Job Served

  -- There is one worker: its next round begins when the last is over.
  abbrev pub next_round : Job Served → Job Served
  next_round (done a) = round
  next_round (step change next) = step change next

  abbrev pub start : Action → Process → Process
  start Action.worked p = record p { worker = next_round p.worker }
  start a p = record p { jobs = job p.system a ∷ p.jobs }

  -- Something arrives or begins, a task that has begun takes a step, or the worker does.
  pub data Turn : Type 0 where
    started : Action → Turn
    moved : ℕ → Turn
    worker_moved : Turn

  unfoldable pub turn : Process → Turn → Process
  turn p (started a) = start a p
  turn p (moved i) =
      let (jobs, s) = advance_at i p.jobs p.system in record p { system = s; jobs = jobs }
  turn p worker_moved =
      let (worker, s) = advance p.worker p.system in record p { system = s; worker = worker }

  unfoldable pub turns : Process → List Turn → Process
  turns p [] = p
  turns p (t ∷ ts) = turns (turn p t) ts

  -- No request has come yet.
  abbrev pub idle : System rate c n k b → Process
  idle s = record { system = s; jobs = []; worker = done settled }
