-- ===== src/Server/Concurrent/Alone.antt =====
-- A task of the process that nothing overtakes is the action of System.
use wafportal.Base.{
  Text, ℕ, ◌≡◌, refl, ap, ◌∙◌, Bool, true, false, Option, none, some, List, [], ◌∷◌, text, ◌++◌,
  if◌then◌else◌,
}
use wafportal.Base.Tasks.{Task, done, step, run, run-bind}
use wafportal.Store.Models.{Time, Event}
use wafportal.Waf.Coraza.{Coraza}
use wafportal.Waf.Http.{Request, Reply, replies}
use wafportal.Proxy as Proxy
use wafportal.Proxy.{
  Answer, plain, redirect_to, serve_limited, serve_found, handler_for, permits, uses_tls,
}
use wafportal.Proxy.Network.{Net}
use wafportal.RateLimit.{Buckets, Limiter, allow}
use wafportal.Auth.Primitives.{Crypto}
use wafportal.Api.{handle}
use wafportal.Api.State.{apply_reload_err}
use wafportal.Api.Tasks as Tasks
use wafportal.Api.Tasks.Agreement.Routes.{handle-run}
use wafportal.Server.{Running, reload}
use wafportal.Server.ClientIp.{client_ip}
use wafportal.Server.EventSink.{work, store_next}
use wafportal.Server.System.{System, Action, act, answered as after_answer, sink_of, with_sink}
use wafportal.Server.Tasks.{reload_task, reload_task-run}
use wafportal.Server.Concurrent.{
  Served, replied, answered, settled, within, report, if_admitted, unless_tls, after_challenge,
  serve_http, http_handler, store_received, receive_from, round, job,
}

module _ {Rate : Type 0} (rate : ℕ → Rate) (c : Coraza) (n : Net) (k : Crypto) (b : Buckets) where
  -- What the client of an action gets.
  abbrev pub served : System rate c n k b → Action → Served
  served s (Action.visited nonce now r) =
      replied
        (Proxy.http_handler c n b (client_ip s.forwarded) s.limiter s.running.plane.routing nonce
          now r).0.reply
  served s (Action.visited_tls nonce now r) =
      replied
        (Proxy.serve_http c n b (client_ip s.forwarded) s.limiter s.running.plane.routing nonce now
          r).0.reply
  served s (Action.called m call) =
      answered (handle k (some (reload c n)) (record m { secret = s.secret }) call s.running).0
  served s Action.worked = settled
  served s (Action.swept now) = settled

  within-run :
      {A : Type 0} (t : Task (Running c n) A) (s : System rate c n k b)
      → run (within rate c n k b t) s
        ≡ ((run t s.running).0, record s { running = (run t s.running).1 })
  within-run (done a) s = refl
  within-run (step change next) s =
      within-run (next s.running) (record s { running = change s.running })

  -- The outcome of a request, and the process after it.
  abbrev concluded :
      System rate c n k b → Answer × Option (Limiter b) → Served × System rate c n k b
  concluded s r = (replied r.0.reply, after_answer rate c n k b s r)

  report-run :
      (o : Option Event) (reply : Reply) (l : Option (Limiter b)) (s : System rate c n k b)
      → run (report rate c n k b o reply) (record s { limiter = l })
        ≡ concluded s (record { reply = reply; event = o }, l)
  report-run none reply l s = refl
  report-run (some e) reply l s = refl

  serve_limited-run :
      (p : Bool × Limiter b) (nonce : Text) (now : Time) (r : Request) (s : System rate c n k b)
      → run (if_admitted rate c n k b nonce now r p.0) (record s { limiter = some p.1 })
        ≡ concluded s (serve_limited c n b p s.running.plane.routing nonce now r)
  unfolding serve_limited
  serve_limited-run (false, l) nonce now r s = refl
  serve_limited-run (true, l) nonce now r s = report-run _ _ (some l) s

  serve_http-run :
      (ip : Request → Text) (nonce : Text) (now : Time) (r : Request) (s : System rate c n k b)
      → run (serve_http rate c n k b (ip r) nonce now r) s
        ≡ concluded s (Proxy.serve_http c n b ip s.limiter s.running.plane.routing nonce now r)
  unfolding serve_http Proxy.serve_http
  serve_http-run ip nonce now r s = by_limiter s.limiter s
    where
      by_limiter :
          (l : Option (Limiter b)) (s : System rate c n k b)
          → run (serve_http rate c n k b (ip r) nonce now r) (record s { limiter = l })
            ≡ concluded s (Proxy.serve_http c n b ip l s.running.plane.routing nonce now r)
      by_limiter none s = report-run _ _ none s
      by_limiter (some l) s = serve_limited-run (allow b now (ip r) l) nonce now r s

  after_challenge-run :
      (o : Option Reply) (ip : Request → Text) (nonce : Text) (now : Time) (r : Request)
      (s : System rate c n k b)
      → run (after_challenge rate c n k b o (ip r) nonce now r) s
        ≡ concluded s
            (Proxy.after_challenge c n b o ip s.limiter s.running.plane.routing nonce now r)
  after_challenge-run (some reply) ip nonce now r s = refl
  after_challenge-run none ip nonce now r s = by_tls (uses_tls c n s.running.plane.routing r.host)
    where
      by_tls :
          (tls : Bool)
          → run (unless_tls rate c n k b (ip r) nonce now r tls) s
            ≡ concluded s (
                if tls
                then (
                  plain (replies (redirect_to c n (text "https://" ++ (r.host ++ r.request_uri)))),
                  s.limiter,
                )
                else Proxy.serve_http c n b ip s.limiter s.running.plane.routing nonce now r)
      by_tls true = refl
      by_tls false = serve_http-run ip nonce now r s

  store_received-run :
      (es : List Event) (s : System rate c n k b)
      → s.ch ≡ es
      → run
          (store_received rate c n k b (receive_from rate c n k b es s).0)
          (receive_from rate c n k b es s).1
        ≡ (settled, with_sink rate c n k b s (store_next es (sink_of rate c n k b s)))
  store_received-run [] s h = refl
  store_received-run (e ∷ es) s h = refl

  -- A request, a call or a round of a loop that runs from its first to its last step with nothing in
  -- between answers and changes the process as the action of System does.
  pub job-run :
      (s : System rate c n k b) (a : Action)
      → run (job rate c n k b s a) s ≡ (served s a, act rate c n k b s a)
  unfolding job act http_handler Proxy.http_handler round work
  job-run s (Action.visited nonce now r) =
      after_challenge-run (n.acme_challenge (permits c n s.running.plane.routing) r)
        (client_ip s.forwarded) nonce now r s
  job-run s (Action.visited_tls nonce now r) = serve_http-run (client_ip s.forwarded) nonce now r s
  job-run s (Action.called m call) =
      let m' = record m { secret = s.secret } in
      let t = Tasks.handle (some (reload_task c n)) k m' call in
      run-bind (within rate c n k b t) (λ response. done (answered response)) s
      ∙ (ap (λ x. (answered x.0, x.1)) (within-run t s)
          ∙ ap (λ x. (answered x.0, record s { running = x.1 }))
              (handle-run (some (reload_task c n)) (some (reload c n))
                (unfold apply_reload_err in reload_task-run c n) k m' call s.running))
  job-run s Action.worked = store_received-run s.ch s refl
  job-run s (Action.swept now) = refl
