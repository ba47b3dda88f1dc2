-- ===== src/Server/Concurrent/Keeps.antt =====
-- What each step of a task of the process keeps, and so what holds however the steps follow one another.
use wafportal.Base.{Text, ℕ, Bool, true, false, Option, none, some, List, [], ◌∷◌, All}
use wafportal.Base.Tasks.{
  done, step, Keeps, bind-Keeps, done-Keeps, advance-Keeps, advance_at-Keeps,
}
use wafportal.Store.Models.{Time, Event}
use wafportal.Waf.Coraza.{Coraza}
use wafportal.Waf.Http.{Request, Reply}
use wafportal.Proxy.{uses_tls}
use wafportal.Proxy.Network.{Net}
use wafportal.RateLimit.{Buckets, Limiter}
use wafportal.Auth.Primitives.{Crypto}
use wafportal.Api.Wire.{Call}
use wafportal.Api.State.{Moment}
use wafportal.Api.Tasks.{handle}
use wafportal.Server.Tasks.{reload_task}
use wafportal.Server.System.{System, Action, reported, swept_limiter}
use wafportal.Server.Concurrent.{
  Served, Job, Process, Turn, within, report, admit, if_admitted, unless_tls, after_challenge,
  serve_http, http_handler, store_received, receive_from, insert_into, round, job, next_round, turn,
  turns, idle, settled,
}

module _ {Rate : Type 0} (rate : ℕ → Rate) (c : Coraza) (n : Net) (k : Crypto) (b : Buckets) where
  -- What is kept, while the actions that begin are of a kind.
  pub record IsKept (P : System rate c n k b → Type 0) (Allowed : Action → Type 0) : Type 0 where
    pub limited :
        (l : Option (Limiter b)) (s : System rate c n k b) → P s → P (record s { limiter = l })
    pub submits : (e : Event) (s : System rate c n k b) → P s → P (reported rate c n k b (some e) s)
    pub receives : (s : System rate c n k b) → P s → P (receive_from rate c n k b s.ch s).1
    pub inserts : (e : Event) (s : System rate c n k b) → P s → P (insert_into rate c n k b e s).1
    pub calls :
        (m : Moment) (call : Call) (s : System rate c n k b)
        → Allowed (Action.called m call)
        → P s
        → Keeps P (
            within rate c n k b
              (handle (some (reload_task c n)) k (record m { secret = s.secret }) call))

  abbrev pub IsAllowed : (Action → Type 0) → Turn rate c n k b → Type 0
  IsAllowed Allowed (Turn.started a) = Allowed a
  IsAllowed Allowed (Turn.moved i) = Unit {0}
  IsAllowed Allowed Turn.worker_moved = Unit {0}

  module _ (P : System rate c n k b → Type 0) (Allowed : Action → Type 0)
      (kept : IsKept P Allowed) where
    report-Keeps : (o : Option Event) (reply : Reply) → Keeps P (report rate c n k b o reply)
    unfolding Keeps
    report-Keeps none reply = tt
    report-Keeps (some e) reply = λ s h. (kept.submits e s h, tt)

    admit-Kept :
        (now : Time) (client : Text) (s : System rate c n k b)
        → P s
        → P (admit rate c n k b now client s).1
    admit-Kept now client s h = by_limiter s.limiter h
      where
        by_limiter :
            (l : Option (Limiter b))
            → P s
            → P (admit rate c n k b now client (record s { limiter = l })).1
        by_limiter none h = kept.limited none s h
        by_limiter (some l) h = kept.limited _ s h

    if_admitted-Keeps :
        (nonce : Text) (now : Time) (r : Request) (ok : Bool)
        → Keeps P (if_admitted rate c n k b nonce now r ok)
    unfolding Keeps
    if_admitted-Keeps nonce now r false = tt
    if_admitted-Keeps nonce now r true = λ s h. (h, report-Keeps _ _)

    serve_http-Keeps :
        (client nonce : Text) (now : Time) (r : Request)
        → Keeps P (serve_http rate c n k b client nonce now r)
    unfolding serve_http Keeps
    serve_http-Keeps client nonce now r =
        λ s h. (admit-Kept now client s h, if_admitted-Keeps nonce now r _)

    after_challenge-Keeps :
        (o : Option Reply) (client nonce : Text) (now : Time) (r : Request)
        → Keeps P (after_challenge rate c n k b o client nonce now r)
    unfolding Keeps
    after_challenge-Keeps (some reply) client nonce now r = tt
    after_challenge-Keeps none client nonce now r =
        λ s h. (h, by_tls (uses_tls c n s.running.plane.routing r.host))
      where
        by_tls : (tls : Bool) → Keeps P (unless_tls rate c n k b client nonce now r tls)
        by_tls true = tt
        by_tls false = serve_http-Keeps client nonce now r

    store_received-Keeps : (o : Option Event) → Keeps P (store_received rate c n k b o)
    unfolding Keeps
    store_received-Keeps none = tt
    store_received-Keeps (some e) = λ s h. (kept.inserts e s h, tt)

    round-Keeps : Keeps P (round rate c n k b)
    unfolding round Keeps
    round-Keeps = λ s h. (kept.receives s h, store_received-Keeps _)

    job-Keeps :
        (s : System rate c n k b) (a : Action) → Allowed a → P s → Keeps P (job rate c n k b s a)
    unfolding job http_handler
    job-Keeps s (Action.visited nonce now r) allowed h =
        unfold Keeps in λ s h. (h, after_challenge-Keeps _ _ nonce now r)
    job-Keeps s (Action.visited_tls nonce now r) allowed h = serve_http-Keeps _ nonce now r
    job-Keeps s (Action.called m call) allowed h =
        bind-Keeps P (within rate c n k b _) _ (kept.calls m call s allowed h)
          (λ response. done-Keeps P _)
    job-Keeps s Action.worked allowed h = round-Keeps
    job-Keeps s (Action.swept now) allowed h =
        unfold Keeps in λ s h. (kept.limited (swept_limiter rate c n k b now s.limiter) s h, tt)

    -- What holds of the process and stays: of the state now, and of each step that is still to come.
    pub record IsSound (p : Process rate c n k b) : Type 0 where
      pub now : P p.system
      pub jobs : All (Keeps P) p.jobs
      pub worker : Keeps P p.worker

    next_round-Keeps :
        (t : Job rate c n k b Served) → Keeps P t → Keeps P (next_round rate c n k b t)
    next_round-Keeps (done a) h = round-Keeps
    next_round-Keeps (step change next) h = h

    turn-IsSound :
        (p : Process rate c n k b) (t : Turn rate c n k b)
        → IsAllowed Allowed t
        → IsSound p
        → IsSound (turn rate c n k b p t)
    unfolding turn
    turn-IsSound p (Turn.started (Action.visited nonce now r)) allowed h = record {
      now = h.now;
      jobs = (job-Keeps p.system (Action.visited nonce now r) allowed h.now, h.jobs);
      worker = h.worker;
    }
    turn-IsSound p (Turn.started (Action.visited_tls nonce now r)) allowed h = record {
      now = h.now;
      jobs = (job-Keeps p.system (Action.visited_tls nonce now r) allowed h.now, h.jobs);
      worker = h.worker;
    }
    turn-IsSound p (Turn.started (Action.called m call)) allowed h = record {
      now = h.now;
      jobs = (job-Keeps p.system (Action.called m call) allowed h.now, h.jobs);
      worker = h.worker;
    }
    turn-IsSound p (Turn.started Action.worked) allowed h = record {
      now = h.now;
      jobs = h.jobs;
      worker = next_round-Keeps p.worker h.worker;
    }
    turn-IsSound p (Turn.started (Action.swept now)) allowed h = record {
      now = h.now;
      jobs = (job-Keeps p.system (Action.swept now) allowed h.now, h.jobs);
      worker = h.worker;
    }
    turn-IsSound p (Turn.moved i) allowed h =
        let (jobs, now) = advance_at-Keeps P i p.jobs p.system h.jobs h.now in
        record { now = now; jobs = jobs; worker = h.worker }
    turn-IsSound p Turn.worker_moved allowed h =
        let (worker, now) = advance-Keeps P p.worker p.system h.worker h.now in
        record { now = now; jobs = h.jobs; worker = worker }

    turns-IsSound :
        (ts : List (Turn rate c n k b)) (p : Process rate c n k b)
        → All (IsAllowed Allowed) ts
        → IsSound p
        → IsSound (turns rate c n k b p ts)
    unfolding turns
    turns-IsSound [] p allowed h = h
    turns-IsSound (t ∷ ts) p (one, rest) h =
        turns-IsSound ts (turn rate c n k b p t) rest (turn-IsSound p t one h)

    -- From an idle process, whatever begins and in whatever order the steps follow one another.
    pub turns-Keeps :
        (ts : List (Turn rate c n k b)) (s : System rate c n k b)
        → All (IsAllowed Allowed) ts
        → P s
        → P (turns rate c n k b (idle rate c n k b s) ts).system
    turns-Keeps ts s allowed h =
        (turns-IsSound ts (idle rate c n k b s) allowed
          (record { now = h; jobs = tt; worker = done-Keeps P settled })).now
