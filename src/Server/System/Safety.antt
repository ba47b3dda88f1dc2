-- ===== src/Server/System/Safety.antt =====
-- What holds of the process at any time, whatever requests and calls arrive and however they interleave.
use wafportal.Base.{
  Text, length, ◌≡◌, ◌≢◌, ◌≤◌, ◌⊎◌, ℕ, Option, none, some, List, [], ◌∷◌, ok, false, arith,
}
use wafportal.Store.Models.{Event, waf_mode_off}
use wafportal.Store.Db.{Db}
use wafportal.Store.Operations.Invariant.{IsValid}
use wafportal.Store.Operations.Calls.{insert_event-KeepsValid}
use wafportal.Waf.Coraza.{Coraza}
use wafportal.Waf.Manager.{engine}
use wafportal.Proxy.{Answer, http_handler, serve_http, uses_tls, handler_for}
use wafportal.Proxy.Network.{Net}
use wafportal.RateLimit.{Buckets, Limiter}
use wafportal.Auth.Primitives.{Crypto}
use wafportal.Api.Keeps.{KeepsInv}
use wafportal.Api.Keeps.Routes.{handle-Inv}
use wafportal.Api.State.{apply_reload_err}
use wafportal.Server.{reload}
use wafportal.Server.ClientIp.{client_ip}
use wafportal.Server.EventSink.{Sink, Move, sent, move, submit, work, store_next, new_event_sink}
use wafportal.Server.EventSink.Bounds.{move-length}
use wafportal.Server.Guarded.{IsGuarded, uses_tls-IsGuarded, reload-IsGuarded}
use wafportal.Server.Startup.{Host, Started, boot}
use wafportal.Server.Startup.States.{boot-IsGuarded}
use wafportal.Server.System.{
  System, Action, launch, act, answered, reported, sink_of, sink_buffer, Reach, here, next,
}

pub submit-st : (e : Event) (s : Sink) → (submit e s).st ≡ s.st
unfolding submit
submit-st e s = ground arith

store_next-IsValid :
    (es : List Event) (s : Sink) → IsValid s.st.tables → IsValid (store_next es s).st.tables
store_next-IsValid [] s v = v
store_next-IsValid (e ∷ es) s v = insert_event-KeepsValid e s.st v

module _ {Rate : Type 0} (rate : ℕ → Rate) (c : Coraza) (n : Net) (k : Crypto) (b : Buckets) where
  -- The tables are valid, the sink holds at most its buffer, a site with the firewall off has no engine,
  -- and a host is served, or is not redirected to HTTPS.
  pub record IsSafe (s : System rate c n k b) : Type 0 where
    pub valid : IsValid s.running.db.tables
    pub fits : length s.ch ≤ sink_buffer
    pub bypassed : engine c waf_mode_off s.running.plane.engines ≡ none
    pub served :
        (host : Text)
        → (uses_tls c n s.running.plane.routing host ≡ false)
          ⊎ (handler_for c n s.running.plane.routing host ≢ none)

  -- The form in which every action keeps it.
  abbrev pub Kept : System rate c n k b → Type 0
  Kept s =
      (IsValid s.running.db.tables × IsGuarded c n s.running.plane) × (length s.ch ≤ sink_buffer)

  pub reported-Kept :
      (o : Option Event) (s : System rate c n k b) → Kept s → Kept (reported rate c n k b o s)
  reported-Kept none s h = h
  reported-Kept (some e) s ((v, g), f) = (
    (rw (submit-st e (sink_of rate c n k b s)) v, g),
    (unfold move in move-length (sent e) (sink_of rate c n k b s) f),
  )

  answered-Kept :
      (s : System rate c n k b) (r : Answer × Option (Limiter b))
      → Kept s
      → Kept (answered rate c n k b s r)
  answered-Kept s (answer, limiter) h =
      reported-Kept answer.event (record s { limiter = limiter }) h

  callback-KeepsInv : KeepsInv (IsGuarded c n) (some (reload c n))
  unfolding apply_reload_err
  callback-KeepsInv = reload-IsGuarded c n

  act-Kept : (s : System rate c n k b) (a : Action) → Kept s → Kept (act rate c n k b s a)
  unfolding act
  act-Kept s (Action.visited nonce now r) h =
      answered-Kept s
        (http_handler c n b (client_ip s.forwarded) s.limiter s.running.plane.routing nonce now r) h
  act-Kept s (Action.visited_tls nonce now r) h =
      answered-Kept s
        (serve_http c n b (client_ip s.forwarded) s.limiter s.running.plane.routing nonce now r) h
  act-Kept s (Action.called m call) (h, f) = (
    handle-Inv (IsGuarded c n) (some (reload c n)) (callback-KeepsInv) k
        (record m { secret = s.secret }) call s.running h,
    f,
  )
  act-Kept s Action.worked ((v, g), f) =
      unfold work in
      (
        (store_next-IsValid s.ch (sink_of rate c n k b s) v, g),
        (unfold move work in move-length Move.worked (sink_of rate c n k b s) f),
      )
  act-Kept s (Action.swept now) h = h

  pub Reach-Kept : {s t : System rate c n k b} → Kept s → Reach rate c n k b s t → Kept t
  Reach-Kept h here = h
  Reach-Kept h (next r a) = act-Kept _ a (Reach-Kept h r)

  pub launch-Kept :
      (h : Host Rate) (db db' : Db) (st : Started rate c n k)
      → IsValid db.tables
      → boot rate c n k h db ≡ (ok st, db')
      → Kept (launch rate c n k b st db')
  unfolding launch new_event_sink
  launch-Kept h db db' st v booted = (boot-IsGuarded rate c n k h db db' st v booted, omega arith)

  pub Kept-IsSafe : (s : System rate c n k b) → Kept s → IsSafe s
  Kept-IsSafe s ((v, g), f) = record {
    valid = v;
    fits = f;
    bypassed = g.bypassed;
    served = λ host. uses_tls-IsGuarded c n s.running.plane host g;
  }

  -- From valid tables, whatever happens once main has started the servers, the tables stay valid, the sink
  -- holds at most its 4096 events, sites in mode "off" have no engine, and every host that is redirected
  -- to HTTPS has a handler.
  pub Reach-IsSafe :
      (h : Host Rate) (db db' : Db) (st : Started rate c n k) (s : System rate c n k b)
      → IsValid db.tables
      → boot rate c n k h db ≡ (ok st, db')
      → Reach rate c n k b (launch rate c n k b st db') s
      → IsSafe s
  Reach-IsSafe h db db' st s v booted r =
      Kept-IsSafe s
        (Reach-Kept {s = launch rate c n k b st db'} (launch-Kept h db db' st v booted) r)
