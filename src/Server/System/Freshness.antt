-- ===== src/Server/System/Freshness.antt =====
-- The engines and routes of the running process against what the store holds.
use wafportal.Base.{◌≡◌, refl, ℕ, Option, none, some, List, [], ◌∷◌, ok}
use wafportal.Store.Models.{Event}
use wafportal.Store.Db.{Db}
use wafportal.Store.Db.Effects.{IsHealthy}
use wafportal.Store.Events.{insert_event}
use wafportal.Store.Operations.Invariant.{IsValid}
use wafportal.Waf.Coraza.{Coraza}
use wafportal.Proxy.{Answer, http_handler, serve_http}
use wafportal.Proxy.Network.{Net}
use wafportal.RateLimit.{Buckets, Limiter}
use wafportal.Auth.Primitives.{Crypto}
use wafportal.Server.ClientIp.{client_ip}
use wafportal.Server.EventSink.{Sink, work, store_next}
use wafportal.Server.Current.{IsCurrent, InSync, IsCurrent-same}
use wafportal.Server.Current.Accounts.{IsLike}
use wafportal.Server.Current.Routes.{handle-InSync}
use wafportal.Server.Startup.{Host, Started, boot}
use wafportal.Server.Startup.States.{boot-InSync}
use wafportal.Server.System.{
  System, Action, launch, act, answered, reported, sink_of, Reach, here, next,
}
use wafportal.Server.System.Safety.{Kept, Reach-Kept, launch-Kept, submit-st}

module _ {Rate : Type 0} (rate : ℕ → Rate) (c : Coraza) (n : Net) (k : Crypto) (b : Buckets) where
  abbrev IsFresh : System rate c n k b → Type 0
  IsFresh s = InSync c n s.running

  reported-IsFresh :
      (o : Option Event) (s : System rate c n k b) → IsFresh s → IsFresh (reported rate c n k b o s)
  reported-IsFresh none s h = h
  reported-IsFresh (some e) s h = rw (submit-st e (sink_of rate c n k b s)) h

  answered-IsFresh :
      (s : System rate c n k b) (r : Answer × Option (Limiter b))
      → IsFresh s
      → IsFresh (answered rate c n k b s r)
  answered-IsFresh s (answer, limiter) h =
      reported-IsFresh answer.event (record s { limiter = limiter }) h

  -- The worker touches the events only.
  stored-IsLike :
      (es : List Event) (s : Sink) → IsHealthy s.st → IsLike s.st.tables (store_next es s).st
  unfolding insert_event
  stored-IsLike [] s h = (h, refl, refl)
  stored-IsLike (e ∷ es) s h = rw h (refl, refl, refl)

  act-IsFresh :
      (s : System rate c n k b) (a : Action)
      → IsValid s.running.db.tables
      → IsFresh s
      → IsFresh (act rate c n k b s a)
  unfolding act work
  act-IsFresh s (Action.visited nonce now r) v h =
      answered-IsFresh s
        (http_handler c n b (client_ip s.forwarded) s.limiter s.running.plane.routing nonce now r) h
  act-IsFresh s (Action.visited_tls nonce now r) v h =
      answered-IsFresh s
        (serve_http c n b (client_ip s.forwarded) s.limiter s.running.plane.routing nonce now r) h
  act-IsFresh s (Action.called m call) v h =
      handle-InSync c n k (record m { secret = s.secret }) call s.running v h
  act-IsFresh s Action.worked v (healthy, current) =
      let (healthy', rules, sites) = stored-IsLike s.ch (sink_of rate c n k b s) healthy in
      (
        healthy',
        IsCurrent-same c n s.running.db.tables (store_next s.ch (sink_of rate c n k b s)).st.tables
            s.running.plane rules sites current,
      )
  act-IsFresh s (Action.swept now) v h = h

  Reach-IsFresh :
      {s t : System rate c n k b}
      → Kept rate c n k b s
      → IsFresh s
      → Reach rate c n k b s t
      → IsFresh t
  Reach-IsFresh v h here = h
  Reach-IsFresh v h (next r a) =
      act-IsFresh _ a (Reach-Kept rate c n k b v r).0.0 (Reach-IsFresh v h r)

  -- From valid tables and while the database works, where the requests, the calls of the API and the
  -- rounds of the loops run one after another, none beginning before the last is over: between any
  -- two of them since main started the servers, either the enabled rules that are stored do not
  -- compile, or the engines in use are those compiled from them and the routes are those of the
  -- stored sites, as a fresh start would install them.
  pub Reach-IsCurrent :
      (h : Host Rate) (db db' : Db) (st : Started rate c n k) (s : System rate c n k b)
      → IsHealthy db
      → IsValid db.tables
      → boot rate c n k h db ≡ (ok st, db')
      → Reach rate c n k b (launch rate c n k b st db') s
      → IsCurrent c n s.running.db.tables s.running.plane
  Reach-IsCurrent h db db' st s healthy v booted r =
      (Reach-IsFresh {s = launch rate c n k b st db'}
        (launch-Kept rate c n k b h db db' st v booted)
        (unfold launch in boot-InSync rate c n k h db db' st healthy booted) r).1
