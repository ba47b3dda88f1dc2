-- ===== src/Server/System.antt =====
-- The running process of cmd/wafportal/main.go: the store, the engines, the routes, the rate limiter and
-- the event sink, and what happens to them while the servers run. Each action is one handler or one
-- round of a background loop, run to its end; the handlers take turns.
pub mod Safety
pub mod Reports
pub mod Freshness
pub mod Protection
use wafportal.Base.{Text, ℕ, Option, none, some, List, [], ◌∷◌}
use wafportal.Store.Models.{Time, Event}
use wafportal.Store.Db.{Db}
use wafportal.Waf.Coraza.{Coraza}
use wafportal.Waf.Http.{Request}
use wafportal.Proxy.{Answer, http_handler, serve_http}
use wafportal.Proxy.Network.{Net}
use wafportal.RateLimit
use wafportal.RateLimit.{Buckets, Limiter, cleanup}
use wafportal.Auth.Primitives.{Crypto}
use wafportal.Api.{handle}
use wafportal.Api.Wire.{Call}
use wafportal.Api.State.{Moment}
use wafportal.Server.{Plane, Running, reload}
use wafportal.Server.ClientIp.{ForwardedConfig, client_ip}
use wafportal.Server.EventSink.{Sink, new_event_sink, submit, work}
use wafportal.Server.Startup.{Started}

-- The buffer of newEventSink in main.
abbrev pub sink_buffer : ℕ
sink_buffer = 4096

-- What can happen next. A text and a time are the transaction's nonce and the clock.
pub data Action : Type 0 where
  -- a request to the proxy in the clear, and over TLS
  visited visited_tls : Text → Time → Request → Action
  called : Moment → Call → Action
  -- a round of the event sink's worker, and a tick of the limiter's cleanup
  worked : Action
  swept : Time → Action

module _ {Rate : Type 0} (rate : ℕ → Rate) (c : Coraza) (n : Net) (k : Crypto) (b : Buckets) where
  pub record System : Type 0 where
    pub running : Running c n
    -- the channel of the sink
    pub ch : List Event
    pub limiter : Option (Limiter b)
    pub forwarded : ForwardedConfig
    pub secret : Text

  -- The limiter that main makes, if the configuration asks for one.
  abbrev pub limiter_of : {A : Type 0} → Option A → Option (Limiter b)
  limiter_of none = none
  limiter_of (some _) = some (RateLimit.new b)

  -- The process as main leaves it when the servers start.
  unfoldable pub launch : Started rate c n k → Db → System
  launch st db = record {
    running = record { db = db; plane = st.plane };
    ch = (new_event_sink db sink_buffer).ch;
    limiter = limiter_of st.limiter;
    forwarded = st.forwarded;
    secret = st.authenticator.secret;
  }

  -- The sink shares the store with the handlers.
  abbrev pub sink_of : System → Sink
  sink_of s = record { buffer = sink_buffer; ch = s.ch; st = s.running.db }

  abbrev pub with_sink : System → Sink → System
  with_sink s k = record s { ch = k.ch; running = record s.running { db = k.st } }

  -- OnEvent is sink.Submit.
  abbrev pub reported : Option Event → System → System
  reported none s = s
  reported (some e) s = with_sink s (submit e (sink_of s))

  abbrev pub answered : System → Answer × Option (Limiter b) → System
  answered s (answer, limiter) = reported answer.event (record s { limiter = limiter })

  abbrev pub swept_limiter : Time → Option (Limiter b) → Option (Limiter b)
  swept_limiter now none = none
  swept_limiter now (some l) = some (cleanup b now l)

  unfoldable pub act : System → Action → System
  act s (visited nonce now r) =
      answered s
        (http_handler c n b (client_ip s.forwarded) s.limiter s.running.plane.routing nonce now r)
  act s (visited_tls nonce now r) =
      answered s
        (serve_http c n b (client_ip s.forwarded) s.limiter s.running.plane.routing nonce now r)
  act s (called m call) = record s {
    running = (handle k (some (reload c n)) (record m { secret = s.secret }) call s.running).1;
  }
  act s worked = with_sink s (work (sink_of s))
  act s (swept now) = record s { limiter = swept_limiter now s.limiter }

  -- What the process can come to.
  pub data Reach (s : System) : System → Type 0 where
    here : Reach s s
    next : {t : System} → Reach s t → (a : Action) → Reach s (act t a)
