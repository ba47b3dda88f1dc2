-- ===== src/Server/System/Reports.antt =====
-- From the attack to the table of events: the proxy, the firewall, the sink and the store together.
use wafportal.Base.{
  Text, ℕ, zero, suc, length, ◌≡◌, ◌<◌, refl, sym, ap, ◌∙◌, Bool, true, false, Option, none, some,
  List, [], ◌∷◌, ◌++◌, map, ok,
}
use mathlib.Core.Path.{subst}
use wafportal.Store.Models.{Event, Time}
use wafportal.Store.Db.Effects.{IsHealthy}
use wafportal.Waf.Coraza.{Coraza, Interruption}
use wafportal.Waf.Http.{Request, replies, write_header}
use wafportal.Waf.Inspect.{process_request_phase}
use wafportal.Waf.Summary.{status_from_interruption}
use wafportal.Waf.Middleware.Verdicts.{middleware_lem, Treated, IsBlockReport}
use wafportal.Proxy.{
  new_reverse_proxy, Handler, Routing, handler_for, serve_http, serve_limited, serve_found,
  serve_site,
}
use wafportal.Proxy.Network.{Net}
use wafportal.RateLimit.{Buckets, Limiter, allow}
use wafportal.Auth.Primitives.{Crypto}
use wafportal.Server.ClientIp.{client_ip}
use wafportal.Server.EventSink.{Sink, submit, run, move, work, store_next}
use wafportal.Server.EventSink.{sent}
use wafportal.Server.EventSink.Bounds.{move-buffer}
use wafportal.Server.EventSink.Drained.{rounds, content, contents, submit-drains}
use wafportal.Server.System.{System, Action, act, reported, sink_of, sink_buffer}

module _ {Rate : Type 0} (rate : ℕ → Rate) (c : Coraza) (n : Net) (k : Crypto) (b : Buckets) where
  open c use {Engine, new_transaction}

  -- So many rounds of the worker.
  abbrev pub turns : ℕ → System rate c n k b → System rate c n k b
  turns zero s = s
  turns (suc m) s = turns m (act rate c n k b s Action.worked)

  -- The sink keeps its buffer.
  sink-worked :
      (es : List Event) (k : Sink)
      → k.buffer ≡ sink_buffer
      → record { buffer = sink_buffer; ch = (store_next es k).ch; st = (store_next es k).st }
        ≡ store_next es k
  sink-worked [] k h = λ i. record { buffer = (sym h) i; ch = k.ch; st = k.st }
  sink-worked (e ∷ es) k h =
      λ i. record { buffer = (sym h) i; ch = es; st = (store_next (e ∷ es) k).st }

  sink-turns :
      (m : ℕ) (s : System rate c n k b)
      → sink_of rate c n k b (turns m s) ≡ run (sink_of rate c n k b s) (rounds m)
  unfolding run act move
  sink-turns zero s = refl
  sink-turns (suc m) s =
      sink-turns m (act rate c n k b s Action.worked)
      ∙ ap (λ x. run x (rounds m)) (unfold work in sink-worked s.ch (sink_of rate c n k b s) refl)

  abbrev pub lets_in : Option (Limiter b) → Text → Time → Bool
  lets_in none client now = true
  lets_in (some l) client now = (allow b now client l).0

  submit-sink :
      (e : Event) (k : Sink)
      → k.buffer ≡ sink_buffer
      → record { buffer = sink_buffer; ch = (submit e k).ch; st = (submit e k).st } ≡ submit e k
  unfolding move
  submit-sink e k h = λ i. record {
    buffer = (sym h ∙ sym (move-buffer (sent e) k)) i;
    ch = (submit e k).ch;
    st = (submit e k).st;
  }

  -- What is reported is stored after a round for each event before it and its own.
  reported-turns :
      (s : System rate c n k b) (ev : Event)
      → IsHealthy s.running.db
      → length s.ch < sink_buffer
      → ((turns (suc (length s.ch)) (reported rate c n k b (some ev) s)).ch ≡ [])
        × (contents (turns (suc (length s.ch)) (reported rate c n k b (some ev) s)).running.db
            ≡ contents s.running.db ++ (map content s.ch ++ content ev ∷ []))
  reported-turns s ev h room =
      let m = suc (length s.ch) in
      let k0 = sink_of rate c n k b s in
      let same : sink_of rate c n k b (turns m (reported rate c n k b (some ev) s))
          ≡ run (submit ev k0) (rounds m) =
        sink-turns m (reported rate c n k b (some ev) s)
        ∙ ap (λ x. run x (rounds m)) (submit-sink ev k0 refl) in
      let drained = submit-drains ev k0 h room in
      (ap (λ (x : Sink). x.ch) same ∙ drained.0, ap (λ (x : Sink). contents x.st) same ∙ drained.1)

  limited-event :
      (p : Bool × Limiter b) (t : Routing c n) (nonce : Text) (now : Time) (r : Request)
      → p.0 ≡ true
      → (serve_limited c n b p t nonce now r).0
        ≡ serve_found c n (handler_for c n t r.host) nonce now r
  unfolding serve_limited
  limited-event (true, l) t nonce now r h = refl
  limited-event (false, l) t nonce now r h = cc

  -- A request that is let in is handed to its host's handler.
  admitted :
      (l : Option (Limiter b)) (ip : Request → Text) (t : Routing c n) (nonce : Text) (now : Time)
      (r : Request)
      → lets_in l (ip r) now ≡ true
      → (serve_http c n b ip l t nonce now r).0
        ≡ serve_found c n (handler_for c n t r.host) nonce now r
  unfolding serve_http
  admitted none ip t nonce now r h = refl
  admitted (some l) ip t nonce now r h = limited-event (allow b now (ip r) l) t nonce now r h

  -- The engine's interruption is the reply, and is reported.
  stopped_at_site :
      (hd : Handler c n) (nonce : Text) (now : Time) (r : Request) (e : Engine) (it : Interruption)
      → hd.inspected_by ≡ some e
      → (process_request_phase c (new_transaction e nonce) r).0 ≡ ok (some it)
      → ((serve_site c n hd nonce now r).reply
          ≡ replies (write_header (status_from_interruption it) ∷ []))
        × ((ev : Event) × ((serve_site c n hd nonce now r).event ≡ some ev)
            × IsBlockReport hd.domain now r (status_from_interruption it) ev)
  unfolding serve_site
  stopped_at_site hd nonce now r e it inspected stopped =
      let (_, reply, event) =
        subst (Treated c (new_reverse_proxy c n hd.target) hd.domain now e nonce r) stopped
          (middleware_lem c (new_reverse_proxy c n hd.target) hd.domain now e nonce r) in
      rw inspected (reply, event)

  -- Where the database works, the sink has room, the limiter lets a request over TLS in and the
  -- engine of its host interrupts it, the client gets the interruption's status; and after a round
  -- of the worker for each event that was waiting and one more, with nothing in between, the last
  -- event stored, behind those, is blocked and has that status, the site's domain, the time and the
  -- request's client, method and URI.
  pub attack-recorded :
      (s : System rate c n k b) (nonce : Text) (now : Time) (r : Request) (hd : Handler c n)
      (e : Engine) (it : Interruption)
      → lets_in s.limiter (client_ip s.forwarded r) now ≡ true
      → handler_for c n s.running.plane.routing r.host ≡ some hd
      → hd.inspected_by ≡ some e
      → (process_request_phase c (new_transaction e nonce) r).0 ≡ ok (some it)
      → IsHealthy s.running.db
      → length s.ch < sink_buffer
      → ((serve_http c n b
            (client_ip s.forwarded)
            s.limiter
            s.running.plane.routing
            nonce
            now
            r).0.reply
          ≡ replies (write_header (status_from_interruption it) ∷ []))
        × ((ev : Event) × IsBlockReport hd.domain now r (status_from_interruption it) ev
            × (contents
                  (turns
                    (suc (length s.ch))
                    (act rate c n k b s (Action.visited_tls nonce now r))).running.db
                ≡ contents s.running.db ++ (map content s.ch ++ content ev ∷ [])))
  unfolding act serve_found
  attack-recorded s nonce now r hd e it let_in found inspected stopped healthy room =
      let (reply, (ev, event, report)) = stopped_at_site hd nonce now r e it inspected stopped in
      let answer : (serve_http c n b (client_ip s.forwarded) s.limiter s.running.plane.routing nonce
            now r).0
          ≡ serve_site c n hd nonce now r =
        admitted s.limiter (client_ip s.forwarded) s.running.plane.routing nonce now r let_in
        ∙ ap (λ o. serve_found c n o nonce now r) found in
      rw (answer, event)
        (
          reply,
          (
            ev,
            report,
            (reported-turns
                (record s {
                  limiter =
                      (serve_http c n b (client_ip s.forwarded) s.limiter s.running.plane.routing
                        nonce now r).1;
                })
                ev healthy room).1,
          ),
        )
