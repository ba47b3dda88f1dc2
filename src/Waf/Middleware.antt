-- ===== src/Waf/Middleware.antt =====
-- Middleware of internal/waf/middleware.go. The deferred call runs on every way out, also when the
-- upstream handler panics.
pub mod Verdicts
use wafportal.Base.{
  Text, text, ℤ, pos, Bool, true, false, if◌then◌else◌, Option, none, some, List, [], ◌∷◌, Result,
  ok, err,
}
use wafportal.Store.Models.{Time, Event}
use wafportal.Waf.Coraza.{Coraza, Interruption}
use wafportal.Waf.Http.{Request, Write, write_header, Reply, replies, http_error}
use wafportal.Waf.Recorder.{StatusRecorder, new_recorder, record_all}
use wafportal.Waf.Summary.{build_event, status_from_interruption}
use wafportal.Waf.Inspect.{Phase, process_request_phase}

module _ (c : Coraza) where
  open c use {Engine, Transaction, new_transaction, process_response_headers, process_logging}

  -- What came of a request: the calls on the client's writer, the request that was handed to
  -- upstream, the event that was given to the sink, and the closed transaction.
  pub record Served : Type 0 where
    pub reply : Reply
    pub forwarded : Option Request
    pub event : Option Event
    pub tx : Transaction

  -- The deferred function, with the variables `blocked` and `status` as it finds them.
  unfoldable pub deferred :
      Time → Text → Request → Option Request → Reply → Bool → ℤ → Transaction → Served
  deferred now domain r forwarded reply blocked status tx =
      let logged = process_logging tx in
      record {
        reply = reply;
        forwarded = forwarded;
        event = build_event c logged now r domain blocked status;
        tx = logged;
      }

  -- The upstream handler is called with a recorder around the writer. A panic leaves `status` at
  -- 200 and skips the response headers.
  unfoldable pub pass_on : (Request → Reply) → Time → Text → Phase c → Served
  pass_on upstream now domain p =
      let reply = upstream p.request in
      let rec = record_all new_recorder reply.writes in
      let sent : Reply = record { writes = rec.sent; panicked = reply.panicked } in
      if reply.panicked
      then deferred now domain p.request (some p.request) sent false (pos 200) p.tx
      else deferred now domain p.request (some p.request) sent false rec.status
          (process_response_headers rec.status p.request.proto p.tx)

  unfoldable pub decide :
      (Request → Reply) → Time → Text → Result (Option Interruption) → Phase c → Served
  decide upstream now domain (err e) p =
      deferred now domain p.request none
        (replies (http_error (text "request processing error") (pos 502))) false (pos 502) p.tx
  decide upstream now domain (ok (some it)) p =
      let status = status_from_interruption it in
      deferred now domain p.request none (replies (write_header status ∷ [])) true status p.tx
  decide upstream now domain (ok none) p = pass_on upstream now domain p

  -- `nonce` is the id that the new transaction draws, `now` the answer of time.Now().
  unfoldable pub middleware : Engine → (Request → Reply) → Text → Text → Time → Request → Served
  middleware engine upstream domain nonce now r =
      let (result, p) = process_request_phase c (new_transaction engine nonce) r in
      decide upstream now domain result p
