-- ===== src/Waf/Middleware/Verdicts.antt =====
-- What the middleware does with each outcome of the request phase.
use wafportal.Base.{
  Text, text, ℤ, pos, ◌≡◌, refl, ap, ◌∙◌, inl, inr, Bool, true, false, Bool-cases, Option, none,
  some, Option-cases, [], ◌∷◌, Result, ok, err, arith,
}
use mathlib.Core.Bool.{true≢false}
use wafportal.Store.Models.{Event, Time}
use wafportal.Waf.Coraza.{Coraza, Interruption}
use wafportal.Waf.Http.{Request, Reply, replies, write_header, http_error}
use wafportal.Waf.Recorder.Status.{record_all_lem}
use wafportal.Waf.Summary.{build_event, status_from_interruption}
use wafportal.Waf.Summary.Reports.{build_event-none_iff, build_event-some, build_event-request}
use wafportal.Waf.Address.{split_host}
use wafportal.Waf.Inspect.Line.{phase-HasLineOf}
use wafportal.Waf.Inspect.{Phase, Outcome, process_request_phase}
use wafportal.Waf.Middleware.{Served, deferred, pass_on, decide, middleware}

-- The report of a block: the verdict, the site, the time, and the request's client, method and URI.
pub record IsBlockReport (site : Text) (now : Time) (r : Request) (status : ℤ) (ev : Event)
    : Type 0 where
  pub blocked : ev.blocked ≡ true
  pub status_code : ev.status_code ≡ status
  pub domain : ev.domain ≡ site
  pub timestamp : ev.timestamp ≡ now
  pub client_ip : ev.client_ip ≡ split_host r.remote_addr
  pub method : ev.method ≡ r.method
  pub uri : ev.uri ≡ r.request_uri

module _ (c : Coraza) (upstream : Request → Reply) (domain : Text) (now : Time) where
  open c use {Engine, Transaction, new_transaction, process_logging}

  -- A block is always reported.
  block_is_reported :
      (tx : Transaction) (r : Request) (status : ℤ)
      → (ev : Event) × (build_event c tx now r domain true status ≡ some ev)
        × IsBlockReport domain now r status ev
  block_is_reported tx r status = elim (Option-cases (build_event c tx now r domain true status)) [
    | inl silent ↦
        absurd (true≢false ((build_event-none_iff c tx now r domain true status).0 silent).0)
    | inr (ev, e) ↦
        let (blocked, status_code, _, site, client, time) =
          build_event-some c tx now r domain true status ev e in
        let (method, uri) = build_event-request c tx now r domain true status ev e in
        (
          ev,
          e,
          record {
            blocked = blocked;
            status_code = status_code;
            domain = site;
            timestamp = time;
            client_ip = client;
            method = method;
            uri = uri;
          },
        )
  ]

  pass-reply : (p : Phase c) → (pass_on c upstream now domain p).reply ≡ upstream p.request
  unfolding pass_on deferred
  pass-reply p = ground (arith, (record_all_lem (upstream p.request).writes).0)

  pass-forwarded : (p : Phase c) → (pass_on c upstream now domain p).forwarded ≡ some p.request
  unfolding pass_on deferred
  pass-forwarded p = ground arith

  -- Whether an event says that its request was blocked.
  abbrev pub says_blocked : Option Event → Bool
  says_blocked none = false
  says_blocked (some ev) = ev.blocked

  unblocked :
      (tx : Transaction) (r : Request) (status : ℤ)
      → says_blocked (build_event c tx now r domain false status) ≡ false
  unblocked tx r status = elim (Option-cases (build_event c tx now r domain false status)) [
    | inl silent ↦ rw silent refl
    | inr (ev, e) ↦ rw e (build_event-some c tx now r domain false status ev e).0
  ]

  pass-event : (p : Phase c) → says_blocked (pass_on c upstream now domain p).event ≡ false
  unfolding pass_on deferred
  pass-event p = elim (Bool-cases (upstream p.request).panicked) [
    | inl panic ↦ rw panic (unblocked _ p.request _)
    | inr calm ↦ rw calm (unblocked _ p.request _)
  ]

  module _ (e : Engine) (nonce : Text) (r : Request) where
    abbrev pub inspected : Outcome c
    inspected = process_request_phase c (new_transaction e nonce) r

    abbrev pub result : Served c
    result = middleware c e upstream domain nonce now r

    -- What becomes of the request, by the outcome of its inspection.
    abbrev pub Treated : Result (Option Interruption) → Type 0
    Treated (err x) =
        (result.forwarded ≡ none)
        × (result.reply ≡ replies (http_error (text "request processing error") (pos 502)))
        × (says_blocked result.event ≡ false)
    Treated (ok (some it)) =
        (result.forwarded ≡ none)
        × (result.reply ≡ replies (write_header (status_from_interruption it) ∷ []))
        × ((ev : Event) × (result.event ≡ some ev)
            × IsBlockReport domain now r (status_from_interruption it) ev)
    Treated (ok none) =
        (result.forwarded ≡ some inspected.1.request)
        × (result.reply ≡ upstream inspected.1.request)
        × (says_blocked result.event ≡ false)

    -- The request that is reported has the client, the method and the URI of the one that came.
    reported_of :
        {o : Option Event} (status : ℤ)
        → (ev : Event) × (o ≡ some ev) × IsBlockReport domain now inspected.1.request status ev
        → (ev : Event) × (o ≡ some ev) × IsBlockReport domain now r status ev
    reported_of status (ev, made, report) =
        let (client, method, uri) = phase-HasLineOf c (new_transaction e nonce) r in
        (
          ev,
          made,
          record {
            blocked = report.blocked;
            status_code = report.status_code;
            domain = report.domain;
            timestamp = report.timestamp;
            client_ip = report.client_ip ∙ ap split_host client;
            method = report.method ∙ method;
            uri = report.uri ∙ uri;
          },
        )

    treated : (x : Result (Option Interruption)) → inspected.0 ≡ x → Treated x
    unfolding middleware decide deferred
    treated (err x) h = rw h (refl, refl, unblocked _ _ _)
    treated (ok (some it)) h = rw h (
      refl,
      refl,
      reported_of (status_from_interruption it) (
          block_is_reported (process_logging inspected.1.tx) inspected.1.request
            (status_from_interruption it)),
    )
    treated (ok none) h =
        rw h (pass-forwarded inspected.1, pass-reply inspected.1, pass-event inspected.1)

    -- An interrupted request gets the interruption's status and nothing else, is not handed to
    -- upstream, and is always reported as blocked, with that status, the site, the time and the request's client,
    -- method and URI. One whose inspection fails gets
    -- a 502 and is not handed to upstream. Any other is handed to upstream, whose reply reaches the
    -- client unchanged. In the last two cases the request is reported, if at all, as not blocked.
    pub middleware_lem : Treated inspected.0
    middleware_lem = treated inspected.0 refl
