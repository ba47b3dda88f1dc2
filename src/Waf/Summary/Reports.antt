-- ===== src/Waf/Summary/Reports.antt =====
-- When buildEvent reports a request, and what the event holds.
use wafportal.Base.{Text, ℤ, ◌≡◌, ◌↔◌, Bool, false, none, some, [], arith}
use wafportal.Store.Models.{Event, Time}
use wafportal.Waf.Coraza.{Coraza}
use wafportal.Waf.Http.{Request}
use wafportal.Waf.Address.{split_host}
use wafportal.Waf.Summary.{start_summary, event_of, build_event}
use wafportal.Waf.Summary.Detections.{detected_ids, matched-summarize}

module _ (c : Coraza) (tx : c.Transaction) (now : Time) (r : Request) (domain : Text)
    (blocked : Bool) (status : ℤ) where
  open c use {matched_rules}

  -- A request is reported exactly when it was blocked or a detection rule with an id matched.
  pub build_event-none_iff :
      (build_event c tx now r domain blocked status ≡ none)
      ↔ ((blocked ≡ false) × (detected_ids (matched_rules tx) ≡ []))
  unfolding build_event event_of
  build_event-none_iff = ground (arith, matched-summarize start_summary (matched_rules tx))

  -- An event carries the verdict, the status, the ids of the detection rules that matched, the
  -- site's domain, the host of the client's address and the time.
  pub build_event-some :
      (e : Event)
      → build_event c tx now r domain blocked status ≡ some e
      → (e.blocked ≡ blocked)
        × (e.status_code ≡ status)
        × (e.matched_rules ≡ detected_ids (matched_rules tx))
        × (e.domain ≡ domain)
        × (e.client_ip ≡ split_host r.remote_addr)
        × (e.timestamp ≡ now)
  unfolding build_event event_of
  build_event-some e h = ground (arith, matched-summarize start_summary (matched_rules tx))

  -- It carries the request's method and URI.
  pub build_event-request :
      (e : Event)
      → build_event c tx now r domain blocked status ≡ some e
      → (e.method ≡ r.method) × (e.uri ≡ r.request_uri)
  unfolding build_event event_of
  build_event-request e h = ground (arith, matched-summarize start_summary (matched_rules tx))
