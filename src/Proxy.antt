-- ===== src/Proxy.antt =====
-- internal/proxy/proxy.go
pub mod Network
pub mod Routes
pub mod Tls
pub mod Unreached
use wafportal.Base.{
  quoted, Text, text, text_eq, is_empty, to_lower, before, pos, Bool, true, false, not, ◌||◌,
  if◌then◌else◌, Option, none, some, List, [], ◌∷◌, ◌++◌, Result, ok, err, Error, Assoc, get, put,
}
use wafportal.Store.Models.{Time, Event, Site, tls_mode_auto, tls_mode_manual}
use wafportal.Waf.Coraza.{Coraza}
use wafportal.Waf.Http.{
  Request, Write, set_header, write_header, write_body, Reply, replies, http_error,
}
use wafportal.Waf.Manager.{Engines, engine}
use wafportal.Waf.Middleware.{middleware}
use wafportal.RateLimit.{Buckets, Limiter, allow}
use wafportal.Proxy.Network.{Net}

-- strings.ToLower, and what stands before the first colon
unfoldable pub host_key : Text → Text
host_key host = before b':' (to_lower host)

-- What a request came to: the reply, and the event that the middleware gave to the sink.
pub record Answer : Type 0 where
  pub reply : Reply
  pub event : Option Event

abbrev pub plain : Reply → Answer
plain reply = record { reply = reply; event = none }

module _ (c : Coraza) (n : Net) where
  open c use {Engine}
  open n use {
    Url, parse_url, url_host, round_trip, Certificate, load_key_pair, acme_challenge,
    acme_certificate,
  }

  -- A reverse proxy, inside the middleware if there is an engine.
  pub record Handler : Type 0 where
    pub target : Url
    pub inspected_by : Option Engine
    pub domain : Text

  pub record Routing : Type 0 where
    pub handlers : Assoc Handler
    pub auto_domains : Assoc Bool
    pub manual_certs : Assoc Certificate

  unfoldable pub no_routes : Routing
  no_routes = record { handlers = []; auto_domains = []; manual_certs = [] }

  -- New: the maps are empty.
  abbrev pub new_proxy : Routing
  new_proxy = no_routes

  -- `err != nil || target.Host == ""` skips the site.
  unfoldable pub upstream_of : Site → Option Url
  upstream_of site = elim (parse_url site.upstream_url) [
    | err e ↦ none
    | ok target ↦ if is_empty (url_host target) then none else some target
  ]

  unfoldable pub handler_of : Engines c → Site → Url → Handler
  handler_of engines site target = record {
    target = target;
    inspected_by = engine c site.waf_mode engines;
    domain = site.domain;
  }

  abbrev pub put_loaded : Text → Result Certificate → Assoc Certificate → Assoc Certificate
  put_loaded domain (err e) certs = certs
  put_loaded domain (ok cert) certs = put domain cert certs

  -- The switch on site.TLSMode.
  unfoldable pub add_tls : Site → Routing → Routing
  add_tls site t =
      if text_eq site.tls_mode tls_mode_auto
      then record t { auto_domains = put (to_lower site.domain) true t.auto_domains }
      else if text_eq site.tls_mode tls_mode_manual
      then record t {
        manual_certs =
            put_loaded (to_lower site.domain) (load_key_pair site.cert_file site.key_file)
              t.manual_certs;
      }
      else t

  unfoldable pub add_target : Engines c → Site → Option Url → Routing → Routing
  add_target engines site none t = t
  add_target engines site (some target) t = add_tls site (record t {
    handlers = put (to_lower site.domain) (handler_of engines site target) t.handlers;
  })

  -- One round of the loop in Reload.
  unfoldable pub add_site : Engines c → Site → Routing → Routing
  add_site engines site t = if site.enabled then add_target engines site (upstream_of site) t else t

  unfoldable pub add_sites : Engines c → List Site → Routing → Routing
  add_sites engines [] t = t
  add_sites engines (site ∷ sites) t = add_sites engines sites (add_site engines site t)

  -- The tables are built anew; nothing of the old ones stays.
  unfoldable pub reload : Engines c → List Site → Routing
  reload engines sites = add_sites engines sites no_routes

  unfoldable pub handler_for : Routing → Text → Option Handler
  handler_for t host = get (host_key host) t.handlers

  abbrev or_unavailable : Result Reply → Reply
  or_unavailable (ok reply) = reply
  or_unavailable (err e) = replies (http_error (text "upstream unavailable") (pos 502))

  unfoldable pub new_reverse_proxy : Url → Request → Reply
  new_reverse_proxy target r = or_unavailable (round_trip target r)

  -- The handler's ServeHTTP.
  unfoldable pub serve_site : Handler → Text → Time → Request → Answer
  serve_site h nonce now r = elim h.inspected_by [
    | none ↦ plain (new_reverse_proxy h.target r)
    | some e ↦
        let served = middleware c e (new_reverse_proxy h.target) h.domain nonce now r in
        record { reply = served.reply; event = served.event }
  ]

  unfoldable pub serve_found : Option Handler → Text → Time → Request → Answer
  serve_found none nonce now r =
      plain (replies (http_error (text "no site configured for this host") (pos 404)))
  serve_found (some h) nonce now r = serve_site h nonce now r

  abbrev pub too_many : Reply
  too_many = replies (
      set_header (text "Retry-After") (text "1")
      ∷ http_error (text "rate limit exceeded") (pos 429))

  module _ (b : Buckets) where
    unfoldable pub serve_limited :
        Bool × Limiter b → Routing → Text → Time → Request → Answer × Option (Limiter b)
    serve_limited (false, l) t nonce now r = (plain too_many, some l)
    serve_limited (true, l) t nonce now r = (serve_found (handler_for t r.host) nonce now r, some l)

    -- ServeHTTP. `client_ip` is p.clientIP; with no limiter every request goes on.
    unfoldable pub serve_http :
        (Request → Text)
        → Option (Limiter b)
        → Routing
        → Text
        → Time
        → Request
        → Answer × Option (Limiter b)
    serve_http client_ip none t nonce now r = (serve_found (handler_for t r.host) nonce now r, none)
    serve_http client_ip (some l) t nonce now r =
        serve_limited (allow b now (client_ip r) l) t nonce now r

  -- autoDomains[domain] is false on a missing key.
  abbrev pub is_auto : Routing → Text → Bool
  is_auto t domain = elim (get domain t.auto_domains) [ none ↦ false | some flag ↦ flag ]

  abbrev pub has_cert : Option Certificate → Bool
  has_cert none = false
  has_cert (some cert) = true

  unfoldable pub uses_tls : Routing → Text → Bool
  uses_tls t host = is_auto t (host_key host) || has_cert (get (host_key host) t.manual_certs)

  -- http.Redirect to an absolute URL, up to the body that it writes for a GET.
  abbrev pub redirect_to : Text → List Write
  redirect_to target = set_header (text "Location") target ∷ write_header (pos 301) ∷ []

  -- `none` is the nil error, which lets autocert request a certificate.
  unfoldable pub host_policy : Routing → Text → Option Error
  host_policy t host =
      if is_auto t (to_lower host)
      then none
      else some (text "acme: host " ++ (quoted host ++ text " not configured for automatic TLS"))

  abbrev pub permits : Routing → Text → Bool
  permits t host = elim (host_policy t host) [ none ↦ true | some e ↦ false ]

  module _ (b : Buckets) where
    abbrev pub after_challenge :
        Option Reply
        → (Request → Text)
        → Option (Limiter b)
        → Routing
        → Text
        → Time
        → Request
        → Answer × Option (Limiter b)
    after_challenge (some reply) client_ip l t nonce now r = (plain reply, l)
    after_challenge none client_ip l t nonce now r =
        if uses_tls t r.host
        then (plain (replies (redirect_to (text "https://" ++ (r.host ++ r.request_uri)))), l)
        else serve_http b client_ip l t nonce now r

    -- HTTPHandler: autocert answers its challenges, for the hosts of the policy, and passes everything
    -- else on.
    unfoldable pub http_handler :
        (Request → Text)
        → Option (Limiter b)
        → Routing
        → Text
        → Time
        → Request
        → Answer × Option (Limiter b)
    http_handler client_ip l t nonce now r =
        after_challenge (acme_challenge (permits t) r) client_ip l t nonce now r

  abbrev pub or_acme : Text → Option Certificate → Result Certificate
  or_acme name none = acme_certificate name
  or_acme name (some cert) = ok cert

  unfoldable pub get_certificate : Routing → Text → Result Certificate
  get_certificate t server_name = or_acme server_name (get (to_lower server_name) t.manual_certs)
