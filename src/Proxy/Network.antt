-- ===== src/Proxy/Network.antt =====
-- What internal/proxy takes from other packages, as a parameter: net/url, crypto/tls,
-- net/http/httputil and autocert.
use wafportal.Base.{Text, Bool, Option, Result}
use wafportal.Waf.Http.{Request, Reply}

pub record Net : Type 1 where
  pub Url : Type 0
  -- url.Parse, and the field Host of its result
  pub parse_url : Text → Result Url
  pub url_host : Url → Text
  -- httputil.NewSingleHostReverseProxy(target): what upstream answers, or the error for which the
  -- ErrorHandler is called
  pub round_trip : Url → Request → Result Reply
  pub Certificate : Type 0
  -- tls.LoadX509KeyPair
  pub load_key_pair : Text → Text → Result Certificate
  -- autocert: the answer to a request under a host policy, if it is an ACME challenge, and
  -- GetCertificate
  pub acme_challenge : (Text → Bool) → Request → Option Reply
  pub acme_certificate : Text → Result Certificate
