-- ===== src/Server/Startup/Plaintext.antt =====
-- cmd/wafportal/main.go with an empty https_addr, which internal/config/config.go says disables HTTPS.
use wafportal.Base.{
  Text, text, is_empty, ◌≡◌, ◌≢◌, refl, true, Option, none, List, ◌∷◌, ◌++◌, All, to_lower,
}
use wafportal.Store.Models.{Site, Time}
use wafportal.Waf.Coraza.{Coraza}
use wafportal.Waf.Manager.{Engines}
use wafportal.Waf.Http.{Request, replies}
use wafportal.Proxy.{host_key, permits, reload, http_handler, redirect_to}
use wafportal.Proxy.Tls.Auto.{IsAuto, uses_tls-auto}
use wafportal.Proxy.Network.{Net}
use wafportal.RateLimit.{Buckets, Limiter}
use wafportal.Config.{Config}
use wafportal.Server.Startup.{Serves, start_servers}

-- Without an address for HTTPS no server of main serves TLS; and yet a request in the clear, no ACME
-- challenge, for a site that is enabled, has a usable upstream and the default TLS mode "auto" is
-- redirected to HTTPS.
pub start_servers-redirect :
    {Rate : Type 0} (cfg : Config Rate) (c : Coraza) (n : Net) (b : Buckets)
    (client_ip : Request → Text) (l : Option (Limiter b)) (es : Engines c) (xs ys : List Site)
    (site : Site) (nonce : Text) (now : Time) (r : Request)
    → is_empty cfg.proxy.https_addr ≡ true
    → IsAuto c n site
    → host_key r.host ≡ to_lower site.domain
    → n.acme_challenge (permits c n (reload c n es (xs ++ site ∷ ys))) r ≡ none
    → All (λ s. s.serves ≢ Serves.tls) (start_servers cfg)
      × ((http_handler c n b client_ip l (reload c n es (xs ++ site ∷ ys)) nonce now r).0.reply
          ≡ replies (redirect_to c n (text "https://" ++ (r.host ++ r.request_uri))))
unfolding start_servers http_handler
start_servers-redirect cfg c n b client_ip l es xs ys site nonce now r off auto meant plain =
    rw (off, plain, uses_tls-auto c n es xs ys site r.host auto meant)
      (((λ h. cc), ((λ h. cc), tt)), refl)
