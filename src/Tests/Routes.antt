-- ===== src/Tests/Routes.antt =====
-- The theorems about internal/proxy and internal/ratelimit for the shop's site.
use wafportal.Base.{text_eq, text, ◌≡◌, true, List, [], ◌∷◌, arith}
use wafportal.RateLimit.{new}
use wafportal.RateLimit.Eviction.{
  Tick, request, sweep, without_sweeps, decisions, decisions-without_sweeps,
}
use wafportal.Waf.Manager.{Engines}
use wafportal.Base.{none, get, put, to_lower, ◌≢◌, refl}
use wafportal.Proxy as Proxy
use wafportal.Proxy.{reload, handler_for, host_key, host_policy, upstream_of}
use wafportal.Proxy.Tls.{host_policy-reload}
use wafportal.Proxy.Routes.{route, handler_for-reload}
use wafportal.Tests.Fixtures.{stored_shop, toy_coraza, toy_net, toy_buckets, toy_buckets-Refills}

abbrev engines : Engines toy_coraza
engines = (text "on", true) ∷ []

handler_for-reload_example :
    handler_for toy_coraza toy_net
      (reload toy_coraza toy_net engines (stored_shop ∷ []))
      (text "SHOP.example:80")
    ≡ route toy_coraza toy_net engines (stored_shop ∷ []) (host_key (text "SHOP.example:80"))
handler_for-reload_example =
    handler_for-reload toy_coraza toy_net engines (stored_shop ∷ []) (text "SHOP.example:80")

abbrev traffic : List Tick
traffic =
    request 1 (text "a")
    ∷ request 1 (text "a")
    ∷ sweep 700_000_000_000
    ∷ request 700_000_000_001 (text "a")
    ∷ []

decisions-without_sweeps_example :
    decisions toy_buckets (new toy_buckets) traffic
    ≡ decisions toy_buckets (new toy_buckets) (without_sweeps traffic)
decisions-without_sweeps_example =
    decisions-without_sweeps toy_buckets toy_buckets-Refills 0 traffic
      (omega arith, (omega arith, (omega arith, (omega arith, tt))))

host_policy-reload_example :
    get
      (to_lower (text "SHOP.example"))
      (reload toy_coraza toy_net engines (stored_shop ∷ [])).handlers
    ≢ none
unfolding reload host_policy upstream_of to_lower get put Proxy.add_sites Proxy.add_site
    Proxy.add_target Proxy.add_tls text_eq Proxy.no_routes
host_policy-reload_example =
    host_policy-reload toy_coraza toy_net engines (stored_shop ∷ []) (text "SHOP.example") refl
