-- ===== src/Tests/Outages.antt =====
-- The theorems about sites that are served and sites that are not, and about a forged client address.
use wafportal.Api.Validate.{check_files, check_tls_mode, check_waf_mode, validate_site}
use wafportal.Base.{
  ℕ, before, join, trim_space, text_eq, get, to_lower, text, ◌≡◌, ◌≢◌, refl, ok, none, some, true,
  [], ◌∷◌, pos, All, arith,
}
use wafportal.Store.Models.{Site}
use wafportal.Store.Db.{Tables}
use wafportal.Waf.Http.{Request, replies}
use wafportal.Waf.Manager as Manager
use wafportal.Waf.Manager.{directives, build, engine, Engines, swap_engines}
use wafportal.Proxy.{
  host_key, handler_of, upstream_of, handler_for, reload, http_handler, redirect_to, Handler,
}
use wafportal.Proxy.Unreached.{handler_for-port, handler_for-twin}
use wafportal.RateLimit.{Limiter, allow}
use wafportal.Config.{Config, default}
use wafportal.Api.Sites.{create_site, update_site, delete_site}
use wafportal.Server.{Running}
use wafportal.Server.ClientIp.{header_get, ForwardedConfig, client_ip}
use wafportal.Server.ClientIp.Forwarded.{allow-forwarded}
use wafportal.Server.Startup.{Serves, start_servers}
use wafportal.Server.Startup.Plaintext.{start_servers-redirect}
use wafportal.Server.Unapplied.{IsUnapplied, site_writes-IsUnapplied}
use wafportal.Server.Live.{IsLive, create_site-IsLive}
use wafportal.Tests.Fixtures.{
  toy_coraza, toy_net, toy_buckets, shop, stored_shop, bad_rule, shop_tables, shop_db, visit,
  a_moment,
}
use wafportal.Tests.Processes.{rate, shop_plane}

abbrev engines : Engines toy_coraza
engines = (text "on", true) ∷ []

abbrev with_port : Site
with_port = record stored_shop { domain = text "shop.example:8080" }

handler_for-port_example :
    handler_for toy_coraza toy_net
      (reload toy_coraza toy_net engines (with_port ∷ []))
      (text "shop.example:8080")
    ≡ handler_for toy_coraza toy_net
        (reload toy_coraza toy_net engines [])
        (text "shop.example:8080")
handler_for-port_example =
    handler_for-port toy_coraza toy_net engines [] [] with_port (text "shop.example:8080") refl

-- "Shop.example" and "shop.example" are two domains for the store.
abbrev small_shop : Site
small_shop = record stored_shop { id = pos 2; domain = text "shop.example"; waf_mode = text "off" }

abbrev small_handler : Handler toy_coraza toy_net
small_handler = record { target = text "app"; inspected_by = none; domain = text "shop.example" }

handler_for-twin_example :
    handler_for toy_coraza toy_net
      (reload toy_coraza toy_net engines (stored_shop ∷ small_shop ∷ []))
      (text "Shop.example")
    ≡ handler_for toy_coraza toy_net
        (reload toy_coraza toy_net engines (small_shop ∷ []))
        (text "Shop.example")
unfolding to_lower upstream_of handler_of engine get text_eq
handler_for-twin_example =
    handler_for-twin toy_coraza toy_net engines [] [] [] stored_shop small_shop small_handler
      (text "Shop.example") refl refl

-- The default configuration but without HTTPS.
abbrev no_https : Config ℕ
no_https = record (default rate) { proxy = record (default rate).proxy { https_addr = [] } }

start_servers-redirect_example :
    All (λ s. s.serves ≢ Serves.tls) (start_servers no_https)
    × ((http_handler toy_coraza toy_net toy_buckets
          (λ r. r.remote_addr)
          none
          (reload toy_coraza toy_net engines (stored_shop ∷ []))
          []
          1
          visit).0.reply
        ≡ replies (redirect_to toy_coraza toy_net (text "https://SHOP.example:443/")))
unfolding text_eq upstream_of to_lower host_key before
start_servers-redirect_example =
    start_servers-redirect no_https toy_coraza toy_net toy_buckets (λ r. r.remote_addr) none engines
      [] [] stored_shop [] 1 visit refl
      (record { enabled = refl; mode = refl; target = text "app"; usable = refl }) refl refl

abbrev trusting : ForwardedConfig
trusting = record { trust_forwarded_header = true; forwarded_header = text "X-Forwarded-For" }

-- The visitor sent "x"; the proxy appended the visitor's address.
abbrev forged : Request
forged = record visit { headers = (text "X-Forwarded-For", text "x, 10.0.0.7" ∷ []) ∷ [] }

-- The visitor's own address has used its bucket up.
abbrev spent : Limiter toy_buckets
spent = record {
  ttl = 600_000_000_000;
  clients = (text "10.0.0.7", record { limiter = some 5; last_seen = 5 }) ∷ [];
}

allow-forwarded_example :
    (client_ip trusting forged ≡ text "x")
    × ((allow toy_buckets 5 (client_ip trusting forged) spent).0 ≡ true)
unfolding header_get text_eq to_lower get trim_space
allow-forwarded_example =
    allow-forwarded toy_buckets trusting forged b'x' [] (text " 10.0.0.7") 5 spent refl refl refl
      ((λ e. omega arith), tt) refl

-- A rule that does not compile has been stored by an update.
abbrev broken_tables : Tables
broken_tables = record shop_tables {
  rules = record { rows = record bad_rule { id = pos 1 } ∷ []; last_id = 1 };
}

abbrev broken : Running toy_coraza toy_net
broken = record { db = record { tables = broken_tables; faults = [] }; plane = shop_plane }

abbrev blog : Site
blog = record shop { domain = text "Blog.example"; waf_mode = []; tls_mode = [] }

abbrev checked_blog : Site
checked_blog = record blog { waf_mode = text "on"; tls_mode = text "auto" }

site_writes-IsUnapplied_example :
    IsUnapplied toy_coraza toy_net (λ f. create_site f a_moment (ok blog)) broken
    × IsUnapplied toy_coraza toy_net (λ f. update_site f a_moment (text "1") (ok blog)) broken
    × IsUnapplied toy_coraza toy_net (λ f. delete_site f (text "1")) broken
unfolding Manager.reload swap_engines build directives trim_space join
site_writes-IsUnapplied_example =
    site_writes-IsUnapplied toy_coraza toy_net a_moment (ok blog) (text "1") broken refl
      (text "build blocking engine: syntax", refl)

abbrev running : Running toy_coraza toy_net
running = record { db = shop_db; plane = shop_plane }

create_site-IsLive_example :
    IsLive toy_coraza toy_net a_moment
      (ok blog)
      checked_blog
      (text "app")
      (text "blog.EXAMPLE:443")
      running
unfolding Manager.reload swap_engines build directives trim_space join validate_site check_waf_mode
    text_eq check_tls_mode check_files to_lower upstream_of host_key before
create_site-IsLive_example =
    create_site-IsLive toy_coraza toy_net a_moment blog checked_blog running (text "app")
      (text "blog.EXAMPLE:443") refl refl refl (refl, tt) refl refl refl
