-- ===== src/Tests/Processes.antt =====
-- The theorems about main and the process it starts, on a start with one stored site and one rule, an
-- attack over TLS and a login.
use wafportal.Config as Config
use wafportal.Server.Startup as Startup
use wafportal.Server as Server
use wafportal.Store.Rules as Rules
use wafportal.Store.Sites as Sites
use wafportal.Waf.Manager as Manager
use wafportal.Auth as Auth
use wafportal.Proxy as Proxy
use wafportal.Store.Settings.{get_setting, set_setting}
use wafportal.Base.{
  inl, inr, before, trim_space, join, hex_decode, hex_encode, get, put, text_eq, text_le, to_lower,
  text, ℕ, pos, true, false, none, some, [], ◌∷◌, ok, ◌≡◌, refl, arith,
}
use wafportal.Store.Models.{Event}
use wafportal.Store.Db.{Db}
use wafportal.Store.Operations.Invariant.{IsValid}
use wafportal.Waf.Http.{replies, write_header}
use wafportal.Waf.Middleware.Verdicts.{IsBlockReport}
use wafportal.Waf.Summary.{status_from_interruption}
use wafportal.Proxy.{Handler, handler_for, serve_http}
use wafportal.RateLimit as RateLimit
use wafportal.RateLimit.{allow}
use wafportal.Waf.Inspect.{
  process_request_phase, after_headers, inspect_body, read_body, after_read, rebuild_body, finish,
  feed, add_values, add_host, add_headers,
}
use wafportal.Auth.Account.{calm}
use wafportal.Auth.Startup.{LetsIn}
use wafportal.Auth.{key_secret, key_username, key_hash}
use wafportal.Config.{Config, default, not_exist}
use wafportal.Server.{Plane, Running, reload}
use wafportal.Server.ClientIp.{client_ip}
use wafportal.Server.Installed.{plane_with}
use wafportal.Server.Current.{IsCurrent, compiled}
use wafportal.Server.EventSink.{new_event_sink}
use wafportal.Server.EventSink.Drained.{content, contents}
use wafportal.Server.Startup.{boot, Host, Started, start_servers, configured}
use wafportal.Server.Startup.Ready.{IsReady, boot-IsReady}
use wafportal.Server.System.{System, Action, launch, act, here, next}
use wafportal.Server.System.Freshness.{Reach-IsCurrent}
use wafportal.Server.System.Protection.{IsProtected, Reach-IsProtected}
use mathlib.Core.List.{mem-cons_self}
use wafportal.Server.System.Reports.{turns, lets_in, attack-recorded}
use wafportal.Tests.Fixtures.{
  stored_shop, toy_coraza, toy_net, toy_crypto, toy_crypto-Matches, toy_buckets, shop_tables,
  attack, deny, draws,
}

abbrev pub rate : ℕ → ℕ
rate x = x

abbrev pub host : Host ℕ
host = record {
  config_path = text "config.yaml";
  config_file = not_exist;
  unmarshal = λ doc cfg. (none, cfg);
  sql_open = none;
  dist = none;
  env_password = text "password";
  entropy = draws;
}

abbrev pub shop_plane : Plane toy_coraza toy_net
shop_plane = plane_with toy_coraza toy_net (compiled toy_coraza toy_net shop_tables).1 shop_tables

abbrev pub started : Started rate toy_coraza toy_net toy_crypto
started = record {
  plane = shop_plane;
  authenticator = record { secret = text "key"; generated_password = [] };
  limiter = some (20, pos 40);
  forwarded = record { trust_forwarded_header = false; forwarded_header = text "X-Forwarded-For" };
  servers = start_servers (default rate);
}

abbrev pub started_db : Db
started_db = calm (record shop_tables {
  settings =
      (key_secret, text "6b6579") ∷ (key_username, text "admin") ∷ (key_hash, text "password") ∷ [];
})

pub booted :
    boot rate toy_coraza toy_net toy_crypto host (calm shop_tables) ≡ (ok started, started_db)
unfolding boot Config.load default Startup.boot_with Startup.open_store Startup.migrate
    Startup.first_reload Startup.open_portal Startup.serve start_servers Server.reload
    Server.install Rules.enabled_rule_directives Server.install_engines Server.install_sites
    Manager.reload Manager.build Manager.directives Manager.new_manager Manager.swap_engines
    Manager.engine trim_space join Sites.list_sites Auth.choose_username Auth.load_or_create_secret
    Auth.new Auth.peek_setting Auth.set_password Auth.username hex_decode hex_encode get put text_eq
    text_le to_lower Proxy.add_site Proxy.add_sites Proxy.add_target Proxy.add_tls Proxy.handler_of
    Proxy.no_routes Proxy.reload Proxy.upstream_of get_setting set_setting
booted = refl

boot-IsReady_example :
    IsReady rate toy_coraza toy_net toy_crypto host shop_tables started
    × LetsIn toy_crypto toy_crypto-Matches draws [] b'p'
        (text "assword")
        started.authenticator
        started_db
unfolding Config.load default
boot-IsReady_example =
    boot-IsReady rate toy_coraza toy_net toy_crypto toy_crypto-Matches host b'p' (text "assword")
      shop_tables started started_db (inl refl) booted

pub shop_tables-IsValid : IsValid shop_tables
shop_tables-IsValid = record {
  sites_keyed = (1, refl, omega arith, omega arith);
  rules_keyed = (1, refl, omega arith, omega arith);
  events_keyed = omega arith;
  domains_distinct = (tt, tt);
}

abbrev pub Toy : Type 0
Toy = System rate toy_coraza toy_net toy_crypto toy_buckets

abbrev pub launched : Toy
launched = launch rate toy_coraza toy_net toy_crypto toy_buckets started started_db

-- An attack arrives, and the worker has a turn.
abbrev attacked : Toy
attacked =
    act rate toy_coraza toy_net toy_crypto toy_buckets
      (act rate toy_coraza toy_net toy_crypto toy_buckets launched
        (Action.visited_tls (text "t") 5 attack))
      Action.worked

Reach-IsCurrent_example :
    IsCurrent toy_coraza toy_net attacked.running.db.tables attacked.running.plane
Reach-IsCurrent_example =
    Reach-IsCurrent rate toy_coraza toy_net toy_crypto toy_buckets host (calm shop_tables)
      started_db started attacked refl shop_tables-IsValid booted
      (next (next here (Action.visited_tls (text "t") 5 attack)) Action.worked)

abbrev shop_handler : Handler toy_coraza toy_net
shop_handler = record {
  target = text "app";
  inspected_by = some true;
  domain = text "Shop.example";
}

attack_let_in :
    lets_in rate toy_coraza toy_net toy_crypto toy_buckets launched.limiter
      (client_ip launched.forwarded attack)
      5
    ≡ true
unfolding launch allow get RateLimit.new
attack_let_in = refl

attack_found :
    handler_for toy_coraza toy_net launched.running.plane.routing attack.host ≡ some shop_handler
unfolding launch handler_for get Proxy.reload Proxy.add_sites Proxy.add_site Proxy.add_target
    Proxy.upstream_of Proxy.add_tls Proxy.handler_of text_eq put Proxy.no_routes to_lower
    Proxy.host_key before Manager.engine Manager.reload Manager.build Manager.directives
    Manager.new_manager Manager.swap_engines trim_space join
attack_found = refl

attack_stopped :
    (process_request_phase toy_coraza (toy_coraza.new_transaction true (text "t")) attack).0
    ≡ ok (some deny)
unfolding process_request_phase after_headers inspect_body read_body after_read rebuild_body finish
    feed add_values add_host add_headers
attack_stopped = refl

attack-recorded_example :
    ((serve_http toy_coraza toy_net toy_buckets
        (client_ip launched.forwarded)
        launched.limiter
        launched.running.plane.routing
        (text "t")
        5
        attack).0.reply
      ≡ replies (write_header (status_from_interruption deny) ∷ []))
    × ((ev : Event) × IsBlockReport shop_handler.domain 5 attack (status_from_interruption deny) ev
        × (contents
              (turns rate toy_coraza toy_net toy_crypto toy_buckets 1 (
                act rate toy_coraza toy_net toy_crypto toy_buckets launched
                  (Action.visited_tls (text "t") 5 attack))).running.db
            ≡ content ev ∷ []))
unfolding launch new_event_sink
attack-recorded_example =
    attack-recorded rate toy_coraza toy_net toy_crypto toy_buckets launched (text "t") 5 attack
      shop_handler true deny attack_let_in attack_found refl attack_stopped refl (omega arith)

-- The limiter has been swept since the start.
abbrev swept : Toy
swept = act rate toy_coraza toy_net toy_crypto toy_buckets launched (Action.swept 9)

Reach-IsProtected_example :
    IsProtected toy_coraza toy_net swept.running.db.tables stored_shop
      (text "app")
      (handler_for toy_coraza toy_net swept.running.plane.routing (text "SHOP.example:443"))
unfolding Manager.reload Manager.build Manager.directives Manager.swap_engines trim_space join act
    launch Proxy.upstream_of to_lower Proxy.host_key before
Reach-IsProtected_example =
    Reach-IsProtected rate toy_coraza toy_net toy_crypto toy_buckets host (calm shop_tables)
      started_db started swept stored_shop (text "app") (text "SHOP.example:443") refl
      shop_tables-IsValid booted (next here (Action.swept 9)) refl mem-cons_self (inr refl, tt) refl
      refl refl
