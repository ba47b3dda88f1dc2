-- ===== src/Tests/Planes.antt =====
-- The theorems about cmd/wafportal/main.go with a rule that does not compile, a sink of one
-- place, and a request with a forged header.

use wafportal.Store.Rules as Store
use wafportal.Store.Rules.{enabled_rule_directives}
use wafportal.Base.{false, join, trim_space, text, ◌≡◌, refl, some, List, [], ◌∷◌, ok, Error, arith}
use wafportal.Store.Db.{Db}
use wafportal.Waf.Manager
use wafportal.Waf.Manager.{directives, build, swap_engines, new_manager}
use wafportal.Proxy.{no_routes}
use wafportal.Api.State.{rejected}
use wafportal.Api.Rules.{create_rule}
use wafportal.Server.{install_engines, install, Running, reload}
use wafportal.Server.RuleRejection.{create_rule-harmless}
use wafportal.Waf.Http.{Request}
use wafportal.Server.ClientIp.{ForwardedConfig, client_ip}
use wafportal.Server.ClientIp.Peer.{in_brackets, client_ip-untrusted}
use wafportal.Server.EventSink.{Move, sent, worked, new_event_sink, run}
use wafportal.Server.EventSink.Bounds.{taken, insert_all, drained, run-taken}
use wafportal.Tests.Fixtures.{
  visit, toy_coraza, toy_net, a_moment, bad_rule, an_event, empty_db, shop_db,
}

abbrev Toy : Type 0
Toy = Running toy_coraza toy_net

abbrev started : Db → Toy
started db = record {
  db = db;
  plane = record { engines = new_manager toy_coraza; routing = no_routes toy_coraza toy_net };
}

abbrev refusal : Error
refusal = text "build blocking engine: syntax"

create_rule-harmless_example :
    ((create_rule (some (reload toy_coraza toy_net)) a_moment (ok bad_rule) (started shop_db)).0
      ≡ rejected refusal)
    × ((create_rule
          (some (reload toy_coraza toy_net))
          a_moment
          (ok bad_rule)
          (started shop_db)).1.db.tables.rules.rows
        ≡ shop_db.tables.rules.rows)
    × ((create_rule
          (some (reload toy_coraza toy_net))
          a_moment
          (ok bad_rule)
          (started shop_db)).1.plane
        ≡ (started shop_db).plane)
unfolding Store.create_rule enabled_rule_directives install install_engines reload Manager.reload
    swap_engines build directives trim_space join
create_rule-harmless_example =
    create_rule-harmless toy_coraza toy_net a_moment bad_rule (started shop_db) refusal refl refl
      (1, refl, omega arith, omega arith) refl refl

abbrev schedule : List Move
schedule = sent an_event ∷ sent an_event ∷ worked ∷ sent an_event ∷ []

run-taken_example :
    drained (run (new_event_sink empty_db 1) schedule)
    ≡ insert_all (taken (new_event_sink empty_db 1) schedule) empty_db
run-taken_example = run-taken empty_db 1 schedule

abbrev no_trust : ForwardedConfig
no_trust = record { trust_forwarded_header = false; forwarded_header = text "X-Forwarded-For" }

abbrev spoofed : Request
spoofed = record visit {
  remote_addr = text "[::1]:80";
  headers = (text "X-Forwarded-For", text "1" ∷ []) ∷ [];
}

client_ip-untrusted_example : client_ip no_trust spoofed ≡ text "::1"
client_ip-untrusted_example =
    client_ip-untrusted no_trust spoofed (text "::1") (text "80") refl
      (in_brackets (
        (λ e. omega arith, λ e. omega arith),
        ((λ e. omega arith, λ e. omega arith), ((λ e. omega arith, λ e. omega arith), tt)),
      ))
      (
        (λ e. omega arith, λ e. omega arith, λ e. omega arith),
        ((λ e. omega arith, λ e. omega arith, λ e. omega arith), tt),
      )
