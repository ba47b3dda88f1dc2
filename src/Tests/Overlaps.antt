-- ===== src/Tests/Overlaps.antt =====
-- The theorems about requests and calls that overtake one another, on the process that main starts with one
-- stored site: an attack over TLS, and calls of the API by someone who is not logged in.
use wafportal.Auth.Session.{verify}
use wafportal.Base.{pos, trim_space, join, arith, text, ◌≡◌, refl, ok, none, true, List, [], ◌∷◌}
use wafportal.Base.Tasks.{run, is_done, after_steps}
use wafportal.Auth.Account.{calm}
use wafportal.Api.Wire.{Call, Endpoint}
use wafportal.Server.System.{Action, launch}
use wafportal.Server.System.Safety.{IsSafe}
use wafportal.Server.Concurrent.{Turn, job, turns, idle}
use wafportal.Server.Concurrent.Ends.{job-is_done}
use wafportal.Server.Concurrent.Rejected.{creating, begun, overlapped-rejected}
use wafportal.Store.Rules as Rules
use wafportal.Store.Sites as Sites
use wafportal.Waf.Manager as Manager
use wafportal.Server as Server
use wafportal.Server.{Running, reload}
use wafportal.Api.State.{write_json, rejected}
use wafportal.Api.Wire.{Body}
use wafportal.Api.Rules.Rollback.{row_of}
use wafportal.Tests.Fixtures.{shop_db, good_rule, bad_rule}
use wafportal.Tests.Processes.{shop_plane}
use wafportal.Server.Concurrent.Safety.{turns-IsSafe}
use wafportal.Server.Concurrent.Strangers.{IsAsBefore, turns-IsAsBefore}
use wafportal.Tests.Fixtures.{
  toy_coraza, toy_net, toy_crypto, toy_buckets, shop, shop_tables, attack, a_moment,
}
use wafportal.Tests.Processes.{
  rate, host, started, started_db, booted, launched, shop_tables-IsValid,
}

-- A stranger wants a site and then tries to log in.
abbrev wants_site : Call
wants_site = record { endpoint = Endpoint.create_site (ok shop); session = none; tls = true }

abbrev tries_login : Call
tries_login = record {
  endpoint = Endpoint.login (ok (record { username = text "admin"; password = text "1" }));
  session = none;
  tls = true;
}

-- The attack and the calls take turns, and the worker runs in between.
abbrev schedule : List (Turn rate toy_coraza toy_net toy_crypto toy_buckets)
schedule =
    Turn.started (Action.visited_tls (text "t") 5 attack)
    ∷ Turn.moved 0
    ∷ Turn.started (Action.called a_moment tries_login)
    ∷ Turn.moved 0
    ∷ Turn.moved 1
    ∷ Turn.started Action.worked
    ∷ Turn.moved 1
    ∷ Turn.worker_moved
    ∷ Turn.moved 0
    ∷ Turn.worker_moved
    ∷ Turn.started (Action.called a_moment wants_site)
    ∷ []

turns-IsSafe_example :
    IsSafe rate toy_coraza toy_net toy_crypto toy_buckets
      (turns rate toy_coraza toy_net toy_crypto toy_buckets
        (idle rate toy_coraza toy_net toy_crypto toy_buckets launched)
        schedule).system
turns-IsSafe_example =
    turns-IsSafe rate toy_coraza toy_net toy_crypto toy_buckets host (calm shop_tables) started_db
      started schedule shop_tables-IsValid booted

turns-IsAsBefore_example :
    IsAsBefore rate toy_coraza toy_net toy_crypto toy_buckets launched.running.db.tables
      launched.running.plane
      (turns rate toy_coraza toy_net toy_crypto toy_buckets
        (idle rate toy_coraza toy_net toy_crypto toy_buckets launched)
        schedule).system.running
unfolding verify
turns-IsAsBefore_example =
    turns-IsAsBefore rate toy_coraza toy_net toy_crypto toy_buckets schedule launched
      (tt, (tt, (refl, (tt, (tt, (tt, (tt, (tt, (tt, (tt, (refl, tt)))))))))))

-- The stranger's call, while the store has the one site.
job-is_done_example :
    is_done (
      after_steps 7
        (λ i. launched)
        (job rate toy_coraza toy_net toy_crypto toy_buckets launched
          (Action.called a_moment wants_site)))
    ≡ true
unfolding launch
job-is_done_example =
    job-is_done toy_coraza toy_net 1 rate toy_crypto toy_buckets launched
      (Action.called a_moment wants_site) (λ i. launched) (λ i. omega arith)

abbrev shop_running : Running toy_coraza toy_net
shop_running = record { db = shop_db; plane = shop_plane }

overlapped-rejected_example :
    ((run (creating toy_coraza toy_net a_moment good_rule) shop_running).0
      ≡ write_json
          (pos 201)
          (Body.rule (row_of (reload toy_coraza toy_net) a_moment good_rule shop_running)))
    × ((run
          (creating toy_coraza toy_net a_moment good_rule)
          (begun toy_coraza toy_net a_moment bad_rule shop_running)).0
        ≡ rejected (text "build blocking engine: syntax"))
    × ((run
          (creating toy_coraza toy_net a_moment good_rule)
          (begun toy_coraza toy_net a_moment bad_rule shop_running)).1.db.tables.rules.rows
        ≡ (begun toy_coraza toy_net a_moment bad_rule shop_running).db.tables.rules.rows)
unfolding Rules.create_rule Rules.enabled_rule_directives Sites.list_sites Server.install
    Server.install_engines Server.install_sites Server.reload Manager.reload Manager.swap_engines
    Manager.build Manager.directives trim_space join
overlapped-rejected_example =
    overlapped-rejected toy_coraza toy_net a_moment a_moment bad_rule good_rule shop_running
      (text "build blocking engine: syntax") refl shop_tables-IsValid
      (record { name = refl; directive = refl }) (record { name = refl; directive = refl }) refl
      refl
