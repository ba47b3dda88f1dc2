-- ===== src/Tests/Reloads.antt =====
-- The theorems about the reload of cmd/wafportal/main.go, on one stored site and one rule.
use wafportal.Config as Config
use wafportal.Server as Server
use wafportal.Store.Rules as Rules
use wafportal.Waf.Manager as Manager
use wafportal.Base.{
  parse_int, scan_digits, trim_space, join, text, none, some, ok, err, Error, ◌≡◌, refl,
}
use wafportal.Auth.Account.{calm}
use wafportal.Config.{Config, default, not_exist}
use wafportal.Server.{Plane, Running, reload}
use wafportal.Server.Races.{Pc, Turn, first, second, turn, advance, interleave}
use wafportal.Store.Sites.{list_sites}
use wafportal.Base.{List, [], ◌∷◌}
use wafportal.Server.Races.Agreement.{Ended, both_begun, interleave-Ended}
use wafportal.Server.Races.Lost.{overlapped, with_new, overlapped-lost}
use wafportal.Server.Installed.{plane_with}
use wafportal.Server.Current.{compiled}
use wafportal.Server.Startup.{boot, configured}
use wafportal.Server.Startup.Broken.{update_rule-boot}
use wafportal.Api.Rules.{update_rule}
use wafportal.Api.Rules.Rollback.{with_change}
use wafportal.Api.State.{apply_reload_err, rejected}
use wafportal.Api.Validate.{id_param}
use wafportal.Tests.Fixtures.{
  toy_coraza, toy_net, toy_crypto, shop_tables, shop_db, bad_rule, good_rule, a_moment,
}
use wafportal.Tests.Processes.{rate, host, shop_plane}

abbrev shop_running : Running toy_coraza toy_net
shop_running = record { db = shop_db; plane = shop_plane }

abbrev refusal : Error
refusal = text "build blocking engine: syntax"

rule_refused :
    (reload toy_coraza toy_net
      (with_change (reload toy_coraza toy_net) a_moment (text "1") bad_rule shop_running)).0
    ≡ some refusal
unfolding update_rule apply_reload_err Rules.update_rule Rules.enabled_rule_directives
    Server.install Server.install_engines Server.reload Manager.reload Manager.swap_engines
    Manager.build Manager.directives trim_space join id_param parse_int scan_digits
rule_refused = refl

config_read : configured rate host ≡ (none, default rate)
unfolding Config.load
config_read = refl

update_rule-boot_example :
    ((update_rule
        (some (reload toy_coraza toy_net))
        a_moment
        (text "1")
        (ok bad_rule)
        shop_running).0
      ≡ rejected refusal)
    × ((boot rate toy_coraza toy_net toy_crypto host (
          calm
            (update_rule
              (some (reload toy_coraza toy_net))
              a_moment
              (text "1")
              (ok bad_rule)
              shop_running).1.db.tables)).0
        ≡ err (text "initial WAF load: build blocking engine: syntax"))
update_rule-boot_example =
    update_rule-boot rate toy_coraza toy_net toy_crypto host (default rate) a_moment (text "1")
      bad_rule shop_running refusal refl refl refl rule_refused config_read refl

overlapped-lost_example :
    ((overlapped toy_coraza toy_net shop_tables shop_plane 9 good_rule).one ≡ Pc.returned none)
    × ((overlapped toy_coraza toy_net shop_tables shop_plane 9 good_rule).two ≡ Pc.returned none)
    × ((overlapped toy_coraza toy_net shop_tables shop_plane 9 good_rule).running.db.tables
        ≡ with_new toy_coraza toy_net shop_tables 9 good_rule)
    × ((overlapped toy_coraza toy_net shop_tables shop_plane 9 good_rule).running.plane
        ≡ plane_with toy_coraza toy_net
            (compiled toy_coraza toy_net shop_tables).1
            (with_new toy_coraza toy_net shop_tables 9 good_rule))
unfolding Rules.create_rule Manager.reload Manager.swap_engines Manager.build Manager.directives
    trim_space join
overlapped-lost_example =
    overlapped-lost toy_coraza toy_net shop_tables shop_plane 9 good_rule refl refl

-- The second reload overtakes the first.
abbrev schedule : List (Turn toy_coraza toy_net)
schedule = first ∷ second ∷ second ∷ first ∷ second ∷ first ∷ second ∷ second ∷ first ∷ first ∷ []

interleave-Ended_example :
    Ended toy_coraza toy_net shop_tables none
      (interleave toy_coraza toy_net
        (both_begun toy_coraza toy_net shop_tables shop_plane)
        schedule).running.plane
unfolding Manager.reload Manager.swap_engines Manager.build Manager.directives trim_space join
    interleave turn advance Rules.enabled_rule_directives list_sites
interleave-Ended_example =
    interleave-Ended toy_coraza toy_net shop_tables shop_plane schedule first none refl
