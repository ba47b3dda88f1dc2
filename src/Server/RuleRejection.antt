-- ===== src/Server/RuleRejection.antt =====
-- createRule of internal/api/api.go over the callback `reload` of cmd/wafportal/main.go.
use wafportal.Base.{Text, is_empty, ◌≡◌, ◌∙◌, some, ok, false, Error}
use wafportal.Store.Models.{CustomRule}
use wafportal.Store.Table.{IsKeyed}
use wafportal.Store.Db.Effects.{IsHealthy}
use wafportal.Store.Rules.{rule_id}
use wafportal.Waf.Coraza.{Coraza}
use wafportal.Proxy.Network.{Net}
use wafportal.Api.State.{Moment, rejected}
use wafportal.Api.Rules.{create_rule, update_rule}
use wafportal.Api.Rules.Rollback.{
  with_rule, with_rule-IsHealthy, create_rule-refused, with_change, with_change-IsHealthy,
  update_rule-refused,
}
use wafportal.Server.{Running, reload}
use wafportal.Server.Refused.{reload-refused, reload-IsHealthy, reload-tables, reload-again}

-- While the database works, a complete new rule that the reload refuses is answered by the error,
-- and nothing stays of it: the stored rules, the engines and the routes are as before.
pub create_rule-harmless :
    (c : Coraza) (n : Net) (m : Moment) (rule : CustomRule) (s : Running c n) (e : Error)
    → is_empty rule.name ≡ false
    → is_empty rule.directive ≡ false
    → IsKeyed rule_id s.db.tables.rules
    → IsHealthy s.db
    → (reload c n (with_rule (reload c n) m rule s)).0 ≡ some e
    → ((create_rule (some (reload c n)) m (ok rule) s).0 ≡ rejected e)
      × ((create_rule (some (reload c n)) m (ok rule) s).1.db.tables.rules.rows
          ≡ s.db.tables.rules.rows)
      × ((create_rule (some (reload c n)) m (ok rule) s).1.plane ≡ s.plane)
create_rule-harmless c n m rule s e name directive keyed healthy refused =
    let s' = with_rule (reload c n) m rule s in
    let (healthy', plane) = with_rule-IsHealthy (reload c n) m rule s healthy in
    let (answer, rows, kept) =
      create_rule-refused (reload c n) m rule s e name directive keyed healthy refused
        (reload-IsHealthy c n s' healthy') (reload-tables c n s') in
    (answer, rows, kept ∙ reload-refused c n s' e healthy' refused ∙ plane)

-- While the database works, a complete change of a rule that the reload refuses is answered by the
-- error, but every later reload, from any engines and routes, fails with it too until a table
-- changes.
pub update_rule-lasting :
    (c : Coraza) (n : Net) (m : Moment) (id : Text) (rule : CustomRule) (s later : Running c n)
    (e : Error)
    → is_empty rule.name ≡ false
    → is_empty rule.directive ≡ false
    → IsHealthy s.db
    → (reload c n (with_change (reload c n) m id rule s)).0 ≡ some e
    → IsHealthy later.db
    → later.db.tables ≡ (update_rule (some (reload c n)) m id (ok rule) s).1.db.tables
    → ((update_rule (some (reload c n)) m id (ok rule) s).0 ≡ rejected e)
      × ((reload c n later).0 ≡ some e)
update_rule-lasting c n m id rule s later e name directive healthy refused calm same =
    let s' = with_change (reload c n) m id rule s in
    let (answer, rows, tables) =
      update_rule-refused (reload c n) m id rule s e name directive healthy refused
        (reload-tables c n s') in
    (
      answer,
      reload-again c n s' later e (with_change-IsHealthy (reload c n) m id rule s healthy) calm
          (same ∙ tables ∙ reload-tables c n s') refused,
    )
