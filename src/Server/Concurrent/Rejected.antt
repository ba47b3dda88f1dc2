-- ===== src/Server/Concurrent/Rejected.antt =====
-- Two calls of createRule of internal/api/api.go that overlap: the second begins while the rule of the first
-- is in the store and not yet refused.
use wafportal.Base.{is_empty, ◌≡◌, refl, false, true, ◌||◌, Bool, pos, none, some, ok, Error}
use wafportal.Base.Tasks.{run, advance}
use wafportal.Store.Models.{CustomRule}
use wafportal.Store.Db.Effects.{IsHealthy}
use wafportal.Store.Operations.Invariant.{IsValid}
use wafportal.Store.Operations.Calls.{create_rule-KeepsValid}
use wafportal.Waf.Coraza.{Coraza}
use wafportal.Proxy.Network.{Net}
use wafportal.Api.Wire.{Body, Response}
use wafportal.Api.State.{Moment, write_json, rejected, apply_reload_err}
use wafportal.Api.Rules.{create_rule}
use wafportal.Api.Rules.Rollback.{with_rule, with_rule-IsHealthy, row_of, create_rule-accepted}
use wafportal.Api.Tasks as Tasks
use wafportal.Api.Tasks.{create_named}
use wafportal.Api.Tasks.Agreement.Routes.{create_rule-run}
use wafportal.Server.{Plane, Running, reload}
use wafportal.Server.RuleRejection.{create_rule-harmless}
use wafportal.Server.Tasks.{reload_task, reload_task-run}

-- A rule that createRule does not send back for a missing field.
pub record IsNamed (rule : CustomRule) : Type 0 where
  pub name : is_empty rule.name ≡ false
  pub directive : is_empty rule.directive ≡ false

module _ (c : Coraza) (n : Net) where
  -- The call, and the state after its first step.
  abbrev pub creating : Moment → CustomRule → Tasks.Work (Plane c n) Response
  creating m rule = Tasks.create_rule (some (reload_task c n)) m (ok rule)

  abbrev pub begun : Moment → CustomRule → Running c n → Running c n
  begun m rule s = (advance (creating m rule) s).1

  begun-with_rule :
      (m : Moment) (rule : CustomRule) (s : Running c n)
      → IsNamed rule
      → begun m rule s ≡ with_rule (reload c n) m rule s
  unfolding Tasks.create_rule
  begun-with_rule m rule s named =
      inserted (is_empty rule.name || is_empty rule.directive)
        (rw (named.name, named.directive) refl)
    where
      inserted :
          (lacking : Bool)
          → lacking ≡ false
          → (advance (create_named (some (reload_task c n)) m rule lacking) s).1
            ≡ with_rule (reload c n) m rule s
      inserted true h = cc
      inserted false h = refl

  creating-run :
      (m : Moment) (rule : CustomRule) (s : Running c n)
      → run (creating m rule) s ≡ create_rule (some (reload c n)) m (ok rule) s
  creating-run m rule s =
      create_rule-run (some (reload_task c n)) (some (reload c n))
        (unfold apply_reload_err in reload_task-run c n) m (ok rule) s

  -- While the database works: a rule that a call of its own would store and answer with 201 is rejected
  -- and taken out again, when its call runs after the first step of another call, whose rule is in the
  -- store by then and does not compile together with it.
  pub overlapped-rejected :
      (m m' : Moment) (bad good : CustomRule) (s : Running c n) (e : Error)
      → IsHealthy s.db
      → IsValid s.db.tables
      → IsNamed bad
      → IsNamed good
      → (reload c n (with_rule (reload c n) m' good s)).0 ≡ none
      → (reload c n (with_rule (reload c n) m' good (with_rule (reload c n) m bad s))).0 ≡ some e
      → ((run (creating m' good) s).0
          ≡ write_json (pos 201) (Body.rule (row_of (reload c n) m' good s)))
        × ((run (creating m' good) (begun m bad s)).0 ≡ rejected e)
        × ((run (creating m' good) (begun m bad s)).1.db.tables.rules.rows
            ≡ (begun m bad s).db.tables.rules.rows)
  overlapped-rejected m m' bad good s e healthy valid bad_named good_named alone mixed =
      let s1 = with_rule (reload c n) m bad s in
      let valid1 : IsValid s1.db.tables = create_rule-KeepsValid m.now bad s.db valid in
      let (answer, rows, plane) =
        create_rule-harmless c n m' good s1 e good_named.name good_named.directive
          valid1.rules_keyed (with_rule-IsHealthy (reload c n) m bad s healthy).0 mixed in
      rw (begun-with_rule m bad s bad_named, creating-run m' good s, creating-run m' good s1)
        (
          create_rule-accepted (reload c n) m' good s good_named.name good_named.directive healthy
              alone,
          answer,
          rows,
        )
