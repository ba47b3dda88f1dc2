-- ===== src/Server/Current/Rules.antt =====
-- What createRule and updateRule of internal/api/api.go leave while the database works.
use wafportal.Base.{
  Text, is_empty, zero, suc, ◌∷◌, ◌++◌, pos, ◌≡◌, refl, Bool-cases, inl, inr, ◌||◌, Option, none,
  some, [], Result, ok, err, Error,
}
use wafportal.Store.Models.{CustomRule}
use wafportal.Store.Db.{Tables}
use wafportal.Store.Table.{IsKeyed, delete_id}
use wafportal.Store.Rules as Rules
use wafportal.Store.Rules.{rule_id}
use wafportal.Waf.Coraza.{Coraza}
use wafportal.Proxy.Network.{Net}
use wafportal.Auth.Account.{calm}
use wafportal.Api.State.{Moment, apply_reload_err}
use wafportal.Api.Rules as RuleRoutes
use wafportal.Api.Rules.{created_rule, keep_or_roll_back, updated_rule, keep_or_reject}
use wafportal.Api.Rules.Rollback.{delete_id-append}
use wafportal.Server.{Plane, Running, reload}
use wafportal.Server.Refused.{reload-tables, reload-IsHealthy, reload-refused}
use wafportal.Server.Current.{IsCurrent, InSync, IsCurrent-same, reload-InSync}
use wafportal.Server.Current.Calls.{calm-Db, at, callback}

module _ (c : Coraza) (n : Net) (t : Tables) (p : Plane c n) (current : IsCurrent c n t p) where
  -- A rule that the reload refuses is taken out again, and the plane was left as it was.
  rolled-InSync :
      (row : CustomRule) (t1 : Tables) (r : Option Error × Running c n)
      → r.1.db ≡ calm t1
      → delete_id rule_id row.id t1.rules.rows ≡ t.rules.rows
      → t1.sites.rows ≡ t.sites.rows
      → ((e : Error) → r.0 ≡ some e → r.1.plane ≡ p)
      → InSync c n r.1
      → InSync c n (keep_or_roll_back (callback c n) row r).1
  unfolding Rules.delete_rule
  rolled-InSync row t1 (none, s) same rows sites stays h = h
  rolled-InSync row t1 (some e, s) same rows sites stays h =
      rw (same, stays e refl)
        (
          refl,
          IsCurrent-same c n t
              (record t1 {
                rules = record t1.rules { rows = delete_id rule_id row.id t1.rules.rows };
              })
              p rows sites current,
        )

  -- The tables with the new row.
  abbrev with_row : CustomRule → Tables
  with_row row = record t {
    rules = record { rows = t.rules.rows ++ row ∷ []; last_id = suc t.rules.last_id };
  }

  pub create_rule-InSync :
      (m : Moment) (r : Result CustomRule)
      → IsKeyed rule_id t.rules
      → InSync c n (RuleRoutes.create_rule (callback c n) m r (at c n t p)).1
  unfolding RuleRoutes.create_rule Rules.create_rule apply_reload_err
  create_rule-InSync m (err e) keyed = (refl, current)
  create_rule-InSync m (ok rule) keyed =
      elim (Bool-cases (is_empty rule.name || is_empty rule.directive)) [
        | inl lacking ↦ rw lacking (refl, current)
        | inr whole ↦ rw whole (
            refused_or_kept
              (record rule {
                id = pos (suc t.rules.last_id);
                created_at = m.now;
                updated_at = m.now;
              })
              refl)
      ]
    where
      refused_or_kept :
          (row : CustomRule)
          → row.id ≡ pos (suc t.rules.last_id)
          → InSync c n
              (keep_or_roll_back (callback c n) row (reload c n (at c n (with_row row) p))).1
      refused_or_kept row new =
          rolled-InSync row (with_row row) (reload c n (at c n (with_row row) p))
            (calm-Db _ (with_row row) (reload-IsHealthy c n (at c n (with_row row) p) refl)
              (reload-tables c n (at c n (with_row row) p)))
            (delete_id-append t.rules.rows row zero t.rules.last_id keyed new) refl
            (λ e. reload-refused c n (at c n (with_row row) p) e refl)
            (reload-InSync c n (at c n (with_row row) p) refl)

  pub update_rule-InSync :
      (m : Moment) (id : Text) (r : Result CustomRule)
      → InSync c n (RuleRoutes.update_rule (callback c n) m id r (at c n t p)).1
  unfolding RuleRoutes.update_rule Rules.update_rule apply_reload_err
  update_rule-InSync m id (err e) = (refl, current)
  update_rule-InSync m id (ok rule) =
      elim (Bool-cases (is_empty rule.name || is_empty rule.directive)) [
        | inl lacking ↦ rw lacking (refl, current)
        | inr whole ↦ rw whole (kept _ _ (reload-InSync c n _ refl))
      ]
    where
      kept :
          (row : CustomRule) (r : Option Error × Running c n)
          → InSync c n r.1
          → InSync c n (keep_or_reject (callback c n) row r).1
      kept row (none, s) h = h
      kept row (some e, s) h = h
