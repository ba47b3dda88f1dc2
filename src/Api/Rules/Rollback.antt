-- ===== src/Api/Rules/Rollback.antt =====
-- What createRule and updateRule of internal/api/api.go leave behind a rule that does not compile.
use wafportal.Base.{
  Text, is_empty, ℕ, suc, pos, eq_ℤ_iff, ◌≡◌, refl, Option, none, some, List, [], ◌∷◌, ◌++◌, ok,
  Error, false, arith,
}
use wafportal.Store.Models.{CustomRule}
use wafportal.Store.Table.{Ascending, IsKeyed, Ascending-le, delete_id, update_id}
use wafportal.Store.Db.Effects.{IsHealthy}
use wafportal.Store.Rules as Store
use wafportal.Store.Rules.{rule_id, assign_rule}
use wafportal.Api.State.{State, Moment, apply_reload_err, write_json, rejected, on_db}
use wafportal.Api.Wire.{Body}
use wafportal.Api.Rules.{create_rule, update_rule}
use wafportal.Api.Validate.{id_param}

-- The new row has an id that no row had, so deleting it restores the rows.
pub delete_id-append :
    (rs : List CustomRule) (r : CustomRule) (lo hi : ℕ)
    → Ascending rule_id lo rs hi
    → r.id ≡ pos (suc hi)
    → delete_id rule_id r.id (rs ++ r ∷ []) ≡ rs
delete_id-append [] r lo hi a e = ground (arith, eq_ℤ_iff r.id r.id)
delete_id-append (x ∷ rs) r lo hi (n, d, l, a) e =
    ground
      (arith, delete_id-append rs r n hi a e, Ascending-le rule_id rs n hi a, eq_ℤ_iff x.id r.id)

module _ {Plane : Type 0} (reload : State Plane → Option Error × State Plane) where
  -- The state in which the store already has the rule.
  abbrev pub with_rule : Moment → CustomRule → State Plane → State Plane
  with_rule m rule s = (on_db (Store.create_rule m.now rule) s).1

  abbrev pub row_of : Moment → CustomRule → State Plane → CustomRule
  row_of m rule s = record rule {
    id = pos (suc s.db.tables.rules.last_id);
    created_at = m.now;
    updated_at = m.now;
  }

  created :
      (m : Moment) (rule : CustomRule) (s : State Plane)
      → IsHealthy s.db
      → on_db (Store.create_rule m.now rule) s ≡ (ok (row_of m rule s), with_rule m rule s)
  unfolding Store.create_rule
  created m rule s h = rw h refl

  pub with_rule-IsHealthy :
      (m : Moment) (rule : CustomRule) (s : State Plane)
      → IsHealthy s.db
      → (IsHealthy (with_rule m rule s).db) × ((with_rule m rule s).plane ≡ s.plane)
  unfolding Store.create_rule
  with_rule-IsHealthy m rule s h = rw h (refl, refl)

  created-rows :
      (m : Moment) (rule : CustomRule) (s : State Plane)
      → IsHealthy s.db
      → (with_rule m rule s).db.tables.rules.rows ≡ s.db.tables.rules.rows ++ row_of m rule s ∷ []
  unfolding Store.create_rule
  created-rows m rule s h = rw h refl

  -- Where the reload refuses a new rule and writes no table, and the driver works, the answer is the
  -- reload's error, the stored rules are those from before the request, and the engines and routes
  -- are those that the reload left.
  pub create_rule-refused :
      (m : Moment) (rule : CustomRule) (s : State Plane) (e : Error)
      → is_empty rule.name ≡ false
      → is_empty rule.directive ≡ false
      → IsKeyed rule_id s.db.tables.rules
      → IsHealthy s.db
      → (reload (with_rule m rule s)).0 ≡ some e
      → IsHealthy (reload (with_rule m rule s)).1.db
      → (reload (with_rule m rule s)).1.db.tables ≡ (with_rule m rule s).db.tables
      → ((create_rule (some reload) m (ok rule) s).0 ≡ rejected e)
        × ((create_rule (some reload) m (ok rule) s).1.db.tables.rules.rows
            ≡ s.db.tables.rules.rows)
        × ((create_rule (some reload) m (ok rule) s).1.plane
            ≡ (reload (with_rule m rule s)).1.plane)
  unfolding create_rule apply_reload_err
  create_rule-refused m rule s e name directive keyed healthy refused calm same =
      rw (name, directive, created m rule s healthy, refused)
        (
          refl,
          unfold Store.delete_rule in
              rw (calm, same, created-rows m rule s healthy)
                (delete_id-append s.db.tables.rules.rows (row_of m rule s) 0
                  s.db.tables.rules.last_id keyed refl),
          refl,
        )

  -- Where the reload takes a new rule and the driver works, the answer is the stored row.
  pub create_rule-accepted :
      (m : Moment) (rule : CustomRule) (s : State Plane)
      → is_empty rule.name ≡ false
      → is_empty rule.directive ≡ false
      → IsHealthy s.db
      → (reload (with_rule m rule s)).0 ≡ none
      → (create_rule (some reload) m (ok rule) s).0
        ≡ write_json (pos 201) (Body.rule (row_of m rule s))
  unfolding create_rule apply_reload_err
  create_rule-accepted m rule s name directive healthy accepted =
      rw (name, directive, created m rule s healthy, accepted) refl

  abbrev changed_to : Moment → Text → CustomRule → CustomRule
  changed_to m id rule = record rule { id = id_param id; updated_at = m.now }

  -- The state in which the store already has the change.
  abbrev pub with_change : Moment → Text → CustomRule → State Plane → State Plane
  with_change m id rule s = (on_db (Store.update_rule m.now (record rule { id = id_param id })) s).1

  changed :
      (m : Moment) (id : Text) (rule : CustomRule) (s : State Plane)
      → IsHealthy s.db
      → on_db (Store.update_rule m.now (record rule { id = id_param id })) s
        ≡ (ok (changed_to m id rule), with_change m id rule s)
  unfolding Store.update_rule
  changed m id rule s h = rw h refl

  changed-rows :
      (m : Moment) (id : Text) (rule : CustomRule) (s : State Plane)
      → IsHealthy s.db
      → (with_change m id rule s).db.tables.rules.rows
        ≡ update_id rule_id
            (id_param id)
            (assign_rule (changed_to m id rule))
            s.db.tables.rules.rows
  unfolding Store.update_rule
  changed-rows m id rule s h = rw h refl

  pub with_change-IsHealthy :
      (m : Moment) (id : Text) (rule : CustomRule) (s : State Plane)
      → IsHealthy s.db
      → IsHealthy (with_change m id rule s).db
  unfolding Store.update_rule
  with_change-IsHealthy m id rule s h = rw h refl

  -- Where the reload refuses a changed rule and writes no table, and the driver works, the answer is
  -- the reload's error, the change stays stored, and the tables are those that the reload left.
  pub update_rule-refused :
      (m : Moment) (id : Text) (rule : CustomRule) (s : State Plane) (e : Error)
      → is_empty rule.name ≡ false
      → is_empty rule.directive ≡ false
      → IsHealthy s.db
      → (reload (with_change m id rule s)).0 ≡ some e
      → (reload (with_change m id rule s)).1.db.tables ≡ (with_change m id rule s).db.tables
      → ((update_rule (some reload) m id (ok rule) s).0 ≡ rejected e)
        × ((update_rule (some reload) m id (ok rule) s).1.db.tables.rules.rows
            ≡ update_id rule_id
                (id_param id)
                (assign_rule (changed_to m id rule))
                s.db.tables.rules.rows)
        × ((update_rule (some reload) m id (ok rule) s).1.db.tables
            ≡ (reload (with_change m id rule s)).1.db.tables)
  unfolding update_rule apply_reload_err
  update_rule-refused m id rule s e name directive healthy refused same =
      rw (name, directive, changed m id rule s healthy, refused)
        (refl, rw (same, changed-rows m id rule s healthy) refl, refl)
