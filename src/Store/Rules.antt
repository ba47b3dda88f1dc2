-- ===== src/Store/Rules.antt =====
-- The custom rules of internal/store/store.go.
use wafportal.Base.{
  Text, suc, ℤ, pos, leb_ℤ, Bool, sort_by, filter, map, List, [], ◌∷◌, ◌++◌, none, some, Result, ok,
  err,
}
use wafportal.Store.Models.{CustomRule, Time}
use wafportal.Store.Table.{select_id, update_id, delete_id}
use wafportal.Store.Db.{Tables, Call, query, exec}
use wafportal.Store.Sites.{no_rows}

abbrev pub rule_id : CustomRule → ℤ
rule_id r = r.id

abbrev pub by_id : CustomRule → CustomRule → Bool
by_id a b = leb_ℤ a.id b.id

unfoldable pub list_rules : Call (List CustomRule)
list_rules = query (λ t. sort_by by_id t.rules.rows)

abbrev pub enabled_directives : Tables → List Text
enabled_directives t = map (λ r. r.directive) (sort_by by_id (filter (λ r. r.enabled) t.rules.rows))

unfoldable pub enabled_rule_directives : Call (List Text)
enabled_rule_directives = query enabled_directives

unfoldable pub get_rule : ℤ → Call CustomRule
get_rule id =
    exec (λ t. elim (select_id rule_id id t.rules.rows) [ none ↦ err no_rows | some r ↦ ok (r, t) ])

abbrev pub insert_rule : CustomRule → Tables → Result (CustomRule × Tables)
insert_rule r t =
    let row = record r { id = pos (suc t.rules.last_id) } in
    ok (
      row,
      record t {
        rules = record { rows = t.rules.rows ++ row ∷ []; last_id = suc t.rules.last_id };
      },
    )

unfoldable pub create_rule : Time → CustomRule → Call CustomRule
create_rule now r = exec (insert_rule (record r { created_at = now; updated_at = now }))

abbrev pub assign_rule : CustomRule → CustomRule → CustomRule
assign_rule r row = record r { id = row.id; created_at = row.created_at }

abbrev pub change_rule : CustomRule → Tables → Result (CustomRule × Tables)
change_rule r t = ok (
  r,
  record t {
    rules = record t.rules { rows = update_id rule_id r.id (assign_rule r) t.rules.rows };
  },
)

unfoldable pub update_rule : Time → CustomRule → Call CustomRule
update_rule now r = exec (change_rule (record r { updated_at = now }))

abbrev pub remove_rule : ℤ → Tables → Result (Unit {0} × Tables)
remove_rule id t =
    ok (tt, record t { rules = record t.rules { rows = delete_id rule_id id t.rules.rows } })

unfoldable pub delete_rule : ℤ → Call (Unit {0})
delete_rule id = exec (remove_rule id)
