-- ===== src/Store/Sites.antt =====
-- The sites of internal/store/store.go. `now` is the answer of time.Now().
pub mod Domains
pub mod View
use wafportal.Base.{
  Text, text, text_eq, text_le, suc, ℤ, pos, eq_ℤ, Bool, not, ◌&&◌, any, sort_by, if◌then◌else◌,
  List, [], ◌∷◌, ◌++◌, Option, none, some, Result, ok, err, Error,
}
use wafportal.Store.Models.{Site, Time}
use wafportal.Store.Table.{select_id, update_id, delete_id}
use wafportal.Store.Db.{Db, Tables, Call, driver, query, exec}

abbrev pub site_id : Site → ℤ
site_id st = st.id

-- sql.ErrNoRows
abbrev pub no_rows : Error
no_rows = text "sql: no rows in result set"

-- The driver's report of the constraint `domain TEXT NOT NULL UNIQUE`.
abbrev pub domain_taken : Error
domain_taken = text "constraint failed: UNIQUE constraint failed: sites.domain (2067)"

abbrev pub by_domain : Site → Site → Bool
by_domain a b = text_le a.domain b.domain

unfoldable pub list_sites : Call (List Site)
list_sites = query (λ t. sort_by by_domain t.sites.rows)

abbrev pub found : {A : Type 0} → Option A → Result A
found none = err no_rows
found (some a) = ok a

unfoldable pub get_site : ℤ → Call Site
get_site id =
    exec
      (λ t. elim (select_id site_id id t.sites.rows) [ none ↦ err no_rows | some st ↦ ok (st, t) ])

abbrev pub has_domain : Text → List Site → Bool
has_domain d rows = any (λ r. text_eq r.domain d) rows

abbrev pub insert_site : Site → Tables → Result (Site × Tables)
insert_site st t =
    let row = record st { id = pos (suc t.sites.last_id) } in
    if has_domain st.domain t.sites.rows
    then err domain_taken
    else ok (
      row,
      record t {
        sites = record { rows = t.sites.rows ++ row ∷ []; last_id = suc t.sites.last_id };
      },
    )

-- The site is given back with the fields that the call sets in place.
unfoldable pub create_site : Time → Site → Call Site
create_site now st = exec (insert_site (record st { created_at = now; updated_at = now }))

-- The columns that the UPDATE sets; `id` and `created_at` stay.
abbrev pub assign_site : Site → Site → Site
assign_site st r = record st { id = r.id; created_at = r.created_at }

-- Another row than the updated one holds the domain, and there is a row to update.
abbrev pub update_clashes : Site → List Site → Bool
update_clashes st rows =
    any (λ r. eq_ℤ r.id st.id) rows
    && any (λ r. not (eq_ℤ r.id st.id) && text_eq r.domain st.domain) rows

abbrev pub update_rows : Site → Tables → Result (Site × Tables)
update_rows st t =
    if update_clashes st t.sites.rows
    then err domain_taken
    else ok (
      st,
      record t {
        sites = record t.sites { rows = update_id site_id st.id (assign_site st) t.sites.rows };
      },
    )

unfoldable pub update_site : Time → Site → Call Site
update_site now st = exec (update_rows (record st { updated_at = now }))

abbrev pub remove_site : ℤ → Tables → Result (Unit {0} × Tables)
remove_site id t =
    ok (tt, record t { sites = record t.sites { rows = delete_id site_id id t.sites.rows } })

unfoldable pub delete_site : ℤ → Call (Unit {0})
delete_site id = exec (remove_site id)
