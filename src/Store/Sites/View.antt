-- ===== src/Store/Sites/View.antt =====
-- The sites as a map from ids: what each writing operation does to every lookup.
use wafportal.Base.{
  suc, ℤ, pos, eq_ℤ, ◌≡◌, refl, sym, inl, inr, false, Bool-cases, Option, none, some, if◌then◌else◌,
  ok, arith,
}
use wafportal.Store.Models.{Time, Site}
use wafportal.Store.Table.{select_id, select-insert, select-delete, select-update, IsKeyed}
use wafportal.Store.Db.{Tables, Db}
use wafportal.Store.Db.Effects.{exec-ok, ok-parts}
use wafportal.Store.Sites.{
  site_id, has_domain, insert_site, update_rows, update_clashes, assign_site, remove_site,
  create_site, update_site, delete_site,
}

abbrev pub site_at : Db → ℤ → Option Site
site_at db k = select_id site_id k db.tables.sites.rows

-- The fields that the caller of CreateSite chose.
abbrev pub stamped : Time → Site → Site
stamped now st = record st { created_at = now; updated_at = now }

insert-view :
    (st a : Site) (t t' : Tables)
    → IsKeyed site_id t.sites
    → insert_site st t ≡ ok (a, t')
    → (a ≡ record st { id = pos (suc t.sites.last_id) })
      × (has_domain st.domain t.sites.rows ≡ false)
      × ((k : ℤ)
          → select_id site_id k t'.sites.rows
            ≡ (if eq_ℤ a.id k then some a else select_id site_id k t.sites.rows))
insert-view st a t t' keyed h = elim (Bool-cases (has_domain st.domain t.sites.rows)) [
  | inl taken ↦ cc (rw taken at h)
  | inr free ↦
      let parts = ok-parts (rw free at h) in
      (
        sym parts.0,
        free,
        λ k. rw (← parts.1) (
            rw (← parts.0) (
              select-insert site_id k t.sites.rows (record st { id = pos (suc t.sites.last_id) }) 0
                t.sites.last_id keyed refl)),
      )
]

-- A site that was created is found under its new id with the fields that were given, its domain was
-- free, and every other id finds what it found before.
pub create_site-view :
    (now : Time) (st st' : Site) (db : Db)
    → IsKeyed site_id db.tables.sites
    → (create_site now st db).0 ≡ ok st'
    → (st' ≡ record (stamped now st) { id = pos (suc db.tables.sites.last_id) })
      × (has_domain st.domain db.tables.sites.rows ≡ false)
      × ((k : ℤ)
          → site_at (create_site now st db).1 k
            ≡ (if eq_ℤ st'.id k then some st' else site_at db k))
unfolding create_site
create_site-view now st st' db keyed h =
    insert-view (stamped now st) st' db.tables _ keyed
      (exec-ok (insert_site (stamped now st)) db st' h)

abbrev pub map_found : (Site → Site) → Option Site → Option Site
map_found f none = none
map_found f (some r) = some (f r)

update-view :
    (st a : Site) (t t' : Tables) (k : ℤ)
    → update_rows st t ≡ ok (a, t')
    → select_id site_id k t'.sites.rows ≡ (
        if eq_ℤ st.id k
        then map_found (assign_site st) (select_id site_id k t.sites.rows)
        else select_id site_id k t.sites.rows)
update-view st a t t' k h = elim (Bool-cases (update_clashes st t.sites.rows)) [
  | inl clash ↦ cc (rw clash at h)
  | inr free ↦
      rw (← (ok-parts (rw free at h)).1)
        (ground (arith, select-update site_id st.id k (assign_site st) (λ r. refl) t.sites.rows))
]

-- An update that succeeds gives the row of that id, if there is one, all the given fields but the id
-- and the time of creation, and leaves every other lookup as it was. It makes no row.
pub update_site-view :
    (now : Time) (st st' : Site) (db : Db) (k : ℤ)
    → (update_site now st db).0 ≡ ok st'
    → site_at (update_site now st db).1 k ≡ (
        if eq_ℤ st.id k
        then map_found (assign_site (record st { updated_at = now })) (site_at db k)
        else site_at db k)
unfolding update_site
update_site-view now st st' db k h =
    update-view (record st { updated_at = now }) st' db.tables _ k
      (exec-ok (update_rows (record st { updated_at = now })) db st' h)

-- A deletion that succeeds takes away the row of that id and no other.
pub delete_site-view :
    (id k : ℤ) (db : Db)
    → (delete_site id db).0 ≡ ok tt
    → site_at (delete_site id db).1 k ≡ (if eq_ℤ id k then none else site_at db k)
unfolding delete_site
delete_site-view id k db h =
    let e = ok-parts (exec-ok (remove_site id) db tt h) in
    rw (← e.1) (select-delete site_id id k db.tables.sites.rows)
