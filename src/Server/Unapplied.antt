-- ===== src/Server/Unapplied.antt =====
-- The handlers of internal/api/api.go for sites over the callback `reload` of cmd/wafportal/main.go, while the
-- stored rules do not compile.
use wafportal.Base.{Text, pos, ℤ, ◌≡◌, refl, sym, Bool-cases, inl, inr, none, Result, ok, err}
use mathlib.Core.Path.{subst}
use wafportal.Store.Models.{Site}
use wafportal.Store.Db.{Tables, commit}
use wafportal.Store.Db.Effects.{IsHealthy}
use wafportal.Store.Sites as Sites
use wafportal.Store.Sites.{insert_site, update_rows, remove_site, has_domain, update_clashes}
use wafportal.Store.Rules.{enabled_directives}
use wafportal.Waf.Coraza.{Coraza}
use wafportal.Waf.Manager.{new_manager}
use wafportal.Waf.Manager.Swap.{reload-same}
use wafportal.Proxy.Network.{Net}
use wafportal.Auth.Account.{calm}
use wafportal.Api.State.{Reload, Moment, Handled, apply_reload, apply_reload_err}
use wafportal.Api.Sites.{
  saved_site, create_valid, update_valid, create_site, update_site, delete_site,
}
use wafportal.Api.Validate.{validate_site, id_param}
use wafportal.Server.{Plane, Running, reload}
use wafportal.Server.Refused.{reload-refused}
use wafportal.Server.Installed.{Outcome, reload-Outcome}
use wafportal.Server.Current.{IsBroken}
use wafportal.Server.Current.Calls.{calm-Db, at, callback}

module _ (c : Coraza) (n : Net) where
  -- The call answers what it would answer without a callback, and leaves the engines and routes.
  abbrev pub IsUnapplied :
      (Reload (Plane c n) → Running c n → Handled (Plane c n)) → Running c n → Type 0
  IsUnapplied handler s =
      ((handler (callback c n) s).0 ≡ (handler none s).0)
      × ((handler (callback c n) s).1.plane ≡ s.plane)

  broken-stays :
      (s : Running c n)
      → IsHealthy s.db
      → IsBroken c n s.db.tables
      → (reload c n s).1.plane ≡ s.plane
  broken-stays s healthy (e, broken) = reload-refused c n s e healthy (
      subst (Outcome c n s)
        (reload-same c (enabled_directives s.db.tables) (new_manager c) s.plane.engines (err e)
          broken)
        (reload-Outcome c n s healthy))

  module _ (t : Tables) (p : Plane c n) (broken : IsBroken c n t) where
    -- What a statement on the sites answers, and the state after it.
    abbrev written : {A : Type 0} → Result (A × Tables) → Result A × Running c n
    written x = ((commit (calm t) x).0, record { db = (commit (calm t) x).1; plane = p })

    -- The statement leaves the rules.
    abbrev LeavesRules : {A : Type 0} → Result (A × Tables) → Type 0
    LeavesRules (ok (a, t')) = t'.rules.rows ≡ t.rules.rows
    LeavesRules (err e) = Unit {0}

    after-written :
        (t' : Tables)
        → t'.rules.rows ≡ t.rules.rows
        → (apply_reload (callback c n) (at c n t' p)).plane ≡ p
    unfolding apply_reload apply_reload_err
    after-written t' same = broken-stays (at c n t' p) refl (rw same broken)

    saved-IsUnapplied :
        (status : ℤ) (x : Result (Site × Tables))
        → LeavesRules x
        → ((saved_site (callback c n) status (written x)).0
            ≡ (saved_site none status (written x)).0)
          × ((saved_site (callback c n) status (written x)).1.plane ≡ p)
    saved-IsUnapplied status (ok (st, t')) same = (refl, after-written t' same)
    saved-IsUnapplied status (err e) same = (refl, refl)

    insert_site-LeavesRules : (st : Site) → LeavesRules (insert_site st t)
    insert_site-LeavesRules st = elim (Bool-cases (has_domain st.domain t.sites.rows)) [
      | inl taken ↦ rw taken tt
      | inr free ↦ rw free refl
    ]

    update_rows-LeavesRules : (st : Site) → LeavesRules (update_rows st t)
    update_rows-LeavesRules st = elim (Bool-cases (update_clashes st t.sites.rows)) [
      | inl clash ↦ rw clash tt
      | inr free ↦ rw free refl
    ]

    create_valid-IsUnapplied :
        (m : Moment) (r : Result Site) → IsUnapplied (λ f. create_valid f m r) (at c n t p)
    unfolding Sites.create_site
    create_valid-IsUnapplied m (err e) = (refl, refl)
    create_valid-IsUnapplied m (ok site) =
        let st = record site { created_at = m.now; updated_at = m.now } in
        saved-IsUnapplied (pos 201) (insert_site st t) (insert_site-LeavesRules st)

    update_valid-IsUnapplied :
        (m : Moment) (r : Result Site) → IsUnapplied (λ f. update_valid f m r) (at c n t p)
    unfolding Sites.update_site
    update_valid-IsUnapplied m (err e) = (refl, refl)
    update_valid-IsUnapplied m (ok site) =
        let st = record site { updated_at = m.now } in
        saved-IsUnapplied (pos 200) (update_rows st t) (update_rows-LeavesRules st)

    calm-IsUnapplied :
        (m : Moment) (body : Result Site) (id : Text)
        → IsUnapplied (λ f. create_site f m body) (at c n t p)
          × IsUnapplied (λ f. update_site f m id body) (at c n t p)
          × IsUnapplied (λ f. delete_site f id) (at c n t p)
    unfolding create_site update_site delete_site Sites.delete_site
    calm-IsUnapplied m (err e) id = ((refl, refl), (refl, refl), (refl, after-written _ refl))
    calm-IsUnapplied m (ok site) id = (
      create_valid-IsUnapplied m (validate_site site),
      update_valid-IsUnapplied m (validate_site (record site { id = id_param id })),
      (refl, after-written _ refl),
    )

  -- While the database works and the enabled rules that it stores do not compile, creating, changing and
  -- deleting a site answers what it answers without a callback, as if it had been applied, but the engines
  -- and the routes in use stay as they were.
  pub site_writes-IsUnapplied :
      (m : Moment) (body : Result Site) (id : Text) (s : Running c n)
      → IsHealthy s.db
      → IsBroken c n s.db.tables
      → IsUnapplied (λ f. create_site f m body) s
        × IsUnapplied (λ f. update_site f m id body) s
        × IsUnapplied (λ f. delete_site f id) s
  site_writes-IsUnapplied m body id s healthy broken =
      subst
        (λ db.
          IsUnapplied (λ f. create_site f m body) (record { db = db; plane = s.plane })
          × IsUnapplied (λ f. update_site f m id body) (record { db = db; plane = s.plane })
          × IsUnapplied (λ f. delete_site f id) (record { db = db; plane = s.plane }))
        (sym (calm-Db s.db s.db.tables healthy refl))
        (calm-IsUnapplied s.db.tables s.plane broken m body id)
