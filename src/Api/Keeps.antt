-- ===== src/Api/Keeps.antt =====
-- What the handlers of internal/api/api.go for sites and rules keep: the store's invariant, and any property of the plane
-- that a reload keeps.
pub mod Routes
use wafportal.Base.{
  Text, is_empty, Bool, true, false, Bool-cases, inl, inr, ◌||◌, Option, none, some, Result, ok,
  err, Error, ℤ, pos,
}
use wafportal.Store.Models.{Site, CustomRule}
use wafportal.Store.Db.{Db}
use wafportal.Store.Operations.Invariant.{IsValid}
use wafportal.Store.Operations.Calls.{
  KeepsValid, set_setting-KeepsValid, create_site-KeepsValid, update_site-KeepsValid,
  delete_site-KeepsValid, create_rule-KeepsValid, update_rule-KeepsValid, delete_rule-KeepsValid,
}
use wafportal.Store.Sites as Sites
use wafportal.Store.Operations.Reads.{
  get_setting-KeepsValid, list_sites-KeepsValid, get_site-KeepsValid, list_rules-KeepsValid,
  get_rule-KeepsValid, list_events-KeepsValid, stats-KeepsValid,
}
use wafportal.Store.Rules as Rules
use wafportal.Store.Events as Events
use wafportal.Store.Stats as Summary
use wafportal.Api.Events.{list_events, stats, filter_of, window_of}
use wafportal.Auth
use wafportal.Auth.Keeps.{check-Keeps, change_password-Keeps}
use wafportal.Api.Account
use wafportal.Api.Account.{answer_login, answer_change}
use wafportal.Auth.Primitives.{Crypto}
use wafportal.Auth.Session.{verify}
use wafportal.Api.{is_public, dispatch, guarded, handle}
use wafportal.Api.Wire.{Endpoint, Call, Body, Credentials, PasswordChange}
use wafportal.Api.State.{
  State, Reload, Moment, on_db, respond, deleted, apply_reload, apply_reload_err,
}
use wafportal.Api.Validate.{validate_site, id_param}
use wafportal.Api.Sites.{
  list_sites, get_site, create_site, update_site, delete_site, saved_site, create_valid,
  update_valid,
}
use wafportal.Api.Rules.{
  list_rules, get_rule, create_rule, update_rule, delete_rule, created_rule, keep_or_roll_back,
  updated_rule, keep_or_reject,
}

module _ {Plane : Type 0} (P : Plane → Type 0) where
  abbrev pub Inv : State Plane → Type 0
  Inv s = IsValid s.db.tables × P s.plane

  abbrev pub KeepsInv : Reload Plane → Type 0
  KeepsInv reload = (s : State Plane) → Inv s → Inv (apply_reload_err reload s).1

  pub on_db-Inv :
      {A : Type 0} (m : Db → A × Db) (s : State Plane) → KeepsValid m → Inv s → Inv (on_db m s).1
  on_db-Inv m s keeps (v, p) = (keeps s.db v, p)

  respond-Inv :
      {A : Type 0} (status : ℤ) (show : A → Body) (r : Result A × State Plane)
      → Inv r.1
      → Inv (respond status show r).1
  respond-Inv status show (ok a, s) v = v
  respond-Inv status show (err e, s) v = v

  pub read-Inv :
      {A : Type 0} (status : ℤ) (show : A → Body) (m : Db → Result A × Db) (s : State Plane)
      → KeepsValid m
      → Inv s
      → Inv (respond status show (on_db m s)).1
  read-Inv status show m s keeps v = respond-Inv status show (on_db m s) (on_db-Inv m s keeps v)

  module _ (reload : Reload Plane) (keeps : KeepsInv reload) where
    apply_reload-Inv : (s : State Plane) → Inv s → Inv (apply_reload reload s)
    unfolding apply_reload
    apply_reload-Inv s v = keeps s v

    pub deleted-Inv : (r : Result (Unit {0}) × State Plane) → Inv r.1 → Inv (deleted reload r).1
    deleted-Inv (ok _, s) v = apply_reload-Inv s v
    deleted-Inv (err e, s) v = v

    saved_site-Inv :
        (status : ℤ) (r : Result Site × State Plane) → Inv r.1 → Inv (saved_site reload status r).1
    saved_site-Inv status (ok site, s) v = apply_reload-Inv s v
    saved_site-Inv status (err e, s) v = v

    pub create_valid-Inv :
        (m : Moment) (r : Result Site) (s : State Plane) → Inv s → Inv (create_valid reload m r s).1
    create_valid-Inv m (err e) s v = v
    create_valid-Inv m (ok site) s v =
        saved_site-Inv (pos 201) _
          (on_db-Inv (Sites.create_site m.now site) s (create_site-KeepsValid m.now site) v)

    pub update_valid-Inv :
        (m : Moment) (r : Result Site) (s : State Plane) → Inv s → Inv (update_valid reload m r s).1
    update_valid-Inv m (err e) s v = v
    update_valid-Inv m (ok site) s v =
        saved_site-Inv (pos 200) _
          (on_db-Inv (Sites.update_site m.now site) s (update_site-KeepsValid m.now site) v)

    keep_or_roll_back-Inv :
        (rule : CustomRule) (r : Option Error × State Plane)
        → Inv r.1
        → Inv (keep_or_roll_back reload rule r).1
    keep_or_roll_back-Inv rule (none, s) v = v
    keep_or_roll_back-Inv rule (some e, s) v =
        on_db-Inv (Rules.delete_rule rule.id) s (delete_rule-KeepsValid rule.id) v

    created_rule-Inv :
        (r : Result CustomRule × State Plane) → Inv r.1 → Inv (created_rule reload r).1
    created_rule-Inv (err e, s) v = v
    created_rule-Inv (ok rule, s) v =
        keep_or_roll_back-Inv rule (apply_reload_err reload s) (keeps s v)

    keep_or_reject-Inv :
        (rule : CustomRule) (r : Option Error × State Plane)
        → Inv r.1
        → Inv (keep_or_reject reload rule r).1
    keep_or_reject-Inv rule (none, s) v = v
    keep_or_reject-Inv rule (some e, s) v = v

    updated_rule-Inv :
        (r : Result CustomRule × State Plane) → Inv r.1 → Inv (updated_rule reload r).1
    updated_rule-Inv (err e, s) v = v
    updated_rule-Inv (ok rule, s) v =
        keep_or_reject-Inv rule (apply_reload_err reload s) (keeps s v)

    pub create_rule-Inv :
        (m : Moment) (r : Result CustomRule) (s : State Plane)
        → Inv s
        → Inv (create_rule reload m r s).1
    unfolding create_rule
    create_rule-Inv m (err e) s v = v
    create_rule-Inv m (ok rule) s v =
        elim (Bool-cases (is_empty rule.name || is_empty rule.directive)) [
          | inl lacking ↦ rw lacking v
          | inr whole ↦ rw whole (
              created_rule-Inv _
                (on_db-Inv (Rules.create_rule m.now rule) s (create_rule-KeepsValid m.now rule) v))
        ]

    pub update_rule-Inv :
        (m : Moment) (id : Text) (r : Result CustomRule) (s : State Plane)
        → Inv s
        → Inv (update_rule reload m id r s).1
    unfolding update_rule
    update_rule-Inv m id (err e) s v = v
    update_rule-Inv m id (ok rule) s v =
        elim (Bool-cases (is_empty rule.name || is_empty rule.directive)) [
          | inl lacking ↦ rw lacking v
          | inr whole ↦ rw whole (
              updated_rule-Inv _ (
                on_db-Inv (Rules.update_rule m.now (record rule { id = id_param id })) s
                  (update_rule-KeepsValid m.now (record rule { id = id_param id })) v))
        ]
